-- ===== src/Server/System/Admission.antt =====
-- Where the entries of the client maps come from: an authorised response, and nothing else.
use connauth.Common.{ℕ, ◌≡◌, ◌⊎◌, inl, inr, String, true, some, List, string_eq, nat_eq, ok}
use connauth.World.{World}
use connauth.Protocol.Crypto.{Random}
use connauth.Server.Config.{Config}
use connauth.Server.Config.Check.{config_check_valid}
use connauth.Server.Clients.{
  AuthorizedClientKey, AuthorizedClientState, client_eq, authorize_client, init_client_list,
}
use connauth.Server.Clients.Grant.Everywhere.{entry_at, serving}
use connauth.Server.Handler.{Server, Clock, Handled, handle_auth_packet}
use connauth.Server.Handler.Response.{Answered, handle_auth_packet_cases}
use connauth.Server.System.{
  start, clean, Step, packet, cleans, refreshes, checks, Reach, here, next,
}
use connauth.Server.System.Origin.{
  refresh_at-entry, check_at-entry, init-entry, authorize_from-Origin,
}
use connauth.Server.System.Safe.{IsServing, Reach-IsServing}

module _ (w : World) (c : Config) (key : AuthorizedClientKey) (i : ℕ) where
  -- The handling of a packet that lets the client in at the forward port of that position.
  pub record LetInBy (before : Server) (clock : Clock) (peer : String) (bytes : List w.crypto.Byte)
      (handled : Handled w.crypto.Byte) : Type 0 where
    pub answered : Answered w before clock peer bytes handled
    pub same_client : key ≡ record { ip = peer; client_id = answered.response.client_id }
    pub authorized : answered.attempt.result.authorized ≡ true
    pub served :
        serving w.lib c key answered.response.port answered.response.token clock.at_grant
          c.forward_configs
        ≡ some i

  -- One of the packets of this run let the client in.
  pub data Admission : (s : Server) → Reach w (start c) s → Type 0 where
    by_packet :
        {s : Server} (run : Reach w (start c) s) (clock : Clock)
        (random_nonce random_seal : Random w.crypto) (peer : String) (bytes : List w.crypto.Byte)
        (h : Handled w.crypto.Byte)
        (e : handle_auth_packet w s clock random_nonce random_seal peer bytes ≡ some h)
        → LetInBy s clock peer bytes h
        → Admission h.server (next run (packet clock random_nonce random_seal peer bytes h e))
    earlier :
        {s t : Server} {run : Reach w (start c) s} (st : Step w s t)
        → Admission s run
        → Admission t (next run st)

  -- An entry after a packet was there before, or this packet let its client in.
  pub packet-LetInBy :
      {s : Server} (clock : Clock) (random_nonce random_seal : Random w.crypto) (peer : String)
      (bytes : List w.crypto.Byte) (h : Handled w.crypto.Byte) (st : AuthorizedClientState)
      → IsServing c s
      → handle_auth_packet w s clock random_nonce random_seal peer bytes ≡ some h
      → entry_at i key h.server.clients ≡ some st
      → (entry_at i key s.clients ≡ some st) ⊎ LetInBy s clock peer bytes h
  unfolding authorize_client
  packet-LetInBy {s} clock random_nonce random_seal peer bytes h st v e there =
      elim (handle_auth_packet_cases w s clock peer bytes random_nonce random_seal h e) [
        | inl harmless ↦ inl (rw (← harmless.same_clients) there)
        | inr a ↦
            let client : AuthorizedClientKey = record {
              ip = peer;
              client_id = a.response.client_id;
            } in
            elim (authorize_from-Origin key st w.lib s.config client a.response.port
              a.response.token clock.at_grant s.config.forward_configs s.clients h.server.clients
              a.attempt.result i v.good.served a.attempt.authorized there) [
                | inl old ↦ inl old
                | inr (same, allowed, at) ↦ inr (record {
                  answered = a;
                  same_client = same;
                  authorized = allowed;
                  served = rw (← v.same_config, same) at;
                })
              ]
      ]

  module _ (raw : Config) (now : ℕ) (passed : config_check_valid w.lib raw now ≡ ok c) where
    -- On a server that was started with a configuration that passed the check, every entry of a
    -- client map goes back to a packet that was handled in this very run: it opened to a response
    -- in order, from that client's address and with its id, to a challenge that was pending for it,
    -- and the response was authorised, that map's forward configuration being the first that serves
    -- its port and lets its token in.
    pub entry-Admission :
        {s : Server} (st : AuthorizedClientState) (run : Reach w (start c) s)
        → entry_at i key s.clients ≡ some st
        → Admission s run
    unfolding start init_client_list clean
    entry-Admission st here there = absurd (init-entry key st c.forward_configs i there)
    entry-Admission st (next run (packet clock random_nonce random_seal peer bytes h e)) there =
        elim (packet-LetInBy clock random_nonce random_seal peer bytes h st
          (Reach-IsServing w c raw now passed run) e there) [
            | inl old ↦
                earlier (packet clock random_nonce random_seal peer bytes h e)
                  (entry-Admission st run old)
            | inr a ↦ by_packet run clock random_nonce random_seal peer bytes h e a
          ]
    entry-Admission st (next run (cleans t)) there =
        earlier (cleans t) (entry-Admission st run there)
    entry-Admission st (next {t = s} run (refreshes j t)) there =
        let v = Reach-IsServing w c raw now passed run in
        earlier (refreshes j t) (
          entry-Admission st run
            (refresh_at-entry key st i j t s.config.forward_configs s.clients v.good.served there))
    entry-Admission st (next {t = s} run (checks j ip t)) there =
        let v = Reach-IsServing w c raw now passed run in
        earlier (checks j ip t) (
          entry-Admission st run (
            check_at-entry key st w.lib s.config i j ip t s.config.forward_configs s.clients
              v.good.served there))
