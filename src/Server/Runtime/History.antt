-- ===== src/Server/Runtime/History.antt =====
-- What a run of the server says of its state: which of its steps put an entry into a client map, and
-- which one took a connection that is still held.
use connauth.Common.{
  ℕ, ◌<◌, ◌≡◌, ◌⊎◌, String, Bool, true, false, Option, some, List, nat_eq, string_eq, get_elem?,
  take,
}
use connauth.World.{World}
use connauth.Protocol.Crypto.{Random}
use connauth.Server.Config.{Config, ForwardConfig}
use connauth.Server.Access.{is_static_ip_allowed, is_ip_denied}
use connauth.Server.Clients.{AuthorizedClientKey, AuthorizedClientState, ClientList, client_eq}
use connauth.Server.Clients.Grant.Everywhere.{entry_at}
use connauth.Server.Handler.{Server, Clock, Handled, handle_auth_packet}
use connauth.Server.System.Admission.{LetInBy}
use connauth.Server.Loops.{
  PortLoops, Sockets, read_failed, received, read_round, accept_failed, accepted, Admitted, lets_in,
  accept_round,
}
use connauth.Server.Runtime.{
  Runtime, begin_main, set_port, let_in, set_clients, Step, Reach, next, auth, port, reads, accepts,
}
use connauth.Server.Runtime.Refines.{held_by}

module _ (w : World) (c : Config) (net : Sockets) where
  abbrev pub Run : Runtime → Type 0
  Run r = Reach w net (begin_main w.lib net c) r

  -- One of the datagrams that this run read let the client in at the port of that position.
  pub data Granted (key : AuthorizedClientKey) (i : ℕ) : (r : Runtime) → Run r → Type 0 where
    by_packet :
        {r : Runtime} (run : Run r) (clock : Clock) (random_nonce random_seal : Random w.crypto)
        (peer : String) (datagram : List w.crypto.Byte) (again : Bool) (s : Server)
        (reading : r.auth.reading ≡ true)
        (fails : r.auth.closed ≡ true
          → received clock random_nonce random_seal peer datagram ≡ read_failed)
        (read : read_round w r.auth.stopped
            (received clock random_nonce random_seal peer datagram)
            r.server
          ≡ some (again, s))
        (h : Handled w.crypto.Byte)
        → handle_auth_packet w r.server clock random_nonce random_seal peer (take 4096 datagram)
          ≡ some h
        → LetInBy w c key i r.server clock peer (take 4096 datagram) h
        → Granted key i
            (record r { server = s; auth = record r.auth { reading = again } })
            (next run (
              auth (
                reads
                  (received clock random_nonce random_seal peer datagram)
                  again
                  s
                  reading
                  fails
                  read)))
    earlier :
        {r t : Runtime} {run : Run r} (st : Step w net r t)
        → Granted key i r run
        → Granted key i t (next run st)

  -- One of the connections that this run accepted at the port of that position came from the address,
  -- and was let in: no deny rule matches, and an allow rule does or a client was let in before.
  pub data CameIn (i : ℕ) (ip : String) : (r : Runtime) → Run r → Type 0 where
    by_accept :
        {r : Runtime} (run : Run r) (f : ForwardConfig) (p : PortLoops) (at : r.ports i ≡ some p)
        (found : get_elem? r.server.config.forward_configs i ≡ some f) (peer : String) (now : ℕ)
        (l after : ClientList) (again : Bool) (a : Option Admitted) (runs : p.accepting ≡ true)
        (fails : p.closed ≡ true → accepted peer now ≡ accept_failed)
        (held : get_elem? r.server.clients i ≡ some l)
        (came : accept_round w.lib r.server.config f p.stopped (accepted peer now) l
          ≡ some (again, after, a))
        → peer ≡ ip
        → a ≡ some (lets_in ip)
        → get_elem? c.forward_configs i ≡ some f
        → is_ip_denied w.lib c ip ≡ false
        → (is_static_ip_allowed w.lib c f ip ≡ true)
          ⊎ ((client_id : String) × Granted (record { ip = ip; client_id = client_id }) i r run)
        → CameIn i ip
            (set_port i (let_in a (record p { accepting = again })) (record r {
              server = record r.server { clients = set_clients i after r.server.clients };
            }))
            (next run (
              port i f p at found
                (accepts (accepted peer now) l after again a runs fails held came)))
    earlier :
        {r t : Runtime} {run : Run r} (st : Step w net r t)
        → CameIn i ip r run
        → CameIn i ip t (next run st)

  -- What has happened in the run accounts for every entry and for every connection.
  pub record IsRecorded (r : Runtime) (run : Run r) : Type 0 where
    pub entries :
        (key : AuthorizedClientKey) (i : ℕ) (st : AuthorizedClientState)
        → entry_at i key r.server.clients ≡ some st
        → Granted key i r run
    pub held :
        (i : ℕ) (p : PortLoops) (ip : String)
        → r.ports i ≡ some p
        → 0 < held_by ip p
        → CameIn i ip r run
