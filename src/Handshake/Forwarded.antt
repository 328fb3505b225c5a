-- ===== src/Handshake/Forwarded.antt =====
-- From the response to a forwarded connection, in the running server.
use connauth.Common.{
  ℕ, suc, ◌+◌, ◌*◌, ◌<◌, ◌≡◌, refl, ap, ◌∙◌, String, true, false, some, List, [], ◌∷◌, arith,
  eq_iff, string_eq, nat_eq, eqb_refl, take, ok, get_elem?,
}
use connauth.World.{World}
use connauth.Protocol.{second}
use connauth.Protocol.Crypto.{Random}
use connauth.Limiter.Refinement.{Refines, count, drop_one, has_room, acquire_lem}
use connauth.Limiter.Schedule.{Connections, Reach-IsBounded}
use connauth.Limiter.Schedule
use connauth.Server.Runtime.Events.{Event, read, accept, begin, history}
use connauth.Server.Config.{Config, ForwardConfig}
use connauth.Server.Config.Check.{config_check_valid}
use connauth.Server.Access.{is_ip_denied}
use connauth.Server.Clients.{AuthorizedClientKey, ClientList, is_ip_authed}
use connauth.Server.Handler.{Clock, handle_auth_packet}
use connauth.Server.System.Safe.{Reach-IsServing}
use connauth.Server.Loops.{
  PortLoops, Sockets, received, is_nil, read_round, accepted, lets_in, accept_round,
}
use connauth.Server.Runtime.{
  Runtime, begin_main, set_port, let_in, set_clients, Reach, here, next, auth, port, reads, accepts,
  begins,
}
use connauth.Server.Runtime.Reached.{Reach-IsRunning}
use connauth.Server.Runtime.Stops.{Reach-trans, Served-get_elem}
use connauth.Handshake.Success.{LetIn}
use connauth.Handshake.Connect.{LetIn-is_ip_authed}

-- The server goes on by these events, the newest first, to a state in which the address has one more
-- connection with a slot at that port, and no other waits for its slot there that did not before.
pub record Forwards (w : World) (net : Sockets) (r : Runtime) (i : ℕ) (p : PortLoops) (ip : String)
    (events : List (Event w)) : Type 0 where
  pub after : Runtime
  pub port' : PortLoops
  pub run : Reach w net r after
  pub happened : history w net run ≡ events
  pub at : after.ports i ≡ some port'
  pub slot : count ip port'.connections.active ≡ suc (count ip p.connections.active)
  pub waiting : port'.waiting ≡ p.waiting

-- A goroutine that finds room in the limiter takes a slot.
begin_room :
    (c : Connections) (ip : String)
    → Refines c.limiter c.active
    → has_room c.limiter c.active ip ≡ true
    → count ip (Schedule.begin c ip).active ≡ suc (count ip c.active)
unfolding Schedule.begin
begin_room c ip r room = ground (arith, room, (acquire_lem c.limiter c.active ip r).0, eq_iff ip ip)

module _ (w : World) (c raw : Config) (net : Sockets) (checked_at : ℕ)
    (passed : config_check_valid w.lib raw checked_at ≡ ok c) where
  -- A connection of the address that isIPAuthed lets in now is forwarded, where the limiter has room.
  connects :
      {r₀ : Runtime} (r : Runtime) (i : ℕ) (p : PortLoops) (f : ForwardConfig) (l : ClientList)
      (ip : String) (now : ℕ) (run : Reach w net r₀ r)
      → Reach w net (begin_main w.lib net c) r
      → r.ports i ≡ some p
      → get_elem? c.forward_configs i ≡ some f
      → get_elem? r.server.clients i ≡ some l
      → (is_ip_authed w.lib c f l ip now).0 ≡ true
      → p.accepting ≡ true
      → p.closed ≡ false
      → has_room p.connections.limiter p.connections.active ip ≡ true
      → Forwards w net r₀ i p ip (begin i ip ∷ accept i (accepted ip now) ∷ history w net run)
  unfolding accept_round
  connects r i p f l ip now run reached at found held authed accepting unshut room =
      let v = Reach-IsRunning w c raw net checked_at passed reached in
      let config = (Reach-IsServing w c raw checked_at passed v.reached).same_config in
      let listed = ap (λ (d : Config). get_elem? d.forward_configs i) config ∙ found in
      let after = (is_ip_authed w.lib c f l ip now).1 in
      let entered = let_in (some (lets_in ip)) (record p { accepting = true }) in
      let s = set_port i entered (record r {
        server = record r.server { clients = set_clients i after r.server.clients };
      }) in
      let came : accept_round w.lib r.server.config f p.stopped (accepted ip now) l
          ≡ some (true, after, some (lets_in ip)) =
        rw config (ground (arith, authed)) in
      let b = v.ports i p at in
      let busy = record entered {
        waiting = drop_one ip entered.waiting;
        connections = Schedule.begin entered.connections ip;
      } in
      record {
        after = set_port i busy s;
        port' = busy;
        run =
            next
              (next run (
                port i f p at listed (
                  accepts (accepted ip now) l after true (some (lets_in ip)) accepting
                    (λ shut. absurd (ground (arith, shut, unshut))) held came)))
              (port i f entered (ground (arith, eqb_refl i)) listed
                (begins ip (ground (arith, eq_iff ip ip))));
        happened = refl;
        at = ground (arith, eqb_refl i);
        waiting = ground (arith, eq_iff ip ip);
        slot =
            begin_room p.connections ip
              (Reach-IsBounded b.max_global b.max_per_ip b.schedule).refines room;
      }

  module _ (key : AuthorizedClientKey) (granted_at : ℕ) (clock : Clock)
      (random_nonce random_seal : Random w.crypto) (datagram : List w.crypto.Byte) where
    -- In a server that was started with a configuration that passed the check and came to a state
    -- in which its read loop waits on an open socket and a forward port accepts: if handling a
    -- datagram lets a client in at that port, the limiter has room for its address and no deny rule
    -- matches it, then, for every moment before the client's entry expires, the server can go on by
    -- reading this datagram, accepting a connection of the address at that port at that moment and
    -- letting it ask the limiter, and nothing else, to a state in which the address has one more
    -- connection with a slot at that port and none more that waits for one.
    pub LetIn-Forwards :
        (r : Runtime) (i : ℕ) (p : PortLoops) (now : ℕ)
        → Reach w net (begin_main w.lib net c) r
        → (entry : LetIn c i key granted_at (
            handle_auth_packet w r.server clock random_nonce random_seal key.ip
              (take 4096 datagram)))
        → is_nil (take 4096 datagram) ≡ false
        → r.auth.reading ≡ true
        → r.auth.closed ≡ false
        → r.ports i ≡ some p
        → p.accepting ≡ true
        → p.closed ≡ false
        → has_room p.connections.limiter p.connections.active key.ip ≡ true
        → is_ip_denied w.lib c key.ip ≡ false
        → now < granted_at + entry.seconds * second
        → Forwards w net r i p key.ip (
            begin i key.ip
            ∷ accept i (accepted key.ip now)
            ∷ read (received clock random_nonce random_seal key.ip datagram)
            ∷ [])
    unfolding read_round
    LetIn-Forwards r i p now reached entry filled reading listening at accepting unshut room free
          early =
        let result =
          handle_auth_packet w r.server clock random_nonce random_seal key.ip
            (take 4096 datagram) in
        let s = record r {
          server = entry.handled.server;
          auth = record r.auth { reading = true };
        } in
        let event = received clock random_nonce random_seal key.ip datagram in
        let run : Reach w net r s = next here (
          auth (
            reads event true entry.handled.server reading
              (λ shut. absurd (ground (arith, shut, listening)))
              (ground (arith, filled, entry.returned)))) in
        let reached_s = Reach-trans w net reached run in
        let v = Reach-IsRunning w c raw net checked_at passed reached_s in
        let serving = Reach-IsServing w c raw checked_at passed v.reached in
        let found : get_elem? entry.handled.server.config.forward_configs i ≡ some entry.forward =
          ap (λ (d : Config). get_elem? d.forward_configs i) serving.same_config ∙ entry.at in
        let (l, held) =
          Served-get_elem entry.handled.server.config.forward_configs entry.handled.server.clients i
            entry.forward serving.good.served found in
        let authed =
          LetIn-is_ip_authed w.lib c i key granted_at result entry entry.forward l now held free
            early in
        connects s i p entry.forward l key.ip now run reached_s at entry.at held authed accepting
          unshut room
