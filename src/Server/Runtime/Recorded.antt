-- ===== src/Server/Runtime/Recorded.antt =====
-- Every step of a running server keeps the record of its run.
use connauth.Common.{
  ℕ, ◌<◌, ◌≡◌, inl, inr, refl, Bool, true, Option, none, some, arith, eq_iff, ◌&&◌, nat_eq,
  nat_eqb_iff, ◌==◌, string_eq, ok, get_elem?, Bool-cases,
}
use connauth.World.{World}
use connauth.Server.Config.{Config, ForwardConfig}
use connauth.Server.Config.Check.{config_check_valid}
use connauth.Server.Clients.{
  AuthorizedClientKey, AuthorizedClientState, ClientList, client_eq, init_client_list,
}
use connauth.Server.Clients.Grant.Everywhere.{entry_at}
use connauth.Server.System
use connauth.Server.System.{refresh_at, check_at, clean}
use connauth.Server.System.Origin.{refresh_at-entry, check_at-entry, init-entry}
use connauth.Server.System.Safe.{IsServing, Reach-IsServing}
use connauth.Server.System.Gate.{is_ip_authed-Cause}
use connauth.Server.Loops.{
  PortLoops, Sockets, read_failed, received, read_round, AcceptEvent, accept_failed, accepted,
  Admitted, lets_in, drops_after, accept_round, start_forward,
}
use connauth.Server.Runtime.{
  Runtime, begin_main, set_port, let_in, set_clients, AuthStep, PortStep, here, next, auth, port,
  starts, closes_stop, closes_socket, reads, cleans, closes_listener, accepts, begins, finishes,
  refreshes,
}
use connauth.Server.Runtime.Refines.{
  held_by, accept_round_cases, accept_round_failed, set_clients_same, check_at-set_clients,
}
use connauth.Server.Runtime.Reached.{Reach-IsRunning}
use connauth.Server.Runtime.History.{Run, Granted, by_packet, CameIn, by_accept, IsRecorded}
use connauth.Server.Runtime.History
use connauth.Server.Runtime.Kept.{
  begin-held, finish-held, start_forward-idle, read_round-entry, held_before, kept, same_held,
}

module _ (w : World) (c raw : Config) (net : Sockets) (checked_at : ℕ)
    (passed : config_check_valid w.lib raw checked_at ≡ ok c) where
  serving : {r : Runtime} → Run w c net r → IsServing c r.server
  serving run =
      Reach-IsServing w c raw checked_at passed
        (Reach-IsRunning w c raw net checked_at passed run).reached

  begin_main-IsRecorded : IsRecorded w c net (begin_main w.lib net c) here
  unfolding begin_main System.start init_client_list
  begin_main-IsRecorded = record {
    entries = λ key i state there. absurd (init-entry key state c.forward_configs i there);
    held = λ i p ip at h. absurd (cc at);
  }

  AuthStep-IsRecorded :
      {r t : Runtime} (run : Run w c net r) (st : AuthStep w r t)
      → IsRecorded w c net r run
      → IsRecorded w c net t (next run (auth st))
  unfolding clean read_round
  AuthStep-IsRecorded run closes_stop v =
      kept w c net run (auth closes_stop) (λ key i state h. h) (λ i p ip at h. (p, at, h)) v
  AuthStep-IsRecorded run (closes_socket stopped) v =
      kept w c net run (auth (closes_socket stopped)) (λ key i state h. h)
        (λ i p ip at h. (p, at, h)) v
  AuthStep-IsRecorded run (cleans now again runs returns) v =
      kept w c net run (auth (cleans now again runs returns)) (λ key i state h. h)
        (λ i p ip at h. (p, at, h)) v
  AuthStep-IsRecorded {r} run (reads read_failed again s runs fails h) v =
      let same : r.server ≡ s = cc h in
      kept w c net run (auth (reads read_failed again s runs fails h))
        (λ key i state there. rw same there) (λ i p ip at h. (p, at, h)) v
  AuthStep-IsRecorded {r} run (reads (received clock rn rs peer datagram) again s runs fails read)
        v =
      let st : AuthStep w r (record r { server = s; auth = record r.auth { reading = again } }) =
        reads (received clock rn rs peer datagram) again s runs fails read in
      record {
        entries = λ key i state there.
            elim (read_round-entry w c r.auth.stopped again clock rn rs peer datagram r.server s key
              i state (serving run) read there) [
                | inl old ↦ History.Granted.earlier (auth st) (v.entries key i state old)
                | inr (h, e, a) ↦
                    by_packet run clock rn rs peer datagram again s runs fails read h e a
              ];
        held = λ i p ip at h. History.CameIn.earlier (auth st) (v.held i p ip at h);
      }

  -- An accept round puts no entry into the map.
  accepts-entry :
      {r : Runtime} (run : Run w c net r) (i : ℕ) (f : ForwardConfig) (l after : ClientList)
      (stopped again : Bool) (a : Option Admitted) (e : AcceptEvent) (key : AuthorizedClientKey)
      (j : ℕ) (state : AuthorizedClientState)
      → get_elem? r.server.config.forward_configs i ≡ some f
      → get_elem? r.server.clients i ≡ some l
      → accept_round w.lib r.server.config f stopped e l ≡ some (again, after, a)
      → entry_at j key (set_clients i after r.server.clients) ≡ some state
      → entry_at j key r.server.clients ≡ some state
  accepts-entry {r} run i f l after stopped again a accept_failed key j state found held came
        there =
      let facts = accept_round_failed w.lib r.server.config f stopped l after again a came in
      rw (← set_clients_same i r.server.clients l held, facts.0) there
  accepts-entry {r} run i f l after stopped again a (accepted ip now) key j state found held came
        there =
      let facts = accept_round_cases w.lib r.server.config f stopped ip now l after again a came in
      let d = r.server.config in
      check_at-entry key state w.lib d j i ip now d.forward_configs r.server.clients
        (serving run).good.served
        (rw
          (
            check_at-set_clients w.lib d i ip now d.forward_configs r.server.clients f l found held,
            ← facts.1,
          )
          there)

  -- Whatever a port holds after an accept round, it held before, or this round let it in.
  accepts-IsRecorded :
      {r : Runtime} (run : Run w c net r) (i : ℕ) (f : ForwardConfig) (p : PortLoops)
      (at : r.ports i ≡ some p) (found : get_elem? r.server.config.forward_configs i ≡ some f)
      (e : AcceptEvent) (l after : ClientList) (again : Bool) (a : Option Admitted)
      (runs : p.accepting ≡ true) (fails : p.closed ≡ true → e ≡ accept_failed)
      (held : get_elem? r.server.clients i ≡ some l)
      (came : accept_round w.lib r.server.config f p.stopped e l ≡ some (again, after, a))
      → IsRecorded w c net r run
      → IsRecorded w c net
          (set_port i (let_in a (record p { accepting = again })) (record r {
            server = record r.server { clients = set_clients i after r.server.clients };
          }))
          (next run (port i f p at found (accepts e l after again a runs fails held came)))
  accepts-IsRecorded {r} run i f p at found e l after again none runs fails held came v =
      kept w c net run (port i f p at found (accepts e l after again none runs fails held came))
        (λ key j state there.
          accepts-entry run i f l after p.stopped again none e key j state found held came there)
        (same_held w c net r i p (record p { accepting = again }) at (λ ip h. h)) v
  accepts-IsRecorded {r} run i f p at found e l after again (some (drops_after d)) runs fails held
        came v =
      kept w c net run
        (port i f p at found (accepts e l after again (some (drops_after d)) runs fails held came))
        (λ key j state there.
          accepts-entry run i f l after p.stopped again (some (drops_after d)) e key j state found
            held came there)
        (same_held w c net r i p (record p { accepting = again }) at (λ ip h. h)) v
  accepts-IsRecorded {r} run i f p at found accept_failed l after again (some (lets_in ip)) runs
        fails held came v =
      absurd (
        cc
          (accept_round_failed w.lib r.server.config f p.stopped l after again (some (lets_in ip))
            came).1)
  accepts-IsRecorded {r} run i f p at found (accepted peer now) l after again (some (lets_in ip))
        runs fails held came v =
      let s = serving run in
      let entered =
        (accept_round_cases w.lib r.server.config f p.stopped peer now l after again
            (some (lets_in ip)) came).2
          ip refl in
      let (not_denied, cause) =
        is_ip_authed-Cause w c i f l ip now r.server s held
          (rw (← s.same_config, ← entered.0) entered.1) in
      let st =
        port i f p at found
          (accepts (accepted peer now) l after again (some (lets_in ip)) runs fails held came) in
      record {
        entries = λ key j state there. History.Granted.earlier st (
            v.entries key j state (
              accepts-entry run i f l after p.stopped again (some (lets_in ip)) (accepted peer now)
                key j state found held came there));
        held = λ j q ip' at' h. elim (Bool-cases (j == i && ip == ip')) [
          | inl both ↦
              let here' : j ≡ i = (nat_eqb_iff j i).0 (ground (arith, both)) in
              let same : ip ≡ ip' = (eq_iff ip ip').0 (ground (arith, both)) in
              rw (here', ← same)
                (by_accept run f p at found peer now l after again (some (lets_in ip)) runs fails
                  held came entered.0 refl (rw (← s.same_config) found) not_denied
                  (elim cause [
                    | inl static ↦ inl static
                    | inr (client_id, state, there) ↦ inr (
                      client_id,
                      v.entries (record { ip = ip; client_id = client_id }) i state there,
                    )
                  ]))
          | inr other ↦
              let (q', at'', h') =
                held_before r i p ip (record p { accepting = again }) at (refl, refl) j q ip' other
                  at' h in
              History.CameIn.earlier st (v.held j q' ip' at'' h')
        ];
      }

  PortStep-IsRecorded :
      {r : Runtime} {i : ℕ} {f : ForwardConfig} {p : PortLoops} {t : Runtime} (run : Run w c net r)
      (at : r.ports i ≡ some p) (found : get_elem? r.server.config.forward_configs i ≡ some f)
      (st : PortStep w r i f p t)
      → IsRecorded w c net r run
      → IsRecorded w c net t (next run (port i f p at found st))
  PortStep-IsRecorded {r} {i = i} {f} {p} run at found closes_stop v =
      kept w c net run (port i f p at found closes_stop) (λ key j state h. h)
        (same_held w c net r i p (record p { stopped = true }) at (λ ip h. h)) v
  PortStep-IsRecorded {r} {i = i} {f} {p} run at found (closes_listener stopped) v =
      kept w c net run (port i f p at found (closes_listener stopped)) (λ key j state h. h)
        (same_held w c net r i p (record p { closed = true }) at (λ ip h. h)) v
  PortStep-IsRecorded {i = i} {f} {p} run at found (accepts e l after again a runs fails held came)
        v =
      accepts-IsRecorded run i f p at found e l after again a runs fails held came v
  PortStep-IsRecorded {r} {i = i} {f} {p} run at found (begins ip waits) v =
      kept w c net run (port i f p at found (begins ip waits)) (λ key j state h. h)
        (same_held w c net r i p _ at (λ j h. begin-held p ip j waits h)) v
  PortStep-IsRecorded {r} {i = i} {f} {p} run at found (finishes ip held) v =
      kept w c net run (port i f p at found (finishes ip held)) (λ key j state h. h)
        (same_held w c net r i p _ at (λ j h. finish-held p ip j held h)) v
  PortStep-IsRecorded {r} {i = i} {f} {p} run at found (refreshes now again runs returns) v =
      kept w c net run (port i f p at found (refreshes now again runs returns))
        (λ key j state there.
          refresh_at-entry key state j i now r.server.config.forward_configs r.server.clients
            (serving run).good.served there)
        (same_held w c net r i p (record p { refreshing = again }) at (λ ip h. h)) v

  starts-IsRecorded :
      {r : Runtime} (run : Run w c net r) (i : ℕ) (f : ForwardConfig) (p : PortLoops)
      (free : r.ports i ≡ none) (found : get_elem? r.server.config.forward_configs i ≡ some f)
      (bound : start_forward net f ≡ some (ok p))
      → IsRecorded w c net r run
      → IsRecorded w c net (set_port i p r) (next run (starts i f p free found bound))
  starts-IsRecorded {r} run i f p free found bound v =
      kept w c net run (starts i f p free found bound) (λ key j state h. h)
        (λ j q ip h held. elim (Bool-cases (j == i)) [
          | inl same ↦
              let e : p ≡ q = ground (arith, h, same) in
              let was : 0 < held_by ip p = rw e held in
              absurd (ground (arith, start_forward-idle net f p ip bound, was))
          | inr other ↦ (q, ground (arith, h, other), held)
        ])
        v

  pub Reach-IsRecorded : {r : Runtime} (run : Run w c net r) → IsRecorded w c net r run
  Reach-IsRecorded here = begin_main-IsRecorded
  Reach-IsRecorded (next run (auth st)) = AuthStep-IsRecorded run st (Reach-IsRecorded run)
  Reach-IsRecorded (next run (starts i f p free found bound)) =
      starts-IsRecorded run i f p free found bound (Reach-IsRecorded run)
  Reach-IsRecorded (next run (port i f p at found st)) =
      PortStep-IsRecorded run at found st (Reach-IsRecorded run)
