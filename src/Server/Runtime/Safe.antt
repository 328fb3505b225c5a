-- ===== src/Server/Runtime/Safe.antt =====
-- What holds of a running server, and that the steps of its loops keep it.
use connauth.Common.{
  ℕ, ◌≡◌, refl, ap, inl, inr, String, Bool, true, false, Option, some, List, arith, nat_eq,
  nat_eqb_iff, ◌==◌, string_eq, if◌then◌else◌, get_elem?, Bool-cases, take, Option-cases,
}
use connauth.World.{World}
use connauth.Server.Config.{Config, ForwardConfig}
use connauth.Server.Clients.{ClientList, is_ip_authed}
use connauth.Server.Handler.{Server, handle_auth_packet}
use connauth.Server.System
use connauth.Server.System.{check, packet, checks}
use connauth.Server.Loops.{
  PortLoops, Sockets, wait_for_auth, ReadEvent, read_failed, received, read_round, AcceptEvent,
  accept_failed, accepted, Admitted, accept_round, is_nil,
}
use connauth.Server.Runtime.{
  Runtime, set_port, let_in, set_clients, begin_main, AuthStep, reads, cleans, closes_stop,
  closes_socket,
}
use connauth.Server.Runtime.Refines.{
  IsPort, loops-IsPort, let_in-IsPort, accept_round_cases, accept_round_failed, set_clients_same,
  check_at-set_clients,
}

module _ (w : World) (c : Config) where
  read_round-Reach :
      (stopped again : Bool) (e : ReadEvent w) (s t : Server)
      → read_round w stopped e s ≡ some (again, t)
      → System.Reach w (System.start c) s
      → System.Reach w (System.start c) t
  unfolding read_round
  read_round-Reach stopped again read_failed s t h r = let same : s ≡ t = cc h in rw (← same) r
  read_round-Reach stopped again (received clock rn rs peer datagram) s t h r =
      elim (Bool-cases (is_nil (take 4096 datagram))) [
        | inl empty ↦ let same : s ≡ t = ground (arith, h, empty) in rw (← same) r
        | inr bytes ↦
            elim (Option-cases (handle_auth_packet w s clock rn rs peer (take 4096 datagram))) [
              | inl e ↦ absurd (ground (arith, h, bytes, e))
              | inr (handled, e) ↦
                  let same : handled.server ≡ t = ground (arith, h, bytes, e) in
                  rw (← same)
                    (System.next r (packet clock rn rs peer (take 4096 datagram) handled e))
            ]
      ]

  read_round-again :
      (stopped again : Bool) (e : ReadEvent w) (s t : Server)
      → read_round w stopped e s ≡ some (again, t)
      → again ≡ false
      → stopped ≡ true
  unfolding read_round
  read_round-again stopped again read_failed s t h ends = ground (arith, h, ends)
  read_round-again stopped again (received clock rn rs peer datagram) s t h ends =
      elim (Bool-cases (is_nil (take 4096 datagram))) [
        | inl empty ↦ absurd (ground (arith, h, empty, ends))
        | inr bytes ↦
            elim (Option-cases (handle_auth_packet w s clock rn rs peer (take 4096 datagram))) [
              | inl e ↦ absurd (ground (arith, h, bytes, e))
              | inr (handled, e) ↦ absurd (ground (arith, h, bytes, e, ends))
            ]
      ]

  module _ (net : Sockets) where
    -- The state is one of Server/System, each port's connections are as Limiter/Schedule has them,
    -- and a loop that was started has not ended before it was stopped.
    pub record IsRunning (r : Runtime) : Type 0 where
      pub reached : System.Reach w (System.start c) r.server
      pub ports : (i : ℕ) (p : PortLoops) → r.ports i ≡ some p → IsPort w c i p
      pub socket : r.auth.closed ≡ true → r.auth.stopped ≡ true
      pub reading :
          (begin_main w.lib net c).auth.reading ≡ true
          → r.auth.reading ≡ false
          → r.auth.stopped ≡ true

    update-IsPort :
        (r : Runtime) (i : ℕ) (p : PortLoops)
        → IsPort w c i p
        → ((j : ℕ) (q : PortLoops) → r.ports j ≡ some q → IsPort w c j q)
        → (j : ℕ) (q : PortLoops) → (if j == i then some p else r.ports j) ≡ some q
        → IsPort w c j q
    update-IsPort r i p new old j q h = elim (Bool-cases (j == i)) [
      | inl same ↦ let e : p ≡ q = ground (arith, h, same) in rw (← e, (nat_eqb_iff j i).0 same) new
      | inr other ↦ old j q (ground (arith, h, other))
    ]

    pub begin_main-IsRunning : IsRunning (begin_main w.lib net c)
    unfolding begin_main wait_for_auth
    begin_main-IsRunning = record {
      reached = System.here;
      ports = λ i p h. cc h;
      socket = λ h. ground (arith, h);
      reading = λ started h. ground (arith, started, h);
    }

    pub AuthStep-IsRunning : {r t : Runtime} → AuthStep w r t → IsRunning r → IsRunning t
    AuthStep-IsRunning {r} closes_stop v = record {
      reached = v.reached;
      ports = v.ports;
      socket = λ h. refl;
      reading = λ started h. refl;
    }
    AuthStep-IsRunning {r} (closes_socket stopped) v = record {
      reached = v.reached;
      ports = v.ports;
      socket = λ h. stopped;
      reading = v.reading;
    }
    AuthStep-IsRunning {r} (reads e again s runs fails h) v = record {
      reached = read_round-Reach r.auth.stopped again e r.server s h v.reached;
      ports = v.ports;
      socket = v.socket;
      reading = λ started ends. read_round-again r.auth.stopped again e r.server s h ends;
    }
    AuthStep-IsRunning {r} (cleans now again runs returns) v = record {
      reached = System.next v.reached (System.cleans now);
      ports = v.ports;
      socket = v.socket;
      reading = v.reading;
    }

    pub put_port-IsRunning :
        (r : Runtime) (s : Server) (i : ℕ) (p : PortLoops)
        → System.Reach w (System.start c) s
        → IsPort w c i p
        → IsRunning r
        → IsRunning (set_port i p (record r { server = s }))
    put_port-IsRunning r s i p reached q v = record {
      reached = reached;
      ports = update-IsPort r i p q v.ports;
      socket = v.socket;
      reading = v.reading;
    }

    module _ (r : Runtime) (i : ℕ) (f : ForwardConfig) (p : PortLoops) (l : ClientList)
        (v : IsRunning r) (same_config : r.server.config ≡ c) (listens : r.ports i ≡ some p)
        (at : get_elem? c.forward_configs i ≡ some f)
        (found : get_elem? r.server.clients i ≡ some l) where
      pub check_same :
          (ip : String) (now : ℕ)
          → check w r.server i ip now ≡ record r.server {
            clients = set_clients i (is_ip_authed w.lib c f l ip now).1 r.server.clients;
          }
      check_same ip now =
          ap (λ (ls : List ClientList). record r.server { clients = ls })
            (rw same_config (
              check_at-set_clients w.lib c i ip now c.forward_configs r.server.clients f l at
                found))

      pub accepts-IsRunning :
          (e : AcceptEvent) (after : ClientList) (again : Bool) (a : Option Admitted)
          → accept_round w.lib c f p.stopped e l ≡ some (again, after, a)
          → IsRunning (
              set_port i (let_in a (record p { accepting = again })) (record r {
                server = record r.server { clients = set_clients i after r.server.clients };
              }))
      accepts-IsRunning accept_failed after again a h =
          let facts = accept_round_failed w.lib c f p.stopped l after again a h in
          let q = v.ports i p listens in
          put_port-IsRunning r (record r.server { clients = set_clients i after r.server.clients })
            i (let_in a (record p { accepting = again }))
            (rw (← facts.0, set_clients_same i r.server.clients l found) v.reached)
            (rw facts.1 (
              loops-IsPort w c i p q p.stopped p.closed again p.refreshing q.listener facts.2
                q.refreshing))
            v
      accepts-IsRunning (accepted ip now) after again a h =
          let facts = accept_round_cases w.lib c f p.stopped ip now l after again a h in
          let q = v.ports i p listens in
          put_port-IsRunning r (record r.server { clients = set_clients i after r.server.clients })
            i (let_in a (record p { accepting = again }))
            (rw (facts.1, ← check_same ip now) (System.next v.reached (checks i ip now)))
            (let_in-IsPort w c i (record p { accepting = again })
              (loops-IsPort w c i p q p.stopped p.closed again p.refreshing q.listener
                (λ ends. absurd (ground (arith, facts.0, ends))) q.refreshing)
              a)
            v
