-- ===== src/Examples/Running.antt =====
-- The sample server running: a port is bound, and a connection from the office's network comes in.
use connauth.Common.{◌≡◌, refl, true, false, some, [], ok, arith}
use connauth.Limiter.Schedule.{begin}
use connauth.Server.Access.{is_ip_denied, is_static_ip_allowed, is_ip_match_rules, is_ip_match_rule}
use connauth.Server.Clients.{is_ip_authed, init_client_list}
use connauth.Server.System
use connauth.Server.Loops.{
  PortLoops, Sockets, fresh_port, start_forward, wait_for_auth, accepted, lets_in, accept_round,
}
use connauth.Server.Runtime.{
  Runtime, begin_main, set_port, let_in, set_clients, Reach, here, next, port, starts, accepts,
  begins,
}
use connauth.Server.Runtime.Reached.{EndsOnStop, Reach-EndsOnStop}
use connauth.Server.Runtime.Guarded.{IsGuarded, Reach-IsGuarded}
use connauth.Examples.{sample_world, sample_library}
use connauth.Examples.Settings.{settings, settings_ready, shell_port_ready}
use connauth.Examples.SettingsRuns.{settings_pass}

abbrev pub sockets : Sockets
sockets = record { listens_udp = λ addr. true; listens_tcp = λ p. true }

abbrev pub begun : Runtime
begun = begin_main sample_library sockets settings_ready

abbrev pub bound_port : PortLoops
bound_port = fresh_port 1024 4

abbrev pub bound : Runtime
bound = set_port 0 bound_port begun

abbrev office_port : PortLoops
office_port = let_in (some (lets_in "198.51.100.7")) (record bound_port { accepting = true })

abbrev entered : Runtime
entered = set_port 0 office_port (record bound {
  server = record bound.server { clients = set_clients 0 [] bound.server.clients };
})

abbrev busy_port : PortLoops
busy_port = record office_port {
  waiting = [];
  connections = begin office_port.connections "198.51.100.7";
}

abbrev busy : Runtime
busy = set_port 0 busy_port entered

pub port_bound : start_forward sockets shell_port_ready ≡ some (ok bound_port)
unfolding start_forward
port_bound = refl

office_accepted :
    accept_round sample_library settings_ready shell_port_ready false (accepted "198.51.100.7" 5) []
    ≡ some (true, [], some (lets_in "198.51.100.7"))
unfolding accept_round is_ip_authed is_ip_denied is_static_ip_allowed is_ip_match_rules
    is_ip_match_rule
office_accepted = refl

busy-Reach : Reach sample_world sockets begun busy
unfolding begin_main System.start wait_for_auth init_client_list
busy-Reach =
    next
      (next (next here (starts 0 shell_port_ready bound_port refl refl port_bound)) (
        port 0 shell_port_ready bound_port refl refl (
          accepts (accepted "198.51.100.7" 5) [] [] true (some (lets_in "198.51.100.7")) refl
            (λ h. cc h) refl office_accepted)))
      (port 0 shell_port_ready office_port refl refl (begins "198.51.100.7" (ground arith)))

Reach-IsGuarded_example : IsGuarded sample_world settings_ready sockets 0 busy_port busy busy-Reach
Reach-IsGuarded_example =
    Reach-IsGuarded sample_world settings_ready settings sockets 1000 settings_pass 0 busy_port
      busy-Reach refl

Reach-EndsOnStop_example : EndsOnStop sample_world settings_ready sockets busy
Reach-EndsOnStop_example =
    Reach-EndsOnStop sample_world settings_ready settings sockets 1000 settings_pass busy-Reach
