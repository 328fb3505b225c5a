-- ===== src/Examples/Forwarding.antt =====
-- The sample client's response read by the running server, and its connection forwarded.
use connauth.Common.{◌*◌, ◌≡◌, refl, true, false, some, [], ◌∷◌, arith, lookup}
use connauth.Protocol.{second}
use connauth.Limiter.{new_connection_limiter}
use connauth.Limiter.Refinement.{has_room}
use connauth.Server.Clients.{init_client_list}
use connauth.Server.System
use connauth.Server.Loops.{wait_for_auth, accepted, received, read_round}
use connauth.Server.Runtime.{Runtime, begin_main, Reach, here, next, auth, reads, starts}
use connauth.Server.Runtime.Events.{read, accept, begin}
use connauth.Handshake.Forwarded.{Forwards, LetIn-Forwards}
use connauth.Examples.{sample_world, sample_random}
use connauth.Examples.Settings.{settings, settings_ready, shell_port_ready}
use connauth.Examples.SettingsRuns.{settings_pass}
use connauth.Examples.Session.{peer, first_packet, second_packet, at, challenged, client_key}
use connauth.Examples.Login.{request_replied, logged_in, peer_not_denied, idle}
use connauth.Examples.Running.{sockets, begun, bound, bound_port, port_bound}

abbrev waiting_client : Runtime
waiting_client = record bound {
  server = challenged.server;
  auth = record bound.auth { reading = true };
}

first_round :
    read_round sample_world false
      (received (at (1000 * second)) sample_random sample_random peer first_packet)
      idle
    ≡ some (true, challenged.server)
unfolding read_round
first_round = ground (arith, request_replied)

waiting_client-Reach : Reach sample_world sockets begun waiting_client
unfolding begin_main System.start wait_for_auth init_client_list
waiting_client-Reach =
    next (next here (starts 0 shell_port_ready bound_port refl refl port_bound)) (
      auth (
        reads (received (at (1000 * second)) sample_random sample_random peer first_packet) true
          challenged.server refl (λ h. cc h) first_round))

room_left : has_room bound_port.connections.limiter [] peer ≡ true
unfolding new_connection_limiter lookup
room_left = refl

loops_run : (waiting_client.auth.reading ≡ true) × (waiting_client.auth.closed ≡ false)
unfolding begin_main wait_for_auth
loops_run = (refl, refl)

LetIn-Forwards_example : Forwards sample_world sockets waiting_client 0 bound_port peer (
    begin 0 peer
    ∷ accept 0 (accepted peer (4600 * second))
    ∷ read (received (at (1001 * second)) sample_random sample_random peer second_packet)
    ∷ [])
LetIn-Forwards_example =
    LetIn-Forwards sample_world settings_ready settings sockets 1000 settings_pass client_key
      (1001 * second) (at (1001 * second)) sample_random sample_random second_packet waiting_client
      0 bound_port (4600 * second) waiting_client-Reach logged_in refl loops_run.0 loops_run.1 refl
      refl refl room_left peer_not_denied (omega arith)
