-- ===== src/Client/Loop.antt =====
-- `startAuthOfServer` and `startAllAuth` (cmd/authclient/auth.go): which loops are started, and one loop
-- until it is stopped.
pub mod Rounds
pub mod Starts
use connauth.Common.{
  ℕ, zero, suc, ◌+◌, ◌*◌, String, Bool, true, false, not, Option, none, some, List, [], ◌∷◌, ◌++◌,
  nat_eq, ◌==◌, if◌then◌else◌,
}
use connauth.Protocol.{second}
use connauth.Utils
use connauth.Utils.{is_valid, new_auth_config}
use connauth.Client.Config.{AuthConfig, ServerConfig}
use connauth.Client.Alarm.{Alarm, round}

-- The goroutine of a port: it gives up, or repeats its request with a ticker of that many nanoseconds.
pub data PortStart : Type 0 where
  request_invalid : PortStart
  repeats : ServerConfig → Utils.AuthConfig → ℕ → PortStart

-- `none` is a panic: on an interval that is not given, or in NewTicker on one of no length.
unfoldable pub start_port : ServerConfig → ℕ → AuthConfig → Option PortStart
start_port server now cfg = elim cfg.interval [
  | none ↦ none
  | some interval ↦
      let request = new_auth_config cfg.token cfg.port now in
      if not (is_valid request)
      then some request_invalid
      else if interval == 0
      then none
      else some (repeats server request (interval * second))
]

abbrev pub cons_start : PortStart → Option (List PortStart) → Option (List PortStart)
cons_start p none = none
cons_start p (some ps) = some (p ∷ ps)

unfoldable pub start_auth_of_server : ServerConfig → ℕ → List AuthConfig → Option (List PortStart)
start_auth_of_server server now [] = some []
start_auth_of_server server now (cfg ∷ cfgs) =
    let rest = start_auth_of_server server now cfgs in
    elim (start_port server now cfg) [ none ↦ none | some p ↦ cons_start p rest ]

abbrev pub append_starts : List PortStart → Option (List PortStart) → Option (List PortStart)
append_starts ps none = none
append_starts ps (some qs) = some (ps ++ qs)

unfoldable pub start_all_auth : ℕ → List ServerConfig → Option (List PortStart)
start_all_auth now [] = some []
start_all_auth now (server ∷ servers) =
    let rest = start_all_auth now servers in
    elim (start_auth_of_server server now server.auth_configs) [
      | none ↦ none
      | some ps ↦ append_starts ps rest
    ]

-- What `select` finds after a round.
pub data Select : Type 0 where
  ticks stops : Select

-- What a loop does in its rounds: `warned` has the number of failures in each warning, and `stopped` says
-- whether the loop was left.
pub record LoopRun : Type 0 where
  pub alarm : Alarm
  pub attempts : ℕ
  pub warned : List ℕ
  pub stopped : Bool

abbrev pub log_warning : Alarm × Bool → List ℕ → List ℕ
log_warning (a, true) warned = a.fail_count ∷ warned
log_warning (a, false) warned = warned

-- The loop over the results of `auth` and what `select` finds after each.
unfoldable pub auth_loop : Alarm → List (Bool × Select) → LoopRun
auth_loop a [] = record { alarm = a; attempts = 0; warned = []; stopped = false }
auth_loop a ((result, stops) ∷ rounds) =
    let next = round a result in
    record { alarm = next.0; attempts = 1; warned = log_warning next []; stopped = true }
auth_loop a ((result, ticks) ∷ rounds) =
    let next = round a result in
    let rest = auth_loop next.0 rounds in
    record rest { attempts = rest.attempts + 1; warned = log_warning next rest.warned }
