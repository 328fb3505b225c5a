-- ===== src/Server/Startup.antt =====
-- The server's program (cmd/authserver/main.go): what `main` of Entry runs with, and what `Main` starts.
pub mod Serves
use connauth.Common.{ℕ, String, Bool, Option, none, some, List, [], ◌∷◌, ◌++◌, Result, ok, err}
use connauth.Library.{Library}
use connauth.Service.{ServiceOption}
use connauth.Entry.{Program, Surroundings}
use connauth.Server.Config.{Config, ConfigError, ForwardConfig}
use connauth.Server.Config.Check.{read_config}
use connauth.Server.Logging.{init_logger}
use connauth.Server.Loops.{AuthLoops, PortLoops, Sockets, ListenError, wait_for_auth, start_forward}

abbrev pub default_config_file : String
default_config_file = "server_config.yaml"

unfoldable pub service_option : Config → ServiceOption
service_option c = record {
  name = c.service_name;
  display_name = c.display_name;
  description = c.description;
}

unfoldable pub server_program : Library → Surroundings Config → ℕ → Program Config ConfigError
server_program lib around now = record {
  default_config_file = default_config_file;
  read_config = λ path. read_config lib (around.read_file path) around.unmarshal now;
  init_logger = λ c logging. init_logger lib around.environment around.is_uri c logging;
  service_option = service_option;
}

-- What the goroutine of `Main` leaves running. Every error is logged, and the next port is tried.
pub record Serving : Type 0 where
  pub auth : Result ListenError AuthLoops
  pub ports : List (Result ListenError PortLoops)

abbrev pub cons_port :
    Result ListenError PortLoops
    → Option (List (Result ListenError PortLoops))
    → Option (List (Result ListenError PortLoops))
cons_port r none = none
cons_port r (some rs) = some (r ∷ rs)

unfoldable pub start_forwards :
    Sockets → List ForwardConfig → Option (List (Result ListenError PortLoops))
start_forwards net [] = some []
start_forwards net (f ∷ fs) =
    let rest = start_forwards net fs in
    elim (start_forward net f) [ none ↦ none | some r ↦ cons_port r rest ]

-- `none` is a panic.
unfoldable pub serve : Library → Sockets → Config → Option Serving
serve lib net c = elim (start_forwards net c.forward_configs) [
  | none ↦ none
  | some ports ↦ some (record { auth = wait_for_auth lib net c.auth_addr; ports = ports })
]
