-- ===== src/Client/Startup.antt =====
-- The client's program (cmd/authclient/main.go): what `main` of Entry runs with. `Main` is `startAllAuth`.
pub mod Runs
use connauth.Common.{ℕ, String, Option, none, List}
use connauth.Library.{Library}
use connauth.Service.{ServiceOption}
use connauth.Entry.{Program, Surroundings}
use connauth.Client.Config.{Config, ConfigError, read_config}
use connauth.Client.Logging.{init_logger}
use connauth.Client.Loop.{PortStart, start_all_auth}

abbrev pub default_config_file : String
default_config_file = "client_config.yaml"

unfoldable pub service_option : Config → ServiceOption
service_option c = record {
  name = c.service_name;
  display_name = c.display_name;
  description = c.description;
}

unfoldable pub client_program : Library → Surroundings Config → Program Config ConfigError
client_program lib around = record {
  default_config_file = default_config_file;
  read_config = λ path. read_config lib (around.read_file path) around.unmarshal;
  init_logger = λ c logging. (none, init_logger lib c logging);
  service_option = service_option;
}

-- The goroutine of `Main`: what it leaves running. `none` is a panic.
unfoldable pub serve : ℕ → Config → Option (List PortStart)
serve now c = start_all_auth now c.servers
