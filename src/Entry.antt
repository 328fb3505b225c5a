-- ===== src/Entry.antt =====
-- `main` of the two programs (cmd/authserver/main.go and cmd/authclient/main.go): the flags, the
-- configuration, the logger and the run as a service. `Program` is what the two do differently.
pub mod Exits
use connauth.Common.{
  String, Bool, Option, none, some, List, ◌==◌, string_eq, if◌then◌else◌, Result, ok, err,
}
use connauth.Logger.{SlsError}
use connauth.Logger.Levels.{Logging}
use connauth.Service.{ServiceOption, ServiceError, Effect, System, no_option}

pub record Program (C E : Type 0) : Type 0 where
  pub default_config_file : String
  -- readConfig at a path
  pub read_config : String → Result E C
  pub init_logger : C → Logging → Option SlsError × Logging
  pub service_option : C → ServiceOption

-- `current_path` is the program's directory as filepath.Abs makes it, `none` on an error, and `join`
-- is path.Join.
pub record Host : Type 0 where
  pub current_path : Option String
  pub join : String → String → String
  pub system : System

pub record Flags : Type 0 where
  pub config_file : String
  pub check_config : Bool

-- The files, the YAML reader, the environment and url.ParseRequestURI.
pub record Surroundings (C : Type 0) : Type 1 where
  pub Content : Type 0
  pub read_file : String → Option Content
  pub unmarshal : Content → Option C
  pub environment : String → String
  pub is_uri : String → Bool

-- How the process ends. All but `config_ok` and `ran` end it by log.Fatal.
pub data Exit (C E : Type 0) : Type 0 where
  no_current_path config_ok : Exit C E
  read_failed : E → Exit C E
  logger_failed : SlsError → Exit C E
  -- the configuration, the logger, what Run did, and its error, which is logged
  ran : C → Logging → List Effect → Option ServiceError → Exit C E

module _ {C E : Type 0} (program : Program C E) (host : Host) where
  -- `if configFile == ""`
  unfoldable pub config_path : Flags → Option String
  config_path flags =
      if flags.config_file == ""
      then elim host.current_path [
        | none ↦ none
        | some dir ↦ some (host.join dir program.default_config_file)
      ]
      else some flags.config_file

  -- From service.Init on, whose error is dropped.
  unfoldable pub run_service : C → Logging → Exit C E
  run_service c logging =
      let kept = (host.system.init no_option (program.service_option c)).0 in
      let done = host.system.run kept in ran c logging done.0 done.1

  abbrev pub with_logger : C → Option SlsError × Logging → Exit C E
  with_logger c (some e, logging) = logger_failed e
  with_logger c (none, logging) = run_service c logging

  unfoldable pub main : Flags → Logging → Exit C E
  main flags logging = elim (config_path flags) [
    | none ↦ no_current_path
    | some path ↦ elim (program.read_config path) [
      | err e ↦ read_failed e
      | ok c ↦
          if flags.check_config then config_ok else with_logger c (program.init_logger c logging)
    ]
  ]
