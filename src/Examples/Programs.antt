-- ===== src/Examples/Programs.antt =====
-- Both programs on the sample configurations, without a service manager, and a service's name.
use connauth.Common.{arith, ◌≡◌, ◌⊎◌, refl, String, true, false, none, some, [], string_eq, ok, err}
use connauth.Text.{ascii}
use connauth.Logger.Levels.{Logging, info_level, warn_level, level_of, timestamped}
use connauth.Service.{
  ServiceOption, run_in_terminal, system_no_service, windows_init, empty_name, name_with_space,
  trim_space_text, trim_left_text, trim_right_text, has_blank,
}
use connauth.Service.Names.{all_space, IsName, windows_init_cases}
use connauth.Entry.{Surroundings, Host, Flags, ran, config_path, run_service, main}
use connauth.Entry.Exits.{Ends, main-Ends}
use connauth.Server
use connauth.Client
use connauth.Server.Startup.{server_program}
use connauth.Server.Startup.Serves.{Served, main-Served}
use connauth.Client.Startup.{client_program}
use connauth.Client.Startup.Runs.{Running, main-Running}
use connauth.Examples.{sample_library}
use connauth.Examples.Settings.{settings, settings_ready, client_settings, client_settings_ready}
use connauth.Examples.SettingsRuns.{settings_pass, client_settings_pass}
use connauth.Examples.Running.{sockets}

-- The one file there is, whatever its name.
abbrev server_files : Surroundings Server.Config.Config
server_files = record {
  Content = String;
  read_file = λ path. some "";
  unmarshal = λ content. some settings;
  environment = λ name. "";
  is_uri = λ uri. true;
}

abbrev client_files : Surroundings Client.Config.Config
client_files = record {
  Content = String;
  read_file = λ path. some "";
  unmarshal = λ content. some client_settings;
  environment = λ name. "";
  is_uri = λ uri. true;
}

abbrev host : Host
host = record {
  current_path = some "/opt/connauth";
  join = λ dir name. dir;
  system = system_no_service "linux";
}

abbrev no_flags : Flags
no_flags = record { config_file = "server_config.yaml"; check_config = false }

abbrev quiet : Logging
quiet = record {
  hooks = [];
  level = warn_level;
  formatter = record timestamped { full_timestamp = false };
}

abbrev informed : Logging
informed = record { hooks = []; level = info_level; formatter = timestamped }

server_logs :
    Server.Logging.init_logger sample_library server_files.environment server_files.is_uri
      settings_ready quiet
    ≡ (none, informed)
unfolding Server.Logging.init_logger level_of ascii
server_logs = refl

server_runs :
    main (server_program sample_library server_files 1000) host no_flags quiet
    ≡ ran settings_ready informed run_in_terminal none
unfolding main config_path server_program Server.Config.Check.read_config run_service
server_runs = ground (arith, settings_pass, server_logs)

main-Ends_example :
    Ends
      (server_program sample_library server_files 1000)
      host
      no_flags
      quiet
      (main (server_program sample_library server_files 1000) host no_flags quiet)
main-Ends_example = main-Ends (server_program sample_library server_files 1000) host no_flags quiet

main-Served_example :
    Served sample_library server_files 1000 sockets host no_flags quiet settings_ready informed
main-Served_example =
    main-Served sample_library server_files 1000 sockets host no_flags quiet settings_ready informed
      run_in_terminal none server_runs

client_logs : Client.Logging.init_logger sample_library client_settings_ready quiet ≡ informed
unfolding Client.Logging.init_logger level_of ascii
client_logs = refl

client_runs :
    main (client_program sample_library client_files) host no_flags quiet
    ≡ ran client_settings_ready informed run_in_terminal none
unfolding main config_path client_program Client.Config.read_config run_service
client_runs = ground (arith, client_settings_pass, client_logs)

main-Running_example :
    Running sample_library client_files 1000 host no_flags client_settings_ready informed
main-Running_example =
    main-Running sample_library client_files 1000 host no_flags quiet client_settings_ready informed
      run_in_terminal none client_runs

abbrev named_service : ServiceOption
named_service = record { name = " authserver "; display_name = "gate"; description = "" }

windows_init_cases_example :
    ((windows_init ascii named_service ≡ err empty_name)
      × (all_space ascii named_service.name ≡ true))
    ⊎ ((windows_init ascii named_service ≡ err name_with_space)
        × (all_space ascii named_service.name ≡ false)
        × (has_blank (trim_space_text ascii named_service.name) ≡ true))
    ⊎ ((kept : ServiceOption) × (windows_init ascii named_service ≡ ok kept)
        × IsName ascii kept.name
        × (kept ≡ record named_service { name = trim_space_text ascii named_service.name }))
windows_init_cases_example = windows_init_cases ascii named_service

name_trimmed : windows_init ascii named_service ≡ ok (record named_service { name = "authserver" })
unfolding windows_init trim_left_text trim_right_text has_blank ascii
name_trimmed = refl
