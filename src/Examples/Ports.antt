-- ===== src/Examples/Ports.antt =====
-- A connection to the sample forward port, and the log service's hook, with the theorems about them
-- applied.
use connauth.Common.{
  ◌*◌, ◌≡◌, refl, String, true, some, [], ◌∷◌, string_eq, ◌==◌, Map, lookup, All, ok, if◌then◌else◌,
}
use connauth.Protocol.{second}
use connauth.Limiter.{new_connection_limiter, acquire}
use connauth.Limiter.Refinement.{new_connection_limiter-Refines}
use connauth.Server.Config.Check.Sound.{config_check_valid-IsChecked}
use connauth.Server.Access.{is_ip_denied, is_static_ip_allowed, is_ip_match_rules, is_ip_match_rule}
use connauth.Server.Clients.{is_ip_authed}
use connauth.Server.Forward.{Port, forwarded, handle_conn, serve_conn, accept_conn}
use connauth.Server.Forward.Accept.{Accepted, accept_conn-Accepted}
use connauth.Logger.{
  AliyunSlsConfig, apply_sls_env, normalize_endpoint, new_sls_hook, allowed, safe_sls_fields,
  insert_sorted, sort_fields, log_contents,
}
use connauth.Logger.Fields.{IsSafe, log_contents-IsSafe}
use connauth.Examples.{sample_library}
use connauth.Examples.Settings.{settings, settings_ready, shell_port_ready}
use connauth.Examples.SettingsRuns.{settings_pass}

abbrev idle_port : Port
idle_port = record { clients = []; limiter = new_connection_limiter 1024 4 }

-- An address of the office's network is forwarded, until five minutes after the dial.
office_forwarded :
    accept_conn sample_library settings_ready shell_port_ready idle_port "198.51.100.7"
      (100 * second)
      true
      (101 * second)
    ≡ some (
      forwarded (some (401 * second)),
      record { clients = []; limiter = (acquire (new_connection_limiter 1024 4) "198.51.100.7").0 },
    )
unfolding accept_conn serve_conn handle_conn is_ip_authed is_ip_denied is_static_ip_allowed
    is_ip_match_rules is_ip_match_rule acquire new_connection_limiter lookup
office_forwarded = refl

accept_conn-Accepted_example :
    Accepted sample_library settings_ready shell_port_ready idle_port "198.51.100.7"
      (100 * second)
      []
      true
      (accept_conn sample_library settings_ready shell_port_ready idle_port "198.51.100.7"
        (100 * second)
        true
        (101 * second))
accept_conn-Accepted_example =
    accept_conn-Accepted sample_library settings_ready shell_port_ready idle_port "198.51.100.7"
      (100 * second) settings [] true (101 * second) (new_connection_limiter-Refines 1024 4)
      (config_check_valid-IsChecked sample_library settings settings_ready 1000
        settings_pass).forwards.0

abbrev entry_fields : Map String String
entry_fields = ("token", "secret") ∷ (("port", "40022") ∷ (("event", "auth_success") ∷ []))

entry_sent :
    log_contents "info" "" entry_fields
    ≡ ("level", "info") ∷ (("event", "auth_success") ∷ (("port", "40022") ∷ []))
unfolding log_contents safe_sls_fields allowed sort_fields insert_sorted
entry_sent = refl

log_contents-IsSafe_example : All IsSafe (log_contents "info" "" entry_fields)
log_contents-IsSafe_example = log_contents-IsSafe "info" "" entry_fields

abbrev sls_settings : AliyunSlsConfig
sls_settings = record {
  enabled = true;
  endpoint = "log.example.org";
  project_name = "gate";
  log_store_name = "auth";
  topic = "";
  access_key_id = "";
  access_key_secret = "";
}

abbrev environment : String → String
environment name =
    if name == "ALIYUN_SLS_ACCESS_KEY_ID"
    then "id"
    else if name == "ALIYUN_SLS_ACCESS_KEY_SECRET"
    then "secret"
    else ""

abbrev sls_settings_ready : AliyunSlsConfig
sls_settings_ready = record sls_settings { access_key_id = "id"; access_key_secret = "secret" }

hook_starts :
    new_sls_hook environment (λ uri. uri == "https://log.example.org") sls_settings
    ≡ ok (some sls_settings_ready)
unfolding new_sls_hook apply_sls_env normalize_endpoint
hook_starts = refl
