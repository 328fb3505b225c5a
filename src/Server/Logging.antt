-- ===== src/Server/Logging.antt =====
-- `initLogger` of the server (cmd/authserver/logger.go).
use connauth.Common.{String, Bool, Option, none, some, ◌∷◌, ok, err, if◌then◌else◌}
use connauth.Library.{Library}
use connauth.Logger.{AliyunSlsConfig, SlsError, new_sls_hook}
use connauth.Logger.Levels.{Logging, level_of, timestamped}
use connauth.Server.Config.{Config, AliyunSls}

-- The settings of the hook, copied field by field.
abbrev pub sls_settings : AliyunSls → AliyunSlsConfig
sls_settings s = record {
  enabled = s.enabled;
  endpoint = s.endpoint;
  project_name = s.project_name;
  log_store_name = s.log_store_name;
  topic = s.topic;
  access_key_id = s.access_key_id;
  access_key_secret = s.access_key_secret;
}

-- `if hook != nil { log.AddHook(hook) }`
abbrev pub add_hook : Option AliyunSlsConfig → Logging → Logging
add_hook none l = l
add_hook (some hook) l = record l { hooks = hook ∷ l.hooks }

abbrev pub set_level : Library → Config → Logging → Logging
set_level lib cfg l = record l {
  level = level_of lib.unicode cfg.log_level;
  formatter = timestamped;
}

unfoldable pub init_logger :
    Library → (String → String) → (String → Bool) → Config → Logging → Option SlsError × Logging
init_logger lib environment is_uri cfg l =
    if cfg.aliyun_sls.enabled
    then elim (new_sls_hook environment is_uri (sls_settings cfg.aliyun_sls)) [
      | err e ↦ (some e, l)
      | ok hook ↦ (none, set_level lib cfg (add_hook hook l))
    ]
    else (none, set_level lib cfg l)
