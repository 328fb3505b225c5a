-- ===== src/Server/Config.antt =====
-- The data of cmd/authserver/config.go. A *uint32 is an option, a map an association list, and an
-- error the constructor for its message.
pub mod Secrets
pub mod Rules
pub mod Keys
pub mod Check
use connauth.Common.{ℕ, String, Bool, Option, none, some, List, Map}

pub data ConfigError : Type 0 where
  empty_identifier long_identifier bad_identifier weak_secret bad_ip : String → ConfigError
  empty_forward_addr bad_bind_port long_drop_delay bad_forward_addr : ConfigError
  bad_not_before bad_not_after : ConfigError
  not_active_yet expired_key duplicate_key wildcard_token : String → ConfigError
  bad_auth_addr no_auth_keys combined_token_ref combined_ip_ref : ConfigError
  unknown_token_ref unknown_ip_ref : String → ConfigError
  no_token wildcard_rule no_ip sls_incomplete parse_failed unreadable : ConfigError
  auth_key_error forward_error : ℕ → ConfigError → ConfigError

pub record AccessRule : Type 0 where
  pub token : String
  pub token_ref : String
  pub ip : String
  pub ip_ref : String
  pub inline : String
  pub resolved_value : String
  pub rule_id : String
  pub rule_type : String

-- `UnmarshalYAML` of a rule: what decoding the node as a text gives, and as a rule of its own, `none`
-- where it fails. The result is `none` on an error.
unfoldable pub unmarshal_yaml : Option String → Option AccessRule → AccessRule → Option AccessRule
unmarshal_yaml (some inline) raw r = some (record r { inline = inline })
unmarshal_yaml none raw r = raw

pub record ForwardConfig : Type 0 where
  pub bind_port : ℕ
  pub forward_addr : String
  pub allow_tokens : List AccessRule
  pub allow_ips : List AccessRule
  pub drop_delay_time : Option ℕ
  pub auth_expired_time : Option ℕ
  pub max_conn_per_ip : Option ℕ
  pub max_conn_global : Option ℕ
  pub dial_timeout_ms : Option ℕ
  pub idle_timeout_ms : Option ℕ

pub record AuthKeyConfig : Type 0 where
  pub id : String
  pub key : String
  pub not_before : String
  pub not_after : String

pub record AliyunSls : Type 0 where
  pub enabled : Bool
  pub endpoint : String
  pub project_name : String
  pub log_store_name : String
  pub topic : String
  pub access_key_id : String
  pub access_key_secret : String

pub record Config : Type 0 where
  pub server_id : String
  pub log_level : String
  pub service_name : String
  pub display_name : String
  pub description : String
  pub aliyun_sls : AliyunSls
  pub auth_addr : String
  pub auth_keys : List AuthKeyConfig
  pub tokens : Map String String
  pub ip_rules : Map String String
  pub forward_configs : List ForwardConfig
  pub global_allow_tokens : List AccessRule
  pub global_allow_ips : List AccessRule
  pub global_deny_ips : List AccessRule

-- `if p == nil { p = newUint32(d) }`
abbrev pub or_default : Option ℕ → ℕ → Option ℕ
or_default none d = some d
or_default (some n) d = some n

unfoldable pub set_default_value : ForwardConfig → ForwardConfig
set_default_value c = record c {
  drop_delay_time = or_default c.drop_delay_time 0;
  auth_expired_time = or_default c.auth_expired_time 3600;
  max_conn_per_ip = or_default c.max_conn_per_ip 16;
  max_conn_global = or_default c.max_conn_global 1024;
  dial_timeout_ms = or_default c.dial_timeout_ms 3000;
  idle_timeout_ms = or_default c.idle_timeout_ms 300000;
}
