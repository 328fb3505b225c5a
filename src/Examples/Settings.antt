-- ===== src/Examples/Settings.antt =====
-- A server configuration and a client configuration, as they are read and as the checks leave them.
use connauth.Common.{String, false, none, some, [], ◌∷◌}
use connauth.Server.Config.{Config, ForwardConfig, AuthKeyConfig, AccessRule, AliyunSls}
use connauth.Client

abbrev pub no_rule : AccessRule
no_rule = record {
  token = "";
  token_ref = "";
  ip = "";
  ip_ref = "";
  inline = "";
  resolved_value = "";
  rule_id = "";
  rule_type = "";
}

abbrev pub office_token : String
office_token = "office-demonstration-token"

abbrev pub primary_secret : String
primary_secret = "primary-demonstration-key"

abbrev pub named_rule : AccessRule
named_rule = record no_rule { token_ref = "office" }

abbrev pub named_rule_resolved : AccessRule
named_rule_resolved = record named_rule {
  resolved_value = office_token;
  rule_id = "office";
  rule_type = "token_ref";
}

abbrev pub inline_rule : AccessRule
inline_rule = record no_rule { inline = "another-demonstration-token" }

abbrev pub inline_rule_resolved : AccessRule
inline_rule_resolved = record inline_rule {
  resolved_value = "another-demonstration-token";
  rule_id = "inline:forward:40022:token:2";
  rule_type = "inline_token";
}

abbrev pub network_rule : AccessRule
network_rule = record no_rule { ip_ref = "office-net" }

abbrev pub network_rule_resolved : AccessRule
network_rule_resolved = record network_rule {
  resolved_value = "198.51.100.0/24";
  rule_id = "office-net";
  rule_type = "ip_ref";
}

abbrev pub denied_rule : AccessRule
denied_rule = record no_rule { ip = "192.0.2.10" }

abbrev pub denied_rule_resolved : AccessRule
denied_rule_resolved = record denied_rule {
  resolved_value = "192.0.2.10";
  rule_id = "inline:global_deny:ip:1";
  rule_type = "inline_ip";
}

abbrev pub primary_key : AuthKeyConfig
primary_key = record { id = "primary"; key = primary_secret; not_before = ""; not_after = "" }

abbrev pub shell_port : ForwardConfig
shell_port = record {
  bind_port = 40022;
  forward_addr = "127.0.0.1:22";
  allow_tokens = named_rule ∷ inline_rule ∷ [];
  allow_ips = network_rule ∷ [];
  drop_delay_time = none;
  auth_expired_time = none;
  max_conn_per_ip = some 4;
  max_conn_global = none;
  dial_timeout_ms = none;
  idle_timeout_ms = none;
}

abbrev pub shell_port_ready : ForwardConfig
shell_port_ready = record shell_port {
  allow_tokens = named_rule_resolved ∷ inline_rule_resolved ∷ [];
  allow_ips = network_rule_resolved ∷ [];
  drop_delay_time = some 0;
  auth_expired_time = some 3600;
  max_conn_global = some 1024;
  dial_timeout_ms = some 3000;
  idle_timeout_ms = some 300000;
}

abbrev no_sls : AliyunSls
no_sls = record {
  enabled = false;
  endpoint = "";
  project_name = "";
  log_store_name = "";
  topic = "";
  access_key_id = "";
  access_key_secret = "";
}

abbrev pub settings : Config
settings = record {
  server_id = "connauth-server";
  log_level = "info";
  service_name = "authserver";
  display_name = "authserver";
  description = "";
  aliyun_sls = no_sls;
  auth_addr = "0.0.0.0:40100";
  auth_keys = primary_key ∷ [];
  tokens = ("office", office_token) ∷ [];
  ip_rules = ("office-net", "198.51.100.0/24") ∷ [];
  forward_configs = shell_port ∷ [];
  global_allow_tokens = [];
  global_allow_ips = [];
  global_deny_ips = denied_rule ∷ [];
}

abbrev pub settings_ready : Config
settings_ready = record settings {
  forward_configs = shell_port_ready ∷ [];
  global_deny_ips = denied_rule_resolved ∷ [];
}

abbrev pub client_port : Client.Config.AuthConfig
client_port = record { token = office_token; port = 40022; interval = none }

abbrev pub client_server : Client.Config.ServerConfig
client_server = record {
  addr = "auth.example.org:40100";
  server_id = "connauth-server";
  key_id = "primary";
  key = primary_secret;
  auth_configs = client_port ∷ [];
}

abbrev pub client_settings : Client.Config.Config
client_settings = record {
  client_id = "workstation";
  log_level = "info";
  service_name = "authclient";
  display_name = "authclient";
  description = "";
  servers = client_server ∷ [];
}

abbrev pub client_port_ready : Client.Config.AuthConfig
client_port_ready = record client_port { interval = some 60 }

abbrev pub client_server_ready : Client.Config.ServerConfig
client_server_ready = record client_server { auth_configs = client_port_ready ∷ [] }

abbrev pub client_settings_ready : Client.Config.Config
client_settings_ready = record client_settings { servers = client_server_ready ∷ [] }
