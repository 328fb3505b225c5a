-- ===== src/Server/Config/Check.antt =====
-- `CheckValid` of the server's configuration and `readConfig` (cmd/authserver/config.go). The source
-- fills in the configuration in place and drops it on an error; the model returns the new one.
pub mod Sound
use connauth.Common.{
  ℕ, suc, ◌+◌, String, Bool, true, false, not, ◌&&◌, ◌||◌, Option, none, some, List, [], ◌∷◌, ◌++◌,
  string_eq, nat_eq, ◌==◌, ltb, Map, Result, ok, err, refuse_if, if◌then◌else◌, ◌>>=◌, ◌>>◌,
}
use connauth.Library.{Library}
use connauth.Server.Config.{
  Config, ForwardConfig, AuthKeyConfig, ConfigError, empty_forward_addr, bad_bind_port,
  long_drop_delay, bad_forward_addr, bad_auth_addr, no_auth_keys, auth_key_error, duplicate_key,
  wildcard_token, forward_error, sls_incomplete, parse_failed, unreadable, set_default_value,
}
use connauth.Server.Config.Secrets.{validate_identifier, validate_secret, validate_ip_rule}
use connauth.Server.Config.Rules.{resolve_token_rules, resolve_ip_rules}
use connauth.Server.Config.Keys.{auth_key_check_valid}
use Prim.Native.String.{◌++◌ as cat}

abbrev pub longer_than : Option ℕ → ℕ → Bool
longer_than none limit = false
longer_than (some n) limit = ltb limit n

-- fmt.Errorf("… %d error: %v", i+1, err)
abbrev pub wrap {ℓ} :
    {A : Type ℓ} → (ConfigError → ConfigError) → Result ConfigError A → Result ConfigError A
wrap f (ok a) = ok a
wrap f (err e) = err (f e)

-- seenKeys[id]
unfoldable pub seen : List String → String → Bool
seen [] id = false
seen (k ∷ ks) id = k == id || seen ks id

module _ (lib : Library) where
  unfoldable pub forward_check_valid : ForwardConfig → Result ConfigError (Unit {0})
  forward_check_valid c = do
    refuse_if (c.forward_addr == "") empty_forward_addr
    refuse_if (c.bind_port == 0 || c.bind_port == 65535) bad_bind_port
    refuse_if (longer_than c.drop_delay_time 5000) long_drop_delay
    refuse_if (not (lib.split_host_port c.forward_addr)) bad_forward_addr

  -- The loop over the keys, from position `i` on; `ids` holds the ids of the keys before.
  unfoldable pub check_auth_keys :
      ℕ → List String → List AuthKeyConfig → ℕ → Result ConfigError (Unit {0})
  check_auth_keys i ids [] now = ok tt
  check_auth_keys i ids (key ∷ keys) now = do
    wrap (auth_key_error (i + 1)) (auth_key_check_valid lib key now)
    refuse_if (seen ids key.id) (duplicate_key key.id)
    check_auth_keys (i + 1) (key.id ∷ ids) keys now

  unfoldable pub check_tokens : Map String String → Result ConfigError (Unit {0})
  check_tokens [] = ok tt
  check_tokens ((id, token) ∷ rest) = do
    validate_identifier lib.unicode "token id" id
    refuse_if (token == "*") (wildcard_token id)
    validate_secret lib.unicode (cat "token " id) token
    check_tokens rest

  unfoldable pub check_ip_rules : Map String String → Result ConfigError (Unit {0})
  check_ip_rules [] = ok tt
  check_ip_rules ((id, rule) ∷ rest) = do
    validate_identifier lib.unicode "ip rule id" id
    validate_ip_rule lib (cat "ip rule " id) rule
    check_ip_rules rest

  unfoldable pub check_forward : Config → ForwardConfig → Result ConfigError ForwardConfig
  check_forward c f = do
    forward_check_valid f
    allow_tokens ← resolve_token_rules lib c f.allow_tokens "forward" f.bind_port
    allow_ips ← resolve_ip_rules lib c f.allow_ips "forward" f.bind_port
    ok (set_default_value (record f { allow_tokens = allow_tokens; allow_ips = allow_ips }))

  unfoldable pub check_forwards :
      Config → ℕ → List ForwardConfig → Result ConfigError (List ForwardConfig)
  check_forwards c i [] = ok []
  check_forwards c i (f ∷ fs) = do
    f' ← wrap (forward_error (i + 1)) (check_forward c f)
    fs' ← check_forwards c (i + 1) fs
    ok (f' ∷ fs')

  unfoldable pub config_check_valid : Config → ℕ → Result ConfigError Config
  config_check_valid c now = do
    validate_identifier lib.unicode "serverid" c.server_id
    refuse_if (not (lib.resolve_udp_addr c.auth_addr)) bad_auth_addr
    refuse_if (elim c.auth_keys [ [] ↦ true | key ∷ keys ↦ false ]) no_auth_keys
    check_auth_keys 0 [] c.auth_keys now
    check_tokens c.tokens
    check_ip_rules c.ip_rules
    global_allow_tokens ← resolve_token_rules lib c c.global_allow_tokens "global" 0
    global_allow_ips ← resolve_ip_rules lib c c.global_allow_ips "global" 0
    global_deny_ips ← resolve_ip_rules lib c c.global_deny_ips "global_deny" 0
    forward_configs ← check_forwards c 0 c.forward_configs
    ok (record c {
      global_allow_tokens = global_allow_tokens;
      global_allow_ips = global_allow_ips;
      global_deny_ips = global_deny_ips;
      forward_configs = forward_configs;
    })

  -- What readConfig does with the file's content, `none` where the file cannot be read, and with
  -- the configuration that yaml.v2 makes of it, `none` where that fails.
  unfoldable pub read_config :
      {Content : Type 0}
      → Option Content
      → (Content → Option Config)
      → ℕ
      → Result ConfigError Config
  read_config none unmarshal now = err unreadable
  read_config (some content) unmarshal now = elim (unmarshal content) [
    | none ↦ err parse_failed
    | some c ↦ (do
      refuse_if
          (c.aliyun_sls.enabled
            && (c.aliyun_sls.endpoint == ""
                || (c.aliyun_sls.project_name == "" || c.aliyun_sls.log_store_name == "")))
          sls_incomplete
      config_check_valid c now)
  ]
