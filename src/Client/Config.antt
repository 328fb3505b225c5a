-- ===== src/Client/Config.antt =====
-- cmd/authclient/config.go. The package has its own copies of the server's checks of texts.
pub mod Sound
use connauth.Common.{
  ℕ, suc, ◌+◌, String, Bool, true, false, not, ◌||◌, Option, none, some, List, [], ◌∷◌, map,
  string_eq, nat_eq, ◌==◌, ltb, Result, ok, err, refuse_if, if◌then◌else◌, ◌>>=◌, ◌>>◌,
}
use connauth.Text.{Unicode, runes, byte_len, trim_space, runes_eq, contains}
use connauth.Library.{Library}

pub data ConfigError : Type 0 where
  empty_addr empty_key bad_addr empty_token empty_port short_interval : ConfigError
  parse_failed unreadable : ConfigError
  empty_identifier long_identifier bad_identifier weak_secret : String → ConfigError
  auth_config_error server_error : ℕ → ConfigError → ConfigError

pub record AuthConfig : Type 0 where
  pub token : String
  pub port : ℕ
  pub interval : Option ℕ

pub record ServerConfig : Type 0 where
  pub addr : String
  pub server_id : String
  pub key_id : String
  pub key : String
  pub auth_configs : List AuthConfig

pub record Config : Type 0 where
  pub client_id : String
  pub log_level : String
  pub service_name : String
  pub display_name : String
  pub description : String
  pub servers : List ServerConfig

module _ (u : Unicode) where
  unfoldable pub all_identifier : List ℕ → Bool
  all_identifier [] = true
  all_identifier (r ∷ rs) =
      if u.is_letter r || (u.is_digit r || (r == b'-' || (r == b'_' || r == b'.')))
      then all_identifier rs
      else false

  unfoldable pub validate_identifier : String → String → Result ConfigError (Unit {0})
  validate_identifier kind value = do
    refuse_if (value == "") (empty_identifier kind)
    refuse_if (ltb 64 (byte_len (runes value))) (long_identifier kind)
    refuse_if (not (all_identifier (runes value))) (bad_identifier kind)

  unfoldable pub is_weak_secret : String → Bool
  is_weak_secret value =
      let s = trim_space u (map u.to_lower (runes value)) in
      if ltb (byte_len s) 24
      then true
      else if s == runes "a safe key"
          || (s == runes "admin"
              || (s == runes "valid_token"
                  || (s == runes "global_token" || s == runes "change_me")))
      then true
      else contains s (runes "change_me")

  unfoldable pub validate_secret : String → String → Result ConfigError (Unit {0})
  validate_secret kind value = refuse_if (is_weak_secret value) (weak_secret kind)

abbrev pub shorter_than : Option ℕ → ℕ → Bool
shorter_than none limit = false
shorter_than (some n) limit = ltb n limit

unfoldable pub set_default_value : AuthConfig → AuthConfig
set_default_value c = record c { interval = elim c.interval [ none ↦ some 60 | some n ↦ some n ] }

-- fmt.Errorf("… %d invalid: %v", i+1, err)
abbrev pub wrap {ℓ} :
    {A : Type ℓ} → (ConfigError → ConfigError) → Result ConfigError A → Result ConfigError A
wrap f (ok a) = ok a
wrap f (err e) = err (f e)

module _ (lib : Library) where
  unfoldable pub auth_config_check_valid : AuthConfig → Result ConfigError (Unit {0})
  auth_config_check_valid c = do
    refuse_if (c.token == "") empty_token
    validate_secret lib.unicode "token" c.token
    refuse_if (c.port == 0) empty_port
    refuse_if (shorter_than c.interval 10) short_interval

  unfoldable pub check_auth_configs : ℕ → List AuthConfig → Result ConfigError (List AuthConfig)
  check_auth_configs i [] = ok []
  check_auth_configs i (c ∷ cs) = do
    wrap (auth_config_error (i + 1)) (auth_config_check_valid c)
    rest ← check_auth_configs (i + 1) cs
    ok (set_default_value c ∷ rest)

  unfoldable pub server_check_valid : ServerConfig → Result ConfigError ServerConfig
  server_check_valid c = do
    refuse_if (c.addr == "") empty_addr
    refuse_if (c.key == "") empty_key
    validate_identifier lib.unicode "serverid" c.server_id
    validate_identifier lib.unicode "keyid" c.key_id
    validate_secret lib.unicode "key" c.key
    refuse_if (not (lib.resolve_udp_addr c.addr)) bad_addr
    auth_configs ← check_auth_configs 0 c.auth_configs
    ok (record c { auth_configs = auth_configs })

  unfoldable pub check_servers : ℕ → List ServerConfig → Result ConfigError (List ServerConfig)
  check_servers i [] = ok []
  check_servers i (s ∷ ss) = do
    s' ← wrap (server_error (i + 1)) (server_check_valid s)
    rest ← check_servers (i + 1) ss
    ok (s' ∷ rest)

  unfoldable pub config_check_valid : Config → Result ConfigError Config
  config_check_valid c = do
    validate_identifier lib.unicode "clientid" c.client_id
    servers ← check_servers 0 c.servers
    ok (record c { servers = servers })

  -- `none` as a content is a file that cannot be read, as a configuration one that yaml.v2 refuses.
  unfoldable pub read_config :
      {Content : Type 0} → Option Content → (Content → Option Config) → Result ConfigError Config
  read_config none unmarshal = err unreadable
  read_config (some content) unmarshal = elim (unmarshal content) [
    | none ↦ err parse_failed
    | some c ↦ config_check_valid c
  ]
