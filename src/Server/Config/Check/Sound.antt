-- ===== src/Server/Config/Check/Sound.antt =====
-- What a configuration that passes `CheckValid` (cmd/authserver/config.go) is good for.
use Prim.Native.String.{◌++◌ as cat}
use connauth.Common.{
  ℕ, ◌+◌, ◌≡◌, ◌≢◌, String, false, Option, none, some, List, [], ◌∷◌, string_eq, arith, eq_iff, Map,
  All, Result, ok, >>=-eq-ok,
}
use connauth.Library.{Library}
use connauth.Server.Config.{
  Config, ForwardConfig, AuthKeyConfig, ConfigError, AccessRule, set_default_value, forward_error,
}
use connauth.Server.Config.Secrets.{
  validate_identifier, validate_secret, validate_ip_rule, IsIdentifier, validate_identifier_iff,
}
use connauth.Server.Config.Rules.{resolve_token_rules, resolve_ip_rules}
use connauth.Server.Config.Rules.Resolved.{
  IsStrong, IsIpRule, AllValues, IsTokenRule, IsAddressRule, resolve_token_rules-All,
  resolve_ip_rules-All,
}
use connauth.Server.Config.Keys.{auth_key_by_id}
use connauth.Server.Config.Keys.Lookup.{IsActive, check_auth_keys-IsActive, check_auth_keys-Found}
use connauth.Server.Config.Check.{
  longer_than, wrap, forward_check_valid, check_auth_keys, check_tokens, check_ip_rules,
  check_forward, check_forwards, config_check_valid,
}

-- The value that the code reads by `*p` is there: no nil pointer.
abbrev pub IsGiven : Option ℕ → Type 0
IsGiven o = o ≢ none

module _ (lib : Library) (c : Config) where
  -- A forward port that may be served: its rules are resolved, and every setting that the forwarder
  -- reads through a pointer is given.
  pub record IsReady (f : ForwardConfig) : Type 0 where
    pub addressed : f.forward_addr ≢ ""
    pub port_low : f.bind_port ≢ 0
    pub port_high : f.bind_port ≢ 65535
    pub short_delay : longer_than f.drop_delay_time 5000 ≡ false
    pub tokens : All (IsTokenRule lib c) f.allow_tokens
    pub ips : All (IsAddressRule lib c) f.allow_ips
    pub has_drop_delay : IsGiven f.drop_delay_time
    pub has_expiry : IsGiven f.auth_expired_time
    pub has_conn_per_ip : IsGiven f.max_conn_per_ip
    pub has_conn_global : IsGiven f.max_conn_global
    pub has_dial_timeout : IsGiven f.dial_timeout_ms
    pub has_idle_timeout : IsGiven f.idle_timeout_ms

  module _ (strong : AllValues (IsStrong lib) c.tokens)
      (valid : AllValues (IsIpRule lib) c.ip_rules) where
    set_default_value-IsReady :
        (f : ForwardConfig) (ts is : List AccessRule)
        → forward_check_valid lib f ≡ ok tt
        → All (IsTokenRule lib c) ts
        → All (IsAddressRule lib c) is
        → IsReady (set_default_value (record f { allow_tokens = ts; allow_ips = is }))
    unfolding set_default_value forward_check_valid
    set_default_value-IsReady f ts is h t a = record {
      addressed = ground (arith, h, eq_iff f.forward_addr "");
      port_low = ground (arith, h);
      port_high = ground (arith, h);
      short_delay = ground (arith, h);
      tokens = t;
      ips = a;
      has_drop_delay = ground arith;
      has_expiry = ground arith;
      has_conn_per_ip = ground arith;
      has_conn_global = ground arith;
      has_dial_timeout = ground arith;
      has_idle_timeout = ground arith;
    }

    check_forward-IsReady : (f f' : ForwardConfig) → check_forward lib c f ≡ ok f' → IsReady f'
    unfolding check_forward resolve_token_rules resolve_ip_rules
    check_forward-IsReady f f' h =
        let (u, checked, h₁) = >>=-eq-ok (forward_check_valid lib f) _ h in
        let (ts, t, h₂) =
          >>=-eq-ok (resolve_token_rules lib c f.allow_tokens "forward" f.bind_port) _ h₁ in
        let (is, a, h₃) =
          >>=-eq-ok (resolve_ip_rules lib c f.allow_ips "forward" f.bind_port) _ h₂ in
        let e : set_default_value (record f { allow_tokens = ts; allow_ips = is }) ≡ f' = cc h₃ in
        rw (← e) (
          set_default_value-IsReady f ts is checked
            (resolve_token_rules-All lib c strong 0 f.allow_tokens ts "forward" f.bind_port t)
            (resolve_ip_rules-All lib c valid 0 f.allow_ips is "forward" f.bind_port a))

    wrap-ok :
        (i : ℕ) (r : Result ConfigError ForwardConfig) (f : ForwardConfig)
        → wrap (forward_error i) r ≡ ok f
        → r ≡ ok f
    wrap-ok i r f h = ground (arith, h)

    check_forwards-All :
        (i : ℕ) (fs fs' : List ForwardConfig) → check_forwards lib c i fs ≡ ok fs' → All IsReady fs'
    unfolding check_forwards
    check_forwards-All i [] fs' h = let e : [] ≡ fs' = cc h in rw (← e) tt
    check_forwards-All i (f ∷ fs) fs' h =
        let (f', first, h₁) =
          >>=-eq-ok (wrap (forward_error (i + 1)) (check_forward lib c f)) _ h in
        let (rest, others, h₂) = >>=-eq-ok (check_forwards lib c (i + 1) fs) _ h₁ in
        let e : f' ∷ rest ≡ fs' = cc h₂ in
        rw (← e) (
          check_forward-IsReady f f' (wrap-ok (i + 1) (check_forward lib c f) f' first),
          check_forwards-All (i + 1) fs rest others,
        )

check_tokens-IsStrong :
    (lib : Library) (m : Map String String)
    → check_tokens lib m ≡ ok tt
    → AllValues (IsStrong lib) m
unfolding check_tokens
check_tokens-IsStrong lib [] h = tt
check_tokens-IsStrong lib ((id, token) ∷ rest) h = (
  unfold validate_secret in ground (arith, h),
  check_tokens-IsStrong lib rest (ground (arith, h)),
)

validate_ip_rule-IsIpRule :
    (lib : Library) (kind value : String)
    → validate_ip_rule lib kind value ≡ ok tt
    → IsIpRule lib value
unfolding validate_ip_rule
validate_ip_rule-IsIpRule lib kind value h = ground (arith, h)

check_ip_rules-valid :
    (lib : Library) (m : Map String String)
    → check_ip_rules lib m ≡ ok tt
    → AllValues (IsIpRule lib) m
unfolding check_ip_rules
check_ip_rules-valid lib [] h = tt
check_ip_rules-valid lib ((id, rule) ∷ rest) h = (
  validate_ip_rule-IsIpRule lib (cat "ip rule " id) rule (ground (arith, h)),
  check_ip_rules-valid lib rest (ground (arith, h)),
)

-- `d` is what the check made of `c` at `now`.
pub record IsChecked (lib : Library) (now : ℕ) (c d : Config) : Type 0 where
  pub named : IsIdentifier lib.unicode d.server_id
  pub has_key : d.auth_keys ≢ []
  pub keys_active : All (IsActive lib now) d.auth_keys
  pub keys_found :
      All (λ (k : AuthKeyConfig). auth_key_by_id lib d k.id now ≡ some k.key) d.auth_keys
  pub tokens : All (IsTokenRule lib c) d.global_allow_tokens
  pub allow_ips : All (IsAddressRule lib c) d.global_allow_ips
  pub deny_ips : All (IsAddressRule lib c) d.global_deny_ips
  pub forwards : All (IsReady lib c) d.forward_configs

module _ (lib : Library) (c d : Config) (now : ℕ) where
  -- What passed on the way through `config_check_valid`.
  record Passed : Type 0 where
    pub named : validate_identifier lib.unicode "serverid" c.server_id ≡ ok tt
    pub has_key : c.auth_keys ≢ []
    pub keys : check_auth_keys lib 0 [] c.auth_keys now ≡ ok tt
    pub tokens : check_tokens lib c.tokens ≡ ok tt
    pub ip_rules : check_ip_rules lib c.ip_rules ≡ ok tt
    pub global_tokens :
        resolve_token_rules lib c c.global_allow_tokens "global" 0 ≡ ok d.global_allow_tokens
    pub global_ips : resolve_ip_rules lib c c.global_allow_ips "global" 0 ≡ ok d.global_allow_ips
    pub deny_ips : resolve_ip_rules lib c c.global_deny_ips "global_deny" 0 ≡ ok d.global_deny_ips
    pub forwards : check_forwards lib c 0 c.forward_configs ≡ ok d.forward_configs
    pub same_id : c.server_id ≡ d.server_id
    pub same_keys : c.auth_keys ≡ d.auth_keys

  config_check_valid-Passed : config_check_valid lib c now ≡ ok d → Passed
  unfolding config_check_valid
  config_check_valid-Passed h = record {
    named = ground (arith, h);
    has_key = ground (arith, h);
    keys = ground (arith, h);
    tokens = ground (arith, h);
    ip_rules = ground (arith, h);
    global_tokens = ground (arith, h);
    global_ips = ground (arith, h);
    deny_ips = ground (arith, h);
    forwards = ground (arith, h);
    same_id = ground (arith, h);
    same_keys = ground (arith, h);
  }

  module _ (p : Passed) where
    strong : AllValues (IsStrong lib) c.tokens
    strong = check_tokens-IsStrong lib c.tokens p.tokens

    valid : AllValues (IsIpRule lib) c.ip_rules
    valid = check_ip_rules-valid lib c.ip_rules p.ip_rules

    Passed-IsChecked : IsChecked lib now c d
    unfolding auth_key_by_id resolve_token_rules resolve_ip_rules
    Passed-IsChecked = record {
      named =
          rw (← p.same_id) ((validate_identifier_iff lib.unicode "serverid" c.server_id).0 p.named);
      has_key = rw (← p.same_keys) p.has_key;
      keys_active = rw (← p.same_keys) (check_auth_keys-IsActive lib now 0 [] c.auth_keys p.keys);
      keys_found = rw (← p.same_keys) (check_auth_keys-Found lib now 0 [] c.auth_keys p.keys);
      tokens =
          resolve_token_rules-All lib c strong 0 c.global_allow_tokens d.global_allow_tokens
            "global" 0 p.global_tokens;
      allow_ips =
          resolve_ip_rules-All lib c valid 0 c.global_allow_ips d.global_allow_ips "global" 0
            p.global_ips;
      deny_ips =
          resolve_ip_rules-All lib c valid 0 c.global_deny_ips d.global_deny_ips "global_deny" 0
            p.deny_ips;
      forwards =
          check_forwards-All lib c strong valid 0 c.forward_configs d.forward_configs p.forwards;
    }

  -- A configuration that passes CheckValid has a proper name and at least one key, every key is
  -- active and is found by its id at that moment, every global rule is resolved to a strong secret
  -- or a valid address rule, and every forward port has an address, an allowed port number,
  -- resolved rules and all the settings that the forwarder reads through pointers.
  pub config_check_valid-IsChecked : config_check_valid lib c now ≡ ok d → IsChecked lib now c d
  config_check_valid-IsChecked h = Passed-IsChecked (config_check_valid-Passed h)
