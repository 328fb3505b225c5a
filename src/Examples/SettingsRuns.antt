-- ===== src/Examples/SettingsRuns.antt =====
-- The checks of cmd/authserver/config.go and cmd/authclient/config.go on the sample configurations,
-- and the theorems about them applied there.
use connauth.Common.{
  inr, string_eq, nat_eq, ◌≡◌, ◌↔◌, refl, true, false, ◌||◌, some, none, pos, ◌==◌, if◌then◌else◌,
  [], ◌∷◌, lookup, All, ltb, ok,
}
use connauth.Text.{
  ascii, runes, byte_len, rune_len, trim_space, trim_left, contains, has_prefix, decimal,
}
use connauth.Library.{Library}
use connauth.Server.Config.{AuthKeyConfig, set_default_value}
use connauth.Server.Config.Secrets.{
  identifier_rune, all_identifier, validate_identifier, example_secret, folded, is_weak_secret,
  validate_secret, validate_ip_rule, is_weak_secret_iff, IsIdentifier, validate_identifier_iff,
}
use connauth.Server.Config.Rules.{
  inline_rule_id, resolve_token_rule, resolve_token_rules, resolve_token_rules_from,
  resolve_ip_rule, resolve_ip_rules, resolve_ip_rules_from,
}
use connauth.Server.Config.Rules.Resolved.{IsTokenRule, resolve_token_rule-IsTokenRule}
use connauth.Server.Config.Keys.{
  auth_key_check_valid, check_not_before, check_not_after, starts_later, has_ended, find_auth_key,
}
use connauth.Server.Config.Keys.Period.{Offers, find_auth_key_iff}
use connauth.Server.Config.Check.{
  seen, forward_check_valid, check_auth_keys, check_tokens, check_ip_rules, check_forward,
  check_forwards, config_check_valid,
}
use connauth.Server.Config.Check.Sound.{IsChecked, config_check_valid-IsChecked}
use connauth.Server.Access.{match_token_rules}
use connauth.Server.Access.Rules.{first_match, match_token_rules-first_match}
use connauth.Client
use connauth.Examples.{sample_library}
use connauth.Examples.Settings.{
  settings, settings_ready, client_settings, client_settings_ready, shell_port_ready, named_rule,
  named_rule_resolved, denied_rule, denied_rule_resolved, office_token, primary_key, primary_secret,
}

pub settings_pass : config_check_valid sample_library settings 1000 ≡ ok settings_ready
unfolding config_check_valid validate_identifier all_identifier identifier_rune check_auth_keys
    auth_key_check_valid validate_secret is_weak_secret example_secret check_not_before
    check_not_after seen check_tokens check_ip_rules validate_ip_rule resolve_token_rules
    resolve_token_rules_from resolve_token_rule resolve_ip_rules resolve_ip_rules_from
    resolve_ip_rule inline_rule_id check_forwards check_forward forward_check_valid
    set_default_value ascii byte_len rune_len trim_space trim_left contains has_prefix decimal
    lookup
settings_pass = refl

config_check_valid-IsChecked_example : IsChecked sample_library 1000 settings settings_ready
config_check_valid-IsChecked_example =
    config_check_valid-IsChecked sample_library settings settings_ready 1000 settings_pass

office_token_strong : is_weak_secret sample_library.unicode office_token ≡ false
unfolding is_weak_secret example_secret ascii byte_len rune_len trim_space trim_left contains
    has_prefix
office_token_strong = refl

another_token_strong : is_weak_secret sample_library.unicode "another-demonstration-token" ≡ false
unfolding is_weak_secret example_secret ascii byte_len rune_len trim_space trim_left contains
    has_prefix
another_token_strong = refl

-- A secret is weak if its only length is the space around it, or if it holds the placeholder.
padded_secret_weak : is_weak_secret sample_library.unicode "   short                    " ≡ true
unfolding is_weak_secret ascii byte_len rune_len trim_space trim_left
padded_secret_weak = refl

named_rule_resolves :
    resolve_token_rule sample_library settings named_rule "forward" 40022 1 ≡ ok named_rule_resolved
unfolding resolve_token_rule lookup
named_rule_resolves = refl

office_net_valid : validate_ip_rule sample_library "" "198.51.100.0/24" ≡ ok tt
unfolding validate_ip_rule
office_net_valid = refl

denied_rule_resolves :
    resolve_ip_rule sample_library settings denied_rule "global_deny" 0 1 ≡ ok denied_rule_resolved
unfolding resolve_ip_rule validate_ip_rule inline_rule_id decimal
denied_rule_resolves = refl

shell_rules : All (IsTokenRule sample_library settings) shell_port_ready.allow_tokens
shell_rules = (
  resolve_token_rule-IsTokenRule sample_library settings (office_token_strong, tt) named_rule
      named_rule_resolved "forward" 40022 1 named_rule_resolves,
  (record { strong = another_token_strong; origin = inr (refl, refl) }, tt),
)

match_token_rules-first_match_example :
    match_token_rules sample_library office_token "forward" shell_port_ready.allow_tokens
    ≡ first_match sample_library office_token "forward" shell_port_ready.allow_tokens
match_token_rules-first_match_example =
    match_token_rules-first_match sample_library settings office_token "forward"
      shell_port_ready.allow_tokens shell_rules

-- A library that reads one time, and a key that ends then.
abbrev dated_library : Library
dated_library = record sample_library {
  parse_time = λ s. if s == "later" then some (pos 2000) else none;
}

abbrev dated_key : AuthKeyConfig
dated_key = record primary_key { not_after = "later" }

find_auth_key_iff_example :
    (find_auth_key dated_library (dated_key ∷ []) "primary" 1000 ≡ some primary_secret)
    ↔ Offers dated_library 1000 "primary" primary_secret (dated_key ∷ [])
find_auth_key_iff_example =
    find_auth_key_iff dated_library 1000 (dated_key ∷ []) "primary" primary_secret

dated_key_found : find_auth_key dated_library (dated_key ∷ []) "primary" 1000 ≡ some primary_secret
unfolding find_auth_key starts_later has_ended
dated_key_found = refl

dated_key_ended : find_auth_key dated_library (dated_key ∷ []) "primary" 2000 ≡ none
unfolding find_auth_key starts_later has_ended
dated_key_ended = refl

is_weak_secret_iff_example : is_weak_secret ascii "  Please_CHANGE_ME_before_use  " ≡ (
    ltb (byte_len (folded ascii "  Please_CHANGE_ME_before_use  ")) 24
    || contains (folded ascii "  Please_CHANGE_ME_before_use  ") (runes "change_me"))
is_weak_secret_iff_example = is_weak_secret_iff ascii "  Please_CHANGE_ME_before_use  "

validate_identifier_iff_example :
    (validate_identifier ascii "serverid" "connauth-server" ≡ ok tt)
    ↔ IsIdentifier ascii "connauth-server"
validate_identifier_iff_example = validate_identifier_iff ascii "serverid" "connauth-server"

pub client_settings_pass :
    Client.Config.config_check_valid sample_library client_settings ≡ ok client_settings_ready
unfolding Client.Config.config_check_valid Client.Config.validate_identifier
    Client.Config.all_identifier Client.Config.check_servers Client.Config.server_check_valid
    Client.Config.validate_secret Client.Config.is_weak_secret Client.Config.check_auth_configs
    Client.Config.auth_config_check_valid Client.Config.set_default_value ascii byte_len rune_len
    trim_space trim_left contains has_prefix
client_settings_pass = refl

config_check_valid_sound_example :
    IsIdentifier ascii "workstation"
    × All (Client.Config.Sound.IsServer sample_library) client_settings_ready.servers
config_check_valid_sound_example =
    Client.Config.Sound.config_check_valid_sound sample_library client_settings
      client_settings_ready client_settings_pass
