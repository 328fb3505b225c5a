-- ===== src/Server/Config/Rules.antt =====
-- The resolution of access rules in cmd/authserver/config.go: a rule names a shared token or address
-- rule, or holds one of its own.
pub mod Resolved
use Prim.Native.String.{◌++◌ as cat}
use connauth.Common.{
  ℕ, suc, ◌+◌, String, Bool, true, false, not, ◌||◌, Option, none, some, List, [], ◌∷◌, string_eq,
  nat_eq, ◌==◌, Map, lookup, Result, ok, err, refuse_if, if◌then◌else◌, ◌>>=◌, ◌>>◌,
}
use connauth.Text.{decimal}
use connauth.Library.{Library}
use connauth.Server.Config.{
  Config, AccessRule, ConfigError, combined_token_ref, combined_ip_ref, unknown_token_ref,
  unknown_ip_ref, no_token, wildcard_rule, no_ip,
}
use connauth.Server.Config.Secrets.{validate_secret, validate_ip_rule}

unfoldable pub inline_rule_id : String → ℕ → String → ℕ → String
inline_rule_id scope port kind index =
    if port == 0
    then cat "inline:" (cat scope (cat ":" (cat kind (cat ":" (decimal index)))))
    else cat "inline:"
        (cat scope (cat ":" (cat (decimal port) (cat ":" (cat kind (cat ":" (decimal index)))))))

-- value := first; if value == "" { value = second }
abbrev pub or_else : String → String → String
or_else first second = if first == "" then second else first

module _ (lib : Library) (c : Config) where
  abbrev pub token_ref_rule : AccessRule → Result ConfigError AccessRule
  token_ref_rule rule = elim (lookup rule.token_ref c.tokens) [
    | none ↦ err (unknown_token_ref rule.token_ref)
    | some value ↦
        ok (record rule {
          resolved_value = value;
          rule_id = rule.token_ref;
          rule_type = "token_ref";
        })
  ]

  abbrev pub inline_token_rule : AccessRule → String → ℕ → ℕ → Result ConfigError AccessRule
  inline_token_rule rule scope port index = do
    let value = or_else rule.token rule.inline
    refuse_if (value == "" || (not (rule.ip == "") || not (rule.ip_ref == ""))) no_token
    refuse_if (value == "*") wildcard_rule
    validate_secret lib.unicode "token rule" value
    ok (record rule {
      resolved_value = value;
      rule_id = inline_rule_id scope port "token" index;
      rule_type = "inline_token";
    })

  unfoldable pub resolve_token_rule : AccessRule → String → ℕ → ℕ → Result ConfigError AccessRule
  resolve_token_rule rule scope port index =
      if not (rule.token_ref == "")
      then (do
        refuse_if
            (not (rule.token == "")
              || (not (rule.ip == "") || (not (rule.ip_ref == "") || not (rule.inline == ""))))
            combined_token_ref
        token_ref_rule rule)
      else inline_token_rule rule scope port index

  abbrev pub ip_ref_rule : AccessRule → Result ConfigError AccessRule
  ip_ref_rule rule = elim (lookup rule.ip_ref c.ip_rules) [
    | none ↦ err (unknown_ip_ref rule.ip_ref)
    | some value ↦
        ok (record rule { resolved_value = value; rule_id = rule.ip_ref; rule_type = "ip_ref" })
  ]

  abbrev pub inline_ip_rule : AccessRule → String → ℕ → ℕ → Result ConfigError AccessRule
  inline_ip_rule rule scope port index = do
    let value = or_else rule.ip rule.inline
    refuse_if (value == "" || (not (rule.token == "") || not (rule.token_ref == ""))) no_ip
    validate_ip_rule lib "ip rule" value
    ok (record rule {
      resolved_value = value;
      rule_id = inline_rule_id scope port "ip" index;
      rule_type = "inline_ip";
    })

  unfoldable pub resolve_ip_rule : AccessRule → String → ℕ → ℕ → Result ConfigError AccessRule
  resolve_ip_rule rule scope port index =
      if not (rule.ip_ref == "")
      then (do
        refuse_if
            (not (rule.ip == "")
              || (not (rule.token == "")
                  || (not (rule.token_ref == "") || not (rule.inline == ""))))
            combined_ip_ref
        ip_ref_rule rule)
      else inline_ip_rule rule scope port index

  -- The loops over a rule list, from the rule at position `i` on.
  unfoldable pub resolve_token_rules_from :
      ℕ → List AccessRule → String → ℕ → Result ConfigError (List AccessRule)
  resolve_token_rules_from i [] scope port = ok []
  resolve_token_rules_from i (r ∷ rules) scope port = do
    rule ← resolve_token_rule r scope port (i + 1)
    rest ← resolve_token_rules_from (i + 1) rules scope port
    ok (rule ∷ rest)

  unfoldable pub resolve_token_rules :
      List AccessRule → String → ℕ → Result ConfigError (List AccessRule)
  resolve_token_rules = resolve_token_rules_from 0

  unfoldable pub resolve_ip_rules_from :
      ℕ → List AccessRule → String → ℕ → Result ConfigError (List AccessRule)
  resolve_ip_rules_from i [] scope port = ok []
  resolve_ip_rules_from i (r ∷ rules) scope port = do
    rule ← resolve_ip_rule r scope port (i + 1)
    rest ← resolve_ip_rules_from (i + 1) rules scope port
    ok (rule ∷ rest)

  unfoldable pub resolve_ip_rules :
      List AccessRule → String → ℕ → Result ConfigError (List AccessRule)
  resolve_ip_rules = resolve_ip_rules_from 0
