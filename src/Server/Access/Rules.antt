-- ===== src/Server/Access/Rules.antt =====
-- The rule lists of a checked configuration: a token is held against the resolved values alone.
use connauth.Common.{
  ℕ, ◌+◌, ◌≡◌, ◌≢◌, ap, refl, String, Bool, true, false, List, [], ◌∷◌, arith, eq_iff, string_eq,
  if◌then◌else◌, All,
}
use connauth.Text.{Unicode, byte_len, trim_space, trim_left}
use connauth.Library.{Library}
use connauth.Server.Config.{Config, ForwardConfig, AccessRule}
use connauth.Server.Config.Secrets.{is_weak_secret}
use connauth.Server.Config.Rules.Resolved.{IsTokenRule, IsStrong}
use connauth.Server.Access.{
  AuthResult, no_auth, match_token_rules, match_token_rules_from, match_any_token_rules,
}

weak-nil : (u : Unicode) → is_weak_secret u "" ≡ true
unfolding is_weak_secret trim_space trim_left byte_len
weak-nil u = refl

strong-ne-nil : (lib : Library) (s : String) → IsStrong lib s → s ≢ ""
strong-ne-nil lib s h e = cc (weak-nil lib.unicode, ap (is_weak_secret lib.unicode) e)

-- The first rule whose resolved value matches the token, with the rule's own name and type.
abbrev pub first_match : Library → String → String → List AccessRule → AuthResult × Bool
first_match lib token scope [] = (no_auth, false)
first_match lib token scope (r ∷ rules) =
    if lib.glob r.resolved_value token
    then (
      record {
        authorized = true;
        renewed = false;
        rule_scope = scope;
        rule_id = r.rule_id;
        rule_type = r.rule_type;
      },
      true,
    )
    else first_match lib token scope rules

module _ (lib : Library) (c : Config) where
  match_from-first_match :
      (i : ℕ) (token scope : String) (rules : List AccessRule)
      → All (IsTokenRule lib c) rules
      → match_token_rules_from lib i token scope rules ≡ first_match lib token scope rules
  unfolding match_token_rules_from
  match_from-first_match i token scope [] a = refl
  match_from-first_match i token scope (r ∷ rules) a = ground (
    arith,
    strong-ne-nil lib r.resolved_value a.0.strong,
    eq_iff r.resolved_value "",
    match_from-first_match (i + 1) token scope rules a.1,
  )

  -- With resolved rules matchTokenRules answers with the first rule whose resolved value matches
  -- the token; the fallback on an inline token is never taken.
  pub match_token_rules-first_match :
      (token scope : String) (rules : List AccessRule)
      → All (IsTokenRule lib c) rules
      → match_token_rules lib token scope rules ≡ first_match lib token scope rules
  unfolding match_token_rules
  match_token_rules-first_match = match_from-first_match 0

module _ (lib : Library) where
  match_from-authorized :
      (i : ℕ) (token scope : String) (rules : List AccessRule)
      → (match_token_rules_from lib i token scope rules).0.authorized
        ≡ (match_token_rules_from lib i token scope rules).1
  unfolding match_token_rules_from
  match_from-authorized i token scope [] = refl
  match_from-authorized i token scope (r ∷ rules) =
      ground (arith, match_from-authorized (i + 1) token scope rules)

  pub match_any-authorized :
      (c : Config) (f : ForwardConfig) (token : String)
      → (match_any_token_rules lib c f token).0.authorized ≡ (match_any_token_rules lib c f token).1
  unfolding match_any_token_rules match_token_rules
  match_any-authorized c f token = ground (
    arith,
    match_from-authorized 0 token "global" c.global_allow_tokens,
    match_from-authorized 0 token "forward" f.allow_tokens,
  )
