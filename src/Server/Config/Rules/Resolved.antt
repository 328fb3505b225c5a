-- ===== src/Server/Config/Rules/Resolved.antt =====
-- What a resolved access rule of cmd/authserver/config.go holds.
use connauth.Common.{
  ℕ, ◌+◌, ◌≡◌, ◌⊎◌, inl, inr, String, false, some, List, [], ◌∷◌, string_eq, nat_eq, ◌==◌, arith,
  Map, lookup, All, ok, Bool-cases, Option-cases, >>=-eq-ok,
}
use connauth.Library.{Library}
use connauth.Server.Config.{Config, AccessRule}
use connauth.Server.Config.Secrets.{is_weak_secret, validate_secret, validate_ip_rule}
use connauth.Server.Config.Rules.{
  or_else, resolve_token_rule, resolve_token_rules_from, resolve_ip_rule, resolve_ip_rules_from,
  inline_token_rule, inline_ip_rule, token_ref_rule, ip_ref_rule,
}

abbrev pub IsStrong : Library → String → Type 0
IsStrong lib s = is_weak_secret lib.unicode s ≡ false

-- The text is an address that resolves, or a network.
abbrev pub IsIpRule : Library → String → Type 0
IsIpRule lib s = validate_ip_rule lib "" s ≡ ok tt

-- Every value of the map has the property.
abbrev pub AllValues : (String → Type 0) → Map String String → Type 0
AllValues P m = All (λ (e : String × String). P e.1) m

AllValues-lookup :
    (P : String → Type 0) (k v : String) (m : Map String String)
    → AllValues P m
    → lookup k m ≡ some v
    → P v
unfolding lookup
AllValues-lookup P k v [] a h = absurd (ground (arith, h))
AllValues-lookup P k v ((j, w) ∷ m) a h = elim (Bool-cases (j == k)) [
  | inl hit ↦ let e : w ≡ v = ground (arith, h, hit) in rw (← e) a.0
  | inr miss ↦ AllValues-lookup P k v m a.1 (ground (arith, h, miss))
]

module _ (lib : Library) (c : Config) where
  -- A resolved token rule: from the shared tokens under its name, or the rule's own text.
  pub record IsTokenRule (r : AccessRule) : Type 0 where
    pub strong : IsStrong lib r.resolved_value
    pub origin :
        ((r.rule_type ≡ "token_ref") × (lookup r.rule_id c.tokens ≡ some r.resolved_value))
        ⊎ ((r.rule_type ≡ "inline_token") × (r.resolved_value ≡ or_else r.token r.inline))

  inline_token_strong :
      (r r' : AccessRule) (scope : String) (port index : ℕ)
      → inline_token_rule lib c r scope port index ≡ ok r'
      → IsTokenRule r'
  unfolding validate_secret
  inline_token_strong r r' scope port index h = record {
    strong = ground (arith, h);
    origin = inr (ground (arith, h), ground (arith, h));
  }

  token_ref_strong :
      AllValues (IsStrong lib) c.tokens
      → (r r' : AccessRule) → token_ref_rule lib c r ≡ ok r'
      → IsTokenRule r'
  token_ref_strong strong r r' h = elim (Option-cases (lookup r.token_ref c.tokens)) [
    | inl e ↦ absurd (ground (arith, h, e))
    | inr (v, e) ↦
        let s = AllValues-lookup (IsStrong lib) r.token_ref v c.tokens strong e in
        record {
          strong = ground (arith, h, e, s);
          origin = inl (ground (arith, h, e), ground (arith, h, e));
        }
  ]

  -- Where the shared tokens are strong, a token rule that resolves stands for a strong secret: the
  -- shared token under its name, or the rule's own text, as its type says.
  pub resolve_token_rule-IsTokenRule :
      AllValues (IsStrong lib) c.tokens
      → (r r' : AccessRule) (scope : String) (port index : ℕ)
      → resolve_token_rule lib c r scope port index ≡ ok r'
      → IsTokenRule r'
  unfolding resolve_token_rule
  resolve_token_rule-IsTokenRule strong r r' scope port index h =
      elim (Bool-cases (r.token_ref == "")) [
        | inl own ↦ inline_token_strong r r' scope port index (ground (arith, h, own))
        | inr named ↦ token_ref_strong strong r r' (ground (arith, h, named))
      ]

  pub resolve_token_rules-All :
      AllValues (IsStrong lib) c.tokens
      → (i : ℕ) (rules rules' : List AccessRule) (scope : String) (port : ℕ)
      → resolve_token_rules_from lib c i rules scope port ≡ ok rules'
      → All IsTokenRule rules'
  unfolding resolve_token_rules_from
  resolve_token_rules-All strong i [] rules' scope port h =
      let e : [] ≡ rules' = cc h in rw (← e) tt
  resolve_token_rules-All strong i (r ∷ rules) rules' scope port h =
      let (r', first, h₁) = >>=-eq-ok (resolve_token_rule lib c r scope port (i + 1)) _ h in
      let (rest, others, h₂) =
        >>=-eq-ok (resolve_token_rules_from lib c (i + 1) rules scope port) _ h₁ in
      let e : r' ∷ rest ≡ rules' = cc h₂ in
      rw (← e) (
        resolve_token_rule-IsTokenRule strong r r' scope port (i + 1) first,
        resolve_token_rules-All strong (i + 1) rules rest scope port others,
      )

  -- A resolved address rule: from the shared rules under its name, or the rule's own text.
  pub record IsAddressRule (r : AccessRule) : Type 0 where
    pub valid : IsIpRule lib r.resolved_value
    pub origin :
        ((r.rule_type ≡ "ip_ref") × (lookup r.rule_id c.ip_rules ≡ some r.resolved_value))
        ⊎ ((r.rule_type ≡ "inline_ip") × (r.resolved_value ≡ or_else r.ip r.inline))

  inline_ip_valid :
      (r r' : AccessRule) (scope : String) (port index : ℕ)
      → inline_ip_rule lib c r scope port index ≡ ok r'
      → IsAddressRule r'
  unfolding validate_ip_rule
  inline_ip_valid r r' scope port index h = record {
    valid = ground (arith, h);
    origin = inr (ground (arith, h), ground (arith, h));
  }

  ip_ref_valid :
      AllValues (IsIpRule lib) c.ip_rules
      → (r r' : AccessRule) → ip_ref_rule lib c r ≡ ok r'
      → IsAddressRule r'
  ip_ref_valid valid r r' h = elim (Option-cases (lookup r.ip_ref c.ip_rules)) [
    | inl e ↦ absurd (ground (arith, h, e))
    | inr (v, e) ↦
        let s = AllValues-lookup (IsIpRule lib) r.ip_ref v c.ip_rules valid e in
        record {
          valid = ground (arith, h, e, s);
          origin = inl (ground (arith, h, e), ground (arith, h, e));
        }
  ]

  -- Where the shared address rules are valid, an address rule that resolves stands for an address
  -- or a network: the shared rule under its name, or the rule's own text, as its type says.
  pub resolve_ip_rule-IsAddressRule :
      AllValues (IsIpRule lib) c.ip_rules
      → (r r' : AccessRule) (scope : String) (port index : ℕ)
      → resolve_ip_rule lib c r scope port index ≡ ok r'
      → IsAddressRule r'
  unfolding resolve_ip_rule
  resolve_ip_rule-IsAddressRule valid r r' scope port index h = elim (Bool-cases (r.ip_ref == "")) [
    | inl own ↦ inline_ip_valid r r' scope port index (ground (arith, h, own))
    | inr named ↦ ip_ref_valid valid r r' (ground (arith, h, named))
  ]

  pub resolve_ip_rules-All :
      AllValues (IsIpRule lib) c.ip_rules
      → (i : ℕ) (rules rules' : List AccessRule) (scope : String) (port : ℕ)
      → resolve_ip_rules_from lib c i rules scope port ≡ ok rules'
      → All IsAddressRule rules'
  unfolding resolve_ip_rules_from
  resolve_ip_rules-All valid i [] rules' scope port h = let e : [] ≡ rules' = cc h in rw (← e) tt
  resolve_ip_rules-All valid i (r ∷ rules) rules' scope port h =
      let (r', first, h₁) = >>=-eq-ok (resolve_ip_rule lib c r scope port (i + 1)) _ h in
      let (rest, others, h₂) =
        >>=-eq-ok (resolve_ip_rules_from lib c (i + 1) rules scope port) _ h₁ in
      let e : r' ∷ rest ≡ rules' = cc h₂ in
      rw (← e) (
        resolve_ip_rule-IsAddressRule valid r r' scope port (i + 1) first,
        resolve_ip_rules-All valid (i + 1) rules rest scope port others,
      )
