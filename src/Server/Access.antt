-- ===== src/Server/Access.antt =====
-- The access rules of cmd/authserver/auth.go: which addresses and which tokens a rule list lets in.
pub mod Rules
use connauth.Common.{
  ℕ, suc, ◌+◌, String, Bool, true, false, not, ◌&&◌, ◌||◌, Option, none, some, List, [], ◌∷◌,
  string_eq, ◌==◌, if◌then◌else◌,
}
use connauth.Library.{Library}
use connauth.Server.Config.{Config, ForwardConfig, AccessRule}
use connauth.Server.Config.Rules.{inline_rule_id}

pub record AuthResult : Type 0 where
  pub authorized : Bool
  pub renewed : Bool
  pub rule_scope : String
  pub rule_id : String
  pub rule_type : String

-- authResult{}
abbrev pub no_auth : AuthResult
no_auth = record {
  authorized = false;
  renewed = false;
  rule_scope = "";
  rule_id = "";
  rule_type = "";
}

module _ (lib : Library) where
  unfoldable pub is_ip_match_rule : String → String → Bool
  is_ip_match_rule ip rule =
      if rule == ""
      then false
      else if ip == rule
      then true
      else elim (lib.parse_cidr rule) [ none ↦ false | some sub_net ↦ sub_net ip ]

  abbrev pub ip_rule_value : AccessRule → String
  ip_rule_value r = if r.resolved_value == "" && not (r.ip == "") then r.ip else r.resolved_value

  unfoldable pub is_ip_match_rules : String → List AccessRule → Bool
  is_ip_match_rules ip [] = false
  is_ip_match_rules ip (r ∷ rules) =
      if is_ip_match_rule ip (ip_rule_value r) then true else is_ip_match_rules ip rules

  unfoldable pub is_static_ip_allowed : Config → ForwardConfig → String → Bool
  is_static_ip_allowed c f ip =
      if is_ip_match_rules ip c.global_allow_ips
      then true
      else if is_ip_match_rules ip f.allow_ips
      then true
      else false

  unfoldable pub is_ip_denied : Config → String → Bool
  is_ip_denied c ip = is_ip_match_rules ip c.global_deny_ips

  -- Whether the rule falls back on a token that was not resolved.
  abbrev pub falls_back : AccessRule → Bool
  falls_back r = r.resolved_value == "" && not (r.token == "")

  abbrev pub token_rule_value : AccessRule → String
  token_rule_value r = if falls_back r then r.token else r.resolved_value

  -- The loop of `matchTokenRules`, from position `i` on.
  unfoldable pub match_token_rules_from : ℕ → String → String → List AccessRule → AuthResult × Bool
  match_token_rules_from i token scope [] = (no_auth, false)
  match_token_rules_from i token scope (r ∷ rules) =
      if lib.glob (token_rule_value r) token
      then (
        record {
          authorized = true;
          renewed = false;
          rule_scope = scope;
          rule_id = if falls_back r then inline_rule_id scope 0 "token" (i + 1) else r.rule_id;
          rule_type = if falls_back r then "inline_token" else r.rule_type;
        },
        true,
      )
      else match_token_rules_from (i + 1) token scope rules

  unfoldable pub match_token_rules : String → String → List AccessRule → AuthResult × Bool
  match_token_rules = match_token_rules_from 0

  -- The global rules, and the forward port's rules where those do not match.
  unfoldable pub match_any_token_rules : Config → ForwardConfig → String → AuthResult × Bool
  match_any_token_rules c f token =
      let (result, matched) = match_token_rules token "global" c.global_allow_tokens in
      if matched then (result, true) else match_token_rules token "forward" f.allow_tokens
