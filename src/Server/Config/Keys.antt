-- ===== src/Server/Config/Keys.antt =====
-- The authentication keys of cmd/authserver/config.go: their check at start-up, and their lookup
-- when a packet comes.
pub mod Lookup
pub mod Period
use connauth.Common.{
  ℕ, ◌+◌, String, Bool, true, false, not, ◌||◌, Option, none, some, List, [], ◌∷◌, string_eq, ◌==◌,
  ltb, ℤ, pos_part, neg_part, Result, ok, err, refuse_if, if◌then◌else◌, ◌>>=◌, ◌>>◌,
}
use connauth.Library.{Library}
use connauth.Server.Config.{
  Config, AuthKeyConfig, ConfigError, bad_not_before, bad_not_after, not_active_yet, expired_key,
}
use connauth.Server.Config.Secrets.{validate_identifier, validate_secret}

-- now.Before(t)
abbrev pub before : ℕ → ℤ → Bool
before now t = ltb (now + neg_part t) (pos_part t)

module _ (lib : Library) where
  unfoldable pub check_not_before : AuthKeyConfig → ℕ → Result ConfigError (Unit {0})
  check_not_before c now =
      if not (c.not_before == "")
      then elim (lib.parse_time c.not_before) [
        | none ↦ err bad_not_before
        | some t ↦ refuse_if (before now t) (not_active_yet c.id)
      ]
      else ok tt

  unfoldable pub check_not_after : AuthKeyConfig → ℕ → Result ConfigError (Unit {0})
  check_not_after c now =
      if not (c.not_after == "")
      then elim (lib.parse_time c.not_after) [
        | none ↦ err bad_not_after
        | some t ↦ refuse_if (not (before now t)) (expired_key c.id)
      ]
      else ok tt

  unfoldable pub auth_key_check_valid : AuthKeyConfig → ℕ → Result ConfigError (Unit {0})
  auth_key_check_valid c now = do
    validate_identifier lib.unicode "key id" c.id
    validate_secret lib.unicode "authkey" c.key
    check_not_before c now
    check_not_after c now

  -- The tests of `authKeyByID` on the key that has the id.
  unfoldable pub starts_later : AuthKeyConfig → ℕ → Bool
  starts_later key now =
      if not (key.not_before == "")
      then elim (lib.parse_time key.not_before) [ none ↦ true | some t ↦ before now t ]
      else false

  unfoldable pub has_ended : AuthKeyConfig → ℕ → Bool
  has_ended key now =
      if not (key.not_after == "")
      then elim (lib.parse_time key.not_after) [ none ↦ true | some t ↦ not (before now t) ]
      else false

  unfoldable pub find_auth_key : List AuthKeyConfig → String → ℕ → Option String
  find_auth_key [] key_id now = none
  find_auth_key (key ∷ keys) key_id now =
      if not (key.id == key_id)
      then find_auth_key keys key_id now
      else if starts_later key now
      then none
      else if has_ended key now
      then none
      else some key.key

  -- `none` stands for `"", false`.
  unfoldable pub auth_key_by_id : Config → String → ℕ → Option String
  auth_key_by_id c = find_auth_key c.auth_keys

unfoldable pub active_auth_key : Config → String
active_auth_key c = elim c.auth_keys [ [] ↦ "" | key ∷ keys ↦ key.key ]
