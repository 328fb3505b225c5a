-- ===== src/Server/Config/Keys/Lookup.antt =====
-- The authentication keys of a configuration that passes the check, and their lookup at that moment
-- (`authKeyByID`, cmd/authserver/config.go).
use connauth.Common.{
  ℕ, ◌+◌, ◌≡◌, String, false, some, List, [], ◌∷◌, string_eq, arith, eq_iff, All, All-map, All-map2,
  ok, refuse_if, >>=-eq-ok,
}
use connauth.Library.{Library}
use connauth.Server.Config.{AuthKeyConfig, auth_key_error}
use connauth.Server.Config.Secrets.{
  is_weak_secret, validate_secret, IsIdentifier, validate_identifier_iff,
}
use connauth.Server.Config.Keys.{
  auth_key_check_valid, check_not_before, check_not_after, starts_later, has_ended, find_auth_key,
}
use connauth.Server.Config.Check.{check_auth_keys, seen, wrap}

module _ (lib : Library) (now : ℕ) where
  -- A key that is good and within its period at `now`.
  pub record IsActive (key : AuthKeyConfig) : Type 0 where
    pub identified : IsIdentifier lib.unicode key.id
    pub strong : is_weak_secret lib.unicode key.key ≡ false
    pub started : starts_later lib key now ≡ false
    pub lasting : has_ended lib key now ≡ false

  auth_key_check_valid-IsActive :
      (key : AuthKeyConfig) → auth_key_check_valid lib key now ≡ ok tt → IsActive key
  unfolding auth_key_check_valid check_not_before check_not_after starts_later has_ended
      validate_secret
  auth_key_check_valid-IsActive key h = record {
    identified = (validate_identifier_iff lib.unicode "key id" key.id).0 (ground (arith, h));
    strong = ground (arith, h);
    started = ground (arith, h);
    lasting = ground (arith, h);
  }

  check_auth_keys-unseen :
      (i : ℕ) (ids : List String) (keys : List AuthKeyConfig)
      → check_auth_keys lib i ids keys now ≡ ok tt
      → All (λ (k : AuthKeyConfig). seen ids k.id ≡ false) keys
  unfolding check_auth_keys seen
  check_auth_keys-unseen i ids [] h = tt
  check_auth_keys-unseen i ids (key ∷ keys) h =
      let (u, first, h₁) =
        >>=-eq-ok (wrap (auth_key_error (i + 1)) (auth_key_check_valid lib key now)) _ h in
      let (v, new, h₂) = >>=-eq-ok (refuse_if (seen ids key.id) _) _ h₁ in
      let later = check_auth_keys-unseen (i + 1) (key.id ∷ ids) keys h₂ in
      (
        ground (arith, new),
        All-map (λ (k : AuthKeyConfig). seen (key.id ∷ ids) k.id ≡ false)
            (λ (k : AuthKeyConfig). seen ids k.id ≡ false) keys (λ k q. ground (arith, q)) later,
      )

  pub check_auth_keys-IsActive :
      (i : ℕ) (ids : List String) (keys : List AuthKeyConfig)
      → check_auth_keys lib i ids keys now ≡ ok tt
      → All IsActive keys
  unfolding check_auth_keys
  check_auth_keys-IsActive i ids [] h = tt
  check_auth_keys-IsActive i ids (key ∷ keys) h =
      let (u, first, h₁) =
        >>=-eq-ok (wrap (auth_key_error (i + 1)) (auth_key_check_valid lib key now)) _ h in
      let (v, new, h₂) = >>=-eq-ok (refuse_if (seen ids key.id) _) _ h₁ in
      (
        auth_key_check_valid-IsActive key (ground (arith, first)),
        check_auth_keys-IsActive (i + 1) (key.id ∷ ids) keys h₂,
      )

  -- The lookup in `keys` gives out the key's own secret.
  abbrev pub Found : List AuthKeyConfig → AuthKeyConfig → Type 0
  Found keys k = find_auth_key lib keys k.id now ≡ some k.key

  Found-cons :
      (key k : AuthKeyConfig) (keys : List AuthKeyConfig)
      → seen (key.id ∷ []) k.id ≡ false
      → Found keys k
      → Found (key ∷ keys) k
  unfolding find_auth_key seen
  Found-cons key k keys other f = ground (arith, other, f)

  Found-head :
      (key : AuthKeyConfig) (keys : List AuthKeyConfig) → IsActive key → Found (key ∷ keys) key
  unfolding find_auth_key
  Found-head key keys a = ground (arith, a.started, a.lasting, eq_iff key.id key.id)

  seen-cons :
      (key : AuthKeyConfig) (ids : List String) (id : String)
      → seen (key.id ∷ ids) id ≡ false
      → seen (key.id ∷ []) id ≡ false
  unfolding seen
  seen-cons key ids id h = ground (arith, h)

  pub check_auth_keys-Found :
      (i : ℕ) (ids : List String) (keys : List AuthKeyConfig)
      → check_auth_keys lib i ids keys now ≡ ok tt
      → All (Found keys) keys
  unfolding check_auth_keys
  check_auth_keys-Found i ids [] h = tt
  check_auth_keys-Found i ids (key ∷ keys) h =
      let (u, first, h₁) =
        >>=-eq-ok (wrap (auth_key_error (i + 1)) (auth_key_check_valid lib key now)) _ h in
      let (v, new, h₂) = >>=-eq-ok (refuse_if (seen ids key.id) _) _ h₁ in
      (
        Found-head key keys (check_auth_keys-IsActive i ids (key ∷ keys) h).0,
        All-map2 (λ (k : AuthKeyConfig). seen (key.id ∷ ids) k.id ≡ false) (Found keys)
            (Found (key ∷ keys)) keys
            (λ k other f. Found-cons key k keys (seen-cons key ids k.id other) f)
            (check_auth_keys-unseen (i + 1) (key.id ∷ ids) keys h₂)
            (check_auth_keys-Found (i + 1) (key.id ∷ ids) keys h₂),
      )
