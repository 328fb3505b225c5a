-- ===== src/Server/Config/Keys/Period.antt =====
-- At which moments the lookup of an authentication key (`authKeyByID`, cmd/authserver/config.go) gives
-- one out.
use connauth.Common.{
  ℕ, ◌+◌, ◌≡◌, ◌≢◌, ◌⊎◌, ◌↔◌, ◌≤◌, ◌<◌, ℤ, pos_part, neg_part, inl, inr, String, false, some, List,
  [], ◌∷◌, string_eq, ◌==◌, arith, eq_iff, Bool-cases, Option-cases,
}
use connauth.Library.{Library}
use connauth.Server.Config.{AuthKeyConfig}
use connauth.Server.Config.Keys.{starts_later, has_ended, find_auth_key}

module _ (lib : Library) (now : ℕ) where
  -- A moment that has come, and one that is still to come. Times before 1970 are negative.
  abbrev HasCome : ℤ → Type 0
  HasCome t = pos_part t ≤ now + neg_part t

  abbrev IsToCome : ℤ → Type 0
  IsToCome t = now + neg_part t < pos_part t

  -- The period of a key: each end is open where its text is empty, and a text that is no time leaves
  -- no period.
  pub record IsInPeriod (key : AuthKeyConfig) : Type 0 where
    pub started :
        (key.not_before ≡ "") ⊎ ((t : ℤ) × (lib.parse_time key.not_before ≡ some t) × HasCome t)
    pub lasting :
        (key.not_after ≡ "") ⊎ ((t : ℤ) × (lib.parse_time key.not_after ≡ some t) × IsToCome t)

  starts_later_iff :
      (key : AuthKeyConfig)
      → (starts_later lib key now ≡ false)
        ↔ ((key.not_before ≡ "") ⊎ ((t : ℤ) × (lib.parse_time key.not_before ≡ some t) × HasCome t))
  unfolding starts_later
  starts_later_iff key = (
    λ h. elim (Bool-cases (key.not_before == "")) [
      | inl open' ↦ inl ((eq_iff key.not_before "").0 open')
      | inr set ↦ elim (Option-cases (lib.parse_time key.not_before)) [
        | inl e ↦ absurd (ground (arith, h, set, e))
        | inr (t, e) ↦ inr (t, e, ground (arith, h, set, e))
      ]
    ],
    λ s. elim s [
      | inl e ↦ ground (arith, (eq_iff key.not_before "").1 e)
      | inr (t, e, come) ↦ ground (arith, e, come)
    ],
  )

  has_ended_iff :
      (key : AuthKeyConfig)
      → (has_ended lib key now ≡ false)
        ↔ ((key.not_after ≡ "") ⊎ ((t : ℤ) × (lib.parse_time key.not_after ≡ some t) × IsToCome t))
  unfolding has_ended
  has_ended_iff key = (
    λ h. elim (Bool-cases (key.not_after == "")) [
      | inl open' ↦ inl ((eq_iff key.not_after "").0 open')
      | inr set ↦ elim (Option-cases (lib.parse_time key.not_after)) [
        | inl e ↦ absurd (ground (arith, h, set, e))
        | inr (t, e) ↦ inr (t, e, ground (arith, h, set, e))
      ]
    ],
    λ s. elim s [
      | inl e ↦ ground (arith, (eq_iff key.not_after "").1 e)
      | inr (t, e, come) ↦ ground (arith, e, come)
    ],
  )

  -- The first key of that id has that secret, and is within its period.
  pub data Offers (id secret : String) : List AuthKeyConfig → Type 0 where
    this :
        (key : AuthKeyConfig) (keys : List AuthKeyConfig)
        → key.id ≡ id
        → key.key ≡ secret
        → IsInPeriod key
        → Offers id secret (key ∷ keys)
    later :
        (key : AuthKeyConfig) (keys : List AuthKeyConfig)
        → key.id ≢ id
        → Offers id secret keys
        → Offers id secret (key ∷ keys)

  found_offered :
      (keys : List AuthKeyConfig) (id secret : String)
      → find_auth_key lib keys id now ≡ some secret
      → Offers id secret keys
  unfolding find_auth_key
  found_offered [] id secret h = absurd (ground (arith, h))
  found_offered (key ∷ keys) id secret h = elim (Bool-cases (key.id == id)) [
    | inl hit ↦ this key keys ((eq_iff key.id id).0 hit) (ground (arith, h, hit)) (record {
      started = (starts_later_iff key).0 (ground (arith, h, hit));
      lasting = (has_ended_iff key).0 (ground (arith, h, hit));
    })
    | inr miss ↦
        later key keys (λ e. ground (arith, (eq_iff key.id id).1 e, miss))
          (found_offered keys id secret (ground (arith, h, miss)))
  ]

  offered_found :
      (id secret : String) (keys : List AuthKeyConfig)
      → Offers id secret keys
      → find_auth_key lib keys id now ≡ some secret
  unfolding find_auth_key
  offered_found id secret [] o = elim o [ ]
  offered_found id secret (_ ∷ _) (this key rest same_id same_key period) = ground (
    arith,
    (eq_iff key.id id).1 same_id,
    same_key,
    (starts_later_iff key).1 period.started,
    (has_ended_iff key).1 period.lasting,
  )
  offered_found id secret (_ ∷ _) (later key rest other o) =
      let found = offered_found id secret rest o in
      elim (Bool-cases (key.id == id)) [
        | inl hit ↦ absurd (other ((eq_iff key.id id).0 hit))
        | inr miss ↦ ground (arith, miss, found)
      ]

  -- At any moment authKeyByID gives out a secret exactly if the first configured key of that id has
  -- it and is within its period: its start, unless empty, is a time that has come, and its end,
  -- unless empty, is a time that is still to come; a text that is no time leaves no period.
  pub find_auth_key_iff :
      (keys : List AuthKeyConfig) (id secret : String)
      → (find_auth_key lib keys id now ≡ some secret) ↔ Offers id secret keys
  find_auth_key_iff keys id secret = (found_offered keys id secret, offered_found id secret keys)
