-- ===== src/Common/Maps.antt =====
-- Go's maps as association lists, the newest entry last. `size` is `len(m)`.
use Prim.Native.Nat.{ℕ, suc, ◌+◌, ◌≤◌}
use mathlib.Core.Path.{◌≡◌, refl}
use mathlib.Core.Bool.{Bool}
use mathlib.Core.Option.{Option, none, some}
use mathlib.Core.List.{List, [], ◌∷◌}
use native.Mathlib.Omega.{arith}
use connauth.Common.Tests.{Eq, ◌==◌, if◌then◌else◌}

abbrev pub Map {ℓ κ} : Type ℓ → Type κ → Type (ℓ ⊔ κ)
Map K V = List (K × V)

abbrev pub get_or {ℓ} : {A : Type ℓ} → Option A → A → A
get_or none d = d
get_or (some a) d = a

module _ {ℓ κ} {K : Type ℓ} {V : Type κ} where
  abbrev pub size : Map K V → ℕ
  size [] = 0
  size (x ∷ m) = suc (size m)

  -- How many keys pass the test.
  unfoldable pub count_keys : (K → Bool) → Map K V → ℕ
  count_keys p [] = 0
  count_keys p ((k, v) ∷ m) = (if p k then 1 else 0) + count_keys p m

  pub count_keys-le-size : (p : K → Bool) (m : Map K V) → count_keys p m ≤ size m
  unfolding count_keys
  count_keys-le-size p [] = omega arith
  count_keys-le-size p ((k, v) ∷ m) = ground (arith, count_keys-le-size p m)

module _ {ℓ κ} {K : Type ℓ} {V : Type κ} ⦃e : Eq K⦄ where
  unfoldable pub lookup : K → Map K V → Option V
  lookup k [] = none
  lookup k ((j, v) ∷ m) = if j == k then some v else lookup k m

  -- m[k] = v
  unfoldable pub insert : K → V → Map K V → Map K V
  insert k v [] = (k, v) ∷ []
  insert k v ((j, w) ∷ m) = if j == k then (k, v) ∷ m else (j, w) ∷ insert k v m

  -- delete(m, k)
  unfoldable pub erase : K → Map K V → Map K V
  erase k [] = []
  erase k ((j, w) ∷ m) = let rest = erase k m in if j == k then rest else (j, w) ∷ rest

  -- No key stands twice, so that `size` is Go's `len`.
  abbrev pub Distinct : Map K V → Type κ
  Distinct [] = Unit
  Distinct ((k, v) ∷ m) = (lookup k m ≡ none) × Distinct m

  pub lookup-insert :
      (new key : K) (value : V) (m : Map K V)
      → lookup key (insert new value m) ≡ (if new == key then some value else lookup key m)
  unfolding lookup insert
  lookup-insert new key value [] = refl
  lookup-insert new key value ((i, w) ∷ rest) =
      ground (
        arith,
        e.decides new key,
        e.decides i new,
        e.decides i key,
        lookup-insert new key value rest,
      )

  pub lookup-erase :
      (k j : K) (m : Map K V) → lookup j (erase k m) ≡ (if k == j then none else lookup j m)
  unfolding lookup erase
  lookup-erase k j [] = ground arith
  lookup-erase k j ((i, w) ∷ m) =
      ground (arith, e.decides k j, e.decides i k, e.decides i j, lookup-erase k j m)

  pub insert-Distinct : (k : K) (v : V) (m : Map K V) → Distinct m → Distinct (insert k v m)
  unfolding lookup insert
  insert-Distinct k v [] d = (refl, tt)
  insert-Distinct k v ((i, w) ∷ m) d =
      ground (arith, e.decides i k, e.decides k i, lookup-insert k i v m, insert-Distinct k v m d.1)

  pub erase-Distinct : (k : K) (m : Map K V) → Distinct m → Distinct (erase k m)
  unfolding lookup erase
  erase-Distinct k [] d = tt
  erase-Distinct k ((i, w) ∷ m) d = ground (arith, lookup-erase k i m, erase-Distinct k m d.1)

  pub erase_missing : (k : K) (m : Map K V) → lookup k m ≡ none → erase k m ≡ m
  unfolding lookup erase
  erase_missing k [] h = refl
  erase_missing k ((i, w) ∷ m) h = ground (arith, erase_missing k m)

  pub count_keys-insert_new :
      (p : K → Bool) (k : K) (v : V) (m : Map K V)
      → lookup k m ≡ none
      → count_keys p (insert k v m) ≡ count_keys p m + (if p k then 1 else 0)
  unfolding lookup insert count_keys
  count_keys-insert_new p k v [] h = omega arith
  count_keys-insert_new p k v ((i, w) ∷ m) h = ground (arith, count_keys-insert_new p k v m)

  pub count_keys-insert_old :
      (p : K → Bool) (k : K) (v w : V) (m : Map K V)
      → lookup k m ≡ some w
      → count_keys p (insert k v m) ≡ count_keys p m
  unfolding lookup insert count_keys
  count_keys-insert_old p k v w [] h = ground arith
  count_keys-insert_old p k v w ((i, u) ∷ m) h =
      ground (arith, e.decides i k, count_keys-insert_old p k v w m)

  pub count_keys-erase :
      (p : K → Bool) (k : K) (v : V) (m : Map K V)
      → Distinct m
      → lookup k m ≡ some v
      → count_keys p (erase k m) + (if p k then 1 else 0) ≡ count_keys p m
  unfolding lookup erase count_keys
  count_keys-erase p k v [] d h = ground arith
  count_keys-erase p k v ((i, w) ∷ m) d h =
      ground (arith, e.decides i k, count_keys-erase p k v m d.1, erase_missing k m)

  pub size-insert_new :
      (k : K) (v : V) (m : Map K V) → lookup k m ≡ none → size (insert k v m) ≡ size m + 1
  unfolding lookup insert
  size-insert_new k v [] h = omega arith
  size-insert_new k v ((i, w) ∷ m) h = ground (arith, size-insert_new k v m)

  pub size-insert_old :
      (k : K) (v w : V) (m : Map K V) → lookup k m ≡ some w → size (insert k v m) ≡ size m
  unfolding lookup insert
  size-insert_old k v w [] h = ground arith
  size-insert_old k v w ((i, u) ∷ m) h = ground (arith, size-insert_old k v w m)

  pub size-erase-le : (k : K) (m : Map K V) → size (erase k m) ≤ size m
  unfolding erase
  size-erase-le k [] = omega arith
  size-erase-le k ((i, w) ∷ m) = ground (arith, size-erase-le k m)

  pub size-erase :
      (k : K) (v : V) (m : Map K V)
      → Distinct m
      → lookup k m ≡ some v
      → size (erase k m) + 1 ≡ size m
  unfolding lookup erase
  size-erase k v [] d h = ground arith
  size-erase k v ((i, w) ∷ m) d h =
      ground (arith, e.decides i k, size-erase k v m d.1, erase_missing k m)
