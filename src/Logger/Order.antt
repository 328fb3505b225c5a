-- ===== src/Logger/Order.antt =====
-- What `Fire` (utils/logger/sls.go) sends does not depend on the order in which Go visits a map.
use Prim.Native.Char.{Char, code}
use Prim.Native.Nat
use Prim.Native.Nat.{Ordering}
use Prim.Native.String.compare
use Prim.Native.String.{compare, then as in_turn}
use text.Mathlib.TextEquality.{path_by_compare}
use mathlib.Core.List.{Perm, Permᴰ}
use mathlib.Core.Logic.{∥∥₁_elim}
use mathlib.Core.Path.{subst}
use mathlib.Core.HLevel.{hedberg}
use connauth.Common.{
  ℕ, ◌≡◌, ◌≢◌, refl, sym, ap, ◌∙◌, String, Bool, true, false, ◌&&◌, ◌||◌, List, [], ◌∷◌, ◌++◌, Map,
  arith, inl, inr, Bool-cases, ltb, nat_eq, string_eq, eq_iff, not, ◌==◌, All, if◌then◌else◌,
}
use connauth.Logger.{
  comes_first, insert_sorted, sort_fields, safe_sls_fields, allowed, log_contents,
}
use connauth.Logger.Sorted.{comes_first_total, flip_texts, flip}

from_turn :
    (m n : ℕ) (o : Ordering)
    → elim (in_turn (Nat.compare m n) o) [ Ordering.gt ↦ false | _ ↦ true ]
      ≡ (ltb m n || (m == n && elim o [ Ordering.gt ↦ false | _ ↦ true ]))
from_turn m n o = ground arith

comes_first-cons :
    (c d : Char) (s t : String)
    → comes_first (String.◌∷◌ c s) (String.◌∷◌ d t)
      ≡ (ltb (code c) (code d) || (code c == code d && comes_first s t))
comes_first-cons c d s t =
    ap (λ (o : Ordering). elim o as (λ x. Bool) [ Ordering.gt ↦ false | _ ↦ true ])
      (compare.cons-cons c d s t)
    ∙ from_turn (code c) (code d) (compare s t)

nil_first : (s : String) → comes_first "" s ≡ true
nil_first String.[] = refl
nil_first (String.◌∷◌ c s) =
    ap (λ (o : Ordering). elim o as (λ x. Bool) [ Ordering.gt ↦ false | _ ↦ true ])
      (compare.nil-cons c s)

cons_later : (c : Char) (s : String) → comes_first (String.◌∷◌ c s) "" ≡ false
cons_later c s =
    ap (λ (o : Ordering). elim o as (λ x. Bool) [ Ordering.gt ↦ false | _ ↦ true ])
      (compare.cons-nil c s)

comes_first_trans :
    (a b c : String) → comes_first a b ≡ true → comes_first b c ≡ true → comes_first a c ≡ true
comes_first_trans String.[] b c h k = nil_first c
comes_first_trans (String.◌∷◌ x a) String.[] c h k = absurd (ground (arith, h, cons_later x a))
comes_first_trans (String.◌∷◌ x a) (String.◌∷◌ y b) String.[] h k =
    absurd (ground (arith, k, cons_later y b))
comes_first_trans (String.◌∷◌ x a) (String.◌∷◌ y b) (String.◌∷◌ z c) h k = ground (
  arith,
  h,
  k,
  comes_first-cons x y a b,
  comes_first-cons y z b c,
  comes_first-cons x z a c,
  comes_first_trans a b c,
)

not_both :
    (o p : Ordering)
    → p ≡ flip o
    → elim o as (λ x. Bool) [ Ordering.gt ↦ false | _ ↦ true ] ≡ true
    → elim p as (λ x. Bool) [ Ordering.gt ↦ false | _ ↦ true ] ≡ true
    → o ≡ Ordering.eq
not_both Ordering.lt p e h k = absurd (ground (arith, e, k))
not_both Ordering.eq p e h k = refl
not_both Ordering.gt p e h k = cc h

comes_first_antisym : (a b : String) → comes_first a b ≡ true → comes_first b a ≡ true → a ≡ b
comes_first_antisym a b h k =
    path_by_compare a b (not_both (compare a b) (compare b a) (flip_texts a b) h k)

module _ (x y : String × String) (differ : x.0 ≢ y.0) where
  one_first : (comes_first x.0 y.0 && comes_first y.0 x.0) ≡ false
  one_first = elim (Bool-cases (comes_first x.0 y.0 && comes_first y.0 x.0)) [
    | inl both ↦
        absurd (differ (comes_first_antisym x.0 y.0 (ground (arith, both)) (ground (arith, both))))
    | inr h ↦ h
  ]

  insert_sorted_comm :
      (zs : List (String × String))
      → insert_sorted x (insert_sorted y zs) ≡ insert_sorted y (insert_sorted x zs)
  unfolding insert_sorted
  insert_sorted_comm [] = ground (arith, one_first, comes_first_total x.0 y.0)
  insert_sorted_comm (z ∷ zs) = ground (
    arith,
    one_first,
    comes_first_total x.0 y.0,
    comes_first_trans x.0 y.0 z.0,
    comes_first_trans y.0 x.0 z.0,
    insert_sorted_comm zs,
  )

-- One value stands under each name, as in a map.
abbrev pub IsValue : (String → String) → String × String → Type 0
IsValue value x = x.1 ≡ value x.0

abbrev put_safe : String × String → List (String × String) → List (String × String)
put_safe x zs = if allowed x.0 then insert_sorted x zs else zs

sorted_safe-cons :
    (x : String × String) (fields : Map String String)
    → sort_fields (safe_sls_fields (x ∷ fields)) ≡ put_safe x (sort_fields (safe_sls_fields fields))
unfolding sort_fields safe_sls_fields
sorted_safe-cons (k, v) fields = elim (Bool-cases (allowed k)) [
  | inl safe ↦ rw safe refl
  | inr unsafe ↦ rw unsafe refl
]

texts_decided : (s t : String) → Dec (s ≡ t)
texts_decided s t = elim (Bool-cases (s == t)) [
  | inl same ↦ yes ((eq_iff s t).0 same)
  | inr differ ↦ no (λ e. ground (arith, differ, eq_iff s t, e))
]

texts_set : IsSet String
texts_set = hedberg texts_decided

module _ (value : String → String) where
  same_pair : (x y : String × String) → IsValue value x → IsValue value y → x.0 ≡ y.0 → x ≡ y
  same_pair x y vx vy same = λ i. (same i, (vx ∙ ap value same ∙ sym vy) i)

  insert_sorted_swap :
      (x y : String × String) (zs : List (String × String))
      → IsValue value x
      → IsValue value y
      → insert_sorted x (insert_sorted y zs) ≡ insert_sorted y (insert_sorted x zs)
  insert_sorted_swap x y zs vx vy = elim (Bool-cases (x.0 == y.0)) [
    | inl same ↦
        let e : x ≡ y = same_pair x y vx vy ((eq_iff x.0 y.0).0 same) in
        λ i. insert_sorted (e i) (insert_sorted (sym e i) zs)
    | inr differ ↦ insert_sorted_comm x y (λ e. ground (arith, differ, eq_iff x.0 y.0, e)) zs
  ]

  put_safe_swap :
      (x y : String × String) (zs : List (String × String))
      → IsValue value x
      → IsValue value y
      → put_safe x (put_safe y zs) ≡ put_safe y (put_safe x zs)
  put_safe_swap x y zs vx vy = ground (arith, insert_sorted_swap x y zs vx vy)

  All-Permᴰ :
      {xs ys : Map String String} → Permᴰ xs ys → All (IsValue value) xs → All (IsValue value) ys
  All-Permᴰ Permᴰ.nil a = tt
  All-Permᴰ (Permᴰ.cons e d) a = (subst (IsValue value) e a.0, All-Permᴰ d a.1)
  All-Permᴰ (Permᴰ.swap e₁ e₂) a =
      (subst (IsValue value) e₂ a.1.0, (subst (IsValue value) e₁ a.0, a.1.1))
  All-Permᴰ (Permᴰ.trans d₁ d₂) a = All-Permᴰ d₂ (All-Permᴰ d₁ a)

  sorted_safe-Permᴰ :
      {xs ys : Map String String}
      → Permᴰ xs ys
      → All (IsValue value) xs
      → sort_fields (safe_sls_fields xs) ≡ sort_fields (safe_sls_fields ys)
  sorted_safe-Permᴰ Permᴰ.nil a = refl
  sorted_safe-Permᴰ (Permᴰ.cons {a = x} {b = y} {l₁ = l₁} {l₂ = l₂} e d) a =
      sorted_safe-cons x l₁
      ∙ (λ i. put_safe (e i) (sorted_safe-Permᴰ d a.1 i))
      ∙ sym (sorted_safe-cons y l₂)
  sorted_safe-Permᴰ (Permᴰ.swap {a = x} {b = y} {a' = x'} {b' = y'} {l = l} e₁ e₂) a =
      sorted_safe-cons x (y ∷ l)
      ∙ ap (put_safe x) (sorted_safe-cons y l)
      ∙ put_safe_swap x y (sort_fields (safe_sls_fields l)) a.0 a.1.0
      ∙ (λ i. put_safe (e₂ i) (put_safe (e₁ i) (sort_fields (safe_sls_fields l))))
      ∙ sym (ap (put_safe x') (sorted_safe-cons y' l))
      ∙ sym (sorted_safe-cons x' (y' ∷ l))
  sorted_safe-Permᴰ (Permᴰ.trans d₁ d₂) a =
      sorted_safe-Permᴰ d₁ a ∙ sorted_safe-Permᴰ d₂ (All-Permᴰ d₁ a)

  -- The contents of a log entry are the same in whatever order Go visits the entry's map of fields,
  -- in which one value stands under each name.
  pub log_contents-Perm :
      (level message : String) (xs ys : Map String String)
      → Perm xs ys
      → All (IsValue value) xs
      → log_contents level message xs ≡ log_contents level message ys
  unfolding log_contents
  log_contents-Perm level message xs ys same a =
      let sorted : sort_fields (safe_sls_fields xs) ≡ sort_fields (safe_sls_fields ys) =
        ∥∥₁_elim same (hlevel (texts_set)) (λ d. sorted_safe-Permᴰ d a) in
      ap
        (λ (fields : List (String × String)).
          ("level", level) ∷ (if not (message == "") then ("message", message) ∷ [] else [])
          ++ fields)
        sorted
