-- ===== src/Logger/Sorted.antt =====
-- `sortedKeys` (utils/logger/sls.go): the fields of an entry are all sent, in the order of their names.
use Prim.Native.Char.{code}
use Prim.Native.Nat
use Prim.Native.Nat.{Ordering}
use Prim.Native.String.compare
use Prim.Native.String.{compare, then}
use mathlib.Core.List.Perm
use mathlib.Core.List.{Perm}
use connauth.Common.{
  ℕ, ◌≡◌, refl, sym, ap, ◌∙◌, String, Bool, true, false, List, [], ◌∷◌, Map, arith, inl, inr,
  Bool-cases,
}
use connauth.Logger.{comes_first, insert_sorted, sort_fields}

abbrev pub flip : Ordering → Ordering
flip Ordering.lt = Ordering.gt
flip Ordering.eq = Ordering.eq
flip Ordering.gt = Ordering.lt

flip-then : (a b : Ordering) → flip (then a b) ≡ then (flip a) (flip b)
flip-then Ordering.lt b = refl
flip-then Ordering.eq b = refl
flip-then Ordering.gt b = refl

flip_numbers : (m n : ℕ) → Nat.compare n m ≡ flip (Nat.compare m n)
flip_numbers m n = ground arith

pub flip_texts : (s t : String) → compare t s ≡ flip (compare s t)
flip_texts String.[] String.[] = refl
flip_texts String.[] (String.◌∷◌ d t) = compare.cons-nil d t ∙ sym (ap flip (compare.nil-cons d t))
flip_texts (String.◌∷◌ c s) String.[] = compare.nil-cons c s ∙ sym (ap flip (compare.cons-nil c s))
flip_texts (String.◌∷◌ c s) (String.◌∷◌ d t) =
    compare.cons-cons d c t s
    ∙ (λ i. then (flip_numbers (code c) (code d) i) (flip_texts s t i))
    ∙ sym (flip-then (Nat.compare (code c) (code d)) (compare s t))
    ∙ sym (ap flip (compare.cons-cons c d s t))

later_first :
    (o p : Ordering)
    → p ≡ flip o
    → elim o [ Ordering.gt ↦ false | _ ↦ true ] ≡ false
    → elim p [ Ordering.gt ↦ false | _ ↦ true ] ≡ true
later_first Ordering.lt p e h = cc h
later_first Ordering.eq p e h = cc h
later_first Ordering.gt p e h = rw e refl

-- Of two names one comes first.
pub comes_first_total : (a b : String) → comes_first a b ≡ false → comes_first b a ≡ true
comes_first_total a b h = later_first (compare a b) (compare b a) (flip_texts a b) h

-- The name comes before the first of the list.
abbrev pub leads : String → List (String × String) → Bool
leads k [] = true
leads k (y ∷ ys) = comes_first k y.0

abbrev pub IsSorted : List (String × String) → Type 0
IsSorted [] = Unit
IsSorted (x ∷ ys) = (leads x.0 ys ≡ true) × IsSorted ys

leads-insert_sorted :
    (k : String) (x : String × String) (ys : List (String × String))
    → comes_first k x.0 ≡ true
    → leads k ys ≡ true
    → leads k (insert_sorted x ys) ≡ true
unfolding insert_sorted
leads-insert_sorted k x [] h l = h
leads-insert_sorted k x (y ∷ ys) h l = elim (Bool-cases (comes_first x.0 y.0)) [
  | inl first ↦ rw first h
  | inr later ↦ rw later l
]

insert_sorted-IsSorted :
    (x : String × String) (ys : List (String × String))
    → IsSorted ys
    → IsSorted (insert_sorted x ys) × Perm (insert_sorted x ys) (x ∷ ys)
unfolding insert_sorted
insert_sorted-IsSorted x [] s = ((refl, tt), Perm.rfl)
insert_sorted-IsSorted x (y ∷ ys) s = elim (Bool-cases (comes_first x.0 y.0)) [
  | inl first ↦ rw first ((first, s), Perm.rfl)
  | inr later ↦
      let rest = insert_sorted-IsSorted x ys s.1 in
      rw later (
        (leads-insert_sorted y.0 x ys (comes_first_total x.0 y.0 later) s.0, rest.0),
        Perm.trans (Perm.cons y rest.1) (Perm.swap x y ys),
      )
]

-- The fields of an entry go out in the order of their names, all of them and nothing else.
pub sort_fields-IsSorted :
    (fields : Map String String) → IsSorted (sort_fields fields) × Perm (sort_fields fields) fields
unfolding sort_fields
sort_fields-IsSorted [] = (tt, Perm.rfl)
sort_fields-IsSorted (x ∷ fields) =
    let rest = sort_fields-IsSorted fields in
    let put = insert_sorted-IsSorted x (sort_fields fields) rest.0 in
    (put.0, Perm.trans put.1 (Perm.cons x rest.1))
