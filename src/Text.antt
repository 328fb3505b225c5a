-- ===== src/Text.antt =====
-- The parts of Go's standard library by which the configuration checks read a text: its runes, the
-- functions of package strings on them, and the decimal print of fmt.
pub mod Separated
pub mod Bytes
use Prim.Native.Char.{code}
use Prim.Native.String.{◌++◌ as cat}
use mathlib.Core.List.{reverse}
use connauth.Common.{
  refl, ℕ, zero, suc, ◌+◌, ◌/◌, ◌%◌, String, Bool, true, false, ◌&&◌, ◌||◌, List, [], ◌∷◌, ltb,
  ◌==◌, nat_eq, if◌then◌else◌, Eq, Bool-cases, inl, inr, ◌↔◌, ◌≡◌, arith,
}

-- The tables of package unicode, on code points.
pub record Unicode : Type 0 where
  pub to_lower : ℕ → ℕ
  pub is_space : ℕ → Bool
  pub is_letter : ℕ → Bool
  pub is_digit : ℕ → Bool

-- The code points that `range` visits.
abbrev pub runes : String → List ℕ
runes String.[] = []
runes (String.◌∷◌ c s) = code c ∷ runes s

-- The bytes of a rune in UTF-8, and of a text: Go's `len`.
unfoldable pub rune_len : ℕ → ℕ
rune_len r = if ltb r 0x80 then 1 else if ltb r 0x800 then 2 else if ltb r 0x10000 then 3 else 4

unfoldable pub byte_len : List ℕ → ℕ
byte_len [] = 0
byte_len (r ∷ rs) = rune_len r + byte_len rs

unfoldable pub trim_left : (ℕ → Bool) → List ℕ → List ℕ
trim_left p [] = []
trim_left p (r ∷ rs) = if p r then trim_left p rs else r ∷ rs

unfoldable pub trim_space : Unicode → List ℕ → List ℕ
trim_space u rs = reverse (trim_left u.is_space (reverse (trim_left u.is_space rs)))

abbrev pub runes_eqb : List ℕ → List ℕ → Bool
runes_eqb [] [] = true
runes_eqb [] (y ∷ ys) = false
runes_eqb (x ∷ xs) [] = false
runes_eqb (x ∷ xs) (y ∷ ys) = x == y && runes_eqb xs ys

pub runes_eqb_iff : (xs ys : List ℕ) → (runes_eqb xs ys ≡ true) ↔ (xs ≡ ys)
runes_eqb_iff [] [] = ground arith
runes_eqb_iff [] (y ∷ ys) = ground arith
runes_eqb_iff (x ∷ xs) [] = ground arith
runes_eqb_iff (x ∷ xs) (y ∷ ys) = ground (arith, runes_eqb_iff xs ys)

instance abbrev pub runes_eq : Eq (List ℕ)
runes_eq = record { equals = runes_eqb; decides = runes_eqb_iff }

unfoldable pub has_prefix : List ℕ → List ℕ → Bool
has_prefix s [] = true
has_prefix [] (p ∷ ps) = false
has_prefix (r ∷ rs) (p ∷ ps) = r == p && has_prefix rs ps

-- strings.Contains
unfoldable pub contains : List ℕ → List ℕ → Bool
unfolding has_prefix
contains [] sub = has_prefix [] sub
contains (r ∷ rs) sub = has_prefix (r ∷ rs) sub || contains rs sub

-- The digits of a base up to sixteen.
abbrev pub digit_texts : List String
digit_texts =
    "0" ∷ "1" ∷ "2" ∷ "3" ∷ "4" ∷ "5" ∷ "6" ∷ "7" ∷ "8" ∷ "9" ∷ "A" ∷ "B" ∷ "C" ∷ "D" ∷ "E" ∷ "F"
    ∷ []

abbrev pub text_at : List String → ℕ → String
text_at [] n = ""
text_at (s ∷ ss) zero = s
text_at (s ∷ ss) (suc n) = text_at ss n

abbrev pub every : (String → Bool) → List String → Bool
every p [] = true
every p (s ∷ ss) = p s && every p ss

pub text_at-every :
    (p : String → Bool) (ss : List String) (n : ℕ)
    → p "" ≡ true
    → every p ss ≡ true
    → p (text_at ss n) ≡ true
text_at-every p [] n h a = h
text_at-every p (s ∷ ss) zero h a = ground (arith, a)
text_at-every p (s ∷ ss) (suc n) h a = text_at-every p ss n h (ground (arith, a))

-- %d, with as many rounds as the number can need.
decimal_rounds : ℕ → ℕ → String
decimal_rounds zero n = ""
decimal_rounds (suc fuel) n =
    let more = cat (decimal_rounds fuel (n / 10)) (text_at digit_texts (n % 10)) in
    if ltb n 10 then text_at digit_texts n else more

unfoldable pub decimal : ℕ → String
unfolding decimal_rounds
decimal n = decimal_rounds (suc n) n

module _ (p : String → Bool) (empty : p "" ≡ true) (ds : every p digit_texts ≡ true)
    (join : (s t : String) → p s ≡ true → p t ≡ true → p (cat s t) ≡ true) where
  decimal_rounds-every : (fuel n : ℕ) → p (decimal_rounds fuel n) ≡ true
  unfolding decimal_rounds
  decimal_rounds-every zero n = empty
  decimal_rounds-every (suc fuel) n = elim (Bool-cases (ltb n 10)) [
    | inl small ↦ rw small (text_at-every p digit_texts n empty ds)
    | inr big ↦ rw big (
        join (decimal_rounds fuel (n / 10)) (text_at digit_texts (n % 10))
          (decimal_rounds-every fuel (n / 10)) (text_at-every p digit_texts (n % 10) empty ds))
  ]

  -- What holds of the digits and of what is joined holds of a printed number.
  pub decimal-every : (n : ℕ) → p (decimal n) ≡ true
  unfolding decimal
  decimal-every n = decimal_rounds-every (suc n) n

-- ASCII's part of the tables, and no letter, digit or space beyond.
unfoldable pub ascii : Unicode
ascii = record {
  to_lower = λ r. if ltb 64 r && ltb r 91 then r + 32 else r;
  is_space = λ r. r == 32 || (ltb 8 r && ltb r 14);
  is_letter = λ r. (ltb 64 r && ltb r 91) || (ltb 96 r && ltb r 123);
  is_digit = λ r. ltb 47 r && ltb r 58;
}

decimal_runs : decimal 40022 ≡ "40022"
unfolding decimal
decimal_runs = refl

contains_runs : contains (runes "xx_change_me") (runes "change_me") ≡ true
unfolding contains
contains_runs = refl
