-- ===== src/Text/Separated.antt =====
-- Texts that are joined by a character which none of them has can be told apart again.
use Prim.Native.Char.{Char, code}
use Prim.Native.String.{◌++◌ as cat}
use text.Mathlib.TextLemmas.{nil-append, cons-append, head-eq_of_cons-eq, tail-eq_of_cons-eq}
use connauth.Common.{
  ◌≡◌, ◌≢◌, refl, sym, ap, ◌∙◌, String, Bool, true, ◌&&◌, not, arith, nat_eq, ◌==◌,
}

module _ (separator : Char) where
  -- The separator does not stand in the text.
  abbrev pub free_of : String → Bool
  free_of String.[] = true
  free_of (String.◌∷◌ c s) = not (code c == code separator) && free_of s

  abbrev pub after_separator : String → String
  after_separator s = cat (String.◌∷◌ separator String.[]) s

  after_separator-cons : (s : String) → after_separator s ≡ String.◌∷◌ separator s
  after_separator-cons s =
      cons-append separator String.[] s ∙ ap (String.◌∷◌ separator) (nil-append s)

  not_separator :
      (d : Char) (l s t : String)
      → free_of (String.◌∷◌ d l) ≡ true
      → String.◌∷◌ separator s ≢ cat (String.◌∷◌ d l) t
  not_separator d l s t f h =
      let same : separator ≡ d = head-eq_of_cons-eq (h ∙ cons-append d l t) in
      ground (arith, f, ap code same)

  pub split_at_separator :
      (k l s t : String)
      → free_of k ≡ true
      → free_of l ≡ true
      → cat k (after_separator s) ≡ cat l (after_separator t)
      → (k ≡ l) × (s ≡ t)
  split_at_separator String.[] String.[] s t fk fl h = (
    refl,
    tail-eq_of_cons-eq (
        sym (after_separator-cons s)
        ∙ sym (nil-append (after_separator s))
        ∙ h
        ∙ nil-append (after_separator t)
        ∙ after_separator-cons t),
  )
  split_at_separator String.[] (String.◌∷◌ d l) s t fk fl h = absurd (
      not_separator d l s (after_separator t) fl
        (sym (after_separator-cons s) ∙ sym (nil-append (after_separator s)) ∙ h))
  split_at_separator (String.◌∷◌ c k) String.[] s t fk fl h = absurd (
      not_separator c k t (after_separator s) fk
        (sym (after_separator-cons t) ∙ sym (nil-append (after_separator t)) ∙ sym h))
  split_at_separator (String.◌∷◌ c k) (String.◌∷◌ d l) s t fk fl h =
      let e : String.◌∷◌ c (cat k (after_separator s)) ≡ String.◌∷◌ d (cat l (after_separator t)) =
        sym (cons-append c k (after_separator s)) ∙ h ∙ cons-append d l (after_separator t) in
      let rest =
        split_at_separator k l s t (ground (arith, fk)) (ground (arith, fl))
          (tail-eq_of_cons-eq e) in
      (cc (head-eq_of_cons-eq e, rest.0), rest.1)
