-- ===== src/Service/Names.antt =====
-- Which names `Init` of utils/service/service_windows.go takes.
use Prim.Native.Char.{Char, code}
use mathlib.Core.Bool.{false≢true}
use connauth.Common.{
  ◌≡◌, ◌≢◌, ◌⊎◌, sym, ap, ◌∙◌, inl, inr, refl, String, Bool, true, false, ◌&&◌, ◌==◌, string_eq,
  eq_iff, arith, ok, err, if◌then◌else◌, Bool-cases,
}
use connauth.Text.{Unicode}
use connauth.Service.{
  ServiceOption, empty_name, name_with_space, trim_left_text, trim_right_text, trim_space_text,
  has_blank, windows_init, is_empty,
}

module _ (u : Unicode) where
  abbrev pub all_space : String → Bool
  all_space String.[] = true
  all_space (String.◌∷◌ c s) = u.is_space (code c) && all_space s

  abbrev pub starts_with_space : String → Bool
  starts_with_space String.[] = false
  starts_with_space (String.◌∷◌ c s) = u.is_space (code c)

  abbrev pub ends_with_space : String → Bool
  ends_with_space String.[] = false
  ends_with_space (String.◌∷◌ c s) = if is_empty s then u.is_space (code c) else ends_with_space s

  trim_left_start : (s : String) → starts_with_space (trim_left_text u s) ≡ false
  unfolding trim_left_text
  trim_left_start String.[] = refl
  trim_left_start (String.◌∷◌ c s) = elim (Bool-cases (u.is_space (code c))) [
    | inl space ↦ rw space (trim_left_start s)
    | inr other ↦ rw other other
  ]

  trim_left_empty : (s : String) → is_empty (trim_left_text u s) ≡ all_space s
  unfolding trim_left_text
  trim_left_empty String.[] = refl
  trim_left_empty (String.◌∷◌ c s) = elim (Bool-cases (u.is_space (code c))) [
    | inl space ↦ rw space (trim_left_empty s)
    | inr other ↦ rw other refl
  ]

  keep_end :
      (c : Char) (r : String)
      → ends_with_space r ≡ false
      → ends_with_space (if u.is_space (code c) && is_empty r then "" else String.◌∷◌ c r) ≡ false
  keep_end c String.[] h = elim (Bool-cases (u.is_space (code c))) [
    | inl space ↦ rw space refl
    | inr other ↦ rw other other
  ]
  keep_end c (String.◌∷◌ d r) h = elim (Bool-cases (u.is_space (code c))) [
    | inl space ↦ rw space h
    | inr other ↦ rw other h
  ]

  trim_right_end : (s : String) → ends_with_space (trim_right_text u s) ≡ false
  unfolding trim_right_text
  trim_right_end String.[] = refl
  trim_right_end (String.◌∷◌ c s) = keep_end c (trim_right_text u s) (trim_right_end s)

  trim_right_start :
      (s : String) → starts_with_space s ≡ false → starts_with_space (trim_right_text u s) ≡ false
  unfolding trim_right_text
  trim_right_start String.[] h = refl
  trim_right_start (String.◌∷◌ c s) h = rw h h

  trim_right_empty : (s : String) → is_empty (trim_right_text u s) ≡ all_space s
  unfolding trim_right_text
  trim_right_empty String.[] = refl
  trim_right_empty (String.◌∷◌ c s) = elim (Bool-cases (u.is_space (code c))) [
    | inl space ↦ elim (Bool-cases (is_empty (trim_right_text u s))) [
      | inl blank ↦ rw (space, blank) (sym blank ∙ trim_right_empty s)
      | inr more ↦ rw (space, more) (sym more ∙ trim_right_empty s)
    ]
    | inr other ↦ rw other refl
  ]

  -- A space at the start is all that trimming the end cannot see.
  all_space-trim_left : (s : String) → all_space (trim_left_text u s) ≡ all_space s
  unfolding trim_left_text
  all_space-trim_left String.[] = refl
  all_space-trim_left (String.◌∷◌ c s) = elim (Bool-cases (u.is_space (code c))) [
    | inl space ↦ rw space (all_space-trim_left s)
    | inr other ↦ rw other (rw other refl)
  ]

  trim_space_empty : (s : String) → is_empty (trim_space_text u s) ≡ all_space s
  trim_space_empty s = trim_right_empty (trim_left_text u s) ∙ all_space-trim_left s

is_empty-eqb : (s : String) → is_empty s ≡ (s == "")
is_empty-eqb String.[] = refl
is_empty-eqb (String.◌∷◌ c s) = elim (Bool-cases (String.◌∷◌ c s == "")) [
  | inl same ↦ absurd (false≢true (ap is_empty ((eq_iff (String.◌∷◌ c s) "").0 same)))
  | inr differ ↦ sym differ
]

-- A name that the service manager can have.
pub record IsName (u : Unicode) (s : String) : Type 0 where
  pub not_empty : s ≢ ""
  pub no_blank : has_blank s ≡ false
  pub start : starts_with_space u s ≡ false
  pub end : ends_with_space u s ≡ false

-- Init on Windows refuses a name of nothing but white space as empty. Of any other it keeps the
-- part between the first and the last character that is no white space, with the rest of the option
-- as given, if no blank is in that part, and refuses the option otherwise.
pub windows_init_cases :
    (u : Unicode) (option : ServiceOption)
    → ((windows_init u option ≡ err empty_name) × (all_space u option.name ≡ true))
      ⊎ ((windows_init u option ≡ err name_with_space)
          × (all_space u option.name ≡ false)
          × (has_blank (trim_space_text u option.name) ≡ true))
      ⊎ ((kept : ServiceOption) × (windows_init u option ≡ ok kept)
          × IsName u kept.name
          × (kept ≡ record option { name = trim_space_text u option.name }))
unfolding windows_init
windows_init_cases u option =
    let name = trim_space_text u option.name in
    let empty = sym (trim_space_empty u option.name) ∙ is_empty-eqb name in
    elim (Bool-cases (name == "")) [
      | inl blank ↦ inl (rw blank refl, empty ∙ blank)
      | inr some_name ↦ elim (Bool-cases (has_blank name)) [
        | inl h ↦ inr (inl (rw (some_name, h) refl, empty ∙ some_name, h))
        | inr h ↦ inr (
            inr (
              record option { name = name },
              rw (some_name, h) refl,
              record {
                not_empty = λ e. ground (arith, some_name, eq_iff name "", e);
                no_blank = h;
                start =
                    trim_right_start u (trim_left_text u option.name)
                      (trim_left_start u option.name);
                end = trim_right_end u (trim_left_text u option.name);
              },
              refl,
            ))
      ]
    ]
