-- ===== src/Server/Config/Secrets.antt =====
-- The checks of single texts in cmd/authserver/config.go: identifiers, secrets and address rules.
use connauth.Common.{
  ℕ, ◌≡◌, ◌≢◌, ◌<◌, ◌≤◌, String, Bool, true, false, not, ◌||◌, ◌⊎◌, ◌↔◌, none, some, List, [], ◌∷◌,
  map, arith, inl, inr, Bool-cases, eq_iff, string_eq, nat_eq, ◌==◌, ltb, Result, ok, err,
  refuse_if, if◌then◌else◌, ◌>>◌,
}
use connauth.Text.{
  Unicode, runes, byte_len, rune_len, runes_eqb_iff, trim_space, runes_eq, contains,
}
use connauth.Library.{Library}
use connauth.Server.Config.{
  ConfigError, empty_identifier, long_identifier, bad_identifier, weak_secret, bad_ip,
}

unfoldable pub example_secret : List ℕ → Bool
example_secret s =
    s == runes "a safe key"
    || (s == runes "admin"
        || (s == runes "valid_token" || (s == runes "global_token" || s == runes "change_me")))

module _ (u : Unicode) where
  unfoldable pub identifier_rune : ℕ → Bool
  identifier_rune r = u.is_letter r || (u.is_digit r || (r == b'-' || (r == b'_' || r == b'.')))

  unfoldable pub all_identifier : List ℕ → Bool
  all_identifier [] = true
  all_identifier (r ∷ rs) = if identifier_rune r then all_identifier rs else false

  unfoldable pub validate_identifier : String → String → Result ConfigError (Unit {0})
  validate_identifier kind value = do
    refuse_if (value == "") (empty_identifier kind)
    refuse_if (ltb 64 (byte_len (runes value))) (long_identifier kind)
    refuse_if (not (all_identifier (runes value))) (bad_identifier kind)

  -- The text in lower case, without the space around it.
  abbrev pub folded : String → List ℕ
  folded s = trim_space u (map u.to_lower (runes s))

  unfoldable pub is_weak_secret : String → Bool
  is_weak_secret s =
      if ltb (byte_len (folded s)) 24
      then true
      else if example_secret (folded s)
      then true
      else contains (folded s) (runes "change_me")

  unfoldable pub validate_secret : String → String → Result ConfigError (Unit {0})
  validate_secret kind value = refuse_if (is_weak_secret value) (weak_secret kind)

unfoldable pub validate_ip_rule : Library → String → String → Result ConfigError (Unit {0})
validate_ip_rule lib kind value =
    if lib.resolve_ip_addr value
    then ok tt
    else elim (lib.parse_cidr value) [ none ↦ err (bad_ip kind) | some net ↦ ok tt ]

short_of_eq : (s t : List ℕ) → byte_len t < 24 → (byte_len s < 24) ⊎ ((s == t) ≡ false)
short_of_eq s t h = elim (Bool-cases (s == t)) [
  | inl same ↦ inl (rw ((runes_eqb_iff s t).0 same) h)
  | inr other ↦ inr other
]

-- The example values of the `switch` are all shorter than the length that is asked for first.
pub example_secret_short : (s : List ℕ) → example_secret s ≡ true → byte_len s < 24
unfolding byte_len rune_len example_secret
example_secret_short s h = ground (
  arith,
  h,
  short_of_eq s (runes "a safe key") (omega arith),
  short_of_eq s (runes "admin") (omega arith),
  short_of_eq s (runes "valid_token") (omega arith),
  short_of_eq s (runes "global_token") (omega arith),
  short_of_eq s (runes "change_me") (omega arith),
)

-- A secret is weak exactly if, in lower case and trimmed, it is shorter than 24 bytes or has
-- change_me in it: the list of example values refuses nothing more.
pub is_weak_secret_iff :
    (u : Unicode) (s : String)
    → is_weak_secret u s
      ≡ (ltb (byte_len (folded u s)) 24 || contains (folded u s) (runes "change_me"))
unfolding is_weak_secret
is_weak_secret_iff u s = ground (arith, example_secret_short (folded u s))

-- An identifier that passes has 1 to 64 bytes, all of them in letters, digits, `-`, `_`
-- and `.`.
pub record IsIdentifier (u : Unicode) (value : String) : Type 0 where
  pub nonempty : value ≢ ""
  pub fits : byte_len (runes value) ≤ 64
  pub all_allowed : all_identifier u (runes value) ≡ true

pub validate_identifier_iff :
    (u : Unicode) (kind value : String)
    → (validate_identifier u kind value ≡ ok tt) ↔ IsIdentifier u value
unfolding validate_identifier
validate_identifier_iff u kind value = (
  λ h. record {
    nonempty = ground (arith, h, eq_iff value "");
    fits = ground (arith, h);
    all_allowed = ground (arith, h);
  },
  λ f. ground (arith, f.nonempty, f.fits, f.all_allowed, eq_iff value ""),
)
