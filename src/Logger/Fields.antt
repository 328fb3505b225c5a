-- ===== src/Logger/Fields.antt =====
-- What leaves through the log service's hook: the fields of the list, and no others.
use connauth.Common.{
  ◌≡◌, refl, String, true, ◌||◌, none, List, [], ◌∷◌, arith, eq_iff, string_eq, ◌==◌, Map, lookup,
  All, if◌then◌else◌, Bool-cases, inl, inr,
}
use connauth.Logger.{
  allowed, safe_sls_fields, comes_first, insert_sorted, sort_fields, log_contents,
}

-- A field that may leave.
abbrev pub IsSafe : String × String → Type 0
IsSafe x = (x.0 == "level" || (x.0 == "message" || allowed x.0)) ≡ true

-- The filter of log fields keeps a field with its value exactly if its name is in the list.
pub lookup-safe_sls_fields {ℓ} :
    {V : Type ℓ} (k : String) (fields : Map String V)
    → lookup k (safe_sls_fields fields) ≡ (if allowed k then lookup k fields else none)
unfolding lookup safe_sls_fields
lookup-safe_sls_fields k [] = ground arith
lookup-safe_sls_fields k ((j, v) ∷ fields) =
    ground (arith, eq_iff j k, lookup-safe_sls_fields k fields)

insert_sorted-IsSafe :
    (x : String × String) (ys : List (String × String))
    → IsSafe x
    → All IsSafe ys
    → All IsSafe (insert_sorted x ys)
unfolding insert_sorted
insert_sorted-IsSafe x [] h a = (h, tt)
insert_sorted-IsSafe x (y ∷ ys) h a = elim (Bool-cases (comes_first x.0 y.0)) [
  | inl first ↦ rw first (h, a)
  | inr later ↦ rw later (a.0, insert_sorted-IsSafe x ys h a.1)
]

sort_fields-IsSafe :
    (fields : Map String String) → All IsSafe (sort_fields (safe_sls_fields fields))
unfolding sort_fields safe_sls_fields
sort_fields-IsSafe [] = tt
sort_fields-IsSafe ((k, v) ∷ fields) = elim (Bool-cases (allowed k)) [
  | inl safe ↦ rw safe (
      insert_sorted-IsSafe (k, v) (sort_fields (safe_sls_fields fields)) (ground (arith, safe))
        (sort_fields-IsSafe fields))
  | inr unsafe ↦ rw unsafe (sort_fields-IsSafe fields)
]

-- Every content of a log entry that is sent to the log service is the level, the message, or a
-- field whose name is in the list of allowed names.
pub log_contents-IsSafe :
    (level message : String) (fields : Map String String)
    → All IsSafe (log_contents level message fields)
unfolding log_contents
log_contents-IsSafe level message fields = elim (Bool-cases (message == "")) [
  | inl empty ↦ rw empty (refl, sort_fields-IsSafe fields)
  | inr given ↦ rw given (refl, (refl, sort_fields-IsSafe fields))
]
