-- ===== src/Client/Alarm.antt =====
-- The loop of `startAuthOfServer` (cmd/authclient/auth.go): failures in a row, and the ones of them that
-- are logged as warnings.
use Prim.Native.Nat.{◌^◌}
use native.Mathlib.Nat.{pow-suc}
use native.Mathlib.Decide.{dec_le, dec_lt}
use connauth.Common.{
  ℕ, zero, suc, ◌+◌, ◌*◌, ◌<◌, ◌≤◌, ◌≡◌, ◌↔◌, refl, ap, ◌∙◌, Bool, true, false, List, [], ◌∷◌, leb,
  arith, if◌then◌else◌, Bool-cases, inl, inr,
}

pub record Alarm : Type 0 where
  pub fail_count : ℕ
  pub next_alarm_count : ℕ

abbrev pub initial : Alarm
initial = record { fail_count = 0; next_alarm_count = 1 }

-- One round: whether `auth` succeeded, to the new counters and whether a warning is logged.
unfoldable pub round : Alarm → Bool → Alarm × Bool
round a true = (initial, false)
round a false =
    let n = a.fail_count + 1 in
    if leb a.next_alarm_count n
    then (record { fail_count = n; next_alarm_count = a.next_alarm_count * 10 }, true)
    else (record { fail_count = n; next_alarm_count = a.next_alarm_count }, false)

unfoldable pub run : Alarm → List Bool → Alarm
run a [] = a
run a (r ∷ results) = run (round a r).0 results

-- How many of the last results are failures in a row, after `n` before them.
abbrev pub streak : ℕ → List Bool → ℕ
streak n [] = n
streak n (true ∷ results) = streak 0 results
streak n (false ∷ results) = streak (n + 1) results

-- The next warning comes at a power of ten, and the last one was the power before it.
pub record IsPaced (a : Alarm) : Type 0 where
  pub exponent : ℕ
  pub power : a.next_alarm_count ≡ 10 ^ exponent
  pub below : a.fail_count < 10 ^ exponent
  pub passed : (j : ℕ) → j < exponent → 10 ^ j ≤ a.fail_count

ten_pow_mono : (j k : ℕ) → j ≤ k → 10 ^ j ≤ 10 ^ k
ten_pow_mono j zero h = let e : j ≡ 0 = omega arith in rw e (omega arith)
ten_pow_mono j (suc k) h = elim (dec_le j k) [
  | yes p ↦ omega (arith, ten_pow_mono j k p, pow-suc 10 k)
  | no p ↦ let e : j ≡ suc k = omega arith in rw e (omega arith)
]

pub round-IsPaced : (a : Alarm) (r : Bool) → IsPaced a → IsPaced (round a r).0
unfolding round
round-IsPaced a true p = record {
  exponent = 0;
  power = refl;
  below = omega arith;
  passed = λ j h. absurd (omega arith);
}
round-IsPaced a false p = elim (Bool-cases (leb a.next_alarm_count (a.fail_count + 1))) [
  | inl hit ↦ rw hit (record {
    exponent = suc p.exponent;
    power = omega (arith, p.power, pow-suc 10 p.exponent);
    below = ground (arith, hit, p.power, p.below, pow-suc 10 p.exponent);
    passed = λ j h. ground (arith, hit, p.power, ten_pow_mono j p.exponent);
  })
  | inr miss ↦ rw miss (record {
    exponent = p.exponent;
    power = p.power;
    below = ground (arith, miss, p.power, p.below);
    passed = λ j h. omega (arith, p.passed j h);
  })
]

run-IsPaced : (a : Alarm) (results : List Bool) → IsPaced a → IsPaced (run a results)
unfolding run
run-IsPaced a [] p = p
run-IsPaced a (r ∷ results) p = run-IsPaced (round a r).0 results (round-IsPaced a r p)

pub initial-IsPaced : IsPaced initial
initial-IsPaced = record {
  exponent = 0;
  power = refl;
  below = omega arith;
  passed = λ j h. absurd (omega arith);
}

pub round_failed : (a : Alarm) → (round a false).0.fail_count ≡ a.fail_count + 1
unfolding round
round_failed a = ground arith

pub round_succeeded : (a : Alarm) → (round a true).0 ≡ initial
unfolding round
round_succeeded a = refl

run-streak :
    (a : Alarm) (results : List Bool) → (run a results).fail_count ≡ streak a.fail_count results
unfolding run
run-streak a [] = refl
run-streak a (true ∷ results) =
    run-streak (round a true).0 results
    ∙ ap (λ (b : Alarm). streak b.fail_count results) (round_succeeded a)
run-streak a (false ∷ results) =
    run-streak (round a false).0 results ∙ ap (λ n. streak n results) (round_failed a)

pub warns_iff :
    (a : Alarm) → IsPaced a → ((round a false).1 ≡ true) ↔ ((k : ℕ) × (a.fail_count + 1 ≡ 10 ^ k))
unfolding round
warns_iff a p = (
  λ h. (p.exponent, ground (arith, h, p.power, p.below)),
  λ (k, e). elim (dec_lt k p.exponent) [
    | yes early ↦ absurd (omega (arith, e, p.passed k early))
    | no late ↦ ground (arith, e, p.power, ten_pow_mono p.exponent k)
  ],
)

-- After any results, the next failure is logged as a warning exactly if the number of failures in a
-- row, itself included, is a power of ten.
pub round_warns_at_powers :
    (results : List Bool)
    → ((round (run initial results) false).1 ≡ true) ↔ ((k : ℕ) × (streak 0 results + 1 ≡ 10 ^ k))
round_warns_at_powers results =
    rw (← run-streak initial results)
      (warns_iff (run initial results) (run-IsPaced initial results initial-IsPaced))
