-- ===== src/Client/Loop/Rounds.antt =====
-- How often the loop of a port authenticates and when it warns.
use Prim.Native.Nat.{◌^◌}
use connauth.Common.{
  ℕ, suc, ◌≡◌, ◌≢◌, refl, Bool, true, false, List, [], ◌∷◌, inl, inr, Bool-cases, arith, length,
}
use connauth.Client.Alarm.{
  Alarm, initial, round, run, IsPaced, initial-IsPaced, round-IsPaced, warns_iff, round_failed,
}
use connauth.Client.Loop.{Select, ticks, stops, log_warning, auth_loop}

-- The results of the rounds that are made: up to the one after which the loop is stopped.
abbrev pub made : List (Bool × Select) → List Bool
made [] = []
made ((result, stops) ∷ rounds) = result ∷ []
made ((result, ticks) ∷ rounds) = result ∷ made rounds

abbrev pub has_stop : List (Bool × Select) → Bool
has_stop [] = false
has_stop ((result, stops) ∷ rounds) = true
has_stop ((result, ticks) ∷ rounds) = has_stop rounds

-- The warnings after some failures in a row: one for each failure whose number in its row is a power
-- of ten.
pub data Warnings : ℕ → List Bool → List ℕ → Type 0 where
  done : {n : ℕ} → Warnings n [] []
  succeeded : {n : ℕ} {rs : List Bool} {ws : List ℕ} → Warnings 0 rs ws → Warnings n (true ∷ rs) ws
  warned :
      {n : ℕ} {rs : List Bool} {ws : List ℕ} (k : ℕ)
      → suc n ≡ 10 ^ k
      → Warnings (suc n) rs ws
      → Warnings n (false ∷ rs) (suc n ∷ ws)
  silent :
      {n : ℕ} {rs : List Bool} {ws : List ℕ}
      → ((k : ℕ) → suc n ≢ 10 ^ k)
      → Warnings (suc n) rs ws
      → Warnings n (false ∷ rs) ws

failed-Warnings :
    (a : Alarm) (rs : List Bool) (ws : List ℕ)
    → IsPaced a
    → Warnings (round a false).0.fail_count rs ws
    → Warnings a.fail_count (false ∷ rs) (log_warning (round a false) ws)
failed-Warnings a rs ws p later =
    let e : (round a false).0.fail_count ≡ suc a.fail_count = omega (arith, round_failed a) in
    let next : Warnings (suc a.fail_count) rs ws = rw (← e) later in
    elim (Bool-cases (round a false).1) [
      | inl hit ↦
          let power = (warns_iff a p).0 hit in
          let same : suc a.fail_count ∷ ws ≡ log_warning (round a false) ws =
            ground (arith, hit, e) in
          rw (← same) (warned power.0 (omega (arith, power.1)) next)
      | inr miss ↦
          let same : ws ≡ log_warning (round a false) ws = ground (arith, miss) in
          rw (← same) (
            silent
              (λ k power.
                absurd (ground (arith, miss, (warns_iff a p).1 (k, omega (arith, power)))))
              next)
    ]

round-Warnings :
    (a : Alarm) (result : Bool) (rs : List Bool) (ws : List ℕ)
    → IsPaced a
    → Warnings (round a result).0.fail_count rs ws
    → Warnings a.fail_count (result ∷ rs) (log_warning (round a result) ws)
unfolding round
round-Warnings a true rs ws p later = succeeded later
round-Warnings a false rs ws p later = failed-Warnings a rs ws p later

auth_loop-Warnings :
    (a : Alarm) (rounds : List (Bool × Select))
    → IsPaced a
    → Warnings a.fail_count (made rounds) (auth_loop a rounds).warned
unfolding auth_loop
auth_loop-Warnings a [] p = done
auth_loop-Warnings a ((result, stops) ∷ rounds) p = round-Warnings a result [] [] p done
auth_loop-Warnings a ((result, ticks) ∷ rounds) p =
    round-Warnings a result (made rounds) (auth_loop (round a result).0 rounds).warned p
      (auth_loop-Warnings (round a result).0 rounds (round-IsPaced a result p))

auth_loop_counts :
    (a : Alarm) (rounds : List (Bool × Select))
    → ((auth_loop a rounds).attempts ≡ length (made rounds))
      × ((auth_loop a rounds).stopped ≡ has_stop rounds)
      × ((auth_loop a rounds).alarm ≡ run a (made rounds))
unfolding auth_loop run
auth_loop_counts a [] = (refl, refl, refl)
auth_loop_counts a ((result, stops) ∷ rounds) = (refl, refl, refl)
auth_loop_counts a ((result, ticks) ∷ rounds) =
    let rest = auth_loop_counts (round a result).0 rounds in
    (ground (arith, rest), ground (arith, rest), rest.2)

-- The loop of a port authenticates once for each result up to the first after which it is stopped,
-- and is left exactly if there is such a one. It warns once for each failure whose number among the
-- failures in a row is a power of ten, with that number, in order, and for no other.
pub auth_loop-Runs :
    (rounds : List (Bool × Select))
    → ((auth_loop initial rounds).attempts ≡ length (made rounds))
      × ((auth_loop initial rounds).stopped ≡ has_stop rounds)
      × Warnings 0 (made rounds) (auth_loop initial rounds).warned
auth_loop-Runs rounds =
    let counts = auth_loop_counts initial rounds in
    (counts.0, counts.1, auth_loop-Warnings initial rounds initial-IsPaced)
