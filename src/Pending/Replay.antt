-- ===== src/Pending/Replay.antt =====
-- A pending challenge of cmd/authserver/challenge.go is good for one response: single calls, and
-- every sequence of calls that the mutex lets through.
use connauth.Common.{
  ℕ, ◌+◌, ◌≤◌, ◌≡◌, Bool, true, false, Option, none, some, List, [], ◌∷◌, arith, ◌==◌, ltb,
  if◌then◌else◌, Map, lookup, lookup-insert, lookup-erase,
}
use connauth.Pending.{
  PendingChallengeKey, PendingChallenge, PendingChallengeStore, add, remove, consume, cleanup,
  cleanup_loop, key_eq, key_eqb_iff,
}
use connauth.Pending.Invariant.{IsConsistent, add-IsConsistent, consume-IsConsistent}
use connauth.Pending.Cleanup.{cleanup-IsConsistent}

-- Whether a response to the challenge would be honoured at `now`.
abbrev pub is_open : ℕ → Option PendingChallenge → Bool
is_open now none = false
is_open now (some item) = ltb now item.expires_at

module _ (s : PendingChallengeStore) (key : PendingChallengeKey) where
  -- What `consume` does, for every key: it answers whether the challenge is open, and takes that
  -- challenge out and no other.
  pub consume_lem :
      (now : ℕ)
      → ((consume s key now).1 ≡ is_open now (lookup key s.items))
        × ((j : PendingChallengeKey)
            → lookup j (consume s key now).0.items ≡ (if key == j then none else lookup j s.items))
  unfolding consume remove
  consume_lem now =
      (ground arith, λ j. ground (arith, lookup-erase key j s.items, key_eqb_iff key j))

-- Whatever the first response did, a second one to the same challenge is not honoured.
pub consume_twice :
    (s : PendingChallengeStore) (key : PendingChallengeKey) (now later : ℕ)
    → (consume (consume s key now).0 key later).1 ≡ false
consume_twice s key now later = ground (
  arith,
  (consume_lem s key now).1 key,
  key_eqb_iff key key,
  (consume_lem (consume s key now).0 key later).0,
)

-- An issued challenge is honoured exactly until it expires.
pub consume-add :
    (s : PendingChallengeStore) (key : PendingChallengeKey) (expires_at now : ℕ)
    → lookup key s.items ≡ none
    → (add s key expires_at).1 ≡ true
    → (consume (add s key expires_at).0 key now).1 ≡ ltb now expires_at
unfolding add
consume-add s key expires_at now fresh taken = ground (
  arith,
  key_eqb_iff key key,
  lookup-insert key key (record { expires_at = expires_at }) s.items,
  (consume_lem (add s key expires_at).0 key now).0,
)

-- What the goroutines do to the store, one mutex section each.
pub data Op : Type 0 where
  adds : PendingChallengeKey → ℕ → Op
  consumes : PendingChallengeKey → ℕ → Op
  cleans : ℕ → Op

unfoldable pub step : PendingChallengeStore → Op → PendingChallengeStore
step s (adds key expires_at) = (add s key expires_at).0
step s (consumes key now) = (consume s key now).0
step s (cleans now) = (cleanup s now).0

abbrev pub bit : Bool → ℕ
bit true = 1
bit false = 0

unfoldable pub run : PendingChallengeStore → List Op → PendingChallengeStore
run s [] = s
run s (op ∷ ops) = run (step s op) ops

step-IsConsistent :
    (s : PendingChallengeStore) (op : Op) → IsConsistent s → IsConsistent (step s op)
unfolding step
step-IsConsistent s (adds k e) v = add-IsConsistent s k v e
step-IsConsistent s (consumes k now) v = consume-IsConsistent s k v now
step-IsConsistent s (cleans now) v = cleanup-IsConsistent s now v

-- Every sequence of add, consume and cleanup calls keeps a consistent store consistent: its keys
-- are distinct, each address's counter is the number of its pending challenges, no counter is left
-- at 0, and both limits hold.
pub run-IsConsistent :
    (s : PendingChallengeStore) (ops : List Op) → IsConsistent s → IsConsistent (run s ops)
unfolding run
run-IsConsistent s [] v = v
run-IsConsistent s (op ∷ ops) v = run-IsConsistent (step s op) ops (step-IsConsistent s op v)

-- Whether the operation honours a response to `key`, and whether it issues that challenge.
abbrev pub honours : PendingChallengeKey → PendingChallengeStore → Op → ℕ
honours key s (adds k e) = 0
honours key s (consumes k now) = if k == key then bit (consume s k now).1 else 0
honours key s (cleans now) = 0

abbrev pub issues : PendingChallengeKey → Op → ℕ
issues key (adds k e) = bit (k == key)
issues key (consumes k now) = 0
issues key (cleans now) = 0

unfoldable pub honoured : PendingChallengeKey → PendingChallengeStore → List Op → ℕ
honoured key s [] = 0
honoured key s (op ∷ ops) = honours key s op + honoured key (step s op) ops

unfoldable pub issued : PendingChallengeKey → List Op → ℕ
issued key [] = 0
issued key (op ∷ ops) = issues key op + issued key ops

abbrev pub present : Option PendingChallenge → ℕ
present none = 0
present (some item) = 1

module _ (key : PendingChallengeKey) where
  present-cleanup_loop :
      (rest : Map PendingChallengeKey PendingChallenge) (now : ℕ) (s : PendingChallengeStore)
      (deleted : ℕ)
      → present (lookup key (cleanup_loop rest now s deleted).0.items)
        ≤ present (lookup key s.items)
  unfolding cleanup_loop remove
  present-cleanup_loop [] now s deleted = omega arith
  present-cleanup_loop ((k, item) ∷ rest) now s deleted = ground (
    arith,
    lookup-erase k key s.items,
    present-cleanup_loop rest now s deleted,
    present-cleanup_loop rest now (remove s k) (deleted + 1),
  )

  honours_budget :
      (s : PendingChallengeStore) (op : Op)
      → honours key s op + present (lookup key (step s op).items)
        ≤ issues key op + present (lookup key s.items)
  unfolding step add cleanup
  honours_budget s (adds k e) =
      ground (arith, key_eqb_iff k key, lookup-insert k key (record { expires_at = e }) s.items)
  honours_budget s (consumes k now) =
      ground (arith, key_eqb_iff k key, (consume_lem s k now).0, (consume_lem s k now).1 key)
  honours_budget s (cleans now) = omega (arith, present-cleanup_loop s.items now s 0)

  -- In every sequence of add, consume and cleanup calls on the pending store, at most one response
  -- is honoured for each time that its challenge was issued, and for one that was pending at the
  -- start.
  pub honoured-le-issued :
      (s : PendingChallengeStore) (ops : List Op)
      → honoured key s ops ≤ issued key ops + present (lookup key s.items)
  unfolding honoured issued
  honoured-le-issued s [] = omega arith
  honoured-le-issued s (op ∷ ops) =
      omega (arith, honours_budget s op, honoured-le-issued (step s op) ops)
