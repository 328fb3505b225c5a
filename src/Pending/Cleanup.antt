-- ===== src/Pending/Cleanup.antt =====
-- The sweep of cmd/authserver/challenge.go keeps exactly the challenges that are still alive.
use connauth.Common.{
  ℕ, ◌+◌, ◌≡◌, refl, Option, none, some, [], ◌∷◌, inl, inr, arith, Bool-cases, ltb, if◌then◌else◌,
  Map, lookup, erase, size, Distinct, lookup-erase, size-erase,
}
use connauth.Pending.{
  PendingChallengeKey, PendingChallenge, PendingChallengeStore, remove, cleanup, cleanup_loop,
  key_eq, key_eqb_iff,
}
use connauth.Pending.Invariant.{IsConsistent, remove-IsConsistent}

-- What the sweep at `now` leaves of an entry.
abbrev pub live : ℕ → Option PendingChallenge → Option PendingChallenge
live now none = none
live now (some item) = if ltb now item.expires_at then some item else none

-- The same, for an entry `kept` that the loop may not have reached.
abbrev swept : ℕ → Option PendingChallenge → Option PendingChallenge → Option PendingChallenge
swept now none kept = kept
swept now (some item) kept = if ltb now item.expires_at then kept else none

abbrev Items : Type 0
Items = Map PendingChallengeKey PendingChallenge

-- The entries that the loop has still to visit stand in the store.
abbrev Contained : Items → Items → Type 0
Contained rest m =
    (k : PendingChallengeKey) (i : PendingChallenge) → lookup k rest ≡ some i → lookup k m ≡ some i

module _ (key : PendingChallengeKey) (item : PendingChallenge) (rest : Items) (m : Items)
    (fresh : lookup key rest ≡ none) (c : Contained ((key, item) ∷ rest) m) where
  Contained-head : lookup key m ≡ some item
  unfolding lookup
  Contained-head = c key item (ground (arith, key_eqb_iff key key))

  Contained-tail : Contained rest m
  unfolding lookup
  Contained-tail k i h = ground (arith, key_eqb_iff key k, c k i)

  Contained-erase : Contained rest (erase key m)
  Contained-erase k i h =
      ground (arith, Contained-tail k i h, key_eqb_iff key k, lookup-erase key k m)

record Sweep (rest : Items) (now : ℕ) (s : PendingChallengeStore) (deleted : ℕ) : Type 0 where
  pub consistent : IsConsistent (cleanup_loop rest now s deleted).0
  pub entries :
      (k : PendingChallengeKey)
      → lookup k (cleanup_loop rest now s deleted).0.items
        ≡ swept now (lookup k rest) (lookup k s.items)
  pub total :
      (cleanup_loop rest now s deleted).1 + size (cleanup_loop rest now s deleted).0.items
      ≡ deleted + size s.items

cleanup_loop_lem :
    (rest : Items) (now : ℕ) (s : PendingChallengeStore) (deleted : ℕ)
    → IsConsistent s
    → Distinct rest
    → Contained rest s.items
    → Sweep rest now s deleted
unfolding cleanup_loop lookup remove
cleanup_loop_lem [] now s deleted v d c = record {
  consistent = v;
  entries = λ k. refl;
  total = refl;
}
cleanup_loop_lem ((key, item) ∷ rest) now s deleted v d c =
    elim (Bool-cases (ltb now item.expires_at)) [
      | inl alive ↦
          let found = Contained-head key item rest s.items d.0 c in
          let ih =
            cleanup_loop_lem rest now s deleted v d.1
              (Contained-tail key item rest s.items d.0 c) in
          record {
            consistent = rw alive ih.consistent;
            entries = λ k. ground (arith, alive, d.0, key_eqb_iff key k, found, ih.entries k);
            total = rw alive ih.total;
          }
      | inr dead ↦
          let found = Contained-head key item rest s.items d.0 c in
          let ih =
            cleanup_loop_lem rest now (remove s key) (deleted + 1)
              (remove-IsConsistent s key v item found) d.1
              (Contained-erase key item rest s.items d.0 c) in
          record {
            consistent = rw dead ih.consistent;
            entries = λ k. ground (
              arith,
              dead,
              d.0,
              key_eqb_iff key k,
              found,
              ih.entries k,
              lookup-erase key k s.items,
            );
            total = ground (arith, dead, ih.total, found, v.distinct, size-erase key item s.items);
          }
    ]

module _ (s : PendingChallengeStore) (now : ℕ) (v : IsConsistent s) where
  sweep : Sweep s.items now s 0
  sweep = cleanup_loop_lem s.items now s 0 v v.distinct (λ k i h. h)

  pub cleanup-IsConsistent : IsConsistent (cleanup s now).0
  unfolding cleanup
  cleanup-IsConsistent = sweep.consistent

  lookup-cleanup :
      (k : PendingChallengeKey) → lookup k (cleanup s now).0.items ≡ live now (lookup k s.items)
  unfolding cleanup
  lookup-cleanup k = ground (arith, sweep.entries k)

  size-cleanup : (cleanup s now).1 + size (cleanup s now).0.items ≡ size s.items
  unfolding cleanup
  size-cleanup = omega (arith, sweep.total)

  -- On a consistent store cleanup keeps it consistent, keeps exactly the challenges that have not
  -- expired, and returns how many it deleted.
  pub cleanup_lem :
      IsConsistent (cleanup s now).0
      × ((k : PendingChallengeKey) → lookup k (cleanup s now).0.items ≡ live now (lookup k s.items))
      × ((cleanup s now).1 + size (cleanup s now).0.items ≡ size s.items)
  cleanup_lem = (cleanup-IsConsistent, lookup-cleanup, size-cleanup)
