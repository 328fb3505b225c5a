-- ===== src/Pending/Invariant.antt =====
-- The per-address counters of the pending store agree with its items, and its limits hold.
use connauth.Common.{
  ℕ, ◌+◌, ◌-◌, Option-cases, inl, inr, ◌≤◌, ◌<◌, ◌≡◌, ◌≢◌, refl, string_eq, String, some, arith,
  eq_iff, ◌==◌, lookup, size, count_keys, Distinct, lookup-insert, lookup-erase, insert-Distinct,
  erase-Distinct, count_keys-insert_new, count_keys-erase, size-insert_new, size-erase-le,
}
use connauth.Pending.{
  PendingChallengeKey, PendingChallenge, PendingChallengeStore, new_pending_challenge_store,
  count_of, add, decrement, remove, consume, key_eq,
}

-- How many pending challenges an address has.
abbrev pub pending_from : String → PendingChallengeStore → ℕ
pending_from ip s = count_keys (λ k. k.ip == ip) s.items

abbrev pub Within : ℕ → ℕ → Type 0
Within limit n = 0 < limit → n ≤ limit

pub record IsConsistent (s : PendingChallengeStore) : Type 0 where
  pub distinct : Distinct s.items
  pub counted : (ip : String) → count_of s ip ≡ pending_from ip s
  pub no_zero : (ip : String) → lookup ip s.count_by_ip ≢ some 0
  pub global_limit : Within s.max_global (size s.items)
  pub ip_limit : (ip : String) → Within s.max_per_ip (pending_from ip s)

pub new_pending_challenge_store-IsConsistent :
    (max_global max_per_ip : ℕ) → IsConsistent (new_pending_challenge_store max_global max_per_ip)
unfolding new_pending_challenge_store lookup count_keys
new_pending_challenge_store-IsConsistent g p = record {
  distinct = tt;
  counted = λ ip. refl;
  no_zero = λ ip e. cc;
  global_limit = λ h. omega arith;
  ip_limit = λ ip h. omega arith;
}

module _ (s : PendingChallengeStore) (key : PendingChallengeKey) (v : IsConsistent s) where
  module _ (expires_at : ℕ) where
    add_counted :
        (ip : String)
        → count_of (add s key expires_at).0 ip ≡ pending_from ip (add s key expires_at).0
    unfolding add
    add_counted ip = ground (
      arith,
      v.counted ip,
      v.counted key.ip,
      eq_iff key.ip ip,
      lookup-insert key.ip ip (count_of s key.ip + 1) s.count_by_ip,
      count_keys-insert_new (λ k. k.ip == ip) key (record { expires_at = expires_at }) s.items,
    )

    add_ip_limit :
        (ip : String)
        → Within (add s key expires_at).0.max_per_ip (pending_from ip (add s key expires_at).0)
    unfolding add
    add_ip_limit ip h = ground (
      arith,
      v.counted ip,
      v.ip_limit ip,
      eq_iff key.ip ip,
      count_keys-insert_new (λ k. k.ip == ip) key (record { expires_at = expires_at }) s.items,
    )

    add_no_zero : (ip : String) → lookup ip (add s key expires_at).0.count_by_ip ≢ some 0
    unfolding add
    add_no_zero ip =
        ground (arith, v.no_zero ip, lookup-insert key.ip ip (count_of s key.ip + 1) s.count_by_ip)

    -- `add` keeps the store consistent, whether or not it takes the challenge.
    pub add-IsConsistent : IsConsistent (add s key expires_at).0
    unfolding add
    add-IsConsistent = record {
      distinct =
          ground
            (arith, v.distinct, insert-Distinct key (record { expires_at = expires_at }) s.items);
      counted = add_counted;
      no_zero = add_no_zero;
      global_limit =
          ground (
            arith,
            v.global_limit,
            size-insert_new key (record { expires_at = expires_at }) s.items,
          );
      ip_limit = add_ip_limit;
    }

  module _ (item : PendingChallenge) (found : lookup key s.items ≡ some item) where
    remove_counted : (ip : String) → count_of (remove s key) ip ≡ pending_from ip (remove s key)
    unfolding remove decrement
    remove_counted ip = ground (
      arith,
      found,
      v.distinct,
      v.counted ip,
      v.counted key.ip,
      eq_iff key.ip ip,
      lookup-insert key.ip ip (count_of s key.ip - 1) s.count_by_ip,
      lookup-erase key.ip ip s.count_by_ip,
      count_keys-erase (λ k. k.ip == ip) key item s.items,
    )

    remove_no_zero : (ip : String) → lookup ip (remove s key).count_by_ip ≢ some 0
    unfolding remove decrement
    remove_no_zero ip = ground (
      arith,
      v.no_zero ip,
      lookup-insert key.ip ip (count_of s key.ip - 1) s.count_by_ip,
      lookup-erase key.ip ip s.count_by_ip,
    )

    remove_ip_limit :
        (ip : String) → Within (remove s key).max_per_ip (pending_from ip (remove s key))
    unfolding remove
    remove_ip_limit ip = ground (
      arith,
      found,
      v.distinct,
      v.ip_limit ip,
      count_keys-erase (λ k. k.ip == ip) key item s.items,
    )

    -- Taking a pending challenge out keeps the store consistent.
    pub remove-IsConsistent : IsConsistent (remove s key)
    unfolding remove
    remove-IsConsistent = record {
      distinct = erase-Distinct key s.items v.distinct;
      counted = remove_counted;
      no_zero = remove_no_zero;
      global_limit = ground (arith, v.global_limit, size-erase-le key s.items);
      ip_limit = remove_ip_limit;
    }

  pub consume-IsConsistent : (now : ℕ) → IsConsistent (consume s key now).0
  unfolding consume
  consume-IsConsistent now = elim (Option-cases (lookup key s.items)) [
    | inl e ↦ rw (e, consume) v
    | inr (item, e) ↦ rw (e, consume) (remove-IsConsistent item e)
  ]
