-- ===== src/Limiter/Refinement.antt =====
-- The limiter's two counters stand for the bag of the addresses that hold a slot, and `acquire`
-- and `release` do to the counters what they promise to do to that bag.
use connauth.Common.{
  ℕ, ◌+◌, ◌-◌, ◌<◌, ◌≤◌, ◌≡◌, ◌≢◌, refl, String, Bool, true, false, some, List, [], ◌∷◌, arith,
  eq_iff, string_eq, ◌==◌, if◌then◌else◌, ltb, leb, ◌&&◌, ◌||◌, suc, lookup, lookup-insert,
  lookup-erase,
}
use connauth.Limiter.{ConnectionLimiter, new_connection_limiter, conns_of, acquire, release}

-- The addresses of the connections that hold a slot, in any order.
abbrev pub Holders : Type 0
Holders = List String

abbrev pub length : Holders → ℕ
length [] = 0
length (a ∷ h) = suc (length h)

abbrev pub count : String → Holders → ℕ
count ip [] = 0
count ip (a ∷ h) = (if a == ip then 1 else 0) + count ip h

-- One slot of `ip` is given back.
abbrev pub drop_one : String → Holders → Holders
drop_one ip [] = []
drop_one ip (a ∷ h) = if a == ip then h else a ∷ drop_one ip h

-- What the limits allow, said of the bag alone.
abbrev pub has_room : ConnectionLimiter → Holders → String → Bool
has_room l h ip =
    (leb l.max_global 0 || ltb (length h) l.max_global)
    && (leb l.max_per_ip 0 || ltb (count ip h) l.max_per_ip)

-- The counters say how many slots are held, in all and by each address; an address that holds none
-- has no entry.
pub record Refines (l : ConnectionLimiter) (h : Holders) : Type 0 where
  pub total : l.global ≡ length h
  pub each : (ip : String) → conns_of l ip ≡ count ip h
  pub no_zero : (ip : String) → lookup ip l.by_ip ≢ some 0

pub new_connection_limiter-Refines :
    (max_global max_per_ip : ℕ) → Refines (new_connection_limiter max_global max_per_ip) []
unfolding new_connection_limiter lookup
new_connection_limiter-Refines g p = record {
  total = refl;
  each = λ ip. refl;
  no_zero = λ ip e. cc;
}

module _ (l : ConnectionLimiter) (h : Holders) (ip : String) (r : Refines l h) where
  acquire_each :
      (acquire l ip).1 ≡ true → (j : String) → conns_of (acquire l ip).0 j ≡ count j (ip ∷ h)
  unfolding acquire
  acquire_each ok j =
      ground
        (arith, r.each j, r.each ip, eq_iff ip j, lookup-insert ip j (conns_of l ip + 1) l.by_ip)

  acquire_no_zero : (j : String) → lookup j (acquire l ip).0.by_ip ≢ some 0
  unfolding acquire
  acquire_no_zero j = ground (arith, r.no_zero j, lookup-insert ip j (conns_of l ip + 1) l.by_ip)

  acquire-has_room : (acquire l ip).1 ≡ has_room l h ip
  unfolding acquire
  acquire-has_room = ground (arith, r.total, r.each ip)

  acquire-Refines : (acquire l ip).1 ≡ true → Refines (acquire l ip).0 (ip ∷ h)
  unfolding acquire
  acquire-Refines ok = record {
    total = ground (arith, r.total);
    each = acquire_each ok;
    no_zero = acquire_no_zero;
  }

  acquire_refused : (acquire l ip).1 ≡ false → (acquire l ip).0 ≡ l
  unfolding acquire
  acquire_refused failed = ground arith

  -- On counters that stand for a bag of slot holders, acquire succeeds exactly if the bag has room
  -- under both limits; then the counters stand for the bag with one more holder, and otherwise the
  -- limiter is as it was.
  pub acquire_lem :
      ((acquire l ip).1 ≡ has_room l h ip)
      × ((acquire l ip).1 ≡ true → Refines (acquire l ip).0 (ip ∷ h))
      × ((acquire l ip).1 ≡ false → (acquire l ip).0 ≡ l)
  acquire_lem = (acquire-has_room, acquire-Refines, acquire_refused)

pub length-drop_one :
    (ip : String) (h : Holders) → 0 < count ip h → length (drop_one ip h) + 1 ≡ length h
length-drop_one ip [] p = absurd (omega arith)
length-drop_one ip (a ∷ h) p = ground (arith, length-drop_one ip h)

pub count-drop_one :
    (ip j : String) (h : Holders)
    → 0 < count ip h
    → count j (drop_one ip h) + (if ip == j then 1 else 0) ≡ count j h
count-drop_one ip j [] p = absurd (omega arith)
count-drop_one ip j (a ∷ h) p =
    ground (arith, eq_iff a ip, eq_iff a j, eq_iff ip j, count-drop_one ip j h)

count-le-length : (ip : String) (h : Holders) → count ip h ≤ length h
count-le-length ip [] = omega arith
count-le-length ip (a ∷ h) = ground (arith, count-le-length ip h)

module _ (l : ConnectionLimiter) (h : Holders) (ip : String) (r : Refines l h)
    (held : 0 < count ip h) where
  release_each : (j : String) → conns_of (release l ip) j ≡ count j (drop_one ip h)
  unfolding release
  release_each j = ground (
    arith,
    held,
    r.each j,
    r.each ip,
    eq_iff ip j,
    lookup-insert ip j (conns_of l ip - 1) l.by_ip,
    lookup-erase ip j l.by_ip,
    count-drop_one ip j h,
  )

  release_no_zero : (j : String) → lookup j (release l ip).by_ip ≢ some 0
  unfolding release
  release_no_zero j = ground (
    arith,
    r.no_zero j,
    lookup-insert ip j (conns_of l ip - 1) l.by_ip,
    lookup-erase ip j l.by_ip,
  )

  -- Where an address holds a slot, release makes the counters stand for the bag with one of its
  -- slots taken out.
  pub release-Refines : Refines (release l ip) (drop_one ip h)
  unfolding release
  release-Refines = record {
    total = ground (arith, r.total, held, length-drop_one ip h, count-le-length ip h);
    each = release_each;
    no_zero = release_no_zero;
  }
