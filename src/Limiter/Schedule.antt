-- ===== src/Limiter/Schedule.antt =====
-- The connection goroutines of `startForwardWithStop` (cmd/authserver/forward.go): each acquires a
-- slot or is refused, and gives its slot back by the deferred `release` when it ends. They run in
-- any order, and each mutex section is one step.
use connauth.Common.{
  ℕ, ◌<◌, ◌≤◌, ◌≡◌, refl, String, Bool, true, none, [], ◌∷◌, arith, ap, eq_iff, inl, inr,
  Bool-cases, string_eq, lookup, if◌then◌else◌,
}
use connauth.Limiter.{ConnectionLimiter, new_connection_limiter, acquire, release}
use connauth.Limiter.Refinement.{
  Holders, length, count, drop_one, Refines, new_connection_limiter-Refines, acquire_lem,
  release-Refines, length-drop_one, count-drop_one,
}

-- `active` has the address of each goroutine that holds a slot.
pub record Connections : Type 0 where
  pub limiter : ConnectionLimiter
  pub active : Holders

abbrev pub start : ℕ → ℕ → Connections
start max_global max_per_ip = record {
  limiter = new_connection_limiter max_global max_per_ip;
  active = [];
}

-- A goroutine that is refused closes its connection and ends.
unfoldable pub begin : Connections → String → Connections
begin c ip =
    let (l, taken) = acquire c.limiter ip in
    record { limiter = l; active = if taken then ip ∷ c.active else c.active }

unfoldable pub finish : Connections → String → Connections
finish c ip = record { limiter = release c.limiter ip; active = drop_one ip c.active }

pub data Step (c : Connections) : Connections → Type 0 where
  begins : (ip : String) → Step c (begin c ip)
  finishes : (ip : String) → 0 < count ip c.active → Step c (finish c ip)

pub data Reach (c : Connections) : Connections → Type 0 where
  here : Reach c c
  next : {d e : Connections} → Reach c d → Step d e → Reach c e

pub record IsBounded (g p : ℕ) (c : Connections) : Type 0 where
  pub max_global : c.limiter.max_global ≡ g
  pub max_per_ip : c.limiter.max_per_ip ≡ p
  pub refines : Refines c.limiter c.active
  pub global_limit : 0 < g → length c.active ≤ g
  pub ip_limit : (ip : String) → 0 < p → count ip c.active ≤ p

module _ (g p : ℕ) where
  start-IsBounded : IsBounded g p (start g p)
  unfolding new_connection_limiter
  start-IsBounded = record {
    max_global = refl;
    max_per_ip = refl;
    refines = new_connection_limiter-Refines g p;
    global_limit = λ h. omega arith;
    ip_limit = λ ip h. omega arith;
  }

  begin_taken :
      (c : Connections) (ip : String)
      → acquire c.limiter ip ≡ ((acquire c.limiter ip).0, true)
      → IsBounded g p c
      → IsBounded g p (record { limiter = (acquire c.limiter ip).0; active = ip ∷ c.active })
  begin_taken c ip taken b = record {
    max_global = unfold acquire in ground (arith, b.max_global);
    max_per_ip = unfold acquire in ground (arith, b.max_per_ip);
    refines =
        (acquire_lem c.limiter c.active ip b.refines).1
          (ap (λ (r : ConnectionLimiter × Bool). r.1) taken);
    global_limit = ground (
      arith,
      b.global_limit,
      b.max_global,
      taken,
      (acquire_lem c.limiter c.active ip b.refines).0,
    );
    ip_limit = λ j. ground (
      arith,
      b.ip_limit j,
      b.max_per_ip,
      taken,
      eq_iff ip j,
      (acquire_lem c.limiter c.active ip b.refines).0,
    );
  }

  begin-IsBounded : (c : Connections) (ip : String) → IsBounded g p c → IsBounded g p (begin c ip)
  unfolding begin
  begin-IsBounded c ip b = elim (Bool-cases (acquire c.limiter ip).1) [
    | inl taken ↦ rw taken (begin_taken c ip (ground (arith, taken)) b)
    | inr refused ↦ rw (refused, (acquire_lem c.limiter c.active ip b.refines).2 refused) b
  ]

  finish-IsBounded :
      (c : Connections) (ip : String)
      → 0 < count ip c.active
      → IsBounded g p c
      → IsBounded g p (finish c ip)
  unfolding finish release
  finish-IsBounded c ip held b = record {
    max_global = b.max_global;
    max_per_ip = b.max_per_ip;
    refines = unfold release in release-Refines c.limiter c.active ip b.refines held;
    global_limit = ground (arith, b.global_limit, held, length-drop_one ip c.active);
    ip_limit = λ j. ground (arith, b.ip_limit j, held, count-drop_one ip j c.active);
  }

  Step-IsBounded : {c d : Connections} → Step c d → IsBounded g p c → IsBounded g p d
  Step-IsBounded {c} (begins ip) b = begin-IsBounded c ip b
  Step-IsBounded {c} (finishes ip held) b = finish-IsBounded c ip held b

  -- Whatever the order in which connections come and go, no more than the global limit hold a slot,
  -- no address holds more than its limit, and the counters are exact.
  pub Reach-IsBounded : {c : Connections} → Reach (start g p) c → IsBounded g p c
  Reach-IsBounded here = start-IsBounded
  Reach-IsBounded (next r st) = Step-IsBounded st (Reach-IsBounded r)

  -- When the last connection has ended, the global counter is 0 and no address has an entry.
  pub Reach-idle :
      {c : Connections}
      → Reach (start g p) c
      → c.active ≡ []
      → (c.limiter.global ≡ 0) × ((ip : String) → lookup ip c.limiter.by_ip ≡ none)
  Reach-idle {c} r idle =
      let b = Reach-IsBounded r in
      (
        ground (arith, b.refines.total, idle),
        λ ip. ground (arith, b.refines.each ip, b.refines.no_zero ip, idle),
      )
