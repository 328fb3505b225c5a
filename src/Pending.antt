-- ===== src/Pending.antt =====
-- cmd/authserver/challenge.go: the challenges that the server has issued and that wait for their
-- response. A method of the mutex-guarded store takes the store and returns the new one. A time
-- is a number of nanoseconds; a limit of 0 means no limit.
pub mod Invariant
pub mod Replay
pub mod Cleanup
use connauth.Common.{
  ℕ, ◌+◌, ◌-◌, ◌↔◌, ◌≡◌, String, Bool, true, false, ◌&&◌, Option, none, some, [], ◌∷◌, arith,
  eq_iff, Eq, ◌==◌, nat_eq, string_eq, nat_eqb_iff, ltb, leb, if◌then◌else◌, Map, get_or, lookup,
  insert, erase, size,
}

pub record PendingChallengeKey : Type 0 where
  pub ip : String
  pub key_id : String
  pub server_id : String
  pub client_id : String
  pub port : ℕ
  pub client_nonce : String
  pub server_nonce : String

abbrev pub key_eqb : PendingChallengeKey → PendingChallengeKey → Bool
key_eqb a b =
    a.ip == b.ip
    && (a.key_id == b.key_id
        && (a.server_id == b.server_id
            && (a.client_id == b.client_id
                && (a.port == b.port
                    && (a.client_nonce == b.client_nonce && a.server_nonce == b.server_nonce)))))

pub key_eqb_iff : (a b : PendingChallengeKey) → (key_eqb a b ≡ true) ↔ (a ≡ b)
key_eqb_iff a b = ground (
  arith,
  eq_iff a.ip b.ip,
  eq_iff a.key_id b.key_id,
  eq_iff a.server_id b.server_id,
  eq_iff a.client_id b.client_id,
  eq_iff a.client_nonce b.client_nonce,
  eq_iff a.server_nonce b.server_nonce,
)

instance abbrev pub key_eq : Eq PendingChallengeKey
key_eq = record { equals = key_eqb; decides = key_eqb_iff }

pub record PendingChallenge : Type 0 where
  pub expires_at : ℕ

pub record PendingChallengeStore : Type 0 where
  pub items : Map PendingChallengeKey PendingChallenge
  pub count_by_ip : Map String ℕ
  pub max_global : ℕ
  pub max_per_ip : ℕ

unfoldable pub new_pending_challenge_store : ℕ → ℕ → PendingChallengeStore
new_pending_challenge_store max_global max_per_ip = record {
  items = [];
  count_by_ip = [];
  max_global = max_global;
  max_per_ip = max_per_ip;
}

-- s.countByIP[ip]: a missing key reads as 0
abbrev pub count_of : PendingChallengeStore → String → ℕ
count_of s ip = get_or (lookup ip s.count_by_ip) 0

abbrev pub at_limit : ℕ → ℕ → Bool
at_limit limit n = ltb 0 limit && leb limit n

unfoldable pub add : PendingChallengeStore → PendingChallengeKey → ℕ → PendingChallengeStore × Bool
add s key expires_at =
    if at_limit s.max_global (size s.items)
    then (s, false)
    else if at_limit s.max_per_ip (count_of s key.ip)
    then (s, false)
    else elim (lookup key s.items) [
      | some item ↦ (s, true)
      | none ↦ (
        record s {
          items = insert key (record { expires_at = expires_at }) s.items;
          count_by_ip = insert key.ip (count_of s key.ip + 1) s.count_by_ip;
        },
        true,
      )
    ]

-- s.countByIP[ip]--, and delete at 0 or below. From a missing entry the source writes -1 and deletes
-- it at once; on ℕ the difference is 0, and the entry is deleted too.
unfoldable pub decrement : String → Map String ℕ → Map String ℕ
decrement ip counts =
    let n = get_or (lookup ip counts) 0 - 1 in
    if leb n 0 then erase ip counts else insert ip n counts

-- What `consume` and `cleanup` do to an item: delete it and count it down.
unfoldable pub remove : PendingChallengeStore → PendingChallengeKey → PendingChallengeStore
remove s key = record s { items = erase key s.items; count_by_ip = decrement key.ip s.count_by_ip }

unfoldable pub consume :
    PendingChallengeStore → PendingChallengeKey → ℕ → PendingChallengeStore × Bool
consume s key now = elim (lookup key s.items) [
  | none ↦ (s, false)
  | some item ↦ (remove s key, ltb now item.expires_at)
]

-- The loop of `cleanup`, over the entries that the map held when it began.
unfoldable pub cleanup_loop :
    Map PendingChallengeKey PendingChallenge
    → ℕ
    → PendingChallengeStore
    → ℕ
    → PendingChallengeStore × ℕ
cleanup_loop [] now s deleted = (s, deleted)
cleanup_loop ((key, item) ∷ rest) now s deleted =
    let expired = cleanup_loop rest now (remove s key) (deleted + 1) in
    let live = cleanup_loop rest now s deleted in if ltb now item.expires_at then live else expired

unfoldable pub cleanup : PendingChallengeStore → ℕ → PendingChallengeStore × ℕ
unfolding cleanup_loop
cleanup s now = cleanup_loop s.items now s 0
