-- ===== src/Examples/Store.antt =====
-- Tests and applied theorems for the pending store of cmd/authserver/challenge.go and the connection
-- limiter of cmd/authserver/forward.go.
use connauth.Common.{
  insert, erase, ◌+◌, ◌≤◌, ◌≡◌, refl, String, true, false, none, List, [], ◌∷◌, lookup, size, arith,
  string_eq,
}
use connauth.Pending.{
  PendingChallengeKey, PendingChallengeStore, new_pending_challenge_store, add, consume, cleanup,
  key_eq, remove,
}
use connauth.Pending.Invariant.{IsConsistent, new_pending_challenge_store-IsConsistent}
use connauth.Pending.Cleanup.{live, cleanup_lem}
use connauth.Pending.Replay.{
  step, Op, adds, consumes, cleans, run, run-IsConsistent, honoured, issued, present,
  honoured-le-issued,
}
use connauth.Limiter.{acquire, release, new_connection_limiter}
use connauth.Limiter.Refinement.{
  Refines, new_connection_limiter-Refines, has_room, acquire_lem, release-Refines, drop_one,
}
use connauth.Limiter.Schedule.{
  start, begin, finish, Reach, here, next, begins, finishes, IsBounded, Reach-IsBounded, Reach-idle,
}

abbrev challenge_key : PendingChallengeKey
challenge_key = record {
  ip = "203.0.113.7";
  key_id = "primary";
  server_id = "connauth-server";
  client_id = "workstation";
  port = 40022;
  client_nonce = "client-nonce";
  server_nonce = "server-nonce";
}

abbrev fresh : PendingChallengeStore
fresh = new_pending_challenge_store 10000 16

fresh-IsConsistent : IsConsistent fresh
fresh-IsConsistent = new_pending_challenge_store-IsConsistent 10000 16

abbrev history : List Op
history =
    adds challenge_key 30 ∷ consumes challenge_key 10 ∷ consumes challenge_key 11 ∷ cleans 40 ∷ []

-- The first response of the history is honoured, the second is not.
history-honoured : honoured challenge_key fresh history ≡ 1
unfolding honoured consume add new_pending_challenge_store lookup step insert remove erase
history-honoured = refl

run-IsConsistent_example : IsConsistent (run fresh history)
run-IsConsistent_example = run-IsConsistent fresh history fresh-IsConsistent

honoured-le-issued_example :
    honoured challenge_key fresh history
    ≤ issued challenge_key history + present (lookup challenge_key fresh.items)
honoured-le-issued_example = honoured-le-issued challenge_key fresh history

cleanup_lem_example :
    IsConsistent (cleanup fresh 31).0
    × ((k : PendingChallengeKey)
        → lookup k (cleanup fresh 31).0.items ≡ live 31 (lookup k fresh.items))
    × ((cleanup fresh 31).1 + size (cleanup fresh 31).0.items ≡ size fresh.items)
cleanup_lem_example = cleanup_lem fresh 31 fresh-IsConsistent

acquire_lem_example :
    ((acquire (new_connection_limiter 8 2) "192.0.2.10").1
      ≡ has_room (new_connection_limiter 8 2) [] "192.0.2.10")
    × ((acquire (new_connection_limiter 8 2) "192.0.2.10").1 ≡ true
        → Refines (acquire (new_connection_limiter 8 2) "192.0.2.10").0 ("192.0.2.10" ∷ []))
    × ((acquire (new_connection_limiter 8 2) "192.0.2.10").1 ≡ false
        → (acquire (new_connection_limiter 8 2) "192.0.2.10").0 ≡ new_connection_limiter 8 2)
acquire_lem_example =
    acquire_lem (new_connection_limiter 8 2) [] "192.0.2.10" (new_connection_limiter-Refines 8 2)

one_held : Refines (acquire (new_connection_limiter 8 2) "192.0.2.10").0 ("192.0.2.10" ∷ [])
unfolding acquire new_connection_limiter lookup
one_held =
    (acquire_lem (new_connection_limiter 8 2) [] "192.0.2.10"
        (new_connection_limiter-Refines 8 2)).1
      refl

release-Refines_example :
    Refines
      (release (acquire (new_connection_limiter 8 2) "192.0.2.10").0 "192.0.2.10")
      (drop_one "192.0.2.10" ("192.0.2.10" ∷ []))
release-Refines_example =
    release-Refines (acquire (new_connection_limiter 8 2) "192.0.2.10").0 ("192.0.2.10" ∷ [])
      "192.0.2.10" one_held (omega arith)

one_begun : Reach (start 8 2) (begin (start 8 2) "192.0.2.10")
one_begun = next here (begins "192.0.2.10")

Reach-IsBounded_example : IsBounded 8 2 (begin (start 8 2) "192.0.2.10")
Reach-IsBounded_example = Reach-IsBounded 8 2 one_begun

all_gone : Reach (start 8 2) (finish (begin (start 8 2) "192.0.2.10") "192.0.2.10")
unfolding begin acquire new_connection_limiter lookup
all_gone = next one_begun (finishes "192.0.2.10" (omega arith))

all_gone_idle : (finish (begin (start 8 2) "192.0.2.10") "192.0.2.10").active ≡ []
unfolding begin finish acquire new_connection_limiter lookup
all_gone_idle = refl

Reach-idle_example :
    ((finish (begin (start 8 2) "192.0.2.10") "192.0.2.10").limiter.global ≡ 0)
    × ((ip : String)
        → lookup ip (finish (begin (start 8 2) "192.0.2.10") "192.0.2.10").limiter.by_ip ≡ none)
Reach-idle_example = Reach-idle 8 2 all_gone all_gone_idle
