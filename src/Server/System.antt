-- ===== src/Server/System.antt =====
-- The running server of cmd/authserver: the goroutines of `waitForAuth` and `startForwardWithStop` as
-- steps on the shared state, in any order. Each step is one packet, one round of a ticker, or the check
-- of one accepted connection.
pub mod Safe
pub mod Origin
pub mod Admission
pub mod Gate
use connauth.Common.{ℕ, zero, suc, ◌≡◌, String, Bool, Option, none, some, List, [], ◌∷◌}
use connauth.Library.{Library}
use connauth.World.{World}
use connauth.Protocol.Crypto.{Random}
use connauth.Pending.{new_pending_challenge_store, cleanup}
use connauth.Server.Config.{Config, ForwardConfig}
use connauth.Server.Clients.{ClientList, refresh_client_list, is_ip_authed, init_client_list}
use connauth.Server.Handler.{Server, Clock, Handled, handle_auth_packet}

-- The state when `Main` has run `initClientList`: `pendingChallenges` starts empty.
unfoldable pub start : Config → Server
start c = record {
  config = c;
  clients = init_client_list c;
  pending = new_pending_challenge_store 10000 16;
}

-- One round of the ticker in `waitForAuth`.
unfoldable pub clean : Server → ℕ → Server
clean s now = record s { pending = (cleanup s.pending now).0 }

-- One round of the ticker of the forward port at a position, on its map.
unfoldable pub refresh_at : ℕ → ℕ → List ClientList → List ClientList
refresh_at i now [] = []
refresh_at zero now (l ∷ ls) = refresh_client_list l now ∷ ls
refresh_at (suc i) now (l ∷ ls) = l ∷ refresh_at i now ls

-- `isIPAuthed` for a connection to the forward port at a position, on its map.
unfoldable pub check_at :
    Library → Config → ℕ → String → ℕ → List ForwardConfig → List ClientList → List ClientList
check_at lib c i ip now [] ls = ls
check_at lib c i ip now (f ∷ fs) [] = []
check_at lib c zero ip now (f ∷ fs) (l ∷ ls) = (is_ip_authed lib c f l ip now).1 ∷ ls
check_at lib c (suc i) ip now (f ∷ fs) (l ∷ ls) = l ∷ check_at lib c i ip now fs ls

abbrev pub refresh : Server → ℕ → ℕ → Server
refresh s i now = record s { clients = refresh_at i now s.clients }

abbrev pub check : World → Server → ℕ → String → ℕ → Server
check w s i ip now = record s {
  clients = check_at w.lib s.config i ip now s.config.forward_configs s.clients;
}

pub data Step (w : World) (s : Server) : Server → Type 0 where
  packet :
      (clock : Clock) (random_nonce random_seal : Random w.crypto) (peer : String)
      (bytes : List w.crypto.Byte) (h : Handled w.crypto.Byte)
      → handle_auth_packet w s clock random_nonce random_seal peer bytes ≡ some h
      → Step w s h.server
  cleans : (now : ℕ) → Step w s (clean s now)
  refreshes : (i now : ℕ) → Step w s (refresh s i now)
  checks : (i : ℕ) (ip : String) (now : ℕ) → Step w s (check w s i ip now)

pub data Reach (w : World) (s : Server) : Server → Type 0 where
  here : Reach w s s
  next : {t u : Server} → Reach w s t → Step w t u → Reach w s u
