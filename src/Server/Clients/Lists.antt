-- ===== src/Server/Clients/Lists.antt =====
-- The client maps of cmd/authserver/auth.go: what the sweeps keep, and what `isIPAuthed` answers.
use connauth.Common.{
  ℕ, ◌≤◌, ◌≡◌, refl, String, Bool, false, not, ◌&&◌, ◌||◌, Option, none, some, [], ◌∷◌, arith,
  string_eq, nat_eq, ◌==◌, ltb, if◌then◌else◌, lookup, size, Distinct,
}
use connauth.Library.{Library}
use connauth.Server.Config.{Config, ForwardConfig}
use connauth.Server.Access.{is_static_ip_allowed, is_ip_denied}
use connauth.Server.Clients.{
  AuthorizedClientKey, AuthorizedClientState, ClientList, client_eq, client_eqb_iff,
  cleanup_authorized_client_list, refresh_client_list, scan_clients, is_ip_authed, is_client_authed,
}

-- Whether an entry is there and lasts beyond `now`.
abbrev pub is_live : ℕ → Option AuthorizedClientState → Bool
is_live now none = false
is_live now (some state) = ltb now state.expires_at

abbrev pub live : ℕ → Option AuthorizedClientState → Option AuthorizedClientState
live now none = none
live now (some state) = if ltb now state.expires_at then some state else none

-- Some client of the address has a live entry, in whatever order they stand.
abbrev pub any_live : String → ℕ → ClientList → Bool
any_live ip now [] = false
any_live ip now ((key, state) ∷ rest) =
    (key.ip == ip && ltb now state.expires_at) || any_live ip now rest

-- The sweep keeps exactly the entries that have not expired.
pub lookup-cleanup :
    (key : AuthorizedClientKey) (now : ℕ) (list : ClientList)
    → Distinct list
    → lookup key (cleanup_authorized_client_list list now) ≡ live now (lookup key list)
unfolding cleanup_authorized_client_list lookup
lookup-cleanup key now [] d = refl
lookup-cleanup key now ((k, state) ∷ rest) d =
    ground (arith, d.0, client_eqb_iff k key, lookup-cleanup key now rest d.1)

pub cleanup-Distinct :
    (now : ℕ) (list : ClientList)
    → Distinct list
    → Distinct (cleanup_authorized_client_list list now)
unfolding cleanup_authorized_client_list
cleanup-Distinct now [] d = tt
cleanup-Distinct now ((k, state) ∷ rest) d =
    ground (arith, d.0, cleanup-Distinct now rest d.1, lookup-cleanup k now rest d.1)

pub size-cleanup-le :
    (now : ℕ) (list : ClientList) → size (cleanup_authorized_client_list list now) ≤ size list
unfolding cleanup_authorized_client_list
size-cleanup-le now [] = omega arith
size-cleanup-le now ((k, state) ∷ rest) = ground (arith, size-cleanup-le now rest)

pub refresh_client_list-eq :
    (list : ClientList) (now : ℕ)
    → refresh_client_list list now ≡ cleanup_authorized_client_list list now
unfolding refresh_client_list cleanup_authorized_client_list
refresh_client_list-eq [] now = refl
refresh_client_list-eq (x ∷ rest) now = ground arith

pub scan_clients-any_live :
    (list : ClientList) (ip : String) (now : ℕ)
    → (scan_clients list ip now).0 ≡ any_live ip now list
unfolding scan_clients
scan_clients-any_live [] ip now = refl
scan_clients-any_live ((k, state) ∷ rest) ip now = ground (arith, scan_clients-any_live rest ip now)

-- On a map with distinct keys the loop of isIPAuthed loses only expired entries: what is live for
-- any client stays as it was.
pub scan_clients-live :
    (key : AuthorizedClientKey) (list : ClientList) (ip : String) (now : ℕ)
    → Distinct list
    → live now (lookup key (scan_clients list ip now).1) ≡ live now (lookup key list)
unfolding scan_clients lookup
scan_clients-live key [] ip now d = refl
scan_clients-live key ((k, state) ∷ rest) ip now d =
    ground (arith, d.0, client_eqb_iff k key, scan_clients-live key rest ip now d.1)

pub scan_clients-missing :
    (key : AuthorizedClientKey) (list : ClientList) (ip : String) (now : ℕ)
    → lookup key list ≡ none
    → lookup key (scan_clients list ip now).1 ≡ none
unfolding scan_clients lookup
scan_clients-missing key [] ip now h = refl
scan_clients-missing key ((k, state) ∷ rest) ip now h =
    ground (arith, h, scan_clients-missing key rest ip now)

pub scan_clients-Distinct :
    (list : ClientList) (ip : String) (now : ℕ)
    → Distinct list
    → Distinct (scan_clients list ip now).1
unfolding scan_clients
scan_clients-Distinct [] ip now d = tt
scan_clients-Distinct ((k, state) ∷ rest) ip now d =
    ground (arith, d.0, scan_clients-Distinct rest ip now d.1, scan_clients-missing k rest ip now)

pub size-scan_clients-le :
    (list : ClientList) (ip : String) (now : ℕ) → size (scan_clients list ip now).1 ≤ size list
unfolding scan_clients
size-scan_clients-le [] ip now = omega arith
size-scan_clients-le ((k, state) ∷ rest) ip now = ground (arith, size-scan_clients-le rest ip now)

module _ (lib : Library) (c : Config) (f : ForwardConfig) (list : ClientList) (ip : String)
    (now : ℕ) where
  -- isIPAuthed lets an address in exactly if no deny rule matches it, and an allow rule matches it
  -- or some client of that address has an entry that has not expired, in whatever order the map is
  -- visited.
  pub is_ip_authed_lem :
      (is_ip_authed lib c f list ip now).0
      ≡ (not (is_ip_denied lib c ip) && (is_static_ip_allowed lib c f ip || any_live ip now list))
  unfolding is_ip_authed
  is_ip_authed_lem = ground (arith, scan_clients-any_live list ip now)

  pub is_client_authed_lem :
      (client_id : String)
      → (is_client_authed lib c f list ip client_id now).0 ≡ (
          not (is_ip_denied lib c ip)
          && (is_static_ip_allowed lib c f ip
              || is_live now (lookup (record { ip = ip; client_id = client_id }) list)))
  unfolding is_client_authed
  is_client_authed_lem client_id = ground arith
