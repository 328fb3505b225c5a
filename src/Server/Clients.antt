-- ===== src/Server/Clients.antt =====
-- The authorised clients of cmd/authserver/auth.go. `allClientList` holds a map for each forward
-- configuration, by its address; here the maps stand in the order of the configurations. The mutex
-- makes each function one step, and `now` is its reading of the clock.
pub mod Lists
pub mod Grant
use connauth.Common.{
  ℕ, ◌+◌, ◌*◌, ◌↔◌, ◌≡◌, String, Bool, true, false, not, ◌&&◌, Option, none, some, List, [], ◌∷◌,
  map, arith, eq_iff, Eq, string_eq, nat_eq, ◌==◌, ltb, leb, if◌then◌else◌, Map, lookup, insert,
  erase, size,
}
use connauth.Protocol.{second}
use connauth.Utils.{AuthConfig}
use connauth.Library.{Library}
use connauth.Server.Config.{Config, ForwardConfig}
use connauth.Server.Access.{
  AuthResult, no_auth, is_static_ip_allowed, is_ip_denied, match_any_token_rules,
}

pub record AuthorizedClientKey : Type 0 where
  pub ip : String
  pub client_id : String

abbrev pub client_eqb : AuthorizedClientKey → AuthorizedClientKey → Bool
client_eqb a b = a.ip == b.ip && a.client_id == b.client_id

pub client_eqb_iff : (a b : AuthorizedClientKey) → (client_eqb a b ≡ true) ↔ (a ≡ b)
client_eqb_iff a b = ground (arith, eq_iff a.ip b.ip, eq_iff a.client_id b.client_id)

instance abbrev pub client_eq : Eq AuthorizedClientKey
client_eq = record { equals = client_eqb; decides = client_eqb_iff }

pub record AuthorizedClientState : Type 0 where
  pub expires_at : ℕ

abbrev pub ClientList : Type 0
ClientList = Map AuthorizedClientKey AuthorizedClientState

abbrev pub max_authorized_clients : ℕ
max_authorized_clients = 10000

-- Each entry is visited once, and deleted if it has expired.
unfoldable pub cleanup_authorized_client_list : ClientList → ℕ → ClientList
cleanup_authorized_client_list [] now = []
cleanup_authorized_client_list ((key, state) ∷ rest) now =
    let rest' = cleanup_authorized_client_list rest now in
    if not (ltb now state.expires_at) then rest' else (key, state) ∷ rest'

-- `refreshClientList` writes the same loop out, behind an early return for an empty map.
unfoldable pub refresh_client_list : ClientList → ℕ → ClientList
refresh_client_list list now =
    if size list == 0 then list else cleanup_authorized_client_list list now

-- The loop of `isIPAuthed`: entries of other addresses stay, expired ones of this address go until a
-- live one is met. Go's order of the entries is arbitrary, as the order of the list is.
unfoldable pub scan_clients : ClientList → String → ℕ → Bool × ClientList
scan_clients [] ip now = (false, [])
scan_clients ((key, state) ∷ rest) ip now =
    let (found, rest') = scan_clients rest ip now in
    if not (key.ip == ip)
    then (found, (key, state) ∷ rest')
    else if ltb now state.expires_at
    then (true, (key, state) ∷ rest)
    else (found, rest')

module _ (lib : Library) (c : Config) where
  unfoldable pub is_ip_authed : ForwardConfig → ClientList → String → ℕ → Bool × ClientList
  is_ip_authed f list ip now =
      if is_ip_denied lib c ip
      then (false, list)
      else if is_static_ip_allowed lib c f ip
      then (true, list)
      else scan_clients list ip now

  unfoldable pub is_client_authed :
      ForwardConfig → ClientList → String → String → ℕ → Bool × ClientList
  is_client_authed f list ip client_id now =
      if is_ip_denied lib c ip
      then (false, list)
      else if is_static_ip_allowed lib c f ip
      then (true, list)
      else elim (lookup (record { ip = ip; client_id = client_id }) list) [
        | none ↦ (false, list)
        | some state ↦
            if not (ltb now state.expires_at)
            then (false, erase (record { ip = ip; client_id = client_id }) list)
            else (true, list)
      ]

-- What `authorizeClient` does for the configuration whose rules let the token in. `none` is the panic
-- on a nil pointer. A uint32 number of seconds in nanoseconds fits Go's int64 durations.
unfoldable pub grant :
    ForwardConfig
    → ClientList
    → AuthorizedClientKey
    → AuthResult
    → ℕ
    → Option (AuthResult × ClientList)
grant f list key result now =
    let list' = cleanup_authorized_client_list list now in
    let exists : Bool = elim (lookup key list') [ none ↦ false | some state ↦ true ] in
    if not exists && (ltb 0 max_authorized_clients && leb max_authorized_clients (size list'))
    then some (no_auth, list')
    else elim f.auth_expired_time [
      | none ↦ none
      | some seconds ↦ some (
        record result { renewed = exists },
        insert key (record { expires_at = now + seconds * second }) list',
      )
    ]

abbrev pub keep_list {ℓ} : {L : Type ℓ} → L → AuthResult × List L → AuthResult × List L
keep_list l (r, ls) = (r, l ∷ ls)

abbrev pub put_list {ℓ} : {L : Type ℓ} → List L → AuthResult × L → AuthResult × List L
put_list ls (r, l) = (r, l ∷ ls)

abbrev pub map_option {ℓ κ} : {A : Type ℓ} {B : Type κ} → (A → B) → Option A → Option B
map_option f none = none
map_option f (some a) = some (f a)

module _ (lib : Library) (c : Config) where
  -- The loop of `authorizeClient` over the forward configurations that are left and their maps. A
  -- configuration with no map has the nil map, which panics on the write.
  unfoldable pub authorize_from :
      List ForwardConfig
      → List ClientList
      → AuthorizedClientKey
      → ℕ
      → String
      → ℕ
      → Option (AuthResult × List ClientList)
  authorize_from [] lists key port token now = some (no_auth, lists)
  authorize_from (f ∷ fs) [] key port token now =
      let rest = authorize_from fs [] key port token now in
      if not (f.bind_port == port)
      then rest
      else if (match_any_token_rules lib c f token).1
      then none
      else rest
  authorize_from (f ∷ fs) (list ∷ lists) key port token now =
      let rest = map_option (keep_list list) (authorize_from fs lists key port token now) in
      let (result, matched) = match_any_token_rules lib c f token in
      if not (f.bind_port == port)
      then rest
      else if matched
      then map_option (put_list lists) (grant f list key result now)
      else rest

  unfoldable pub authorize_client :
      List ClientList → String → String → ℕ → String → ℕ → Option (AuthResult × List ClientList)
  authorize_client lists ip client_id port token now =
      authorize_from c.forward_configs lists (record { ip = ip; client_id = client_id }) port token
        now

-- `authClient`: no client id, and only whether it is authorised.
unfoldable pub auth_client :
    Library → Config → List ClientList → AuthConfig → String → ℕ → Option (Bool × List ClientList)
auth_client lib c lists req ip now =
    map_option (λ (r : AuthResult × List ClientList). (r.0.authorized, r.1))
      (authorize_client lib c lists ip "" req.port req.token now)

-- A fresh map for each forward configuration.
unfoldable pub init_client_list : Config → List ClientList
init_client_list c = map (λ f. []) c.forward_configs
