-- ===== src/Server/Clients/Grant.antt =====
-- What `authorizeClient` (cmd/authserver/auth.go) grants: to whom, where, for how long, and what it
-- leaves alone.
pub mod Everywhere
use connauth.Common.{
  ℕ, suc, ◌+◌, ◌*◌, ◌<◌, ◌≤◌, ◌≡◌, ◌≢◌, refl, String, Bool, true, false, not, ◌&&◌, Option, none,
  some, List, [], ◌∷◌, arith, eq_iff, string_eq, nat_eq, ◌==◌, ltb, leb, if◌then◌else◌, Map, lookup,
  insert, size, Distinct, Bool-cases, Option-cases, inl, inr, lookup-insert, insert-Distinct,
  size-insert_new, size-insert_old,
}
use connauth.Protocol.{second}
use connauth.Server.Config.{Config, ForwardConfig}
use connauth.Server.Access.{AuthResult, no_auth}
use connauth.Server.Clients.{
  AuthorizedClientKey, AuthorizedClientState, ClientList, client_eq, client_eqb_iff,
  cleanup_authorized_client_list, grant, max_authorized_clients,
}
use connauth.Server.Clients.Lists.{is_live, live, lookup-cleanup, cleanup-Distinct, size-cleanup-le}

-- A client map within its limit.
pub record IsBounded (list : ClientList) : Type 0 where
  pub distinct : Distinct list
  pub limit : size list ≤ max_authorized_clients

module _ (f : ForwardConfig) (list : ClientList) (key : AuthorizedClientKey) (result : AuthResult)
    (now : ℕ) (b : IsBounded list) where
  abbrev swept : ClientList
  swept = cleanup_authorized_client_list list now

  -- What `grant` leaves, whether it grants or the map is full.
  pub record Outcome (r : AuthResult) (list' : ClientList) : Type 0 where
    pub bounded : IsBounded list'
    pub others :
        (k : AuthorizedClientKey) → k ≢ key → live now (lookup k list') ≡ live now (lookup k list)
    pub granted :
        r.authorized ≡ true
        → (seconds : ℕ) × (f.auth_expired_time ≡ some seconds)
          × (lookup key list' ≡ some (record { expires_at = now + seconds * second }))
          × (r.renewed ≡ is_live now (lookup key list))
    pub room : size list < max_authorized_clients → r.authorized ≡ true
    pub refused : r.authorized ≡ false → live now (lookup key list') ≡ live now (lookup key list)

  live-live : (o : Option AuthorizedClientState) → live now (live now o) ≡ live now o
  live-live o = ground arith

  abbrev entry : ℕ → AuthorizedClientState
  entry seconds = record { expires_at = now + seconds * second }

  abbrev exists : Bool
  exists = elim (lookup key swept) [ none ↦ false | some state ↦ true ]

  abbrev full : Bool
  full = not exists && (ltb 0 max_authorized_clients && leb max_authorized_clients (size swept))

  exists-is_live : exists ≡ is_live now (lookup key list)
  exists-is_live = ground (arith, lookup-cleanup key now list b.distinct)

  insert_limit :
      (seconds : ℕ)
      → full ≡ false
      → size (insert key (entry seconds) swept) ≤ max_authorized_clients
  insert_limit seconds room = elim (Option-cases (lookup key swept)) [
    | inl e ↦ ground (arith, room, e, size-insert_new key (entry seconds) swept e)
    | inr (old, e) ↦
        ground (
          arith,
          b.limit,
          size-cleanup-le now list,
          size-insert_old key (entry seconds) old swept e,
        )
  ]

  grant_full : (r : AuthResult) → r ≡ no_auth → full ≡ true → Outcome r swept
  grant_full r e no_room = record {
    bounded = record {
      distinct = cleanup-Distinct now list b.distinct;
      limit = omega (arith, b.limit, size-cleanup-le now list);
    };
    others = λ k ne. rw (lookup-cleanup k now list b.distinct) (live-live (lookup k list));
    granted = λ h. absurd (ground (arith, e, h));
    room = λ h. absurd (ground (arith, no_room, h, size-cleanup-le now list));
    refused = λ h. rw (lookup-cleanup key now list b.distinct) (live-live (lookup key list));
  }

  grant_room :
      (seconds : ℕ)
      → f.auth_expired_time ≡ some seconds
      → full ≡ false
      → result.authorized ≡ true
      → Outcome (record result { renewed = exists }) (insert key (entry seconds) swept)
  grant_room seconds given room yes' = record {
    bounded = record {
      distinct = insert-Distinct key (entry seconds) swept (cleanup-Distinct now list b.distinct);
      limit = insert_limit seconds room;
    };
    others = λ k ne. ground (
      arith,
      ne,
      client_eqb_iff key k,
      lookup-insert key k (entry seconds) swept,
      lookup-cleanup k now list b.distinct,
    );
    granted = λ h. (
      seconds,
      given,
      ground (arith, client_eqb_iff key key, lookup-insert key key (entry seconds) swept),
      exists-is_live,
    );
    room = λ h. yes';
    refused = λ h. absurd (ground (arith, h, yes'));
  }

  -- With the expiry time given, `grant` returns: it grants, or the map is full of live clients and
  -- nobody gains anything.
  pub grant-Outcome :
      f.auth_expired_time ≢ none
      → result.authorized ≡ true
      → (r : AuthResult) × (list' : ClientList) × (grant f list key result now ≡ some (r, list'))
        × Outcome r list'
  unfolding grant
  grant-Outcome given yes' = elim (Bool-cases full) [
    | inl no_room ↦ (no_auth, swept, ground (arith, no_room), grant_full no_auth refl no_room)
    | inr room ↦ elim (Option-cases f.auth_expired_time) [
      | inl e ↦ absurd (given e)
      | inr (seconds, e) ↦ (
        record result { renewed = exists },
        insert key (entry seconds) swept,
        ground (arith, room, e),
        grant_room seconds e room yes',
      )
    ]
  ]
