-- ===== src/Server/System/Origin.antt =====
-- What the single steps of the server do to the entries of the client maps: an entry that is there
-- afterwards was there before, or `authorizeClient` put it there for the client that it authorised.
use connauth.Common.{
  ℕ, zero, suc, ◌+◌, ◌≡◌, ◌≢◌, ◌⊎◌, inl, inr, ap, sym, ◌*◌, String, true, false, some, List, [],
  ◌∷◌, arith, string_eq, nat_eq, ◌==◌, lookup, lookup-insert, map, Distinct, Bool-cases,
  Option-cases,
}
use mathlib.Core.Path.{subst}
use connauth.Protocol.{second}
use connauth.Library.{Library}
use connauth.Server.Config.{Config, ForwardConfig}
use connauth.Server.Access.{AuthResult, match_any_token_rules}
use connauth.Server.Access.Rules.{match_any-authorized}
use connauth.Server.Clients.{
  AuthorizedClientKey, AuthorizedClientState, ClientList, client_eq, client_eqb_iff,
  cleanup_authorized_client_list, scan_clients, is_ip_authed, grant, authorize_from,
}
use connauth.Server.Clients.Lists.{lookup-cleanup, refresh_client_list-eq}
use connauth.Server.Clients.Grant.Everywhere.{Served, entry_at, serves, serving}
use connauth.Server.System.{refresh_at, check_at}

module _ (key : AuthorizedClientKey) (st : AuthorizedClientState) where
  lookup-cleanup-some :
      (now : ℕ) (l : ClientList)
      → Distinct l
      → lookup key (cleanup_authorized_client_list l now) ≡ some st
      → lookup key l ≡ some st
  lookup-cleanup-some now l d h = ground (arith, h, lookup-cleanup key now l d)

  lookup-scan_clients-some :
      (l : ClientList) (ip : String) (now : ℕ)
      → Distinct l
      → lookup key (scan_clients l ip now).1 ≡ some st
      → lookup key l ≡ some st
  unfolding scan_clients lookup
  lookup-scan_clients-some [] ip now d h = h
  lookup-scan_clients-some ((k, s) ∷ rest) ip now d h =
      ground (arith, h, d.0, client_eqb_iff k key, lookup-scan_clients-some rest ip now d.1)

  pub refresh_at-entry :
      (i j now : ℕ) (fs : List ForwardConfig) (ls : List ClientList)
      → Served fs ls
      → entry_at i key (refresh_at j now ls) ≡ some st
      → entry_at i key ls ≡ some st
  unfolding refresh_at
  refresh_at-entry i j now [] [] s h = h
  refresh_at-entry i j now [] (l ∷ ls) s h = absurd s
  refresh_at-entry i j now (f ∷ fs) [] s h = absurd s
  refresh_at-entry zero zero now (f ∷ fs) (l ∷ ls) s h =
      lookup-cleanup-some now l s.1.distinct (rw (← refresh_client_list-eq l now) h)
  refresh_at-entry (suc i) zero now (f ∷ fs) (l ∷ ls) s h = h
  refresh_at-entry zero (suc j) now (f ∷ fs) (l ∷ ls) s h = h
  refresh_at-entry (suc i) (suc j) now (f ∷ fs) (l ∷ ls) s h = refresh_at-entry i j now fs ls s.2 h

  is_ip_authed-entry :
      (lib : Library) (c : Config) (f : ForwardConfig) (l : ClientList) (ip : String) (now : ℕ)
      → Distinct l
      → lookup key (is_ip_authed lib c f l ip now).1 ≡ some st
      → lookup key l ≡ some st
  unfolding is_ip_authed
  is_ip_authed-entry lib c f l ip now d h = ground (arith, h, lookup-scan_clients-some l ip now d)

  pub check_at-entry :
      (lib : Library) (c : Config) (i j : ℕ) (ip : String) (now : ℕ) (fs : List ForwardConfig)
      (ls : List ClientList)
      → Served fs ls
      → entry_at i key (check_at lib c j ip now fs ls) ≡ some st
      → entry_at i key ls ≡ some st
  unfolding check_at
  check_at-entry lib c i j ip now [] ls s h = h
  check_at-entry lib c i j ip now (f ∷ fs) [] s h = absurd s
  check_at-entry lib c zero zero ip now (f ∷ fs) (l ∷ ls) s h =
      is_ip_authed-entry lib c f l ip now s.1.distinct h
  check_at-entry lib c (suc i) zero ip now (f ∷ fs) (l ∷ ls) s h = h
  check_at-entry lib c zero (suc j) ip now (f ∷ fs) (l ∷ ls) s h = h
  check_at-entry lib c (suc i) (suc j) ip now (f ∷ fs) (l ∷ ls) s h =
      check_at-entry lib c i j ip now fs ls s.2 h

  pub init-entry : (fs : List ForwardConfig) (i : ℕ) → entry_at i key (map (λ f. []) fs) ≢ some st
  unfolding lookup
  init-entry [] i h = cc h
  init-entry (f ∷ fs) zero h = cc h
  init-entry (f ∷ fs) (suc i) h = init-entry fs i h

  module _ (lib : Library) (c : Config) (client : AuthorizedClientKey) (port : ℕ) (token : String)
      (now : ℕ) where
    -- An entry after `authorizeClient` was there before, or is the client's that was authorised, in
    -- the map of the first forward configuration that serves its port and token.
    abbrev Origin : List ForwardConfig → List ClientList → AuthResult → ℕ → Type 0
    Origin fs ls r i =
        (entry_at i key ls ≡ some st)
        ⊎ ((key ≡ client)
            × (r.authorized ≡ true)
            × (serving lib c client port token now fs ≡ some i))

    grant-entry :
        (f : ForwardConfig) (l l' : ClientList) (result r : AuthResult)
        → Distinct l
        → result.authorized ≡ true
        → grant f l client result now ≡ some (r, l')
        → lookup key l' ≡ some st
        → (lookup key l ≡ some st) ⊎ ((key ≡ client) × (r.authorized ≡ true))
    unfolding grant
    grant-entry f l l' result r d granted e h = elim (Bool-cases (client == key)) [
      | inl same ↦ elim (Bool-cases r.authorized) [
        | inl allowed ↦ inr (ground (arith, same, client_eqb_iff client key), allowed)
        | inr denied ↦ inl (lookup-cleanup-some now l d (ground (arith, granted, e, h, denied)))
      ]
      | inr other ↦ elim (Option-cases f.auth_expired_time) [
        | inl none' ↦ inl (lookup-cleanup-some now l d (ground (arith, e, h, none')))
        | inr (seconds, given) ↦
            let new : AuthorizedClientState = record { expires_at = now + seconds * second } in
            inl (
              lookup-cleanup-some now l d (
                ground (
                  arith,
                  e,
                  h,
                  other,
                  given,
                  client_eqb_iff client key,
                  lookup-insert client key new (cleanup_authorized_client_list l now),
                )))
      ]
    ]

    skip-Origin :
        (f : ForwardConfig) (fs : List ForwardConfig) (l : ClientList) (ls ls' : List ClientList)
        (r : AuthResult) (i : ℕ)
        → serves lib c client port token now f ≡ false
        → ((j : ℕ) → entry_at j key ls' ≡ some st → Origin fs ls r j)
        → entry_at i key (l ∷ ls') ≡ some st
        → Origin (f ∷ fs) (l ∷ ls) r i
    skip-Origin f fs l ls ls' r zero miss rest h = inl h
    skip-Origin f fs l ls ls' r (suc i) miss rest h = elim (rest i h) [
      | inl old ↦ inl old
      | inr (same, granted, at) ↦ inr (same, granted, ground (arith, miss, at))
    ]

    head-Origin :
        (f : ForwardConfig) (fs : List ForwardConfig) (l l' : ClientList) (ls : List ClientList)
        (r : AuthResult) (i : ℕ)
        → serves lib c client port token now f ≡ true
        → (lookup key l' ≡ some st
            → (lookup key l ≡ some st) ⊎ ((key ≡ client) × (r.authorized ≡ true)))
        → entry_at i key (l' ∷ ls) ≡ some st
        → Origin (f ∷ fs) (l ∷ ls) r i
    head-Origin f fs l l' ls r (suc i) hit first h = inl h
    head-Origin f fs l l' ls r zero hit first h = elim (first h) [
      | inl old ↦ inl old
      | inr (same, granted) ↦ inr (same, granted, ground (arith, hit))
    ]

    sure :
        (f : ForwardConfig)
        → serves lib c client port token now f ≡ true
        → (match_any_token_rules lib c f token).0.authorized ≡ true
    sure f hit = ground (arith, hit, match_any-authorized lib c f token)

    pub authorize_from-Origin :
        (fs : List ForwardConfig) (ls ls' : List ClientList) (r : AuthResult) (i : ℕ)
        → Served fs ls
        → authorize_from lib c fs ls client port token now ≡ some (r, ls')
        → entry_at i key ls' ≡ some st
        → Origin fs ls r i
    unfolding authorize_from
    authorize_from-Origin [] [] ls' r i s e h =
        let same : [] ≡ ls' = cc e in
        inl (subst (λ (m : List ClientList). entry_at i key m ≡ some st) (sym same) h)
    authorize_from-Origin [] (l ∷ ls) ls' r i s e h = absurd s
    authorize_from-Origin (f ∷ fs) [] ls' r i s e h = absurd s
    authorize_from-Origin (f ∷ fs) (l ∷ ls) ls' r i s e h =
        elim (Bool-cases (serves lib c client port token now f)) [
          | inl hit ↦
              let result = (match_any_token_rules lib c f token).0 in
              elim (Option-cases (grant f l client result now)) [
                | inl failed ↦ absurd (ground (arith, e, hit, failed))
                | inr ((r', l'), done) ↦
                    let same : (r', l' ∷ ls) ≡ (r, ls') = ground (arith, e, hit, done) in
                    let first : lookup key l' ≡ some st
                        → (lookup key l ≡ some st) ⊎ ((key ≡ client) × (r'.authorized ≡ true)) =
                      grant-entry f l l' result r' s.1.distinct (sure f hit) done in
                    let same_r : r' ≡ r = ap (λ (p : AuthResult × List ClientList). p.0) same in
                    let same_l : l' ∷ ls ≡ ls' =
                      ap (λ (p : AuthResult × List ClientList). p.1) same in
                    rw (← same_r) (head-Origin f fs l l' ls r' i hit first (rw same_l h))
              ]
          | inr miss ↦ elim (Option-cases (authorize_from lib c fs ls client port token now)) [
            | inl failed ↦ absurd (ground (arith, e, miss, failed))
            | inr ((r', ls''), done) ↦
                let same : (r', l ∷ ls'') ≡ (r, ls') = ground (arith, e, miss, done) in
                let same_r : r' ≡ r = ap (λ (p : AuthResult × List ClientList). p.0) same in
                let same_l : l ∷ ls'' ≡ ls' = ap (λ (p : AuthResult × List ClientList). p.1) same in
                rw (← same_r) (
                  skip-Origin f fs l ls ls'' r' i miss
                    (λ j g. authorize_from-Origin fs ls ls'' r' j s.2 done g) (rw same_l h))
          ]
        ]
