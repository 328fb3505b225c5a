-- ===== src/Server/Clients/Grant/Everywhere.antt =====
-- `authorizeClient` (cmd/authserver/auth.go) over all forward configurations.
use connauth.Common.{
  ℕ, zero, suc, ◌+◌, ◌*◌, ◌<◌, ◌≡◌, ◌≢◌, refl, String, Bool, true, false, ◌&&◌, Option, none, some,
  List, [], ◌∷◌, arith, string_eq, nat_eq, ◌==◌, if◌then◌else◌, lookup, size, Bool-cases, inl, inr,
  get_elem?, All, map,
}
use connauth.Protocol.{second}
use connauth.Library.{Library}
use connauth.Server.Config.{Config, ForwardConfig}
use connauth.Server.Access.{AuthResult, no_auth, match_any_token_rules}
use connauth.Server.Access.Rules.{match_any-authorized}
use connauth.Server.Clients.{
  AuthorizedClientKey, AuthorizedClientState, ClientList, client_eq, max_authorized_clients,
  authorize_from, authorize_client, init_client_list, map_option,
}
use connauth.Server.Clients.Lists.{is_live, live}
use connauth.Server.Clients.Grant.{IsBounded, Outcome, grant-Outcome}

-- Each configuration has its expiry time and its own map, within the limit.
abbrev pub Served : List ForwardConfig → List ClientList → Type 0
Served [] [] = Unit
Served [] (l ∷ ls) = ⊥
Served (f ∷ fs) [] = ⊥
Served (f ∷ fs) (l ∷ ls) = (f.auth_expired_time ≢ none) × IsBounded l × Served fs ls

-- The entry of a client in the map at a position.
abbrev pub entry_at : ℕ → AuthorizedClientKey → List ClientList → Option AuthorizedClientState
entry_at i k [] = none
entry_at zero k (l ∷ ls) = lookup k l
entry_at (suc i) k (l ∷ ls) = entry_at i k ls

abbrev pub size_at : ℕ → List ClientList → ℕ
size_at i [] = 0
size_at zero (l ∷ ls) = size l
size_at (suc i) (l ∷ ls) = size_at i ls

module _ (lib : Library) (c : Config) (key : AuthorizedClientKey) (port : ℕ) (token : String)
    (now : ℕ) where
  -- Whether a configuration serves the port and lets the token in.
  abbrev pub serves : ForwardConfig → Bool
  serves f = f.bind_port == port && (match_any_token_rules lib c f token).1

  -- The position of the first configuration that serves the port and lets the token in.
  abbrev pub serving : List ForwardConfig → Option ℕ
  serving [] = none
  serving (f ∷ fs) = if serves f then some 0 else map_option suc (serving fs)

  -- What `authorizeClient` does to the client maps.
  pub record Effects (fs : List ForwardConfig) (ls : List ClientList) (r : AuthResult)
      (ls' : List ClientList) : Type 0 where
    -- every map stays within its limit
    pub served : Served fs ls'
    -- no other client gains or loses anything that has not expired
    pub others :
        (i : ℕ) (k : AuthorizedClientKey)
        → k ≢ key
        → live now (entry_at i k ls') ≡ live now (entry_at i k ls)
    -- this client gains nothing anywhere but in the first map that serves it
    pub elsewhere :
        (i : ℕ) → serving fs ≢ some i → live now (entry_at i key ls') ≡ live now (entry_at i key ls)
    -- refused, it gains nothing at all
    pub refused :
        r.authorized ≡ false
        → (i : ℕ) → live now (entry_at i key ls') ≡ live now (entry_at i key ls)
    -- authorised, it has a new entry there, which lasts for that configuration's expiry time
    pub granted :
        r.authorized ≡ true
        → (i : ℕ) × (f : ForwardConfig) × (seconds : ℕ) × (serving fs ≡ some i)
          × (get_elem? fs i ≡ some f)
          × (f.auth_expired_time ≡ some seconds)
          × (entry_at i key ls' ≡ some (record { expires_at = now + seconds * second }))
          × (r.renewed ≡ is_live now (entry_at i key ls))
    -- it is refused only where no configuration serves it, or the map there is full
    pub room :
        (i : ℕ) → serving fs ≡ some i → size_at i ls < max_authorized_clients → r.authorized ≡ true

  abbrev Granting : List ForwardConfig → List ClientList → Type 0
  Granting fs ls =
      (r : AuthResult) × (ls' : List ClientList) × (authorize_from lib c fs ls key port token now
        ≡ some (r, ls'))
      × Effects fs ls r ls'

  nothing : (r : AuthResult) → r ≡ no_auth → Effects [] [] r []
  nothing r e = record {
    served = tt;
    others = λ i k ne. refl;
    elsewhere = λ i ne. refl;
    refused = λ h i. refl;
    granted = λ h. absurd (ground (arith, e, h));
    room = λ i h s. absurd (ground (arith, h));
  }

  module _ (f : ForwardConfig) (fs : List ForwardConfig) (l : ClientList) (ls : List ClientList)
      (given : f.auth_expired_time ≢ none) (b : IsBounded l) (s : Served fs ls) where
    skip :
        (r : AuthResult) (ls' : List ClientList)
        → serves f ≡ false
        → Effects fs ls r ls'
        → Effects (f ∷ fs) (l ∷ ls) r (l ∷ ls')
    skip r ls' miss e = record {
      served = (given, b, e.served);
      others = elim [ zero ↦ λ k ne. refl | suc i ↦ e.others i ];
      elsewhere = elim [
        | zero ↦ λ ne. refl
        | suc i ↦ λ ne. e.elsewhere i (λ h. ne (ground (arith, miss, h)))
      ];
      refused = λ h. elim [ zero ↦ refl | suc i ↦ e.refused h i ];
      granted = λ h.
          let (i, g, seconds, at, is, secs, entry, renewed) = e.granted h in
          (suc i, g, seconds, ground (arith, miss, at), is, secs, entry, renewed);
      room = elim [
        | zero ↦ λ h. absurd (ground (arith, miss, h))
        | suc i ↦ λ h. e.room i (ground (arith, miss, h))
      ];
    }

    take_head :
        (result r : AuthResult) (l' : ClientList)
        → serves f ≡ true
        → Outcome f l key result now b r l'
        → Effects (f ∷ fs) (l ∷ ls) r (l' ∷ ls)
    take_head result r l' hit o = record {
      served = (given, o.bounded, s);
      others = elim [ zero ↦ o.others | suc i ↦ λ k ne. refl ];
      elsewhere = elim [ zero ↦ λ ne. absurd (ne (ground (arith, hit))) | suc i ↦ λ ne. refl ];
      refused = λ h. elim [ zero ↦ o.refused h | suc i ↦ refl ];
      granted = λ h.
          let (seconds, secs, entry, renewed) = o.granted h in
          (0, f, seconds, ground (arith, hit), refl, secs, entry, renewed);
      room = elim [ zero ↦ λ h. o.room | suc i ↦ λ h. absurd (ground (arith, hit, h)) ];
    }

    step_hit : serves f ≡ true → Granting (f ∷ fs) (l ∷ ls)
    unfolding authorize_from
    step_hit hit =
        let result = (match_any_token_rules lib c f token).0 in
        let (r, l', e, o) =
          grant-Outcome f l key result now b given
            (ground (arith, hit, match_any-authorized lib c f token)) in
        (r, l' ∷ ls, ground (arith, hit, e), take_head result r l' hit o)

    step_miss : serves f ≡ false → Granting fs ls → Granting (f ∷ fs) (l ∷ ls)
    unfolding authorize_from
    step_miss miss (r, ls', e, effects) =
        (r, l ∷ ls', ground (arith, miss, e), skip r ls' miss effects)

  authorize_from-Effects :
      (fs : List ForwardConfig) (ls : List ClientList) → Served fs ls → Granting fs ls
  unfolding authorize_from
  authorize_from-Effects [] [] s = (no_auth, [], refl, nothing no_auth refl)
  authorize_from-Effects [] (l ∷ ls) s = absurd s
  authorize_from-Effects (f ∷ fs) [] s = absurd s
  authorize_from-Effects (f ∷ fs) (l ∷ ls) s =
      let rest = authorize_from-Effects fs ls s.2 in
      elim (Bool-cases (serves f)) [
        | inl hit ↦ step_hit f fs l ls s.0 s.1 s.2 hit
        | inr miss ↦ step_miss f fs l ls s.0 s.1 s.2 miss rest
      ]

module _ (lib : Library) (c : Config) (ls : List ClientList) (ip client_id : String) where
  abbrev pub client : AuthorizedClientKey
  client = record { ip = ip; client_id = client_id }

  -- On maps that serve the configuration authorizeClient returns, and: every map stays within its
  -- limit; no other client gains or loses a live entry; this client gains one exactly if
  -- authorised, in the map of the first forward configuration that serves the port and lets the
  -- token in, with that configuration's expiry time; it is refused only where there is no such
  -- configuration or its map is full.
  pub authorize_client-Effects :
      (port : ℕ) (token : String) (now : ℕ)
      → Served c.forward_configs ls
      → (r : AuthResult) × (ls' : List ClientList) × (authorize_client lib c ls ip client_id port
            token now
          ≡ some (r, ls'))
        × Effects lib c client port token now c.forward_configs ls r ls'
  unfolding authorize_client
  authorize_client-Effects port token now s =
      authorize_from-Effects lib c client port token now c.forward_configs ls s

init-Served :
    (fs : List ForwardConfig)
    → All (λ (f : ForwardConfig). f.auth_expired_time ≢ none) fs
    → Served fs (map (λ f. []) fs)
init-Served [] a = tt
init-Served (f ∷ fs) a = (a.0, record { distinct = tt; limit = omega arith }, init-Served fs a.1)

pub init_client_list-Served :
    (c : Config)
    → All (λ (f : ForwardConfig). f.auth_expired_time ≢ none) c.forward_configs
    → Served c.forward_configs (init_client_list c)
unfolding init_client_list
init_client_list-Served c a = init-Served c.forward_configs a
