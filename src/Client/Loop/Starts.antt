-- ===== src/Client/Loop/Starts.antt =====
-- A checked client configuration starts the loop of every port of every server.
use connauth.Common.{ℕ, ◌*◌, ◌≤◌, ◌≡◌, refl, some, List, [], ◌∷◌, ◌++◌, All, arith, ok}
use connauth.Library.{Library}
use connauth.Protocol.{second}
use connauth.Utils.{new_auth_config}
use connauth.Client.Config
use connauth.Client.Config.{AuthConfig, ServerConfig, config_check_valid}
use connauth.Client.Config.Sound.{IsReady, IsServer, config_check_valid_sound}
use connauth.Client.Start.{IsReady-Starts}
use connauth.Client.Loop.{PortStart, repeats, start_port, start_auth_of_server, start_all_auth}

-- The loop of a port, with a ticker of at least ten seconds.
pub data Started (s : ServerConfig) (now : ℕ) (c : AuthConfig) : PortStart → Type 0 where
  started :
      (interval : ℕ)
      → c.interval ≡ some interval
      → 10 ≤ interval
      → Started s now c (repeats s (new_auth_config c.token c.port now) (interval * second))

-- The ports of all servers, in the order of the configuration.
abbrev pub with_server : ServerConfig → List AuthConfig → List (ServerConfig × AuthConfig)
with_server s [] = []
with_server s (c ∷ cs) = (s, c) ∷ with_server s cs

abbrev pub all_ports : List ServerConfig → List (ServerConfig × AuthConfig)
all_ports [] = []
all_ports (s ∷ ss) = with_server s s.auth_configs ++ all_ports ss

abbrev pub AllStarted : ℕ → List (ServerConfig × AuthConfig) → List PortStart → Type 0
AllStarted now [] [] = Unit
AllStarted now [] (p ∷ ps) = ⊥
AllStarted now (x ∷ xs) [] = ⊥
AllStarted now ((s, c) ∷ xs) (p ∷ ps) = Started s now c p × AllStarted now xs ps

AllStarted-append :
    (now : ℕ) (xs ys : List (ServerConfig × AuthConfig)) (ps qs : List PortStart)
    → AllStarted now xs ps
    → AllStarted now ys qs
    → AllStarted now (xs ++ ys) (ps ++ qs)
AllStarted-append now [] ys [] qs a b = b
AllStarted-append now [] ys (p ∷ ps) qs a b = absurd a
AllStarted-append now (x ∷ xs) ys [] qs a b = absurd a
AllStarted-append now ((s, c) ∷ xs) ys (p ∷ ps) qs a b =
    (a.0, AllStarted-append now xs ys ps qs a.1 b)

module _ (lib : Library) (now : ℕ) where
  start_port-Started :
      (s : ServerConfig) (c : AuthConfig)
      → IsReady lib c
      → (p : PortStart) × (start_port s now c ≡ some p) × Started s now c p
  unfolding start_port
  start_port-Started s c r = (
    repeats s (new_auth_config c.token c.port now) (r.seconds * second),
    ground (arith, r.given, r.slow, IsReady-Starts lib c r now),
    started r.seconds r.given r.slow,
  )

  start_auth_of_server-Started :
      (s : ServerConfig) (cs : List AuthConfig)
      → All (IsReady lib) cs
      → (ps : List PortStart) × (start_auth_of_server s now cs ≡ some ps)
        × AllStarted now (with_server s cs) ps
  unfolding start_auth_of_server
  start_auth_of_server-Started s [] a = ([], refl, tt)
  start_auth_of_server-Started s (c ∷ cs) a =
      let (p, e, q) = start_port-Started s c a.0 in
      let (ps, e', qs) = start_auth_of_server-Started s cs a.1 in
      (p ∷ ps, ground (arith, e, e'), (q, qs))

  start_all_auth-Started :
      (ss : List ServerConfig)
      → All (IsServer lib) ss
      → (ps : List PortStart) × (start_all_auth now ss ≡ some ps) × AllStarted now (all_ports ss) ps
  unfolding start_all_auth
  start_all_auth-Started [] a = ([], refl, tt)
  start_all_auth-Started (s ∷ ss) a =
      let (ps, e, q) = start_auth_of_server-Started s s.auth_configs a.0.ports in
      let (qs, e', q') = start_all_auth-Started ss a.1 in
      (
        ps ++ qs,
        ground (arith, e, e'),
        AllStarted-append now (with_server s s.auth_configs) (all_ports ss) ps qs q q',
      )

  -- A client.
  pub config_check_valid-AllStarted :
      (c d : Config.Config)
      → config_check_valid lib c ≡ ok d
      → (ps : List PortStart) × (start_all_auth now d.servers ≡ some ps)
        × AllStarted now (all_ports d.servers) ps
  config_check_valid-AllStarted c d h =
      start_all_auth-Started d.servers (config_check_valid_sound lib c d h).1
