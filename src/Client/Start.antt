-- ===== src/Client/Start.antt =====
-- What `startAuthOfServer` (cmd/authclient/auth.go) relies on when it starts the loop of a port.
use connauth.Common.{ℕ, ◌≡◌, true, List, [], ◌∷◌, arith, eq_iff, string_eq, nat_eq, All, ok}
use connauth.Library.{Library}
use connauth.Utils.{is_valid, new_auth_config}
use connauth.Client.Config
use connauth.Client.Config.{AuthConfig, ServerConfig, config_check_valid}
use connauth.Client.Config.Sound.{IsReady, IsServer, config_check_valid_sound}

-- The loop of the port starts, whenever it does.
abbrev pub Starts : AuthConfig → Type 0
Starts c = (now : ℕ) → is_valid (new_auth_config c.token c.port now) ≡ true

module _ (lib : Library) where
  pub IsReady-Starts : (c : AuthConfig) → IsReady lib c → Starts c
  unfolding is_valid new_auth_config
  IsReady-Starts c r now = ground (arith, r.has_token, r.has_port, eq_iff c.token "")

  ports-Starts : (cs : List AuthConfig) → All (IsReady lib) cs → All Starts cs
  ports-Starts [] a = tt
  ports-Starts (c ∷ cs) a = (IsReady-Starts c a.0, ports-Starts cs a.1)

  servers-Starts :
      (ss : List ServerConfig)
      → All (IsServer lib) ss
      → All (λ (s : ServerConfig). All Starts s.auth_configs) ss
  servers-Starts [] a = tt
  servers-Starts (s ∷ ss) a = (ports-Starts s.auth_configs a.0.ports, servers-Starts ss a.1)

  -- In a client configuration that passes the check, the request that startAuthOfServer makes for
  -- each port is valid, so that the authentication loop of every port starts.
  pub config_check_valid-Starts :
      (c d : Config.Config)
      → config_check_valid lib c ≡ ok d
      → All (λ (s : ServerConfig). All Starts s.auth_configs) d.servers
  config_check_valid-Starts c d h = servers-Starts d.servers (config_check_valid_sound lib c d h).1
