-- ===== src/Utils.antt =====
-- utils/types.go: the client's authentication request.
use connauth.Common.{ℕ, ◌/◌, String, Bool, not, ◌&&◌, string_eq, nat_eq, ◌==◌, ℤ, pos}
use connauth.Protocol.{second}

pub record AuthConfig : Type 0 where
  pub token : String
  pub port : ℕ
  pub timestamp : ℤ
  pub nonce : String

unfoldable pub is_valid : AuthConfig → Bool
is_valid r = not (r.token == "") && not (r.port == 0)

unfoldable pub new_auth_config : String → ℕ → ℕ → AuthConfig
new_auth_config token port now = record {
  token = token;
  port = port;
  timestamp = pos (now / second);
  nonce = "";
}
