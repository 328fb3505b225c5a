-- ===== src/Handshake/Timely.antt =====
-- What a checked client sends passes the server's checks of messages, if the clocks agree.
use Prim.Native.String.{len}
use connauth.Common.{
  ℕ, zero, suc, ◌*◌, ◌+◌, ◌/◌, ◌≤◌, ◌≡◌, ◌↔◌, refl, String, some, List, [], ◌∷◌, All, get_elem?,
  arith, eq_iff, ok, pos, string_eq, nat_eq, true,
}
use connauth.World.{World}
use connauth.Text
use connauth.Text.Bytes.{byte_len-len}
use connauth.Protocol.{
  second, message_type_challenge_request, message_type_challenge_response, timestamp_allowed,
  validate_challenge_request, validate_challenge_response,
}
use connauth.Protocol.Validation.{
  IsField, IsBase, validate_challenge_request_iff, validate_challenge_response_iff,
}
use connauth.Server.Config.Secrets
use connauth.Utils.{new_auth_config}
use connauth.Client.Config
use connauth.Client.Config.{AuthConfig, ServerConfig, config_check_valid}
use connauth.Client.Config.Sound.{IsReady, IsServer, config_check_valid_sound}
use connauth.Client.Auth.{request_message, response_message}

All-get_elem {ℓ} :
    {A : Type ℓ} (P : A → Type 0) (xs : List A) (i : ℕ) (x : A)
    → All P xs
    → get_elem? xs i ≡ some x
    → P x
All-get_elem P [] i x a h = cc h
All-get_elem P (y ∷ xs) zero x a h = let same : y ≡ x = cc h in rw (← same) a.0
All-get_elem P (y ∷ xs) (suc i) x a h = All-get_elem P xs i x a.1 h

-- The server's clock is at most 59 seconds ahead of the client's and at most 15 behind.
pub record AreClose (client_now server_now : ℕ) : Type 0 where
  pub ahead : server_now ≤ client_now + 59 * second
  pub behind : client_now ≤ server_now + 15 * second

timestamp_allowed_close :
    (client_now server_now : ℕ)
    → AreClose client_now server_now
    → timestamp_allowed (pos (client_now / second)) server_now ≡ true
unfolding timestamp_allowed
timestamp_allowed_close client_now server_now close = ground (arith, close.ahead, close.behind)

IsIdentifier-IsField :
    (u : Text.Unicode) (value : String) → Secrets.IsIdentifier u value → IsField value
IsIdentifier-IsField u value id = record {
  nonempty = id.nonempty;
  fits = ground (arith, id.fits, byte_len-len value);
}

request_type-IsField : IsField message_type_challenge_request
request_type-IsField = record {
  nonempty = λ e. ground (arith, (eq_iff message_type_challenge_request "").1 e);
  fits = ground arith;
}

response_type-IsField : IsField message_type_challenge_response
response_type-IsField = record {
  nonempty = λ e. ground (arith, (eq_iff message_type_challenge_response "").1 e);
  fits = ground arith;
}

module _ (w : World) (raw c : Config.Config) (passed : config_check_valid w.lib raw ≡ ok c)
    (i j : ℕ) (s : ServerConfig) (a : AuthConfig) (nonce : String) (client_now server_now : ℕ)
    (at_server : get_elem? c.servers i ≡ some s) (at_port : get_elem? s.auth_configs j ≡ some a)
    (client_nonce : IsField nonce) (close : AreClose client_now server_now) where
  configured-IsServer : IsServer w.lib s
  configured-IsServer =
      All-get_elem (IsServer w.lib) c.servers i s (config_check_valid_sound w.lib raw c passed).1
        at_server

  configured-IsReady : IsReady w.lib a
  configured-IsReady =
      All-get_elem (IsReady w.lib) s.auth_configs j a configured-IsServer.ports at_port

  base :
      (type : String)
      → IsField type
      → IsBase type s.server_id c.client_id a.port (pos (client_now / second)) server_now
  base type field = record {
    type_field = field;
    server_field = IsIdentifier-IsField w.lib.unicode s.server_id configured-IsServer.server_named;
    client_field =
        IsIdentifier-IsField w.lib.unicode c.client_id
          (config_check_valid_sound w.lib raw c passed).0;
    port_set = configured-IsReady.has_port;
    timely = timestamp_allowed_close client_now server_now close;
  }

  -- With a client configuration that passes the check, nonces of 1 to 128 bytes, and a server's
  -- clock at most 59 seconds ahead of the client's and at most 15 behind: the challenge request of
  -- every configured port passes the server's validation; and its response does exactly if the
  -- port's token has at most 128 bytes, which no check of a configuration asks for.
  pub messages_pass :
      (started : ℕ) (server_nonce : String)
      → IsField server_nonce
      → (validate_challenge_request
            (request_message w s c.client_id a.port nonce client_now)
            server_now
          ≡ ok tt)
        × ((validate_challenge_response
                (response_message w s c.client_id
                  (new_auth_config a.token a.port started)
                  nonce
                  server_nonce
                  client_now)
                server_now
              ≡ ok tt)
            ↔ (len a.token ≤ 128))
  unfolding new_auth_config
  messages_pass started server_nonce field =
      let request = request_message w s c.client_id a.port nonce client_now in
      let response =
        response_message w s c.client_id (new_auth_config a.token a.port started) nonce server_nonce
          client_now in
      (
        (validate_challenge_request_iff request server_now).1 (record {
          base = base message_type_challenge_request request_type-IsField;
          typed = refl;
          nonce_field = client_nonce;
        }),
        (
          λ h. ((validate_challenge_response_iff response server_now).0 h).token_field.fits,
          λ fits. (validate_challenge_response_iff response server_now).1 (record {
            base = base message_type_challenge_response response_type-IsField;
            typed = refl;
            client_nonce_field = client_nonce;
            server_nonce_field = field;
            token_field = record { nonempty = configured-IsReady.has_token; fits = fits };
          }),
        ),
      )
