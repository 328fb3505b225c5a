-- ===== src/Client/Auth.antt =====
-- cmd/authclient/auth.go: one authentication, as what the client sends and how it ends. The network is
-- what it answers: `Network` says what each call of package net does.
pub mod Binding
use connauth.Common.{
  take, ℕ, ◌+◌, ◌/◌, String, Bool, not, ◌||◌, Option, none, some, List, [], ◌∷◌, string_eq, nat_eq,
  ◌==◌, leb, ℤ, pos, pos_part, neg_part, Result, ok, err, refuse_if, if◌then◌else◌, ◌>>=◌, ◌>>◌,
}
use connauth.World.{World}
use connauth.Protocol.{
  max_packet_size, ChallengeRequest, Challenge, ChallengeResponse, Error, second,
  message_type_challenge, message_type_challenge_request, message_type_challenge_response,
  validate_envelope,
}
use connauth.Protocol.Crypto.{Random, seal, open_message, random_nonce_string}
use connauth.Client.Config.{ServerConfig}
use connauth.Utils.{AuthConfig}

pub data AuthError : Type 0 where
  cannot_resolve dial_failed nonce_failed build_request_failed write_request_failed : AuthError
  read_failed binding_mismatch build_response_failed write_response_failed : AuthError
  bad_envelope envelope_mismatch open_failed bad_challenge : AuthError
  invalid_type challenge_expired empty_server_nonce : AuthError

abbrev pub or_fail {ℓ} : {A : Type ℓ} → Option A → AuthError → Result AuthError A
or_fail none e = err e
or_fail (some a) e = ok a

abbrev pub or_fail_error {ℓ} : {A : Type ℓ} → Result Error A → AuthError → Result AuthError A
or_fail_error (err x) e = err e
or_fail_error (ok a) e = ok a

-- The readings of time.Now(): at the request, at the challenge's check, and at the response.
pub record Clock : Type 0 where
  pub at_request : ℕ
  pub at_challenge : ℕ
  pub at_response : ℕ

-- `challenge.ExpiresAt <= time.Now().Unix()`
abbrev pub has_expired : ℤ → ℕ → Bool
has_expired expires_at now = leb (pos_part expires_at) (now / second + neg_part expires_at)

module _ (w : World) where
  open w use {crypto, codec}

  abbrev pub Byte : Type 0
  Byte = crypto.Byte

  abbrev pub Marshal : Type 0
  Marshal = Option (List Byte)

  -- `sealMessage`, behind the json.Marshal of the message
  unfoldable pub seal_message :
      ServerConfig → Random crypto → Marshal → AuthError → Result AuthError (List Byte)
  seal_message server random marshalled failure = do
    body ← or_fail marshalled failure
    sealed ←
        or_fail_error
          (seal crypto random (crypto.bytes server.key)
            (record { key_id = server.key_id; server_id = server.server_id }) body)
          failure
    or_fail
        (codec.marshal_envelope
          (record { key_id = server.key_id; server_id = server.server_id; payload = sealed }))
        failure

  unfoldable pub open_challenge : ServerConfig → ℕ → List Byte → Result AuthError Challenge
  open_challenge server now packet = do
    env ← or_fail (codec.unmarshal_envelope packet) bad_envelope
    or_fail_error (validate_envelope env) bad_envelope
    refuse_if (not (env.key_id == server.key_id) || not (env.server_id == server.server_id))
        envelope_mismatch
    plain ←
        or_fail_error
          (open_message crypto (crypto.bytes server.key)
            (record { key_id = env.key_id; server_id = env.server_id }) env.payload)
          open_failed
    challenge ← or_fail (codec.unmarshal_challenge plain) bad_challenge
    refuse_if (not (challenge.type == message_type_challenge)) invalid_type
    refuse_if (has_expired challenge.expires_at now) challenge_expired
    refuse_if (challenge.server_nonce == "") empty_server_nonce
    ok challenge

  abbrev pub request_message : ServerConfig → String → ℕ → String → ℕ → ChallengeRequest
  request_message server client_id port client_nonce now = record {
    type = message_type_challenge_request;
    server_id = server.server_id;
    client_id = client_id;
    port = port;
    client_nonce = client_nonce;
    timestamp = pos (now / second);
  }

  abbrev pub response_message :
      ServerConfig → String → AuthConfig → String → String → ℕ → ChallengeResponse
  response_message server client_id req client_nonce server_nonce now = record {
    type = message_type_challenge_response;
    server_id = server.server_id;
    client_id = client_id;
    port = req.port;
    client_nonce = client_nonce;
    server_nonce = server_nonce;
    token = req.token;
    timestamp = pos (now / second);
  }

  unfoldable pub build_request :
      ServerConfig
      → String
      → AuthConfig
      → Clock
      → Random crypto
      → String
      → Result AuthError (List Byte)
  build_request server client_id req clock random client_nonce =
      seal_message server random
        (codec.marshal_request
          (request_message server client_id req.port client_nonce clock.at_request))
        build_request_failed

  -- From the packet that was read to the response: the challenge has to open and to be the one asked for.
  unfoldable pub build_response :
      ServerConfig
      → String
      → AuthConfig
      → Clock
      → Random crypto
      → String
      → List Byte
      → Result AuthError (List Byte)
  build_response server client_id req clock random client_nonce packet = do
    challenge ← open_challenge server clock.at_challenge packet
    refuse_if
        (not (challenge.server_id == server.server_id)
          || (not (challenge.client_id == client_id)
              || (not (challenge.port == req.port)
                  || not (challenge.client_nonce == client_nonce))))
        binding_mismatch
    seal_message server random
        (codec.marshal_response (
          response_message server client_id req client_nonce challenge.server_nonce
            clock.at_response))
        build_response_failed

  pub record Network : Type 0 where
    pub resolves : Bool
    pub dials : Bool
    pub writes : List Byte → Bool
    -- what is read within five seconds of the packet that was written
    pub reads : List Byte → Option (List Byte)

  -- The packets that were sent, and how the call ended.
  pub record AuthRun : Type 0 where
    pub sent : List (List Byte)
    pub result : Result AuthError (Unit {0})

  abbrev pub stop : List (List Byte) → AuthError → AuthRun
  stop sent e = record { sent = sent; result = err e }

  abbrev pub send_response : Network → List Byte → Result AuthError (List Byte) → AuthRun
  send_response net request (err e) = stop (request ∷ []) e
  send_response net request (ok response) =
      if net.writes response
      then record { sent = request ∷ response ∷ []; result = ok tt }
      else stop (request ∷ []) write_response_failed

  -- `random_nonce`, `random_request` and `random_response` are the random source at its three calls.
  unfoldable pub auth :
      ServerConfig
      → String
      → AuthConfig
      → Network
      → Clock
      → Random crypto
      → Random crypto
      → Random crypto
      → AuthRun
  auth server client_id req net clock random_nonce random_request random_response =
      if not net.resolves
      then stop [] cannot_resolve
      else if not net.dials
      then stop [] dial_failed
      else elim (random_nonce_string crypto random_nonce) [
        | err e ↦ stop [] nonce_failed
        | ok client_nonce ↦
            elim (build_request server client_id req clock random_request client_nonce) [
              | err e ↦ stop [] e
              | ok request ↦
                  if not (net.writes request)
                  then stop [] write_request_failed
                  else elim (net.reads request) [
                    | none ↦ stop (request ∷ []) read_failed
                    | some datagram ↦ send_response net request (
                        build_response server client_id req clock random_response client_nonce
                          (take max_packet_size datagram))
                  ]
            ]
      ]
