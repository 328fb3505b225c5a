-- ===== src/Protocol/Validation.antt =====
-- What the checks of utils/authproto/protocol.go let through.
use Prim.Native.String.{len}
use connauth.Common.{
  ℕ, ◌+◌, ◌*◌, ◌≤◌, ◌<◌, ◌≡◌, ◌≢◌, ◌↔◌, String, true, arith, eq_iff, string_eq, ℤ, length, ok,
}
use connauth.Protocol.{
  ChallengeRequest, ChallengeResponse, Envelope, second, max_field_size, max_packet_size,
  message_type_challenge_request, message_type_challenge_response, timestamp_allowed,
  validate_field, validate_base, validate_envelope, validate_challenge_request,
  validate_challenge_response,
}

-- Two moments at which the same timestamp is accepted lie at most 75 seconds apart.
pub timestamp_allowed_window :
    (ts : ℤ) (early late : ℕ)
    → timestamp_allowed ts early ≡ true
    → timestamp_allowed ts late ≡ true
    → late ≤ early + 75 * second
unfolding timestamp_allowed
timestamp_allowed_window ts early late p q = ground arith

-- A field that is neither empty nor longer than 128 bytes.
pub record IsField (value : String) : Type 0 where
  pub nonempty : value ≢ ""
  pub fits : len value ≤ max_field_size

pub validate_field_iff : (name value : String) → (validate_field name value ≡ ok tt) ↔ IsField value
unfolding validate_field
validate_field_iff name value = (
  λ h. record { nonempty = ground (arith, h, eq_iff value ""); fits = ground (arith, h) },
  λ f. ground (arith, f.nonempty, f.fits, eq_iff value ""),
)

pub record IsBase (type server_id client_id : String) (port : ℕ) (ts : ℤ) (now : ℕ) : Type 0 where
  pub type_field : IsField type
  pub server_field : IsField server_id
  pub client_field : IsField client_id
  pub port_set : port ≢ 0
  pub timely : timestamp_allowed ts now ≡ true

IsField-of_ok : (name value : String) → validate_field name value ≡ ok tt → IsField value
IsField-of_ok name value h = (validate_field_iff name value).0 h

ok_of_IsField : (name value : String) → IsField value → validate_field name value ≡ ok tt
ok_of_IsField name value f = (validate_field_iff name value).1 f

module _ (t s c : String) (p : ℕ) (ts : ℤ) (now : ℕ) where
  pub validate_base_iff : (validate_base t s c p ts now ≡ ok tt) ↔ IsBase t s c p ts now
  unfolding validate_base
  validate_base_iff = (
    λ h. record {
      type_field = IsField-of_ok "type" t (ground (arith, h));
      server_field = IsField-of_ok "server_id" s (ground (arith, h));
      client_field = IsField-of_ok "client_id" c (ground (arith, h));
      port_set = ground (arith, h);
      timely = ground (arith, h);
    },
    λ b. ground (
      arith,
      b.port_set,
      b.timely,
      ok_of_IsField "type" t b.type_field,
      ok_of_IsField "server_id" s b.server_field,
      ok_of_IsField "client_id" c b.client_field,
    ),
  )

pub record IsRequest (m : ChallengeRequest) (now : ℕ) : Type 0 where
  pub base : IsBase m.type m.server_id m.client_id m.port m.timestamp now
  pub typed : m.type ≡ message_type_challenge_request
  pub nonce_field : IsField m.client_nonce

-- A challenge request passes exactly where it has its type, a port, a timestamp in the window, and
-- texts of 1 to 128 bytes.
pub validate_challenge_request_iff :
    (m : ChallengeRequest) (now : ℕ) → (validate_challenge_request m now ≡ ok tt) ↔ IsRequest m now
unfolding validate_challenge_request
validate_challenge_request_iff m now = (
  λ h. record {
    base =
        (validate_base_iff m.type m.server_id m.client_id m.port m.timestamp now).0
          (ground (arith, h));
    typed = ground (arith, h, eq_iff m.type message_type_challenge_request);
    nonce_field = IsField-of_ok "client_nonce" m.client_nonce (ground (arith, h));
  },
  λ r. ground (
    arith,
    r.typed,
    eq_iff m.type message_type_challenge_request,
    (validate_base_iff m.type m.server_id m.client_id m.port m.timestamp now).1 r.base,
    ok_of_IsField "client_nonce" m.client_nonce r.nonce_field,
  ),
)

pub record IsResponse (m : ChallengeResponse) (now : ℕ) : Type 0 where
  pub base : IsBase m.type m.server_id m.client_id m.port m.timestamp now
  pub typed : m.type ≡ message_type_challenge_response
  pub client_nonce_field : IsField m.client_nonce
  pub server_nonce_field : IsField m.server_nonce
  pub token_field : IsField m.token

-- A challenge response passes exactly where it has its type, a port, a timestamp in the window, and
-- texts of 1 to 128 bytes, the token among them.
pub validate_challenge_response_iff :
    (m : ChallengeResponse) (now : ℕ)
    → (validate_challenge_response m now ≡ ok tt) ↔ IsResponse m now
unfolding validate_challenge_response
validate_challenge_response_iff m now = (
  λ h. record {
    base =
        (validate_base_iff m.type m.server_id m.client_id m.port m.timestamp now).0
          (ground (arith, h));
    typed = ground (arith, h, eq_iff m.type message_type_challenge_response);
    client_nonce_field = IsField-of_ok "client_nonce" m.client_nonce (ground (arith, h));
    server_nonce_field = IsField-of_ok "server_nonce" m.server_nonce (ground (arith, h));
    token_field = IsField-of_ok "token" m.token (ground (arith, h));
  },
  λ r. ground (
    arith,
    r.typed,
    eq_iff m.type message_type_challenge_response,
    (validate_base_iff m.type m.server_id m.client_id m.port m.timestamp now).1 r.base,
    ok_of_IsField "client_nonce" m.client_nonce r.client_nonce_field,
    ok_of_IsField "server_nonce" m.server_nonce r.server_nonce_field,
    ok_of_IsField "token" m.token r.token_field,
  ),
)

pub record IsEnvelope {Byte : Type 0} (e : Envelope Byte) : Type 0 where
  pub key_field : IsField e.key_id
  pub server_field : IsField e.server_id
  pub nonempty : 0 < length e.payload
  pub fits : length e.payload ≤ max_packet_size

-- An envelope passes exactly where its key id and server id have 1 to 128 bytes and its payload 1
-- to 4096.
pub validate_envelope_iff :
    {Byte : Type 0} (e : Envelope Byte) → (validate_envelope e ≡ ok tt) ↔ IsEnvelope e
unfolding validate_envelope
validate_envelope_iff e = (
  λ h. record {
    key_field = IsField-of_ok "key_id" e.key_id (ground (arith, h));
    server_field = IsField-of_ok "server_id" e.server_id (ground (arith, h));
    nonempty = ground (arith, h);
    fits = ground (arith, h);
  },
  λ r. ground (
    arith,
    r.nonempty,
    r.fits,
    ok_of_IsField "key_id" e.key_id r.key_field,
    ok_of_IsField "server_id" e.server_id r.server_field,
  ),
)
