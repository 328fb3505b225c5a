-- ===== src/Protocol.antt =====
-- utils/authproto/protocol.go: the messages of the challenge-response protocol and their checks.
-- A time is a number of nanoseconds since 1970, and `len` counts the bytes of a text.
pub mod Validation
pub mod Crypto
use Prim.Native.String.{len}
use connauth.Common.{
  ℕ, ◌+◌, ◌*◌, String, Bool, List, ◌&&◌, not, ◌==◌, string_eq, nat_eq, ltb, leb, ℤ, pos_part,
  neg_part, length, Result, ◌>>=◌, ◌>>◌, refuse_if,
}

abbrev pub message_type_challenge_request : String
message_type_challenge_request = "challenge_request"

abbrev pub message_type_challenge : String
message_type_challenge = "challenge"

abbrev pub message_type_challenge_response : String
message_type_challenge_response = "challenge_response"

-- time.Second
abbrev pub second : ℕ
second = 1_000_000_000

abbrev pub max_past_skew : ℕ
max_past_skew = 60_000_000_000

abbrev pub max_future_skew : ℕ
max_future_skew = 15_000_000_000

abbrev pub challenge_ttl : ℕ
challenge_ttl = 30_000_000_000

abbrev pub nonce_bytes : ℕ
nonce_bytes = 32

abbrev pub max_packet_size : ℕ
max_packet_size = 4096

abbrev pub max_field_size : ℕ
max_field_size = 128

pub record Context : Type 0 where
  pub key_id : String
  pub server_id : String

pub record Envelope (Byte : Type 0) : Type 0 where
  pub key_id : String
  pub server_id : String
  pub payload : List Byte

pub record ChallengeRequest : Type 0 where
  pub type : String
  pub server_id : String
  pub client_id : String
  pub port : ℕ
  pub client_nonce : String
  pub timestamp : ℤ

pub record Challenge : Type 0 where
  pub type : String
  pub server_id : String
  pub client_id : String
  pub port : ℕ
  pub client_nonce : String
  pub server_nonce : String
  pub expires_at : ℤ

pub record ChallengeResponse : Type 0 where
  pub type : String
  pub server_id : String
  pub client_id : String
  pub port : ℕ
  pub client_nonce : String
  pub server_nonce : String
  pub token : String
  pub timestamp : ℤ

pub data Error : Type 0 where
  empty_field too_long : String → Error
  empty_port timestamp_outside invalid_type empty_payload payload_too_large : Error
  empty_key cipher_failed nonce_failed ciphertext_invalid decrypt_failed : Error

-- `time.Unix(ts, 0)` lies between `now - max_past_skew` and `now + max_future_skew`, both ends
-- included. What the source subtracts stands on the other side of each comparison.
unfoldable pub timestamp_allowed : ℤ → ℕ → Bool
timestamp_allowed ts now =
    leb (now + neg_part ts * second) (pos_part ts * second + max_past_skew)
    && leb (pos_part ts * second) (now + max_future_skew + neg_part ts * second)

unfoldable pub validate_field : String → String → Result Error (Unit {0})
validate_field name value = do
  refuse_if (value == "") (empty_field name)
  refuse_if (ltb max_field_size (len value)) (too_long name)

unfoldable pub validate_base : String → String → String → ℕ → ℤ → ℕ → Result Error (Unit {0})
validate_base msg_type server_id client_id port timestamp now = do
  validate_field "type" msg_type
  validate_field "server_id" server_id
  validate_field "client_id" client_id
  refuse_if (port == 0) empty_port
  refuse_if (not (timestamp_allowed timestamp now)) timestamp_outside

unfoldable pub validate_envelope : {Byte : Type 0} → Envelope Byte → Result Error (Unit {0})
validate_envelope e = do
  validate_field "key_id" e.key_id
  validate_field "server_id" e.server_id
  refuse_if (length e.payload == 0) empty_payload
  refuse_if (ltb max_packet_size (length e.payload)) payload_too_large

unfoldable pub validate_challenge_request : ChallengeRequest → ℕ → Result Error (Unit {0})
validate_challenge_request m now = do
  validate_base m.type m.server_id m.client_id m.port m.timestamp now
  refuse_if (not (m.type == message_type_challenge_request)) invalid_type
  validate_field "client_nonce" m.client_nonce

unfoldable pub validate_challenge_response : ChallengeResponse → ℕ → Result Error (Unit {0})
validate_challenge_response m now = do
  validate_base m.type m.server_id m.client_id m.port m.timestamp now
  refuse_if (not (m.type == message_type_challenge_response)) invalid_type
  validate_field "client_nonce" m.client_nonce
  validate_field "server_nonce" m.server_nonce
  validate_field "token" m.token
