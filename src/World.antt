-- ===== src/World.antt =====
-- Everything that the two programs call and do not implement, in one parameter: the library
-- functions, the ciphers and encoding/json.
use connauth.Common.{String, Option, List, some, ◌≡◌}
use connauth.Library.{Library}
use connauth.Protocol.{Envelope, ChallengeRequest, Challenge, ChallengeResponse}
use connauth.Protocol.Crypto.{Crypto}

-- json.Marshal and json.Unmarshal at the protocol's structs; `none` is an error. `unmarshal_type`
-- reads the anonymous struct with the one field `type`.
pub record Codec (Byte : Type 0) : Type 0 where
  pub marshal_envelope : Envelope Byte → Option (List Byte)
  pub unmarshal_envelope : List Byte → Option (Envelope Byte)
  pub marshal_request : ChallengeRequest → Option (List Byte)
  pub unmarshal_request : List Byte → Option ChallengeRequest
  pub marshal_challenge : Challenge → Option (List Byte)
  pub unmarshal_challenge : List Byte → Option Challenge
  pub marshal_response : ChallengeResponse → Option (List Byte)
  pub unmarshal_response : List Byte → Option ChallengeResponse
  pub unmarshal_type : List Byte → Option String

pub record World : Type 1 where
  pub lib : Library
  pub crypto : Crypto
  pub codec : Codec crypto.Byte

-- What encoding/json documents for these structs: decoding undoes encoding, and a decoder of one
-- field reads that field.
pub record IsCodec {Byte : Type 0} (j : Codec Byte) : Type 0 where
  pub envelope :
      (e : Envelope Byte) (b : List Byte)
      → j.marshal_envelope e ≡ some b
      → j.unmarshal_envelope b ≡ some e
  pub request :
      (m : ChallengeRequest) (b : List Byte)
      → j.marshal_request m ≡ some b
      → j.unmarshal_request b ≡ some m
  pub challenge :
      (m : Challenge) (b : List Byte)
      → j.marshal_challenge m ≡ some b
      → j.unmarshal_challenge b ≡ some m
  pub response :
      (m : ChallengeResponse) (b : List Byte)
      → j.marshal_response m ≡ some b
      → j.unmarshal_response b ≡ some m
  pub request_type :
      (m : ChallengeRequest) (b : List Byte)
      → j.marshal_request m ≡ some b
      → j.unmarshal_type b ≡ some m.type
  pub response_type :
      (m : ChallengeResponse) (b : List Byte)
      → j.marshal_response m ≡ some b
      → j.unmarshal_type b ≡ some m.type
