-- ===== src/Protocol/Crypto.antt =====
-- utils/authproto/crypto.go: sealing a payload under a key, bound to its key id and server id.
-- The ciphers and the random source are not the repository's code: they are the fields of `Crypto`.
pub mod Sealing
pub mod Binding
use Prim.Native.String.{◌++◌ as cat}
use connauth.Common.{
  ℕ, String, Bool, Option, none, some, List, ◌++◌, ltb, ◌==◌, nat_eq, length, take, drop, Result,
  ok, err, ◌>>=◌, ◌>>◌, refuse_if, if◌then◌else◌,
}
use connauth.Protocol.{
  Context, Error, empty_key, cipher_failed, nonce_failed, ciphertext_invalid, decrypt_failed,
  validate_field, nonce_bytes,
}

-- cipher.AEAD: `seal nonce plain aad` and `open nonce text aad`.
pub record Aead (Byte : Type 0) : Type 0 where
  pub nonce_size : ℕ
  pub seal : List Byte → List Byte → List Byte → List Byte
  pub open_sealed : List Byte → List Byte → List Byte → Option (List Byte)

-- `bytes` is the conversion `[]byte(s)`, `aead` the chain sha256.Sum256, aes.NewCipher and
-- cipher.NewGCM (`none` where one of them fails), `random n` fills n bytes from crypto/rand, and
-- `base64` is base64.RawURLEncoding.
pub record Crypto : Type 1 where
  pub Byte : Type 0
  pub bytes : String → List Byte
  pub aead : List Byte → Option (Aead Byte)
  pub base64 : List Byte → String

abbrev pub protocol_aad_prefix : String
protocol_aad_prefix = "connauth:challenge-auth"

-- The text behind `additionalData`, to the right.
unfoldable pub additional_text : Context → String
additional_text ctx = cat protocol_aad_prefix (cat ":" (cat ctx.key_id (cat ":" ctx.server_id)))

module _ (c : Crypto) where
  open c use {Byte, bytes, aead, base64}

  unfoldable pub additional_data : Context → List Byte
  additional_data ctx = bytes (additional_text ctx)

  unfoldable pub new_gcm : List Byte → Result Error (Aead Byte)
  new_gcm key =
      if length key == 0
      then err empty_key
      else elim (aead key) [ none ↦ err cipher_failed | some gcm ↦ ok gcm ]

  -- `random` is the random source at the moment of the call: the bytes that it gives for a length.
  abbrev pub Random : Type 0
  Random = ℕ → Option (List Byte)

  abbrev pub read_random : Random → ℕ → Result Error (List Byte)
  read_random random n = elim (random n) [ none ↦ err nonce_failed | some b ↦ ok b ]

  unfoldable pub seal : Random → List Byte → Context → List Byte → Result Error (List Byte)
  seal random key ctx plain = do
    validate_field "key_id" ctx.key_id
    validate_field "server_id" ctx.server_id
    gcm ← new_gcm key
    nonce ← read_random random gcm.nonce_size
    ok (nonce ++ gcm.seal nonce plain (additional_data ctx))

  abbrev pub or_decrypt_failed : Option (List Byte) → Result Error (List Byte)
  or_decrypt_failed none = err decrypt_failed
  or_decrypt_failed (some plain) = ok plain

  -- `Open`
  unfoldable pub open_message : List Byte → Context → List Byte → Result Error (List Byte)
  open_message key ctx sealed = do
    validate_field "key_id" ctx.key_id
    validate_field "server_id" ctx.server_id
    gcm ← new_gcm key
    refuse_if (ltb (length sealed) gcm.nonce_size) ciphertext_invalid
    or_decrypt_failed (
        gcm.open_sealed (take gcm.nonce_size sealed) (drop gcm.nonce_size sealed)
          (additional_data ctx))

  unfoldable pub random_nonce_string : Random → Result Error String
  random_nonce_string random = do buf ← read_random random nonce_bytes; ok (base64 buf)
