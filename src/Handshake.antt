-- ===== src/Handshake.antt =====
-- Both programs together: what cmd/authclient/auth.go sends, cmd/authserver/auth.go opens, and the
-- other way round.
pub mod Complete
pub mod Success
pub mod Connect
pub mod Forwarded
pub mod Timely
use connauth.Common.{
  ℕ, ◌<◌, ◌≤◌, ◌≡◌, refl, sym, ◌∙◌, String, Bool, true, false, not, Option, none, some, List, arith,
  eq_iff, string_eq, ◌==◌, length, Result, ok, err, refuse_if, ◌>>=◌, ◌>>◌, >>=-eq-ok,
  if◌then◌else◌,
}
use connauth.World.{World, IsCodec}
use connauth.Protocol.{
  Context, Envelope, Challenge, Error, max_packet_size, validate_field, validate_envelope,
}
use connauth.Protocol.Validation.{IsField, validate_field_iff, IsEnvelope, validate_envelope_iff}
use connauth.Protocol.Crypto.{Aead, Random, seal, open_message}
use connauth.Protocol.Crypto.Sealing.{IsAead, IsRandom, open_message-seal}
use connauth.Server.Config.{Config}
use connauth.Server.Config.Keys.{auth_key_by_id}
use connauth.Server.Handler.{
  Clock, Opened, Ignored, marshal_failed, seal_failed, or_ignore, or_ignore_error, open_packet,
  seal_challenge,
}
use connauth.Client.Config.{ServerConfig}
use connauth.Client.Auth.{AuthError, or_fail, or_fail_error, seal_message, open_challenge}

-- What the two programs rely on: encoding/json decodes what it encoded, and the ciphers open what they
-- sealed.
pub record IsSound (w : World) : Type 0 where
  pub codec : IsCodec w.codec
  pub aead :
      (key : List w.crypto.Byte) (gcm : Aead w.crypto.Byte)
      → w.crypto.aead key ≡ some gcm
      → IsAead gcm

module _ (w : World) (sound : IsSound w) where
  -- The text in the envelope of a sealed message: it opens to the message.
  pub record Sealed (key : String) (ctx : Context) (body bytes : List w.crypto.Byte) : Type 0 where
    pub payload : List w.crypto.Byte
    pub key_field : validate_field "key_id" ctx.key_id ≡ ok tt
    pub server_field : validate_field "server_id" ctx.server_id ≡ ok tt
    pub decodes :
        w.codec.unmarshal_envelope bytes
        ≡ some (record { key_id = ctx.key_id; server_id = ctx.server_id; payload = payload })
    pub opens : open_message w.crypto (w.crypto.bytes key) ctx payload ≡ ok body

  Sealed-of :
      (random : Random w.crypto) (key : String) (ctx : Context)
      (body payload bytes : List w.crypto.Byte)
      → IsRandom w.crypto random
      → seal w.crypto random (w.crypto.bytes key) ctx body ≡ ok payload
      → w.codec.marshal_envelope
          (record { key_id = ctx.key_id; server_id = ctx.server_id; payload = payload })
        ≡ some bytes
      → Sealed key ctx body bytes
  Sealed-of random key ctx body payload bytes good sealed encoded = record {
    payload = payload;
    key_field = unfold seal in ground (arith, sealed);
    server_field = unfold seal in ground (arith, sealed);
    decodes = sound.codec.envelope _ bytes encoded;
    opens =
        open_message-seal w.crypto random good (w.crypto.bytes key) ctx body payload
          (sound.aead (w.crypto.bytes key)) sealed;
  }

  -- What the client seals is in order as an envelope and opens to the message.
  pub seal_message-Sealed :
      (sc : ServerConfig) (random : Random w.crypto) (body bytes : List w.crypto.Byte)
      (failure : AuthError)
      → IsRandom w.crypto random
      → seal_message w sc random (some body) failure ≡ ok bytes
      → Sealed sc.key (record { key_id = sc.key_id; server_id = sc.server_id }) body bytes
  unfolding seal_message
  seal_message-Sealed sc random body bytes failure good h =
      let ctx : Context = record { key_id = sc.key_id; server_id = sc.server_id } in
      let (payload, sealed, encoded) =
        >>=-eq-ok (or_fail_error (seal w.crypto random (w.crypto.bytes sc.key) ctx body) failure) _
          h in
      Sealed-of random sc.key ctx body payload bytes good (ground (arith, sealed))
        (ground (arith, encoded))

  -- What the server seals is in order as an envelope and opens to the challenge's encoding.
  pub seal_challenge-Sealed :
      (random : Random w.crypto) (o : Opened w) (ch : Challenge) (bytes : List w.crypto.Byte)
      → IsRandom w.crypto random
      → seal_challenge w random o ch ≡ ok bytes
      → (body : List w.crypto.Byte) × (w.codec.marshal_challenge ch ≡ some body)
        × Sealed o.key (record { key_id = o.env.key_id; server_id = o.env.server_id }) body bytes
  unfolding seal_challenge
  seal_challenge-Sealed random o ch bytes good h =
      let ctx : Context = record { key_id = o.env.key_id; server_id = o.env.server_id } in
      let (body, encoded, h₁) =
        >>=-eq-ok (or_ignore (w.codec.marshal_challenge ch) marshal_failed) _ h in
      let (payload, sealed, h₂) =
        >>=-eq-ok
          (or_ignore_error (seal w.crypto random (w.crypto.bytes o.key) ctx body) seal_failed) _
          h₁ in
      (
        body,
        ground (arith, encoded),
        Sealed-of random o.key ctx body payload bytes good (ground (arith, sealed))
            (ground (arith, h₂)),
      )

  -- The server opens what was sealed for it under a key that it has.
  pub open_packet-Sealed :
      (c : Config) (clock : Clock) (sc : ServerConfig) (body bytes : List w.crypto.Byte)
      (type : String)
      (m : Sealed sc.key (record { key_id = sc.key_id; server_id = sc.server_id }) body bytes)
      → 0 < length m.payload
      → length m.payload ≤ max_packet_size
      → sc.server_id ≡ c.server_id
      → auth_key_by_id w.lib c sc.key_id clock.at_key ≡ some sc.key
      → w.codec.unmarshal_type body ≡ some type
      → open_packet w c clock bytes
        ≡ ok (record {
          env = record { key_id = sc.key_id; server_id = sc.server_id; payload = m.payload };
          key = sc.key;
          plain = body;
          type = type;
        })
  unfolding open_packet
  open_packet-Sealed c clock sc body bytes type m nonempty fits same_server known typed = ground (
    arith,
    m.decodes,
    m.opens,
    same_server,
    known,
    typed,
    eq_iff sc.server_id c.server_id,
    (validate_envelope_iff
          (record { key_id = sc.key_id; server_id = sc.server_id; payload = m.payload })).1
        (record {
          key_field = (validate_field_iff "key_id" sc.key_id).0 m.key_field;
          server_field = (validate_field_iff "server_id" sc.server_id).0 m.server_field;
          nonempty = nonempty;
          fits = fits;
        }),
  )
