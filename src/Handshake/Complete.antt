-- ===== src/Handshake/Complete.antt =====
-- The steps of a handshake: what the client builds, the server answers, and the client reads the
-- server's challenge.
use connauth.Common.{
  ℕ, ◌+◌, ◌/◌, ◌<◌, ◌≤◌, ◌≡◌, refl, String, Option, none, some, List, arith, eq_iff, string_eq,
  nat_eq, length, pos, ok, >>=-eq-ok,
}
use connauth.World.{World}
use connauth.Protocol.{
  Context, ChallengeRequest, Challenge, ChallengeResponse, max_packet_size, challenge_ttl, second,
  message_type_challenge, message_type_challenge_request, message_type_challenge_response,
  validate_challenge_request, validate_challenge_response,
}
use connauth.Protocol.Crypto.{Random, random_nonce_string}
use connauth.Protocol.Crypto.Sealing.{IsRandom}
use connauth.Pending.{key_eq}
use connauth.Utils.{AuthConfig}
use connauth.Server.Config.Keys.{auth_key_by_id}
use connauth.Server.Handler.{
  Server, Clock, Opened, prepare_challenge, seal_challenge, issue_challenge,
  handle_challenge_request, prepare_response, answer_response, handle_challenge_response, dispatch,
  handle_auth_packet,
}
use connauth.Client.Config.{ServerConfig}
use connauth.Client.Auth.{
  AuthError, Clock as ClientClock, seal_message, open_challenge, request_message, response_message,
  build_request, build_response, build_request_failed, build_response_failed,
}
use connauth.Handshake.{
  IsSound, Sealed, seal_message-Sealed, seal_challenge-Sealed, open_packet-Sealed,
}

module _ (w : World) (sound : IsSound w) (sc : ServerConfig) where
  abbrev pub context : Context
  context = record { key_id = sc.key_id; server_id = sc.server_id }

  abbrev pub Message : List w.crypto.Byte → List w.crypto.Byte → Type 0
  Message body bytes = Sealed w sound sc.key context body bytes

  marshalled :
      (random : Random w.crypto) (o : Option (List w.crypto.Byte)) (bytes : List w.crypto.Byte)
      (failure : AuthError)
      → IsRandom w.crypto random
      → seal_message w sc random o failure ≡ ok bytes
      → (body : List w.crypto.Byte) × (o ≡ some body) × Message body bytes
  marshalled random none bytes failure good h = absurd (unfold seal_message in ground (arith, h))
  marshalled random (some body) bytes failure good h =
      (body, refl, seal_message-Sealed w sound sc random body bytes failure good h)

  -- What the server has of a sealed message.
  abbrev pub opened : (body bytes : List w.crypto.Byte) → Message body bytes → String → Opened w
  opened body bytes m type = record {
    env = record { key_id = sc.key_id; server_id = sc.server_id; payload = m.payload };
    key = sc.key;
    plain = body;
    type = type;
  }

  -- The client reads the challenge that the server sealed.
  pub open_challenge-seal_challenge :
      (random : Random w.crypto) (o : Opened w) (ch ch' : Challenge) (bytes : List w.crypto.Byte)
      (now : ℕ)
      → IsRandom w.crypto random
      → o.key ≡ sc.key
      → o.env.key_id ≡ sc.key_id
      → o.env.server_id ≡ sc.server_id
      → seal_challenge w random o ch ≡ ok bytes
      → open_challenge w sc now bytes ≡ ok ch'
      → ch' ≡ ch
  unfolding open_challenge
  open_challenge-seal_challenge random o ch ch' bytes now good k i s sealed h =
      let (body, encoded, m) = seal_challenge-Sealed w sound random o ch bytes good sealed in
      ground (arith, h, k, i, s, m.decodes, m.opens, sound.codec.challenge ch body encoded)

  module _ (client_id : String) (req : AuthConfig) (clock : ClientClock)
      (client_nonce : String) where
    abbrev pub first : ChallengeRequest
    first = request_message w sc client_id req.port client_nonce clock.at_request

    abbrev pub second_of : String → ChallengeResponse
    second_of server_nonce =
        response_message w sc client_id req client_nonce server_nonce clock.at_response

    pub build_request-Message :
        (random : Random w.crypto) (bytes : List w.crypto.Byte)
        → IsRandom w.crypto random
        → build_request w sc client_id req clock random client_nonce ≡ ok bytes
        → (body : List w.crypto.Byte) × (w.codec.marshal_request first ≡ some body)
          × Message body bytes
    unfolding build_request
    build_request-Message random bytes good h =
        marshalled random (w.codec.marshal_request first) bytes build_request_failed good h

    pub build_response-Message :
        (random : Random w.crypto) (packet bytes : List w.crypto.Byte) (server_nonce : String)
        → IsRandom w.crypto random
        → ((ch : Challenge)
            → open_challenge w sc clock.at_challenge packet ≡ ok ch
            → ch.server_nonce ≡ server_nonce)
        → build_response w sc client_id req clock random client_nonce packet ≡ ok bytes
        → (body : List w.crypto.Byte) × (w.codec.marshal_response (second_of server_nonce)
            ≡ some body)
          × Message body bytes
    unfolding build_response
    build_response-Message random packet bytes server_nonce good same h =
        let (ch, is, h₁) = >>=-eq-ok (open_challenge w sc clock.at_challenge packet) _ h in
        let written : seal_message w sc random
              (w.codec.marshal_response (second_of ch.server_nonce)) build_response_failed
            ≡ ok bytes =
          ground (arith, h₁) in
        rw (← same ch is) (
          marshalled random (w.codec.marshal_response (second_of ch.server_nonce)) bytes
            build_response_failed good written)

    module _ (s : Server) (server_clock : Clock) (peer : String)
        (random_nonce random_seal : Random w.crypto) where
      -- The server answers the client's request from its pending store on.
      pub request_answered :
          (body bytes : List w.crypto.Byte) (m : Message body bytes) (server_nonce : String)
          → w.codec.marshal_request first ≡ some body
          → 0 < length m.payload
          → length m.payload ≤ max_packet_size
          → sc.server_id ≡ s.config.server_id
          → auth_key_by_id w.lib s.config sc.key_id server_clock.at_key ≡ some sc.key
          → validate_challenge_request first server_clock.at_check ≡ ok tt
          → random_nonce_string w.crypto random_nonce ≡ ok server_nonce
          → handle_auth_packet w s server_clock random_nonce random_seal peer bytes
            ≡ some (
                issue_challenge w s server_clock random_seal
                  (opened body bytes m message_type_challenge_request)
                  (record {
                    pending_key = record {
                      ip = peer;
                      key_id = sc.key_id;
                      server_id = sc.server_id;
                      client_id = client_id;
                      port = req.port;
                      client_nonce = client_nonce;
                      server_nonce = server_nonce;
                    };
                    challenge = record {
                      type = message_type_challenge;
                      server_id = sc.server_id;
                      client_id = client_id;
                      port = req.port;
                      client_nonce = client_nonce;
                      server_nonce = server_nonce;
                      expires_at = pos ((server_clock.at_pending + challenge_ttl) / second);
                    };
                  }))
      unfolding handle_auth_packet dispatch handle_challenge_request prepare_challenge
      request_answered body bytes m server_nonce encoded nonempty fits same_server known timely
            nonce =
          ground (
            arith,
            open_packet-Sealed w sound s.config server_clock sc body bytes
                message_type_challenge_request m nonempty fits same_server known
                (sound.codec.request_type first body encoded),
            sound.codec.request first body encoded,
            timely,
            nonce,
            same_server,
            eq_iff sc.server_id s.config.server_id,
          )

      -- The server answers the client's response, up to its pending store.
      pub response_answered :
          (body bytes : List w.crypto.Byte) (m : Message body bytes) (server_nonce : String)
          → w.codec.marshal_response (second_of server_nonce) ≡ some body
          → 0 < length m.payload
          → length m.payload ≤ max_packet_size
          → sc.server_id ≡ s.config.server_id
          → auth_key_by_id w.lib s.config sc.key_id server_clock.at_key ≡ some sc.key
          → validate_challenge_response (second_of server_nonce) server_clock.at_check ≡ ok tt
          → handle_auth_packet w s server_clock random_nonce random_seal peer bytes
            ≡ answer_response w s server_clock peer
                (opened body bytes m message_type_challenge_response)
                (second_of server_nonce)
      unfolding handle_auth_packet dispatch handle_challenge_response prepare_response
      response_answered body bytes m server_nonce encoded nonempty fits same_server known timely =
          ground (
            arith,
            open_packet-Sealed w sound s.config server_clock sc body bytes
                message_type_challenge_response m nonempty fits same_server known
                (sound.codec.response_type (second_of server_nonce) body encoded),
            sound.codec.response (second_of server_nonce) body encoded,
            timely,
          )
