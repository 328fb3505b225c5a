-- ===== src/Server/Handler.antt =====
-- The packet handlers of cmd/authserver/auth.go. They run one after the other on the UDP goroutine.
-- A packet that is dropped has a reason, which the source logs and never answers.
pub mod Open
pub mod Response
use connauth.Common.{
  ℕ, ◌+◌, ◌/◌, String, Bool, true, false, not, Option, none, some, List, [], ◌∷◌, string_eq, ◌==◌,
  pos, Result, ok, err, refuse_if, if◌then◌else◌, ◌>>=◌, ◌>>◌,
}
use connauth.World.{World}
use connauth.Protocol.{
  Context, Envelope, ChallengeRequest, Challenge, ChallengeResponse, Error, second, challenge_ttl,
  message_type_challenge, message_type_challenge_request, message_type_challenge_response,
  validate_envelope, validate_challenge_request, validate_challenge_response,
}
use connauth.Protocol.Crypto.{Random, seal, open_message, random_nonce_string}
use connauth.Pending.{PendingChallengeKey, PendingChallengeStore, add, consume}
use connauth.Server.Config.{Config}
use connauth.Server.Config.Keys.{auth_key_by_id}
use connauth.Server.Access.{AuthResult}
use connauth.Server.Clients.{ClientList, authorize_client}

-- `globalConfig`, `allClientList` and `pendingChallenges`.
pub record Server : Type 0 where
  pub config : Config
  pub clients : List ClientList
  pub pending : PendingChallengeStore

-- The readings of time.Now() in one run of the handler: at the key lookup, at the message's check, at
-- the pending store, and at the grant.
pub record Clock : Type 0 where
  pub at_key : ℕ
  pub at_check : ℕ
  pub at_pending : ℕ
  pub at_grant : ℕ

-- The messages by which the source says why it ignores a packet.
pub data Ignored : Type 0 where
  invalid_envelope server_mismatch unknown_key_id decrypt_failed invalid_payload : Ignored
  unknown_message_type invalid_request nonce_failed pending_limit marshal_failed : Ignored
  seal_failed envelope_failed invalid_response no_pending_challenge : Ignored

pub record AuthEvent : Type 0 where
  pub event : String
  pub source_ip : String
  pub client_id : String
  pub key_id : String
  pub port : ℕ
  pub result : String
  pub reason : String
  pub rule : Option AuthResult

pub data Outcome : Type 0 where
  ignored : Ignored → Outcome
  replied : Outcome
  logged : AuthEvent → Outcome

pub record Handled (Byte : Type 0) : Type 0 where
  pub server : Server
  pub reply : Option (List Byte)
  pub outcome : Outcome

abbrev pub or_ignore {ℓ} : {A : Type ℓ} → Option A → Ignored → Result Ignored A
or_ignore none e = err e
or_ignore (some a) e = ok a

abbrev pub or_ignore_error {ℓ} : {A : Type ℓ} → Result Error A → Ignored → Result Ignored A
or_ignore_error (err e) i = err i
or_ignore_error (ok a) i = ok a

module _ (w : World) where
  open w use {lib, crypto, codec}

  abbrev pub Byte : Type 0
  Byte = crypto.Byte

  -- A packet that has been opened: its envelope, the key, the payload and the payload's type.
  pub record Opened : Type 0 where
    pub env : Envelope Byte
    pub key : String
    pub plain : List Byte
    pub type : String

  -- The first half of `handleAuthPacket`.
  unfoldable pub open_packet : Config → Clock → List Byte → Result Ignored Opened
  open_packet c clock packet = do
    env ← or_ignore (codec.unmarshal_envelope packet) invalid_envelope
    or_ignore_error (validate_envelope env) invalid_envelope
    refuse_if (not (env.server_id == c.server_id)) server_mismatch
    key ← or_ignore (auth_key_by_id lib c env.key_id clock.at_key) unknown_key_id
    plain ←
        or_ignore_error
          (open_message crypto (crypto.bytes key)
            (record { key_id = env.key_id; server_id = env.server_id }) env.payload)
          decrypt_failed
    type ← or_ignore (codec.unmarshal_type plain) invalid_payload
    ok (record { env = env; key = key; plain = plain; type = type })

  -- A challenge request that is in order, and the challenge for it.
  pub record Prepared : Type 0 where
    pub pending_key : PendingChallengeKey
    pub challenge : Challenge

  unfoldable pub prepare_challenge :
      Config → Clock → Random crypto → String → Opened → Result Ignored Prepared
  prepare_challenge c clock random peer o = do
    req ← or_ignore (codec.unmarshal_request o.plain) invalid_request
    or_ignore_error (validate_challenge_request req clock.at_check) invalid_request
    refuse_if (not (req.server_id == c.server_id)) server_mismatch
    server_nonce ← or_ignore_error (random_nonce_string crypto random) nonce_failed
    ok (record {
      pending_key = record {
        ip = peer;
        key_id = o.env.key_id;
        server_id = req.server_id;
        client_id = req.client_id;
        port = req.port;
        client_nonce = req.client_nonce;
        server_nonce = server_nonce;
      };
      challenge = record {
        type = message_type_challenge;
        server_id = req.server_id;
        client_id = req.client_id;
        port = req.port;
        client_nonce = req.client_nonce;
        server_nonce = server_nonce;
        expires_at = pos ((clock.at_pending + challenge_ttl) / second);
      };
    })

  unfoldable pub seal_challenge : Random crypto → Opened → Challenge → Result Ignored (List Byte)
  seal_challenge random o challenge = do
    body ← or_ignore (codec.marshal_challenge challenge) marshal_failed
    sealed ←
        or_ignore_error
          (seal crypto random (crypto.bytes o.key)
            (record { key_id = o.env.key_id; server_id = o.env.server_id }) body)
          seal_failed
    or_ignore
        (codec.marshal_envelope
          (record { key_id = o.env.key_id; server_id = o.env.server_id; payload = sealed }))
        envelope_failed

  abbrev pub drop_packet : Server → Ignored → Handled Byte
  drop_packet s i = record { server = s; reply = none; outcome = ignored i }

  abbrev pub send_challenge : Server → Result Ignored (List Byte) → Handled Byte
  send_challenge s (err i) = drop_packet s i
  send_challenge s (ok resp) = record { server = s; reply = some resp; outcome = replied }

  -- From the pending store on: the challenge is remembered, sealed and sent.
  unfoldable pub issue_challenge : Server → Clock → Random crypto → Opened → Prepared → Handled Byte
  issue_challenge s clock random_seal o p =
      let (pending, taken) = add s.pending p.pending_key (clock.at_pending + challenge_ttl) in
      let s' = record s { pending = pending } in
      if not taken
      then drop_packet s' pending_limit
      else send_challenge s' (seal_challenge random_seal o p.challenge)

  -- `random_nonce` and `random_seal` are the random source at its two calls.
  unfoldable pub handle_challenge_request :
      Server → Clock → Random crypto → Random crypto → String → Opened → Handled Byte
  handle_challenge_request s clock random_nonce random_seal peer o =
      elim (prepare_challenge s.config clock random_nonce peer o) [
        | err i ↦ drop_packet s i
        | ok p ↦ issue_challenge s clock random_seal o p
      ]

  unfoldable pub prepare_response : Clock → Opened → Result Ignored ChallengeResponse
  prepare_response clock o = do
    resp ← or_ignore (codec.unmarshal_response o.plain) invalid_response
    or_ignore_error (validate_challenge_response resp clock.at_check) invalid_response
    ok resp

  abbrev pub response_key : String → Opened → ChallengeResponse → PendingChallengeKey
  response_key peer o resp = record {
    ip = peer;
    key_id = o.env.key_id;
    server_id = resp.server_id;
    client_id = resp.client_id;
    port = resp.port;
    client_nonce = resp.client_nonce;
    server_nonce = resp.server_nonce;
  }

  -- The log entry; the token is in none of its fields.
  unfoldable pub auth_event : String → Opened → ChallengeResponse → AuthResult → AuthEvent
  auth_event peer o resp r = record {
    event =
        if r.authorized
        then (if r.renewed then "auth_renewed" else "auth_success")
        else "auth_failed";
    source_ip = peer;
    client_id = resp.client_id;
    key_id = o.env.key_id;
    port = resp.port;
    result = if r.authorized then (if r.renewed then "renewed" else "success") else "failed";
    reason = if r.authorized then "" else "token_or_port_not_allowed";
    rule = if r.authorized then some r else none;
  }

  -- What follows a response whose challenge was pending. `none` is a panic.
  unfoldable pub grant_response :
      Server → Clock → String → Opened → ChallengeResponse → Option (Handled Byte)
  grant_response s clock peer o resp =
      elim (authorize_client lib s.config s.clients peer resp.client_id resp.port resp.token
        clock.at_grant) [
          | none ↦ none
          | some (result, clients) ↦ some (record {
            server = record s { clients = clients };
            reply = none;
            outcome = logged (auth_event peer o resp result);
          })
        ]

  unfoldable pub answer_response :
      Server → Clock → String → Opened → ChallengeResponse → Option (Handled Byte)
  answer_response s clock peer o resp =
      let (pending, honoured) = consume s.pending (response_key peer o resp) clock.at_pending in
      let s' = record s { pending = pending } in
      if not honoured
      then some (drop_packet s' no_pending_challenge)
      else grant_response s' clock peer o resp

  unfoldable pub handle_challenge_response :
      Server → Clock → String → Opened → Option (Handled Byte)
  handle_challenge_response s clock peer o = elim (prepare_response clock o) [
    | err i ↦ some (drop_packet s i)
    | ok resp ↦ answer_response s clock peer o resp
  ]

  unfoldable pub dispatch :
      Server → Clock → Random crypto → Random crypto → String → Opened → Option (Handled Byte)
  dispatch s clock random_nonce random_seal peer o =
      if o.type == message_type_challenge_request
      then some (handle_challenge_request s clock random_nonce random_seal peer o)
      else if o.type == message_type_challenge_response
      then handle_challenge_response s clock peer o
      else some (drop_packet s unknown_message_type)

  unfoldable pub handle_auth_packet :
      Server → Clock → Random crypto → Random crypto → String → List Byte → Option (Handled Byte)
  handle_auth_packet s clock random_nonce random_seal peer packet =
      elim (open_packet s.config clock packet) [
        | err i ↦ some (drop_packet s i)
        | ok o ↦ dispatch s clock random_nonce random_seal peer o
      ]
