-- ===== src/Handshake/Success.antt =====
-- The handshake succeeds: a client with a key and a token of the server is let in.
use connauth.Common.{
  ℕ, ◌+◌, ◌*◌, ◌/◌, ◌<◌, ◌≤◌, ◌≡◌, refl, sym, ap, ◌∙◌, String, Bool, true, false, not, Option, none,
  some, List, arith, length, lookup, pos, Result, ok, err, get_elem?, if◌then◌else◌,
}
use connauth.World.{World}
use connauth.Protocol.{
  Envelope, ChallengeRequest, Challenge, ChallengeResponse, max_packet_size, challenge_ttl, second,
  message_type_challenge, message_type_challenge_request, message_type_challenge_response,
  validate_challenge_request, validate_challenge_response,
}
use connauth.Protocol.Crypto.{Random, random_nonce_string}
use connauth.Protocol.Crypto.Sealing.{IsRandom}
use connauth.Pending.{PendingChallengeKey, add, consume, key_eq}
use connauth.Pending.Replay.{consume-add}
use connauth.Utils.{AuthConfig}
use connauth.Server.Config.{Config, ForwardConfig}
use connauth.Server.Config.Keys.{auth_key_by_id}
use connauth.Server.Clients.{AuthorizedClientKey, max_authorized_clients}
use connauth.Server.Clients.Grant.Everywhere.{
  Served, entry_at, size_at, serving, authorize_client-Effects,
}
use connauth.Server.Handler.{
  Server, Clock, Handled, Opened, Ignored, Prepared, seal_challenge, issue_challenge,
  answer_response, grant_response, response_key, handle_auth_packet, drop_packet, send_challenge,
  pending_limit, logged, auth_event,
}
use connauth.Client.Config.{ServerConfig}
use connauth.Client.Auth.{Clock as ClientClock, build_request, build_response}
use connauth.Handshake.{IsSound}
use connauth.Handshake.Complete.{
  opened, first, second_of, open_challenge-seal_challenge, build_request-Message,
  build_response-Message, request_answered, response_answered,
}

-- The handler returned, and the client has an entry at the forward configuration of that position,
-- for its expiry time.
pub record LetIn {Byte : Type 0} (c : Config) (i : ℕ) (key : AuthorizedClientKey) (now : ℕ)
    (result : Option (Handled Byte)) : Type 0 where
  pub handled : Handled Byte
  pub returned : result ≡ some handled
  pub forward : ForwardConfig
  pub at : get_elem? c.forward_configs i ≡ some forward
  pub seconds : ℕ
  pub expiry : forward.auth_expired_time ≡ some seconds
  pub entry :
      entry_at i key handled.server.clients ≡ some (record { expires_at = now + seconds * second })

module _ (w : World) (s : Server) (clock : Clock) where
  -- A challenge that was sent is pending.
  record Issued (random : Random w.crypto) (o : Opened w) (p : Prepared w)
      (reply : List w.crypto.Byte) : Type 0 where
    pub taken : (add s.pending p.pending_key (clock.at_pending + challenge_ttl)).1 ≡ true
    pub sealed : seal_challenge w random o p.challenge ≡ ok reply
    pub server :
        (issue_challenge w s clock random o p).server
        ≡ record s { pending = (add s.pending p.pending_key (clock.at_pending + challenge_ttl)).0 }

  sent :
      (s' : Server) (r : Result Ignored (List w.crypto.Byte)) (taken : Bool)
      (reply : List w.crypto.Byte)
      → (if not taken then drop_packet w s' pending_limit else send_challenge w s' r).reply
        ≡ some reply
      → (taken ≡ true)
        × (r ≡ ok reply)
        × ((if not taken then drop_packet w s' pending_limit else send_challenge w s' r).server
            ≡ s')
  sent s' r false reply h = cc h
  sent s' (err e) true reply h = cc h
  sent s' (ok b) true reply h = (refl, cc h, refl)

  issue_challenge-Issued :
      (random : Random w.crypto) (o : Opened w) (p : Prepared w) (reply : List w.crypto.Byte)
      → (issue_challenge w s clock random o p).reply ≡ some reply
      → Issued random o p reply
  unfolding issue_challenge
  issue_challenge-Issued random o p reply h =
      let stored = add s.pending p.pending_key (clock.at_pending + challenge_ttl) in
      let parts =
        sent (record s { pending = stored.0 }) (seal_challenge w random o p.challenge) stored.1
          reply h in
      record { taken = parts.0; sealed = parts.1; server = parts.2 }

  -- With its challenge pending and a forward configuration that serves it, the response lets the client
  -- in.
  answer_response-LetIn :
      (peer : String) (o : Opened w) (resp : ChallengeResponse) (i : ℕ)
      → Served s.config.forward_configs s.clients
      → (consume s.pending (response_key w peer o resp) clock.at_pending).1 ≡ true
      → serving w.lib s.config
          (record { ip = peer; client_id = resp.client_id })
          resp.port
          resp.token
          clock.at_grant
          s.config.forward_configs
        ≡ some i
      → size_at i s.clients < max_authorized_clients
      → LetIn s.config i
          (record { ip = peer; client_id = resp.client_id })
          clock.at_grant
          (answer_response w s clock peer o resp)
  unfolding answer_response grant_response
  answer_response-LetIn peer o resp i served honoured at room =
      let (r, ls, e, effects) =
        authorize_client-Effects w.lib s.config s.clients peer resp.client_id resp.port resp.token
          clock.at_grant served in
      let allowed = effects.room i at room in
      let (j, f, seconds, at', is, secs, entry, renewed) = effects.granted allowed in
      let same : i ≡ j = cc (at, at') in
      rw same (record {
        handled = record {
          server = record s {
            clients = ls;
            pending = (consume s.pending (response_key w peer o resp) clock.at_pending).0;
          };
          reply = none;
          outcome = logged (auth_event w peer o resp r);
        };
        returned = ground (arith, honoured, e);
        forward = f;
        at = is;
        seconds = seconds;
        expiry = secs;
        entry = entry;
      })

module _ (w : World) (sound : IsSound w) (sc : ServerConfig) (client_id : String) (req : AuthConfig)
    (client_clock : ClientClock) (client_nonce : String)
    (random_request random_response : Random w.crypto)
    (request_filled : IsRandom w.crypto random_request)
    (response_filled : IsRandom w.crypto random_response) where
  -- The payload of the packet is within the limits of an envelope.
  abbrev pub FitsPacket : List w.crypto.Byte → Type 0
  FitsPacket bytes =
      (env : Envelope w.crypto.Byte)
      → w.codec.unmarshal_envelope bytes ≡ some env
      → (0 < length env.payload) × (length env.payload ≤ max_packet_size)

  abbrev pub key_of : String → String → PendingChallengeKey
  key_of peer server_nonce = record {
    ip = peer;
    key_id = sc.key_id;
    server_id = sc.server_id;
    client_id = client_id;
    port = req.port;
    client_nonce = client_nonce;
    server_nonce = server_nonce;
  }

  abbrev prepared : String → String → ℕ → Prepared w
  prepared peer server_nonce now = record {
    pending_key = key_of peer server_nonce;
    challenge = record {
      type = message_type_challenge;
      server_id = sc.server_id;
      client_id = client_id;
      port = req.port;
      client_nonce = client_nonce;
      server_nonce = server_nonce;
      expires_at = pos ((now + challenge_ttl) / second);
    };
  }

  abbrev pub the_request : ChallengeRequest
  the_request = first w sound sc client_id req client_clock client_nonce

  abbrev pub the_response : String → ChallengeResponse
  the_response = second_of w sound sc client_id req client_clock client_nonce

  module _ (s : Server) (clock later : Clock) (peer : String)
      (random_nonce random_seal random_nonce' random_seal' : Random w.crypto)
      (seal_filled : IsRandom w.crypto random_seal) (request reply response : List w.crypto.Byte)
      (server_nonce : String) (i : ℕ) where
    -- With a codec and ciphers that undo themselves: a client that knows a key of the server sends
    -- its request and, when it has read the reply, its response, both in time and within the size
    -- of a packet; its challenge is new to the server; and the first forward configuration that
    -- serves its port and token has room. Then the response is handled without a panic, and the
    -- client has an entry there for that configuration's expiry time.
    pub handshake-LetIn :
        (h : Handled w.crypto.Byte)
        → Served s.config.forward_configs s.clients
        → sc.server_id ≡ s.config.server_id
        → auth_key_by_id w.lib s.config sc.key_id clock.at_key ≡ some sc.key
        → auth_key_by_id w.lib s.config sc.key_id later.at_key ≡ some sc.key
        → build_request w sc client_id req client_clock random_request client_nonce ≡ ok request
        → FitsPacket request
        → validate_challenge_request the_request clock.at_check ≡ ok tt
        → random_nonce_string w.crypto random_nonce ≡ ok server_nonce
        → lookup (key_of peer server_nonce) s.pending.items ≡ none
        → handle_auth_packet w s clock random_nonce random_seal peer request ≡ some h
        → h.reply ≡ some reply
        → build_response w sc client_id req client_clock random_response client_nonce reply
          ≡ ok response
        → FitsPacket response
        → validate_challenge_response (the_response server_nonce) later.at_check ≡ ok tt
        → later.at_pending < clock.at_pending + challenge_ttl
        → serving w.lib s.config
            (record { ip = peer; client_id = client_id })
            req.port
            req.token
            later.at_grant
            s.config.forward_configs
          ≡ some i
        → size_at i s.clients < max_authorized_clients
        → LetIn s.config i
            (record { ip = peer; client_id = client_id })
            later.at_grant
            (handle_auth_packet w h.server later random_nonce' random_seal' peer response)
    handshake-LetIn h served same_server known known' built fits timely nonce fresh handled replied
          built' fits' timely' in_time at room =
        let (body, encoded, m) =
          build_request-Message w sound sc client_id req client_clock client_nonce random_request
            request request_filled built in
        let (low, high) = fits _ m.decodes in
        let o = opened w sound sc body request m message_type_challenge_request in
        let p = prepared peer server_nonce clock.at_pending in
        let issue : issue_challenge w s clock random_seal o p ≡ h = cc (
          request_answered w sound sc client_id req client_clock client_nonce s clock peer
              random_nonce random_seal body request m server_nonce encoded low high same_server
              known timely nonce,
          handled,
        ) in
        let issued = issue_challenge-Issued w s clock random_seal o p reply (cc (issue, replied)) in
        let (body', encoded', m') =
          build_response-Message w sound sc client_id req client_clock client_nonce random_response
            reply response server_nonce response_filled
            (λ ch is.
              ap (λ (c : Challenge). c.server_nonce)
                (open_challenge-seal_challenge w sound sc random_seal o p.challenge ch reply
                  client_clock.at_challenge seal_filled refl refl refl issued.sealed is))
            built' in
        let (low', high') = fits' _ m'.decodes in
        let o' = opened w sound sc body' response m' message_type_challenge_response in
        let s' : Server = record s {
          pending = (add s.pending p.pending_key (clock.at_pending + challenge_ttl)).0;
        } in
        let server : h.server ≡ s' =
          ap (λ (g : Handled w.crypto.Byte). g.server) (sym issue) ∙ issued.server in
        let answered =
          response_answered w sound sc client_id req client_clock client_nonce s' later peer
            random_nonce' random_seal' body' response m' server_nonce encoded' low' high'
            same_server known' timely' in
        let honoured =
          consume-add s.pending p.pending_key (clock.at_pending + challenge_ttl) later.at_pending
            fresh issued.taken in
        rw (server, answered)
          (answer_response-LetIn w s' later peer o' (the_response server_nonce) i served
            (ground (arith, honoured, in_time)) at room)
