-- ===== src/Server/Handler/Response.antt =====
-- Only a response to a challenge that is pending for the same peer authorises anyone, and the
-- challenge is used up by it.
use connauth.Common.{
  ℕ, ◌+◌, ◌<◌, ◌≡◌, ◌≢◌, refl, sym, ◌∙◌, ◌⊎◌, String, Bool, true, false, not, Option, none, some,
  List, string_eq, ◌==◌, eq_iff, Result, ok, err, arith, Bool-cases, Option-cases, inl, inr,
  if◌then◌else◌, lookup,
}
use connauth.World.{World}
use connauth.Protocol.{
  ChallengeResponse, challenge_ttl, message_type_challenge_request, message_type_challenge_response,
}
use connauth.Protocol.Crypto.{Random}
use connauth.Pending.{
  PendingChallengeKey, PendingChallenge, PendingChallengeStore, add, consume, key_eq, key_eqb_iff,
}
use connauth.Pending.Replay.{consume_lem, is_open}
use connauth.Server.Access.{AuthResult}
use connauth.Server.Clients.{authorize_client}
use connauth.Server.Handler.{
  Server, Clock, Handled, Opened, Ignored, AuthEvent, Prepared, drop_packet, send_challenge,
  open_packet, prepare_challenge, seal_challenge, issue_challenge, handle_challenge_request,
  prepare_response, response_key, grant_response, answer_response, handle_challenge_response,
  dispatch, handle_auth_packet, logged, no_pending_challenge, auth_event, unknown_message_type,
  pending_limit,
}

module _ (w : World) (s : Server) (clock : Clock) (peer : String) where
  abbrev H : Type 0
  H = Handled w.crypto.Byte

  -- The attempt that the response `resp` in the opened packet `o` makes: its challenge was pending for
  -- this peer and had not expired, it is gone now, nothing is sent, and the client maps are what
  -- `authorizeClient` makes of the response's token.
  pub record Attempt (o : Opened w) (resp : ChallengeResponse) (h : H) : Type 0 where
    pub item : PendingChallenge
    pub was_pending : lookup (response_key w peer o resp) s.pending.items ≡ some item
    pub not_expired : clock.at_pending < item.expires_at
    pub gone : lookup (response_key w peer o resp) h.server.pending.items ≡ none
    pub silent : h.reply ≡ none
    pub result : AuthResult
    pub authorized :
        authorize_client w.lib s.config s.clients peer resp.client_id resp.port resp.token
          clock.at_grant
        ≡ some (result, h.server.clients)
    pub entry : h.outcome ≡ logged (auth_event w peer o resp result)

  -- What the handler did is harmless: no client map changed, and nothing was logged as an attempt.
  pub record Harmless (h : H) : Type 0 where
    pub same_clients : h.server.clients ≡ s.clients
    pub no_attempt : (e : AuthEvent) → h.outcome ≢ logged e

  Harmless-drop :
      (p : PendingChallengeStore) (i : Ignored)
      → Harmless (drop_packet w (record s { pending = p }) i)
  Harmless-drop p i = record { same_clients = refl; no_attempt = λ e q. cc q }

  open_item :
      (now : ℕ) (o : Option PendingChallenge)
      → is_open now o ≡ true
      → (item : PendingChallenge) × (o ≡ some item) × (now < item.expires_at)
  open_item now none h = absurd (ground (arith, h))
  open_item now (some item) h = (item, refl, ground (arith, h))

  module _ (o : Opened w) (resp : ChallengeResponse) where
    abbrev key : PendingChallengeKey
    key = response_key w peer o resp

    abbrev after : PendingChallengeStore
    after = (consume s.pending key clock.at_pending).0

    after-gone : lookup key after.items ≡ none
    after-gone =
        ground (arith, (consume_lem s.pending key clock.at_pending).1 key, key_eqb_iff key key)

    grant-Attempt :
        (h : H)
        → (consume s.pending key clock.at_pending).1 ≡ true
        → grant_response w (record s { pending = after }) clock peer o resp ≡ some h
        → Attempt o resp h
    unfolding grant_response
    grant-Attempt h honoured e =
        let (item, at, alive) =
          open_item clock.at_pending (lookup key s.pending.items)
            (sym (consume_lem s.pending key clock.at_pending).0 ∙ honoured) in
        elim (Option-cases (
          authorize_client w.lib s.config s.clients peer resp.client_id resp.port resp.token
            clock.at_grant)) [
              | inl none' ↦ absurd (ground (arith, none', e))
              | inr ((r, ls'), some') ↦
                  let same : record {
                    server = record s { pending = after; clients = ls' };
                    reply = none;
                    outcome = logged (auth_event w peer o resp r);
                  }
                      ≡ h =
                    ground (arith, some', e) in
                  rw (← same) (record {
                    item = item;
                    was_pending = at;
                    not_expired = alive;
                    gone = after-gone;
                    silent = refl;
                    result = r;
                    authorized = some';
                    entry = refl;
                  })
            ]

    answer_cases :
        (h : H) → answer_response w s clock peer o resp ≡ some h → Harmless h ⊎ Attempt o resp h
    unfolding answer_response
    answer_cases h e = elim (Bool-cases (consume s.pending key clock.at_pending).1) [
      | inl honoured ↦ inr (grant-Attempt h honoured (rw honoured at e))
      | inr refused ↦
          let same : drop_packet w (record s { pending = after }) no_pending_challenge ≡ h =
            ground (arith, refused, e) in
          inl (rw (← same) (Harmless-drop after no_pending_challenge))
    ]

  -- The packet opened to a response in order, and the response made an attempt.
  pub record Answered (packet : List w.crypto.Byte) (h : H) : Type 0 where
    pub opened : Opened w
    pub response : ChallengeResponse
    pub opens : open_packet w s.config clock packet ≡ ok opened
    pub typed : opened.type ≡ message_type_challenge_response
    pub in_order : prepare_response w clock opened ≡ ok response
    pub attempt : Attempt opened response h

  request-Harmless :
      (random_nonce random_seal : Random w.crypto) (o : Opened w)
      → Harmless (handle_challenge_request w s clock random_nonce random_seal peer o)
  unfolding handle_challenge_request issue_challenge
  request-Harmless random_nonce random_seal o =
      go (prepare_challenge w s.config clock random_nonce peer o)
    where
      sent :
          (s' : Server) (r : Result Ignored (List w.crypto.Byte)) (taken : Bool)
          → s'.clients ≡ s.clients
          → Harmless (if not taken then drop_packet w s' pending_limit else send_challenge w s' r)
      sent s' r false e = record { same_clients = e; no_attempt = λ a q. cc q }
      sent s' (err i) true e = record { same_clients = e; no_attempt = λ a q. cc q }
      sent s' (ok b) true e = record { same_clients = e; no_attempt = λ a q. cc q }

      go :
          (r : Result Ignored (Prepared w))
          → Harmless (elim r [
            | err i ↦ drop_packet w s i
            | ok p ↦ issue_challenge w s clock random_seal o p
          ])
      go (err i) = Harmless-drop s.pending i
      go (ok p) =
          let added = add s.pending p.pending_key (clock.at_pending + challenge_ttl) in
          sent (record s { pending = added.0 }) (seal_challenge w random_seal o p.challenge) added.1
            refl

  module _ (packet : List w.crypto.Byte) where
    abbrev Cases : H → Type 0
    Cases h = Harmless h ⊎ Answered packet h

    response-Cases :
        (o : Opened w) (h : H)
        → open_packet w s.config clock packet ≡ ok o
        → o.type ≡ message_type_challenge_response
        → handle_challenge_response w s clock peer o ≡ some h
        → Cases h
    unfolding handle_challenge_response
    response-Cases o h opens typed = go (prepare_response w clock o) refl
      where
        go :
            (r : Result Ignored ChallengeResponse)
            → prepare_response w clock o ≡ r
            → elim r [
              | err i ↦ some (drop_packet w s i)
              | ok resp ↦ answer_response w s clock peer o resp
            ]
              ≡ some h
            → Cases h
        go (err i) e q =
            let same : drop_packet w s i ≡ h = cc q in inl (rw (← same) (Harmless-drop s.pending i))
        go (ok resp) e q = elim (answer_cases o resp h q) [
          | inl fine ↦ inl fine
          | inr attempt ↦ inr (record {
            opened = o;
            response = resp;
            opens = opens;
            typed = typed;
            in_order = e;
            attempt = attempt;
          })
        ]

    dispatch-Cases :
        (random_nonce random_seal : Random w.crypto) (o : Opened w) (h : H)
        → open_packet w s.config clock packet ≡ ok o
        → dispatch w s clock random_nonce random_seal peer o ≡ some h
        → Cases h
    unfolding dispatch
    dispatch-Cases random_nonce random_seal o h opens e =
        elim (Bool-cases (o.type == message_type_challenge_request)) [
          | inl request ↦
              let same : handle_challenge_request w s clock random_nonce random_seal peer o ≡ h =
                ground (arith, e, request) in
              inl (rw (← same) (request-Harmless random_nonce random_seal o))
          | inr other ↦ elim (Bool-cases (o.type == message_type_challenge_response)) [
            | inl response ↦
                response-Cases o h opens
                  ((eq_iff o.type message_type_challenge_response).0 response)
                  (ground (arith, e, other, response))
            | inr unknown ↦
                let same : drop_packet w s unknown_message_type ≡ h =
                  ground (arith, e, other, unknown) in
                inl (rw (← same) (Harmless-drop s.pending unknown_message_type))
          ]
        ]

    -- Whatever packet comes from a peer: either no client map changes and no attempt is logged, or
    -- the packet opened to a response in order whose challenge was pending for that very peer, key
    -- id, server, client, port and pair of nonces and had not expired; then the challenge is gone
    -- afterwards, nothing is sent, and the maps are what authorizeClient makes of the token.
    pub handle_auth_packet_cases :
        (random_nonce random_seal : Random w.crypto) (h : H)
        → handle_auth_packet w s clock random_nonce random_seal peer packet ≡ some h
        → Harmless h ⊎ Answered packet h
    unfolding handle_auth_packet
    handle_auth_packet_cases random_nonce random_seal h =
        go (open_packet w s.config clock packet) refl
      where
        go :
            (r : Result Ignored (Opened w))
            → open_packet w s.config clock packet ≡ r
            → elim r [
              | err i ↦ some (drop_packet w s i)
              | ok o ↦ dispatch w s clock random_nonce random_seal peer o
            ]
              ≡ some h
            → Cases h
        go (err i) e q =
            let same : drop_packet w s i ≡ h = cc q in inl (rw (← same) (Harmless-drop s.pending i))
        go (ok o) e q = dispatch-Cases random_nonce random_seal o h e q
