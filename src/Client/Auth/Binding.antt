-- ===== src/Client/Auth/Binding.antt =====
-- When the client's token leaves: `auth` of cmd/authclient/auth.go sends its response only for the
-- challenge that it asked for.
use connauth.Common.{
  take, ◌≡◌, ◌≢◌, ◌⊎◌, inl, inr, refl, String, true, false, some, List, [], ◌∷◌, arith, eq_iff,
  string_eq, nat_eq, Result, ok, err, >>=-eq-ok, Bool-cases, Option-cases,
}
use connauth.World.{World}
use connauth.Protocol.{max_packet_size, Error, Challenge, message_type_challenge}
use connauth.Protocol.Crypto.{Random, random_nonce_string}
use connauth.Client.Config.{ServerConfig}
use connauth.Utils.{AuthConfig}
use connauth.Client.Auth.{
  AuthError, Clock, has_expired, seal_message, open_challenge, response_message, build_request,
  build_response, Network, AuthRun, stop, send_response, auth, build_response_failed,
  cannot_resolve, dial_failed, nonce_failed, read_failed, write_request_failed,
  write_response_failed,
}

module _ (w : World) (sc : ServerConfig) (client_id : String) (req : AuthConfig) (net : Network w)
    (clock : Clock) (random_nonce random_request random_response : Random w.crypto) where
  abbrev run : AuthRun w
  run = auth w sc client_id req net clock random_nonce random_request random_response

  -- A challenge that was read and is the one asked for.
  pub record Bound (client_nonce : String) (packet : List w.crypto.Byte) (ch : Challenge)
      : Type 0 where
    pub opened : open_challenge w sc clock.at_challenge packet ≡ ok ch
    pub type : ch.type ≡ message_type_challenge
    pub fresh : has_expired ch.expires_at clock.at_challenge ≡ false
    pub server_nonce : ch.server_nonce ≢ ""
    pub server : ch.server_id ≡ sc.server_id
    pub client : ch.client_id ≡ client_id
    pub port : ch.port ≡ req.port
    pub nonce : ch.client_nonce ≡ client_nonce

  -- Both packets went out, and the second answers a challenge that is bound to the first.
  pub record Answered (r : AuthRun w) : Type 0 where
    pub client_nonce : String
    pub drawn : random_nonce_string w.crypto random_nonce ≡ ok client_nonce
    pub request : List w.crypto.Byte
    pub asked : build_request w sc client_id req clock random_request client_nonce ≡ ok request
    pub datagram : List w.crypto.Byte
    pub read : net.reads request ≡ some datagram
    pub challenge : Challenge
    pub bound : Bound client_nonce (take max_packet_size datagram) challenge
    pub response : List w.crypto.Byte
    pub answered :
        seal_message w sc random_response
          (w.codec.marshal_response (
            response_message w sc client_id req client_nonce challenge.server_nonce
              clock.at_response))
          build_response_failed
        ≡ ok response
    pub sent : r.sent ≡ request ∷ response ∷ []
    pub succeeded : r.result ≡ ok tt

  -- At most the request went out, which has no token.
  pub record Unanswered (r : AuthRun w) : Type 0 where
    pub error : AuthError
    pub failed : r.result ≡ err error
    pub sent :
        (r.sent ≡ [])
        ⊎ ((client_nonce : String) × (request : List w.crypto.Byte) × (build_request w sc client_id
                req clock random_request client_nonce
              ≡ ok request)
            × (r.sent ≡ request ∷ []))

  open_challenge-Bound :
      (client_nonce : String) (packet response : List w.crypto.Byte)
      → build_response w sc client_id req clock random_response client_nonce packet ≡ ok response
      → (ch : Challenge) × Bound client_nonce packet ch
        × (seal_message w sc random_response
              (w.codec.marshal_response (
                response_message w sc client_id req client_nonce ch.server_nonce clock.at_response))
              build_response_failed
            ≡ ok response)
  unfolding build_response
  open_challenge-Bound client_nonce packet response h =
      let (ch, is, rest) = >>=-eq-ok (open_challenge w sc clock.at_challenge packet) _ h in
      (
        ch,
        record {
          opened = is;
          type = unfold open_challenge in ground (arith, is, eq_iff ch.type message_type_challenge);
          fresh = unfold open_challenge in ground (arith, is);
          server_nonce = unfold open_challenge in ground (arith, is, eq_iff ch.server_nonce "");
          server = ground (arith, rest, eq_iff ch.server_id sc.server_id);
          client = ground (arith, rest, eq_iff ch.client_id client_id);
          port = ground (arith, rest);
          nonce = ground (arith, rest, eq_iff ch.client_nonce client_nonce);
        },
        ground (arith, rest),
      )

  abbrev Cases : AuthRun w → Type 0
  Cases r = Unanswered r ⊎ Answered r

  nothing_sent : (e : AuthError) → Cases (stop w [] e)
  nothing_sent e = inl (record { error = e; failed = refl; sent = inl refl })

  module _ (client_nonce : String)
      (drawn : random_nonce_string w.crypto random_nonce ≡ ok client_nonce)
      (request : List w.crypto.Byte)
      (asked : build_request w sc client_id req clock random_request client_nonce
        ≡ ok request) where
    request_sent : (e : AuthError) → Cases (stop w (request ∷ []) e)
    request_sent e =
        inl (record { error = e; failed = refl; sent = inr (client_nonce, request, asked, refl) })

    response-Cases :
        (datagram : List w.crypto.Byte) (r : Result AuthError (List w.crypto.Byte))
        → net.reads request ≡ some datagram
        → build_response w sc client_id req clock random_response client_nonce
            (take max_packet_size datagram)
          ≡ r
        → Cases (send_response w net request r)
    response-Cases datagram (err e) read built = request_sent e
    response-Cases datagram (ok response) read built = elim (Bool-cases (net.writes response)) [
      | inl written ↦
          let (ch, bound, sealed) =
            open_challenge-Bound client_nonce (take max_packet_size datagram) response built in
          rw written (
            inr (record {
              client_nonce = client_nonce;
              drawn = drawn;
              request = request;
              asked = asked;
              datagram = datagram;
              read = read;
              challenge = ch;
              bound = bound;
              response = response;
              answered = sealed;
              sent = refl;
              succeeded = refl;
            }))
      | inr lost ↦ rw lost (request_sent write_response_failed)
    ]

    request-Cases : net.resolves ≡ true → net.dials ≡ true → Cases run
    unfolding auth
    request-Cases resolved dialled = elim (Bool-cases (net.writes request)) [
      | inl written ↦ elim (Option-cases (net.reads request)) [
        | inl silent ↦
            let same : stop w (request ∷ []) read_failed ≡ run =
              ground (arith, resolved, dialled, drawn, asked, written, silent) in
            rw (← same) (request_sent read_failed)
        | inr (datagram, read) ↦
            let built =
              build_response w sc client_id req clock random_response client_nonce
                (take max_packet_size datagram) in
            let same : send_response w net request built ≡ run =
              ground (arith, resolved, dialled, drawn, asked, written, read) in
            rw (← same) (response-Cases datagram built read refl)
      ]
      | inr lost ↦
          let same : stop w [] write_request_failed ≡ run =
            ground (arith, resolved, dialled, drawn, asked, lost) in
          rw (← same) (nothing_sent write_request_failed)
    ]

  drawn-Cases :
      (r : Result Error String)
      → random_nonce_string w.crypto random_nonce ≡ r
      → net.resolves ≡ true
      → net.dials ≡ true
      → Cases run
  drawn-Cases (err e) drawn resolved dialled =
      let same : stop w [] nonce_failed ≡ run =
        unfold auth in ground (arith, drawn, resolved, dialled) in
      rw (← same) (nothing_sent nonce_failed)
  drawn-Cases (ok n) drawn resolved dialled =
      asked_cases (build_request w sc client_id req clock random_request n) refl
    where
      asked_cases :
          (r : Result AuthError (List w.crypto.Byte))
          → build_request w sc client_id req clock random_request n ≡ r
          → Cases run
      asked_cases (err e) asked =
          let same : stop w [] e ≡ run =
            unfold auth in ground (arith, drawn, asked, resolved, dialled) in
          rw (← same) (nothing_sent e)
      asked_cases (ok request) asked = request-Cases n drawn request asked resolved dialled

  -- However auth runs, it either fails, and at most the request went out; or it succeeds, both
  -- packets went out, and the response answers a challenge that opened under the server's key, has
  -- not expired and names this server, client, port and client nonce.
  pub auth_cases : Unanswered run ⊎ Answered run
  auth_cases = elim (Bool-cases net.resolves) [
    | inl resolved ↦ elim (Bool-cases net.dials) [
      | inl dialled ↦ drawn-Cases (random_nonce_string w.crypto random_nonce) refl resolved dialled
      | inr down ↦
          let same : stop w [] dial_failed ≡ run = unfold auth in ground (arith, resolved, down) in
          rw (← same) (nothing_sent dial_failed)
    ]
    | inr unknown ↦
        let same : stop w [] cannot_resolve ≡ run = unfold auth in ground (arith, unknown) in
        rw (← same) (nothing_sent cannot_resolve)
  ]
