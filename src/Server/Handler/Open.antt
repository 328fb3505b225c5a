-- ===== src/Server/Handler/Open.antt =====
-- Every packet is handled without a panic, and the server stays well-formed.
use connauth.Common.{
  ℕ, ◌+◌, ◌≡◌, refl, String, Bool, true, false, not, Option, none, some, List, string_eq, ◌==◌,
  Result, ok, err, if◌then◌else◌,
}
use connauth.World.{World}
use connauth.Protocol.{
  ChallengeResponse, challenge_ttl, message_type_challenge_request, message_type_challenge_response,
}
use connauth.Protocol.Crypto.{Random}
use connauth.Pending.{PendingChallengeKey, add, consume}
use connauth.Pending.Invariant.{IsConsistent, add-IsConsistent, consume-IsConsistent}
use connauth.Server.Clients.Grant.Everywhere.{Served, authorize_client-Effects}
use connauth.Server.Handler.{
  Server, Clock, Handled, Opened, Ignored, Prepared, drop_packet, send_challenge, open_packet,
  prepare_challenge, seal_challenge, handle_challenge_request, prepare_response, response_key,
  grant_response, handle_challenge_response, dispatch, handle_auth_packet, issue_challenge,
  answer_response, pending_limit, no_pending_challenge, unknown_message_type, logged, auth_event,
}

-- The pending store is consistent, and every forward configuration has its map and its expiry time.
pub record IsGood (s : Server) : Type 0 where
  pub consistent : IsConsistent s.pending
  pub served : Served s.config.forward_configs s.clients

module _ (w : World) (s : Server) (clock : Clock) (peer : String) (good : IsGood s) where
  abbrev H : Type 0
  H = Handled w.crypto.Byte

  -- The handler returned, and the server is still well-formed and has its configuration.
  pub record Returns (r : Option H) : Type 0 where
    pub handled : H
    pub returned : r ≡ some handled
    pub still_good : IsGood handled.server
    pub same_config : handled.server.config ≡ s.config

  module _ (random_seal : Random w.crypto) (o : Opened w) where
    issue_good : (p : Prepared w) → Returns (some (issue_challenge w s clock random_seal o p))
    unfolding issue_challenge
    issue_good p =
        sent (add s.pending p.pending_key expires_at).1 (seal_challenge w random_seal o p.challenge)
      where
        expires_at : ℕ
        expires_at = clock.at_pending + challenge_ttl

        s' : Server
        s' = record s { pending = (add s.pending p.pending_key expires_at).0 }

        good' : IsGood s'
        good' = record {
          consistent = add-IsConsistent s.pending p.pending_key good.consistent expires_at;
          served = good.served;
        }

        sent :
            (taken : Bool) (r : Result Ignored (List w.crypto.Byte))
            → Returns
                (some (if not taken then drop_packet w s' pending_limit else send_challenge w s' r))
        sent false r = record {
          handled = drop_packet w s' pending_limit;
          returned = refl;
          still_good = good';
          same_config = refl;
        }
        sent true (err i) = record {
          handled = drop_packet w s' i;
          returned = refl;
          still_good = good';
          same_config = refl;
        }
        sent true (ok b) = record {
          handled = send_challenge w s' (ok b);
          returned = refl;
          still_good = good';
          same_config = refl;
        }

  dropped : (i : Ignored) → Returns (some (drop_packet w s i))
  dropped i = record {
    handled = drop_packet w s i;
    returned = refl;
    still_good = good;
    same_config = refl;
  }

  request_good :
      (random_nonce random_seal : Random w.crypto) (o : Opened w)
      → Returns (some (handle_challenge_request w s clock random_nonce random_seal peer o))
  unfolding handle_challenge_request
  request_good random_nonce random_seal o =
      go (prepare_challenge w s.config clock random_nonce peer o)
    where
      go :
          (r : Result Ignored (Prepared w))
          → Returns (
              some (elim r [
                | err i ↦ drop_packet w s i
                | ok p ↦ issue_challenge w s clock random_seal o p
              ]))
      go (err i) = dropped i
      go (ok p) = issue_good random_seal o p

  response_good :
      (o : Opened w) (resp : ChallengeResponse) → Returns (answer_response w s clock peer o resp)
  unfolding answer_response grant_response
  response_good o resp = go honoured
    where
      key : PendingChallengeKey
      key = response_key w peer o resp

      honoured : Bool
      honoured = (consume s.pending key clock.at_pending).1

      s' : Server
      s' = record s { pending = (consume s.pending key clock.at_pending).0 }

      consistent' : IsConsistent s'.pending
      consistent' = consume-IsConsistent s.pending key good.consistent clock.at_pending

      go :
          (b : Bool)
          → Returns (
              if not b
              then some (drop_packet w s' no_pending_challenge)
              else grant_response w s' clock peer o resp)
      go false = record {
        handled = drop_packet w s' no_pending_challenge;
        returned = refl;
        still_good = record { consistent = consistent'; served = good.served };
        same_config = refl;
      }
      go true =
          let (r, ls', e, effects) =
            authorize_client-Effects w.lib s.config s.clients peer resp.client_id resp.port
              resp.token clock.at_grant good.served in
          record {
            handled = record {
              server = record s' { clients = ls' };
              reply = none;
              outcome = logged (auth_event w peer o resp r);
            };
            returned = rw (e, grant_response);
            still_good = record { consistent = consistent'; served = effects.served };
            same_config = refl;
          }

  handle_response_good : (o : Opened w) → Returns (handle_challenge_response w s clock peer o)
  unfolding handle_challenge_response
  handle_response_good o = go (prepare_response w clock o)
    where
      go :
          (r : Result Ignored ChallengeResponse)
          → Returns (elim r [
            | err i ↦ some (drop_packet w s i)
            | ok resp ↦ answer_response w s clock peer o resp
          ])
      go (err i) = dropped i
      go (ok resp) = response_good o resp

  dispatch_good :
      (random_nonce random_seal : Random w.crypto) (o : Opened w)
      → Returns (dispatch w s clock random_nonce random_seal peer o)
  unfolding dispatch
  dispatch_good random_nonce random_seal o =
      go (o.type == message_type_challenge_request) (o.type == message_type_challenge_response)
    where
      go :
          (a b : Bool)
          → Returns (
              if a
              then some (handle_challenge_request w s clock random_nonce random_seal peer o)
              else if b
              then handle_challenge_response w s clock peer o
              else some (drop_packet w s unknown_message_type))
      go true b = request_good random_nonce random_seal o
      go false true = handle_response_good o
      go false false = dropped unknown_message_type

  -- On a server whose pending store is consistent and whose forward configurations have their maps
  -- and expiry times, every packet is handled without a panic, and leaves such a server with the
  -- same configuration.
  pub handle_auth_packet-Returns :
      (random_nonce random_seal : Random w.crypto) (packet : List w.crypto.Byte)
      → Returns (handle_auth_packet w s clock random_nonce random_seal peer packet)
  unfolding handle_auth_packet
  handle_auth_packet-Returns random_nonce random_seal packet =
      go (open_packet w s.config clock packet)
    where
      go :
          (r : Result Ignored (Opened w))
          → Returns (elim r [
            | err i ↦ some (drop_packet w s i)
            | ok o ↦ dispatch w s clock random_nonce random_seal peer o
          ])
      go (err i) = dropped i
      go (ok o) = dispatch_good random_nonce random_seal o
