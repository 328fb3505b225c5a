-- ===== src/Examples/Session.antt =====
-- A run of the server: a request, the response to its challenge, a ticker and a connection; and the
-- theorems about the running server applied to it.
use connauth.Common.{
  ℕ, ◌*◌, ◌≡◌, ◌⊎◌, refl, String, true, false, none, some, List, [], ◌∷◌, lookup, insert, erase,
  pos, get_elem?,
}
use connauth.Protocol.{
  second, validate_field, validate_base, validate_envelope, validate_challenge_request,
  validate_challenge_response, timestamp_allowed, message_type_challenge_request,
  message_type_challenge, message_type_challenge_response,
}
use connauth.Protocol.Crypto.{
  additional_text, additional_data, new_gcm, open_message, seal, random_nonce_string,
}
use connauth.Pending.{
  PendingChallengeStore, new_pending_challenge_store, add, consume, remove, decrement, key_eq,
}
use connauth.Server.Config.Keys.{find_auth_key, auth_key_by_id, starts_later, has_ended}
use connauth.Server.Access.{
  is_ip_match_rule, is_ip_match_rules, is_ip_denied, is_static_ip_allowed, match_token_rules,
  match_token_rules_from, match_any_token_rules,
}
use connauth.Server.Clients.{
  AuthorizedClientKey, AuthorizedClientState, ClientList, client_eq, cleanup_authorized_client_list,
  refresh_client_list, scan_clients, is_ip_authed, grant, authorize_from, authorize_client,
  init_client_list,
}
use connauth.Server.Clients.Grant.Everywhere.{entry_at}
use connauth.Server.Handler.{
  Server, Clock, Handled, logged, replied, open_packet, prepare_challenge, seal_challenge,
  issue_challenge, handle_challenge_request, prepare_response, auth_event, grant_response,
  answer_response, handle_challenge_response, dispatch, handle_auth_packet,
}
use connauth.Server.System.{start, refresh_at, refresh, Reach, here, next, packet, refreshes}
use connauth.Server.System.Safe.{IsServing, Reach-IsServing}
use connauth.Server.System.Admission.{Admission, entry-Admission}
use connauth.Server.System.Gate.{is_ip_authed-Admission}
use connauth.Examples.{
  Symbol, filler, header, word, request, challenge, response, sample_world, sample_library,
  sample_random,
}
use connauth.Examples.Settings.{
  settings, settings_ready, shell_port_ready, office_token, primary_secret,
}
use connauth.Examples.SettingsRuns.{settings_pass}

abbrev pub peer : String
peer = "203.0.113.7"

abbrev pub sample_nonce : String
sample_nonce = "c2VydmVyLW5vbmNl"

abbrev pub envelope_of : List Symbol → List Symbol
envelope_of plain =
    header "primary" "connauth-server"
    ∷ (filler
        ∷ (filler
            ∷ (word primary_secret
                ∷ (word "connauth:challenge-auth:primary:connauth-server" ∷ plain))))

abbrev pub first_packet : List Symbol
first_packet = envelope_of (
    request (record {
      type = message_type_challenge_request;
      server_id = "connauth-server";
      client_id = "workstation";
      port = 40022;
      client_nonce = "client-nonce";
      timestamp = pos 1000;
    })
    ∷ [])

abbrev pub first_reply : List Symbol
first_reply = envelope_of (
    challenge (record {
      type = message_type_challenge;
      server_id = "connauth-server";
      client_id = "workstation";
      port = 40022;
      client_nonce = "client-nonce";
      server_nonce = sample_nonce;
      expires_at = pos 1030;
    })
    ∷ [])

abbrev pub second_packet : List Symbol
second_packet = envelope_of (
    response (record {
      type = message_type_challenge_response;
      server_id = "connauth-server";
      client_id = "workstation";
      port = 40022;
      client_nonce = "client-nonce";
      server_nonce = sample_nonce;
      token = office_token;
      timestamp = pos 1001;
    })
    ∷ [])

abbrev pub at : ℕ → Clock
at t = record { at_key = t; at_check = t; at_pending = t; at_grant = t }

abbrev waiting : PendingChallengeStore
waiting = record {
  items =
      (
        record {
          ip = peer;
          key_id = "primary";
          server_id = "connauth-server";
          client_id = "workstation";
          port = 40022;
          client_nonce = "client-nonce";
          server_nonce = sample_nonce;
        },
        record { expires_at = 1030 * second },
      )
      ∷ [];
  count_by_ip = (peer, 1) ∷ [];
  max_global = 10000;
  max_per_ip = 16;
}

abbrev pub challenged : Handled Symbol
challenged = record {
  server = record { config = settings_ready; clients = [] ∷ []; pending = waiting };
  reply = some first_reply;
  outcome = replied;
}

abbrev pub client_key : AuthorizedClientKey
client_key = record { ip = peer; client_id = "workstation" }

abbrev pub client_state : AuthorizedClientState
client_state = record { expires_at = 4601 * second }

abbrev pub granted : Handled Symbol
granted = record {
  server = record {
    config = settings_ready;
    clients = ((client_key, client_state) ∷ []) ∷ [];
    pending = new_pending_challenge_store 10000 16;
  };
  reply = none;
  outcome = logged (record {
    event = "auth_success";
    source_ip = peer;
    client_id = "workstation";
    key_id = "primary";
    port = 40022;
    result = "success";
    reason = "";
    rule = some (record {
      authorized = true;
      renewed = false;
      rule_scope = "forward";
      rule_id = "office";
      rule_type = "token_ref";
    });
  });
}

request_handled :
    handle_auth_packet sample_world
      (start settings_ready)
      (at (1000 * second))
      sample_random
      sample_random
      peer
      first_packet
    ≡ some challenged
unfolding handle_auth_packet open_packet validate_envelope validate_field auth_key_by_id
    find_auth_key starts_later has_ended open_message new_gcm additional_data additional_text
    dispatch handle_challenge_request prepare_challenge validate_challenge_request validate_base
    timestamp_allowed random_nonce_string issue_challenge seal_challenge seal add
    new_pending_challenge_store init_client_list start lookup insert
request_handled = refl

pub response_handled :
    handle_auth_packet sample_world challenged.server
      (at (1001 * second))
      sample_random
      sample_random
      peer
      second_packet
    ≡ some granted
unfolding handle_auth_packet open_packet validate_envelope validate_field auth_key_by_id
    find_auth_key starts_later has_ended open_message new_gcm additional_data additional_text
    dispatch handle_challenge_response prepare_response validate_challenge_response validate_base
    timestamp_allowed answer_response consume remove decrement new_pending_challenge_store
    grant_response authorize_client authorize_from match_any_token_rules match_token_rules
    match_token_rules_from grant cleanup_authorized_client_list auth_event lookup insert erase
response_handled = refl

abbrev refreshed : Server
refreshed = refresh granted.server 0 (2000 * second)

session : Reach sample_world (start settings_ready) refreshed
session =
    next
      (next
        (next here (
          packet (at (1000 * second)) sample_random sample_random peer first_packet challenged
            request_handled))
        (packet (at (1001 * second)) sample_random sample_random peer second_packet granted
          response_handled))
      (refreshes 0 (2000 * second))

Reach-IsServing_example : IsServing settings_ready refreshed
Reach-IsServing_example =
    Reach-IsServing sample_world settings_ready settings 1000 settings_pass session

refreshed_entry : entry_at 0 client_key refreshed.clients ≡ some client_state
unfolding refresh_at refresh_client_list cleanup_authorized_client_list lookup
refreshed_entry = refl

entry-Admission_example : Admission sample_world settings_ready client_key 0 refreshed session
entry-Admission_example =
    entry-Admission sample_world settings_ready client_key 0 settings 1000 settings_pass
      client_state session refreshed_entry

abbrev pub held : ClientList
held = (client_key, client_state) ∷ []

refreshed_list : get_elem? refreshed.clients 0 ≡ some held
unfolding refresh_at refresh_client_list cleanup_authorized_client_list
refreshed_list = refl

let_in :
    (is_ip_authed sample_library settings_ready shell_port_ready held peer (2000 * second)).0 ≡ true
unfolding is_ip_authed is_ip_denied is_static_ip_allowed is_ip_match_rules is_ip_match_rule
    scan_clients
let_in = refl

is_ip_authed-Admission_example :
    (is_ip_denied sample_library settings_ready peer ≡ false)
    × ((is_static_ip_allowed sample_library settings_ready shell_port_ready peer ≡ true)
        ⊎ ((client_id : String) × Admission sample_world settings_ready
              (record { ip = peer; client_id = client_id })
              0
              refreshed
              session))
is_ip_authed-Admission_example =
    is_ip_authed-Admission sample_world settings_ready settings 1000 settings_pass 0
      shell_port_ready held peer (2000 * second) session refl refreshed_list let_in
