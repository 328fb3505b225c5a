-- ===== src/Examples/Packets.antt =====
-- A server that waits for a response, the packet with that response, and the theorems about
-- cmd/authserver/auth.go applied to them.
use connauth.Common.{
  ◌*◌, ◌≡◌, ◌⊎◌, refl, String, true, false, not, ◌&&◌, ◌||◌, none, some, List, [], ◌∷◌, Distinct,
  lookup, insert, erase, pos, string_eq, nat_eq,
}
use connauth.Protocol.{
  ChallengeResponse, second, validate_field, validate_base, validate_envelope,
  validate_challenge_response, timestamp_allowed, message_type_challenge_response,
}
use connauth.Protocol.Crypto.{additional_text, additional_data, new_gcm, open_message}
use connauth.Pending.{
  PendingChallengeKey, PendingChallengeStore, new_pending_challenge_store, add, consume, remove,
  decrement, key_eq,
}
use connauth.Pending.Invariant.{new_pending_challenge_store-IsConsistent, add-IsConsistent}
use connauth.Server.Config.Keys.{find_auth_key, auth_key_by_id, starts_later, has_ended}
use connauth.Server.Access.{
  AuthResult, is_ip_denied, is_static_ip_allowed, match_token_rules, match_token_rules_from,
  match_any_token_rules,
}
use connauth.Server.Clients.{
  AuthorizedClientKey, ClientList, client_eq, cleanup_authorized_client_list, scan_clients,
  is_ip_authed, grant, authorize_from, authorize_client, init_client_list,
}
use connauth.Server.Clients.Lists.{live, any_live, scan_clients-live, is_ip_authed_lem}
use connauth.Server.Clients.Grant.Everywhere.{
  Served, Effects, authorize_client-Effects, init_client_list-Served,
}
use connauth.Server.Handler.{
  Server, Clock, Handled, logged, open_packet, prepare_response, auth_event, grant_response,
  answer_response, handle_challenge_response, dispatch, handle_auth_packet,
}
use connauth.Server.Handler.Open.{IsGood, Returns, handle_auth_packet-Returns}
use connauth.Server.Handler.Response.{Harmless, Answered, handle_auth_packet_cases}
use connauth.Examples.{
  Symbol, filler, header, response, word, sample_world, sample_library, sample_random,
}
use connauth.Examples.Settings.{settings_ready, shell_port_ready, office_token, primary_secret}

abbrev peer : String
peer = "203.0.113.7"

abbrev client_key : AuthorizedClientKey
client_key = record { ip = peer; client_id = "workstation" }

abbrev challenge_key : PendingChallengeKey
challenge_key = record {
  ip = peer;
  key_id = "primary";
  server_id = "connauth-server";
  client_id = "workstation";
  port = 40022;
  client_nonce = "client-nonce";
  server_nonce = "server-nonce";
}

abbrev waiting : PendingChallengeStore
waiting = (add (new_pending_challenge_store 10000 16) challenge_key (1060 * second)).0

abbrev server : Server
server = record {
  config = settings_ready;
  clients = init_client_list settings_ready;
  pending = waiting;
}

abbrev clock : Clock
clock = record {
  at_key = 1001 * second;
  at_check = 1001 * second;
  at_pending = 1001 * second;
  at_grant = 1002 * second;
}

abbrev reply : ChallengeResponse
reply = record {
  type = message_type_challenge_response;
  server_id = "connauth-server";
  client_id = "workstation";
  port = 40022;
  client_nonce = "client-nonce";
  server_nonce = "server-nonce";
  token = office_token;
  timestamp = pos 1000;
}

abbrev packet : List Symbol
packet =
    header "primary" "connauth-server"
    ∷ (filler
        ∷ (filler
            ∷ (word primary_secret
                ∷ (word "connauth:challenge-auth:primary:connauth-server"
                    ∷ (response reply ∷ [])))))

abbrev granted : AuthResult
granted = record {
  authorized = true;
  renewed = false;
  rule_scope = "forward";
  rule_id = "office";
  rule_type = "token_ref";
}

abbrev granted_list : ClientList
granted_list = (client_key, record { expires_at = 4602 * second }) ∷ []

abbrev handled : Handled Symbol
handled = record {
  server = record server {
    clients = granted_list ∷ [];
    pending = new_pending_challenge_store 10000 16;
  };
  reply = none;
  outcome = logged (record {
    event = "auth_success";
    source_ip = peer;
    client_id = "workstation";
    key_id = "primary";
    port = 40022;
    result = "success";
    reason = "";
    rule = some granted;
  });
}

packet_handled :
    handle_auth_packet sample_world server clock sample_random sample_random peer packet
    ≡ some handled
unfolding handle_auth_packet open_packet validate_envelope validate_field auth_key_by_id
    find_auth_key starts_later has_ended open_message new_gcm additional_data additional_text
    dispatch handle_challenge_response prepare_response validate_challenge_response validate_base
    timestamp_allowed answer_response consume remove decrement add new_pending_challenge_store
    grant_response authorize_client authorize_from match_any_token_rules match_token_rules
    match_token_rules_from grant cleanup_authorized_client_list init_client_list auth_event lookup
    insert erase
packet_handled = refl

handle_auth_packet_cases_example :
    Harmless sample_world server clock peer handled
    ⊎ Answered sample_world server clock peer packet handled
handle_auth_packet_cases_example =
    handle_auth_packet_cases sample_world server clock peer packet sample_random sample_random
      handled packet_handled

server-IsGood : IsGood server
server-IsGood = record {
  consistent =
      add-IsConsistent (new_pending_challenge_store 10000 16) challenge_key
        (new_pending_challenge_store-IsConsistent 10000 16) (1060 * second);
  served = init_client_list-Served settings_ready ((λ e. cc e), tt);
}

handle_auth_packet-Returns_example :
    Returns sample_world server clock peer server-IsGood
      (handle_auth_packet sample_world server clock sample_random sample_random peer packet)
handle_auth_packet-Returns_example =
    handle_auth_packet-Returns sample_world server clock peer server-IsGood sample_random
      sample_random packet

fresh-Served : Served settings_ready.forward_configs (init_client_list settings_ready)
fresh-Served = init_client_list-Served settings_ready ((λ e. cc e), tt)

authorize_client-Effects_example :
    (r : AuthResult) × (ls' : List ClientList) × (authorize_client sample_library settings_ready
        (init_client_list settings_ready)
        peer
        "workstation"
        40022
        office_token
        (1002 * second)
      ≡ some (r, ls'))
    × Effects sample_library settings_ready client_key 40022 office_token
        (1002 * second)
        settings_ready.forward_configs
        (init_client_list settings_ready)
        r
        ls'
authorize_client-Effects_example =
    authorize_client-Effects sample_library settings_ready (init_client_list settings_ready) peer
      "workstation" 40022 office_token (1002 * second) fresh-Served

is_ip_authed_lem_example :
    (is_ip_authed sample_library settings_ready shell_port_ready granted_list peer
      (2000 * second)).0
    ≡ (not (is_ip_denied sample_library settings_ready peer)
        && (is_static_ip_allowed sample_library settings_ready shell_port_ready peer
            || any_live peer (2000 * second) granted_list))
is_ip_authed_lem_example =
    is_ip_authed_lem sample_library settings_ready shell_port_ready granted_list peer
      (2000 * second)

granted_list-Distinct : Distinct granted_list
unfolding lookup
granted_list-Distinct = (refl, tt)

scan_clients-live_example :
    live (5000 * second) (lookup client_key (scan_clients granted_list peer (5000 * second)).1)
    ≡ live (5000 * second) (lookup client_key granted_list)
scan_clients-live_example =
    scan_clients-live client_key granted_list peer (5000 * second) granted_list-Distinct
