-- ===== src/Examples/Login.antt =====
-- A whole handshake on the sample settings, and the theorem about it applied there.
use connauth.Common.{
  ◌↔◌, ◌≤◌, false, ◌⊎◌, ℕ, ◌*◌, ◌≡◌, refl, true, none, some, List, [], ◌∷◌, lookup, insert, pos,
  arith, ok,
}
use connauth.Protocol.{
  message_type_challenge, second, validate_field, validate_base, validate_envelope,
  validate_challenge_request, validate_challenge_response, timestamp_allowed,
}
use connauth.Protocol.Crypto.{
  additional_text, additional_data, new_gcm, open_message, seal, random_nonce_string,
}
use connauth.Pending.{new_pending_challenge_store, add, key_eq}
use connauth.Utils.{AuthConfig}
use connauth.Server.Config.Keys.{find_auth_key, auth_key_by_id, starts_later, has_ended}
use connauth.Server.Access.{match_token_rules, match_token_rules_from, match_any_token_rules}
use connauth.Server.Clients.Grant.Everywhere.{serving}
use connauth.Server.Handler.{
  Server, open_packet, prepare_challenge, seal_challenge, issue_challenge, handle_challenge_request,
  dispatch, handle_auth_packet,
}
use connauth.Client.Auth.Binding.{Unanswered, Answered, auth_cases}
use connauth.Client.Auth.{
  Network, auth, Clock as ClientClock, seal_message, open_challenge, build_request, build_response,
}
use connauth.Handshake.{IsSound}
use connauth.Server.Clients.Grant.Everywhere.{entry_at}
use connauth.Server.Access.{is_ip_denied, is_ip_match_rules, is_ip_match_rule}
use connauth.Handshake.Success.{
  LetIn, FitsPacket, key_of, the_request, the_response, handshake-LetIn,
}
use connauth.Examples.{
  challenge, Symbol, sample_world, sample_library, sample_random, sample_random-IsRandom,
  sample_aead, sample_aead-IsAead, sample_codec-IsCodec,
}
use connauth.Handshake.Timely.{messages_pass}
use connauth.Protocol.Validation.{IsField, validate_field_iff}
use Prim.Native.String.{len}
use connauth.Client.Auth.{request_message, response_message}
use connauth.Utils.{new_auth_config}
use connauth.Examples.SettingsRuns.{client_settings_pass}
use connauth.Examples.Settings.{
  client_settings, client_settings_ready, client_server_ready, client_port_ready, settings_ready,
  shell_port_ready, client_server, office_token, primary_secret,
}
use connauth.Examples.Session.{
  envelope_of, granted, client_state, response_handled, peer, sample_nonce, first_packet,
  first_reply, second_packet, at, challenged, client_key,
}

sample_world-IsSound : IsSound sample_world
sample_world-IsSound = record {
  codec = sample_codec-IsCodec;
  aead =
      λ key gcm e. let same : sample_aead key ≡ gcm = cc e in rw (← same) (sample_aead-IsAead key);
}

abbrev login : AuthConfig
login = record { token = office_token; port = 40022; timestamp = pos 1000; nonce = "" }

abbrev client_clock : ClientClock
client_clock = record {
  at_request = 1000 * second;
  at_challenge = 1000 * second;
  at_response = 1001 * second;
}

abbrev pub idle : Server
idle = record {
  config = settings_ready;
  clients = [] ∷ [];
  pending = new_pending_challenge_store 10000 16;
}

request_built :
    build_request sample_world client_server "workstation" login client_clock sample_random
      "client-nonce"
    ≡ ok first_packet
unfolding build_request seal_message seal validate_field new_gcm additional_data additional_text
request_built = refl

response_built :
    build_response sample_world client_server "workstation" login client_clock sample_random
      "client-nonce" first_reply
    ≡ ok second_packet
unfolding build_response open_challenge open_message validate_envelope seal_message seal
    validate_field new_gcm additional_data additional_text
response_built = refl

pub request_replied :
    handle_auth_packet sample_world idle
      (at (1000 * second))
      sample_random
      sample_random
      peer
      first_packet
    ≡ some challenged
unfolding handle_auth_packet open_packet validate_envelope validate_field auth_key_by_id
    find_auth_key starts_later has_ended open_message new_gcm additional_data additional_text
    dispatch handle_challenge_request prepare_challenge validate_challenge_request validate_base
    timestamp_allowed random_nonce_string issue_challenge seal_challenge seal add
    new_pending_challenge_store lookup insert
request_replied = refl

abbrev Fits : List Symbol → Type 0
Fits =
    FitsPacket sample_world sample_world-IsSound client_server "workstation" login client_clock
      "client-nonce" sample_random sample_random sample_random-IsRandom sample_random-IsRandom

first-Fits : Fits first_packet
first-Fits env e = ground (arith, e)

second-Fits : Fits second_packet
second-Fits env e = ground (arith, e)

key_known : (t : ℕ) → auth_key_by_id sample_library settings_ready "primary" t ≡ some primary_secret
unfolding auth_key_by_id find_auth_key starts_later has_ended
key_known t = refl

nonce_drawn : random_nonce_string sample_world.crypto sample_random ≡ ok sample_nonce
unfolding random_nonce_string
nonce_drawn = refl

request_timely :
    validate_challenge_request
      (the_request sample_world sample_world-IsSound client_server "workstation" login client_clock
        "client-nonce" sample_random sample_random sample_random-IsRandom sample_random-IsRandom)
      (1000 * second)
    ≡ ok tt
unfolding validate_challenge_request validate_base validate_field timestamp_allowed
request_timely = refl

response_timely :
    validate_challenge_response
      (the_response sample_world sample_world-IsSound client_server "workstation" login client_clock
        "client-nonce" sample_random sample_random sample_random-IsRandom sample_random-IsRandom
        sample_nonce)
      (1001 * second)
    ≡ ok tt
unfolding validate_challenge_response validate_base validate_field timestamp_allowed
response_timely = refl

nothing_pending :
    lookup
      (key_of sample_world sample_world-IsSound client_server "workstation" login client_clock
        "client-nonce" sample_random sample_random sample_random-IsRandom sample_random-IsRandom
        peer sample_nonce)
      idle.pending.items
    ≡ none
unfolding new_pending_challenge_store lookup
nothing_pending = refl

port_served :
    serving sample_library settings_ready client_key 40022 office_token
      (1001 * second)
      settings_ready.forward_configs
    ≡ some 0
unfolding match_any_token_rules match_token_rules match_token_rules_from
port_served = refl

handshake-LetIn_example : LetIn settings_ready 0 client_key (1001 * second) (
    handle_auth_packet sample_world challenged.server
      (at (1001 * second))
      sample_random
      sample_random
      peer
      second_packet)
handshake-LetIn_example =
    handshake-LetIn sample_world sample_world-IsSound client_server "workstation" login client_clock
      "client-nonce" sample_random sample_random sample_random-IsRandom sample_random-IsRandom idle
      (at (1000 * second)) (at (1001 * second)) peer sample_random sample_random sample_random
      sample_random sample_random-IsRandom first_packet first_reply second_packet sample_nonce 0
      challenged ((λ e. cc e), record { distinct = tt; limit = omega arith }, tt) refl
      (key_known (1000 * second)) (key_known (1001 * second)) request_built first-Fits
      request_timely nonce_drawn nothing_pending request_replied refl response_built second-Fits
      response_timely (omega arith) port_served (omega arith)

-- The sample random source draws the same nonce for the client as for the server.
abbrev challenge_reply : List Symbol
challenge_reply = envelope_of (
    challenge (record {
      type = message_type_challenge;
      server_id = "connauth-server";
      client_id = "workstation";
      port = 40022;
      client_nonce = sample_nonce;
      server_nonce = sample_nonce;
      expires_at = pos 1030;
    })
    ∷ [])

abbrev network : Network sample_world
network = record {
  resolves = true;
  dials = true;
  writes = λ b. true;
  reads = λ b. some challenge_reply;
}

auth_succeeds :
    (auth sample_world client_server "workstation" login network client_clock sample_random
      sample_random sample_random).result
    ≡ ok tt
unfolding auth build_request build_response open_challenge open_message validate_envelope
    seal_message seal validate_field new_gcm additional_data additional_text random_nonce_string
auth_succeeds = refl

auth_cases_example :
    Unanswered sample_world client_server "workstation" login network client_clock sample_random
      sample_random sample_random
      (auth sample_world client_server "workstation" login network client_clock sample_random
        sample_random sample_random)
    ⊎ Answered sample_world client_server "workstation" login network client_clock sample_random
        sample_random sample_random
        (auth sample_world client_server "workstation" login network client_clock sample_random
          sample_random sample_random)
auth_cases_example =
    auth_cases sample_world client_server "workstation" login network client_clock sample_random
      sample_random sample_random

pub client_entry : entry_at 0 client_key granted.server.clients ≡ some client_state
unfolding lookup
client_entry = refl

abbrev pub logged_in : LetIn settings_ready 0 client_key (1001 * second) (
    handle_auth_packet sample_world challenged.server
      (at (1001 * second))
      sample_random
      sample_random
      peer
      second_packet)
logged_in = record {
  handled = granted;
  returned = response_handled;
  forward = shell_port_ready;
  at = refl;
  seconds = 3600;
  expiry = refl;
  entry = client_entry;
}

pub peer_not_denied : is_ip_denied sample_library settings_ready peer ≡ false
unfolding is_ip_denied is_ip_match_rules is_ip_match_rule
peer_not_denied = refl

client_nonce_fits : IsField "client-nonce"
client_nonce_fits =
    (validate_field_iff "client_nonce" "client-nonce").0 (unfold validate_field in refl)

server_nonce_fits : IsField sample_nonce
server_nonce_fits =
    (validate_field_iff "server_nonce" sample_nonce).0 (unfold validate_field in refl)

-- The server's clock is ten seconds ahead.
messages_pass_example :
    (validate_challenge_request
        (request_message sample_world client_server_ready "workstation" 40022 "client-nonce"
          (1000 * second))
        (1010 * second)
      ≡ ok tt)
    × ((validate_challenge_response
            (response_message sample_world client_server_ready "workstation"
              (new_auth_config office_token 40022 (900 * second))
              "client-nonce"
              sample_nonce
              (1000 * second))
            (1010 * second)
          ≡ ok tt)
        ↔ (len office_token ≤ 128))
messages_pass_example =
    messages_pass sample_world client_settings client_settings_ready client_settings_pass 0 0
      client_server_ready client_port_ready "client-nonce" (1000 * second) (1010 * second) refl refl
      client_nonce_fits (record { ahead = omega arith; behind = omega arith }) (900 * second)
      sample_nonce server_nonce_fits
