-- ===== src/Examples/Logs.antt =====
-- The log service's hook on a small entry, and rounds of a client's loop, with the theorems about them
-- applied.
use connauth.Common.{
  ◌≡◌, refl, String, Bool, true, false, none, some, List, [], ◌∷◌, Map, length, ok, ◌==◌, string_eq,
  if◌then◌else◌,
}
use connauth.Text.{decimal}
use connauth.Logger.{AliyunSlsConfig, log_contents, normalize_endpoint, should_prefix_project_host}
use connauth.Logger.Request.{
  Remote, Url, md5_hex, fire, hex_text, put_logs, put_request, trim_right_slash,
}
use connauth.Logger.Signing.{SameSigned, signed_text-SameSigned}
use connauth.Logger.Order.{log_contents-Perm}
use mathlib.Core.List.Perm
use connauth.Client.Alarm.{initial, round}
use connauth.Client.Loop.{Select, ticks, stops, auth_loop}
use connauth.Client.Loop.Rounds.{made, has_stop, Warnings, auth_loop-Runs}

abbrev hook : AliyunSlsConfig
hook = record {
  enabled = true;
  endpoint = "log.example.org/";
  project_name = "gate";
  log_store_name = "auth";
  topic = "";
  access_key_id = "id";
  access_key_secret = "secret";
}

abbrev url : Url
url = record {
  host = "log.example.org";
  hostname = "log.example.org";
  escaped_path = "/logstores/auth/shards/lb";
}

abbrev remote : Remote
remote = record {
  path_escape = λ s. s;
  parse_url =
      λ s. if s == "https://log.example.org/logstores/auth/shards/lb" then some url else none;
  http_date = λ now. "Thu, 01 Jan 1970 00:00:05 GMT";
  md5 = λ body. 0x0f ∷ 0xa5 ∷ [];
  hmac_sha1 = λ key text. [];
  base64 = λ bytes. "";
  marshal = λ group. some (10 ∷ 0 ∷ []);
  send = λ request. some 200;
}

abbrev fields : Map String String
fields = ("port", "40022") ∷ ("event", "auth_success") ∷ []

entry_fired : fire remote hook "info" "" fields 5000000000 ≡ ok tt
unfolding fire put_logs put_request trim_right_slash normalize_endpoint should_prefix_project_host
entry_fired = refl

digest_in_capitals : md5_hex remote hook [] ≡ "0FA5"
unfolding md5_hex hex_text
digest_in_capitals = refl

abbrev date : String
date = "Thu, 01 Jan 1970 00:00:05 GMT"

signed_text-SameSigned_example :
    SameSigned date date
      (md5_hex remote hook (10 ∷ []))
      (md5_hex remote hook (10 ∷ []))
      (decimal 1)
      (decimal 1)
      "/logstores/auth/shards/lb"
      "/logstores/auth/shards/lb"
signed_text-SameSigned_example =
    signed_text-SameSigned remote hook date date (10 ∷ []) (10 ∷ []) "/logstores/auth/shards/lb"
      "/logstores/auth/shards/lb" refl refl refl

abbrev value : String → String
value name = if name == "port" then "40022" else "auth_success"

abbrev turned : Map String String
turned = ("event", "auth_success") ∷ ("port", "40022") ∷ []

log_contents-Perm_example : log_contents "info" "" fields ≡ log_contents "info" "" turned
log_contents-Perm_example =
    log_contents-Perm value "info" "" fields turned
      (Perm.swap ("event", "auth_success") ("port", "40022") []) (refl, (refl, tt))

abbrev rounds : List (Bool × Select)
rounds = (false, ticks) ∷ (false, ticks) ∷ (true, ticks) ∷ (false, stops) ∷ (false, ticks) ∷ []

warned_twice : (auth_loop initial rounds).warned ≡ 1 ∷ 1 ∷ []
unfolding auth_loop round
warned_twice = refl

auth_loop-Runs_example :
    ((auth_loop initial rounds).attempts ≡ length (made rounds))
    × ((auth_loop initial rounds).stopped ≡ has_stop rounds)
    × Warnings 0 (made rounds) (auth_loop initial rounds).warned
auth_loop-Runs_example = auth_loop-Runs rounds
