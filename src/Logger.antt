-- ===== src/Logger.antt =====
-- utils/logger/sls.go: the hook that sends log entries to the Alibaba Cloud log service, up to the
-- contents of a log; the child Request has the rest. `environment` is os.Getenv, and `is_uri` says whether url.ParseRequestURI takes a text.
pub mod Fields
pub mod Start
pub mod Levels
pub mod Request
pub mod Signing
pub mod Sent
pub mod Sorted
pub mod Order
use Prim.Native.String.{◌++◌ as cat, compare}
use Prim.Native.Nat.{Ordering}
use text.Mathlib.Text.{starts_with}
use connauth.Common.{
  String, Bool, true, false, not, ◌&&◌, ◌||◌, Option, none, some, List, [], ◌∷◌, ◌++◌, string_eq,
  ◌==◌, Map, Result, ok, err, refuse_if, ◌>>=◌, ◌>>◌, if◌then◌else◌,
}

pub record AliyunSlsConfig : Type 0 where
  pub enabled : Bool
  pub endpoint : String
  pub project_name : String
  pub log_store_name : String
  pub topic : String
  pub access_key_id : String
  pub access_key_secret : String

pub data SlsError : Type 0 where
  config_incomplete endpoint_invalid : SlsError

-- A variable that is set replaces the setting.
abbrev pub override : (String → String) → String → String → String
override environment name setting =
    if not (environment name == "") then environment name else setting

unfoldable pub apply_sls_env : (String → String) → AliyunSlsConfig → AliyunSlsConfig
apply_sls_env environment cfg = record cfg {
  endpoint = override environment "CONNAUTH_SLS_ENDPOINT" cfg.endpoint;
  project_name = override environment "CONNAUTH_SLS_PROJECT" cfg.project_name;
  log_store_name = override environment "CONNAUTH_SLS_LOGSTORE" cfg.log_store_name;
  topic = override environment "CONNAUTH_SLS_TOPIC" cfg.topic;
  access_key_id = override environment "ALIYUN_SLS_ACCESS_KEY_ID" cfg.access_key_id;
  access_key_secret = override environment "ALIYUN_SLS_ACCESS_KEY_SECRET" cfg.access_key_secret;
}

unfoldable pub normalize_endpoint : String → String
normalize_endpoint endpoint =
    if starts_with endpoint "http://" || starts_with endpoint "https://"
    then endpoint
    else cat "https://" endpoint

-- The hook has the settings; `none` stands for the nil hook.
unfoldable pub new_sls_hook :
    (String → String) → (String → Bool) → AliyunSlsConfig → Result SlsError (Option AliyunSlsConfig)
new_sls_hook environment is_uri settings =
    let cfg = apply_sls_env environment settings in
    if not cfg.enabled then ok none else (do
      refuse_if
          (cfg.endpoint == ""
            || (cfg.project_name == ""
                || (cfg.log_store_name == ""
                    || (cfg.access_key_id == "" || cfg.access_key_secret == ""))))
          config_incomplete
      refuse_if (not (is_uri (normalize_endpoint cfg.endpoint))) endpoint_invalid
      ok (some cfg))

unfoldable pub allowed : String → Bool
allowed k =
    k == "event"
    || (k == "source_ip"
        || (k == "source_addr"
            || (k == "port"
                || (k == "forward_addr"
                    || (k == "client_id"
                        || (k == "key_id"
                            || (k == "result"
                                || (k == "reason"
                                    || (k == "rule_scope"
                                        || (k == "rule_id"
                                            || (k == "rule_type"
                                                || (k == "drop_delay_ms" || k == "error"))))))))))))

unfoldable pub safe_sls_fields {ℓ} : {V : Type ℓ} → Map String V → Map String V
safe_sls_fields [] = []
safe_sls_fields ((k, v) ∷ fields) =
    let rest = safe_sls_fields fields in if allowed k then (k, v) ∷ rest else rest

-- The order of sort.Strings.
abbrev pub comes_first : String → String → Bool
comes_first a b = elim (compare a b) [ Ordering.gt ↦ false | _ ↦ true ]

unfoldable pub insert_sorted : String × String → List (String × String) → List (String × String)
insert_sorted x [] = x ∷ []
insert_sorted x (y ∷ ys) =
    let rest = insert_sorted x ys in if comes_first x.0 y.0 then x ∷ y ∷ ys else y ∷ rest

unfoldable pub sort_fields : Map String String → List (String × String)
sort_fields [] = []
sort_fields (x ∷ fields) = insert_sorted x (sort_fields fields)

-- The contents of the log that `Fire` sends. A field's value is its text, fmt.Sprint.
unfoldable pub log_contents : String → String → Map String String → List (String × String)
log_contents level message fields =
    ("level", level) ∷ (if not (message == "") then ("message", message) ∷ [] else [])
    ++ sort_fields (safe_sls_fields fields)

unfoldable pub should_prefix_project_host : String → Bool
should_prefix_project_host hostname = not (hostname == "127.0.0.1") && not (hostname == "localhost")
