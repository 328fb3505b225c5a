-- ===== src/Logger/Request.antt =====
-- utils/logger/sls.go: the signed HTTP request of the log service's hook, and `Fire`. `Remote` has what
-- it calls: net/http, net/url, the hash functions, and protobuf's encoder.
use Prim.Native.Nat.{◌^◌}
use Prim.Native.Char.{code}
use Prim.Native.String.{◌++◌ as cat}
use connauth.Common.{
  ℕ, ◌/◌, ◌%◌, String, ◌||◌, Option, none, some, List, [], ◌∷◌, length, ltb, leb, ◌==◌, nat_eq, Map,
  Result, err, if◌then◌else◌, refuse_if,
}
use connauth.Text.{decimal, digit_texts, text_at}
use connauth.Protocol.{second}
use connauth.Logger.{AliyunSlsConfig, normalize_endpoint, should_prefix_project_host, log_contents}

-- A LogContent is the pair of its key and its value.
pub record Log : Type 0 where
  pub time : ℕ
  pub contents : List (String × String)

pub record LogGroup : Type 0 where
  pub logs : List Log
  pub topic : String
  pub source : Option String

-- A URL as the request holds it: `hostname` is the host without its port.
pub record Url : Type 0 where
  pub host : String
  pub hostname : String
  pub escaped_path : String

pub record Request : Type 0 where
  pub method : String
  pub url : Url
  pub host : String
  pub headers : List (String × String)
  pub body : List ℕ

pub data PutError : Type 0 where
  marshal_failed bad_url not_sent : PutError
  bad_status : ℕ → PutError

pub record Remote : Type 0 where
  pub path_escape : String → String
  -- the URL of http.NewRequest, `none` on an error
  pub parse_url : String → Option Url
  -- Format(http.TimeFormat) of a time in UTC
  pub http_date : ℕ → String
  pub md5 : List ℕ → List ℕ
  pub hmac_sha1 : String → String → List ℕ
  pub base64 : List ℕ → String
  pub marshal : LogGroup → Option (List ℕ)
  -- client.Do: the status code of the response
  pub send : Request → Option ℕ

-- hex.EncodeToString after strings.ToUpper.
unfoldable pub hex_text : List ℕ → String
hex_text [] = ""
hex_text (b ∷ bs) =
    cat (text_at digit_texts (b / 16)) (cat (text_at digit_texts (b % 16)) (hex_text bs))

-- strings.TrimRight(s, "/")
unfoldable pub trim_right_slash : String → String
trim_right_slash String.[] = ""
trim_right_slash (String.◌∷◌ c s) =
    let rest = trim_right_slash s in
    elim rest [
      | String.[] ↦ if code c == b'/' then "" else String.◌∷◌ c String.[]
      | String.◌∷◌ d t ↦ String.◌∷◌ c (String.◌∷◌ d t)
    ]

abbrev pub line : String → String → String
line s rest = cat s (cat "\n" rest)

-- The message of `signature`.
unfoldable pub signed_text : String → String → String → String → String → String → String
signed_text method content_md5 content_type date body_size resource = line method (
    line content_md5 (
      line content_type (
        line date (
          line "x-log-apiversion:0.6.0" (
            cat "x-log-bodyrawsize:"
              (line body_size (line "x-log-signaturemethod:hmac-sha1" resource)))))))

module _ (remote : Remote) (cfg : AliyunSlsConfig) where
  unfoldable pub md5_hex : List ℕ → String
  md5_hex body = hex_text (remote.md5 body)

  unfoldable pub signature : String → String → String → String → String → String → String
  signature method content_md5 content_type date body_size resource = remote.base64 (
      remote.hmac_sha1 cfg.access_key_secret
        (signed_text method content_md5 content_type date body_size resource))

  abbrev pub put_url : String
  put_url =
      cat (trim_right_slash (normalize_endpoint cfg.endpoint))
        (cat "/logstores/" (cat (remote.path_escape cfg.log_store_name) "/shards/lb"))

  abbrev pub prefix_host : Url → Url
  prefix_host url =
      if should_prefix_project_host url.hostname
      then record url { host = cat cfg.project_name (cat "." url.host) }
      else url

  -- The request of `putLogs`, with the headers in the order of the calls.
  unfoldable pub put_request : Url → List ℕ → ℕ → Request
  put_request parsed body now =
      let url = prefix_host parsed in
      let date = remote.http_date now in
      let content_md5 = md5_hex body in
      let body_size = decimal (length body) in
      record {
        method = "POST";
        url = url;
        host = url.host;
        headers =
            ("Date", date)
            ∷ ("Content-Type", "application/x-protobuf")
            ∷ ("Content-MD5", content_md5)
            ∷ ("x-log-apiversion", "0.6.0")
            ∷ ("x-log-bodyrawsize", body_size)
            ∷ ("x-log-signaturemethod", "hmac-sha1")
            ∷ (
              "Authorization",
              cat "LOG " (
                  cat cfg.access_key_id (
                    cat ":" (
                      signature "POST" content_md5 "application/x-protobuf" date body_size
                        url.escaped_path))),
            )
            ∷ [];
        body = body;
      }

  abbrev pub check_status : Option ℕ → Result PutError (Unit {0})
  check_status none = err not_sent
  check_status (some code) = refuse_if (ltb code 200 || leb 300 code) (bad_status code)

  unfoldable pub put_logs : List ℕ → ℕ → Result PutError (Unit {0})
  put_logs body now = elim (remote.parse_url put_url) [
    | none ↦ err bad_url
    | some parsed ↦ check_status (remote.send (put_request parsed body now))
  ]

  -- The group that `Fire` sends, for an entry's level, message and fields.
  unfoldable pub log_group : String → String → Map String String → ℕ → LogGroup
  log_group level message fields now = record {
    logs =
        record { time = (now / second) % 2 ^ 32; contents = log_contents level message fields }
        ∷ [];
    topic = cfg.topic;
    source = none;
  }

  unfoldable pub fire : String → String → Map String String → ℕ → Result PutError (Unit {0})
  fire level message fields now = elim (remote.marshal (log_group level message fields now)) [
    | none ↦ err marshal_failed
    | some body ↦ put_logs body now
  ]
