-- ===== src/Logger/Sent.antt =====
-- What `Fire` (utils/logger/sls.go) sends when it reports no error, and that it reports none then only.
use Prim.Native.Nat.{◌^◌}
use connauth.Common.{
  All, lookup, length, string_eq, ℕ, ◌<◌, ◌≤◌, ◌≡◌, String, some, List, [], ◌∷◌, ◌++◌, ◌==◌, ◌/◌,
  ◌%◌, if◌then◌else◌, Map,
}
use connauth.Protocol.{second}
use connauth.Logger.Fields.{IsSafe}
use connauth.Logger.{AliyunSlsConfig, safe_sls_fields}
use mathlib.Core.List.{Perm}
use connauth.Text.{decimal}
use connauth.Logger.Sorted.{IsSorted}
use connauth.Logger.Request.{md5_hex, Remote, Url, put_url, put_request, log_group}

-- The contents of an entry: the level, the message unless it is empty, and then every field whose name
-- is in the list, in the order of the names.
pub record IsEntry (level message : String) (fields : Map String String)
    (contents : List (String × String)) : Type 0 where
  pub rest : List (String × String)
  pub whole :
      contents
      ≡ ("level", level) ∷ (if message == "" then [] else ("message", message) ∷ []) ++ rest
  pub ordered : IsSorted rest
  pub complete : Perm rest (safe_sls_fields fields)
  pub safe : All IsSafe contents

module _ (remote : Remote) (cfg : AliyunSlsConfig) (level message : String)
    (fields : Map String String) (now : ℕ) where
  -- One signed request with the encoded entry, which the service accepted.
  pub record IsAccepted : Type 0 where
    pub body : List ℕ
    pub encoded : remote.marshal (log_group remote cfg level message fields now) ≡ some body
    pub parsed : Url
    pub addressed : remote.parse_url (put_url remote cfg) ≡ some parsed
    pub code : ℕ
    pub answered : remote.send (put_request remote cfg parsed body now) ≡ some code
    pub low : 200 ≤ code
    pub high : code < 300
    pub contents : List (String × String)
    pub alone :
        (log_group remote cfg level message fields now).logs
        ≡ record { time = (now / second) % 2 ^ 32; contents = contents } ∷ []
    pub entry : IsEntry level message fields contents
    pub digest :
        lookup "Content-MD5" (put_request remote cfg parsed body now).headers
        ≡ some (md5_hex remote cfg body)
    pub size :
        lookup "x-log-bodyrawsize" (put_request remote cfg parsed body now).headers
        ≡ some (decimal (length body))
