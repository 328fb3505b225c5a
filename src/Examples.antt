-- ===== src/Examples.antt =====
-- Concrete inputs for the whole development: a small world, configurations and messages. The children
-- run the definitions on them and apply the theorems to them.
pub mod Store
pub mod Settings
pub mod SettingsRuns
pub mod Packets
pub mod Session
pub mod Ports
pub mod Login
pub mod Messages
pub mod Running
pub mod Forwarding
pub mod Programs
pub mod Logs
use text.Mathlib.Text.{starts_with}
use connauth.Common.{
  ℕ, zero, suc, ◌≡◌, refl, ap, String, Bool, true, false, Option, none, some, List, [], ◌∷◌, ◌++◌,
  map, string_eq, ◌==◌, eqb_refl, eq_iff, arith, if◌then◌else◌, length,
}
use connauth.Text.{ascii}
use connauth.Library.{Library}
use connauth.World.{World, Codec, IsCodec}
use connauth.Protocol.{Envelope, ChallengeRequest, Challenge, ChallengeResponse}
use connauth.Protocol.Crypto.{Aead, Crypto, Random}
use connauth.Protocol.Crypto.Sealing.{IsAead, IsRandom}

-- A symbol stands for the bytes of a whole text or message.
pub data Symbol : Type 0 where
  filler : Symbol
  word : String → Symbol
  header : String → String → Symbol
  request : ChallengeRequest → Symbol
  challenge : Challenge → Symbol
  response : ChallengeResponse → Symbol

abbrev pub same_symbol : Symbol → Symbol → Bool
same_symbol (word s) (word t) = s == t
same_symbol _ _ = true

abbrev pub strip : List Symbol → List Symbol → Option (List Symbol)
strip [] t = some t
strip (p ∷ ps) [] = none
strip (p ∷ ps) (x ∷ t) = if same_symbol p x then strip ps t else none

strip-append : (p t : List Symbol) → strip p (p ++ t) ≡ some t
strip-append [] t = refl
strip-append (word s ∷ p) t = ground (arith, eq_iff s s, strip-append p t)
strip-append (filler ∷ p) t = strip-append p t
strip-append (header a b ∷ p) t = strip-append p t
strip-append (request m ∷ p) t = strip-append p t
strip-append (challenge m ∷ p) t = strip-append p t
strip-append (response m ∷ p) t = strip-append p t

-- A cipher that puts the key and the additional data in front of the payload.
abbrev pub sample_aead : List Symbol → Aead Symbol
sample_aead key = record {
  nonce_size = 2;
  seal = λ nonce plain aad. (key ++ aad) ++ plain;
  open_sealed = λ nonce sealed aad. strip (key ++ aad) sealed;
}

pub sample_aead-IsAead : (key : List Symbol) → IsAead (sample_aead key)
sample_aead-IsAead key = record { open-seal = λ nonce plain aad. strip-append (key ++ aad) plain }

abbrev pub sample_crypto : Crypto
sample_crypto = record {
  Byte = Symbol;
  bytes = λ s. word s ∷ [];
  aead = λ key. some (sample_aead key);
  base64 = λ b. "c2VydmVyLW5vbmNl";
}

abbrev fillers : ℕ → List Symbol
fillers zero = []
fillers (suc n) = filler ∷ fillers n

abbrev pub sample_random : Random sample_crypto
sample_random n = some (fillers n)

length-fillers : (n : ℕ) → length (fillers n) ≡ n
length-fillers zero = refl
length-fillers (suc n) = ap suc (length-fillers n)

pub sample_random-IsRandom : IsRandom sample_crypto sample_random
sample_random-IsRandom = record { fills = λ n b e. ground (arith, e, length-fillers n) }

abbrev read_envelope : List Symbol → Option (Envelope Symbol)
read_envelope (header k s ∷ rest) = some (record { key_id = k; server_id = s; payload = rest })
read_envelope _ = none

abbrev read_request : List Symbol → Option ChallengeRequest
read_request (request m ∷ rest) = some m
read_request _ = none

abbrev read_challenge : List Symbol → Option Challenge
read_challenge (challenge m ∷ rest) = some m
read_challenge _ = none

abbrev read_response : List Symbol → Option ChallengeResponse
read_response (response m ∷ rest) = some m
read_response _ = none

abbrev read_type : List Symbol → Option String
read_type (request m ∷ rest) = some m.type
read_type (challenge m ∷ rest) = some m.type
read_type (response m ∷ rest) = some m.type
read_type _ = none

abbrev pub sample_codec : Codec Symbol
sample_codec = record {
  marshal_envelope = λ e. some (header e.key_id e.server_id ∷ e.payload);
  unmarshal_envelope = read_envelope;
  marshal_request = λ m. some (request m ∷ []);
  unmarshal_request = read_request;
  marshal_challenge = λ m. some (challenge m ∷ []);
  unmarshal_challenge = read_challenge;
  marshal_response = λ m. some (response m ∷ []);
  unmarshal_response = read_response;
  unmarshal_type = read_type;
}

pub sample_codec-IsCodec : IsCodec sample_codec
sample_codec-IsCodec = record {
  envelope = λ e b h. let q : header e.key_id e.server_id ∷ e.payload ≡ b = cc h in rw (← q) refl;
  request = λ m b h. let q : request m ∷ [] ≡ b = cc h in rw (← q) refl;
  challenge = λ m b h. let q : challenge m ∷ [] ≡ b = cc h in rw (← q) refl;
  response = λ m b h. let q : response m ∷ [] ≡ b = cc h in rw (← q) refl;
  request_type = λ m b h. let q : request m ∷ [] ≡ b = cc h in rw (← q) refl;
  response_type = λ m b h. let q : response m ∷ [] ≡ b = cc h in rw (← q) refl;
}

-- Names resolve; one network is known; no time is written down; a glob matches itself.
abbrev office_network : String → Option (String → Bool)
office_network rule =
    if rule == "198.51.100.0/24" then some (λ ip. starts_with ip "198.51.100.") else none

abbrev pub sample_library : Library
sample_library = record {
  unicode = ascii;
  split_host_port = λ s. true;
  resolve_udp_addr = λ s. true;
  resolve_ip_addr = λ s. s == "192.0.2.10";
  parse_cidr = office_network;
  parse_time = λ s. none;
  glob = λ pattern subject. pattern == subject;
}

abbrev pub sample_world : World
sample_world = record { lib = sample_library; crypto = sample_crypto; codec = sample_codec }
