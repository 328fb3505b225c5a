-- ===== src/Examples/Messages.antt =====
-- The theorems about utils/authproto and the client's warnings applied to concrete messages.
use Prim.Native.String.{len}
use connauth.Common.{◌+◌, ◌*◌, ◌≡◌, ◌≤◌, ◌↔◌, refl, true, false, List, [], ◌∷◌, ok, err, pos}
use connauth.Protocol.{
  decrypt_failed, Context, Envelope, ChallengeRequest, ChallengeResponse, second, timestamp_allowed,
  validate_field, validate_challenge_response, message_type_challenge_request,
  message_type_challenge_response,
}
use connauth.Protocol.Validation.{
  timestamp_allowed_window, IsResponse, validate_challenge_response_iff,
}
use connauth.Protocol.Crypto.{additional_text, additional_data, new_gcm, seal, open_message}
use connauth.Protocol.Crypto.Sealing.{open_message-seal}
use connauth.Protocol.Crypto.Binding.{additional_text_injective}
use connauth.Examples.{
  Symbol, word, filler, sample_aead, sample_aead-IsAead, sample_crypto, sample_random,
  sample_random-IsRandom,
}

-- `len` counts bytes, as Go's does.
len_counts_bytes : len "é" ≡ 2
len_counts_bytes = refl

abbrev request : ChallengeRequest
request = record {
  type = message_type_challenge_request;
  server_id = "connauth-server";
  client_id = "workstation";
  port = 40022;
  client_nonce = "client-nonce";
  timestamp = pos 1000;
}

abbrev response : ChallengeResponse
response = record {
  type = message_type_challenge_response;
  server_id = "connauth-server";
  client_id = "workstation";
  port = 40022;
  client_nonce = "client-nonce";
  server_nonce = "server-nonce";
  token = "office-demonstration-token";
  timestamp = pos 1000;
}

early_allowed : timestamp_allowed (pos 1000) (985 * second) ≡ true
unfolding timestamp_allowed
early_allowed = refl

late_allowed : timestamp_allowed (pos 1000) (1060 * second) ≡ true
unfolding timestamp_allowed
late_allowed = refl

-- One second outside the window on either side.
outside_refused :
    (timestamp_allowed (pos 1000) (984 * second) ≡ false)
    × (timestamp_allowed (pos 1000) (1061 * second) ≡ false)
unfolding timestamp_allowed
outside_refused = (refl, refl)

timestamp_allowed_window_example : 1060 * second ≤ 985 * second + 75 * second
timestamp_allowed_window_example =
    timestamp_allowed_window (pos 1000) (985 * second) (1060 * second) early_allowed late_allowed

validate_challenge_response_iff_example :
    (validate_challenge_response response (1000 * second) ≡ ok tt)
    ↔ IsResponse response (1000 * second)
validate_challenge_response_iff_example = validate_challenge_response_iff response (1000 * second)

abbrev envelope : Envelope Symbol
envelope = record { key_id = "primary"; server_id = "connauth-server"; payload = filler ∷ [] }

abbrev context : Context
context = record { key_id = "primary"; server_id = "connauth-server" }

abbrev plain : List Symbol
plain = word "hello" ∷ []

abbrev key : List Symbol
key = word "primary-demonstration-key" ∷ []

abbrev sealed : List Symbol
sealed =
    filler
    ∷ (filler
        ∷ (word "primary-demonstration-key"
            ∷ (word "connauth:challenge-auth:primary:connauth-server" ∷ (word "hello" ∷ []))))

plain_sealed : seal sample_crypto sample_random key context plain ≡ ok sealed
unfolding seal validate_field new_gcm additional_data additional_text
plain_sealed = refl

open_message-seal_example : open_message sample_crypto key context sealed ≡ ok plain
open_message-seal_example =
    open_message-seal sample_crypto sample_random sample_random-IsRandom key context plain sealed
      (λ gcm e. let same : sample_aead key ≡ gcm = cc e in rw (← same) (sample_aead-IsAead key))
      plain_sealed

-- Under another key or context nothing opens.
sealed_refused :
    (open_message sample_crypto (word "another-demonstration-key" ∷ []) context sealed
      ≡ err decrypt_failed)
    × (open_message sample_crypto key (record context { server_id = "other" }) sealed
        ≡ err decrypt_failed)
unfolding open_message validate_field new_gcm additional_data additional_text
sealed_refused = (refl, refl)

additional_text_injective_example : context ≡ context
additional_text_injective_example = additional_text_injective context context refl refl refl

-- With a colon in a key id two contexts have the same text.
colon_collides :
    additional_text (record { key_id = "a:b"; server_id = "c" })
    ≡ additional_text (record { key_id = "a"; server_id = "b:c" })
unfolding additional_text
colon_collides = refl
