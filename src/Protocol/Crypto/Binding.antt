-- ===== src/Protocol/Crypto/Binding.antt =====
-- The additional data of utils/authproto/crypto.go binds a payload to one key id and one server id.
use Prim.Native.Char.{Char}
use text.Mathlib.TextLemmas.{append_cancel_left}
use connauth.Common.{◌≡◌, String, Bool, true}
use connauth.Text.Separated.{free_of, split_at_separator}
use connauth.Protocol.{Context}
use connauth.Protocol.Crypto.{additional_text, protocol_aad_prefix}

abbrev colon : Char
colon = ":"

-- No colon stands in the text.
abbrev pub colon_free : String → Bool
colon_free = free_of colon

-- Two contexts whose key ids have no colon have the same additional data text only if they are the
-- same context.
pub additional_text_injective :
    (a b : Context)
    → colon_free a.key_id ≡ true
    → colon_free b.key_id ≡ true
    → additional_text a ≡ additional_text b
    → a ≡ b
unfolding additional_text
additional_text_injective a b fa fb h =
    let parts =
      split_at_separator colon a.key_id b.key_id a.server_id b.server_id fa fb
        (append_cancel_left ":" _ _ (append_cancel_left protocol_aad_prefix _ _ h)) in
    λ i. record { key_id = parts.0 i; server_id = parts.1 i }
