-- ===== src/Logger/Signing.antt =====
-- The signature of the log service's request (utils/logger/sls.go) covers its method, date, digest, size
-- and resource: none of them can be changed under the same signed message.
use Prim.Native.Char.{Char}
use Prim.Native.String.{◌++◌ as cat}
use text.Mathlib.TextLemmas.{append_cancel_left, nil-append, cons-append}
use connauth.Common.{
  ℕ, ◌/◌, ◌%◌, ◌≡◌, refl, String, Bool, true, List, [], ◌∷◌, arith, length, nat_eq,
}
use connauth.Text.{decimal, decimal-every, digit_texts, text_at, text_at-every}
use connauth.Text.Separated.{free_of, split_at_separator}
use connauth.Logger.{AliyunSlsConfig}
use connauth.Logger.Request.{Remote, hex_text, signed_text, md5_hex}

abbrev newline : Char
newline = "\n"

-- The text is on one line.
abbrev pub one_line : String → Bool
one_line = free_of newline

line_split :
    (k l s t : String)
    → one_line k ≡ true
    → one_line l ≡ true
    → cat k (cat "\n" s) ≡ cat l (cat "\n" t)
    → (k ≡ l) × (s ≡ t)
line_split = split_at_separator newline

one_line-append : (s t : String) → one_line s ≡ true → one_line t ≡ true → one_line (cat s t) ≡ true
one_line-append String.[] t hs ht = rw (nil-append t) ht
one_line-append (String.◌∷◌ c s) t hs ht =
    rw (cons-append c s t) (ground (arith, hs, one_line-append s t))

digit_one_line : (n : ℕ) → one_line (text_at digit_texts n) ≡ true
digit_one_line n = text_at-every one_line digit_texts n refl refl

decimal-one_line : (n : ℕ) → one_line (decimal n) ≡ true
decimal-one_line = decimal-every one_line refl refl one_line-append

hex_text-one_line : (bs : List ℕ) → one_line (hex_text bs) ≡ true
unfolding hex_text
hex_text-one_line [] = refl
hex_text-one_line (b ∷ bs) =
    one_line-append (text_at digit_texts (b / 16))
      (cat (text_at digit_texts (b % 16)) (hex_text bs)) (digit_one_line (b / 16))
      (one_line-append (text_at digit_texts (b % 16)) (hex_text bs) (digit_one_line (b % 16))
        (hex_text-one_line bs))

-- What a signed message says.
pub record SameSigned (d d' m m' s s' r r' : String) : Type 0 where
  pub date : d ≡ d'
  pub digest : m ≡ m'
  pub size : s ≡ s'
  pub resource : r ≡ r'

signed_text_injective :
    (m d s r m' d' s' r' : String)
    → one_line m ≡ true
    → one_line m' ≡ true
    → one_line d ≡ true
    → one_line d' ≡ true
    → one_line s ≡ true
    → one_line s' ≡ true
    → signed_text "POST" m "application/x-protobuf" d s r
      ≡ signed_text "POST" m' "application/x-protobuf" d' s' r'
    → SameSigned d d' m m' s s' r r'
unfolding signed_text
signed_text_injective m d s r m' d' s' r' hm hm' hd hd' hs hs' h =
    let (_, h₁) = line_split "POST" "POST" _ _ refl refl h in
    let (same_m, h₂) = line_split m m' _ _ hm hm' h₁ in
    let (_, h₃) = line_split "application/x-protobuf" "application/x-protobuf" _ _ refl refl h₂ in
    let (same_d, h₄) = line_split d d' _ _ hd hd' h₃ in
    let (_, h₅) = line_split "x-log-apiversion:0.6.0" "x-log-apiversion:0.6.0" _ _ refl refl h₄ in
    let (same_s, h₆) =
      line_split s s' _ _ hs hs' (append_cancel_left "x-log-bodyrawsize:" _ _ h₅) in
    let (_, same_r) =
      line_split "x-log-signaturemethod:hmac-sha1" "x-log-signaturemethod:hmac-sha1" _ _ refl refl
        h₆ in
    record { date = same_d; digest = same_m; size = same_s; resource = same_r }

-- Two requests of the hook, whose dates are on one line, have the same signed message only if they
-- have the same date, digest of the body, size of the body and resource.
pub signed_text-SameSigned :
    (remote : Remote) (cfg : AliyunSlsConfig) (date date' : String) (body body' : List ℕ)
    (resource resource' : String)
    → one_line date ≡ true
    → one_line date' ≡ true
    → signed_text "POST"
        (md5_hex remote cfg body)
        "application/x-protobuf"
        date
        (decimal (length body))
        resource
      ≡ signed_text "POST"
          (md5_hex remote cfg body')
          "application/x-protobuf"
          date'
          (decimal (length body'))
          resource'
    → SameSigned date date'
        (md5_hex remote cfg body)
        (md5_hex remote cfg body')
        (decimal (length body))
        (decimal (length body'))
        resource
        resource'
unfolding md5_hex
signed_text-SameSigned remote cfg date date' body body' resource resource' hd hd' h =
    signed_text_injective (hex_text (remote.md5 body)) date (decimal (length body)) resource
      (hex_text (remote.md5 body')) date' (decimal (length body')) resource'
      (hex_text-one_line (remote.md5 body)) (hex_text-one_line (remote.md5 body')) hd hd'
      (decimal-one_line (length body)) (decimal-one_line (length body')) h
