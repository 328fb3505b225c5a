-- ===== src/Text/Bytes.antt =====
-- The two ways in which the program's checks measure a text, Go's `len` and its runes, agree.
use Prim.Native.Char.{Char, code, len_utf8, len_utf8_def}
use Prim.Native.String.{len}
use Prim.Native.String.len
use connauth.Common.{◌+◌, ◌≡◌, ◌∙◌, String, arith}
use connauth.Text.{runes, rune_len, byte_len}

rune_len-len_utf8 : (c : Char) → len_utf8 c ≡ rune_len (code c)
unfolding rune_len
rune_len-len_utf8 c = len_utf8_def c ∙ ground arith

pub byte_len-len : (s : String) → len s ≡ byte_len (runes s)
unfolding byte_len
byte_len-len String.[] = len.nil
byte_len-len (String.◌∷◌ c s) = len.cons c s ∙ (λ i. rune_len-len_utf8 c i + byte_len-len s i)
