-- ===== src/Channel/Patterns.antt =====
-- The regular expressions of apps/desktop/src/renderer/src/webrtc/RemoteControlClient.ts.
use remote_controll_app.Prelude.{
  ℕ, ◌+◌, Bool, true, false, not, ◌&&◌, ◌||◌, Option, none, some, List, [], ◌∷◌, ◌++◌,
  if◌then◌else◌, leb, nat_beq, length, all, any,
}
use remote_controll_app.Text.{Str, lit, is_empty, is_letter, is_digit, split}

-- Both cases of the letters A to Z, as `toLowerCase` and the flag `i` have it on ASCII text.
unfoldable pub lower : Str → Str
lower [] = []
lower (c ∷ s) = (if leb b'A' c && leb c b'Z' then c + 32 else c) ∷ lower s

-- `[A-Za-z0-9+/]`
unfoldable pub is_base64_unit : ℕ → Bool
is_base64_unit c = is_letter c || is_digit c || nat_beq c b'+' || nat_beq c b'/'

-- `=*$`, and `[A-Za-z0-9+/]*=*$`
unfoldable pub is_padding : Str → Bool
is_padding s = all (λ c. nat_beq c b'=') s

unfoldable pub is_base64_tail : Str → Bool
unfolding is_base64_unit is_padding
is_base64_tail [] = true
is_base64_tail (c ∷ s) =
    let rest = is_base64_tail s in if is_base64_unit c then rest else is_padding (c ∷ s)

-- `/^[A-Za-z0-9+/]+=*$/`
unfoldable pub is_base64 : Str → Bool
unfolding is_base64_tail is_base64_unit
is_base64 [] = false
is_base64 (c ∷ s) = is_base64_unit c && is_base64_tail s

-- `[a-z0-9!#$&^_.+-]` with the flag `i`
unfoldable pub is_token_unit : ℕ → Bool
is_token_unit c =
    is_letter c
    || is_digit c
    || nat_beq c b'!'
    || nat_beq c b'#'
    || nat_beq c b'$'
    || nat_beq c b'&'
    || nat_beq c b'^'
    || nat_beq c b'_'
    || nat_beq c b'.'
    || nat_beq c b'+'
    || nat_beq c b'-'

abbrev pub is_token : Str → Bool
is_token s = not (is_empty s) && all is_token_unit s

abbrev pub are_two_tokens : List Str → Bool
are_two_tokens (a ∷ b ∷ []) = is_token a && is_token b
are_two_tokens _ = false

-- `mimeTypePattern`: a token, a slash and a token; a token has no slash.
unfoldable pub is_mime_type : Str → Bool
unfolding is_token_unit
is_mime_type s = are_two_tokens (split b'/' s)

-- `[a-f0-9]` with the flag `i`
unfoldable pub is_hex_unit : ℕ → Bool
is_hex_unit c = is_digit c || (leb b'a' c && leb c b'f') || (leb b'A' c && leb c b'F')

-- `checksumPattern`
unfoldable pub is_checksum : Str → Bool
unfolding is_hex_unit
is_checksum s = all is_hex_unit s && nat_beq (length s) 8

unfoldable pub starts_with : Str → Str → Bool
starts_with [] s = true
starts_with (p ∷ prefix) [] = false
starts_with (p ∷ prefix) (c ∷ s) = nat_beq p c && starts_with prefix s

abbrev pub image_types : List Str
image_types = lit "png" ∷ lit "jpeg" ∷ lit "jpg" ∷ lit "webp" ∷ lit "gif" ∷ lit "bmp" ∷ []

-- `imageDataUrlPrefixPattern`
unfoldable pub has_image_prefix : Str → Bool
unfolding starts_with lower
has_image_prefix s =
    any (λ type. starts_with (lit "data:image/" ++ type ++ lit ";base64,") (lower s)) image_types

-- What follows the first comma, where there is one.
unfoldable pub after_comma : Str → Option Str
after_comma [] = none
after_comma (c ∷ s) = let rest = after_comma s in if nat_beq c b',' then some s else rest
