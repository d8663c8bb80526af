-- ===== src/Channel/Delivery/Letters.antt =====
-- A codec that does what apps/desktop/src/renderer/src/webrtc/RemoteControlClient.ts relies on in `btoa`
-- and `atob`, for the tests.
use remote_controll_app.Prelude.{
  ℕ, ◌+◌, ◌-◌, ◌*◌, ◌/◌, ◌%◌, ◌≡◌, ◌≤◌, ◌<◌, refl, true, false, Option, none, some, List, [], ◌∷◌,
  arith, length, nat_beq, if◌then◌else◌,
}
use remote_controll_app.Text.{Str, is_letter, is_digit}
use remote_controll_app.Channel.Patterns.{is_base64_unit, is_padding, is_base64_tail, is_base64}
use remote_controll_app.Channel.Checksum.Detection.{AreBytes}
use remote_controll_app.Channel.Delivery.Wire.{IsCodec}

-- Two letters for a byte, and two signs of padding after an odd number of bytes.
abbrev upper_unit : ℕ → ℕ
upper_unit b = 65 + b / 16 % 16

abbrev lower_unit : ℕ → ℕ
lower_unit b = 65 + b % 16

unfoldable pub letters : List ℕ → Str
letters [] = []
letters (a ∷ []) = upper_unit a ∷ lower_unit a ∷ b'=' ∷ b'=' ∷ []
letters (a ∷ b ∷ bytes) = upper_unit a ∷ lower_unit a ∷ upper_unit b ∷ lower_unit b ∷ letters bytes

abbrev byte_of : ℕ → ℕ → ℕ
byte_of x y = (x - 65) * 16 + (y - 65)

abbrev and_then : ℕ → ℕ → Option (List ℕ) → Option (List ℕ)
and_then a b none = none
and_then a b (some bytes) = some (a ∷ b ∷ bytes)

unfoldable pub bytes_of : Str → Option (List ℕ)
bytes_of [] = some []
bytes_of (x ∷ y ∷ z ∷ w ∷ s) =
    let rest = bytes_of s in
    if nat_beq z b'=' then some (byte_of x y ∷ []) else and_then (byte_of x y) (byte_of z w) rest
bytes_of _ = none

byte_of-units : (a : ℕ) → a < 256 → byte_of (upper_unit a) (lower_unit a) ≡ a
byte_of-units a h = omega arith

not_padding : (b : ℕ) → nat_beq (upper_unit b) b'=' ≡ false
not_padding b = ground arith

bytes_of-letters : (bytes : List ℕ) → AreBytes bytes → bytes_of (letters bytes) ≡ some bytes
unfolding bytes_of letters
bytes_of-letters [] h = refl
bytes_of-letters (a ∷ []) (p, h) = rw (byte_of-units a p) refl
bytes_of-letters (a ∷ b ∷ bytes) (p, (q, h)) =
    rw (not_padding b, bytes_of-letters bytes h, byte_of-units a p, byte_of-units b q) refl

is_base64_unit-upper_unit : (b : ℕ) → is_base64_unit (upper_unit b) ≡ true
unfolding is_base64_unit is_letter is_digit
is_base64_unit-upper_unit b = ground arith

is_base64_unit-lower_unit : (b : ℕ) → is_base64_unit (lower_unit b) ≡ true
unfolding is_base64_unit is_letter is_digit
is_base64_unit-lower_unit b = ground arith

is_base64_tail-letters : (bytes : List ℕ) → is_base64_tail (letters bytes) ≡ true
unfolding is_base64_tail letters is_padding is_base64_unit is_letter is_digit
is_base64_tail-letters [] = refl
is_base64_tail-letters (a ∷ []) = rw (is_base64_unit-upper_unit a, is_base64_unit-lower_unit a) refl
is_base64_tail-letters (a ∷ b ∷ bytes) =
    rw
      (
        is_base64_unit-upper_unit a,
        is_base64_unit-lower_unit a,
        is_base64_unit-upper_unit b,
        is_base64_unit-lower_unit b,
      )
      (is_base64_tail-letters bytes)

is_base64-letters : (bytes : List ℕ) → 0 < length bytes → is_base64 (letters bytes) ≡ true
unfolding is_base64 is_base64_tail letters is_padding is_base64_unit is_letter is_digit
is_base64-letters [] h = absurd (omega (arith, h))
is_base64-letters (a ∷ []) h = rw (is_base64_unit-upper_unit a, is_base64_unit-lower_unit a) refl
is_base64-letters (a ∷ b ∷ bytes) h =
    rw
      (
        is_base64_unit-upper_unit a,
        is_base64_unit-lower_unit a,
        is_base64_unit-upper_unit b,
        is_base64_unit-lower_unit b,
      )
      (is_base64_tail-letters bytes)

length-letters_mod : (bytes : List ℕ) → length (letters bytes) % 4 ≡ 0
unfolding letters
length-letters_mod [] = refl
length-letters_mod (a ∷ []) = refl
length-letters_mod (a ∷ b ∷ bytes) = omega (arith, length-letters_mod bytes)

length-letters-le :
    (bytes : List ℕ) → length (letters bytes) ≤ 2 * length bytes + 2 * (length bytes % 2)
unfolding letters
length-letters-le [] = omega arith
length-letters-le (a ∷ []) = omega arith
length-letters-le (a ∷ b ∷ bytes) = omega (arith, length-letters-le bytes)

pub letters-IsCodec : IsCodec letters bytes_of
letters-IsCodec = record {
  decodes = bytes_of-letters;
  shape = λ bytes b h. is_base64-letters bytes h;
  padded = λ bytes b. length-letters_mod bytes;
  short = λ bytes b h. omega (arith, h, length-letters-le bytes);
}
