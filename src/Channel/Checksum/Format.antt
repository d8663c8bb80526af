-- ===== src/Channel/Checksum/Format.antt =====
-- The digits of a checksum: `formatFileTransferChecksum` of
-- apps/desktop/src/renderer/src/webrtc/RemoteControlClient.ts.
use remote_controll_app.Prelude.{
  ℕ, zero, suc, ◌+◌, ◌-◌, ◌*◌, ◌/◌, ◌%◌, ◌^◌, ◌≤◌, ◌<◌, ◌≡◌, refl, Bool, true, ◌&&◌, ◌||◌, some, [],
  ◌∷◌, ◌++◌, arith, if◌then◌else◌, leb, Bool-cases, inl, inr, length, all, ap, ◌∙◌,
}
use native.Mathlib.Nat.{pow-suc}
use remote_controll_app.Text.{Str, is_digit}
use remote_controll_app.Value.{string}
use remote_controll_app.Input.{sanitize_string}
use remote_controll_app.Channel.{sanitize_checksum}
use remote_controll_app.Channel.Patterns.{is_checksum, is_hex_unit, lower}
use remote_controll_app.Channel.Checksum.{
  hex_digit, hex_digits, zeros, format_file_transfer_checksum,
}

-- What digits spell behind `n`.
abbrev value : ℕ → Str → ℕ
value n [] = n
value n (c ∷ s) = value (16 * n + (if leb c b'9' then c - b'0' else c - 87)) s

value-append :
    (n : ℕ) (s : Str) (d : ℕ) → d ≤ 15 → value n (s ++ hex_digit d ∷ []) ≡ 16 * value n s + d
value-append n [] d h = ground arith
value-append n (c ∷ s) d h = value-append (16 * n + (if leb c b'9' then c - b'0' else c - 87)) s d h

value-hex_digits : (places n : ℕ) → n < 16 ^ places → value 0 (hex_digits places n) ≡ n
unfolding hex_digits
value-hex_digits zero n h = omega arith
value-hex_digits (suc places) n h = elim (Bool-cases (leb n 15)) [
  | inl y ↦ rw y (ground arith)
  | inr m ↦
      rw (m, value-append 0 (hex_digits places (n / 16)) (n % 16) (omega arith))
        (omega (arith, value-hex_digits places (n / 16) (omega (arith, pow-suc 16 places))))
]

value-zeros : (k : ℕ) (s : Str) → value 0 (zeros k ++ s) ≡ value 0 s
unfolding zeros
value-zeros zero s = refl
value-zeros (suc k) s = value-zeros k s

-- A text of the digits that are written: lower case.
abbrev is_plain : ℕ → Bool
is_plain c = (leb b'0' c && leb c b'9') || (leb b'a' c && leb c b'f')

plain-append :
    (s : Str) (d : ℕ) → d ≤ 15 → all is_plain s ≡ true → all is_plain (s ++ hex_digit d ∷ []) ≡ true
plain-append [] d h p = ground arith
plain-append (c ∷ s) d h p = ground (arith, plain-append s d)

plain-hex_digits : (places n : ℕ) → all is_plain (hex_digits places n) ≡ true
unfolding hex_digits
plain-hex_digits zero n = refl
plain-hex_digits (suc places) n = elim (Bool-cases (leb n 15)) [
  | inl y ↦ rw y (ground arith)
  | inr m ↦ rw m (
      plain-append (hex_digits places (n / 16)) (n % 16) (omega arith)
        (plain-hex_digits places (n / 16)))
]

length-snoc : (s : Str) (d : ℕ) → length (s ++ d ∷ []) ≡ suc (length s)
length-snoc [] d = refl
length-snoc (c ∷ s) d = ap (λ (n : ℕ). suc n) (length-snoc s d)

length-hex_digits : (places n : ℕ) → length (hex_digits places n) ≤ places
unfolding hex_digits
length-hex_digits zero n = omega arith
length-hex_digits (suc places) n = elim (Bool-cases (leb n 15)) [
  | inl y ↦ rw y (omega arith)
  | inr m ↦
      rw (m, length-snoc (hex_digits places (n / 16)) (hex_digit (n % 16)))
        (omega (arith, length-hex_digits places (n / 16)))
]

length-zeros : (k : ℕ) (s : Str) → length (zeros k ++ s) ≡ k + length s
unfolding zeros
length-zeros zero s = omega arith
length-zeros (suc k) s = ground (arith, length-zeros k s)

plain-zeros : (k : ℕ) (s : Str) → all is_plain s ≡ true → all is_plain (zeros k ++ s) ≡ true
unfolding zeros
plain-zeros zero s h = h
plain-zeros (suc k) s h = ground (arith, plain-zeros k s)

plain-hex : (s : Str) → all is_plain s ≡ true → all is_hex_unit s ≡ true
unfolding is_hex_unit is_digit
plain-hex [] h = refl
plain-hex (c ∷ s) h = ground (arith, plain-hex s)

lower-plain : (s : Str) → all is_plain s ≡ true → lower s ≡ s
unfolding lower
lower-plain [] h = refl
lower-plain (c ∷ s) h = ground (arith, lower-plain s)

length-format : (c : ℕ) → length (format_file_transfer_checksum c) ≡ 8
unfolding format_file_transfer_checksum
length-format c = omega (
  arith,
  length-zeros (8 - length (hex_digits 8 (c % 2 ^ 32))) (hex_digits 8 (c % 2 ^ 32)),
  length-hex_digits 8 (c % 2 ^ 32),
)

plain-format : (c : ℕ) → all is_plain (format_file_transfer_checksum c) ≡ true
unfolding format_file_transfer_checksum
plain-format c =
    plain-zeros (8 - length (hex_digits 8 (c % 2 ^ 32))) (hex_digits 8 (c % 2 ^ 32))
      (plain-hex_digits 8 (c % 2 ^ 32))

value-format : (c : ℕ) → value 0 (format_file_transfer_checksum c) ≡ c % 2 ^ 32
unfolding format_file_transfer_checksum
value-format c =
    value-zeros (8 - length (hex_digits 8 (c % 2 ^ 32))) (hex_digits 8 (c % 2 ^ 32))
    ∙ value-hex_digits 8 (c % 2 ^ 32) (omega arith)

-- Checksums of 32 bits with the same text are the same.
pub format-injective :
    (c d : ℕ)
    → c < 2 ^ 32
    → d < 2 ^ 32
    → format_file_transfer_checksum c ≡ format_file_transfer_checksum d
    → c ≡ d
format-injective c d p q e = omega (arith, value-format c, value-format d, ap (λ s. value 0 s) e)

checked : (c : ℕ) → is_checksum (format_file_transfer_checksum c) ≡ true
unfolding is_checksum
checked c =
    ground (arith, length-format c, plain-hex (format_file_transfer_checksum c) (plain-format c))

sanitize_eight :
    (s : Str) → length s ≡ 8 → is_checksum s ≡ true → sanitize_checksum (string s) ≡ some (lower s)
unfolding sanitize_checksum sanitize_string
sanitize_eight [] e h = absurd (omega (arith, e))
sanitize_eight (c ∷ s) e h = ground arith

-- What a sender writes, its receiver reads back: the text of a checksum passes the sanitizer
-- unchanged.
pub sanitize_checksum-format :
    (c : ℕ)
    → sanitize_checksum (string (format_file_transfer_checksum c))
      ≡ some (format_file_transfer_checksum c)
sanitize_checksum-format c =
    sanitize_eight (format_file_transfer_checksum c) (length-format c) (checked c)
    ∙ ap some (lower-plain (format_file_transfer_checksum c) (plain-format c))
