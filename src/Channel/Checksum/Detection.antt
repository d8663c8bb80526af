-- ===== src/Channel/Checksum/Detection.antt =====
-- What the checksum of apps/desktop/src/renderer/src/webrtc/RemoteControlClient.ts tells: it is the
-- same for any cut of a file into chunks, and one changed byte changes it.
use Prim.Native.Nat.{bit_xor}
use remote_controll_app.Prelude.{
  ℕ, ◌*◌, ◌%◌, ◌^◌, ◌<◌, ◌≡◌, refl, ap, List, [], ◌∷◌, ◌++◌, arith, All,
}
use remote_controll_app.Channel.Checksum.{mix, mix_all, update_file_transfer_checksum}
use remote_controll_app.Channel.Checksum.Xor.{bit_xor-left, bit_xor-right, bit_xor-lt}

mix_lt : (next byte : ℕ) → mix next byte < 2 ^ 32
unfolding mix
mix_lt next byte = omega arith

mix_all-lt : (next : ℕ) (bytes : List ℕ) → next < 2 ^ 32 → mix_all next bytes < 2 ^ 32
unfolding mix_all
mix_all-lt next [] h = h
mix_all-lt next (byte ∷ bytes) h = mix_all-lt (mix next byte) bytes (mix_lt next byte)

mix_all-append :
    (next : ℕ) (xs ys : List ℕ) → mix_all next (xs ++ ys) ≡ mix_all (mix_all next xs) ys
unfolding mix_all
mix_all-append next [] ys = refl
mix_all-append next (x ∷ xs) ys = mix_all-append (mix next x) xs ys

-- The checksum of chunks, one after the other, is that of the whole.
pub update-append :
    (checksum : ℕ) (xs ys : List ℕ)
    → update_file_transfer_checksum (update_file_transfer_checksum checksum xs) ys
      ≡ update_file_transfer_checksum checksum (xs ++ ys)
unfolding update_file_transfer_checksum
update-append checksum xs ys =
    let fits = mix_all-lt (checksum % 2 ^ 32) xs (omega arith) in
    let same : mix_all (checksum % 2 ^ 32) xs % 2 ^ 32 ≡ mix_all (checksum % 2 ^ 32) xs =
      omega (arith, fits) in
    rw (same, mix_all-append (checksum % 2 ^ 32) xs ys) refl

-- The factor is odd, so it has an inverse modulo 2^32.
factor_inverse : (x : ℕ) → x * 0x01000193 % 2 ^ 32 * 899433627 % 2 ^ 32 ≡ x % 2 ^ 32
factor_inverse x = omega arith

factor-injective :
    (x y : ℕ) → x < 2 ^ 32 → y < 2 ^ 32 → x * 0x01000193 % 2 ^ 32 ≡ y * 0x01000193 % 2 ^ 32 → x ≡ y
factor-injective x y p q e =
    let same : x * 0x01000193 % 2 ^ 32 * 899433627 % 2 ^ 32
        ≡ y * 0x01000193 % 2 ^ 32 * 899433627 % 2 ^ 32 =
      ap (λ (t : ℕ). t * 899433627 % 2 ^ 32) e in
    omega (arith, factor_inverse x, factor_inverse y, same)

abbrev pub AreBytes : List ℕ → Type 0
AreBytes = All (λ b. b < 256)

mixed-lt : (next byte : ℕ) → next < 2 ^ 32 → byte < 256 → bit_xor next byte < 2 ^ 32
mixed-lt next byte p q = bit_xor-lt 32 next byte p (omega arith)

mix-left :
    (next next' byte : ℕ)
    → next < 2 ^ 32
    → next' < 2 ^ 32
    → byte < 256
    → mix next byte ≡ mix next' byte
    → next ≡ next'
unfolding mix
mix-left next next' byte p q r e =
    bit_xor-left next next' byte
      (factor-injective _ _ (mixed-lt next byte p r) (mixed-lt next' byte q r) e)

mix-right :
    (next byte byte' : ℕ)
    → next < 2 ^ 32
    → byte < 256
    → byte' < 256
    → mix next byte ≡ mix next byte'
    → byte ≡ byte'
unfolding mix
mix-right next byte byte' p q r e =
    bit_xor-right next byte byte'
      (factor-injective _ _ (mixed-lt next byte p q) (mixed-lt next byte' p r) e)

mix_all-left :
    (next next' : ℕ) (bytes : List ℕ)
    → next < 2 ^ 32
    → next' < 2 ^ 32
    → AreBytes bytes
    → mix_all next bytes ≡ mix_all next' bytes
    → next ≡ next'
unfolding mix_all
mix_all-left next next' [] p q bs e = e
mix_all-left next next' (byte ∷ bytes) p q (b, bs) e = mix-left next next' byte p q b (
    mix_all-left (mix next byte) (mix next' byte) bytes (mix_lt next byte) (mix_lt next' byte) bs e)

mix_all-at :
    (next : ℕ) (before after : List ℕ) (byte byte' : ℕ)
    → next < 2 ^ 32
    → byte < 256
    → byte' < 256
    → AreBytes after
    → mix_all next (before ++ byte ∷ after) ≡ mix_all next (before ++ byte' ∷ after)
    → byte ≡ byte'
unfolding mix_all
mix_all-at next [] after byte byte' p q r bs e = mix-right next byte byte' p q r (
    mix_all-left (mix next byte) (mix next byte') after (mix_lt next byte) (mix_lt next byte') bs e)
mix_all-at next (x ∷ before) after byte byte' p q r bs e =
    mix_all-at (mix next x) before after byte byte' (mix_lt next x) q r bs e

-- Where two contents of bytes differ in one place at most and have the same checksum, they are the
-- same.
pub update-detects :
    (checksum : ℕ) (before after : List ℕ) (byte byte' : ℕ)
    → byte < 256
    → byte' < 256
    → AreBytes after
    → update_file_transfer_checksum checksum (before ++ byte ∷ after)
      ≡ update_file_transfer_checksum checksum (before ++ byte' ∷ after)
    → byte ≡ byte'
unfolding update_file_transfer_checksum
update-detects checksum before after byte byte' q r bs e =
    mix_all-at (checksum % 2 ^ 32) before after byte byte' (omega arith) q r bs e

pub update_lt :
    (checksum : ℕ) (bytes : List ℕ) → update_file_transfer_checksum checksum bytes < 2 ^ 32
unfolding update_file_transfer_checksum
update_lt checksum bytes = mix_all-lt (checksum % 2 ^ 32) bytes (omega arith)
