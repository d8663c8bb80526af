-- ===== src/Channel/Checksum.antt =====
-- The checksum of a transferred file in apps/desktop/src/renderer/src/webrtc/RemoteControlClient.ts:
-- FNV-1a on 32 bits, and its eight hexadecimal digits.
pub mod Xor
pub mod Format
pub mod Detection
use Prim.Native.Nat.{bit_xor}
use remote_controll_app.Prelude.{
  ℕ, zero, suc, ◌+◌, ◌-◌, ◌*◌, ◌/◌, ◌%◌, ◌^◌, List, [], ◌∷◌, ◌++◌, if◌then◌else◌, leb, length,
}
use remote_controll_app.Text.{Str}

-- `createFileTransferChecksum`
abbrev pub create_file_transfer_checksum : ℕ
create_file_transfer_checksum = 0x811c9dc5

-- One round of the loop: the exclusive or, and the product modulo 2^32.
unfoldable pub mix : ℕ → ℕ → ℕ
mix next byte = bit_xor next byte * 0x01000193 % 2 ^ 32

unfoldable pub mix_all : ℕ → List ℕ → ℕ
unfolding mix
mix_all next [] = next
mix_all next (byte ∷ bytes) = mix_all (mix next byte) bytes

-- `updateFileTransferChecksum`
unfoldable pub update_file_transfer_checksum : ℕ → List ℕ → ℕ
unfolding mix_all
update_file_transfer_checksum checksum bytes = mix_all (checksum % 2 ^ 32) bytes

abbrev pub hex_digit : ℕ → ℕ
hex_digit d = if leb d 9 then b'0' + d else 87 + d

-- `toString(16)` of a number below 16 ^ places.
unfoldable pub hex_digits : ℕ → ℕ → Str
hex_digits zero n = []
hex_digits (suc places) n =
    let front = hex_digits places (n / 16) in
    if leb n 15 then hex_digit n ∷ [] else front ++ hex_digit (n % 16) ∷ []

unfoldable pub zeros : ℕ → Str
zeros zero = []
zeros (suc n) = b'0' ∷ zeros n

-- `formatFileTransferChecksum`, with `padStart(8, "0")`
unfoldable pub format_file_transfer_checksum : ℕ → Str
unfolding hex_digits zeros
format_file_transfer_checksum checksum =
    let text = hex_digits 8 (checksum % 2 ^ 32) in zeros (8 - length text) ++ text
