-- ===== src/Channel/Bounds.antt =====
-- What the sanitizers of apps/desktop/src/renderer/src/webrtc/RemoteControlClient.ts let through.
pub mod Sources
pub mod Messages
use remote_controll_app.Prelude.{
  ℕ, suc, ◌+◌, ◌*◌, ◌%◌, ◌≤◌, ◌≡◌, ◌≢◌, refl, Bool, true, false, not, ◌&&◌, Option, none, some,
  List, [], ◌∷◌, arith, Bool-cases, inl, inr, ◌⊎◌, if◌then◌else◌, leb, leb→le, nat_beq, length,
  subst, all,
}
use remote_controll_app.Text.{
  Str, lit, is_empty, str_beq, split, split_head, split_tail, is_letter, is_digit,
}
use remote_controll_app.Value.{
  Value, number, string, boolean, Fields, as_record, as_string, as_boolean, lookup_field,
}
use remote_controll_app.Value.Numeric.{whole_within, whole_within_bounds, equals}
use remote_controll_app.Signaling.Payloads.{non_empty, ◌>>=◌}
use remote_controll_app.Signaling.Payloads.Bounds.{bind-eq-some, of_some}
use remote_controll_app.Input.{sanitize_string, read_index, read_frame_rate}
use remote_controll_app.Input.Control.{ControlMessage}
use remote_controll_app.Input.Bounds.{
  Short, IsControl, sanitize_string-Short, sanitize_string-short_some, non_empty-some,
  pointer_of-IsControl, keyboard_of-IsControl, if_some, nothing_some,
}
use remote_controll_app.Channel.{
  Source, HostCommand, switch_source, update_stream_settings, Clipboard, Message, control,
  host_state, host_command, clipboard_sync, file_transfer_start, file_transfer_chunk,
  file_transfer_complete, file_transfer_abort, mebibytes, only_if, sanitize_control_pointer_message,
  sanitize_control_keyboard_message, as_array, sources_within, check_active, is_seen,
  sanitize_host_state_message, stream_settings, read_switch, read_command,
  sanitize_host_command_message, mime_or_default, sanitize_mime_type, sanitize_checksum,
  read_transfer_id, read_file_size, sanitize_file_transfer_start_message,
  sanitize_file_transfer_complete_message, sanitize_file_transfer_abort_message, clipboard_of,
  as_control,
}
use remote_controll_app.Channel.Encoded.{
  base64_to_bytes, decodes_within, sanitize_base64, image_checked,
  sanitize_clipboard_image_data_url, sanitize_clipboard_sync_message,
  sanitize_file_transfer_chunk_message, message_of_kind, sanitize_data_channel_message,
}
use remote_controll_app.Channel.Patterns.{
  is_mime_type, is_token_unit, is_checksum, is_hex_unit, lower, is_base64, has_image_prefix,
  after_comma,
}

-- A text that is not empty and no longer than the limit.
abbrev pub Named : ℕ → Str → Type 0
Named max s = (is_empty s ≡ false) × (length s ≤ max)

pub read-Named :
    (max : ℕ) (v : Value) {s : Str} → non_empty (sanitize_string max true v) ≡ some s → Named max s
read-Named max v e = non_empty-some max _ (sanitize_string-Short max true v) e

pub only_if-some : (b : Bool) (s : Str) {t : Str} → only_if b s ≡ some t → (b ≡ true) × (s ≡ t)
only_if-some true s h = (refl, cc h)
only_if-some false s h = cc h

-- A frame rate that the streams know.
abbrev pub IsRate : Option ℕ → Type 0
IsRate none = Unit
IsRate (some n) = (n ≡ 15) ⊎ ((n ≡ 30) ⊎ (n ≡ 60))

pub read_frame_rate-IsRate : (v : Value) → IsRate (read_frame_rate v)
unfolding read_frame_rate
read_frame_rate-IsRate (number n) = elim (Bool-cases (equals n 15)) [
  | inl y ↦ rw y (inl refl)
  | inr n15 ↦ elim (Bool-cases (equals n 30)) [
    | inl y ↦ rw (n15, y) (inr (inl refl))
    | inr n30 ↦ elim (Bool-cases (equals n 60)) [
      | inl y ↦ rw (n15, n30, y) (inr (inr refl))
      | inr n60 ↦ rw (n15, n30, n60) tt
    ]
  ]
]
read_frame_rate-IsRate v = tt

abbrev pub IsCommand : HostCommand → Type 0
IsCommand (switch_source id) = Named 256 id
IsCommand (update_stream_settings none none) = ⊥
IsCommand (update_stream_settings audio rate) = IsRate rate

stream_settings-IsCommand :
    (audio : Option Bool) (rate : Option ℕ) {c : HostCommand}
    → IsRate rate
    → stream_settings audio rate ≡ some c
    → IsCommand c
stream_settings-IsCommand none none r h = cc h
stream_settings-IsCommand none (some n) r h = of_some IsCommand h r
stream_settings-IsCommand (some b) rate r h = of_some IsCommand h r

pub read_command-IsCommand :
    (type : Str) (command : Fields) {c : HostCommand}
    → read_command type command ≡ some c
    → IsCommand c
unfolding read_command read_switch
read_command-IsCommand type command h =
    if_some IsCommand (str_beq type (lit "switch-source")) _ _
      (λ e.
        let (id, e1, e2) =
          bind-eq-some
            (non_empty (sanitize_string 256 true (lookup_field (lit "sourceId") command))) _ e in
        of_some IsCommand e2 (read-Named 256 _ e1))
      (if_some IsCommand (str_beq type (lit "update-stream-settings")) _ _
        (stream_settings-IsCommand _ _ (read_frame_rate-IsRate _)) (nothing_some IsCommand))
      h

-- The digits of a checksum stay digits in lower case.
hex-lower : (s : Str) → all is_hex_unit s ≡ true → all is_hex_unit (lower s) ≡ true
unfolding lower is_hex_unit is_digit
hex-lower [] h = refl
hex-lower (c ∷ s) h = ground (arith, hex-lower s)

length-lower : (s : Str) → length (lower s) ≡ length s
unfolding lower
length-lower [] = refl
length-lower (c ∷ s) = ground (arith, length-lower s)

checksum-lower : (s : Str) → is_checksum s ≡ true → is_checksum (lower s) ≡ true
unfolding is_checksum
checksum-lower s h = ground (arith, hex-lower s, length-lower s)

pub sanitize_checksum-checked :
    (v : Value) {s : Str} → sanitize_checksum v ≡ some s → is_checksum s ≡ true
unfolding sanitize_checksum
sanitize_checksum-checked v {s} h =
    let (c, _, h1) = bind-eq-some (non_empty (sanitize_string 8 false v)) _ h in
    let (y, same) = only_if-some (is_checksum c) (lower c) h1 in rw (← same) (checksum-lower c y)
