-- ===== src/Channel/Encoded.antt =====
-- The messages with base64, and any message of the data channel: `sanitizeBase64`,
-- `sanitizeDataChannelMessage` and `parseDataChannelMessage` of
-- apps/desktop/src/renderer/src/webrtc/RemoteControlClient.ts.
use remote_controll_app.Prelude.{
  ℕ, ◌*◌, ◌%◌, nat_beq, map, Bool, false, ◌&&◌, Option, none, some, List, if◌then◌else◌, leb,
  length,
}
use remote_controll_app.Text.{Str, lit, str_beq}
use remote_controll_app.Value.{Value, string, Fields, as_record, as_string, lookup_field}
use remote_controll_app.Channel.{
  Message, file_transfer_chunk, mebibytes, only_if, sanitize_control_pointer_message,
  sanitize_control_keyboard_message, sanitize_host_state_message, sanitize_host_command_message,
  read_transfer_id, sanitize_file_transfer_start_message, sanitize_file_transfer_complete_message,
  sanitize_file_transfer_abort_message, clipboard_of, as_control,
}
use remote_controll_app.Signaling.Payloads.{non_empty, ◌>>=◌}
use remote_controll_app.Input.{sanitize_string, read_index}
use remote_controll_app.Channel.Patterns.{is_base64, has_image_prefix, after_comma}

module _ (atob : Str → Option Str) where
  -- `base64ToBytes`: the code units as they are stored in a `Uint8Array`.
  abbrev pub base64_to_bytes : Str → Option (List ℕ)
  base64_to_bytes s = do binary ← atob s; some (map (λ c. c % 256) binary)

  -- The text, if it decodes to at most `max` bytes.
  abbrev pub decodes_within : ℕ → Option (List ℕ) → Bool
  decodes_within max none = false
  decodes_within max (some decoded) = leb (length decoded) max

  unfoldable pub sanitize_base64 : ℕ → ℕ → Value → Option Str
  sanitize_base64 max_length max_bytes value = do
    text ← non_empty (sanitize_string max_length false value)
    only_if
        (nat_beq (length text % 4) 0
          && is_base64 text
          && decodes_within max_bytes (base64_to_bytes text))
        text

  -- The part after the comma must be base64; the whole is returned.
  abbrev pub image_checked : Str → Option Str → Option Str
  image_checked url none = none
  image_checked url (some base64) = do
    checked ← sanitize_base64 (mebibytes 12) (mebibytes 12) (string base64)
    some url

  unfoldable pub sanitize_clipboard_image_data_url : Value → Option Str
  unfolding sanitize_base64
  sanitize_clipboard_image_data_url value = do
    url ← non_empty (sanitize_string (mebibytes 12) false value)
    prefixed ← only_if (has_image_prefix url) url
    image_checked prefixed (after_comma prefixed)

  unfoldable pub sanitize_clipboard_sync_message : Fields → Option Message
  sanitize_clipboard_sync_message value =
      clipboard_of (sanitize_string (mebibytes 1) false (lookup_field (lit "text") value))
        (sanitize_string (mebibytes 1) false (lookup_field (lit "html") value))
        (sanitize_clipboard_image_data_url (lookup_field (lit "imageDataUrl") value))

  unfoldable pub sanitize_file_transfer_chunk_message : Fields → Option Message
  sanitize_file_transfer_chunk_message value = do
    id ← read_transfer_id value
    encoded ← sanitize_base64 (96 * 1024) (72 * 1024) (lookup_field (lit "data") value)
    index ← read_index (lookup_field (lit "index") value)
    some (file_transfer_chunk id index encoded)

  unfoldable pub message_of_kind : Str → Fields → Option Message
  message_of_kind kind value =
      if str_beq kind (lit "pointer")
      then as_control (sanitize_control_pointer_message value)
      else if str_beq kind (lit "keyboard")
      then as_control (sanitize_control_keyboard_message value)
      else if str_beq kind (lit "host-state")
      then sanitize_host_state_message value
      else if str_beq kind (lit "host-command")
      then sanitize_host_command_message value
      else if str_beq kind (lit "clipboard-sync")
      then sanitize_clipboard_sync_message value
      else if str_beq kind (lit "file-transfer-start")
      then sanitize_file_transfer_start_message value
      else if str_beq kind (lit "file-transfer-chunk")
      then sanitize_file_transfer_chunk_message value
      else if str_beq kind (lit "file-transfer-complete")
      then sanitize_file_transfer_complete_message value
      else if str_beq kind (lit "file-transfer-abort")
      then sanitize_file_transfer_abort_message value
      else none

  unfoldable pub sanitize_data_channel_message : Value → Option Message
  sanitize_data_channel_message value = do
    fields ← as_record value
    kind ← as_string (lookup_field (lit "kind") fields)
    message_of_kind kind fields

  -- `parseDataChannelMessage`
  unfoldable pub parse_data_channel_message : (Str → Option Value) → Value → Option Message
  parse_data_channel_message parse_json (string s) =
      if leb (length s) (mebibytes 13) then parse_json s >>= sanitize_data_channel_message else none
  parse_data_channel_message parse_json _ = none
