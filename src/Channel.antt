-- ===== src/Channel.antt =====
-- The messages of the data channel between host and viewer: the parsing and the sanitizers of
-- apps/desktop/src/renderer/src/webrtc/RemoteControlClient.ts. `JSON.parse` and `atob` are parameters,
-- `none` where they throw.
pub mod Patterns
pub mod Encoded
pub mod Bounds
pub mod Checksum
pub mod Lifecycle
pub mod Transfers
pub mod Sending
pub mod Delivery
mod Tests
use remote_controll_app.Prelude.{
  ℕ, suc, ◌*◌, ◌%◌, nat_beq, map, Bool, true, false, not, ◌&&◌, ◌||◌, Option, none, some, List, [],
  ◌∷◌, if◌then◌else◌, leb, length, any,
}
use remote_controll_app.Text.{Str, lit, str_beq, is_empty}
use remote_controll_app.Value.{
  Value, undefined, boolean, number, string, array, Items, nil, cons, Fields, as_record, as_string,
  as_boolean, lookup_field,
}
use remote_controll_app.Value.Numeric.{Number, whole_within}
use remote_controll_app.Signaling.Payloads.{non_empty, ◌>>=◌}
use remote_controll_app.Input.{sanitize_string, read_index, read_frame_rate}
use remote_controll_app.Input.Control.{ControlMessage, pointer_of, keyboard_of}
use Patterns.{is_base64, is_mime_type, is_checksum, lower, has_image_prefix, after_comma}

-- `HostSource`
pub record Source : Type 0 where
  pub id : Str
  pub name : Str
  pub display_id : Option Str

-- `HostCommandMessage["command"]`
pub data HostCommand : Type 0 where
  switch_source : Str → HostCommand
  update_stream_settings : Option Bool → Option ℕ → HostCommand

-- `ClipboardSyncMessage`
pub record Clipboard : Type 0 where
  pub text : Option Str
  pub html : Option Str
  pub image_data_url : Option Str

-- `DataChannelMessage`
pub data Message : Type 0 where
  control : ControlMessage → Message
  host_state : List Source → Option Str → Message
  host_command : HostCommand → Message
  clipboard_sync : Clipboard → Message
  file_transfer_start : Str → Str → Str → ℕ → Message
  file_transfer_chunk : Str → ℕ → Str → Message
  file_transfer_complete : Str → Str → Message
  file_transfer_abort : Str → Option Str → Message

abbrev pub mebibytes : ℕ → ℕ
mebibytes n = n * 1024 * 1024

-- A test that lets its text through.
abbrev pub only_if : Bool → Str → Option Str
only_if true s = some s
only_if false s = none

-- `sanitizeControlPointerMessage` and `sanitizeControlKeyboardMessage`, whose text is that of the two
-- sanitizers of ipcValidation.ts.
unfoldable pub sanitize_control_pointer_message : Fields → Option ControlMessage
sanitize_control_pointer_message value = do
  event ← as_record (lookup_field (lit "event") value)
  type ← as_string (lookup_field (lit "type") event)
  pointer_of type event

unfoldable pub sanitize_control_keyboard_message : Fields → Option ControlMessage
sanitize_control_keyboard_message value = do
  event ← as_record (lookup_field (lit "event") value)
  type ← as_string (lookup_field (lit "type") event)
  keyboard_of type event

-- `Array.isArray(value.sources)`
unfoldable pub as_array : Value → Option Items
as_array (array items) = some items
as_array _ = none

unfoldable pub count : Items → ℕ
count nil = 0
count (cons v items) = suc (count items)

unfoldable pub read_source : Value → Option Source
read_source value = do
  fields ← as_record value
  id ← non_empty (sanitize_string 256 true (lookup_field (lit "id") fields))
  name ← non_empty (sanitize_string 256 true (lookup_field (lit "name") fields))
  some (record {
    id = id;
    name = name;
    display_id = non_empty (sanitize_string 64 true (lookup_field (lit "displayId") fields));
  })

-- `sourceIds.has(id)`
abbrev pub is_seen : Str → List Source → Bool
is_seen id sources = any (λ source. str_beq source.id id) sources

-- The sources after one that was accepted, if its id is not among those before it.
abbrev pub push_source : Source → Bool → Option (List Source) → Option (List Source)
push_source source true rest = none
push_source source false none = none
push_source source false (some sources) = some (source ∷ sources)

-- The loop over the sources; `seen` are those that were pushed before.
unfoldable pub read_sources : Items → List Source → Option (List Source)
unfolding read_source
read_sources nil seen = some []
read_sources (cons v items) seen = elim (read_source v) [
  | none ↦ none
  | some source ↦ push_source source (is_seen source.id seen) (read_sources items (source ∷ seen))
]

abbrev pub sources_within : ℕ → Items → Option (List Source)
sources_within max items = if leb (count items) max then read_sources items [] else none

-- An active source that is named must be among the sources.
abbrev pub check_active : Option Str → List Source → Option (Option Str)
check_active none sources = some none
check_active (some id) sources = if is_seen id sources then some (some id) else none

unfoldable pub sanitize_host_state_message : Fields → Option Message
unfolding read_sources count
sanitize_host_state_message value = do
  items ← as_array (lookup_field (lit "sources") value)
  sources ← sources_within 16 items
  active ←
      check_active
        (non_empty (sanitize_string 256 true (lookup_field (lit "activeSourceId") value))) sources
  some (host_state sources active)

-- The settings of a stream, if one of them is given.
abbrev pub stream_settings : Option Bool → Option ℕ → Option HostCommand
stream_settings none none = none
stream_settings audio rate = some (update_stream_settings audio rate)

unfoldable pub read_switch : Fields → Option HostCommand
read_switch command = do
  id ← non_empty (sanitize_string 256 true (lookup_field (lit "sourceId") command))
  some (switch_source id)

unfoldable pub read_command : Str → Fields → Option HostCommand
unfolding read_switch read_frame_rate
read_command type command =
    if str_beq type (lit "switch-source")
    then read_switch command
    else if str_beq type (lit "update-stream-settings")
    then stream_settings (as_boolean (lookup_field (lit "audioEnabled") command))
        (read_frame_rate (lookup_field (lit "frameRate") command))
    else none

unfoldable pub sanitize_host_command_message : Fields → Option Message
sanitize_host_command_message value = do
  command ← as_record (lookup_field (lit "command") value)
  type ← as_string (lookup_field (lit "type") command)
  result ← read_command type command
  some (host_command result)

-- `sanitizeMimeType(value) ?? "application/octet-stream"`
abbrev pub mime_or_default : Option Str → Str
mime_or_default none = lit "application/octet-stream"
mime_or_default (some s) = s

unfoldable pub sanitize_mime_type : Value → Option Str
sanitize_mime_type value = do
  type ← non_empty (sanitize_string 128 false value)
  only_if (is_mime_type type) type

unfoldable pub sanitize_checksum : Value → Option Str
sanitize_checksum value = do
  checksum ← non_empty (sanitize_string 8 false value)
  only_if (is_checksum checksum) (lower checksum)

unfoldable pub read_transfer_id : Fields → Option Str
read_transfer_id value = non_empty (sanitize_string 80 true (lookup_field (lit "transferId") value))

unfoldable pub read_file_size : Value → Option ℕ
read_file_size (number n) = whole_within 0 (mebibytes 256) n
read_file_size _ = none

unfoldable pub sanitize_file_transfer_start_message : Fields → Option Message
sanitize_file_transfer_start_message value = do
  id ← read_transfer_id value
  name ← sanitize_string 260 false (lookup_field (lit "name") value)
  size ← read_file_size (lookup_field (lit "size") value)
  some (
      file_transfer_start id name
        (mime_or_default (sanitize_mime_type (lookup_field (lit "mimeType") value))) size)

unfoldable pub sanitize_file_transfer_complete_message : Fields → Option Message
sanitize_file_transfer_complete_message value = do
  id ← read_transfer_id value
  checksum ← sanitize_checksum (lookup_field (lit "checksum") value)
  some (file_transfer_complete id checksum)

unfoldable pub sanitize_file_transfer_abort_message : Fields → Option Message
sanitize_file_transfer_abort_message value = do
  id ← read_transfer_id value
  some (file_transfer_abort id (sanitize_string 256 false (lookup_field (lit "reason") value)))

-- A message with none of the three is refused.
abbrev pub clipboard_of : Option Str → Option Str → Option Str → Option Message
clipboard_of none none none = none
clipboard_of text html image =
    some (clipboard_sync (record { text = text; html = html; image_data_url = image }))

abbrev pub as_control : Option ControlMessage → Option Message
as_control none = none
as_control (some c) = some (control c)
