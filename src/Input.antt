-- ===== src/Input.antt =====
-- apps/desktop/src/main/ipcValidation.ts: what the desktop's main process accepts of a renderer.
pub mod Control
pub mod Bounds
pub mod Transfers
mod Tests
use remote_controll_app.Prelude.{
  ℕ, ◌*◌, Bool, true, false, ◌&&◌, ◌||◌, Option, none, some, List, [], ◌∷◌, if◌then◌else◌, leb,
  length, all, nat_beq,
}
use remote_controll_app.Text.{Str, lit, str_beq, trim, is_empty, is_word}
use remote_controll_app.Value.{
  Value, undefined, string, number, bytes, Fields, as_record, lookup_field, as_boolean,
}
use remote_controll_app.Value.Numeric.{
  Number, nonneg, is_integer, at_least, whole_part, whole_within, equals,
}
use remote_controll_app.Signaling.Payloads.{non_empty, ◌>>=◌}

-- `sanitizeString(value, maxLength, trim)`
unfoldable pub sanitize_string : ℕ → Bool → Value → Option Str
sanitize_string max trims (string s) =
    let normalized = if trims then trim s else s in
    if leb (length s) max && leb (length normalized) max then some normalized else none
sanitize_string max trims _ = none

unfoldable pub sanitize_host_access_password_input : Value → Option Str
sanitize_host_access_password_input (string s) = if leb (length s) 256 then some s else none
sanitize_host_access_password_input _ = none

-- `HostPresencePayload`
pub record HostPresence : Type 0 where
  pub connected : Bool
  pub viewer_name : Option Str

unfoldable pub sanitize_host_presence_payload : Value → Option HostPresence
sanitize_host_presence_payload value = do
  fields ← as_record value
  connected ← as_boolean (lookup_field (lit "connected") fields)
  some (record {
    connected = connected;
    viewer_name = non_empty (sanitize_string 80 true (lookup_field (lit "viewerName") fields));
  })

-- `ViewerSettingsPatch`
pub record ViewerSettings : Type 0 where
  pub capture_local_input : Option Bool
  pub connect_in_fullscreen : Option Bool
  pub disconnect_shortcut : Option Str
  pub frame_rate : Option ℕ
  pub receive_audio : Option Bool
  pub switch_monitor_shortcut : Option Str
  pub take_control : Option Bool

unfoldable pub read_frame_rate : Value → Option ℕ
read_frame_rate (number n) =
    if equals n 15
    then some 15
    else if equals n 30
    then some 30
    else if equals n 60
    then some 60
    else none
read_frame_rate _ = none

abbrev pub no_settings : ViewerSettings
no_settings = record {
  capture_local_input = none;
  connect_in_fullscreen = none;
  disconnect_shortcut = none;
  frame_rate = none;
  receive_audio = none;
  switch_monitor_shortcut = none;
  take_control = none;
}

unfoldable pub settings_of : Option Fields → ViewerSettings
settings_of none = no_settings
settings_of (some fields) = record {
  capture_local_input = as_boolean (lookup_field (lit "captureLocalInput") fields);
  connect_in_fullscreen = as_boolean (lookup_field (lit "connectInFullscreen") fields);
  disconnect_shortcut =
      non_empty (sanitize_string 64 true (lookup_field (lit "disconnectShortcut") fields));
  frame_rate = read_frame_rate (lookup_field (lit "frameRate") fields);
  receive_audio = as_boolean (lookup_field (lit "receiveAudio") fields);
  switch_monitor_shortcut =
      non_empty (sanitize_string 64 true (lookup_field (lit "switchMonitorShortcut") fields));
  take_control = as_boolean (lookup_field (lit "takeControl") fields);
}

unfoldable pub sanitize_viewer_settings_payload : Value → ViewerSettings
unfolding settings_of
sanitize_viewer_settings_payload value = settings_of (as_record value)

unfoldable pub sanitize_optional_file_path : Value → Option Str
sanitize_optional_file_path value = sanitize_string 2048 false value

-- `/^[A-Za-z0-9._-]{1,80}$/`
unfoldable pub is_transfer_id : Str → Bool
unfolding is_word
is_transfer_id s = all is_word s && leb 1 (length s) && leb (length s) 80

abbrev pub check_transfer_id : Str → Option Str
check_transfer_id s = if is_transfer_id s then some s else none

unfoldable pub sanitize_transfer_id : Value → Option Str
sanitize_transfer_id value = do
  normalized ← non_empty (sanitize_string 80 true value)
  check_transfer_id normalized

abbrev pub max_transfer_bytes : ℕ
max_transfer_bytes = 256 * 1024 * 1024

abbrev pub max_chunk_bytes : ℕ
max_chunk_bytes = 64 * 1024

-- `IncomingFileTransferStartPayload`
pub record TransferStart : Type 0 where
  pub transfer_id : Str
  pub name : Str
  pub size : ℕ

-- `IncomingFileTransferAppendPayload`
pub record TransferChunk : Type 0 where
  pub transfer_id : Str
  pub index : ℕ
  pub content : List ℕ

unfoldable pub read_size : Value → Option ℕ
read_size (number n) = whole_within 0 max_transfer_bytes n
read_size _ = none

-- `Number.isInteger(index) && index >= 0`
unfoldable pub read_index : Value → Option ℕ
read_index (number n) = if is_integer n && at_least n 0 then whole_part n else none
read_index _ = none

unfoldable pub read_chunk : Value → Option (List ℕ)
read_chunk (bytes bs) = if leb (length bs) max_chunk_bytes then some bs else none
read_chunk _ = none

unfoldable pub sanitize_start_incoming_transfer_payload : Value → Option TransferStart
sanitize_start_incoming_transfer_payload value = do
  fields ← as_record value
  transfer_id ← sanitize_transfer_id (lookup_field (lit "transferId") fields)
  name ← sanitize_string 260 false (lookup_field (lit "name") fields)
  size ← read_size (lookup_field (lit "size") fields)
  some (record { transfer_id = transfer_id; name = name; size = size })

unfoldable pub sanitize_append_incoming_transfer_payload : Value → Option TransferChunk
sanitize_append_incoming_transfer_payload value = do
  fields ← as_record value
  transfer_id ← sanitize_transfer_id (lookup_field (lit "transferId") fields)
  chunk ← read_chunk (lookup_field (lit "bytes") fields)
  index ← read_index (lookup_field (lit "index") fields)
  some (record { transfer_id = transfer_id; index = index; content = chunk })
