-- ===== src/Channel/Bounds/Messages.antt =====
-- Every message that the channel accepts keeps the limits: `sanitizeDataChannelMessage` of
-- apps/desktop/src/renderer/src/webrtc/RemoteControlClient.ts.
use remote_controll_app.Prelude.{
  ℕ, ◌*◌, ◌%◌, ◌≤◌, ◌≡◌, refl, true, false, Option, none, some, arith, Option-cases, inl, inr,
  length,
}
use remote_controll_app.Text.{Str, lit, str_beq, split, split_head, split_tail, is_letter, is_digit}
use remote_controll_app.Value.{Value, number, string, Fields, as_record, as_string, lookup_field}
use remote_controll_app.Value.Numeric.{whole_within_bounds}
use remote_controll_app.Signaling.Payloads.{non_empty}
use remote_controll_app.Signaling.Payloads.Bounds.{bind-eq-some, of_some}
use remote_controll_app.Input.{sanitize_string, read_index}
use remote_controll_app.Input.Control.{ControlMessage, pointer_of, keyboard_of}
use remote_controll_app.Input.Bounds.{
  Short, IsControl, sanitize_string-Short, sanitize_string-short_some, non_empty-some,
  pointer_of-IsControl, keyboard_of-IsControl, if_some, nothing_some,
}
use remote_controll_app.Channel.{
  Clipboard, Message, control, host_state, host_command, clipboard_sync, file_transfer_start,
  file_transfer_chunk, file_transfer_complete, file_transfer_abort, mebibytes, only_if,
  sanitize_control_pointer_message, sanitize_control_keyboard_message, as_array, sources_within,
  check_active, sanitize_host_state_message, read_command, sanitize_host_command_message,
  mime_or_default, sanitize_mime_type, sanitize_checksum, read_transfer_id, read_file_size,
  sanitize_file_transfer_start_message, sanitize_file_transfer_complete_message,
  sanitize_file_transfer_abort_message, clipboard_of, as_control,
}
use remote_controll_app.Channel.Encoded.{
  base64_to_bytes, decodes_within, sanitize_base64, image_checked,
  sanitize_clipboard_image_data_url, sanitize_clipboard_sync_message,
  sanitize_file_transfer_chunk_message, message_of_kind, sanitize_data_channel_message,
}
use remote_controll_app.Channel.Patterns.{
  is_mime_type, is_token_unit, is_checksum, is_base64, has_image_prefix, after_comma,
}
use remote_controll_app.Channel.Bounds.{
  Named, read-Named, only_if-some, IsCommand, read_command-IsCommand, sanitize_checksum-checked,
}
use remote_controll_app.Channel.Bounds.Sources.{
  AreSources, sources_within-AreSources, IsActive, check_active-IsActive,
}

-- An image, if there is one: a data URL within the limit.
abbrev pub IsImage : Option Str → Type 0
IsImage none = Unit
IsImage (some url) = (has_image_prefix url ≡ true) × (length url ≤ mebibytes 12)

-- A clipboard has one of the three at least.
abbrev pub HasContent : Option Str → Option Str → Option Str → Type 0
HasContent none none none = ⊥
HasContent text html image = Unit

pub record IsClipboard (c : Clipboard) : Type 0 where
  pub text : Short (mebibytes 1) c.text
  pub html : Short (mebibytes 1) c.html
  pub image : IsImage c.image_data_url
  pub content : HasContent c.text c.html c.image_data_url

default_mime : is_mime_type (lit "application/octet-stream") ≡ true
unfolding is_mime_type is_token_unit is_letter is_digit split split_head split_tail
default_mime = refl

sanitize_mime_type-checked :
    (v : Value) {s : Str} → sanitize_mime_type v ≡ some s → is_mime_type s ≡ true
unfolding sanitize_mime_type
sanitize_mime_type-checked v h =
    let (t, _, h1) = bind-eq-some (non_empty (sanitize_string 128 false v)) _ h in
    let (y, same) = only_if-some (is_mime_type t) t h1 in rw (← same) y

read_file_size-bound : (v : Value) {n : ℕ} → read_file_size v ≡ some n → n ≤ mebibytes 256
unfolding read_file_size
read_file_size-bound (number n) h = (whole_within_bounds 0 (mebibytes 256) n h).1
read_file_size-bound v h = cc h

module _ (atob : Str → Option Str) where
  -- A text of base64 that decodes to no more bytes than allowed.
  pub record IsEncoded (max_length max_bytes : ℕ) (s : Str) : Type 0 where
    pub text : is_base64 s ≡ true
    pub whole : length s % 4 ≡ 0
    pub short : Named max_length s
    pub decoded : decodes_within atob max_bytes (base64_to_bytes atob s) ≡ true

  -- What a message may hold.
  abbrev pub IsMessage : Message → Type 0
  IsMessage (control c) = IsControl c
  IsMessage (host_state sources active) =
      AreSources sources × (length sources ≤ 16) × IsActive active sources
  IsMessage (host_command c) = IsCommand c
  IsMessage (clipboard_sync c) = IsClipboard c
  IsMessage (file_transfer_start id name mime size) =
      Named 80 id × (length name ≤ 260) × (is_mime_type mime ≡ true) × (size ≤ mebibytes 256)
  IsMessage (file_transfer_chunk id index encoded) =
      Named 80 id × IsEncoded (96 * 1024) (72 * 1024) encoded
  IsMessage (file_transfer_complete id checksum) = Named 80 id × (is_checksum checksum ≡ true)
  IsMessage (file_transfer_abort id reason) = Named 80 id × Short 256 reason

  read_transfer_id-Named : (value : Fields) {s : Str} → read_transfer_id value ≡ some s → Named 80 s
  unfolding read_transfer_id
  read_transfer_id-Named value e = read-Named 80 _ e

  sanitize_base64-IsEncoded :
      (max_length max_bytes : ℕ) (v : Value) {s : Str}
      → sanitize_base64 atob max_length max_bytes v ≡ some s
      → IsEncoded max_length max_bytes s
  unfolding sanitize_base64
  sanitize_base64-IsEncoded max_length max_bytes v {s} h =
      let (t, e, h1) = bind-eq-some (non_empty (sanitize_string max_length false v)) _ h in
      let (tests, same) = only_if-some _ t h1 in
      rw (← same) (record {
        text = ground arith;
        whole = ground arith;
        short = non_empty-some max_length _ (sanitize_string-Short max_length false v) e;
        decoded = ground arith;
      })

  image_checked-some :
      (url : Str) (o : Option Str) {s : Str} → image_checked atob url o ≡ some s → url ≡ s
  image_checked-some url none h = cc h
  image_checked-some url (some base64) h =
      let (checked, _, h1) =
        bind-eq-some (sanitize_base64 atob (mebibytes 12) (mebibytes 12) (string base64)) _ h in
      cc h1

  sanitize_clipboard_image_data_url-some :
      (v : Value) {s : Str} → sanitize_clipboard_image_data_url atob v ≡ some s → IsImage (some s)
  unfolding sanitize_clipboard_image_data_url
  sanitize_clipboard_image_data_url-some v {s} h =
      let (url, e, h1) = bind-eq-some (non_empty (sanitize_string (mebibytes 12) false v)) _ h in
      let (prefixed, e1, h2) = bind-eq-some (only_if (has_image_prefix url) url) _ h1 in
      let (y, same) = only_if-some (has_image_prefix url) url e1 in
      let b = non_empty-some (mebibytes 12) _ (sanitize_string-Short (mebibytes 12) false v) e in
      rw (← image_checked-some prefixed (after_comma prefixed) h2, ← same) (y, b.1)

  sanitize_clipboard_image_data_url-IsImage :
      (v : Value) → IsImage (sanitize_clipboard_image_data_url atob v)
  sanitize_clipboard_image_data_url-IsImage v =
      elim (Option-cases (sanitize_clipboard_image_data_url atob v)) [
        | inl e ↦ rw e tt
        | inr (s, e) ↦ rw e (sanitize_clipboard_image_data_url-some v e)
      ]

  clipboard_of-IsMessage :
      (text html image : Option Str) {m : Message}
      → Short (mebibytes 1) text
      → Short (mebibytes 1) html
      → IsImage image
      → clipboard_of text html image ≡ some m
      → IsMessage m
  clipboard_of-IsMessage none none none t k i h = cc h
  clipboard_of-IsMessage (some s) html image t k i h =
      of_some IsMessage h (record { text = t; html = k; image = i; content = tt })
  clipboard_of-IsMessage none (some s) image t k i h =
      of_some IsMessage h (record { text = t; html = k; image = i; content = tt })
  clipboard_of-IsMessage none none (some s) t k i h =
      of_some IsMessage h (record { text = t; html = k; image = i; content = tt })

  clipboard-IsMessage :
      (value : Fields) {m : Message}
      → sanitize_clipboard_sync_message atob value ≡ some m
      → IsMessage m
  unfolding sanitize_clipboard_sync_message
  clipboard-IsMessage value h =
      clipboard_of-IsMessage _ _ _ (sanitize_string-Short (mebibytes 1) false _)
        (sanitize_string-Short (mebibytes 1) false _) (sanitize_clipboard_image_data_url-IsImage _)
        h

  as_control-IsMessage :
      (o : Option ControlMessage) {m : Message}
      → ((c : ControlMessage) → o ≡ some c → IsControl c)
      → as_control o ≡ some m
      → IsMessage m
  as_control-IsMessage none f h = cc h
  as_control-IsMessage (some c) f h = of_some IsMessage h (f c refl)

  pointer-IsControl :
      (value : Fields) (c : ControlMessage)
      → sanitize_control_pointer_message value ≡ some c
      → IsControl c
  unfolding sanitize_control_pointer_message
  pointer-IsControl value c h =
      let (event, _, h1) = bind-eq-some (as_record _) _ h in
      let (type, _, h2) =
        bind-eq-some (as_string (lookup_field (lit "type") event)) (λ t. pointer_of t event) h1 in
      pointer_of-IsControl type event h2

  keyboard-IsControl :
      (value : Fields) (c : ControlMessage)
      → sanitize_control_keyboard_message value ≡ some c
      → IsControl c
  unfolding sanitize_control_keyboard_message
  keyboard-IsControl value c h =
      let (event, _, h1) = bind-eq-some (as_record _) _ h in
      let (type, _, h2) =
        bind-eq-some (as_string (lookup_field (lit "type") event)) (λ t. keyboard_of t event) h1 in
      keyboard_of-IsControl type event h2

  host_state-IsMessage :
      (value : Fields) {m : Message} → sanitize_host_state_message value ≡ some m → IsMessage m
  unfolding sanitize_host_state_message
  host_state-IsMessage value h =
      let (items, _, h1) = bind-eq-some (as_array (lookup_field (lit "sources") value)) _ h in
      let (sources, e, h2) = bind-eq-some (sources_within 16 items) _ h1 in
      let (active, e', h3) =
        bind-eq-some
          (check_active
            (non_empty (sanitize_string 256 true (lookup_field (lit "activeSourceId") value)))
            sources)
          _ h2 in
      let (ok, size) = sources_within-AreSources 16 items e in
      of_some IsMessage h3 (ok, size, check_active-IsActive _ sources e')

  host_command-IsMessage :
      (value : Fields) {m : Message} → sanitize_host_command_message value ≡ some m → IsMessage m
  unfolding sanitize_host_command_message
  host_command-IsMessage value h =
      let (command, _, h1) = bind-eq-some (as_record (lookup_field (lit "command") value)) _ h in
      let (type, _, h2) = bind-eq-some (as_string (lookup_field (lit "type") command)) _ h1 in
      let (c, e, h3) = bind-eq-some (read_command type command) _ h2 in
      of_some IsMessage h3 (read_command-IsCommand type command e)

  mime-checked : (v : Value) → is_mime_type (mime_or_default (sanitize_mime_type v)) ≡ true
  unfolding sanitize_mime_type
  mime-checked v = elim (Option-cases (sanitize_mime_type v)) [
    | inl e ↦ rw e default_mime
    | inr (s, e) ↦ rw e (sanitize_mime_type-checked v e)
  ]

  start-IsMessage :
      (value : Fields) {m : Message}
      → sanitize_file_transfer_start_message value ≡ some m
      → IsMessage m
  unfolding sanitize_file_transfer_start_message
  start-IsMessage value h =
      let (id, e, h1) = bind-eq-some (read_transfer_id value) _ h in
      let (name, e1, h2) =
        bind-eq-some (sanitize_string 260 false (lookup_field (lit "name") value)) _ h1 in
      let (size, e2, h3) = bind-eq-some (read_file_size (lookup_field (lit "size") value)) _ h2 in
      of_some IsMessage h3 (
        read_transfer_id-Named value e,
        sanitize_string-short_some 260 false _ e1,
        mime-checked _,
        read_file_size-bound _ e2,
      )

  chunk-IsMessage :
      (value : Fields) {m : Message}
      → sanitize_file_transfer_chunk_message atob value ≡ some m
      → IsMessage m
  unfolding sanitize_file_transfer_chunk_message
  chunk-IsMessage value h =
      let (id, e, h1) = bind-eq-some (read_transfer_id value) _ h in
      let (encoded, e1, h2) =
        bind-eq-some
          (sanitize_base64 atob (96 * 1024) (72 * 1024) (lookup_field (lit "data") value)) _ h1 in
      let (index, _, h3) = bind-eq-some (read_index (lookup_field (lit "index") value)) _ h2 in
      of_some IsMessage h3
        (read_transfer_id-Named value e, sanitize_base64-IsEncoded (96 * 1024) (72 * 1024) _ e1)

  complete-IsMessage :
      (value : Fields) {m : Message}
      → sanitize_file_transfer_complete_message value ≡ some m
      → IsMessage m
  unfolding sanitize_file_transfer_complete_message
  complete-IsMessage value h =
      let (id, e, h1) = bind-eq-some (read_transfer_id value) _ h in
      let (checksum, e1, h2) =
        bind-eq-some (sanitize_checksum (lookup_field (lit "checksum") value)) _ h1 in
      of_some IsMessage h2 (read_transfer_id-Named value e, sanitize_checksum-checked _ e1)

  abort-IsMessage :
      (value : Fields) {m : Message}
      → sanitize_file_transfer_abort_message value ≡ some m
      → IsMessage m
  unfolding sanitize_file_transfer_abort_message
  abort-IsMessage value h =
      let (id, e, h1) = bind-eq-some (read_transfer_id value) _ h in
      of_some IsMessage h1 (read_transfer_id-Named value e, sanitize_string-Short 256 false _)

  message_of_kind-IsMessage :
      (kind : Str) (value : Fields) {m : Message}
      → message_of_kind atob kind value ≡ some m
      → IsMessage m
  unfolding message_of_kind
  message_of_kind-IsMessage kind value h =
      if_some IsMessage (str_beq kind (lit "pointer")) _ _
        (as_control-IsMessage _ (pointer-IsControl value))
        (if_some IsMessage (str_beq kind (lit "keyboard")) _ _
          (as_control-IsMessage _ (keyboard-IsControl value))
          (if_some IsMessage (str_beq kind (lit "host-state")) _ _ (host_state-IsMessage value) (
            if_some IsMessage (str_beq kind (lit "host-command")) _ _ (host_command-IsMessage value)
              (if_some IsMessage (str_beq kind (lit "clipboard-sync")) _ _
                (clipboard-IsMessage value)
                (if_some IsMessage (str_beq kind (lit "file-transfer-start")) _ _
                  (start-IsMessage value)
                  (if_some IsMessage (str_beq kind (lit "file-transfer-chunk")) _ _
                    (chunk-IsMessage value)
                    (if_some IsMessage (str_beq kind (lit "file-transfer-complete")) _ _
                      (complete-IsMessage value)
                      (if_some IsMessage (str_beq kind (lit "file-transfer-abort")) _ _
                        (abort-IsMessage value) (nothing_some IsMessage)))))))))
        h

  -- Whatever is received: a message that is accepted is a control message within the screen and its
  -- limits, a host state of at most 16 sources with distinct ids that names one of them or none as
  -- active, a known command, a clipboard with some content of limited size, or a message of a transfer
  -- with an id of 1 to 80 code units and, as it has them, a size of at most 256 MiB, a valid type, a
  -- chunk of base64 that decodes to at most 72 KiB, and a checksum of eight hexadecimal digits.
  pub sanitize_data_channel_message-IsMessage :
      (v : Value) (m : Message) → sanitize_data_channel_message atob v ≡ some m → IsMessage m
  unfolding sanitize_data_channel_message
  sanitize_data_channel_message-IsMessage v m h =
      let (fields, _, h1) = bind-eq-some (as_record v) _ h in
      let (kind, _, h2) =
        bind-eq-some (as_string (lookup_field (lit "kind") fields))
          (λ k. message_of_kind atob k fields) h1 in
      message_of_kind-IsMessage kind fields h2
