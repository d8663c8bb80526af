-- ===== src/Channel/Delivery/Wire.antt =====
-- The messages of a transfer pass the sanitizers of their receiver in
-- apps/desktop/src/renderer/src/webrtc/RemoteControlClient.ts.
use remote_controll_app.Prelude.{
  ℕ, ◌*◌, ◌%◌, ◌≤◌, ◌<◌, ◌≡◌, ◌∙◌, refl, ap, true, false, Option, some, List, [], ◌∷◌, ◌++◌, map,
  leb, length, nat_beq, arith, All, sym, append_assoc,
}
use remote_controll_app.Text.{Str, lit, str_beq, trim, is_empty}
use remote_controll_app.Value.{Value, string, number, Fields, as_record, lookup_field}
use remote_controll_app.Value.Numeric.{of_ℕ, whole_within-of_ℕ, is_integer, at_least}
use remote_controll_app.Input.{sanitize_string, read_index}
use remote_controll_app.Signaling.Payloads.{non_empty}
use remote_controll_app.Channel.{
  Message, file_transfer_start, file_transfer_chunk, file_transfer_complete, mebibytes,
  mime_or_default, sanitize_mime_type, sanitize_checksum, read_transfer_id, read_file_size,
  sanitize_file_transfer_start_message, sanitize_file_transfer_complete_message,
}
use remote_controll_app.Channel.Patterns.{is_base64}
use remote_controll_app.Channel.Encoded.{
  sanitize_base64, sanitize_file_transfer_chunk_message, message_of_kind,
  sanitize_data_channel_message, parse_data_channel_message,
}
use remote_controll_app.Channel.Checksum.{format_file_transfer_checksum}
use remote_controll_app.Channel.Checksum.Format.{sanitize_checksum-format}
use remote_controll_app.Channel.Checksum.Detection.{AreBytes}
use remote_controll_app.Channel.Sending.Laws.{IsPart, part, decoded}
use remote_controll_app.Channel.Delivery.{to_value, events_of_parsed, events_of_texts, all_events}
use remote_controll_app.Channel.Transfers.Events.{Event}

-- What `btoa` and `atob` are documented to do, for the bytes of a chunk.
pub record IsCodec (btoa : Str → Str) (atob : Str → Option Str) : Type 0 where
  pub decodes : (bytes : List ℕ) → AreBytes bytes → atob (btoa bytes) ≡ some bytes
  pub shape : (bytes : List ℕ) → AreBytes bytes → 0 < length bytes → is_base64 (btoa bytes) ≡ true
  pub padded : (bytes : List ℕ) → AreBytes bytes → length (btoa bytes) % 4 ≡ 0
  pub short :
      (bytes : List ℕ) → AreBytes bytes → length bytes ≤ 48 * 1024 → length (btoa bytes) ≤ 96 * 1024

-- A transfer id that a receiver takes as it is.
pub record IsWireId (id : Str) : Type 0 where
  pub given : is_empty id ≡ false
  pub short : length id ≤ 80
  pub trimmed : trim id ≡ id

non_empty-some : (s : Str) → is_empty s ≡ false → non_empty (some s) ≡ some s
non_empty-some [] h = cc h
non_empty-some (c ∷ s) h = refl

trimmed_kept :
    (max : ℕ) (s : Str) → length s ≤ max → trim s ≡ s → sanitize_string max true (string s) ≡ some s
unfolding sanitize_string
trimmed_kept max s h e =
    let fits : leb (length s) max ≡ true = ground (arith, h) in rw (e, fits) refl

raw_kept : (max : ℕ) (s : Str) → length s ≤ max → sanitize_string max false (string s) ≡ some s
unfolding sanitize_string
raw_kept max s h = let fits : leb (length s) max ≡ true = ground (arith, h) in rw fits refl

id_kept :
    (fields : Fields) (id : Str)
    → IsWireId id
    → lookup_field (lit "transferId") fields ≡ string id
    → read_transfer_id fields ≡ some id
unfolding read_transfer_id
id_kept fields id w e = rw (e, trimmed_kept 80 id w.short w.trimmed) (non_empty-some id w.given)

start_kept :
    (fields : Fields) (id name : Str) (size : ℕ)
    → read_transfer_id fields ≡ some id
    → sanitize_string 260 false (lookup_field (lit "name") fields) ≡ some name
    → read_file_size (lookup_field (lit "size") fields) ≡ some size
    → sanitize_file_transfer_start_message fields
      ≡ some (
          file_transfer_start id name
            (mime_or_default (sanitize_mime_type (lookup_field (lit "mimeType") fields)))
            size)
unfolding sanitize_file_transfer_start_message
start_kept fields id name size a b c = rw (a, b, c) refl

size_kept : (size : ℕ) → size ≤ mebibytes 256 → read_file_size (number (of_ℕ size)) ≡ some size
unfolding read_file_size
size_kept size h = whole_within-of_ℕ 0 (mebibytes 256) size (omega arith) h

index_kept : (i : ℕ) → read_index (number (of_ℕ i)) ≡ some i
unfolding read_index is_integer at_least
index_kept i = ground arith

complete_kept :
    (fields : Fields) (id sum : Str)
    → read_transfer_id fields ≡ some id
    → sanitize_checksum (lookup_field (lit "checksum") fields) ≡ some sum
    → sanitize_file_transfer_complete_message fields ≡ some (file_transfer_complete id sum)
unfolding sanitize_file_transfer_complete_message
complete_kept fields id sum a b = rw (a, b) refl

is_base64-given : (s : Str) → is_base64 s ≡ true → is_empty s ≡ false
unfolding is_base64
is_base64-given [] h = cc h
is_base64-given (c ∷ s) h = refl

-- The text of a mime type, as the receiver takes it.
abbrev pub received_type : Str → Str
received_type type = mime_or_default (sanitize_mime_type (string type))

module _ (btoa : Str → Str) (atob : Str → Option Str) (codec : IsCodec btoa atob) where
  base64_kept :
      (bytes : List ℕ)
      → AreBytes bytes
      → 0 < length bytes
      → length bytes ≤ 48 * 1024
      → sanitize_base64 atob (96 * 1024) (72 * 1024) (string (btoa bytes)) ≡ some (btoa bytes)
  unfolding sanitize_base64
  base64_kept bytes b full few =
      let shape = codec.shape bytes b full in
      let padded : nat_beq (length (btoa bytes) % 4) 0 ≡ true =
        ground (arith, codec.padded bytes b) in
      let small : leb (length bytes) (72 * 1024) ≡ true = ground (arith, few) in
      rw
        (
          raw_kept (96 * 1024) (btoa bytes) (codec.short bytes b few),
          non_empty-some (btoa bytes) (is_base64-given (btoa bytes) shape),
          padded,
          shape,
          decoded btoa atob codec.decodes bytes b,
          small,
        )
        refl

  chunk_kept :
      (fields : Fields) (id text : Str) (i : ℕ)
      → read_transfer_id fields ≡ some id
      → sanitize_base64 atob (96 * 1024) (72 * 1024) (lookup_field (lit "data") fields) ≡ some text
      → read_index (lookup_field (lit "index") fields) ≡ some i
      → sanitize_file_transfer_chunk_message atob fields ≡ some (file_transfer_chunk id i text)
  unfolding sanitize_file_transfer_chunk_message
  chunk_kept fields id text i a b c = rw (a, b, c) refl

  -- A start of a file of at most 256 MiB, with a name of at most 260 code units.
  pub start_passes :
      (id name type : Str) (size : ℕ)
      → IsWireId id
      → length name ≤ 260
      → size ≤ mebibytes 256
      → sanitize_data_channel_message atob (to_value (file_transfer_start id name type size))
        ≡ some (file_transfer_start id name (received_type type) size)
  unfolding sanitize_data_channel_message message_of_kind as_record lookup_field str_beq
  start_passes id name type size w named small =
      start_kept _ id name size (id_kept _ id w refl) (raw_kept 260 name named)
        (size_kept size small)

  pub part_passes :
      (id : Str) (m : Message)
      → IsWireId id
      → IsPart btoa id m
      → sanitize_data_channel_message atob (to_value m) ≡ some m
  unfolding sanitize_data_channel_message message_of_kind as_record lookup_field str_beq
  part_passes id m w (part i bytes b full few) =
      chunk_kept _ id (btoa bytes) i (id_kept _ id w refl) (base64_kept bytes b full few)
        (index_kept i)

  pub complete_passes :
      (id : Str) (c : ℕ)
      → IsWireId id
      → sanitize_data_channel_message atob
          (to_value (file_transfer_complete id (format_file_transfer_checksum c)))
        ≡ some (file_transfer_complete id (format_file_transfer_checksum c))
  unfolding sanitize_data_channel_message message_of_kind as_record lookup_field str_beq
  complete_passes id c w = complete_kept _ id _ (id_kept _ id w refl) (sanitize_checksum-format c)

-- A text that is short enough to be parsed, and whose object comes back from it.
pub record IsCarried (stringify : Value → Str) (parse_json : Str → Option Value) (m : Message)
    : Type 0 where
  pub short : length (stringify (to_value m)) ≤ mebibytes 13
  pub parsed : parse_json (stringify (to_value m)) ≡ some (to_value m)

-- A message that is carried arrives as what the sanitizers make of it.
pub carried_arrives :
    (atob : Str → Option Str) (stringify : Value → Str) (parse_json : Str → Option Value)
    (m : Message) (o : Option Message)
    → IsCarried stringify parse_json m
    → sanitize_data_channel_message atob (to_value m) ≡ o
    → parse_data_channel_message atob parse_json (string (stringify (to_value m))) ≡ o
unfolding parse_data_channel_message
carried_arrives atob stringify parse_json m o k h =
    let short : leb (length (stringify (to_value m))) (mebibytes 13) ≡ true =
      ground (arith, k.short) in
    rw (short, k.parsed) h

-- So the parts of a file do.
pub parts_arrive :
    (btoa : Str → Str) (atob : Str → Option Str) (stringify : Value → Str)
    (parse_json : Str → Option Value) (id : Str) (ms : List Message)
    → IsCodec btoa atob
    → IsWireId id
    → All (IsPart btoa id) ms
    → All (IsCarried stringify parse_json) ms
    → events_of_texts atob parse_json (map (λ m. stringify (to_value m)) ms) ≡ all_events ms
parts_arrive btoa atob stringify parse_json id [] codec w parts carried = refl
parts_arrive btoa atob stringify parse_json id (m ∷ ms) codec w (p, parts) (k, carried) =
    rw
      (
        carried_arrives atob stringify parse_json m (some m) k
            (part_passes btoa atob codec id m w p),
        parts_arrive btoa atob stringify parse_json id ms codec w parts carried,
      )
      refl

pub texts-append :
    (atob : Str → Option Str) (parse_json : Str → Option Value) (f : Message → Str)
    (ms ms' : List Message)
    → events_of_texts atob parse_json (map f (ms ++ ms'))
      ≡ events_of_texts atob parse_json (map f ms) ++ events_of_texts atob parse_json (map f ms')
texts-append atob parse_json f [] ms' = refl
texts-append atob parse_json f (m ∷ ms) ms' =
    ap
      (λ (es : List Event).
        events_of_parsed (parse_data_channel_message atob parse_json (string (f m))) ++ es)
      (texts-append atob parse_json f ms ms')
    ∙ sym (
        append_assoc (events_of_parsed (parse_data_channel_message atob parse_json (string (f m))))
          (events_of_texts atob parse_json (map f ms)) _)
