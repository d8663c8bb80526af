-- ===== src/Channel/Tests.antt =====
-- The data channel on concrete values: a host state, a file that arrives in two chunks, checksums.
use remote_controll_app.Prelude.{
  ℕ, ◌≡◌, ◌≤◌, refl, true, false, Option, none, some, List, [], ◌∷◌, arith, length, map, All,
  if◌then◌else◌,
}
use remote_controll_app.JsMap
use remote_controll_app.Text.{
  Str, str_eq, lit, str_beq, is_digit, trim, trim_start, trim_end, is_space,
}
use remote_controll_app.Value.{
  Value, string, array, nil, cons, object, end, field, as_record, lookup_field,
}
use remote_controll_app.Value.Numeric.{is_integer, at_least, at_most, whole_within}
use remote_controll_app.Input.{sanitize_string}
use remote_controll_app.Channel.{
  Message, file_transfer_start, file_transfer_chunk, file_transfer_complete, host_state, as_array,
  count, read_source, read_sources, sanitize_host_state_message, sanitize_checksum,
}
use remote_controll_app.Channel.Encoded.{message_of_kind, sanitize_data_channel_message}
use remote_controll_app.Channel.Bounds.Messages.{IsMessage, sanitize_data_channel_message-IsMessage}
use remote_controll_app.Channel.Checksum.{
  create_file_transfer_checksum, update_file_transfer_checksum, format_file_transfer_checksum, mix,
  mix_all, hex_digits, zeros,
}
use remote_controll_app.Channel.Checksum.Detection.{update-detects}
use remote_controll_app.Channel.Checksum.Format.{sanitize_checksum-format}
use remote_controll_app.Channel.Sending.{send_file, send_chunks}
use remote_controll_app.Channel.Sending.Laws.{is_out_of_fuel, send_file-returns}
use remote_controll_app.Channel.Delivery.{to_value, events_of_texts, run_all, writes}
use remote_controll_app.Channel.Delivery.Wire.{IsCarried, IsWireId}
use remote_controll_app.Channel.Delivery.Letters.{letters, bytes_of, letters-IsCodec}
use remote_controll_app.Channel.Delivery.Whole.{deliver-send_file}
use remote_controll_app.Channel.Transfers.{
  Out, Client, init, fail_found, fail_incoming_file_transfer_internal, begin_incoming_file_transfer,
}
use remote_controll_app.Channel.Transfers.Events.{
  Event, start_message, chunk_message, complete_message, timed_out, turn_came, answer_came,
  completion_resumed, enqueue, append_incoming_file_chunk, reject, write_decoded, take_turn,
  next_turn, answered_start, answered_write, answered, await_queue, complete_incoming_file_transfer,
  check_received, report_saved, go_on, resume, time_out, handle, run,
}
use remote_controll_app.Channel.Transfers.Whole.{Ordered, chunks, content, is_announced}
use remote_controll_app.Channel.Transfers.Whole.Quiet.{is_reported}
use remote_controll_app.Channel.Transfers.Whole.Runs.{received-IsWhole}
use remote_controll_app.Channel.Transfers.Watched.Runs.{timed_out-frees}
use remote_controll_app.Channel.Lifecycle.{
  State, is_peer_connected, is_disconnected, was_connected, was_disconnected, webrtc_connected,
  peer_announced, peer_reset, on_disconnected, join_requested, last_but_announced, last_but_reset,
  run-last, reduce_session_lifecycle_state,
}
use remote_controll_app.Channel.Lifecycle

channel : Unit {0}
unfolding JsMap.get JsMap.set JsMap.has JsMap.delete str_beq is_digit trim trim_start trim_end
    is_space as_record lookup_field is_integer at_least at_most whole_within sanitize_string
    as_array count read_source read_sources sanitize_host_state_message message_of_kind
    sanitize_data_channel_message mix mix_all update_file_transfer_checksum hex_digits zeros
    format_file_transfer_checksum fail_found fail_incoming_file_transfer_internal
    begin_incoming_file_transfer enqueue append_incoming_file_chunk reject write_decoded take_turn
    next_turn answered_start answered_write answered await_queue complete_incoming_file_transfer
    check_received report_saved go_on resume time_out handle run chunks
channel = tt

-- A decoder for the tests.
abbrev decode : Str → Option Str
decode s = some s

abbrev source : Str → Value
source id = object (field (lit "id") (string id) (field (lit "name") (string (lit "Screen")) end))

-- Two sources, the first of them active.
abbrev state_message : Value
state_message = object (
    field (lit "kind") (string (lit "host-state")) (
      field (lit "sources") (array (cons (source (lit "s")) (cons (source (lit "t")) nil)))
        (field (lit "activeSourceId") (string (lit "s")) end)))

abbrev state_read : Message
state_read =
    host_state
      (record { id = lit "s"; name = lit "Screen"; display_id = none }
        ∷ record { id = lit "t"; name = lit "Screen"; display_id = none }
        ∷ [])
      (some (lit "s"))

state_test : sanitize_data_channel_message decode state_message ≡ some state_read
unfolding channel
state_test = refl

sanitize_data_channel_message-IsMessage_example : IsMessage decode state_read
sanitize_data_channel_message-IsMessage_example =
    sanitize_data_channel_message-IsMessage decode state_message state_read state_test

sanitize_checksum-format_example :
    sanitize_checksum (string (format_file_transfer_checksum 2748))
    ≡ some (format_file_transfer_checksum 2748)
sanitize_checksum-format_example = sanitize_checksum-format 2748

update-detects_example : ◌≡◌ {A = ℕ} 7 7
update-detects_example =
    update-detects create_file_transfer_checksum (1 ∷ []) (2 ∷ []) 7 7 (omega arith) (omega arith)
      (omega arith, tt) refl

-- Two chunks, the newest event first.
abbrev text_sum : Str
text_sum =
    format_file_transfer_checksum
      (update_file_transfer_checksum create_file_transfer_checksum (lit "abc"))

abbrev begun : List Event
begun =
    answer_came 0 (record { ok = true; path = some (lit "in/a.txt") })
    ∷ start_message (lit "a") (lit "a.txt") (lit "text/plain") 3
    ∷ []

abbrev arrived : List Event
arrived =
    completion_resumed 0 (record { ok = true; path = none })
    ∷ complete_message (lit "a") text_sum
    ∷ answer_came 0 (record { ok = true; path = none })
    ∷ turn_came 0
    ∷ answer_came 0 (record { ok = true; path = none })
    ∷ turn_came 0
    ∷ chunk_message (record { transfer_id = lit "a"; index = 1; data_text = lit "c" })
    ∷ chunk_message (record { transfer_id = lit "a"; index = 0; data_text = lit "ab" })
    ∷ begun

abbrev saved : Event
saved = completion_resumed 0 (record { ok = true; path = some (lit "in/a.txt") })

saved_test : is_reported 0 (handle decode saved (run decode arrived)).1 ≡ true
unfolding channel
saved_test = refl

received-IsWhole_example :
    Ordered (chunks decode arrived 0)
    × (length (content (chunks decode arrived 0)) ≡ ((run decode arrived).transfers 0).size)
    × (is_announced
          (format_file_transfer_checksum (
            update_file_transfer_checksum create_file_transfer_checksum
              (content (chunks decode arrived 0))))
          arrived
        ≡ true)
received-IsWhole_example = received-IsWhole decode arrived saved 0 saved_test

active_test : JsMap.get (lit "a") (run decode begun).incoming ≡ some 0
unfolding channel
active_test = refl

timed_out-frees_example :
    (length (run decode begun).incoming ≤ 4)
    × (((run decode begun).transfers 0).timer ≡ some (lit "a"))
    × (JsMap.get (lit "a") (handle decode (timed_out 0) (run decode begun)).0.incoming ≡ none)
timed_out-frees_example = timed_out-frees decode begun (lit "a") 0 active_test

abbrev session : List Lifecycle.Event
session = peer_announced ∷ webrtc_connected ∷ peer_reset ∷ on_disconnected ∷ join_requested ∷ []

run-last_example :
    (is_peer_connected (Lifecycle.run session) ≡ was_connected (last_but_announced session))
    × (is_disconnected (Lifecycle.run session) ≡ was_disconnected (last_but_reset session))
run-last_example = run-last session

-- A file of three bytes, sent and received.
abbrev encode : Str → Str
encode s = s

send_file-returns_example :
    is_out_of_fuel
      (send_file encode
        (λ n. none)
        (λ n. some (lit "closed"))
        4
        true
        (lit "a")
        (lit "a.txt")
        []
        (lit "abc")).1
    ≡ false
send_file-returns_example =
    send_file-returns encode (λ n. none) (λ n. some (lit "closed")) 4 true (lit "a") (lit "a.txt")
      [] (lit "abc") (omega arith)

-- A parser for the three texts of that file, which are named by their kinds.
abbrev kind_text : Value → Str
kind_text (object (field k (string kind) fields)) = kind
kind_text v = []

abbrev sent_value : Str → Value
sent_value kind =
    if str_beq kind (lit "file-transfer-start")
    then to_value (file_transfer_start (lit "a") (lit "a.txt") (lit "application/octet-stream") 3)
    else if str_beq kind (lit "file-transfer-chunk")
    then to_value (file_transfer_chunk (lit "a") 0 (letters (lit "abc")))
    else to_value (
        file_transfer_complete (lit "a") (
          format_file_transfer_checksum
            (update_file_transfer_checksum create_file_transfer_checksum (lit "abc"))))

abbrev parse : Str → Option Value
parse kind = some (sent_value kind)

abbrev messages : List Message
messages =
    (send_file letters (λ n. none) (λ n. none) 4 true (lit "a") (lit "a.txt") [] (lit "abc")).0

carried : All (IsCarried kind_text parse) messages
unfolding channel send_file send_chunks
carried = (
  record { short = omega arith; parsed = refl },
  (
    record { short = omega arith; parsed = refl },
    (record { short = omega arith; parsed = refl }, tt),
  ),
)

wire_id : IsWireId (lit "a")
unfolding channel
wire_id = record { given = refl; short = omega arith; trimmed = refl }

abbrev delivered : Client × List Out
delivered =
    run_all bytes_of (events_of_texts bytes_of parse (map (λ m. kind_text (to_value m)) messages))
      init

deliver-send_file_example : (is_reported 0 delivered.1 ≡ true) × (writes delivered.1 ≡ lit "abc")
deliver-send_file_example =
    deliver-send_file bytes_of letters kind_text parse 4 true (lit "a") (lit "a.txt") [] (lit "abc")
      letters-IsCodec carried wire_id (omega arith) (omega arith) (omega arith)
      (omega arith, (omega arith, (omega arith, tt)))
