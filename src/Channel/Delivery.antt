-- ===== src/Channel/Delivery.antt =====
-- A file that is sent and received: `sendFile`, the parser of the messages and the methods of arriving
-- files of apps/desktop/src/renderer/src/webrtc/RemoteControlClient.ts, on one schedule: every message
-- arrives, each chunk has its turn before the next message arrives, and the main process answers
-- without an error.
pub mod Wire
pub mod Letters
pub mod Steps
pub mod Batches
pub mod Whole
use remote_controll_app.Prelude.{ℕ, true, false, Option, none, some, List, [], ◌∷◌, ◌++◌, arith}
use remote_controll_app.JsMap
use remote_controll_app.Text.{Str, lit, str_eq}
use remote_controll_app.Channel.{
  Message, file_transfer_start, file_transfer_chunk, file_transfer_complete, file_transfer_abort,
}
use remote_controll_app.Value.{Value, undefined, number, string, object, Fields, end, field}
use remote_controll_app.Value.Numeric.{of_ℕ}
use remote_controll_app.Channel.Encoded.{parse_data_channel_message}
use remote_controll_app.Channel.Transfers.{idle, Transfer, Client, Out, append_file, put}
use remote_controll_app.Channel.Transfers.Events.{
  Answer, Event, start_message, chunk_message, complete_message, abort_message, turn_came,
  answer_came, completion_resumed, handle,
}

abbrev pub yes : Answer
yes = record { ok = true; path = none }

-- The message of a transfer as the object that is sent: `JSON.stringify` makes its text. No other
-- message is an object here.
abbrev pub reason_field : Option Str → Fields
reason_field none = end
reason_field (some reason) = field (lit "reason") (string reason) end

abbrev pub to_value : Message → Value
to_value (file_transfer_start id name type size) = object (
    field (lit "kind") (string (lit "file-transfer-start")) (
      field (lit "transferId") (string id) (
        field (lit "name") (string name)
          (field (lit "mimeType") (string type) (field (lit "size") (number (of_ℕ size)) end)))))
to_value (file_transfer_chunk id i text) = object (
    field (lit "kind") (string (lit "file-transfer-chunk")) (
      field (lit "transferId") (string id)
        (field (lit "index") (number (of_ℕ i)) (field (lit "data") (string text) end))))
to_value (file_transfer_complete id sum) = object (
    field (lit "kind") (string (lit "file-transfer-complete"))
      (field (lit "transferId") (string id) (field (lit "checksum") (string sum) end)))
to_value (file_transfer_abort id reason) = object (
    field (lit "kind") (string (lit "file-transfer-abort"))
      (field (lit "transferId") (string id) (reason_field reason)))
to_value _ = undefined

-- `channel.onmessage` on a message of a transfer that was parsed: the method that it calls.
abbrev pub dispatch : Message → List Event
dispatch (file_transfer_start id name type size) = start_message id name type size ∷ []
dispatch (file_transfer_chunk id i text) =
    chunk_message (record { transfer_id = id; index = i; data_text = text }) ∷ []
dispatch (file_transfer_complete id sum) = complete_message id sum ∷ []
dispatch (file_transfer_abort id reason) = abort_message id reason ∷ []
dispatch _ = []

-- An invalid message is dropped.
abbrev pub on_message : Option Message → List Event
on_message none = []
on_message (some m) = dispatch m

-- The schedule that is looked at: before the next message arrives, a chunk has its turn and the main
-- process answers what the message asked of it, without an error.
abbrev pub answers : Message → List Event
answers (file_transfer_start id name type size) = answer_came 0 yes ∷ []
answers (file_transfer_chunk id i text) = turn_came 0 ∷ answer_came 0 yes ∷ []
answers (file_transfer_complete id sum) = completion_resumed 0 yes ∷ completion_resumed 0 yes ∷ []
answers _ = []

abbrev pub events_of : Message → List Event
events_of m = dispatch m ++ answers m

abbrev pub answers_after : Option Message → List Event
answers_after none = []
answers_after (some m) = answers m

-- A text that arrives and is parsed, and what follows it.
abbrev pub events_of_parsed : Option Message → List Event
events_of_parsed o = on_message o ++ answers_after o

abbrev pub events_of_texts : (Str → Option Str) → (Str → Option Value) → List Str → List Event
events_of_texts atob parse_json [] = []
events_of_texts atob parse_json (text ∷ texts) =
    events_of_parsed (parse_data_channel_message atob parse_json (string text))
    ++ events_of_texts atob parse_json texts

abbrev pub all_events : List Message → List Event
all_events [] = []
all_events (m ∷ ms) = events_of m ++ all_events ms

-- The client and all outputs after events in order.
unfoldable pub run_all : (Str → Option Str) → List Event → Client → Client × List Out
run_all atob [] c = (c, [])
run_all atob (e ∷ es) c =
    let (c', outs) = handle atob e c in
    let (c'', outs') = run_all atob es c' in (c'', outs ++ outs')

-- What the main process is given to write.
abbrev pub writes : List Out → List ℕ
writes [] = []
writes (append_file id i bytes ∷ outs) = bytes ++ writes outs
writes (_ ∷ outs) = writes outs

-- A transfer between two chunks.
abbrev pub between : Str → Str → Str → ℕ → ℕ → ℕ → ℕ → ℕ → Transfer
between id name type size sum next received settled = record {
  checksum = sum;
  failed = false;
  name = name;
  size = size;
  mime_type = type;
  next_chunk_index = next;
  path = none;
  received_bytes = received;
  timer = some id;
  current = idle;
  queue = [];
  settled = settled;
  is_rejected = false;
}

abbrev pub state : Str → Transfer → (ℕ → Transfer) → Client
state id t g = record {
  incoming = (id, 0) ∷ [];
  transfers = put 0 t g;
  next_address = 1;
  completions = λ n. none;
  next_completion = 0;
  abort_reasons = [];
}
