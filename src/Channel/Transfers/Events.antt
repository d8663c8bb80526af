-- ===== src/Channel/Transfers/Events.antt =====
-- The queue of chunks, the completion and the callbacks of a transfer that arrives, and the machine
-- over them: `appendIncomingFileChunk`, `completeIncomingFileTransfer`, `handleFileTransferAbort` and
-- `refreshIncomingTransferTimeout` of apps/desktop/src/renderer/src/webrtc/RemoteControlClient.ts.
use remote_controll_app.Prelude.{
  ℕ, suc, ◌+◌, Bool, true, false, not, Option, none, some, List, [], ◌∷◌, ◌++◌, if◌then◌else◌, leb,
  ltb, length, nat_beq,
}
use remote_controll_app.JsMap
use remote_controll_app.JsMap.{JsMap}
use remote_controll_app.Text.{Str, str_eq, str_beq, lit}
use remote_controll_app.Channel.Encoded.{base64_to_bytes}
use remote_controll_app.Channel.Checksum.{
  update_file_transfer_checksum, format_file_transfer_checksum,
}
use remote_controll_app.Channel.Transfers.{
  Chunk, Current, idle, starting, writing, Transfer, Phase, waiting, aborting_incomplete,
  aborting_mismatch, finishing, Completion, Out, append_file, complete_file, abort_file,
  outgoing_aborted, progress, incomplete_status, mismatch_status, save_failed_status, received_file,
  Client, put, init, fail_incoming_file_transfer_internal, fail_incoming_file_transfer,
  fail_incoming_file_transfers, begin_incoming_file_transfer,
}

-- What the main process answers: `ok`, and the path.
pub record Answer : Type 0 where
  pub ok : Bool
  pub path : Option Str

-- The transfer `t` in place of the one at the address.
abbrev pub with_transfer : ℕ → Transfer → Client → Client
with_transfer a t c = record c { transfers = put a t c.transfers }

-- A message with a chunk puts it into the queue of the transfer that the map has.
unfoldable pub enqueue : Chunk → Option ℕ → Client → Client
enqueue k none c = c
enqueue k (some a) c =
    with_transfer a (record (c.transfers a) { queue = (c.transfers a).queue ++ k ∷ [] }) c

unfoldable pub append_incoming_file_chunk : Chunk → Client → Client
unfolding enqueue
append_incoming_file_chunk k c = enqueue k (JsMap.get k.transfer_id c.incoming) c

-- A part of the queue is settled: it went through, or it threw, and the callback of `catch` runs.
abbrev pub settle : Transfer → Transfer
settle t = record t { current = idle; settled = suc t.settled }

unfoldable pub reject : Str → ℕ → Transfer → Client → Client × List Out
reject id a t c =
    fail_incoming_file_transfer id (with_transfer a (record (settle t) { is_rejected = true }) c)

-- The callback of `then` for the chunk whose turn it is, up to the call that writes.
unfoldable pub write_decoded : Chunk → ℕ → Transfer → Option (List ℕ) → Client → Client × List Out
unfolding reject
write_decoded k a t none c = reject k.transfer_id a t c
write_decoded k a t (some bytes) c =
    if ltb t.size (t.received_bytes + length bytes) then reject k.transfer_id a t c else (
      with_transfer a (record t { current = writing k.transfer_id k.index bytes }) c,
      append_file k.transfer_id k.index bytes ∷ [],
    )

module _ (atob : Str → Option Str) where
  unfoldable pub take_turn : Chunk → ℕ → Transfer → Client → Client × List Out
  unfolding reject write_decoded
  take_turn k a t c =
      if t.is_rejected
      then reject k.transfer_id a t c
      else if t.failed
      then (with_transfer a (settle t) c, [])
      else if not (nat_beq k.index t.next_chunk_index)
      then reject k.transfer_id a t c
      else write_decoded k a t (base64_to_bytes atob k.data_text) c

  unfoldable pub next_turn : ℕ → Transfer → Current → List Chunk → Client → Client × List Out
  unfolding take_turn
  next_turn a t idle (k ∷ ks) c = take_turn k a (record t { queue = ks }) c
  next_turn a t _ _ c = (c, [])

-- The answer to the start, or to the write.
unfoldable pub answered_start : Str → ℕ → Transfer → Bool → Option Str → Client → Client × List Out
unfolding reject
answered_start id a t true path c = (with_transfer a (record (settle t) { path = path }) c, [])
answered_start id a t false path c = reject id a t c

-- The transfer after a write, its timer armed anew.
abbrev pub written : Str → List ℕ → Transfer → Transfer
written id bytes t = record (settle t) {
  received_bytes = t.received_bytes + length bytes;
  checksum = update_file_transfer_checksum t.checksum bytes;
  next_chunk_index = suc t.next_chunk_index;
  timer = some id;
}

unfoldable pub answered_write : Str → List ℕ → ℕ → Transfer → Bool → Client → Client × List Out
unfolding reject
answered_write id bytes a t true c = (
  with_transfer a (written id bytes t) c,
  progress id (t.received_bytes + length bytes) t.size ∷ [],
)
answered_write id bytes a t false c = reject id a t c

unfoldable pub answered : ℕ → Transfer → Current → Answer → Client → Client × List Out
unfolding answered_start answered_write
answered a t idle answer c = (c, [])
answered a t (starting id) answer c = answered_start id a t answer.ok answer.path c
answered a t (writing id i bytes) answer c = answered_write id bytes a t answer.ok c

-- `completeIncomingFileTransfer`, up to its first await: all that the queue holds by now is awaited.
abbrev pub is_busy : Current → ℕ
is_busy idle = 0
is_busy _ = 1

unfoldable pub await_queue : Str → Str → Option ℕ → Client → Client
await_queue id sum none c = c
await_queue id sum (some a) c =
    let t = c.transfers a in
    let k : Completion = record {
      transfer_id = id;
      address = a;
      checksum = sum;
      phase = waiting (t.settled + is_busy t.current + length t.queue);
    } in
    record c {
      completions = put c.next_completion (some k) c.completions;
      next_completion = suc c.next_completion;
    }

unfoldable pub complete_incoming_file_transfer : Str → Str → Client → Client
unfolding await_queue
complete_incoming_file_transfer id sum c = await_queue id sum (JsMap.get id c.incoming) c

-- The next state of a completion, with the transfer out of the map and its timer cleared.
abbrev pub enter : ℕ → Completion → Phase → Client → Client
enter n k p c = record c {
  incoming = JsMap.delete k.transfer_id c.incoming;
  transfers = put k.address (record (c.transfers k.address) { timer = none }) c.transfers;
  completions = put n (some (record k { phase = p })) c.completions;
}

abbrev pub leave : ℕ → Client → Client
leave n c = record c { completions = put n none c.completions }

-- Its second segment, when what it awaits has been settled.
unfoldable pub check_received : ℕ → Completion → Transfer → Client → Client × List Out
check_received n k t c =
    if t.failed
    then (leave n c, [])
    else if not (nat_beq t.received_bytes t.size)
    then (enter n k aborting_incomplete c, abort_file k.transfer_id ∷ [])
    else if not (str_beq k.checksum (format_file_transfer_checksum t.checksum))
    then (enter n k aborting_mismatch c, abort_file k.transfer_id ∷ [])
    else (enter n k finishing c, complete_file k.transfer_id ∷ [])

-- Its last segment, by the answer of the main process.
unfoldable pub report_saved : Completion → Answer → Client → List Out
report_saved k answer c =
    if answer.ok
    then received_file k.address (c.transfers k.address).name answer.path ∷ []
    else save_failed_status k.transfer_id ∷ []

unfoldable pub go_on : ℕ → Completion → Phase → Answer → Client → Client × List Out
unfolding check_received report_saved
go_on n k (waiting many) answer c =
    let t = c.transfers k.address in if leb many t.settled then check_received n k t c else (c, [])
go_on n k aborting_incomplete answer c = (leave n c, incomplete_status k.transfer_id ∷ [])
go_on n k aborting_mismatch answer c = (leave n c, mismatch_status k.transfer_id ∷ [])
go_on n k finishing answer c = (leave n c, report_saved k answer c)

unfoldable pub resume : ℕ → Option Completion → Answer → Client → Client × List Out
unfolding go_on
resume n none answer c = (c, [])
resume n (some k) answer c = go_on n k k.phase answer c

-- `handleFileTransferAbort`
abbrev pub reason_or_default : Option Str → Str
reason_or_default (some reason) = reason
reason_or_default none = lit "Transfer aborted by receiver"

unfoldable pub handle_file_transfer_abort : Str → Option Str → Client → Client × List Out
unfolding fail_incoming_file_transfer_internal
handle_file_transfer_abort id reason c =
    if JsMap.has id c.incoming then fail_incoming_file_transfer_internal id false c else (
      record c { abort_reasons = JsMap.set id (reason_or_default reason) c.abort_reasons },
      outgoing_aborted id ∷ [],
    )

-- The callback of the timer.
unfoldable pub time_out : ℕ → Option Str → Client → Client × List Out
time_out a none c = (c, [])
time_out a (some id) c =
    fail_incoming_file_transfer id (with_transfer a (record (c.transfers a) { timer = none }) c)

-- Messages of the peer, the interruption of all transfers, and the callbacks: the timer of a
-- transfer, the turn of its next chunk, an answer to it, and the continuation of a completion.
pub data Event : Type 0 where
  start_message : Str → Str → Str → ℕ → Event
  chunk_message : Chunk → Event
  complete_message : Str → Str → Event
  abort_message : Str → Option Str → Event
  interruption : Event
  timed_out turn_came : ℕ → Event
  answer_came completion_resumed : ℕ → Answer → Event

module _ (atob : Str → Option Str) where
  unfoldable pub handle : Event → Client → Client × List Out
  unfolding begin_incoming_file_transfer append_incoming_file_chunk complete_incoming_file_transfer
      handle_file_transfer_abort fail_incoming_file_transfers time_out next_turn answered resume
  handle (start_message id name mime_type size) c =
      begin_incoming_file_transfer id name mime_type size c
  handle (chunk_message k) c = (append_incoming_file_chunk k c, [])
  handle (complete_message id sum) c = (complete_incoming_file_transfer id sum c, [])
  handle (abort_message id reason) c = handle_file_transfer_abort id reason c
  handle interruption c = fail_incoming_file_transfers c
  handle (timed_out a) c = time_out a (c.transfers a).timer c
  handle (turn_came a) c =
      next_turn atob a (c.transfers a) (c.transfers a).current (c.transfers a).queue c
  handle (answer_came a answer) c = answered a (c.transfers a) (c.transfers a).current answer c
  handle (completion_resumed n answer) c = resume n (c.completions n) answer c

  -- The client after the events, the newest first.
  unfoldable pub run : List Event → Client
  unfolding handle
  run [] = init
  run (e ∷ es) = (handle e (run es)).0
