-- ===== src/Files.antt =====
-- apps/desktop/src/main/fileIpc.ts: a file that arrives in chunks. A handler is cut where it awaits a
-- call and changes the state after it: its first segment answers or leaves something waiting, the
-- next one goes on with how the call came back, and any requests may come between. Where only the
-- reply follows an awaited call, how the call came back is an argument.
pub mod Names
pub mod Transfers
mod Tests
use remote_controll_app.Prelude.{
  ℕ, suc, ◌+◌, Bool, true, false, not, Option, none, some, List, [], ◌∷◌, ◌++◌, if◌then◌else◌, ltb,
  length, nat_beq, put,
}
use remote_controll_app.JsMap
use remote_controll_app.JsMap.{JsMap}
use remote_controll_app.Text.{Str, str_eq, lit}
use remote_controll_app.Value.{Value}
use remote_controll_app.Input.{
  TransferStart, TransferChunk, sanitize_transfer_id, sanitize_start_incoming_transfer_payload,
  sanitize_append_incoming_transfer_payload,
}

-- `IncomingFileSaveSession`, an object that the map and the pending appends share.
pub record Transfer : Type 0 where
  pub expected_chunk_index : ℕ
  pub expected_size : ℕ
  pub file_path : Str
  pub temp_file_path : Str
  pub received_bytes : ℕ

-- A handler that waits: a start for the path of its file, an append for the write to the transfer at
-- an address.
pub data Waiting : Type 0 where
  opening : TransferStart → Waiting
  writing : ℕ → TransferChunk → Waiting

-- `incomingFileSaves`, with its objects at addresses, and the handlers that wait, by number.
pub record Main : Type 0 where
  pub transfers : ℕ → Transfer
  pub next_address : ℕ
  pub saves : JsMap Str ℕ
  pub waiting : ℕ → Option Waiting
  pub next_waiting : ℕ

-- The errors that are returned; `failed` has the reason of a call that threw.
pub data Problem : Type 0 where
  invalid_start already_exists invalid_chunk unknown_transfer out_of_order too_large incomplete :
      Problem
  failed : Str → Problem

pub data Reply : Type 0 where
  ok : Reply
  ok_path : Str → Reply
  ok_received : ℕ → Reply
  error : Problem → Reply

-- The calls that change the disk.
pub data DiskCall : Type 0 where
  append_file : Str → List ℕ → DiskCall
  rename : Str → Str → DiskCall
  unlink : Str → DiskCall

-- How an awaited call came back.
pub data Outcome (A : Type 0) : Type 0 where
  came : A → Outcome A
  threw : Str → Outcome A

abbrev pub forget : Str → Main → Main
forget id m = record m { saves = JsMap.delete id m.saves }

-- A handler leaves something waiting; `none` says that it has not replied.
abbrev pub wait : Waiting → Main → Main
wait w m = record m {
  waiting = put m.next_waiting (some w) m.waiting;
  next_waiting = suc m.next_waiting;
}

-- `files:start-incoming-transfer` up to the settings, which are awaited.
unfoldable pub start_of : Option TransferStart → Main → Main × Option Reply
start_of none m = (m, some (error invalid_start))
start_of (some t) m =
    if JsMap.has t.transfer_id m.saves
    then (m, some (error already_exists))
    else (wait (opening t) m, none)

unfoldable pub start_incoming_transfer : Value → Main → Main × Option Reply
unfolding start_of
start_incoming_transfer payload m = start_of (sanitize_start_incoming_transfer_payload payload) m

abbrev pub opened : Str → TransferStart → Transfer
opened path t = record {
  expected_chunk_index = 0;
  expected_size = t.size;
  file_path = path;
  temp_file_path = path ++ lit ".part";
  received_bytes = 0;
}

-- After the settings, `mkdir` and `createUniqueFilePath` came back: with a path (`allocate` of
-- Files/Names makes it of the name), or with the reason why one of them threw.
unfoldable pub begin_transfer : Outcome Str → TransferStart → Main → Main × Reply
begin_transfer (threw reason) t m = (m, error (failed reason))
begin_transfer (came path) t m = (
  record m {
    transfers = put m.next_address (opened path t) m.transfers;
    next_address = suc m.next_address;
    saves = JsMap.set t.transfer_id m.next_address m.saves;
  },
  ok_path path,
)

-- `files:append-incoming-transfer` up to `await appendFile(...)`, with the calls that it makes.
unfoldable pub append_chunk : TransferChunk → Option ℕ → Main → Main × Option Reply × List DiskCall
append_chunk c none m = (m, some (error unknown_transfer), [])
append_chunk c (some a) m =
    let t = m.transfers a in
    if not (nat_beq c.index t.expected_chunk_index)
    then (m, some (error out_of_order), [])
    else if ltb t.expected_size (t.received_bytes + length c.content)
    then (forget c.transfer_id m, some (error too_large), unlink t.temp_file_path ∷ [])
    else (wait (writing a c) m, none, append_file t.temp_file_path c.content ∷ [])

unfoldable pub append_of : Option TransferChunk → Main → Main × Option Reply × List DiskCall
unfolding append_chunk
append_of none m = (m, some (error invalid_chunk), [])
append_of (some c) m = append_chunk c (JsMap.get c.transfer_id m.saves) m

unfoldable pub append_incoming_transfer : Value → Main → Main × Option Reply × List DiskCall
unfolding append_of
append_incoming_transfer payload m = append_of (sanitize_append_incoming_transfer_payload payload) m

abbrev pub grown : ℕ → Transfer → Transfer
grown n t = record t {
  received_bytes = t.received_bytes + n;
  expected_chunk_index = suc t.expected_chunk_index;
}

-- After `await appendFile(...)`: the object is changed, whether the map still holds it or not.
unfoldable pub after_append : Outcome Unit → ℕ → TransferChunk → Main → Main × Reply
after_append (threw reason) a c m = (m, error (failed reason))
after_append (came u) a c m = (
  record m { transfers = put a (grown (length c.content) (m.transfers a)) m.transfers },
  ok_received ((m.transfers a).received_bytes + length c.content),
)

-- How the awaited call of a start or of an append came back.
pub data Answer : Type 0 where
  allocated : Outcome Str → Answer
  written : Outcome Unit → Answer

-- The handler of that number goes on, if it waits for such a call.
unfoldable pub go_on : Answer → Option Waiting → Main → Main × Option Reply
unfolding begin_transfer after_append
go_on (allocated path) (some (opening t)) m =
    let (m', reply) = begin_transfer path t m in (m', some reply)
go_on (written outcome) (some (writing a c)) m =
    let (m', reply) = after_append outcome a c m in (m', some reply)
go_on answer w m = (m, none)

unfoldable pub resume : Answer → ℕ → Main → Main × Option Reply
unfolding go_on
resume answer n m = go_on answer (m.waiting n) (record m { waiting = put n none m.waiting })

abbrev pub renamed_reply : Outcome Unit → Str → Reply
renamed_reply (came tt) path = ok_path path
renamed_reply (threw reason) path = error (failed reason)

unfoldable pub finish_transfer : Outcome Unit → Str → Option ℕ → Main → Main × Reply × List DiskCall
finish_transfer moved id none m = (m, error unknown_transfer, [])
finish_transfer moved id (some a) m =
    let t = m.transfers a in
    if nat_beq t.received_bytes t.expected_size
    then (forget id m, renamed_reply moved t.file_path, rename t.temp_file_path t.file_path ∷ [])
    else (forget id m, error incomplete, unlink t.temp_file_path ∷ [])

unfoldable pub complete_of : Outcome Unit → Option Str → Main → Main × Reply × List DiskCall
unfolding finish_transfer
complete_of moved none m = (m, error unknown_transfer, [])
complete_of moved (some id) m = finish_transfer moved id (JsMap.get id m.saves) m

-- `files:complete-incoming-transfer`
unfoldable pub complete_incoming_transfer :
    Outcome Unit → Value → Main → Main × Reply × List DiskCall
unfolding complete_of
complete_incoming_transfer moved value m = complete_of moved (sanitize_transfer_id value) m

abbrev pub drop_transfer : Str → Option ℕ → Main → Main × Reply × List DiskCall
drop_transfer id none m = (m, ok, [])
drop_transfer id (some a) m = (forget id m, ok, unlink (m.transfers a).temp_file_path ∷ [])

unfoldable pub abort_of : Option Str → Main → Main × Reply × List DiskCall
abort_of none m = (m, ok, [])
abort_of (some id) m = drop_transfer id (JsMap.get id m.saves) m

-- `files:abort-incoming-transfer`
unfoldable pub abort_incoming_transfer : Value → Main → Main × Reply × List DiskCall
unfolding abort_of
abort_incoming_transfer value m = abort_of (sanitize_transfer_id value) m

-- The start of the application: no transfer, and an object at no address that the map holds.
abbrev pub init : Main
init = record {
  transfers = λ a. record {
    expected_chunk_index = 0;
    expected_size = 0;
    file_path = [];
    temp_file_path = [];
    received_bytes = 0;
  };
  next_address = 0;
  saves = [];
  waiting = λ n. none;
  next_waiting = 0;
}
