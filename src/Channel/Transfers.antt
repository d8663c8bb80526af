-- ===== src/Channel/Transfers.antt =====
-- The files that arrive over the data channel: `beginIncomingFileTransfer` and the methods after it in
-- apps/desktop/src/renderer/src/webrtc/RemoteControlClient.ts. A transfer is an object that the map of
-- active transfers, the callbacks of its queue and its timer share: it stands at an address.
pub mod Events
pub mod Frames
pub mod Whole
pub mod Watched
use remote_controll_app.Prelude.{
  ℕ, suc, ◌+◌, ◌*◌, Bool, true, false, Option, none, some, List, [], ◌∷◌, ◌++◌, if◌then◌else◌, leb,
  ltb, length, nat_beq,
}
pub use remote_controll_app.Prelude.{put}
use remote_controll_app.JsMap
use remote_controll_app.JsMap.{JsMap}
use remote_controll_app.Text.{Str, str_eq}
use remote_controll_app.Channel.{mebibytes}
use remote_controll_app.Channel.Checksum.{create_file_transfer_checksum}

-- A chunk whose turn in the queue has not come.
pub record Chunk : Type 0 where
  pub transfer_id : Str
  pub index : ℕ
  pub data_text : Str

-- What the queue waits for: nothing, the answer to the start, or the answer to a write.
pub data Current : Type 0 where
  idle : Current
  starting : Str → Current
  writing : Str → ℕ → List ℕ → Current

-- `IncomingFileTransfer`. The promise `queue` is `current`, `queue`, the number of its settled parts
-- and whether it has been rejected; `timer` is the id that the callback of an armed timer passes on.
pub record Transfer : Type 0 where
  pub checksum : ℕ
  pub failed : Bool
  pub name : Str
  pub size : ℕ
  pub mime_type : Str
  pub next_chunk_index : ℕ
  pub path : Option Str
  pub received_bytes : ℕ
  pub timer : Option Str
  pub current : Current
  pub queue : List Chunk
  pub settled : ℕ
  pub is_rejected : Bool

-- Where `completeIncomingFileTransfer` stands: until so many parts of the queue are settled, in the
-- call that aborts, or in the call that completes.
pub data Phase : Type 0 where
  waiting : ℕ → Phase
  aborting_incomplete aborting_mismatch finishing : Phase

pub record Completion : Type 0 where
  pub transfer_id : Str
  pub address : ℕ
  pub checksum : Str
  pub phase : Phase

-- Status reports, calls of the main process, and messages to the peer.
pub data Out : Type 0 where
  rejected_too_large rejected_duplicate rejected_too_many receiving interrupted : Out
  start_file : Str → Str → ℕ → Out
  append_file : Str → ℕ → List ℕ → Out
  complete_file abort_file send_abort failed_status outgoing_aborted : Str → Out
  progress : Str → ℕ → ℕ → Out
  incomplete_status mismatch_status save_failed_status : Str → Out
  received_file : ℕ → Str → Option Str → Out

pub record Client : Type 0 where
  pub incoming : JsMap Str ℕ
  pub transfers : ℕ → Transfer
  pub next_address : ℕ
  pub completions : ℕ → Option Completion
  pub next_completion : ℕ
  pub abort_reasons : JsMap Str Str

abbrev pub blank : Transfer
blank = record {
  checksum = create_file_transfer_checksum;
  failed = false;
  name = [];
  size = 0;
  mime_type = [];
  next_chunk_index = 0;
  path = none;
  received_bytes = 0;
  timer = none;
  current = idle;
  queue = [];
  settled = 0;
  is_rejected = false;
}

abbrev pub init : Client
init = record {
  incoming = [];
  transfers = λ a. blank;
  next_address = 0;
  completions = λ n. none;
  next_completion = 0;
  abort_reasons = [];
}

-- `failIncomingFileTransferInternal`, for the transfer that the map has under the id.
unfoldable pub fail_found : Str → Bool → Option ℕ → Client → Client × List Out
fail_found id notify_peer none c = (c, [])
fail_found id notify_peer (some a) c = if (c.transfers a).failed then (c, []) else (
  record c {
    incoming = JsMap.delete id c.incoming;
    transfers = put a (record (c.transfers a) { failed = true; timer = none }) c.transfers;
  },
  abort_file id ∷ (if notify_peer then send_abort id ∷ [] else []) ++ failed_status id ∷ [],
)

unfoldable pub fail_incoming_file_transfer_internal : Str → Bool → Client → Client × List Out
unfolding fail_found
fail_incoming_file_transfer_internal id notify_peer c =
    fail_found id notify_peer (JsMap.get id c.incoming) c

abbrev pub fail_incoming_file_transfer : Str → Client → Client × List Out
fail_incoming_file_transfer id c = fail_incoming_file_transfer_internal id true c

-- `failIncomingFileTransfers`: every timer is cleared, every transfer is aborted.
abbrev pub clear_all : JsMap Str ℕ → (ℕ → Transfer) → ℕ → Transfer
clear_all [] f = f
clear_all ((id, a) ∷ m) f = clear_all m (put a (record (f a) { timer = none }) f)

abbrev pub aborts_of : JsMap Str ℕ → List Out
aborts_of [] = []
aborts_of ((id, a) ∷ m) = abort_file id ∷ send_abort id ∷ aborts_of m

unfoldable pub fail_incoming_file_transfers : Client → Client × List Out
fail_incoming_file_transfers c = if nat_beq (length c.incoming) 0 then (c, []) else (
  record c { incoming = []; transfers = clear_all c.incoming c.transfers },
  aborts_of c.incoming ++ interrupted ∷ [],
)

-- `beginIncomingFileTransfer`
abbrev pub started : Str → Str → ℕ → Str → Transfer
started id name size mime_type = record {
  checksum = create_file_transfer_checksum;
  failed = false;
  name = name;
  size = size;
  mime_type = mime_type;
  next_chunk_index = 0;
  path = none;
  received_bytes = 0;
  timer = some id;
  current = starting id;
  queue = [];
  settled = 0;
  is_rejected = false;
}

unfoldable pub begin_incoming_file_transfer : Str → Str → Str → ℕ → Client → Client × List Out
begin_incoming_file_transfer id name mime_type size c =
    if ltb (mebibytes 256) size
    then (c, rejected_too_large ∷ [])
    else if JsMap.has id c.incoming
    then (c, rejected_duplicate ∷ [])
    else if leb 4 (length c.incoming)
    then (c, rejected_too_many ∷ [])
    else (
      record c {
        incoming = JsMap.set id c.next_address c.incoming;
        transfers = put c.next_address (started id name size mime_type) c.transfers;
        next_address = suc c.next_address;
      },
      start_file id name size ∷ receiving ∷ progress id 0 size ∷ [],
    )
