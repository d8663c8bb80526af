-- ===== src/Files/Transfers/Runs.antt =====
-- Any requests to the handlers of apps/desktop/src/main/fileIpc.ts, with other requests between their
-- segments. The renderer awaits the answer to a chunk before it appends the next one of a transfer.
use remote_controll_app.Prelude.{
  ℕ, ◌+◌, ◌≡◌, ◌∙◌, refl, Option, none, some, List, [], ◌++◌, ltb, length, nat_beq, nat_beq_iff,
  Bool-cases, Option-cases, inl, inr, put,
}
use remote_controll_app.JsMap
use remote_controll_app.JsMap.{JsMap}
use remote_controll_app.Text.{Str, str_eq}
use remote_controll_app.Value.{Value}
use remote_controll_app.Input.{
  TransferStart, TransferChunk, sanitize_transfer_id, sanitize_append_incoming_transfer_payload,
}
use remote_controll_app.Files.{
  Waiting, opening, writing, Main, init, ok_path, Outcome, came, threw, Answer, allocated, written,
  start_of, start_incoming_transfer, append_of, append_chunk, append_incoming_transfer,
  begin_transfer, after_append, go_on, resume, finish_transfer, complete_of,
  complete_incoming_transfer, abort_of, abort_incoming_transfer,
}
use remote_controll_app.Files.Transfers.{Fact, facts_of, taken, declared, Numbered, total, Inv}
use remote_controll_app.Files.Transfers.Steps.{
  IsFree, quiet-Inv, write-Inv, forget-Inv, begin_transfer-Inv, after_append-Inv,
}

-- A chunk comes for a transfer to which no write is pending.
abbrev pub IsAlone : Option TransferChunk → Main → Type 0
IsAlone none m = Unit
IsAlone (some c) m = (a : ℕ) → JsMap.get c.transfer_id m.saves ≡ some a → IsFree a m

-- The states that are reached, with what was acknowledged: requests come at any time, and what waits
-- goes on in any order.
pub data Reached : Main → List Fact → Type 0 where
  at_start : Reached init []
  starts :
      (m : Main) (facts : List Fact) (v : Value)
      → Reached m facts
      → Reached (start_incoming_transfer v m).0 facts
  appends :
      (m : Main) (facts : List Fact) (v : Value)
      → Reached m facts
      → Reached (append_incoming_transfer v m).0 facts
  goes_on :
      (m : Main) (facts : List Fact) (answer : Answer) (n : ℕ)
      → Reached m facts
      → Reached (resume answer n m).0 (facts_of answer (m.waiting n) m.next_address ++ facts)
  completes :
      (m : Main) (facts : List Fact) (moved : Outcome Unit) (v : Value)
      → Reached m facts
      → Reached (complete_incoming_transfer moved v m).0 facts
  aborts :
      (m : Main) (facts : List Fact) (v : Value)
      → Reached m facts
      → Reached (abort_incoming_transfer v m).0 facts

-- Each chunk came while no write to its transfer was pending.
abbrev pub IsOrderly : (m : Main) (facts : List Fact) → Reached m facts → Type 0
IsOrderly m facts at_start = Unit
IsOrderly m facts (starts m' facts' v r) = IsOrderly m' facts' r
IsOrderly m facts (appends m' facts' v r) =
    IsAlone (sanitize_append_incoming_transfer_payload v) m' × IsOrderly m' facts' r
IsOrderly m facts (goes_on m' facts' answer n r) = IsOrderly m' facts' r
IsOrderly m facts (completes m' facts' moved v r) = IsOrderly m' facts' r
IsOrderly m facts (aborts m' facts' v r) = IsOrderly m' facts' r

start_of-Inv :
    (facts : List Fact) (o : Option TransferStart) (m : Main)
    → Inv facts m
    → Inv facts (start_of o m).0
unfolding start_of
start_of-Inv facts none m v = v
start_of-Inv facts (some t) m v = elim (Bool-cases (JsMap.has t.transfer_id m.saves)) [
  | inl y ↦ rw y v
  | inr n ↦ rw n (quiet-Inv facts m m.next_waiting _ (some (opening t)) (λ a c e. cc e) v)
]

append_chunk-Inv :
    (facts : List Fact) (c : TransferChunk) (a : ℕ) (m : Main)
    → JsMap.get c.transfer_id m.saves ≡ some a
    → IsFree a m
    → Inv facts m
    → Inv facts (append_chunk c (some a) m).0
unfolding append_chunk
append_chunk-Inv facts c a m e free v =
    let t = m.transfers a in
    elim (Bool-cases (nat_beq c.index t.expected_chunk_index)) [
      | inr other ↦ rw other v
      | inl next ↦ elim (Bool-cases (ltb t.expected_size (t.received_bytes + length c.content))) [
        | inl over ↦ rw (next, over) (forget-Inv facts m c.transfer_id v)
        | inr fits ↦
            rw (next, fits)
              (write-Inv facts m a c
                (record {
                  index = (nat_beq_iff _ _).0 next;
                  known = (v.stored c.transfer_id a e).known;
                })
                free v)
      ]
    ]

append_of-Inv :
    (facts : List Fact) (o : Option TransferChunk) (m : Main)
    → IsAlone o m
    → Inv facts m
    → Inv facts (append_of o m).0
unfolding append_of
append_of-Inv facts none m alone v = v
append_of-Inv facts (some c) m alone v = elim (Option-cases (JsMap.get c.transfer_id m.saves)) [
  | inl e ↦ rw (e, append_chunk) v
  | inr (a, e) ↦ rw e (append_chunk-Inv facts c a m e (alone a e) v)
]

cleared : ℕ → Main → Main
cleared n m = record m { waiting = put n none m.waiting }

cleared-Inv : (facts : List Fact) (m : Main) (n : ℕ) → Inv facts m → Inv facts (cleared n m)
unfolding cleared
cleared-Inv facts m n v = quiet-Inv facts m n m.next_waiting none (λ a c e. cc e) v

-- Once a write came back, no other is pending to its transfer.
cleared-IsFree :
    (facts : List Fact) (m : Main) (n a : ℕ) (c : TransferChunk)
    → m.waiting n ≡ some (writing a c)
    → Inv facts m
    → IsFree a (cleared n m)
unfolding cleared
cleared-IsFree facts m n a c e v k d h = elim (Bool-cases (nat_beq n k)) [
  | inl y ↦ cc (rw y at h)
  | inr other ↦
      let same : n ≡ k = v.alone n k a c d e (rw other at h) in cc ((nat_beq_iff n k).1 same, other)
]

go_on-Inv :
    (facts : List Fact) (answer : Answer) (w : Option Waiting) (n : ℕ) (m : Main)
    → m.waiting n ≡ w
    → Inv facts m
    → Inv (facts_of answer w m.next_address ++ facts) (go_on answer w (cleared n m)).0
unfolding go_on begin_transfer after_append cleared
go_on-Inv facts (allocated (came path)) (some (opening t)) n m e v =
    begin_transfer-Inv facts (cleared n m) path t (cleared-Inv facts m n v)
go_on-Inv facts (allocated (threw reason)) (some (opening t)) n m e v = cleared-Inv facts m n v
go_on-Inv facts (allocated (came path)) (some (writing a c)) n m e v = cleared-Inv facts m n v
go_on-Inv facts (allocated (threw reason)) (some (writing a c)) n m e v = cleared-Inv facts m n v
go_on-Inv facts (allocated (came path)) none n m e v = cleared-Inv facts m n v
go_on-Inv facts (allocated (threw reason)) none n m e v = cleared-Inv facts m n v
go_on-Inv facts (written (came u)) (some (writing a c)) n m e v =
    after_append-Inv facts (cleared n m) a c (v.writes n a c e) (cleared-IsFree facts m n a c e v)
      (cleared-Inv facts m n v)
go_on-Inv facts (written (threw reason)) (some (writing a c)) n m e v = cleared-Inv facts m n v
go_on-Inv facts (written (came u)) (some (opening t)) n m e v = cleared-Inv facts m n v
go_on-Inv facts (written (threw reason)) (some (opening t)) n m e v = cleared-Inv facts m n v
go_on-Inv facts (written (came u)) none n m e v = cleared-Inv facts m n v
go_on-Inv facts (written (threw reason)) none n m e v = cleared-Inv facts m n v

complete_of-Inv :
    (facts : List Fact) (moved : Outcome Unit) (o : Option Str) (m : Main)
    → Inv facts m
    → Inv facts (complete_of moved o m).0
unfolding complete_of finish_transfer
complete_of-Inv facts moved none m v = v
complete_of-Inv facts moved (some id) m v = elim (Option-cases (JsMap.get id m.saves)) [
  | inl e ↦ rw e v
  | inr (a, e) ↦
      elim (Bool-cases (nat_beq (m.transfers a).received_bytes (m.transfers a).expected_size)) [
        | inl y ↦ rw (e, y) (forget-Inv facts m id v)
        | inr n ↦ rw (e, n) (forget-Inv facts m id v)
      ]
]

abort_of-Inv :
    (facts : List Fact) (o : Option Str) (m : Main) → Inv facts m → Inv facts (abort_of o m).0
unfolding abort_of
abort_of-Inv facts none m v = v
abort_of-Inv facts (some id) m v = elim (Option-cases (JsMap.get id m.saves)) [
  | inl e ↦ rw e v
  | inr (a, e) ↦ rw e (forget-Inv facts m id v)
]

reached-Inv :
    (m : Main) (facts : List Fact) (r : Reached m facts) → IsOrderly m facts r → Inv facts m
unfolding start_incoming_transfer append_incoming_transfer resume complete_incoming_transfer
    abort_incoming_transfer cleared JsMap.get
reached-Inv m facts at_start _ = record {
  objects = λ a. record { order = tt; count = refl; bytes = refl };
  stored = λ id a e. cc e;
  writes = λ n a c e. cc e;
  alone = λ n k a c d e f. cc e;
}
reached-Inv m facts (starts m' facts' v r) o = start_of-Inv facts' _ m' (reached-Inv m' facts' r o)
reached-Inv m facts (appends m' facts' v r) (alone, o) =
    append_of-Inv facts' _ m' alone (reached-Inv m' facts' r o)
reached-Inv m facts (goes_on m' facts' answer n r) o =
    go_on-Inv facts' answer (m'.waiting n) n m' refl (reached-Inv m' facts' r o)
reached-Inv m facts (completes m' facts' moved v r) o =
    complete_of-Inv facts' moved _ m' (reached-Inv m' facts' r o)
reached-Inv m facts (aborts m' facts' v r) o = abort_of-Inv facts' _ m' (reached-Inv m' facts' r o)

-- A file is whole: it is the one that was announced, and its chunks are all there, in order.
pub record IsWhole (facts : List Fact) (id path : Str) : Type 0 where
  pub address : ℕ
  pub size : ℕ
  pub start : declared id facts ≡ some (address, size, path)
  pub order : Numbered (taken address facts)
  pub bytes : total (taken address facts) ≡ size

finish_transfer-IsWhole :
    (facts : List Fact) (moved : Outcome Unit) (id path : Str) (a : ℕ) (m : Main)
    → JsMap.get id m.saves ≡ some a
    → Inv facts m
    → (finish_transfer moved id (some a) m).1 ≡ ok_path path
    → IsWhole facts id path
unfolding finish_transfer
finish_transfer-IsWhole facts (threw reason) id path a m e v h =
    elim (Bool-cases (nat_beq (m.transfers a).received_bytes (m.transfers a).expected_size)) [
      | inl y ↦ cc (rw y at h)
      | inr n ↦ cc (rw n at h)
    ]
finish_transfer-IsWhole facts (came u) id path a m e v h =
    elim (Bool-cases (nat_beq (m.transfers a).received_bytes (m.transfers a).expected_size)) [
      | inl y ↦
          let same : (m.transfers a).file_path ≡ path = cc (rw y at h) in
          record {
            address = a;
            size = (m.transfers a).expected_size;
            start = rw (← same) (v.stored id a e).start;
            order = (v.objects a).order;
            bytes = (v.objects a).bytes ∙ (nat_beq_iff _ _).0 y;
          }
      | inr n ↦ cc (rw n at h)
    ]

-- Requests came in any order, also while the starts, the writes and the moves of others were pending,
-- but a chunk only while no write to its own transfer was pending; and the disk did anything. Then a
-- transfer is only reported complete at a path if that path was allocated at the last start under
-- its id, the chunks that were written for that start and acknowledged are numbered from 0 without a
-- gap, in that order, and they make up the announced size.
pub completed-IsWhole :
    (m : Main) (facts : List Fact) (moved : Outcome Unit) (v : Value) (id path : Str)
    → (r : Reached m facts) → IsOrderly m facts r
    → sanitize_transfer_id v ≡ some id
    → (complete_incoming_transfer moved v m).1 ≡ ok_path path
    → IsWhole facts id path
unfolding complete_incoming_transfer complete_of finish_transfer
completed-IsWhole m facts moved v id path r o e h = elim (Option-cases (JsMap.get id m.saves)) [
  | inl none_there ↦ cc (rw (e, complete_of, none_there, finish_transfer) at h)
  | inr (a, there) ↦
      finish_transfer-IsWhole facts moved id path a m there (reached-Inv m facts r o)
        (rw (e, complete_of, there) at h)
]
