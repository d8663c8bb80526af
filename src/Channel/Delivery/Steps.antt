-- ===== src/Channel/Delivery/Steps.antt =====
-- What one message of a transfer does to the receiver, `beginIncomingFileTransfer` and the methods
-- after it in apps/desktop/src/renderer/src/webrtc/RemoteControlClient.ts.
use remote_controll_app.Prelude.{
  ℕ, suc, ◌+◌, ◌≤◌, ◌≡◌, refl, true, false, Option, some, List, [], ◌∷◌, append-nil, ltb, leb,
  length, arith, nat_beq, beq_refl,
}
use remote_controll_app.JsMap
use remote_controll_app.Text.{Str, str_eq, str_beq_iff}
use remote_controll_app.Channel.{
  file_transfer_start, file_transfer_chunk, file_transfer_complete, mebibytes,
}
use remote_controll_app.Channel.Encoded.{base64_to_bytes}
use remote_controll_app.Channel.Checksum.{
  create_file_transfer_checksum, update_file_transfer_checksum, format_file_transfer_checksum,
}
use remote_controll_app.Channel.Transfers.{
  writing, Transfer, put, started, blank, init, begin_incoming_file_transfer,
}
use remote_controll_app.Channel.Transfers.Events.{
  enqueue, append_incoming_file_chunk, write_decoded, take_turn, next_turn, answered_start,
  answered_write, answered, await_queue, complete_incoming_file_transfer, check_received,
  report_saved, go_on, resume, handle,
}
use remote_controll_app.Channel.Transfers.Whole.Quiet.{is_reported}
use remote_controll_app.Channel.Delivery.{events_of, run_all, writes, between, state}

module _ (atob : Str → Option Str) where
  pub start_came :
      (id name type : Str) (size : ℕ)
      → size ≤ mebibytes 256
      → (g : ℕ → Transfer) × ((run_all atob
            (events_of (file_transfer_start id name type size))
            init).0
          ≡ state id (between id name type size create_file_transfer_checksum 0 0 1) g)
        × (writes (run_all atob (events_of (file_transfer_start id name type size)) init).1 ≡ [])
  unfolding run_all handle begin_incoming_file_transfer answered answered_start JsMap.has JsMap.set
  start_came id name type size small =
      let fits : ltb (mebibytes 256) size ≡ false = ground (arith, small) in
      (put 0 (started id name size type) (λ a. blank), rw fits refl, rw fits refl)

  pub chunk_came :
      (id name type text : Str) (size sum next received settled : ℕ) (bytes : List ℕ)
      (g : ℕ → Transfer)
      → base64_to_bytes atob text ≡ some bytes
      → received + length bytes ≤ size
      → (g' : ℕ → Transfer) × ((run_all atob
            (events_of (file_transfer_chunk id next text))
            (state id (between id name type size sum next received settled) g)).0
          ≡ state id
              (between id name type size
                (update_file_transfer_checksum sum bytes)
                (suc next)
                (received + length bytes)
                (suc settled))
              g')
        × (writes
              (run_all atob
                (events_of (file_transfer_chunk id next text))
                (state id (between id name type size sum next received settled) g)).1
            ≡ bytes)
  unfolding run_all handle append_incoming_file_chunk enqueue next_turn take_turn write_decoded
      answered answered_write JsMap.get
  chunk_came id name type text size sum next received settled bytes g decoded small =
      let fits : ltb size (received + length bytes) ≡ false = ground (arith, small) in
      let named = beq_refl id in
      let counted : nat_beq next next ≡ true = ground arith in
      let t : Transfer = between id name type size sum next received settled in
      let queued : Transfer = record t {
        queue = record { transfer_id = id; index = next; data_text = text } ∷ [];
      } in
      let busy : Transfer = record t { current = writing id next bytes } in
      (
        put 0 busy (put 0 queued (put 0 t g)),
        rw (named, counted, decoded, fits) refl,
        rw (named, counted, decoded, fits) (append-nil bytes),
      )

  pub complete_came :
      (id name type : Str) (size sum next settled : ℕ) (g : ℕ → Transfer)
      → (is_reported 0
            (run_all atob
              (events_of (file_transfer_complete id (format_file_transfer_checksum sum)))
              (state id (between id name type size sum next size settled) g)).1
          ≡ true)
        × (writes
              (run_all atob
                (events_of (file_transfer_complete id (format_file_transfer_checksum sum)))
                (state id (between id name type size sum next size settled) g)).1
            ≡ [])
  unfolding run_all handle complete_incoming_file_transfer await_queue resume go_on check_received
      report_saved JsMap.get
  complete_came id name type size sum next settled g =
      let named = beq_refl id in
      let settled_all : leb (settled + 0 + 0) settled ≡ true = ground arith in
      let full : nat_beq size size ≡ true = ground arith in
      let agreed =
        (str_beq_iff (format_file_transfer_checksum sum) (format_file_transfer_checksum sum)).1
          refl in
      (rw (named, settled_all, full, agreed) refl, rw (named, settled_all, full, agreed) refl)
