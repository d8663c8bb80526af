-- ===== src/Channel/Sending.antt =====
-- The sending of a file: `sendFile` of apps/desktop/src/renderer/src/webrtc/RemoteControlClient.ts.
-- `btoa` is a parameter. `before n` and `after n` are the reasons, if any, for which the n-th message
-- after the start is not sent, and for which the sender stops once it is sent: a closed channel, a
-- buffer that does not drain, an abort of the receiver.
pub mod Parts
pub mod Laws
use remote_controll_app.Prelude.{
  ℕ, zero, suc, ◌+◌, ◌*◌, Bool, true, false, Option, none, some, List, [], ◌∷◌, ◌++◌, if◌then◌else◌,
  ltb, length, take, drop,
}
use remote_controll_app.Text.{Str, lit, is_empty}
use remote_controll_app.Input.{sanitize_string}
use remote_controll_app.Value.{string}
use remote_controll_app.Signaling.Payloads.{non_empty}
use remote_controll_app.Channel.{
  Message, file_transfer_start, file_transfer_chunk, file_transfer_complete, file_transfer_abort,
  mebibytes,
}
use remote_controll_app.Channel.Checksum.{
  create_file_transfer_checksum, update_file_transfer_checksum, format_file_transfer_checksum,
}

-- How the loop ends: with the checksum and the number of chunks, or for a reason.
pub data Ended : Type 0 where
  ended : ℕ → ℕ → Ended
  stopped : Str → Ended
  no_fuel : Ended

-- How `sendFile` ends.
pub data Outcome : Type 0 where
  sent too_large out_of_fuel : Outcome
  failed : Str → Outcome

abbrev pub chunk_size : ℕ
chunk_size = 48 * 1024

-- One round of the loop.
abbrev pub send_chunk :
    Option Str → Option Str → Message → List Message × Ended → List Message × Ended
send_chunk (some reason) after m rest = ([], stopped reason)
send_chunk none (some reason) m rest = (m ∷ [], stopped reason)
send_chunk none none m (ms, e) = (m ∷ ms, e)

-- The abort message, where the channel is open.
abbrev pub send_abort : Bool → Str → Str → List Message
send_abort is_open id reason =
    if is_open
    then file_transfer_abort id (non_empty (sanitize_string 256 false (string reason))) ∷ []
    else []

module _ (btoa : Str → Str) (before after : ℕ → Option Str) where
  -- The loop, on fuel. `bytesToBase64` hands the bytes to `btoa` as the units of a text.
  unfoldable pub send_chunks : ℕ → Str → List ℕ → ℕ → ℕ → ℕ → List Message × Ended
  send_chunks zero id file offset index checksum = ([], no_fuel)
  send_chunks (suc fuel) id file offset index checksum =
      let bytes = take chunk_size (drop offset file) in
      let rest =
        send_chunks fuel id file (offset + length bytes) (suc index)
          (update_file_transfer_checksum checksum bytes) in
      if ltb offset (length file)
      then send_chunk (before index) (after index) (file_transfer_chunk id index (btoa bytes)) rest
      else ([], ended checksum index)

  -- The message that completes the transfer.
  abbrev pub send_complete : Bool → Str → Option Str → Option Str → ℕ → List Message × Outcome
  send_complete is_open id (some reason) late checksum =
      (send_abort is_open id reason, failed reason)
  send_complete is_open id none (some reason) checksum = (
    file_transfer_complete id (format_file_transfer_checksum checksum)
        ∷ send_abort is_open id reason,
    failed reason,
  )
  send_complete is_open id none none checksum =
      (file_transfer_complete id (format_file_transfer_checksum checksum) ∷ [], sent)

  abbrev pub conclude : Bool → Str → Ended → List Message × Outcome
  conclude is_open id (ended checksum n) = send_complete is_open id (before n) (after n) checksum
  conclude is_open id (stopped reason) = (send_abort is_open id reason, failed reason)
  conclude is_open id no_fuel = ([], out_of_fuel)

  -- `sendFile` on an open channel: `is_open` says whether it is open when an abort is sent.
  unfoldable pub send_file : ℕ → Bool → Str → Str → Str → List ℕ → List Message × Outcome
  unfolding send_chunks
  send_file fuel is_open id name type file =
      let (ms, e) = send_chunks fuel id file 0 0 create_file_transfer_checksum in
      let (last, outcome) = conclude is_open id e in
      if ltb (mebibytes 256) (length file) then ([], too_large) else (
        file_transfer_start id name (if is_empty type then lit "application/octet-stream" else type)
                (length file)
              ∷ ms
            ++ last,
        outcome,
      )
