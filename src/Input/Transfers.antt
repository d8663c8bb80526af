-- ===== src/Input/Transfers.antt =====
-- What starts a transfer, and what a chunk is: the payloads of transfers that
-- apps/desktop/src/main/ipcValidation.ts lets through.
use remote_controll_app.Prelude.{
  ℕ, ◌≤◌, ◌≡◌, true, false, some, List, Bool-cases, inl, inr, leb, leb→le, length,
}
use remote_controll_app.Text.{Str}
use remote_controll_app.Value.{Value, number, bytes, as_record}
use remote_controll_app.Value.Numeric.{whole_within_bounds}
use remote_controll_app.Signaling.Payloads.{non_empty}
use remote_controll_app.Signaling.Payloads.Bounds.{bind-eq-some, of_some}
use remote_controll_app.Input.{
  sanitize_string, TransferStart, TransferChunk, is_transfer_id, check_transfer_id,
  sanitize_transfer_id, read_size, read_chunk, read_index, max_transfer_bytes, max_chunk_bytes,
  sanitize_start_incoming_transfer_payload, sanitize_append_incoming_transfer_payload,
}
use remote_controll_app.Input.Bounds.{sanitize_string-short_some}

-- A transfer that may start: a valid id, a name, and a size within the limit.
pub record IsStart (t : TransferStart) : Type 0 where
  pub id : is_transfer_id t.transfer_id ≡ true
  pub name : length t.name ≤ 260
  pub size : t.size ≤ max_transfer_bytes

pub record IsChunk (t : TransferChunk) : Type 0 where
  pub id : is_transfer_id t.transfer_id ≡ true
  pub content : length t.content ≤ max_chunk_bytes

check_transfer_id-some :
    (s : Str) {t : Str} → check_transfer_id s ≡ some t → is_transfer_id t ≡ true
check_transfer_id-some s {t} h = elim (Bool-cases (is_transfer_id s)) [
  | inl y ↦ let same : s ≡ t = cc (rw y at h) in rw (← same) y
  | inr n ↦ cc (rw n at h)
]

pub sanitize_transfer_id-some :
    (v : Value) {t : Str} → sanitize_transfer_id v ≡ some t → is_transfer_id t ≡ true
unfolding sanitize_transfer_id
sanitize_transfer_id-some v h =
    let (s, _, h1) = bind-eq-some (non_empty (sanitize_string 80 true v)) check_transfer_id h in
    check_transfer_id-some s h1

read_size_bound : (v : Value) {n : ℕ} → read_size v ≡ some n → n ≤ max_transfer_bytes
unfolding read_size
read_size_bound (number n) h = (whole_within_bounds 0 max_transfer_bytes n h).1
read_size_bound v h = cc h

read_chunk_bound : (v : Value) {bs : List ℕ} → read_chunk v ≡ some bs → length bs ≤ max_chunk_bytes
unfolding read_chunk
read_chunk_bound (bytes cs) {bs} h = elim (Bool-cases (leb (length cs) max_chunk_bytes)) [
  | inl y ↦ let same : cs ≡ bs = cc (rw y at h) in rw (← same) (leb→le _ _ y)
  | inr n ↦ cc (rw n at h)
]
read_chunk_bound v h = cc h

-- A transfer that may start has an id of 1 to 80 word characters, a name of at most 260 code units,
-- and a size of at most 256 MiB.
pub sanitize_start_incoming_transfer_payload-IsStart :
    (v : Value) (t : TransferStart)
    → sanitize_start_incoming_transfer_payload v ≡ some t
    → IsStart t
unfolding sanitize_start_incoming_transfer_payload
sanitize_start_incoming_transfer_payload-IsStart v t h =
    let (fields, _, h1) = bind-eq-some (as_record v) _ h in
    let (id, e, h2) = bind-eq-some (sanitize_transfer_id _) _ h1 in
    let (name, e', h3) = bind-eq-some (sanitize_string 260 false _) _ h2 in
    let (size, e2, h4) = bind-eq-some (read_size _) _ h3 in
    of_some IsStart h4 (record {
      id = sanitize_transfer_id-some _ e;
      name = sanitize_string-short_some 260 false _ e';
      size = read_size_bound _ e2;
    })

-- A chunk that is let through has an id of 1 to 80 word characters and at most 64 KiB.
pub sanitize_append_incoming_transfer_payload-IsChunk :
    (v : Value) (t : TransferChunk)
    → sanitize_append_incoming_transfer_payload v ≡ some t
    → IsChunk t
unfolding sanitize_append_incoming_transfer_payload
sanitize_append_incoming_transfer_payload-IsChunk v t h =
    let (fields, _, h1) = bind-eq-some (as_record v) _ h in
    let (id, e, h2) = bind-eq-some (sanitize_transfer_id _) _ h1 in
    let (bs, e', h3) = bind-eq-some (read_chunk _) _ h2 in
    let (index, _, h4) = bind-eq-some (read_index _) _ h3 in
    of_some IsChunk h4
      (record { id = sanitize_transfer_id-some _ e; content = read_chunk_bound _ e' })
