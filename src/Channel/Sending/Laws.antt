-- ===== src/Channel/Sending/Laws.antt =====
-- What `sendFile` of apps/desktop/src/renderer/src/webrtc/RemoteControlClient.ts sends: it ends, and
-- unless it is stopped the receiver reads the file off its messages.
use remote_controll_app.Prelude.{
  ℕ, zero, suc, ◌+◌, ◌^◌, ◌≤◌, ◌<◌, ◌≡◌, ◌∙◌, refl, sym, ap, subst, Bool, true, false, ◌&&◌, Option,
  none, some, List, [], ◌∷◌, ◌++◌, map, ◌%◌, if◌then◌else◌, ltb, ltb→lt, length, take, drop, arith,
  if_ind, nat_beq, All, length-take-le,
}
use remote_controll_app.Text.{Str, lit, str_beq, str_beq_iff, is_empty}
use remote_controll_app.Channel.{
  Message, file_transfer_start, file_transfer_chunk, file_transfer_complete, mebibytes,
}
use remote_controll_app.Channel.Encoded.{base64_to_bytes}
use remote_controll_app.Channel.Checksum.{
  create_file_transfer_checksum, update_file_transfer_checksum, format_file_transfer_checksum,
  mix_all,
}
use remote_controll_app.Channel.Checksum.Detection.{update-append, update_lt, AreBytes}
use remote_controll_app.Channel.Sending.{
  Ended, ended, stopped, no_fuel, Outcome, sent, out_of_fuel, chunk_size, send_chunk, send_chunks,
  send_complete, conclude, send_file,
}
use remote_controll_app.Channel.Sending.Parts.{chunk_full, drop-chunk, drop_all}

abbrev is_no_fuel : Ended → Bool
is_no_fuel no_fuel = true
is_no_fuel _ = false

abbrev pub is_out_of_fuel : Outcome → Bool
is_out_of_fuel out_of_fuel = true
is_out_of_fuel _ = false

send_chunk-ends :
    (before after : Option Str) (m : Message) (rest : List Message × Ended)
    → is_no_fuel rest.1 ≡ false
    → is_no_fuel (send_chunk before after m rest).1 ≡ false
send_chunk-ends (some reason) after m rest h = refl
send_chunk-ends none (some reason) m rest h = refl
send_chunk-ends none none m (ms, e) h = h

module _ (btoa : Str → Str) (before after : ℕ → Option Str) where
  send_chunks-ends :
      (fuel : ℕ) (id : Str) (file : List ℕ) (offset index checksum : ℕ)
      → length file < offset + fuel
      → 0 < fuel
      → is_no_fuel (send_chunks btoa before after fuel id file offset index checksum).1 ≡ false
  unfolding send_chunks
  send_chunks-ends zero id file offset index checksum h p = absurd (omega (arith, p))
  send_chunks-ends (suc fuel) id file offset index checksum h p =
      let bytes = take chunk_size (drop offset file) in
      if_ind (λ (r : List Message × Ended). is_no_fuel r.1 ≡ false) (ltb offset (length file)) _ _
        (λ y.
          let more = chunk_full offset file (ltb→lt offset (length file) y) in
          send_chunk-ends (before index) (after index) _ _ (
            send_chunks-ends fuel id file (offset + length bytes) (suc index) _
              (omega (arith, more, h)) (omega (arith, h, ltb→lt offset (length file) y))))
        (λ n. refl)

  send_complete-returns :
      (is_open : Bool) (id : Str) (early late : Option Str) (checksum : ℕ)
      → is_out_of_fuel (send_complete btoa before after is_open id early late checksum).1 ≡ false
  send_complete-returns is_open id (some reason) late checksum = refl
  send_complete-returns is_open id none (some reason) checksum = refl
  send_complete-returns is_open id none none checksum = refl

  conclude-returns :
      (is_open : Bool) (id : Str) (e : Ended)
      → is_no_fuel e ≡ false
      → is_out_of_fuel (conclude btoa before after is_open id e).1 ≡ false
  conclude-returns is_open id (ended checksum n) h =
      send_complete-returns is_open id (before n) (after n) checksum
  conclude-returns is_open id (stopped reason) h = refl
  conclude-returns is_open id no_fuel h = absurd (cc h)

  -- Wherever it is stopped, `sendFile` returns: one round more than the file has bytes is enough.
  pub send_file-returns :
      (fuel : ℕ) (is_open : Bool) (id name type : Str) (file : List ℕ)
      → length file < fuel
      → is_out_of_fuel (send_file btoa before after fuel is_open id name type file).1 ≡ false
  unfolding send_file
  send_file-returns fuel is_open id name type file h =
      if_ind (λ (r : List Message × Outcome). is_out_of_fuel r.1 ≡ false)
        (ltb (mebibytes 256) (length file)) _ _ (λ y. refl)
        (λ n. conclude-returns is_open id _ (
          send_chunks-ends fuel id file 0 0 create_file_transfer_checksum (omega (arith, h))
            (omega (arith, h))))

-- What a receiver reads off chunks that are numbered from `i` on.
abbrev pub appended : Option (List ℕ) → Option (List ℕ) → Option (List ℕ)
appended (some bytes) (some rest) = some (bytes ++ rest)
appended _ _ = none

abbrev pub read_chunks : (Str → Option Str) → Str → ℕ → List Message → Option (List ℕ)
read_chunks atob id i [] = some []
read_chunks atob id i (file_transfer_chunk j k data_text ∷ ms) =
    let rest = read_chunks atob id (suc i) ms in
    if str_beq j id && nat_beq k i then appended (base64_to_bytes atob data_text) rest else none
read_chunks atob id i (_ ∷ ms) = none

AreBytes-take : (n : ℕ) (xs : List ℕ) → AreBytes xs → AreBytes (take n xs)
AreBytes-take zero xs h = tt
AreBytes-take (suc n) [] h = tt
AreBytes-take (suc n) (x ∷ xs) (b, h) = (b, AreBytes-take n xs h)

AreBytes-drop : (n : ℕ) (xs : List ℕ) → AreBytes xs → AreBytes (drop n xs)
AreBytes-drop zero xs h = h
AreBytes-drop (suc n) [] h = tt
AreBytes-drop (suc n) (x ∷ xs) (b, h) = AreBytes-drop n xs h

bytes_mod : (xs : List ℕ) → AreBytes xs → map (λ c. c % 256) xs ≡ xs
bytes_mod [] h = refl
bytes_mod (x ∷ xs) (b, h) = ground (arith, b, bytes_mod xs h)

pub update-nil :
    (checksum : ℕ) → checksum < 2 ^ 32 → update_file_transfer_checksum checksum [] ≡ checksum
unfolding update_file_transfer_checksum mix_all
update-nil checksum h = omega (arith, h)

-- A chunk is not empty and has at most 48 KiB.
pub data IsPart (btoa : Str → Str) (id : Str) : Message → Type 0 where
  part :
      (index : ℕ) (bytes : List ℕ)
      → AreBytes bytes
      → 0 < length bytes
      → length bytes ≤ chunk_size
      → IsPart btoa id (file_transfer_chunk id index (btoa bytes))

module _ (btoa : Str → Str) (atob : Str → Option Str)
    (decodes : (bytes : List ℕ) → AreBytes bytes → atob (btoa bytes) ≡ some bytes) where
  -- The chunks hold what is left of the file, and the loop ends with its checksum.
  abbrev IsSent : Str → ℕ → ℕ → List ℕ → List Message × Ended → Type 0
  IsSent id index checksum left r =
      All (IsPart btoa id) r.0
      × (read_chunks atob id index r.0 ≡ some left)
      × (n : ℕ) × (r.1 ≡ ended (update_file_transfer_checksum checksum left) n)

  pub decoded : (bytes : List ℕ) → AreBytes bytes → base64_to_bytes atob (btoa bytes) ≡ some bytes
  decoded bytes h = rw (decodes bytes h) (ap (λ (ys : List ℕ). some ys) (bytes_mod bytes h))

  send_chunk-IsSent :
      (id : Str) (index checksum : ℕ) (whole bytes left : List ℕ) (rest : List Message × Ended)
      → whole ≡ bytes ++ left
      → AreBytes bytes
      → 0 < length bytes
      → length bytes ≤ chunk_size
      → IsSent id (suc index) (update_file_transfer_checksum checksum bytes) left rest
      → IsSent id index checksum whole
          (send_chunk none none (file_transfer_chunk id index (btoa bytes)) rest)
  send_chunk-IsSent id index checksum whole bytes left (ms, e) parts h some_left few
        (all, read, n, same) =
      let named : str_beq id id ≡ true = (str_beq_iff id id).1 refl in
      let counted : nat_beq index index ≡ true = ground arith in
      (
        (part index bytes h some_left few, all),
        rw (named, counted, decoded bytes h, read, parts) refl,
        n,
        same
            ∙ ap (λ c. ended c n) (update-append checksum bytes left)
            ∙ ap (λ xs. ended (update_file_transfer_checksum checksum xs) n) (sym parts),
      )

  send_chunks-IsSent :
      (fuel : ℕ) (id : Str) (file : List ℕ) (offset index checksum : ℕ)
      → length file < offset + fuel
      → 0 < fuel
      → checksum < 2 ^ 32
      → AreBytes file
      → IsSent id index checksum
          (drop offset file)
          (send_chunks btoa (λ n. none) (λ n. none) fuel id file offset index checksum)
  unfolding send_chunks
  send_chunks-IsSent zero id file offset index checksum h p small b = absurd (omega (arith, p))
  send_chunks-IsSent (suc fuel) id file offset index checksum h p small b =
      let bytes = take chunk_size (drop offset file) in
      if_ind (λ (r : List Message × Ended). IsSent id index checksum (drop offset file) r)
        (ltb offset (length file)) _ _
        (λ y.
          let more = chunk_full offset file (ltb→lt offset (length file) y) in
          send_chunk-IsSent id index checksum (drop offset file) bytes
            (drop (offset + length bytes) file) _ (drop-chunk offset file)
            (AreBytes-take chunk_size (drop offset file) (AreBytes-drop offset file b)) more
            (length-take-le chunk_size (drop offset file))
            (send_chunks-IsSent fuel id file (offset + length bytes) (suc index)
              (update_file_transfer_checksum checksum bytes) (omega (arith, more, h))
              (omega (arith, h, ltb→lt offset (length file) y)) (update_lt checksum bytes) b))
        (λ n.
          let over : length file ≤ offset = ground (arith, n) in
          let nothing : drop offset file ≡ [] = drop_all offset file over in
          subst (λ left. IsSent id index checksum left ([], ended checksum index)) (sym nothing)
            (tt, refl, index, ap (λ c. ended c index) (sym (update-nil checksum small))))

  -- A file of at most 256 MiB that nothing interrupts is sent as its start, its chunks and its
  -- completion: the chunks are numbered from 0 and hold the file, as the receiver decodes them, and the
  -- completion holds its checksum.
  pub send_file-IsWhole :
      (fuel : ℕ) (is_open : Bool) (id name type : Str) (file : List ℕ)
      → length file < fuel
      → length file ≤ mebibytes 256
      → AreBytes file
      → (cs : List Message) × (send_file btoa (λ n. none) (λ n. none) fuel is_open id name type file
          ≡ (
            file_transfer_start id name
                    (if is_empty type then lit "application/octet-stream" else type)
                    (length file)
                  ∷ cs
                ++ file_transfer_complete id (
                    format_file_transfer_checksum
                      (update_file_transfer_checksum create_file_transfer_checksum file))
                  ∷ [],
            sent,
          ))
        × (read_chunks atob id 0 cs ≡ some file)
        × All (IsPart btoa id) cs
  unfolding send_file
  send_file-IsWhole fuel is_open id name type file h small b =
      let fits : ltb (mebibytes 256) (length file) ≡ false = ground (arith, small) in
      let (all, read, n, same) =
        send_chunks-IsSent fuel id file 0 0 create_file_transfer_checksum (omega (arith, h))
          (omega (arith, h)) (omega arith) b in
      (_, rw (fits, same) refl, read, all)
