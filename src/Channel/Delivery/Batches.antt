-- ===== src/Channel/Delivery/Batches.antt =====
-- The chunks of a transfer, one after the other, in the receiver of
-- apps/desktop/src/renderer/src/webrtc/RemoteControlClient.ts.
use remote_controll_app.Prelude.{
  ℕ, suc, ◌+◌, ◌^◌, ◌≤◌, ◌<◌, ◌≡◌, ◌∙◌, refl, sym, ap, ◌&&◌, Option, none, some, List, [], ◌∷◌,
  ◌++◌, append_assoc, length, length-append, arith, Bool-cases, inl, inr, nat_beq, nat_beq_iff,
}
use remote_controll_app.Text.{Str, str_eq, str_beq, str_beq_iff}
use remote_controll_app.Channel.{
  Message, control, host_state, host_command, clipboard_sync, file_transfer_start,
  file_transfer_chunk, file_transfer_complete, file_transfer_abort,
}
use remote_controll_app.Channel.Encoded.{base64_to_bytes}
use remote_controll_app.Channel.Checksum.{update_file_transfer_checksum}
use remote_controll_app.Channel.Checksum.Detection.{update-append, update_lt}
use remote_controll_app.Channel.Transfers.{
  Transfer, Client, Out, append_file, rejected_too_large, rejected_duplicate, rejected_too_many,
  receiving, interrupted, complete_file, abort_file, send_abort, failed_status, outgoing_aborted,
  incomplete_status, mismatch_status, save_failed_status, start_file, progress, received_file,
}
use remote_controll_app.Channel.Transfers.Events.{Event, handle}
use remote_controll_app.Channel.Sending.Laws.{read_chunks, appended, update-nil}
use remote_controll_app.Channel.Delivery.{events_of, all_events, run_all, writes, between, state}
use remote_controll_app.Channel.Delivery.Steps.{chunk_came}

module _ (atob : Str → Option Str) where
  -- Two batches of events, one after the other.
  pub run_all-append :
      (es es' : List Event) (c : Client)
      → ((run_all atob (es ++ es') c).0 ≡ (run_all atob es' (run_all atob es c).0).0)
        × ((run_all atob (es ++ es') c).1
            ≡ (run_all atob es c).1 ++ (run_all atob es' (run_all atob es c).0).1)
  unfolding run_all
  run_all-append [] es' c = (refl, refl)
  run_all-append (e ∷ es) es' c =
      let (same, outs) = run_all-append es es' (handle atob e c).0 in
      (
        same,
        ap (λ (os : List Out). (handle atob e c).1 ++ os) outs
            ∙ sym (append_assoc (handle atob e c).1 _ _),
      )

  pub writes-append : (xs ys : List Out) → writes (xs ++ ys) ≡ writes xs ++ writes ys
  writes-append [] ys = refl
  writes-append (append_file id i bytes ∷ xs) ys =
      ap (λ (zs : List ℕ). bytes ++ zs) (writes-append xs ys)
      ∙ sym (append_assoc bytes (writes xs) (writes ys))
  writes-append (rejected_too_large ∷ xs) ys = writes-append xs ys
  writes-append (rejected_duplicate ∷ xs) ys = writes-append xs ys
  writes-append (rejected_too_many ∷ xs) ys = writes-append xs ys
  writes-append (receiving ∷ xs) ys = writes-append xs ys
  writes-append (interrupted ∷ xs) ys = writes-append xs ys
  writes-append (complete_file id ∷ xs) ys = writes-append xs ys
  writes-append (abort_file id ∷ xs) ys = writes-append xs ys
  writes-append (send_abort id ∷ xs) ys = writes-append xs ys
  writes-append (failed_status id ∷ xs) ys = writes-append xs ys
  writes-append (outgoing_aborted id ∷ xs) ys = writes-append xs ys
  writes-append (incomplete_status id ∷ xs) ys = writes-append xs ys
  writes-append (mismatch_status id ∷ xs) ys = writes-append xs ys
  writes-append (save_failed_status id ∷ xs) ys = writes-append xs ys
  writes-append (start_file id name size ∷ xs) ys = writes-append xs ys
  writes-append (progress id n size ∷ xs) ys = writes-append xs ys
  writes-append (received_file a name path ∷ xs) ys = writes-append xs ys

  pub appended-some :
      (o p : Option (List ℕ)) (left : List ℕ)
      → appended o p ≡ some left
      → (bytes : List ℕ) × (rest : List ℕ) × (o ≡ some bytes)
        × (p ≡ some rest)
        × (left ≡ bytes ++ rest)
  appended-some none p left h = absurd (cc h)
  appended-some (some bytes) none left h = absurd (cc h)
  appended-some (some bytes) (some rest) left h = (
    bytes,
    rest,
    refl,
    refl,
    sym (ap (λ (o : Option (List ℕ)). elim o [ none ↦ bytes ++ rest | some xs ↦ xs ]) h),
  )

  -- A chunk that is read has its number, and decodes.
  pub read_chunk :
      (id j text : Str) (i k : ℕ) (ms : List Message) (left : List ℕ)
      → read_chunks atob id i (file_transfer_chunk j k text ∷ ms) ≡ some left
      → (j ≡ id)
        × (k ≡ i)
        × (bytes : List ℕ) × (rest : List ℕ) × (base64_to_bytes atob text ≡ some bytes)
        × (read_chunks atob id (suc i) ms ≡ some rest)
        × (left ≡ bytes ++ rest)
  read_chunk id j text i k ms left h = elim (Bool-cases (str_beq j id && nat_beq k i)) [
    | inl y ↦
        let (bytes, rest, decoded, read, parts) =
          appended-some (base64_to_bytes atob text) (read_chunks atob id (suc i) ms) left
            (rw y at h) in
        (
          (str_beq_iff j id).0 (ground (arith, y)),
          (nat_beq_iff k i).0 (ground (arith, y)),
          bytes,
          rest,
          decoded,
          read,
          parts,
        )
    | inr n ↦ let h' : none ≡ some left = rw n at h in absurd (cc h')
  ]

  -- After the events: more of the file is there, and has been written.
  abbrev pub Taken : Str → Str → Str → ℕ → ℕ → ℕ → List ℕ → Client × List Out → Type 0
  Taken id name type size sum received left r =
      (g' : ℕ → Transfer) × (next' : ℕ) × (settled' : ℕ) × (r.0
        ≡ state id
            (between id name type size (update_file_transfer_checksum sum left) next'
              (received + length left) settled')
            g')
      × (writes r.1 ≡ left)

  pub nothing_came :
      (id name type : Str) (size sum next received settled : ℕ) (left : List ℕ) (g : ℕ → Transfer)
      → some [] ≡ some left
      → sum < 2 ^ 32
      → Taken id name type size sum received left
          (run_all atob [] (state id (between id name type size sum next received settled) g))
  unfolding run_all
  nothing_came id name type size sum next received settled left g read small =
      let none_left : [] ≡ left =
        ap (λ (o : Option (List ℕ)). elim o [ none ↦ [] | some xs ↦ xs ]) read in
      let zero_more : received + 0 ≡ received = omega arith in
      (g, next, settled, rw (← none_left, update-nil sum small, zero_more) refl, none_left)

  pub joined :
      (es es' : List Event) (c c' : Client) (id name type : Str) (size sum received : ℕ)
      (left bytes rest : List ℕ)
      → left ≡ bytes ++ rest
      → (run_all atob es c).0 ≡ c'
      → writes (run_all atob es c).1 ≡ bytes
      → Taken id name type size
          (update_file_transfer_checksum sum bytes)
          (received + length bytes)
          rest
          (run_all atob es' c')
      → Taken id name type size sum received left (run_all atob (es ++ es') c)
  joined es es' c c' id name type size sum received left bytes rest parts at wrote
        (g, next, settled, later, wrote') =
      let (same, outs) = run_all-append es es' c in
      let count : received + length bytes + length rest ≡ received + length left =
        omega (arith, ap (λ (xs : List ℕ). length xs) parts, length-append bytes rest) in
      let whole : update_file_transfer_checksum (update_file_transfer_checksum sum bytes) rest
          ≡ update_file_transfer_checksum sum left =
        update-append sum bytes rest
        ∙ ap (λ (xs : List ℕ). update_file_transfer_checksum sum xs) (sym parts) in
      (
        g,
        next,
        settled,
        same
            ∙ ap (λ (d : Client). (run_all atob es' d).0) at
            ∙ later
            ∙ ap
                (λ (n : ℕ).
                  state id
                    (between id name type size
                      (update_file_transfer_checksum (update_file_transfer_checksum sum bytes) rest)
                      next n settled)
                    g)
                count
            ∙ ap
                (λ (n : ℕ).
                  state id (between id name type size n next (received + length left) settled) g)
                whole,
        ap writes outs
            ∙ writes-append (run_all atob es c).1 (run_all atob es' (run_all atob es c).0).1
            ∙ ap (λ (xs : List ℕ). xs ++ writes (run_all atob es' (run_all atob es c).0).1) wrote
            ∙ ap (λ (d : Client). bytes ++ writes (run_all atob es' d).1) at
            ∙ ap (λ (xs : List ℕ). bytes ++ xs) wrote'
            ∙ sym parts,
      )

  -- Events before that write nothing.
  pub preceded :
      (es es' : List Event) (c c' : Client) (id name type : Str) (size sum received : ℕ)
      (left : List ℕ)
      → (run_all atob es c).0 ≡ c'
      → writes (run_all atob es c).1 ≡ []
      → Taken id name type size sum received left (run_all atob es' c')
      → Taken id name type size sum received left (run_all atob (es ++ es') c)
  preceded es es' c c' id name type size sum received left at wrote
        (g, next, settled, later, wrote') =
      let (same, outs) = run_all-append es es' c in
      (
        g,
        next,
        settled,
        same ∙ ap (λ (d : Client). (run_all atob es' d).0) at ∙ later,
        ap writes outs
            ∙ writes-append (run_all atob es c).1 (run_all atob es' (run_all atob es c).0).1
            ∙ ap (λ (xs : List ℕ). xs ++ writes (run_all atob es' (run_all atob es c).0).1) wrote
            ∙ ap (λ (d : Client). writes (run_all atob es' d).1) at
            ∙ wrote',
      )

  pub chunks_came :
      (ms : List Message) (id name type : Str) (size sum next received settled : ℕ) (left : List ℕ)
      (g : ℕ → Transfer)
      → read_chunks atob id next ms ≡ some left
      → received + length left ≤ size
      → sum < 2 ^ 32
      → Taken id name type size sum received left (
          run_all atob
            (all_events ms)
            (state id (between id name type size sum next received settled) g))
  chunks_came [] id name type size sum next received settled left g read fits small =
      nothing_came id name type size sum next received settled left g read small
  chunks_came (file_transfer_chunk j k text ∷ ms) id name type size sum next received settled left g
        read fits small =
      let (named, counted, bytes, rest, decoded, read', parts) =
        read_chunk id j text next k ms left read in
      let sizes = ap (λ (xs : List ℕ). length xs) parts in
      let (g', came, wrote) =
        chunk_came atob id name type text size sum next received settled bytes g decoded
          (omega (arith, fits, sizes, length-append bytes rest)) in
      let same : events_of (file_transfer_chunk j k text)
          ≡ events_of (file_transfer_chunk id next text) =
        rw (named, counted) refl in
      let there : Client = state id (between id name type size sum next received settled) g in
      joined (events_of (file_transfer_chunk j k text)) (all_events ms) there _ id name type size
        sum received left bytes rest parts
        (ap (λ (es : List Event). (run_all atob es there).0) same ∙ came)
        (ap (λ (es : List Event). writes (run_all atob es there).1) same ∙ wrote)
        (chunks_came ms id name type size (update_file_transfer_checksum sum bytes) (suc next)
          (received + length bytes) (suc settled) rest g' read'
          (omega (arith, fits, sizes, length-append bytes rest)) (update_lt sum bytes))
  chunks_came (control m ∷ ms) id name type size sum next received settled left g read fits small =
      absurd (cc read)
  chunks_came (host_state ss a ∷ ms) id name type size sum next received settled left g read fits
        small =
      absurd (cc read)
  chunks_came (host_command m ∷ ms) id name type size sum next received settled left g read fits
        small =
      absurd (cc read)
  chunks_came (clipboard_sync m ∷ ms) id name type size sum next received settled left g read fits
        small =
      absurd (cc read)
  chunks_came (file_transfer_start j n t k ∷ ms) id name type size sum next received settled left g
        read fits small =
      absurd (cc read)
  chunks_came (file_transfer_complete j c ∷ ms) id name type size sum next received settled left g
        read fits small =
      absurd (cc read)
  chunks_came (file_transfer_abort j r ∷ ms) id name type size sum next received settled left g read
        fits small =
      absurd (cc read)
