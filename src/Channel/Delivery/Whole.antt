-- ===== src/Channel/Delivery/Whole.antt =====
-- A file from `sendFile` to its receiver in
-- apps/desktop/src/renderer/src/webrtc/RemoteControlClient.ts.
use remote_controll_app.Prelude.{
  ℕ, ◌+◌, ◌≤◌, ◌<◌, ◌≡◌, ◌∙◌, refl, sym, ap, subst, Bool, true, Option, none, List, [], ◌∷◌, ◌++◌,
  append-nil, if◌then◌else◌, length, arith, map, All,
}
use remote_controll_app.Text.{Str, lit, is_empty, str_eq}
use remote_controll_app.Channel.{Message, file_transfer_start, file_transfer_complete, mebibytes}
use remote_controll_app.Channel.Checksum.{
  create_file_transfer_checksum, update_file_transfer_checksum, format_file_transfer_checksum,
}
use remote_controll_app.Channel.Checksum.Detection.{AreBytes}
use remote_controll_app.Channel.Transfers.{Client, Out, init}
use remote_controll_app.Channel.Transfers.Events.{Event}
use remote_controll_app.Channel.Transfers.Whole.Quiet.{is_reported}
use remote_controll_app.Channel.Sending.{Outcome, send_file}
use remote_controll_app.Channel.Sending.Laws.{IsPart, send_file-IsWhole}
use remote_controll_app.Channel.Delivery.{
  to_value, events_of, events_of_texts, all_events, run_all, writes, between, state,
}
use remote_controll_app.Channel.Delivery.Wire.{
  IsCodec, IsWireId, IsCarried, received_type, start_passes, complete_passes, carried_arrives,
  parts_arrive, texts-append,
}
use remote_controll_app.Value.{Value}
use remote_controll_app.Channel.Delivery.Steps.{start_came, complete_came}
use remote_controll_app.Channel.Delivery.Batches.{
  run_all-append, writes-append, Taken, preceded, chunks_came,
}

module _ (atob : Str → Option Str) where
  pub reported_later :
      (xs ys : List Out) → is_reported 0 ys ≡ true → is_reported 0 (xs ++ ys) ≡ true
  reported_later [] ys h = h
  reported_later (x ∷ xs) ys h = ground (arith, reported_later xs ys h)

  -- After all chunks, the completion.
  pub finished :
      (es es' : List Event) (c : Client) (id name type : Str) (size : ℕ) (left : List ℕ)
      → size ≡ length left
      → Taken atob id name type size create_file_transfer_checksum 0 left (run_all atob es c)
      → es'
        ≡ events_of (
            file_transfer_complete id (
              format_file_transfer_checksum
                (update_file_transfer_checksum create_file_transfer_checksum left)))
      → (is_reported 0 (run_all atob (es ++ es') c).1 ≡ true)
        × (writes (run_all atob (es ++ es') c).1 ≡ left)
  finished es es' c id name type size left full (g, next, settled, at, wrote) last =
      let sum = update_file_transfer_checksum create_file_transfer_checksum left in
      let c' : Client = state id (between id name type size sum next size settled) g in
      let end : List Event =
        events_of (file_transfer_complete id (format_file_transfer_checksum sum)) in
      let count : 0 + length left ≡ size = omega (arith, full) in
      let at' : (run_all atob es c).0 ≡ c' =
        at ∙ ap (λ (n : ℕ). state id (between id name type size sum next n settled) g) count in
      let (reported, nothing) = complete_came atob id name type size sum next settled g in
      let outs : (run_all atob (es ++ es') c).1 ≡ (run_all atob es c).1 ++ (run_all atob end c').1 =
        (run_all-append atob es es' c).1
        ∙ ap (λ (d : Client). (run_all atob es c).1 ++ (run_all atob es' d).1) at'
        ∙ ap (λ (fs : List Event). (run_all atob es c).1 ++ (run_all atob fs c').1) last in
      (
        subst (λ (os : List Out). is_reported 0 os ≡ true) (sym outs)
            (reported_later (run_all atob es c).1 _ reported),
        ap writes outs
            ∙ writes-append atob (run_all atob es c).1 (run_all atob end c').1
            ∙ ap (λ (xs : List ℕ). writes (run_all atob es c).1 ++ xs) nothing
            ∙ append-nil (writes (run_all atob es c).1)
            ∙ wrote,
      )

  -- What holds of all messages of a transfer holds of its parts.
  All-parts :
      (P : Message → Type 0) (first : Message) (cs : List Message) (last : Message)
      → All P (first ∷ cs ++ last ∷ [])
      → P first × All P cs × P last
  All-parts P first [] last (p, (q, _)) = (p, tt, q)
  All-parts P first (c ∷ cs) last (p, (q, rest)) =
      let (_, qs, r) = All-parts P c cs last (q, rest) in (p, (q, qs), r)

  -- The events of the texts of a whole file.
  texts_events :
      (btoa : Str → Str) (stringify : Value → Str) (parse_json : Str → Option Value)
      (id name type : Str) (size sum : ℕ) (cs : List Message)
      → IsCodec btoa atob
      → IsWireId id
      → length name ≤ 260
      → size ≤ mebibytes 256
      → All (IsPart btoa id) cs
      → All (IsCarried stringify parse_json) (
          file_transfer_start id name type size ∷ cs
          ++ file_transfer_complete id (format_file_transfer_checksum sum) ∷ [])
      → events_of_texts atob parse_json (
          map
            (λ m. stringify (to_value m))
            (file_transfer_start id name type size ∷ cs
              ++ file_transfer_complete id (format_file_transfer_checksum sum) ∷ []))
        ≡ (events_of (file_transfer_start id name (received_type type) size) ++ all_events cs)
          ++ events_of (file_transfer_complete id (format_file_transfer_checksum sum))
  texts_events btoa stringify parse_json id name type size sum cs codec w named small parts
        carried =
      let last : Message = file_transfer_complete id (format_file_transfer_checksum sum) in
      let (k, ks, l) =
        All-parts (IsCarried stringify parse_json) (file_transfer_start id name type size) cs last
          carried in
      rw
        (
          carried_arrives atob stringify parse_json (file_transfer_start id name type size) _ k
              (start_passes btoa atob codec id name type size w named small),
          texts-append atob parse_json (λ m. stringify (to_value m)) cs (last ∷ []),
          carried_arrives atob stringify parse_json last _ l
              (complete_passes btoa atob codec id sum w),
          parts_arrive btoa atob stringify parse_json id cs codec w parts ks,
        )
        refl

  -- A file of at most 256 MiB is sent without an interruption to a client without transfers, as texts
  -- that the client parses and sanitizes: where each message's text is at most 13 MiB long and parses
  -- to its object, the transfer id is trimmed and of 1 to 80 code units, the name has at most 260, and
  -- `btoa` and `atob` do what they are documented to do. Suppose that before the next text arrives a
  -- chunk has had its turn, and the main process has answered what was asked of it without an error.
  -- Then the file is reported as received, and what the main process was given to write is the file.
  pub deliver-send_file :
      (btoa : Str → Str) (stringify : Value → Str) (parse_json : Str → Option Value) (fuel : ℕ)
      (is_open : Bool) (id name type : Str) (file : List ℕ)
      → IsCodec btoa atob
      → All
          (IsCarried stringify parse_json)
          (send_file btoa (λ n. none) (λ n. none) fuel is_open id name type file).0
      → IsWireId id
      → length name ≤ 260
      → length file < fuel
      → length file ≤ mebibytes 256
      → AreBytes file
      → (is_reported 0
            (run_all atob
              (events_of_texts atob parse_json (
                map
                  (λ m. stringify (to_value m))
                  (send_file btoa (λ n. none) (λ n. none) fuel is_open id name type file).0))
              init).1
          ≡ true)
        × (writes
              (run_all atob
                (events_of_texts atob parse_json (
                  map
                    (λ m. stringify (to_value m))
                    (send_file btoa (λ n. none) (λ n. none) fuel is_open id name type file).0))
                init).1
            ≡ file)
  deliver-send_file btoa stringify parse_json fuel is_open id name type file codec carried w named
        enough small b =
      let (cs, same, read, parts) =
        send_file-IsWhole btoa atob codec.decodes fuel is_open id name type file enough small b in
      let kind = if is_empty type then lit "application/octet-stream" else type in
      let size = length file in
      let sum = update_file_transfer_checksum create_file_transfer_checksum file in
      let messages = ap (λ (r : List Message × Outcome). r.0) same in
      let (g, begun, nothing) = start_came atob id name (received_type kind) size small in
      let start = events_of (file_transfer_start id name (received_type kind) size) in
      let last = events_of (file_transfer_complete id (format_file_transfer_checksum sum)) in
      let taken =
        preceded atob start (all_events cs) init _ id name (received_type kind) size
          create_file_transfer_checksum 0 file begun nothing
          (chunks_came atob cs id name (received_type kind) size create_file_transfer_checksum 0 0 1
            file g read (omega arith) (omega arith)) in
      let events =
        ap
          (λ (ms : List Message).
            events_of_texts atob parse_json (map (λ m. stringify (to_value m)) ms))
          messages
        ∙ texts_events btoa stringify parse_json id name kind size sum cs codec w named small parts
            (subst (All (IsCarried stringify parse_json)) messages carried) in
      let (reported, whole) =
        finished (start ++ all_events cs) last init id name (received_type kind) size file refl
          taken refl in
      (
        subst (λ (es : List Event). is_reported 0 (run_all atob es init).1 ≡ true) (sym events)
            reported,
        ap (λ (es : List Event). writes (run_all atob es init).1) events ∙ whole,
      )
