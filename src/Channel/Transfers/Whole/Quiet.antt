-- ===== src/Channel/Transfers/Whole/Quiet.antt =====
-- Who reports a received file in apps/desktop/src/renderer/src/webrtc/RemoteControlClient.ts: nobody
-- but the last segment of a completion.
use remote_controll_app.Prelude.{
  ℕ, ◌+◌, ◌≡◌, refl, Bool, true, false, not, Option, none, some, List, [], ◌∷◌, ◌++◌, nat_beq, any,
  if_ind, length, leb, ltb,
}
use remote_controll_app.JsMap
use remote_controll_app.JsMap.{JsMap}
use remote_controll_app.Text.{Str, str_eq}
use remote_controll_app.Channel.{mebibytes}
use remote_controll_app.Channel.Encoded.{base64_to_bytes}
use remote_controll_app.Channel.Transfers.{
  Chunk, Current, idle, starting, writing, Transfer, Out, received_file, Client, aborts_of,
  fail_found, fail_incoming_file_transfer_internal, fail_incoming_file_transfers,
  begin_incoming_file_transfer,
}
use remote_controll_app.Channel.Transfers.Events.{
  Answer, reject, write_decoded, take_turn, next_turn, answered_start, answered_write, answered,
  handle_file_transfer_abort, time_out,
}

-- The report that the file at the address has been received.
abbrev pub is_report : ℕ → Out → Bool
is_report a (received_file b name path) = nat_beq b a
is_report a _ = false

-- It is among the outputs.
abbrev pub is_reported : ℕ → List Out → Bool
is_reported a outs = any (is_report a) outs

abbrev IsQuiet : ℕ → Client × List Out → Type 0
IsQuiet a r = is_reported a r.1 ≡ false

fail_found-IsQuiet :
    (d : ℕ) (id : Str) (notify : Bool) (o : Option ℕ) (c : Client)
    → IsQuiet d (fail_found id notify o c)
unfolding fail_found
fail_found-IsQuiet d id notify none c = refl
fail_found-IsQuiet d id true (some a) c =
    if_ind (λ (r : Client × List Out). IsQuiet d r) (c.transfers a).failed _ _ (λ y. refl)
      (λ n. refl)
fail_found-IsQuiet d id false (some a) c =
    if_ind (λ (r : Client × List Out). IsQuiet d r) (c.transfers a).failed _ _ (λ y. refl)
      (λ n. refl)

fail-IsQuiet :
    (d : ℕ) (id : Str) (notify : Bool) (c : Client)
    → IsQuiet d (fail_incoming_file_transfer_internal id notify c)
unfolding fail_incoming_file_transfer_internal
fail-IsQuiet d id notify c = fail_found-IsQuiet d id notify (JsMap.get id c.incoming) c

quiet-aborts :
    (d : ℕ) (m : JsMap Str ℕ) (outs : List Out)
    → is_reported d outs ≡ false
    → is_reported d (aborts_of m ++ outs) ≡ false
quiet-aborts d [] outs h = h
quiet-aborts d ((id, a) ∷ m) outs h = quiet-aborts d m outs h

pub interrupt-IsQuiet : (d : ℕ) (c : Client) → IsQuiet d (fail_incoming_file_transfers c)
unfolding fail_incoming_file_transfers
interrupt-IsQuiet d c =
    if_ind (λ (r : Client × List Out). IsQuiet d r) (nat_beq (length c.incoming) 0) _ _ (λ y. refl)
      (λ n. quiet-aborts d c.incoming _ refl)

pub begin-IsQuiet :
    (d : ℕ) (id name mime_type : Str) (size : ℕ) (c : Client)
    → IsQuiet d (begin_incoming_file_transfer id name mime_type size c)
unfolding begin_incoming_file_transfer
begin-IsQuiet d id name mime_type size c =
    if_ind (λ (r : Client × List Out). IsQuiet d r) (ltb (mebibytes 256) size) _ _ (λ y. refl)
      (λ n.
        if_ind (λ (r : Client × List Out). IsQuiet d r) (JsMap.has id c.incoming) _ _ (λ y. refl)
          (λ m.
            if_ind (λ (r : Client × List Out). IsQuiet d r) (leb 4 (length c.incoming)) _ _
              (λ y. refl) (λ l. refl)))

pub abort-IsQuiet :
    (d : ℕ) (id : Str) (reason : Option Str) (c : Client)
    → IsQuiet d (handle_file_transfer_abort id reason c)
unfolding handle_file_transfer_abort
abort-IsQuiet d id reason c =
    if_ind (λ (r : Client × List Out). IsQuiet d r) (JsMap.has id c.incoming) _ _
      (λ y. fail-IsQuiet d id false c) (λ n. refl)

pub time_out-IsQuiet : (d a : ℕ) (timer : Option Str) (c : Client) → IsQuiet d (time_out a timer c)
unfolding time_out
time_out-IsQuiet d a none c = refl
time_out-IsQuiet d a (some id) c = fail-IsQuiet d id true _

reject-IsQuiet :
    (d : ℕ) (id : Str) (a : ℕ) (t : Transfer) (c : Client) → IsQuiet d (reject id a t c)
unfolding reject
reject-IsQuiet d id a t c = fail-IsQuiet d id true _

write_decoded-IsQuiet :
    (d : ℕ) (k : Chunk) (a : ℕ) (t : Transfer) (o : Option (List ℕ)) (c : Client)
    → IsQuiet d (write_decoded k a t o c)
unfolding write_decoded
write_decoded-IsQuiet d k a t none c = reject-IsQuiet d k.transfer_id a t c
write_decoded-IsQuiet d k a t (some bytes) c =
    if_ind (λ (r : Client × List Out). IsQuiet d r) (ltb t.size (t.received_bytes + length bytes)) _
      _ (λ y. reject-IsQuiet d k.transfer_id a t c) (λ n. refl)

take_turn-IsQuiet :
    (d : ℕ) (atob : Str → Option Str) (k : Chunk) (a : ℕ) (t : Transfer) (c : Client)
    → IsQuiet d (take_turn atob k a t c)
unfolding take_turn
take_turn-IsQuiet d atob k a t c =
    if_ind (λ (r : Client × List Out). IsQuiet d r) t.is_rejected _ _
      (λ y. reject-IsQuiet d k.transfer_id a t c)
      (λ n.
        if_ind (λ (r : Client × List Out). IsQuiet d r) t.failed _ _ (λ y. refl)
          (λ m.
            if_ind (λ (r : Client × List Out). IsQuiet d r)
              (not (nat_beq k.index t.next_chunk_index)) _ _
              (λ y. reject-IsQuiet d k.transfer_id a t c)
              (λ l. write_decoded-IsQuiet d k a t (base64_to_bytes atob k.data_text) c)))

pub next_turn-IsQuiet :
    (d : ℕ) (atob : Str → Option Str) (a : ℕ) (t : Transfer) (u : Current) (q : List Chunk)
    (c : Client)
    → IsQuiet d (next_turn atob a t u q c)
unfolding next_turn
next_turn-IsQuiet d atob a t idle [] c = refl
next_turn-IsQuiet d atob a t idle (k ∷ ks) c =
    take_turn-IsQuiet d atob k a (record t { queue = ks }) c
next_turn-IsQuiet d atob a t (starting id) q c = refl
next_turn-IsQuiet d atob a t (writing id i bytes) q c = refl

answered_start-IsQuiet :
    (d : ℕ) (id : Str) (a : ℕ) (t : Transfer) (ok : Bool) (path : Option Str) (c : Client)
    → IsQuiet d (answered_start id a t ok path c)
unfolding answered_start
answered_start-IsQuiet d id a t true path c = refl
answered_start-IsQuiet d id a t false path c = reject-IsQuiet d id a t c

answered_write-IsQuiet :
    (d : ℕ) (id : Str) (bytes : List ℕ) (a : ℕ) (t : Transfer) (ok : Bool) (c : Client)
    → IsQuiet d (answered_write id bytes a t ok c)
unfolding answered_write
answered_write-IsQuiet d id bytes a t true c = refl
answered_write-IsQuiet d id bytes a t false c = reject-IsQuiet d id a t c

pub answered-IsQuiet :
    (d a : ℕ) (t : Transfer) (u : Current) (answer : Answer) (c : Client)
    → IsQuiet d (answered a t u answer c)
unfolding answered
answered-IsQuiet d a t idle answer c = refl
answered-IsQuiet d a t (starting id) answer c =
    answered_start-IsQuiet d id a t answer.ok answer.path c
answered-IsQuiet d a t (writing id i bytes) answer c =
    answered_write-IsQuiet d id bytes a t answer.ok c
