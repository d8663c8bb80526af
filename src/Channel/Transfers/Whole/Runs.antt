-- ===== src/Channel/Transfers/Whole/Runs.antt =====
-- Any sequence of messages and callbacks on arriving files in
-- apps/desktop/src/renderer/src/webrtc/RemoteControlClient.ts.
use remote_controll_app.Prelude.{
  ℕ, ◌≡◌, ◌∙◌, refl, sym, true, false, Option, none, some, List, [], ◌∷◌, arith, ap, if_ind, length,
  beq_refl, subst,
}
use remote_controll_app.JsMap
use remote_controll_app.JsMap.{JsMap}
use remote_controll_app.Text.{Str, str_eq}
use remote_controll_app.Channel.Checksum.{
  create_file_transfer_checksum, update_file_transfer_checksum, format_file_transfer_checksum,
  mix_all,
}
use remote_controll_app.Channel.Transfers.{
  Transfer, Phase, waiting, aborting_incomplete, aborting_mismatch, finishing, Completion, Out,
  Client, init,
}
use remote_controll_app.Channel.Transfers.Events.{
  Answer, Event, start_message, chunk_message, complete_message, abort_message, interruption,
  timed_out, turn_came, answer_came, completion_resumed, with_transfer,
  complete_incoming_file_transfer, handle_file_transfer_abort, time_out, handle, run, go_on, resume,
  report_saved, check_received,
}
use remote_controll_app.Channel.Transfers.Frames.{
  IsKept, IsLike-refl, IsLike-flags, IsKept-refl, IsKept-trans, with_transfer-IsKept, fail-IsKept,
  interrupt-IsKept,
}
use remote_controll_app.Channel.Transfers.Whole.{
  chunks, content, Ordered, is_announced, IsChecked, IsSound,
}
use remote_controll_app.Channel.Transfers.Whole.Steps.{
  kept-IsSound, begin_incoming_file_transfer-IsSound, append_incoming_file_chunk-IsSound,
}
use remote_controll_app.Channel.Transfers.Whole.Turns.{next_turn-IsSound}
use remote_controll_app.Channel.Transfers.Whole.Answers.{grown-IsSound, answered-IsSound}
use remote_controll_app.Channel.Transfers.Whole.Quiet.{
  is_reported, begin-IsQuiet, abort-IsQuiet, interrupt-IsQuiet, time_out-IsQuiet, next_turn-IsQuiet,
  answered-IsQuiet,
}
use remote_controll_app.Channel.Transfers.Whole.Completions.{await_queue-IsSound, resume-IsSound}

-- `init` is sound: nothing has been written.
init-IsSound : (atob : Str → Option Str) → IsSound atob [] init
unfolding chunks JsMap.get update_file_transfer_checksum mix_all
init-IsSound atob = record {
  backed = λ a. record {
    order = tt;
    count = refl;
    bytes = refl;
    sum = refl;
    room = omega arith;
    current = tt;
  };
  unused = λ a h. (refl, refl, refl);
  known = λ id a e. absurd (cc e);
  ended = λ n k e. absurd (cc e);
}

abort-IsKept :
    (id : Str) (reason : Option Str) (c : Client)
    → IsKept c (handle_file_transfer_abort id reason c).0
unfolding handle_file_transfer_abort
abort-IsKept id reason c =
    if_ind (λ (r : Client × List Out). IsKept c r.0) (JsMap.has id c.incoming) _ _
      (λ y. fail-IsKept id false c)
      (λ n. record {
        like = λ a. IsLike-refl (c.transfers a);
        unused = λ a h e. e;
        known = λ j a e. e;
        next = refl;
        completions = refl;
      })

time_out-IsKept : (a : ℕ) (timer : Option Str) (c : Client) → IsKept c (time_out a timer c).0
unfolding time_out
time_out-IsKept a none c = IsKept-refl c
time_out-IsKept a (some id) c =
    let t : Transfer = c.transfers a in
    IsKept-trans c _ _
      (with_transfer-IsKept a (record t { timer = none }) c
        (IsLike-flags t t.failed t.is_rejected t.path none t.queue t.settled) (λ h e. e))
      (fail-IsKept id true (with_transfer a (record t { timer = none }) c))

handle-IsSound :
    (atob : Str → Option Str) (es : List Event) (e : Event) (c : Client)
    → run atob es ≡ c
    → IsSound atob es c
    → IsSound atob (e ∷ es) (handle atob e c).0
unfolding handle complete_incoming_file_transfer
handle-IsSound atob es (start_message id name mime_type size) c same s =
    grown-IsSound atob _ es _ (λ a. refl)
      (begin_incoming_file_transfer-IsSound atob es id name mime_type size c s)
handle-IsSound atob es (chunk_message k) c same s =
    grown-IsSound atob _ es _ (λ a. refl) (append_incoming_file_chunk-IsSound atob es k c s)
handle-IsSound atob es (complete_message id sum) c same s =
    await_queue-IsSound atob (complete_message id sum ∷ es) id sum (JsMap.get id c.incoming) c
      (λ a e. s.known id a e) (let self = beq_refl sum in ground (arith, self))
      (grown-IsSound atob (complete_message id sum) es c (λ a. refl) s)
handle-IsSound atob es (abort_message id reason) c same s =
    grown-IsSound atob _ es _ (λ a. refl) (kept-IsSound atob es c _ (abort-IsKept id reason c) s)
handle-IsSound atob es interruption c same s =
    grown-IsSound atob _ es _ (λ a. refl) (kept-IsSound atob es c _ (interrupt-IsKept c) s)
handle-IsSound atob es (timed_out a) c same s =
    grown-IsSound atob _ es _ (λ d. refl)
      (kept-IsSound atob es c _ (time_out-IsKept a (c.transfers a).timer c) s)
handle-IsSound atob es (turn_came a) c same s =
    grown-IsSound atob _ es _ (λ d. refl)
      (next_turn-IsSound atob es a (c.transfers a).current (c.transfers a).queue c refl s)
handle-IsSound atob es (answer_came a answer) c same s =
    answered-IsSound atob es a (c.transfers a).current answer c same refl s
handle-IsSound atob es (completion_resumed n answer) c same s =
    grown-IsSound atob _ es _ (λ a. refl)
      (resume-IsSound atob es n (c.completions n) answer c refl s)

run-IsSound : (atob : Str → Option Str) (es : List Event) → IsSound atob es (run atob es)
unfolding run
run-IsSound atob [] = init-IsSound atob
run-IsSound atob (e ∷ es) = handle-IsSound atob es e (run atob es) refl (run-IsSound atob es)

-- What is reported at the end of a completion, and of which transfer.
reported_saved :
    (d : ℕ) (k : Completion) (answer : Answer) (c : Client)
    → is_reported d (report_saved k answer c) ≡ true
    → k.address ≡ d
unfolding report_saved
reported_saved d k answer c h = ground (arith, h)

reported_go_on :
    (d n : ℕ) (k : Completion) (p : Phase) (answer : Answer) (c : Client)
    → is_reported d (go_on n k p answer c).1 ≡ true
    → (p ≡ finishing) × (k.address ≡ d)
unfolding go_on check_received
reported_go_on d n k (waiting many) answer c h = ground (arith, h)
reported_go_on d n k aborting_incomplete answer c h = absurd (cc h)
reported_go_on d n k aborting_mismatch answer c h = absurd (cc h)
reported_go_on d n k finishing answer c h = (refl, reported_saved d k answer c h)

reported_resume :
    (d n : ℕ) (o : Option Completion) (answer : Answer) (c : Client)
    → is_reported d (resume n o answer c).1 ≡ true
    → (k : Completion) × (o ≡ some k) × (k.phase ≡ finishing) × (k.address ≡ d)
unfolding resume
reported_resume d n none answer c h = absurd (cc h)
reported_resume d n (some k) answer c h =
    let (last, at) = reported_go_on d n k k.phase answer c h in (k, refl, last, at)

-- Only the end of a completion reports.
reporter :
    (atob : Str → Option Str) (d : ℕ) (e : Event) (c : Client)
    → is_reported d (handle atob e c).1 ≡ true
    → (n : ℕ) × (k : Completion) × (c.completions n ≡ some k)
      × (k.phase ≡ finishing)
      × (k.address ≡ d)
unfolding handle
reporter atob d (start_message id name mime_type size) c h =
    absurd (cc (h, begin-IsQuiet d id name mime_type size c))
reporter atob d (chunk_message k) c h = absurd (cc h)
reporter atob d (complete_message id sum) c h = absurd (cc h)
reporter atob d (abort_message id reason) c h = absurd (cc (h, abort-IsQuiet d id reason c))
reporter atob d interruption c h = absurd (cc (h, interrupt-IsQuiet d c))
reporter atob d (timed_out a) c h = absurd (cc (h, time_out-IsQuiet d a (c.transfers a).timer c))
reporter atob d (turn_came a) c h = absurd (
    cc (
      h,
      next_turn-IsQuiet d atob a (c.transfers a) (c.transfers a).current (c.transfers a).queue c,
    ))
reporter atob d (answer_came a answer) c h =
    absurd (cc (h, answered-IsQuiet d a (c.transfers a) (c.transfers a).current answer c))
reporter atob d (completion_resumed n answer) c h =
    let (k, there, last, at) = reported_resume d n (c.completions n) answer c h in
    (n, k, there, last, at)

-- In any order of messages and callbacks, and whatever the main process answers: when a file is
-- reported as received, the chunks that were acknowledged for it are numbered from 0 in order, they
-- have the size of the transfer together, and the peer has announced their checksum.
pub received-IsWhole :
    (atob : Str → Option Str) (es : List Event) (e : Event) (a : ℕ)
    → is_reported a (handle atob e (run atob es)).1 ≡ true
    → Ordered (chunks atob es a)
      × (length (content (chunks atob es a)) ≡ ((run atob es).transfers a).size)
      × (is_announced
            (format_file_transfer_checksum (
              update_file_transfer_checksum create_file_transfer_checksum
                (content (chunks atob es a))))
            es
          ≡ true)
received-IsWhole atob es e a h =
    let (n, k, there, last, at) = reporter atob a e (run atob es) h in
    let (known, told, whole) = (run-IsSound atob es).ended n k there in
    let b = (run-IsSound atob es).backed a in
    let checked : IsChecked finishing k ((run atob es).transfers a) =
      subst (λ p. IsChecked p k ((run atob es).transfers a)) last
        (subst (λ d. IsChecked k.phase k ((run atob es).transfers d)) at whole) in
    (
      b.order,
      b.bytes ∙ checked.0,
      subst (λ s. is_announced s es ≡ true)
          (sym checked.1 ∙ ap (λ s. format_file_transfer_checksum s) (sym b.sum)) told,
    )
