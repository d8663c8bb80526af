-- ===== src/Channel/Transfers/Watched/Runs.antt =====
-- The active transfers after any sequence of messages and callbacks in
-- apps/desktop/src/renderer/src/webrtc/RemoteControlClient.ts.
use remote_controll_app.Prelude.{
  ℕ, suc, ◌≤◌, ◌<◌, ◌≡◌, ◌∙◌, refl, sym, Bool, true, false, not, Option, none, some, List, [], ◌∷◌,
  arith, nat_beq, subst, ap, length, if_ind, leb, beq_refl,
}
use remote_controll_app.JsMap
use remote_controll_app.JsMap.{JsMap, get-delete}
use remote_controll_app.Text.{Str, str_eq, str_beq, str_beq_iff}
use remote_controll_app.Channel.Checksum.{format_file_transfer_checksum}
use remote_controll_app.Channel.Transfers.{
  Transfer, Phase, waiting, aborting_incomplete, aborting_mismatch, finishing, Completion, Client,
  Out, put, fail_found, fail_incoming_file_transfer_internal,
}
use remote_controll_app.Channel.Transfers.Events.{
  Answer, Event, start_message, chunk_message, complete_message, abort_message, interruption,
  timed_out, turn_came, answer_came, completion_resumed, await_queue,
  complete_incoming_file_transfer, enter, leave, check_received, go_on, resume, time_out, handle,
  run, with_transfer,
}
use remote_controll_app.Channel.Transfers.Frames.{put-all, put-same}
use remote_controll_app.Channel.Transfers.Watched.{
  IsOwned, IsTidy, same_id, kept_by_delete, shrunk-IsTidy,
}
use remote_controll_app.Channel.Transfers.Watched.Steps.{
  IsWatched, time_out-IsWatched, abort-IsWatched, interrupt-IsWatched,
  begin_incoming_file_transfer-IsWatched, append_incoming_file_chunk-IsWatched,
}
use remote_controll_app.Channel.Transfers.Watched.Turns.{next_turn-IsWatched, answered-IsWatched}

-- A completion that refers to its transfer by the id of the map.
place_completion-IsTidy :
    (n next : ℕ) (o : Option Completion) (c : Client)
    → ((k : Completion)
        → o ≡ some k
        → (k.address < c.next_address)
          × ((j : Str) → JsMap.get j c.incoming ≡ some k.address → j ≡ k.transfer_id))
    → IsTidy c
    → IsTidy (record c { completions = put n o c.completions; next_completion = next })
place_completion-IsTidy n next o c fits t = record {
  few = t.few;
  known = t.known;
  ended =
      put-all
        (λ m u.
          (k : Completion)
          → u ≡ some k
          → (k.address < c.next_address)
            × ((j : Str) → JsMap.get j c.incoming ≡ some k.address → j ≡ k.transfer_id))
        n o c.completions fits (λ m d k e. t.ended m k e);
}

await_queue-IsWatched :
    (id sum : Str) (o : Option ℕ) (c : Client)
    → JsMap.get id c.incoming ≡ o
    → IsWatched c
    → IsWatched (await_queue id sum o c)
unfolding await_queue
await_queue-IsWatched id sum none c e w = w
await_queue-IsWatched id sum (some a) c e (tidy, owned) = (
  place_completion-IsTidy c.next_completion (suc c.next_completion) _ c
      (λ k h.
        let at : a ≡ k.address =
          ap (λ (o : Option Completion). elim o [ none ↦ a | some j ↦ j.address ]) h in
        let by : id ≡ k.transfer_id =
          ap (λ (o : Option Completion). elim o [ none ↦ id | some j ↦ j.transfer_id ]) h in
        (
          omega (arith, at, tidy.known id a e),
          λ j there. same_id c j id k.address owned there (e ∙ ap (λ d. some d) at) ∙ by,
        ))
      tidy,
  owned,
)

leave-IsWatched : (n : ℕ) (c : Client) → IsWatched c → IsWatched (leave n c)
leave-IsWatched n c (tidy, owned) =
    (place_completion-IsTidy n c.next_completion none c (λ k h. absurd (cc h)) tidy, owned)

-- The transfer of a completion leaves the map.
enter-IsWatched :
    (n : ℕ) (k : Completion) (p : Phase) (c : Client)
    → c.completions n ≡ some k
    → IsWatched c
    → IsWatched (enter n k p c)
enter-IsWatched n k p c e (tidy, owned) =
    let t : Transfer = record (c.transfers k.address) { timer = none } in
    let short = shrunk-IsTidy k.transfer_id (put k.address t c.transfers) c tidy in
    (
      place_completion-IsTidy n c.next_completion (some (record k { phase = p })) _
          (λ k' h.
            let at : k.address ≡ k'.address =
              ap (λ (o : Option Completion). elim o [ none ↦ k.address | some j ↦ j.address ]) h in
            let by : k.transfer_id ≡ k'.transfer_id =
              ap
                (λ (o : Option Completion). elim o [
                  | none ↦ k.transfer_id
                  | some j ↦ j.transfer_id
                ])
                h in
            let old = short.ended n k e in
            (omega (arith, at, old.0), λ j there. old.1 j (there ∙ ap (λ d. some d) (sym at)) ∙ by))
          short,
      λ j b h.
          let (there, other) = kept_by_delete k.transfer_id j b c.incoming h in
          put-all (λ d u. JsMap.get j c.incoming ≡ some d → IsOwned j u) k.address t c.transfers
            (λ same.
              let by : j ≡ k.transfer_id = (tidy.ended n k e).1 j same in
              let differ = (str_beq_iff k.transfer_id j).1 (sym by) in absurd (cc (differ, other)))
            (λ d m same. owned j d same) b there,
    )

check_received-IsWatched :
    (n : ℕ) (k : Completion) (t : Transfer) (c : Client)
    → c.completions n ≡ some k
    → IsWatched c
    → IsWatched (check_received n k t c).0
unfolding check_received
check_received-IsWatched n k t c e w =
    if_ind (λ (r : Client × List Out). IsWatched r.0) t.failed _ _ (λ y. leave-IsWatched n c w)
      (λ m.
        if_ind (λ (r : Client × List Out). IsWatched r.0) (not (nat_beq t.received_bytes t.size)) _
          _ (λ y. enter-IsWatched n k aborting_incomplete c e w)
          (λ l.
            if_ind (λ (r : Client × List Out). IsWatched r.0)
              (not (str_beq k.checksum (format_file_transfer_checksum t.checksum))) _ _
              (λ y. enter-IsWatched n k aborting_mismatch c e w)
              (λ s. enter-IsWatched n k finishing c e w)))

go_on-IsWatched :
    (n : ℕ) (k : Completion) (p : Phase) (answer : Answer) (c : Client)
    → c.completions n ≡ some k
    → IsWatched c
    → IsWatched (go_on n k p answer c).0
unfolding go_on
go_on-IsWatched n k (waiting many) answer c e w =
    if_ind (λ (r : Client × List Out). IsWatched r.0) (leb many (c.transfers k.address).settled) _ _
      (λ y. check_received-IsWatched n k (c.transfers k.address) c e w) (λ m. w)
go_on-IsWatched n k aborting_incomplete answer c e w = leave-IsWatched n c w
go_on-IsWatched n k aborting_mismatch answer c e w = leave-IsWatched n c w
go_on-IsWatched n k finishing answer c e w = leave-IsWatched n c w

resume-IsWatched :
    (n : ℕ) (o : Option Completion) (answer : Answer) (c : Client)
    → c.completions n ≡ o
    → IsWatched c
    → IsWatched (resume n o answer c).0
unfolding resume
resume-IsWatched n none answer c e w = w
resume-IsWatched n (some k) answer c e w = go_on-IsWatched n k k.phase answer c e w

handle-IsWatched :
    (atob : Str → Option Str) (e : Event) (c : Client) → IsWatched c → IsWatched (handle atob e c).0
unfolding handle complete_incoming_file_transfer
handle-IsWatched atob (start_message id name mime_type size) c w =
    begin_incoming_file_transfer-IsWatched id name mime_type size c w
handle-IsWatched atob (chunk_message k) c w = append_incoming_file_chunk-IsWatched k c w
handle-IsWatched atob (complete_message id sum) c w =
    await_queue-IsWatched id sum (JsMap.get id c.incoming) c refl w
handle-IsWatched atob (abort_message id reason) c w = abort-IsWatched id reason c w
handle-IsWatched atob interruption c w = interrupt-IsWatched c w
handle-IsWatched atob (timed_out a) c w = time_out-IsWatched a (c.transfers a).timer c refl w
handle-IsWatched atob (turn_came a) c w =
    next_turn-IsWatched atob a (c.transfers a).current (c.transfers a).queue c refl w
handle-IsWatched atob (answer_came a answer) c w =
    answered-IsWatched a (c.transfers a).current answer c refl w
handle-IsWatched atob (completion_resumed n answer) c w =
    resume-IsWatched n (c.completions n) answer c refl w

run-IsWatched : (atob : Str → Option Str) (es : List Event) → IsWatched (run atob es)
unfolding run JsMap.get
run-IsWatched atob [] = (
  record { few = omega arith; known = λ id a e. absurd (cc e); ended = λ n k e. absurd (cc e) },
  λ id a e. absurd (cc e),
)
run-IsWatched atob (e ∷ es) = handle-IsWatched atob e (run atob es) (run-IsWatched atob es)

-- The failure of a transfer that is not failed takes it out of the map.
gone :
    (id : Str) (notify : Bool) (a : ℕ) (c : Client)
    → (c.transfers a).failed ≡ false
    → JsMap.get id (fail_found id notify (some a) c).0.incoming ≡ none
unfolding fail_found
gone id notify a c f =
    if_ind (λ (r : Client × List Out). JsMap.get id r.0.incoming ≡ none) (c.transfers a).failed _ _
      (λ y. absurd (cc (y, f)))
      (λ n. let self = beq_refl id in rw (get-delete id id c.incoming, self) refl)

timed-out :
    (a : ℕ) (id : Str) (c : Client)
    → JsMap.get id c.incoming ≡ some a
    → (c.transfers a).failed ≡ false
    → JsMap.get id (time_out a (some id) c).0.incoming ≡ none
unfolding time_out fail_incoming_file_transfer_internal
timed-out a id c e f =
    let t : Transfer = record (c.transfers a) { timer = none } in
    let same : put a t c.transfers a ≡ t = put-same a t c.transfers in
    subst (λ o. JsMap.get id (fail_found id true o (with_transfer a t c)).0.incoming ≡ none) (sym e)
      (gone id true a (with_transfer a t c) (ap (λ (u : Transfer). u.failed) same ∙ f))

-- However messages and callbacks come, at most four transfers are active. The timer of each is armed
-- under its id; if nothing else comes before it fires, the id is free again.
pub timed_out-frees :
    (atob : Str → Option Str) (es : List Event) (id : Str) (a : ℕ)
    → JsMap.get id (run atob es).incoming ≡ some a
    → (length (run atob es).incoming ≤ 4)
      × (((run atob es).transfers a).timer ≡ some id)
      × (JsMap.get id (handle atob (timed_out a) (run atob es)).0.incoming ≡ none)
unfolding handle
timed_out-frees atob es id a e =
    let (tidy, owned) = run-IsWatched atob es in
    let o = owned id a e in
    (tidy.few, o.timer, rw o.timer (timed-out a id (run atob es) e o.failed))
