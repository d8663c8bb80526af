-- ===== src/Channel/Transfers/Whole/Completions.antt =====
-- `completeIncomingFileTransfer` of apps/desktop/src/renderer/src/webrtc/RemoteControlClient.ts: files
-- stay backed, and the last segment is entered with a whole file only.
use remote_controll_app.Prelude.{
  ℕ, ◌+◌, ◌<◌, ◌≡◌, refl, sym, true, not, Option, none, some, List, arith, nat_beq, if_ind, length,
  leb,
}
use remote_controll_app.JsMap
use remote_controll_app.JsMap.{JsMap}
use remote_controll_app.Text.{Str, str_eq, str_beq, str_beq_iff}
use remote_controll_app.Channel.Checksum.{format_file_transfer_checksum}
use remote_controll_app.Channel.Transfers.{
  Transfer, Phase, waiting, aborting_incomplete, aborting_mismatch, finishing, Completion, Out,
  Client, put,
}
use remote_controll_app.Channel.Transfers.Events.{
  Answer, Event, with_transfer, is_busy, await_queue, enter, leave, check_received, go_on, resume,
}
use remote_controll_app.Channel.Transfers.Frames.{
  IsKept, put-all, IsLike-flags, IsKept-trans, with_transfer-IsKept, delete-IsKept,
}
use remote_controll_app.Channel.Transfers.Whole.{is_announced, IsChecked, IsSound, same-IsChecked}
use remote_controll_app.Channel.Transfers.Whole.Steps.{kept-IsSound}

-- A completion in a new phase, and one that ends.
phase-IsSound :
    (atob : Str → Option Str) (es : List Event) (n : ℕ) (k : Completion) (c : Client)
    → k.address < c.next_address
    → is_announced k.checksum es ≡ true
    → IsChecked k.phase k (c.transfers k.address)
    → IsSound atob es c
    → IsSound atob es (record c { completions = put n (some k) c.completions })
phase-IsSound atob es n k c used told whole s = record {
  backed = s.backed;
  unused = s.unused;
  known = s.known;
  ended =
      put-all
        (λ m o.
          (j : Completion)
          → o ≡ some j
          → (j.address < c.next_address)
            × (is_announced j.checksum es ≡ true)
            × IsChecked j.phase j (c.transfers j.address))
        n (some k) c.completions (λ j e. let same : k ≡ j = cc e in rw (← same) (used, told, whole))
        (λ m d j e. s.ended m j e);
}

leave-IsSound :
    (atob : Str → Option Str) (es : List Event) (n : ℕ) (c : Client)
    → IsSound atob es c
    → IsSound atob es (leave n c)
leave-IsSound atob es n c s = record {
  backed = s.backed;
  unused = s.unused;
  known = s.known;
  ended =
      put-all
        (λ m o.
          (j : Completion)
          → o ≡ some j
          → (j.address < c.next_address)
            × (is_announced j.checksum es ≡ true)
            × IsChecked j.phase j (c.transfers j.address))
        n none c.completions (λ j e. absurd (cc e)) (λ m d j e. s.ended m j e);
}

pub await_queue-IsSound :
    (atob : Str → Option Str) (es : List Event) (id sum : Str) (o : Option ℕ) (c : Client)
    → ((a : ℕ) → o ≡ some a → a < c.next_address)
    → is_announced sum es ≡ true
    → IsSound atob es c
    → IsSound atob es (await_queue id sum o c)
unfolding await_queue
await_queue-IsSound atob es id sum none c known told s = s
await_queue-IsSound atob es id sum (some a) c known told s =
    let placed =
      phase-IsSound atob es c.next_completion
        (record {
          transfer_id = id;
          address = a;
          checksum = sum;
          phase = waiting (
              (c.transfers a).settled
              + is_busy (c.transfers a).current
              + length (c.transfers a).queue);
        })
        c (known a refl) told tt s in
    record {
      backed = placed.backed;
      unused = placed.unused;
      known = placed.known;
      ended = placed.ended;
    }

-- Out of the map, the timer cleared.
removed-IsKept :
    (k : Completion) (c : Client)
    → IsKept c (record c {
      incoming = JsMap.delete k.transfer_id c.incoming;
      transfers = put k.address (record (c.transfers k.address) { timer = none }) c.transfers;
    })
removed-IsKept k c =
    let t : Transfer = c.transfers k.address in
    IsKept-trans c _ _
      (with_transfer-IsKept k.address (record t { timer = none }) c
        (IsLike-flags t t.failed t.is_rejected t.path none t.queue t.settled) (λ h e. e))
      (delete-IsKept k.transfer_id (with_transfer k.address (record t { timer = none }) c))

enter-IsSound :
    (atob : Str → Option Str) (es : List Event) (n : ℕ) (k : Completion) (p : Phase) (c : Client)
    → k.address < c.next_address
    → is_announced k.checksum es ≡ true
    → IsChecked p (record k { phase = p }) (c.transfers k.address)
    → IsSound atob es c
    → IsSound atob es (enter n k p c)
enter-IsSound atob es n k p c used told whole s =
    phase-IsSound atob es n (record k { phase = p }) _ used told
      (put-all
        (λ d (t : Transfer).
          IsChecked p (record k { phase = p }) (c.transfers d)
          → IsChecked p (record k { phase = p }) t)
        k.address (record (c.transfers k.address) { timer = none }) c.transfers
        (λ x.
          same-IsChecked p (record k { phase = p }) (c.transfers k.address)
            (record (c.transfers k.address) { timer = none }) refl refl refl x)
        (λ d m x. x) k.address whole)
      (kept-IsSound atob es c _ (removed-IsKept k c) s)

check_received-IsSound :
    (atob : Str → Option Str) (es : List Event) (n : ℕ) (k : Completion) (c : Client)
    → k.address < c.next_address
    → is_announced k.checksum es ≡ true
    → IsSound atob es c
    → IsSound atob es (check_received n k (c.transfers k.address) c).0
unfolding check_received
check_received-IsSound atob es n k c used told s =
    let t : Transfer = c.transfers k.address in
    if_ind (λ (r : Client × List Out). IsSound atob es r.0) t.failed _ _
      (λ y. leave-IsSound atob es n c s)
      (λ m.
        if_ind (λ (r : Client × List Out). IsSound atob es r.0)
          (not (nat_beq t.received_bytes t.size)) _ _
          (λ y. enter-IsSound atob es n k aborting_incomplete c used told tt s)
          (λ full.
            if_ind (λ (r : Client × List Out). IsSound atob es r.0)
              (not (str_beq k.checksum (format_file_transfer_checksum t.checksum))) _ _
              (λ y. enter-IsSound atob es n k aborting_mismatch c used told tt s)
              (λ same.
                enter-IsSound atob es n k finishing c used told
                  (
                    ground (arith, full),
                    sym (
                        (str_beq_iff k.checksum (format_file_transfer_checksum t.checksum)).0
                          (ground (arith, same))),
                  )
                  s)))

go_on-IsSound :
    (atob : Str → Option Str) (es : List Event) (n : ℕ) (k : Completion) (p : Phase)
    (answer : Answer) (c : Client)
    → k.address < c.next_address
    → is_announced k.checksum es ≡ true
    → IsSound atob es c
    → IsSound atob es (go_on n k p answer c).0
unfolding go_on
go_on-IsSound atob es n k (waiting many) answer c used told s =
    if_ind (λ (r : Client × List Out). IsSound atob es r.0)
      (leb many (c.transfers k.address).settled) _ _
      (λ y. check_received-IsSound atob es n k c used told s) (λ m. s)
go_on-IsSound atob es n k aborting_incomplete answer c used told s = leave-IsSound atob es n c s
go_on-IsSound atob es n k aborting_mismatch answer c used told s = leave-IsSound atob es n c s
go_on-IsSound atob es n k finishing answer c used told s = leave-IsSound atob es n c s

pub resume-IsSound :
    (atob : Str → Option Str) (es : List Event) (n : ℕ) (o : Option Completion) (answer : Answer)
    (c : Client)
    → c.completions n ≡ o
    → IsSound atob es c
    → IsSound atob es (resume n o answer c).0
unfolding resume
resume-IsSound atob es n none answer c e s = s
resume-IsSound atob es n (some k) answer c e s =
    let known = s.ended n k e in go_on-IsSound atob es n k k.phase answer c known.0 known.1 s
