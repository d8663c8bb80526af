-- ===== src/Channel/Transfers/Whole/Answers.antt =====
-- The answers to the start and to a write in
-- apps/desktop/src/renderer/src/webrtc/RemoteControlClient.ts: files stay backed.
use remote_controll_app.Prelude.{
  ℕ, ◌^◌, ◌≤◌, ◌<◌, ◌≡◌, ◌∙◌, refl, sym, Bool, true, false, Option, List, [], ◌∷◌, arith, nat_beq,
  ap, if_ind, if◌then◌else◌, subst, inl, length, length-append,
}
use remote_controll_app.Text.{Str}
use remote_controll_app.Channel.Checksum.{
  create_file_transfer_checksum, update_file_transfer_checksum, mix_all,
}
use remote_controll_app.Channel.Checksum.Detection.{update-append, update_lt}
use remote_controll_app.Channel.Transfers.{
  Current, idle, starting, writing, Transfer, Phase, waiting, aborting_incomplete,
  aborting_mismatch, finishing, Completion, Client,
}
use remote_controll_app.Channel.Transfers.Events.{
  Answer, Event, answer_came, with_transfer, settle, written, reject, answered_start,
  answered_write, answered, run,
}
use remote_controll_app.Channel.Transfers.Frames.{
  put-all, IsLike-settled, with_transfer-IsKept, reject-IsKept,
}
use remote_controll_app.Channel.Transfers.Whole.{
  chunks, content, acknowledged, written_by, is_announced, IsBacked, IsChecked, IsSound,
  same-IsChecked, Fits,
}
use remote_controll_app.Channel.Transfers.Whole.Steps.{kept-IsSound}
use remote_controll_app.Channel.Transfers.Whole.Turns.{in_use}

announced_more :
    (e : Event) (sum : Str) (es : List Event)
    → is_announced sum es ≡ true
    → is_announced sum (e ∷ es) ≡ true
announced_more e sum es h = ground (arith, h)

-- An event that acknowledges nothing.
pub grown-IsSound :
    (atob : Str → Option Str) (e : Event) (es : List Event) (c : Client)
    → ((a : ℕ) → written_by e (run atob es) a ≡ [])
    → IsSound atob es c
    → IsSound atob (e ∷ es) c
unfolding chunks
grown-IsSound atob e es c w s = record {
  backed = λ a. rw (w a) (s.backed a);
  unused = s.unused;
  known = s.known;
  ended = λ n k x.
      let before = s.ended n k x in (before.0, announced_more e k.checksum es before.1, before.2);
}

silent :
    (b a : ℕ) (u : Current) (ok : Bool) (c : Client)
    → (c.transfers b).current ≡ u
    → acknowledged u ok ≡ []
    → (if nat_beq b a then acknowledged (c.transfers b).current ok else []) ≡ []
silent b a u ok c e h =
    if_ind (λ cs. cs ≡ []) (nat_beq b a) _ _ (λ y. ap (λ v. acknowledged v ok) e ∙ h) (λ n. refl)

-- The transfer after an acknowledged write.
written-IsBacked :
    (cs : List (ℕ × List ℕ)) (id : Str) (i : ℕ) (bytes : List ℕ) (t : Transfer)
    → Fits (writing id i bytes) t
    → IsBacked cs t
    → IsBacked ((i, bytes) ∷ cs) (written id bytes t)
written-IsBacked cs id i bytes t (same, fits) b = record {
  order = (omega (arith, same, b.count), b.order);
  count = omega (arith, b.count);
  bytes = omega (arith, length-append (content cs) bytes, b.bytes);
  sum =
      sym (update-append create_file_transfer_checksum (content cs) bytes)
      ∙ ap (λ s. update_file_transfer_checksum s bytes) b.sum;
  room = fits;
  current = tt;
}

update-nil :
    (s : ℕ) (bytes : List ℕ)
    → s < 2 ^ 32
    → length bytes ≡ 0
    → update_file_transfer_checksum s bytes ≡ s
unfolding update_file_transfer_checksum mix_all
update-nil s [] h e = omega (arith, h)
update-nil s (x ∷ bytes) h e = absurd (omega (arith, e))

-- What is checked of a whole file stays so: a further write is empty.
written-IsChecked :
    (cs : List (ℕ × List ℕ)) (id : Str) (i : ℕ) (bytes : List ℕ) (t : Transfer) (p : Phase)
    (k : Completion)
    → Fits (writing id i bytes) t
    → IsBacked cs t
    → IsChecked p k t
    → IsChecked p k (written id bytes t)
written-IsChecked cs id i bytes t (waiting many) k f b x = tt
written-IsChecked cs id i bytes t aborting_incomplete k f b x = tt
written-IsChecked cs id i bytes t aborting_mismatch k f b x = tt
written-IsChecked cs id i bytes t finishing k (same, fits) b (full, sum) =
    let small : t.checksum < 2 ^ 32 =
      omega (arith, b.sum, update_lt create_file_transfer_checksum (content cs)) in
    same-IsChecked finishing k t (written id bytes t) (omega (arith, fits, full)) refl
      (update-nil t.checksum bytes small (omega (arith, fits, full))) (full, sum)

write-IsSound :
    (atob : Str → Option Str) (es : List Event) (a : ℕ) (id : Str) (i : ℕ) (bytes : List ℕ)
    (path : Option Str) (c : Client)
    → run atob es ≡ c
    → (c.transfers a).current ≡ writing id i bytes
    → IsSound atob es c
    → IsSound atob
        (answer_came a (record { ok = true; path = path }) ∷ es)
        (with_transfer a (written id bytes (c.transfers a)) c)
unfolding chunks
write-IsSound atob es a id i bytes path c same e s =
    let t : Transfer = c.transfers a in
    let used = in_use atob es a c s (inl (λ stopped. cc (e, stopped))) in
    let fits : Fits (writing id i bytes) t = subst (λ u. Fits u t) e (s.backed a).current in
    record {
      backed =
          put-all
            (λ d u.
              IsBacked (chunks atob (answer_came a (record { ok = true; path = path }) ∷ es) d) u)
            a (written id bytes t) c.transfers
            (let self : nat_beq a a ≡ true = ground arith in
              rw (same, self, e)
                (written-IsBacked (chunks atob es a) id i bytes t fits (s.backed a)))
            (λ d n. rw n (s.backed d));
      unused =
          put-all
            (λ d u.
              c.next_address ≤ d → (u.next_chunk_index ≡ 0) × (u.current ≡ idle) × (u.queue ≡ []))
            a (written id bytes t) c.transfers (λ h. absurd (omega (arith, h, used)))
            (λ d n h. s.unused d h);
      known = s.known;
      ended = λ n k x.
          let before = s.ended n k x in
          (
            before.0,
            announced_more (answer_came a (record { ok = true; path = path })) k.checksum es
                before.1,
            put-all (λ d u. IsChecked k.phase k (c.transfers d) → IsChecked k.phase k u) a
                (written id bytes t) c.transfers
                (λ h.
                  written-IsChecked (chunks atob es a) id i bytes t k.phase k fits (s.backed a) h)
                (λ d m h. h) k.address before.2,
          );
    }

quiet-IsSound :
    (atob : Str → Option Str) (es : List Event) (a : ℕ) (u : Current) (answer : Answer)
    (c c' : Client)
    → run atob es ≡ c
    → (c.transfers a).current ≡ u
    → acknowledged u answer.ok ≡ []
    → IsSound atob es c'
    → IsSound atob (answer_came a answer ∷ es) c'
quiet-IsSound atob es a u answer c c' same e h s =
    grown-IsSound atob (answer_came a answer) es c'
      (λ d.
        silent a d u answer.ok (run atob es) (ap (λ (r : Client). (r.transfers a).current) same ∙ e)
          h)
      s

refused-IsSound :
    (atob : Str → Option Str) (es : List Event) (id : Str) (a : ℕ) (c : Client)
    → IsSound atob es c
    → IsSound atob es (reject id a (c.transfers a) c).0
refused-IsSound atob es id a c s =
    kept-IsSound atob es c _
      (reject-IsKept id a (c.transfers a) c
        (IsLike-settled (c.transfers a) true (c.transfers a).path (c.transfers a).queue) (λ h e. e))
      s

answered_start-IsSound :
    (atob : Str → Option Str) (es : List Event) (id : Str) (a : ℕ) (ok : Bool) (path : Option Str)
    (c : Client)
    → IsSound atob es c
    → IsSound atob es (answered_start id a (c.transfers a) ok path c).0
unfolding answered_start
answered_start-IsSound atob es id a true path c s =
    kept-IsSound atob es c _
      (with_transfer-IsKept a (record (settle (c.transfers a)) { path = path }) c
        (IsLike-settled (c.transfers a) (c.transfers a).is_rejected path (c.transfers a).queue)
        (λ h e. e))
      s
answered_start-IsSound atob es id a false path c s = refused-IsSound atob es id a c s

answered_write-IsSound :
    (atob : Str → Option Str) (es : List Event) (a : ℕ) (id : Str) (i : ℕ) (bytes : List ℕ)
    (ok : Bool) (path : Option Str) (c : Client)
    → run atob es ≡ c
    → (c.transfers a).current ≡ writing id i bytes
    → IsSound atob es c
    → IsSound atob
        (answer_came a (record { ok = ok; path = path }) ∷ es)
        (answered_write id bytes a (c.transfers a) ok c).0
unfolding answered_write
answered_write-IsSound atob es a id i bytes true path c same e s =
    write-IsSound atob es a id i bytes path c same e s
answered_write-IsSound atob es a id i bytes false path c same e s =
    quiet-IsSound atob es a (writing id i bytes) (record { ok = false; path = path }) c _ same e
      refl (refused-IsSound atob es id a c s)

pub answered-IsSound :
    (atob : Str → Option Str) (es : List Event) (a : ℕ) (u : Current) (answer : Answer) (c : Client)
    → run atob es ≡ c
    → (c.transfers a).current ≡ u
    → IsSound atob es c
    → IsSound atob (answer_came a answer ∷ es) (answered a (c.transfers a) u answer c).0
unfolding answered
answered-IsSound atob es a idle answer c same e s =
    quiet-IsSound atob es a idle answer c c same e refl s
answered-IsSound atob es a (starting id) answer c same e s =
    quiet-IsSound atob es a (starting id) answer c _ same e refl
      (answered_start-IsSound atob es id a answer.ok answer.path c s)
answered-IsSound atob es a (writing id i bytes) answer c same e s =
    answered_write-IsSound atob es a id i bytes answer.ok answer.path c same e s
