-- ===== src/Channel/Transfers/Watched/Steps.antt =====
-- The operations on a transfer in apps/desktop/src/renderer/src/webrtc/RemoteControlClient.ts keep the
-- active ones watched by their timers.
use remote_controll_app.Prelude.{
  ℕ, suc, ◌<◌, ◌≡◌, ◌⊎◌, refl, sym, Bool, true, false, Option, none, some, List, [], ◌∷◌, ◌++◌,
  arith, nat_beq, nat_beq_iff, All-append, inl, inr, length, Bool-cases, if_ind, ltb, leb,
}
use remote_controll_app.JsMap
use remote_controll_app.JsMap.{JsMap, get-set, length-set}
use remote_controll_app.Text.{Str, str_eq, str_beq, str_beq_iff}
use remote_controll_app.Channel.{mebibytes}
use remote_controll_app.Channel.Transfers.{
  Chunk, Transfer, Client, Out, put, started, begin_incoming_file_transfer,
  fail_incoming_file_transfers, fail_incoming_file_transfer_internal,
}
use remote_controll_app.Channel.Transfers.Events.{
  with_transfer, settle, reject, enqueue, append_incoming_file_chunk, time_out,
  handle_file_transfer_abort,
}
use remote_controll_app.Channel.Transfers.Frames.{put-all, put-same}
use remote_controll_app.Channel.Transfers.Watched.{
  IsOwned, IsTidy, AllOwned, same_id, fail-IsTidy, fail-AllOwned, place-AllOwned, place-Doubtful,
}

abbrev pub IsWatched : Client → Type 0
IsWatched c = IsTidy c × AllOwned c

pub IsTidy-transfers :
    (f : ℕ → Transfer) (c : Client) → IsTidy c → IsTidy (record c { transfers = f })
IsTidy-transfers f c t = record { few = t.few; known = t.known; ended = t.ended }

pub place-IsWatched :
    (a : ℕ) (t : Transfer) (c : Client)
    → ((j : Str) → JsMap.get j c.incoming ≡ some a → IsOwned j (c.transfers a) → IsOwned j t)
    → IsWatched c
    → IsWatched (with_transfer a t c)
place-IsWatched a t c keep (tidy, owned) =
    (IsTidy-transfers (put a t c.transfers) c tidy, place-AllOwned a t c keep owned)

pub reject-IsWatched :
    (id : Str) (a : ℕ) (t : Transfer) (c : Client)
    → ((j : Str)
        → JsMap.get j c.incoming ≡ some a
        → IsOwned j (c.transfers a)
        → (j ≡ id) × (t.failed ≡ false))
    → IsWatched c
    → IsWatched (reject id a t c).0
unfolding reject
reject-IsWatched id a t c keep (tidy, owned) =
    let u : Transfer = record (settle t) { is_rejected = true } in
    (
      fail-IsTidy id true (with_transfer a u c) (IsTidy-transfers (put a u c.transfers) c tidy),
      fail-AllOwned a id true (with_transfer a u c) (place-Doubtful a id u c keep owned),
    )

pub time_out-IsWatched :
    (a : ℕ) (timer : Option Str) (c : Client)
    → (c.transfers a).timer ≡ timer
    → IsWatched c
    → IsWatched (time_out a timer c).0
unfolding time_out
time_out-IsWatched a none c e w = w
time_out-IsWatched a (some id) c e (tidy, owned) =
    let u : Transfer = record (c.transfers a) { timer = none } in
    (
      fail-IsTidy id true (with_transfer a u c) (IsTidy-transfers (put a u c.transfers) c tidy),
      fail-AllOwned a id true (with_transfer a u c)
          (place-Doubtful a id u c (λ j h o. let x = o.timer in (cc (x, e), o.failed)) owned),
    )

-- The map refers to no place that is not in use yet.
fail-IsWatched :
    (id : Str) (notify : Bool) (c : Client)
    → IsWatched c
    → IsWatched (fail_incoming_file_transfer_internal id notify c).0
fail-IsWatched id notify c (tidy, owned) = (
  fail-IsTidy id notify c tidy,
  fail-AllOwned c.next_address id notify c (λ j b h. (
    λ y. absurd (omega (arith, (nat_beq_iff c.next_address b).0 y, tidy.known j b h)),
    λ n. owned j b h,
  )),
)

pub abort-IsWatched :
    (id : Str) (reason : Option Str) (c : Client)
    → IsWatched c
    → IsWatched (handle_file_transfer_abort id reason c).0
unfolding handle_file_transfer_abort
abort-IsWatched id reason c w =
    if_ind (λ (r : Client × List Out). IsWatched r.0) (JsMap.has id c.incoming) _ _
      (λ y. fail-IsWatched id false c w)
      (λ n. (record { few = w.0.few; known = w.0.known; ended = w.0.ended }, w.1))

pub interrupt-IsWatched : (c : Client) → IsWatched c → IsWatched (fail_incoming_file_transfers c).0
unfolding fail_incoming_file_transfers JsMap.get
interrupt-IsWatched c w =
    if_ind (λ (r : Client × List Out). IsWatched r.0) (nat_beq (length c.incoming) 0) _ _ (λ y. w)
      (λ n. (
        record {
          few = omega arith;
          known = λ id a e. absurd (cc e);
          ended = λ m k e. ((w.0.ended m k e).0, λ j h. absurd (cc h));
        },
        λ id a e. absurd (cc e),
      ))

found_in_set :
    (id j : Str) (next a : ℕ) (m : JsMap Str ℕ)
    → JsMap.get j (JsMap.set id next m) ≡ some a
    → ((j ≡ id) × (a ≡ next)) ⊎ (JsMap.get j m ≡ some a)
found_in_set id j next a m e = elim (Bool-cases (str_beq id j)) [
  | inl y ↦
      let there : some next ≡ some a = rw (get-set j id next m, y) at e in
      inl (sym ((str_beq_iff id j).0 y), cc there)
  | inr n ↦ inr (rw (get-set j id next m, n) at e)
]

started-IsOwned : (id name mime_type : Str) (size : ℕ) → IsOwned id (started id name size mime_type)
started-IsOwned id name mime_type size = record {
  timer = refl;
  failed = refl;
  current = refl;
  queue = tt;
}

begin-IsWatched :
    (id name mime_type : Str) (size : ℕ) (c : Client)
    → JsMap.has id c.incoming ≡ false
    → leb 4 (length c.incoming) ≡ false
    → IsWatched c
    → IsWatched (record c {
      incoming = JsMap.set id c.next_address c.incoming;
      transfers = put c.next_address (started id name size mime_type) c.transfers;
      next_address = suc c.next_address;
    })
begin-IsWatched id name mime_type size c absent few (tidy, owned) =
    let t : Transfer = started id name size mime_type in
    let m = c.incoming in
    let next = c.next_address in
    (
      record {
        few = ground (arith, length-set id next m, absent, few);
        known = λ j a e. elim (found_in_set id j next a m e) [
          | inl (same, at) ↦ omega (arith, at)
          | inr there ↦ omega (arith, tidy.known j a there)
        ];
        ended = λ n k e.
            let before = tidy.ended n k e in
            (
              omega (arith, before.0),
              λ j h. elim (found_in_set id j next k.address m h) [
                | inl (same, at) ↦ absurd (omega (arith, at, before.0))
                | inr there ↦ before.1 j there
              ],
            );
      },
      λ j a e. elim (found_in_set id j next a m e) [
        | inl (same, at) ↦
            rw (same, at, put-same next t c.transfers) (started-IsOwned id name mime_type size)
        | inr there ↦
            put-all (λ d u. d < next → IsOwned j (c.transfers d) → IsOwned j u) next t c.transfers
              (λ h. absurd (omega (arith, h))) (λ d n h o. o) a (tidy.known j a there)
              (owned j a there)
      ],
    )

pub begin_incoming_file_transfer-IsWatched :
    (id name mime_type : Str) (size : ℕ) (c : Client)
    → IsWatched c
    → IsWatched (begin_incoming_file_transfer id name mime_type size c).0
unfolding begin_incoming_file_transfer
begin_incoming_file_transfer-IsWatched id name mime_type size c w =
    if_ind (λ (r : Client × List Out). IsWatched r.0) (ltb (mebibytes 256) size) _ _ (λ y. w)
      (λ n.
        if_ind (λ (r : Client × List Out). IsWatched r.0) (JsMap.has id c.incoming) _ _ (λ y. w)
          (λ m.
            if_ind (λ (r : Client × List Out). IsWatched r.0) (leb 4 (length c.incoming)) _ _
              (λ y. w) (λ l. begin-IsWatched id name mime_type size c m l w)))

-- A chunk joins the queue of the transfer under its id.
enqueue-IsWatched :
    (k : Chunk) (o : Option ℕ) (c : Client)
    → JsMap.get k.transfer_id c.incoming ≡ o
    → IsWatched c
    → IsWatched (enqueue k o c)
unfolding enqueue
enqueue-IsWatched k none c e w = w
enqueue-IsWatched k (some a) c e w =
    place-IsWatched a (record (c.transfers a) { queue = (c.transfers a).queue ++ k ∷ [] }) c
      (λ j h o. record {
        timer = o.timer;
        failed = o.failed;
        current = o.current;
        queue =
            All-append (λ (k' : Chunk). k'.transfer_id ≡ j) (c.transfers a).queue (k ∷ []) o.queue
              (same_id c k.transfer_id j a w.1 e h, tt);
      })
      w

pub append_incoming_file_chunk-IsWatched :
    (k : Chunk) (c : Client) → IsWatched c → IsWatched (append_incoming_file_chunk k c)
unfolding append_incoming_file_chunk
append_incoming_file_chunk-IsWatched k c w =
    enqueue-IsWatched k (JsMap.get k.transfer_id c.incoming) c refl w
