-- ===== src/Channel/Transfers/Whole/Steps.antt =====
-- Every operation on arriving files in apps/desktop/src/renderer/src/webrtc/RemoteControlClient.ts
-- keeps them backed by what the disk has acknowledged.
use remote_controll_app.Prelude.{
  ℕ, suc, ◌≤◌, ◌<◌, ◌≡◌, ◌∙◌, refl, Option, none, some, List, [], ◌∷◌, ◌++◌, arith, Bool-cases, inl,
  inr, length, ltb, leb,
}
use remote_controll_app.JsMap
use remote_controll_app.JsMap.{JsMap, get-set}
use remote_controll_app.Text.{Str, str_eq, str_beq}
use remote_controll_app.Channel.{mebibytes}
use remote_controll_app.Channel.Checksum.{update_file_transfer_checksum, mix_all}
use remote_controll_app.Channel.Transfers.{
  Chunk, idle, Client, put, started, begin_incoming_file_transfer,
}
use remote_controll_app.Channel.Transfers.Events.{Event, enqueue, append_incoming_file_chunk}
use remote_controll_app.Channel.Transfers.Frames.{
  IsKept, put-all, IsLike-flags, with_transfer-IsKept,
}
use remote_controll_app.Channel.Transfers.Whole.{
  chunks, IsBacked, IsChecked, IsSound, like-IsBacked, like-IsChecked,
}

pub kept-IsSound :
    (atob : Str → Option Str) (es : List Event) (c c' : Client)
    → IsKept c c'
    → IsSound atob es c
    → IsSound atob es c'
kept-IsSound atob es c c' k s = record {
  backed = λ a.
      like-IsBacked (chunks atob es a) (c.transfers a) (c'.transfers a) (k.like a) (s.backed a);
  unused = λ a h.
      let before = s.unused a (omega (arith, k.next, h)) in
      (
        omega (arith, (k.like a).next, before.0),
        elim (k.like a).current [ inl e ↦ e ∙ before.1 | inr i ↦ i ],
        k.unused a (omega (arith, k.next, h)) before.2,
      );
  known = λ id a e. omega (arith, k.next, s.known id a (k.known id a e));
  ended = λ n j e.
      let before = s.ended n j (rw (← k.completions) e) in
      (
        omega (arith, k.next, before.0),
        before.1,
        like-IsChecked j.phase j (c.transfers j.address) (c'.transfers j.address) (k.like j.address)
            before.2,
      );
}

no_chunks : (cs : List (ℕ × List ℕ)) → length cs ≡ 0 → cs ≡ []
no_chunks [] e = refl
no_chunks (x ∷ cs) e = absurd (omega (arith, e))

started-IsBacked :
    (cs : List (ℕ × List ℕ)) (id name mime_type : Str) (size : ℕ)
    → cs ≡ []
    → IsBacked cs (started id name size mime_type)
unfolding update_file_transfer_checksum mix_all
started-IsBacked cs id name mime_type size e = rw e (record {
  order = tt;
  count = refl;
  bytes = refl;
  sum = refl;
  room = omega arith;
  current = tt;
})

begin-IsSound :
    (atob : Str → Option Str) (es : List Event) (id name mime_type : Str) (size : ℕ) (c : Client)
    → IsSound atob es c
    → IsSound atob es (record c {
      incoming = JsMap.set id c.next_address c.incoming;
      transfers = put c.next_address (started id name size mime_type) c.transfers;
      next_address = suc c.next_address;
    })
begin-IsSound atob es id name mime_type size c s = record {
  backed =
      put-all (λ a t. IsBacked (chunks atob es a) t) c.next_address (started id name size mime_type)
        c.transfers
        (started-IsBacked (chunks atob es c.next_address) id name mime_type size (
          no_chunks (chunks atob es c.next_address)
            ((s.backed c.next_address).count ∙ (s.unused c.next_address (omega arith)).0)))
        (λ a n. s.backed a);
  unused =
      put-all
        (λ a t.
          suc c.next_address ≤ a → (t.next_chunk_index ≡ 0) × (t.current ≡ idle) × (t.queue ≡ []))
        c.next_address (started id name size mime_type) c.transfers (λ h. absurd (omega (arith, h)))
        (λ a n h. s.unused a (omega (arith, h)));
  known = λ j a e. elim (Bool-cases (str_beq id j)) [
    | inl y ↦
        let there : some c.next_address ≡ some a =
          rw (get-set j id c.next_address c.incoming, y) at e in
        let same : c.next_address ≡ a = cc there in omega (arith, same)
    | inr n ↦ omega (arith, s.known j a (rw (get-set j id c.next_address c.incoming, n) at e))
  ];
  ended = λ n k e.
      let before = s.ended n k e in
      (
        omega (arith, before.0),
        before.1,
        put-all
            (λ a t.
              a < c.next_address → IsChecked k.phase k (c.transfers a) → IsChecked k.phase k t)
            c.next_address (started id name size mime_type) c.transfers
            (λ h. absurd (omega (arith, h))) (λ a m h x. x) k.address before.0 before.2,
      );
}

pub begin_incoming_file_transfer-IsSound :
    (atob : Str → Option Str) (es : List Event) (id name mime_type : Str) (size : ℕ) (c : Client)
    → IsSound atob es c
    → IsSound atob es (begin_incoming_file_transfer id name mime_type size c).0
unfolding begin_incoming_file_transfer
begin_incoming_file_transfer-IsSound atob es id name mime_type size c s =
    elim (Bool-cases (ltb (mebibytes 256) size)) [
      | inl y ↦ rw y s
      | inr n ↦ elim (Bool-cases (JsMap.has id c.incoming)) [
        | inl y ↦ rw (n, y) s
        | inr m ↦ elim (Bool-cases (leb 4 (length c.incoming))) [
          | inl y ↦ rw (n, m, y) s
          | inr l ↦ rw (n, m, l) (begin-IsSound atob es id name mime_type size c s)
        ]
      ]
    ]

-- A chunk joins the queue of a known transfer.
enqueue-IsSound :
    (atob : Str → Option Str) (es : List Event) (k : Chunk) (o : Option ℕ) (c : Client)
    → ((a : ℕ) → o ≡ some a → a < c.next_address)
    → IsSound atob es c
    → IsSound atob es (enqueue k o c)
unfolding enqueue
enqueue-IsSound atob es k none c known s = s
enqueue-IsSound atob es k (some a) c known s =
    kept-IsSound atob es c _
      (with_transfer-IsKept a (record (c.transfers a) { queue = (c.transfers a).queue ++ k ∷ [] }) c
        (IsLike-flags (c.transfers a) (c.transfers a).failed (c.transfers a).is_rejected
          (c.transfers a).path (c.transfers a).timer ((c.transfers a).queue ++ k ∷ [])
          (c.transfers a).settled)
        (λ h e. absurd (omega (arith, h, known a refl))))
      s

pub append_incoming_file_chunk-IsSound :
    (atob : Str → Option Str) (es : List Event) (k : Chunk) (c : Client)
    → IsSound atob es c
    → IsSound atob es (append_incoming_file_chunk k c)
unfolding append_incoming_file_chunk
append_incoming_file_chunk-IsSound atob es k c s =
    enqueue-IsSound atob es k (JsMap.get k.transfer_id c.incoming) c
      (λ a e. s.known k.transfer_id a e) s
