-- ===== src/Channel/Transfers/Whole/Turns.antt =====
-- The turn of a chunk, `appendIncomingFileChunk` of
-- apps/desktop/src/renderer/src/webrtc/RemoteControlClient.ts up to the write: files stay backed.
use remote_controll_app.Prelude.{
  ℕ, ◌+◌, ◌≤◌, ◌<◌, ◌≡◌, ◌≢◌, if_ind, ◌⊎◌, refl, true, not, Option, none, some, List, [], ◌∷◌,
  arith, nat_beq, Bool-cases, inl, inr, length, ltb, ltb→lt,
}
use remote_controll_app.Text.{Str}
use remote_controll_app.Channel.Encoded.{base64_to_bytes}
use remote_controll_app.Channel.Transfers.{
  Chunk, Current, idle, starting, writing, Transfer, Phase, Completion, Out, Client,
}
use remote_controll_app.Channel.Transfers.Events.{
  Event, with_transfer, settle, reject, write_decoded, take_turn, next_turn,
}
use remote_controll_app.Channel.Transfers.Frames.{
  put-all, IsLike-settled, with_transfer-IsKept, reject-IsKept,
}
use remote_controll_app.Channel.Transfers.Whole.{
  chunks, IsBacked, IsChecked, IsSound, same-IsChecked,
}
use remote_controll_app.Channel.Transfers.Whole.Steps.{kept-IsSound}

-- A place with a current part or a queue is in use.
pub in_use :
    (atob : Str → Option Str) (es : List Event) (a : ℕ) (c : Client)
    → IsSound atob es c
    → ((c.transfers a).current ≢ idle) ⊎ ((c.transfers a).queue ≢ [])
    → a < c.next_address
in_use atob es a c s used = elim (Bool-cases (ltb a c.next_address)) [
  | inl y ↦ ltb→lt a c.next_address y
  | inr n ↦
      let free = s.unused a (ground (arith, n)) in
      elim used [ inl ne ↦ absurd (ne free.1) | inr ne ↦ absurd (ne free.2) ]
]

pub place-IsSound :
    (atob : Str → Option Str) (es : List Event) (a : ℕ) (t : Transfer) (c : Client)
    → a < c.next_address
    → IsBacked (chunks atob es a) t
    → ((p : Phase) (k : Completion) → IsChecked p k (c.transfers a) → IsChecked p k t)
    → IsSound atob es c
    → IsSound atob es (with_transfer a t c)
place-IsSound atob es a t c used b carry s = record {
  backed = put-all (λ d u. IsBacked (chunks atob es d) u) a t c.transfers b (λ d n. s.backed d);
  unused =
      put-all
        (λ d u. c.next_address ≤ d → (u.next_chunk_index ≡ 0) × (u.current ≡ idle) × (u.queue ≡ []))
        a t c.transfers (λ h. absurd (omega (arith, h, used))) (λ d n h. s.unused d h);
  known = s.known;
  ended = λ n k e.
      let before = s.ended n k e in
      (
        before.0,
        before.1,
        put-all (λ d u. IsChecked k.phase k (c.transfers d) → IsChecked k.phase k u) a t c.transfers
            (λ x. carry k.phase k x) (λ d m x. x) k.address before.2,
      );
}

rejected-IsSound :
    (atob : Str → Option Str) (es : List Event) (k : Chunk) (ks : List Chunk) (a : ℕ) (c : Client)
    → (c.transfers a).queue ≡ k ∷ ks
    → IsSound atob es c
    → IsSound atob es (reject k.transfer_id a (record (c.transfers a) { queue = ks }) c).0
rejected-IsSound atob es k ks a c e s =
    kept-IsSound atob es c _
      (reject-IsKept k.transfer_id a (record (c.transfers a) { queue = ks }) c
        (IsLike-settled (c.transfers a) true (c.transfers a).path ks) (λ h empty. cc (e, empty)))
      s

write_decoded-IsSound :
    (atob : Str → Option Str) (es : List Event) (k : Chunk) (ks : List Chunk) (a : ℕ)
    (decoded : Option (List ℕ)) (c : Client)
    → (c.transfers a).queue ≡ k ∷ ks
    → k.index ≡ (c.transfers a).next_chunk_index
    → IsSound atob es c
    → IsSound atob es (write_decoded k a (record (c.transfers a) { queue = ks }) decoded c).0
unfolding write_decoded
write_decoded-IsSound atob es k ks a none c e same s = rejected-IsSound atob es k ks a c e s
write_decoded-IsSound atob es k ks a (some bytes) c e same s =
    if_ind (λ (r : Client × List Out). IsSound atob es r.0)
      (ltb (c.transfers a).size ((c.transfers a).received_bytes + length bytes)) _ _
      (λ y. rejected-IsSound atob es k ks a c e s)
      (λ n.
        let t : Transfer = record (c.transfers a) {
          queue = ks;
          current = writing k.transfer_id k.index bytes;
        } in
        let b = s.backed a in
        place-IsSound atob es a t c (in_use atob es a c s (inr (λ empty. cc (e, empty))))
          (record {
            order = b.order;
            count = b.count;
            bytes = b.bytes;
            sum = b.sum;
            room = b.room;
            current = (same, ground (arith, n));
          })
          (λ p j x. same-IsChecked p j (c.transfers a) t refl refl refl x) s)

take_turn-IsSound :
    (atob : Str → Option Str) (es : List Event) (k : Chunk) (ks : List Chunk) (a : ℕ) (c : Client)
    → (c.transfers a).queue ≡ k ∷ ks
    → IsSound atob es c
    → IsSound atob es (take_turn atob k a (record (c.transfers a) { queue = ks }) c).0
unfolding take_turn
take_turn-IsSound atob es k ks a c e s =
    if_ind (λ (r : Client × List Out). IsSound atob es r.0) (c.transfers a).is_rejected _ _
      (λ y. rejected-IsSound atob es k ks a c e s)
      (λ n.
        if_ind (λ (r : Client × List Out). IsSound atob es r.0) (c.transfers a).failed _ _
          (λ y.
            kept-IsSound atob es c _
              (with_transfer-IsKept a (record (settle (c.transfers a)) { queue = ks }) c
                (IsLike-settled (c.transfers a) (c.transfers a).is_rejected (c.transfers a).path ks)
                (λ h empty. cc (e, empty)))
              s)
          (λ m.
            if_ind (λ (r : Client × List Out). IsSound atob es r.0)
              (not (nat_beq k.index (c.transfers a).next_chunk_index)) _ _
              (λ y. rejected-IsSound atob es k ks a c e s)
              (λ l.
                write_decoded-IsSound atob es k ks a (base64_to_bytes atob k.data_text) c e
                  (ground (arith, l)) s)))

pub next_turn-IsSound :
    (atob : Str → Option Str) (es : List Event) (a : ℕ) (u : Current) (q : List Chunk) (c : Client)
    → (c.transfers a).queue ≡ q
    → IsSound atob es c
    → IsSound atob es (next_turn atob a (c.transfers a) u q c).0
unfolding next_turn
next_turn-IsSound atob es a idle [] c e s = s
next_turn-IsSound atob es a idle (k ∷ ks) c e s = take_turn-IsSound atob es k ks a c e s
next_turn-IsSound atob es a (starting id) q c e s = s
next_turn-IsSound atob es a (writing id i bytes) q c e s = s
