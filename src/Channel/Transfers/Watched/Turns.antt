-- ===== src/Channel/Transfers/Watched/Turns.antt =====
-- The turn of a chunk and the answers of the main process in
-- apps/desktop/src/renderer/src/webrtc/RemoteControlClient.ts keep active transfers watched.
use remote_controll_app.Prelude.{
  ℕ, ◌+◌, ◌≡◌, sym, Bool, true, false, not, Option, none, some, List, [], ◌∷◌, nat_beq, All, subst,
  ap, length, if_ind, ltb,
}
use remote_controll_app.Text.{Str, str_eq}
use remote_controll_app.Channel.Encoded.{base64_to_bytes}
use remote_controll_app.Channel.Transfers.{
  Chunk, Current, idle, starting, writing, Transfer, Client, Out,
}
use remote_controll_app.Channel.Transfers.Events.{
  Answer, settle, reject, write_decoded, take_turn, next_turn, answered_start, answered_write,
  answered, written,
}
use remote_controll_app.Channel.Transfers.Watched.{Goes, IsOwned}
use remote_controll_app.Channel.Transfers.Watched.Steps.{
  IsWatched, place-IsWatched, reject-IsWatched,
}

-- The ids of the chunks in a queue.
All-go :
    (k : Chunk) (ks : List Chunk) (j : Str) (t : Transfer)
    → t.queue ≡ k ∷ ks
    → IsOwned j t
    → (k.transfer_id ≡ j) × All (λ (k' : Chunk). k'.transfer_id ≡ j) ks
All-go k ks j t e o = subst (λ q. All (λ (k' : Chunk). k'.transfer_id ≡ j) q) e o.queue

turn_rejected-IsWatched :
    (k : Chunk) (ks : List Chunk) (a : ℕ) (c : Client)
    → (c.transfers a).queue ≡ k ∷ ks
    → IsWatched c
    → IsWatched (reject k.transfer_id a (record (c.transfers a) { queue = ks }) c).0
turn_rejected-IsWatched k ks a c e w =
    reject-IsWatched k.transfer_id a (record (c.transfers a) { queue = ks }) c
      (λ j h o. (sym (All-go k ks j (c.transfers a) e o).0, o.failed)) w

write_decoded-IsWatched :
    (k : Chunk) (ks : List Chunk) (a : ℕ) (decoded : Option (List ℕ)) (c : Client)
    → (c.transfers a).queue ≡ k ∷ ks
    → IsWatched c
    → IsWatched (write_decoded k a (record (c.transfers a) { queue = ks }) decoded c).0
unfolding write_decoded
write_decoded-IsWatched k ks a none c e w = turn_rejected-IsWatched k ks a c e w
write_decoded-IsWatched k ks a (some bytes) c e w =
    if_ind (λ (r : Client × List Out). IsWatched r.0)
      (ltb (c.transfers a).size ((c.transfers a).received_bytes + length bytes)) _ _
      (λ y. turn_rejected-IsWatched k ks a c e w)
      (λ n.
        place-IsWatched a
          (record (c.transfers a) { queue = ks; current = writing k.transfer_id k.index bytes }) c
          (λ j h o.
            let (same, rest) = All-go k ks j (c.transfers a) e o in
            record { timer = o.timer; failed = o.failed; current = same; queue = rest })
          w)

take_turn-IsWatched :
    (atob : Str → Option Str) (k : Chunk) (ks : List Chunk) (a : ℕ) (c : Client)
    → (c.transfers a).queue ≡ k ∷ ks
    → IsWatched c
    → IsWatched (take_turn atob k a (record (c.transfers a) { queue = ks }) c).0
unfolding take_turn
take_turn-IsWatched atob k ks a c e w =
    if_ind (λ (r : Client × List Out). IsWatched r.0) (c.transfers a).is_rejected _ _
      (λ y. turn_rejected-IsWatched k ks a c e w)
      (λ n.
        if_ind (λ (r : Client × List Out). IsWatched r.0) (c.transfers a).failed _ _
          (λ y.
            place-IsWatched a (record (settle (c.transfers a)) { queue = ks }) c
              (λ j h o. record {
                timer = o.timer;
                failed = o.failed;
                current = tt;
                queue = (All-go k ks j (c.transfers a) e o).1;
              })
              w)
          (λ m.
            if_ind (λ (r : Client × List Out). IsWatched r.0)
              (not (nat_beq k.index (c.transfers a).next_chunk_index)) _ _
              (λ y. turn_rejected-IsWatched k ks a c e w)
              (λ l. write_decoded-IsWatched k ks a (base64_to_bytes atob k.data_text) c e w)))

pub next_turn-IsWatched :
    (atob : Str → Option Str) (a : ℕ) (u : Current) (q : List Chunk) (c : Client)
    → (c.transfers a).queue ≡ q
    → IsWatched c
    → IsWatched (next_turn atob a (c.transfers a) u q c).0
unfolding next_turn
next_turn-IsWatched atob a idle [] c e w = w
next_turn-IsWatched atob a idle (k ∷ ks) c e w = take_turn-IsWatched atob k ks a c e w
next_turn-IsWatched atob a (starting id) q c e w = w
next_turn-IsWatched atob a (writing id i bytes) q c e w = w

Goes-by : (u : Current) (j : Str) (t : Transfer) → t.current ≡ u → IsOwned j t → Goes j u
Goes-by u j t e o = subst (λ v. Goes j v) e o.current

refused-IsWatched :
    (id : Str) (a : ℕ) (c : Client)
    → ((j : Str) → IsOwned j (c.transfers a) → j ≡ id)
    → IsWatched c
    → IsWatched (reject id a (c.transfers a) c).0
refused-IsWatched id a c goes w =
    reject-IsWatched id a (c.transfers a) c (λ j h o. (goes j o, o.failed)) w

answered_start-IsWatched :
    (id : Str) (a : ℕ) (ok : Bool) (path : Option Str) (c : Client)
    → (c.transfers a).current ≡ starting id
    → IsWatched c
    → IsWatched (answered_start id a (c.transfers a) ok path c).0
unfolding answered_start
answered_start-IsWatched id a true path c e w =
    place-IsWatched a (record (settle (c.transfers a)) { path = path }) c
      (λ j h o. record { timer = o.timer; failed = o.failed; current = tt; queue = o.queue }) w
answered_start-IsWatched id a false path c e w =
    refused-IsWatched id a c (λ j o. sym (Goes-by (starting id) j (c.transfers a) e o)) w

answered_write-IsWatched :
    (id : Str) (i : ℕ) (bytes : List ℕ) (a : ℕ) (ok : Bool) (c : Client)
    → (c.transfers a).current ≡ writing id i bytes
    → IsWatched c
    → IsWatched (answered_write id bytes a (c.transfers a) ok c).0
unfolding answered_write
answered_write-IsWatched id i bytes a true c e w =
    place-IsWatched a (written id bytes (c.transfers a)) c
      (λ j h o. record {
        timer = ap (λ (s : Str). some s) (Goes-by (writing id i bytes) j (c.transfers a) e o);
        failed = o.failed;
        current = tt;
        queue = o.queue;
      })
      w
answered_write-IsWatched id i bytes a false c e w =
    refused-IsWatched id a c (λ j o. sym (Goes-by (writing id i bytes) j (c.transfers a) e o)) w

pub answered-IsWatched :
    (a : ℕ) (u : Current) (answer : Answer) (c : Client)
    → (c.transfers a).current ≡ u
    → IsWatched c
    → IsWatched (answered a (c.transfers a) u answer c).0
unfolding answered
answered-IsWatched a idle answer c e w = w
answered-IsWatched a (starting id) answer c e w =
    answered_start-IsWatched id a answer.ok answer.path c e w
answered-IsWatched a (writing id i bytes) answer c e w =
    answered_write-IsWatched id i bytes a answer.ok c e w
