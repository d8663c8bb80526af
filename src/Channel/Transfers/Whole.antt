-- ===== src/Channel/Transfers/Whole.antt =====
-- What a received file is, in apps/desktop/src/renderer/src/webrtc/RemoteControlClient.ts: all chunks
-- in order, the announced size and checksum. The specification reads this off the sequence of events.
pub mod Steps
pub mod Turns
pub mod Answers
pub mod Completions
pub mod Quiet
pub mod Runs
use remote_controll_app.Prelude.{
  ℕ, suc, ◌+◌, ◌≤◌, ◌<◌, ◌≡◌, ◌∙◌, ◌⊎◌, refl, sym, Bool, true, false, Option, none, some, List, [],
  ◌∷◌, ◌++◌, arith, nat_beq, any, if◌then◌else◌, inl, inr, length, subst, ap,
}
use remote_controll_app.JsMap
use remote_controll_app.JsMap.{JsMap}
use remote_controll_app.Text.{Str, str_eq, str_beq}
use remote_controll_app.Channel.Checksum.{
  create_file_transfer_checksum, update_file_transfer_checksum, format_file_transfer_checksum,
}
use remote_controll_app.Channel.Transfers.{
  Chunk, Current, idle, starting, writing, Transfer, Phase, waiting, aborting_incomplete,
  aborting_mismatch, finishing, Completion, Client,
}
use remote_controll_app.Channel.Transfers.Events.{Answer, Event, complete_message, answer_came, run}
use remote_controll_app.Channel.Transfers.Frames.{IsLike}

-- The chunk of an acknowledged write.
abbrev pub acknowledged : Current → Bool → List (ℕ × List ℕ)
acknowledged (writing id i bytes) true = (i, bytes) ∷ []
acknowledged _ _ = []

abbrev pub written_by : Event → Client → ℕ → List (ℕ × List ℕ)
written_by (answer_came b answer) c a =
    if nat_beq b a then acknowledged (c.transfers b).current answer.ok else []
written_by _ c a = []

-- The chunks of the transfer at an address that the disk has acknowledged, the newest first.
unfoldable pub chunks : (Str → Option Str) → List Event → ℕ → List (ℕ × List ℕ)
chunks atob [] a = []
chunks atob (e ∷ es) a = written_by e (run atob es) a ++ chunks atob es a

-- They are numbered from 0 in the order of the writes.
abbrev pub Ordered : List (ℕ × List ℕ) → Type 0
Ordered [] = Unit
Ordered ((i, bytes) ∷ cs) = (i ≡ length cs) × Ordered cs

-- Their content, in the order of the writes.
abbrev pub content : List (ℕ × List ℕ) → List ℕ
content [] = []
content ((i, bytes) ∷ cs) = content cs ++ bytes

-- The peer has announced the checksum of a complete file.
abbrev pub is_announcement : Str → Event → Bool
is_announcement sum (complete_message id sum') = str_beq sum' sum
is_announcement sum _ = false

abbrev pub is_announced : Str → List Event → Bool
is_announced sum es = any (is_announcement sum) es

-- A write under way has the next number and fits.
abbrev pub Fits : Current → Transfer → Type 0
Fits (writing id i bytes) t = (i ≡ t.next_chunk_index) × (t.received_bytes + length bytes ≤ t.size)
Fits _ t = Unit

pub record IsBacked (cs : List (ℕ × List ℕ)) (t : Transfer) : Type 0 where
  pub order : Ordered cs
  pub count : length cs ≡ t.next_chunk_index
  pub bytes : length (content cs) ≡ t.received_bytes
  pub sum : update_file_transfer_checksum create_file_transfer_checksum (content cs) ≡ t.checksum
  pub room : t.received_bytes ≤ t.size
  pub current : Fits t.current t

-- The last segment of a completion is entered with the whole file.
abbrev pub IsChecked : Phase → Completion → Transfer → Type 0
IsChecked finishing k t =
    (t.received_bytes ≡ t.size) × (format_file_transfer_checksum t.checksum ≡ k.checksum)
IsChecked _ k t = Unit

pub record IsSound (atob : Str → Option Str) (es : List Event) (c : Client) : Type 0 where
  pub backed : (a : ℕ) → IsBacked (chunks atob es a) (c.transfers a)
  pub unused :
      (a : ℕ)
      → c.next_address ≤ a
      → ((c.transfers a).next_chunk_index ≡ 0)
        × ((c.transfers a).current ≡ idle)
        × ((c.transfers a).queue ≡ [])
  pub known : (id : Str) (a : ℕ) → JsMap.get id c.incoming ≡ some a → a < c.next_address
  pub ended :
      (n : ℕ) (k : Completion)
      → c.completions n ≡ some k
      → (k.address < c.next_address)
        × (is_announced k.checksum es ≡ true)
        × IsChecked k.phase k (c.transfers k.address)

fits-same : (u : Current) (t t' : Transfer) → IsLike t t' → Fits u t → Fits u t'
fits-same idle t t' l f = tt
fits-same (starting id) t t' l f = tt
fits-same (writing id i bytes) t t' l (same, fits) =
    (omega (arith, l.next, same), omega (arith, l.received, l.size, fits))

fits-like : (t t' : Transfer) → IsLike t t' → Fits t.current t → Fits t'.current t'
fits-like t t' l f = elim l.current [
  | inl e ↦ subst (λ u. Fits u t') (sym e) (fits-same t.current t t' l f)
  | inr i ↦ subst (λ u. Fits u t') (sym i) tt
]

pub like-IsBacked :
    (cs : List (ℕ × List ℕ)) (t t' : Transfer) → IsLike t t' → IsBacked cs t → IsBacked cs t'
like-IsBacked cs t t' l b = record {
  order = b.order;
  count = b.count ∙ sym l.next;
  bytes = b.bytes ∙ sym l.received;
  sum = b.sum ∙ sym l.checksum;
  room = omega (arith, l.received, l.size, b.room);
  current = fits-like t t' l b.current;
}

pub same-IsChecked :
    (p : Phase) (k : Completion) (t t' : Transfer)
    → t'.received_bytes ≡ t.received_bytes
    → t'.size ≡ t.size
    → t'.checksum ≡ t.checksum
    → IsChecked p k t
    → IsChecked p k t'
same-IsChecked finishing k t t' r z e (full, sum) =
    (omega (arith, r, z, full), ap (λ c. format_file_transfer_checksum c) e ∙ sum)
same-IsChecked (waiting many) k t t' r z e u = tt
same-IsChecked aborting_incomplete k t t' r z e u = tt
same-IsChecked aborting_mismatch k t t' r z e u = tt

pub like-IsChecked :
    (p : Phase) (k : Completion) (t t' : Transfer)
    → IsLike t t'
    → IsChecked p k t
    → IsChecked p k t'
like-IsChecked p k t t' l = same-IsChecked p k t t' l.received l.size l.checksum
