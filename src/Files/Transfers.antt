-- ===== src/Files/Transfers.antt =====
-- What a completed transfer of apps/desktop/src/main/fileIpc.ts is: every chunk from the first on, in
-- order, and exactly the size that was announced. The specification reads this off a record of what
-- was acknowledged; a transfer is known by the address of its object.
pub mod Steps
pub mod Runs
use remote_controll_app.Prelude.{
  ℕ, suc, ◌+◌, ◌<◌, ◌≡◌, refl, Option, none, some, List, [], ◌∷◌, if◌then◌else◌, length, nat_beq,
  nat_beq_iff, arith,
}
use remote_controll_app.JsMap
use remote_controll_app.JsMap.{JsMap}
use remote_controll_app.Text.{Str, str_eq, str_beq}
use remote_controll_app.Input.{TransferChunk}
use remote_controll_app.Files.{
  Transfer, Waiting, opening, writing, Main, came, Answer, allocated, written,
}

-- What was acknowledged, the newest first: a start with its id, address, size and path, and a chunk
-- that was written, with the address.
pub data Fact : Type 0 where
  started : Str → ℕ → ℕ → Str → Fact
  accepted : ℕ → ℕ → List ℕ → Fact

-- What a handler acknowledges that goes on.
abbrev pub facts_of : Answer → Option Waiting → ℕ → List Fact
facts_of (allocated (came path)) (some (opening t)) next =
    started t.transfer_id next t.size path ∷ []
facts_of (written (came u)) (some (writing a c)) next = accepted a c.index c.content ∷ []
facts_of answer w next = []

-- The chunks of the transfer at an address, the newest first.
abbrev pub taken : ℕ → List Fact → List (ℕ × List ℕ)
taken a [] = []
taken a (started j b n path ∷ facts) = let rest = taken a facts in if nat_beq b a then [] else rest
taken a (accepted b i bytes ∷ facts) =
    let rest = taken a facts in if nat_beq b a then (i, bytes) ∷ rest else rest

-- The address, the size and the path of the last start of an id.
abbrev pub declared : Str → List Fact → Option (ℕ × ℕ × Str)
declared id [] = none
declared id (started j a n path ∷ facts) =
    let rest = declared id facts in if str_beq j id then some (a, n, path) else rest
declared id (accepted a i bytes ∷ facts) = declared id facts

-- The chunks are numbered from 0 in the order of their arrival.
abbrev pub Numbered : List (ℕ × List ℕ) → Type 0
Numbered [] = Unit
Numbered ((i, bytes) ∷ chunks) = (i ≡ length chunks) × Numbered chunks

abbrev pub total : List (ℕ × List ℕ) → ℕ
total [] = 0
total ((i, bytes) ∷ chunks) = length bytes + total chunks

-- An object says what was acknowledged of it.
pub record IsBacked (facts : List Fact) (a : ℕ) (t : Transfer) : Type 0 where
  pub order : Numbered (taken a facts)
  pub count : length (taken a facts) ≡ t.expected_chunk_index
  pub bytes : total (taken a facts) ≡ t.received_bytes

-- What the map holds is what was started last under the id.
pub record IsStored (facts : List Fact) (next : ℕ) (transfers : ℕ → Transfer) (id : Str) (a : ℕ)
    : Type 0 where
  pub start : declared id facts ≡ some (a, (transfers a).expected_size, (transfers a).file_path)
  pub known : a < next

-- A write that is pending is the one of the next chunk.
pub record IsNext (next : ℕ) (transfers : ℕ → Transfer) (a : ℕ) (c : TransferChunk) : Type 0 where
  pub index : c.index ≡ (transfers a).expected_chunk_index
  pub known : a < next

pub record Inv (facts : List Fact) (m : Main) : Type 0 where
  pub objects : (a : ℕ) → IsBacked facts a (m.transfers a)
  pub stored :
      (id : Str) (a : ℕ)
      → JsMap.get id m.saves ≡ some a
      → IsStored facts m.next_address m.transfers id a
  pub writes :
      (n a : ℕ) (c : TransferChunk)
      → m.waiting n ≡ some (writing a c)
      → IsNext m.next_address m.transfers a c
  pub alone :
      (n k a : ℕ) (c d : TransferChunk)
      → m.waiting n ≡ some (writing a c)
      → m.waiting k ≡ some (writing a d)
      → n ≡ k

-- An object after its next chunk.
pub grown-IsBacked :
    (facts : List Fact) (a n : ℕ) (bytes : List ℕ) (t : Transfer)
    → n ≡ t.expected_chunk_index
    → IsBacked facts a t
    → IsBacked (accepted a n bytes ∷ facts) a (record t {
      received_bytes = t.received_bytes + length bytes;
      expected_chunk_index = suc t.expected_chunk_index;
    })
grown-IsBacked facts a n bytes t same b = record {
  order = rw ((nat_beq_iff a a).1 refl) (omega (arith, same, b.count), b.order);
  count = rw ((nat_beq_iff a a).1 refl) (omega (arith, b.count));
  bytes = rw ((nat_beq_iff a a).1 refl) (omega (arith, b.bytes));
}
