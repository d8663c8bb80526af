-- ===== src/Files/Transfers/Steps.antt =====
-- The segments of the handlers of apps/desktop/src/main/fileIpc.ts keep the record and the state in step.
use remote_controll_app.Prelude.{
  ℕ, suc, ◌<◌, ◌≡◌, ◌≢◌, ◌⊎◌, refl, false, Option, some, List, ◌∷◌, nat_beq, nat_beq_iff,
  Bool-cases, inl, inr, put, put-all, arith,
}
use remote_controll_app.JsMap
use remote_controll_app.JsMap.{JsMap, get-set, get-delete}
use remote_controll_app.Text.{Str, str_eq, str_beq}
use remote_controll_app.Input.{TransferStart, TransferChunk}
use remote_controll_app.Files.{
  Transfer, Waiting, writing, Main, wait, forget, opened, begin_transfer, after_append, came,
}
use remote_controll_app.Files.Transfers.{
  Fact, started, accepted, IsBacked, IsNext, Inv, grown-IsBacked,
}

put-cases {ℓ} :
    {A : Type ℓ} (k n : ℕ) (x y : A) (f : ℕ → A) → put k x f n ≡ y → ((k ≡ n) × (x ≡ y)) ⊎ (f n ≡ y)
put-cases k n x y f h = elim (Bool-cases (nat_beq k n)) [
  | inl e ↦ inl ((nat_beq_iff k n).0 e, rw e at h)
  | inr e ↦ inr (rw e at h)
]

-- No write to the transfer at that address is pending.
abbrev pub IsFree : ℕ → Main → Type 0
IsFree a m = (n : ℕ) (c : TransferChunk) → m.waiting n ≢ some (writing a c)

-- Changing what waits to something that does not write.
pub quiet-Inv :
    (facts : List Fact) (m : Main) (k l : ℕ) (w : Option Waiting)
    → ((a : ℕ) (c : TransferChunk) → w ≢ some (writing a c))
    → Inv facts m
    → Inv facts (record m { waiting = put k w m.waiting; next_waiting = l })
quiet-Inv facts m k l w quiet v =
    let old : (n a : ℕ) (c : TransferChunk)
        → put k w m.waiting n ≡ some (writing a c)
        → m.waiting n ≡ some (writing a c) =
      λ n a c h. elim (put-cases k n w (some (writing a c)) m.waiting h) [
        | inl (same, e) ↦ absurd (quiet a c e)
        | inr e ↦ e
      ] in
    record {
      objects = v.objects;
      stored = v.stored;
      writes = λ n a c h. v.writes n a c (old n a c h);
      alone = λ n i a c d h g. v.alone n i a c d (old n a c h) (old i a d g);
    }

-- An append of the next chunk, while no other is pending.
pub write-Inv :
    (facts : List Fact) (m : Main) (b : ℕ) (e : TransferChunk)
    → IsNext m.next_address m.transfers b e
    → IsFree b m
    → Inv facts m
    → Inv facts (wait (writing b e) m)
write-Inv facts m b e next free v =
    let k = m.next_waiting in
    let put_cases : (n a : ℕ) (c : TransferChunk)
        → put k (some (writing b e)) m.waiting n ≡ some (writing a c)
        → ((k ≡ n) × (some (writing b e) ≡ some (writing a c)))
          ⊎ (m.waiting n ≡ some (writing a c)) =
      λ n a c h. put-cases k n _ _ m.waiting h in
    record {
      objects = v.objects;
      stored = v.stored;
      writes = λ n a c h. elim (put_cases n a c h) [
        | inl (_, g) ↦
            let same_a : b ≡ a = cc g in let same_c : e ≡ c = cc g in rw (← same_a, ← same_c) next
        | inr g ↦ v.writes n a c g
      ];
      alone = λ n i a c d h g. elim (put_cases n a c h) [
        | inl (x, p) ↦ elim (put_cases i a d g) [
          | inl (y, q) ↦ cc
          | inr q ↦ let same_a : b ≡ a = cc p in absurd (free i d (rw (← same_a) at q))
        ]
        | inr p ↦ elim (put_cases i a d g) [
          | inl (y, q) ↦ let same_a : b ≡ a = cc q in absurd (free n c (rw (← same_a) at p))
          | inr q ↦ v.alone n i a c d p q
        ]
      ];
    }

pub forget-Inv : (facts : List Fact) (m : Main) (j : Str) → Inv facts m → Inv facts (forget j m)
forget-Inv facts m j v = record {
  objects = v.objects;
  stored = λ id a h. elim (Bool-cases (str_beq j id)) [
    | inl y ↦ cc (rw (get-delete id j m.saves, y) at h)
    | inr n ↦ v.stored id a (rw (get-delete id j m.saves, n) at h)
  ];
  writes = v.writes;
  alone = v.alone;
}

-- A fact of another object changes nothing.
started-IsBacked :
    (facts : List Fact) (j : Str) (a b n : ℕ) (path : Str) (t : Transfer)
    → nat_beq a b ≡ false
    → IsBacked facts b t
    → IsBacked (started j a n path ∷ facts) b t
started-IsBacked facts j a b n path t ne k = record {
  order = rw ne k.order;
  count = rw ne k.count;
  bytes = rw ne k.bytes;
}

accepted-IsBacked :
    (facts : List Fact) (a b i : ℕ) (bytes : List ℕ) (t : Transfer)
    → nat_beq a b ≡ false
    → IsBacked facts b t
    → IsBacked (accepted a i bytes ∷ facts) b t
accepted-IsBacked facts a b i bytes t ne k = record {
  order = rw ne k.order;
  count = rw ne k.count;
  bytes = rw ne k.bytes;
}

begun : Str → TransferStart → Main → Main
begun path t m = record m {
  transfers = put m.next_address (opened path t) m.transfers;
  next_address = suc m.next_address;
  saves = JsMap.set t.transfer_id m.next_address m.saves;
}

pub begin_transfer-Inv :
    (facts : List Fact) (m : Main) (path : Str) (t : TransferStart)
    → Inv facts m
    → Inv
        (started t.transfer_id m.next_address t.size path ∷ facts)
        (begin_transfer (came path) t m).0
unfolding begin_transfer
begin_transfer-Inv facts m path t v =
    let x = m.next_address in
    record {
      objects =
          put-all (λ b u. IsBacked (started t.transfer_id x t.size path ∷ facts) b u) x _
            m.transfers
            (record {
              order = rw ((nat_beq_iff x x).1 refl) tt;
              count = rw ((nat_beq_iff x x).1 refl) refl;
              bytes = rw ((nat_beq_iff x x).1 refl) refl;
            })
            (λ b ne. started-IsBacked facts t.transfer_id x b t.size path _ ne (v.objects b));
      stored = λ id a h. elim (Bool-cases (str_beq t.transfer_id id)) [
        | inl y ↦
            let there : some x ≡ some a = rw (get-set id t.transfer_id x m.saves, y) at h in
            let same : x ≡ a = cc there in
            rw (← same)
              (record { start = rw (y, (nat_beq_iff x x).1 refl) refl; known = omega arith })
        | inr n ↦
            let old = v.stored id a (rw (get-set id t.transfer_id x m.saves, n) at h) in
            let lt : a < x = old.known in
            let ne : nat_beq x a ≡ false = ground arith in
            record { start = rw (n, ne) old.start; known = omega arith }
      ];
      writes = λ n a c h.
          let old = v.writes n a c h in
          let lt : a < x = old.known in
          let ne : nat_beq x a ≡ false = ground arith in
          record { index = rw ne old.index; known = omega arith };
      alone = v.alone;
    }

-- After a write to an object to which no other write is pending.
pub after_append-Inv :
    (facts : List Fact) (m : Main) (a : ℕ) (c : TransferChunk)
    → IsNext m.next_address m.transfers a c
    → IsFree a m
    → Inv facts m
    → Inv (accepted a c.index c.content ∷ facts) (after_append (came tt) a c m).0
unfolding after_append
after_append-Inv facts m a c next free v = record {
  objects =
      put-all (λ b u. IsBacked (accepted a c.index c.content ∷ facts) b u) a _ m.transfers
        (grown-IsBacked facts a c.index c.content (m.transfers a) next.index (v.objects a))
        (λ b ne. accepted-IsBacked facts a b c.index c.content _ ne (v.objects b));
  stored = λ id b h.
      let old = v.stored id b h in
      elim (Bool-cases (nat_beq a b)) [
        | inl y ↦
            let same : a ≡ b = (nat_beq_iff a b).0 y in
            record { start = rw (y, same) old.start; known = old.known }
        | inr n ↦ record { start = rw n old.start; known = old.known }
      ];
  writes = λ n b d h.
      let old = v.writes n b d h in
      elim (Bool-cases (nat_beq a b)) [
        | inl y ↦ let same : b ≡ a = cc ((nat_beq_iff a b).0 y) in absurd (free n d (rw same at h))
        | inr ne ↦ record { index = rw ne old.index; known = old.known }
      ];
  alone = v.alone;
}
