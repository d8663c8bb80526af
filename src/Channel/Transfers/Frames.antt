-- ===== src/Channel/Transfers/Frames.antt =====
-- What the operations on a transfer leave alone in
-- apps/desktop/src/renderer/src/webrtc/RemoteControlClient.ts.
use remote_controll_app.Prelude.{
  ℕ, ◌≤◌, ◌≡◌, ◌∙◌, ◌⊎◌, refl, Bool, true, Option, none, some, List, [], ◌∷◌, arith, nat_beq,
  Bool-cases, inl, inr, length,
}
pub use remote_controll_app.Prelude.{put-same, put-all}
use remote_controll_app.JsMap
use remote_controll_app.JsMap.{JsMap, get-delete}
use remote_controll_app.Text.{Str, str_eq, str_beq}
use remote_controll_app.Channel.Transfers.{
  Chunk, idle, Transfer, Client, clear_all, fail_found, fail_incoming_file_transfer_internal,
  fail_incoming_file_transfers,
}
use remote_controll_app.Channel.Transfers.Events.{with_transfer, reject, settle}

-- The same file, with the same write under way or none.
pub record IsLike (t t' : Transfer) : Type 0 where
  pub checksum : t'.checksum ≡ t.checksum
  pub size : t'.size ≡ t.size
  pub next : t'.next_chunk_index ≡ t.next_chunk_index
  pub received : t'.received_bytes ≡ t.received_bytes
  pub current : (t'.current ≡ t.current) ⊎ (t'.current ≡ idle)

pub IsLike-refl : (t : Transfer) → IsLike t t
IsLike-refl t = record {
  checksum = refl;
  size = refl;
  next = refl;
  received = refl;
  current = inl refl;
}

-- Writing the other fields, and the end of a write.
pub IsLike-flags :
    (t : Transfer) (failed is_rejected : Bool) (path timer : Option Str) (queue : List Chunk)
    (settled : ℕ)
    → IsLike t (record t {
      failed = failed;
      is_rejected = is_rejected;
      path = path;
      timer = timer;
      queue = queue;
      settled = settled;
    })
IsLike-flags t failed is_rejected path timer queue settled = record {
  checksum = refl;
  size = refl;
  next = refl;
  received = refl;
  current = inl refl;
}

pub IsLike-settled :
    (t : Transfer) (is_rejected : Bool) (path : Option Str) (queue : List Chunk)
    → IsLike t (record (settle t) { is_rejected = is_rejected; path = path; queue = queue })
IsLike-settled t is_rejected path queue = record {
  checksum = refl;
  size = refl;
  next = refl;
  received = refl;
  current = inr refl;
}

pub IsLike-trans : (t t' t'' : Transfer) → IsLike t t' → IsLike t' t'' → IsLike t t''
IsLike-trans t t' t'' p q = record {
  checksum = q.checksum ∙ p.checksum;
  size = q.size ∙ p.size;
  next = q.next ∙ p.next;
  received = q.received ∙ p.received;
  current = elim q.current [
    | inr i ↦ inr i
    | inl e ↦ elim p.current [ inl e' ↦ inl (e ∙ e') | inr i ↦ inr (e ∙ i) ]
  ];
}

-- Every file is as it was; no place that is not in use gets a queue; nothing enters the map.
pub record IsKept (c c' : Client) : Type 0 where
  pub like : (a : ℕ) → IsLike (c.transfers a) (c'.transfers a)
  pub unused :
      (a : ℕ) → c.next_address ≤ a → (c.transfers a).queue ≡ [] → (c'.transfers a).queue ≡ []
  pub known :
      (id : Str) (a : ℕ) → JsMap.get id c'.incoming ≡ some a → JsMap.get id c.incoming ≡ some a
  pub next : c'.next_address ≡ c.next_address
  pub completions : c'.completions ≡ c.completions

pub IsKept-refl : (c : Client) → IsKept c c
IsKept-refl c = record {
  like = λ a. IsLike-refl (c.transfers a);
  unused = λ a h e. e;
  known = λ id a e. e;
  next = refl;
  completions = refl;
}

pub IsKept-trans : (c c' c'' : Client) → IsKept c c' → IsKept c' c'' → IsKept c c''
IsKept-trans c c' c'' p q = record {
  like = λ a. IsLike-trans (c.transfers a) (c'.transfers a) (c''.transfers a) (p.like a) (q.like a);
  unused = λ a h e. q.unused a (omega (arith, p.next, h)) (p.unused a h e);
  known = λ id a e. p.known id a (q.known id a e);
  next = q.next ∙ p.next;
  completions = q.completions ∙ p.completions;
}

pub with_transfer-IsKept :
    (a : ℕ) (t : Transfer) (c : Client)
    → IsLike (c.transfers a) t
    → (c.next_address ≤ a → (c.transfers a).queue ≡ [] → t.queue ≡ [])
    → IsKept c (with_transfer a t c)
with_transfer-IsKept a t c l u = record {
  like =
      put-all (λ b t'. IsLike (c.transfers b) t') a t c.transfers l
        (λ b n. IsLike-refl (c.transfers b));
  unused =
      put-all (λ b t'. c.next_address ≤ b → (c.transfers b).queue ≡ [] → t'.queue ≡ []) a t
        c.transfers u (λ b n h e. e);
  known = λ id b e. e;
  next = refl;
  completions = refl;
}

get-delete-some :
    (id j : Str) (a : ℕ) (m : JsMap Str ℕ)
    → JsMap.get id (JsMap.delete j m) ≡ some a
    → JsMap.get id m ≡ some a
get-delete-some id j a m e = elim (Bool-cases (str_beq j id)) [
  | inl y ↦ cc (rw (get-delete id j m, y) at e)
  | inr n ↦ rw (get-delete id j m, n) at e
]

pub delete-IsKept :
    (id : Str) (c : Client) → IsKept c (record c { incoming = JsMap.delete id c.incoming })
delete-IsKept id c = record {
  like = λ a. IsLike-refl (c.transfers a);
  unused = λ a h e. e;
  known = λ j a e. get-delete-some j id a c.incoming e;
  next = refl;
  completions = refl;
}

fail_found-IsKept :
    (id : Str) (notify : Bool) (o : Option ℕ) (c : Client) → IsKept c (fail_found id notify o c).0
unfolding fail_found
fail_found-IsKept id notify none c = IsKept-refl c
fail_found-IsKept id notify (some a) c = elim (Bool-cases (c.transfers a).failed) [
  | inl y ↦ rw y (IsKept-refl c)
  | inr n ↦ rw n (
      IsKept-trans c _ _
        (with_transfer-IsKept a (record (c.transfers a) { failed = true; timer = none }) c
          (IsLike-flags (c.transfers a) true (c.transfers a).is_rejected (c.transfers a).path none
            (c.transfers a).queue (c.transfers a).settled)
          (λ h e. e))
        (delete-IsKept id
          (with_transfer a (record (c.transfers a) { failed = true; timer = none }) c)))
]

pub fail-IsKept :
    (id : Str) (notify : Bool) (c : Client)
    → IsKept c (fail_incoming_file_transfer_internal id notify c).0
unfolding fail_incoming_file_transfer_internal
fail-IsKept id notify c = fail_found-IsKept id notify (JsMap.get id c.incoming) c

pub reject-IsKept :
    (id : Str) (a : ℕ) (t : Transfer) (c : Client)
    → IsLike (c.transfers a) (record (settle t) { is_rejected = true })
    → (c.next_address ≤ a → (c.transfers a).queue ≡ [] → t.queue ≡ [])
    → IsKept c (reject id a t c).0
unfolding reject
reject-IsKept id a t c l u =
    IsKept-trans c _ _ (with_transfer-IsKept a (record (settle t) { is_rejected = true }) c l u)
      (fail-IsKept id true (with_transfer a (record (settle t) { is_rejected = true }) c))

clear_all-IsKept :
    (m : JsMap Str ℕ) (c : Client) → IsKept c (record c { transfers = clear_all m c.transfers })
clear_all-IsKept [] c = IsKept-refl c
clear_all-IsKept ((id, a) ∷ m) c =
    IsKept-trans c _ _
      (with_transfer-IsKept a (record (c.transfers a) { timer = none }) c
        (IsLike-flags (c.transfers a) (c.transfers a).failed (c.transfers a).is_rejected
          (c.transfers a).path none (c.transfers a).queue (c.transfers a).settled)
        (λ h e. e))
      (clear_all-IsKept m (with_transfer a (record (c.transfers a) { timer = none }) c))

empty-IsKept : (c : Client) → IsKept c (record c { incoming = [] })
unfolding JsMap.get
empty-IsKept c = record {
  like = λ a. IsLike-refl (c.transfers a);
  unused = λ a h e. e;
  known = λ id a e. cc e;
  next = refl;
  completions = refl;
}

pub interrupt-IsKept : (c : Client) → IsKept c (fail_incoming_file_transfers c).0
unfolding fail_incoming_file_transfers
interrupt-IsKept c = elim (Bool-cases (nat_beq (length c.incoming) 0)) [
  | inl y ↦ rw y (IsKept-refl c)
  | inr n ↦ rw n (
      IsKept-trans c _ _ (clear_all-IsKept c.incoming c)
        (empty-IsKept (record c { transfers = clear_all c.incoming c.transfers })))
]
