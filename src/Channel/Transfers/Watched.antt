-- ===== src/Channel/Transfers/Watched.antt =====
-- The map of active transfers in apps/desktop/src/renderer/src/webrtc/RemoteControlClient.ts: each has
-- its timer armed, and everything that refers to it goes by the id that the map has it under.
pub mod Steps
pub mod Turns
pub mod Runs
use remote_controll_app.Prelude.{
  ℕ, suc, ◌+◌, ◌≤◌, ◌<◌, ◌≡◌, ◌∙◌, ◌⊎◌, refl, sym, Bool, true, false, Option, none, some, List, [],
  ◌∷◌, ◌++◌, arith, nat_beq, nat_beq_iff, All, subst, ap, if◌then◌else◌, inl, inr, length,
  Bool-cases, if_ind,
}
use remote_controll_app.JsMap
use remote_controll_app.JsMap.{JsMap, get-delete, length-delete-le}
use remote_controll_app.Text.{Str, str_eq, str_beq, str_beq_iff}
use remote_controll_app.Channel.Transfers.{
  Chunk, Current, idle, starting, writing, Transfer, Phase, Completion, Client, Out, put,
  fail_found, fail_incoming_file_transfer_internal,
}
use remote_controll_app.Channel.Transfers.Events.{with_transfer, settle, reject}
use remote_controll_app.Channel.Transfers.Frames.{put-all}

-- What is under way goes by the id.
abbrev pub Goes : Str → Current → Type 0
Goes id idle = Unit
Goes id (starting j) = j ≡ id
Goes id (writing j i bytes) = j ≡ id

pub record IsOwned (id : Str) (t : Transfer) : Type 0 where
  pub timer : t.timer ≡ some id
  pub failed : t.failed ≡ false
  pub current : Goes id t.current
  pub queue : All (λ (k : Chunk). k.transfer_id ≡ id) t.queue

-- The transfers of the map, but for the one at `a`, which is under `id` if it is there.
abbrev pub Doubtful : ℕ → Str → JsMap Str ℕ → (ℕ → Transfer) → Type 0
Doubtful a id m f =
    (j : Str) (b : ℕ)
    → JsMap.get j m ≡ some b
    → (nat_beq a b ≡ true → (j ≡ id) × ((f b).failed ≡ false))
      × (nat_beq a b ≡ false → IsOwned j (f b))

-- The map is short; it and the completions refer to places in use; a completion refers to its
-- transfer by the id of the map.
pub record IsTidy (c : Client) : Type 0 where
  pub few : length c.incoming ≤ 4
  pub known : (id : Str) (a : ℕ) → JsMap.get id c.incoming ≡ some a → a < c.next_address
  pub ended :
      (n : ℕ) (k : Completion)
      → c.completions n ≡ some k
      → (k.address < c.next_address)
        × ((j : Str) → JsMap.get j c.incoming ≡ some k.address → j ≡ k.transfer_id)

abbrev pub AllOwned : Client → Type 0
AllOwned c = (id : Str) (a : ℕ) → JsMap.get id c.incoming ≡ some a → IsOwned id (c.transfers a)

-- An address has one id.
pub same_id :
    (c : Client) (i j : Str) (a : ℕ)
    → AllOwned c
    → JsMap.get i c.incoming ≡ some a
    → JsMap.get j c.incoming ≡ some a
    → i ≡ j
same_id c i j a owned p q =
    let e = (owned i a p).timer in let e' = (owned j a q).timer in cc (e, e')

kept_by_delete :
    (id j : Str) (a : ℕ) (m : JsMap Str ℕ)
    → JsMap.get j (JsMap.delete id m) ≡ some a
    → (JsMap.get j m ≡ some a) × (str_beq id j ≡ false)
kept_by_delete id j a m e = elim (Bool-cases (str_beq id j)) [
  | inl y ↦ absurd (cc (rw (get-delete j id m, y) at e))
  | inr n ↦ (rw (get-delete j id m, n) at e, n)
]

-- A shorter map.
pub shrunk-IsTidy :
    (id : Str) (f : ℕ → Transfer) (c : Client)
    → IsTidy c
    → IsTidy (record c { incoming = JsMap.delete id c.incoming; transfers = f })
shrunk-IsTidy id f c t = record {
  few = omega (arith, length-delete-le id c.incoming, t.few);
  known = λ j a e. t.known j a (kept_by_delete id j a c.incoming e).0;
  ended = λ n k e.
      let before = t.ended n k e in
      (before.0, λ j h. before.1 j (kept_by_delete id j k.address c.incoming h).0);
}

fail_found-IsTidy :
    (id : Str) (notify : Bool) (o : Option ℕ) (c : Client)
    → IsTidy c
    → IsTidy (fail_found id notify o c).0
unfolding fail_found
fail_found-IsTidy id notify none c t = t
fail_found-IsTidy id notify (some a) c t =
    if_ind (λ (r : Client × List Out). IsTidy r.0) (c.transfers a).failed _ _ (λ y. t)
      (λ n.
        shrunk-IsTidy id
          (put a (record (c.transfers a) { failed = true; timer = none }) c.transfers) c t)

pub fail-IsTidy :
    (id : Str) (notify : Bool) (c : Client)
    → IsTidy c
    → IsTidy (fail_incoming_file_transfer_internal id notify c).0
unfolding fail_incoming_file_transfer_internal
fail-IsTidy id notify c t = fail_found-IsTidy id notify (JsMap.get id c.incoming) c t

ids_differ : (id j : Str) (t : Transfer) → str_beq id j ≡ false → IsOwned id t → IsOwned j t → ⊥
ids_differ id j t n p q =
    let e = p.timer in
    let e' = q.timer in
    let same : id ≡ j = cc (e, e') in let yes = (str_beq_iff id j).1 same in cc (yes, n)

-- The transfer that is found is not failed, so it leaves the map.
removed-AllOwned :
    (a : ℕ) (id : Str) (b : ℕ) (t : Transfer) (c : Client)
    → JsMap.get id c.incoming ≡ some b
    → Doubtful a id c.incoming c.transfers
    → AllOwned (record c { incoming = JsMap.delete id c.incoming; transfers = put b t c.transfers })
removed-AllOwned a id b t c e doubt j d h =
    let (there, other) = kept_by_delete id j d c.incoming h in
    elim (Bool-cases (nat_beq a d)) [
      | inl y ↦ absurd (
          let same = ((doubt j d there).0 y).0 in
          let differ = str_beq_iff id j in ground (arith, same, other, differ))
      | inr n ↦
          let owned : IsOwned j (c.transfers d) = (doubt j d there).1 n in
          put-all (λ x u. nat_beq d x ≡ true → IsOwned j u) b t c.transfers
            (λ y.
              let at : d ≡ b = (nat_beq_iff d b).0 y in
              let mine : IsOwned id (c.transfers b) = (doubt id b e).1 (rw (← at) n) in
              absurd (
                ids_differ id j (c.transfers b) other mine
                  (subst (λ z. IsOwned j (c.transfers z)) at owned)))
            (λ x m y. subst (λ z. IsOwned j (c.transfers z)) ((nat_beq_iff d x).0 y) owned) d
            (ground arith)
    ]

fail_found-AllOwned :
    (a : ℕ) (id : Str) (notify : Bool) (o : Option ℕ) (c : Client)
    → JsMap.get id c.incoming ≡ o
    → Doubtful a id c.incoming c.transfers
    → AllOwned (fail_found id notify o c).0
unfolding fail_found
fail_found-AllOwned a id notify none c e doubt = λ j b h. elim (Bool-cases (nat_beq a b)) [
  | inl y ↦ let same = ((doubt j b h).0 y).0 in absurd (cc (e, h, same))
  | inr n ↦ (doubt j b h).1 n
]
fail_found-AllOwned a id notify (some b) c e doubt =
    if_ind (λ (r : Client × List Out). AllOwned r.0) (c.transfers b).failed _ _
      (λ y. elim (Bool-cases (nat_beq a b)) [
        | inl z ↦ let f = ((doubt id b e).0 z).1 in absurd (cc (y, f))
        | inr n ↦ let f = ((doubt id b e).1 n).failed in absurd (cc (y, f))
      ])
      (λ n.
        removed-AllOwned a id b (record (c.transfers b) { failed = true; timer = none }) c e doubt)

pub fail-AllOwned :
    (a : ℕ) (id : Str) (notify : Bool) (c : Client)
    → Doubtful a id c.incoming c.transfers
    → AllOwned (fail_incoming_file_transfer_internal id notify c).0
unfolding fail_incoming_file_transfer_internal
fail-AllOwned a id notify c doubt =
    fail_found-AllOwned a id notify (JsMap.get id c.incoming) c refl doubt

-- A transfer that is written keeps its owner.
pub place-AllOwned :
    (a : ℕ) (t : Transfer) (c : Client)
    → ((j : Str) → JsMap.get j c.incoming ≡ some a → IsOwned j (c.transfers a) → IsOwned j t)
    → AllOwned c
    → AllOwned (with_transfer a t c)
place-AllOwned a t c keep owned j b h =
    put-all (λ d u. JsMap.get j c.incoming ≡ some d → IsOwned j u) a t c.transfers
      (λ e. keep j e (owned j a e)) (λ d n e. owned j d e) b h

-- A transfer that is written before the failure of its id.
pub place-Doubtful :
    (a : ℕ) (id : Str) (t : Transfer) (c : Client)
    → ((j : Str)
        → JsMap.get j c.incoming ≡ some a
        → IsOwned j (c.transfers a)
        → (j ≡ id) × (t.failed ≡ false))
    → AllOwned c
    → Doubtful a id c.incoming (put a t c.transfers)
place-Doubtful a id t c keep owned j b h =
    put-all
      (λ d (u : Transfer).
        JsMap.get j c.incoming ≡ some d
        → (nat_beq a d ≡ true → (j ≡ id) × (u.failed ≡ false))
          × (nat_beq a d ≡ false → IsOwned j u))
      a t c.transfers (λ e. (λ y. keep j e (owned j a e), λ n. absurd (ground (arith, n))))
      (λ d n e. (λ y. absurd (cc (y, n)), λ m. owned j d e)) b h
