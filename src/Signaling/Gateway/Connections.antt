-- ===== src/Signaling/Gateway/Connections.antt =====
-- The limit on connections from one address: `handleConnection`, `handleDisconnect` and
-- `releaseClientAddress` of apps/server/src/signaling/signaling.gateway.ts.
use remote_controll_app.Prelude.{
  ℕ, suc, ◌+◌, ◌-◌, ◌≤◌, ◌≡◌, false, some, [], ◌∷◌, arith, if◌then◌else◌, ltb, Option-cases,
  Bool-cases, inl, inr,
}
use remote_controll_app.JsMap
use remote_controll_app.JsMap.{
  JsMap, Distinct, AllValues, AllValues-set, AllValues-get, AllValues-delete, get-set, get-delete,
  has-get, set-Distinct, delete-Distinct, delete-absent,
}
use remote_controll_app.Text.{Str, str_eq, str_beq, str_beq_iff, is_empty}
use remote_controll_app.Signaling.Gateway.{
  Gateway, Handshake, get_client_address, count_or, put_count, handle_connection, release_address,
  release_client_address, handle_disconnect,
}

-- How many clients hold the address.
abbrev pub holders : Str → JsMap Str Str → ℕ
holders a [] = 0
holders a ((id, b) ∷ m) = let rest = holders a m in if str_beq b a then suc rest else rest

abbrev pub NonEmpty : Str → Type 0
NonEmpty a = is_empty a ≡ false

-- The counters say how many clients hold each address, and none exceeds the limit.
pub record IsCounted (g : Gateway) : Type 0 where
  pub ids : Distinct g.address_by_id
  pub named : AllValues NonEmpty g.address_by_id
  pub exact : (a : Str) → count_or (JsMap.get a g.counts) 0 ≡ holders a g.address_by_id
  pub limited : (a : Str) → holders a g.address_by_id ≤ g.max_connections

holders-set :
    (a id b : Str) (m : JsMap Str Str)
    → JsMap.has id m ≡ false
    → holders a (JsMap.set id b m) ≡ (if str_beq b a then suc (holders a m) else holders a m)
unfolding JsMap.set JsMap.has
holders-set a id b [] h = ground arith
holders-set a id b ((j, c) ∷ m) h = ground (arith, holders-set a id b m)

holders-delete :
    (a id b : Str) (m : JsMap Str Str)
    → Distinct m
    → JsMap.get id m ≡ some b
    → holders a m
      ≡ (if str_beq b a then suc (holders a (JsMap.delete id m)) else holders a (JsMap.delete id m))
unfolding JsMap.delete JsMap.get
holders-delete a id b [] d h = cc
holders-delete a id b ((j, c) ∷ m) (new, d) h =
    ground (arith, holders-delete a id b m d, delete-absent id m, str_beq_iff j id)

-- An address is never the empty text, so a stored one is always released.
get_client_address-NonEmpty : (h : Handshake) → NonEmpty (get_client_address h)
unfolding get_client_address
get_client_address-NonEmpty h = ground arith

-- A connection of a client that has none keeps the counters of well counted addresses exact and
-- within the limit, admitted or not.
pub handle_connection-IsCounted :
    (id : Str) (h : Handshake) (g : Gateway)
    → JsMap.has id g.address_by_id ≡ false
    → IsCounted g
    → IsCounted (handle_connection id h g).0
unfolding handle_connection
handle_connection-IsCounted id h g new v =
    elim (Bool-cases
      (ltb g.max_connections (count_or (JsMap.get (get_client_address h) g.counts) 0 + 1))) [
        | inl full ↦ rw full v
        | inr free ↦ rw free (record {
          ids = set-Distinct id (get_client_address h) g.address_by_id v.ids;
          named =
              AllValues-set NonEmpty id (get_client_address h) g.address_by_id
                (get_client_address-NonEmpty h) v.named;
          exact = λ a. ground (
            arith,
            holders-set a id (get_client_address h) g.address_by_id new,
            get-set a (get_client_address h)
                (count_or (JsMap.get (get_client_address h) g.counts) 0 + 1) g.counts,
            v.exact a,
            str_beq_iff (get_client_address h) a,
          );
          limited = λ a. ground (
            arith,
            holders-set a id (get_client_address h) g.address_by_id new,
            v.exact a,
            v.limited a,
            str_beq_iff (get_client_address h) a,
          );
        })
      ]

get-put_count :
    (a b : Str) (n : ℕ) (m : JsMap Str ℕ)
    → count_or (JsMap.get b (put_count a n m)) 0
      ≡ (if str_beq a b then n else count_or (JsMap.get b m) 0)
get-put_count a b n m = ground (arith, get-set b a n m, get-delete b a m)

released_exact :
    (id a : Str) (g : Gateway)
    → JsMap.get id g.address_by_id ≡ some a
    → IsCounted g
    → (b : Str)
    → count_or (JsMap.get b (put_count a (count_or (JsMap.get a g.counts) 1 - 1) g.counts)) 0
      ≡ holders b (JsMap.delete id g.address_by_id)
released_exact id a g e v b =
    rw (get-put_count a b (count_or (JsMap.get a g.counts) 1 - 1) g.counts) (
      ground (
        arith,
        v.exact a,
        v.exact b,
        str_beq_iff a b,
        holders-delete b id a g.address_by_id v.ids e,
        Option-cases (JsMap.get a g.counts),
      ))

release_address-IsCounted :
    (id : Str) (a : Str) (g : Gateway)
    → JsMap.get id g.address_by_id ≡ some a
    → NonEmpty a
    → IsCounted g
    → IsCounted (release_address id (some a) g)
unfolding release_address
release_address-IsCounted id [] g e n v = cc
release_address-IsCounted id (c ∷ s) g e n v = record {
  ids = delete-Distinct id g.address_by_id v.ids;
  named = AllValues-delete NonEmpty id g.address_by_id v.named;
  exact = λ b. released_exact id (c ∷ s) g e v b;
  limited = λ b. ground (arith, holders-delete b id (c ∷ s) g.address_by_id v.ids e, v.limited b);
}

-- When a client goes, its address is released: the counters stay exact.
pub release_client_address-IsCounted :
    (id : Str) (g : Gateway) → IsCounted g → IsCounted (release_client_address id g)
unfolding release_client_address
release_client_address-IsCounted id g v = elim (Option-cases (JsMap.get id g.address_by_id)) [
  | inl e ↦ rw e (unfold release_address in v)
  | inr (a, e) ↦
      rw e (
        release_address-IsCounted id a g e (AllValues-get NonEmpty id a g.address_by_id e v.named)
          v)
]

-- A disconnection keeps the counters exact and within the limit.
pub handle_disconnect-IsCounted :
    (id : Str) (g : Gateway) → IsCounted g → IsCounted (handle_disconnect id g).0
unfolding handle_disconnect
handle_disconnect-IsCounted id g v =
    let r = release_client_address-IsCounted id g v in
    record { ids = r.ids; named = r.named; exact = r.exact; limited = r.limited }
