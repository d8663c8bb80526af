-- ===== src/Sessions/Peers.antt =====
-- One session's map of peers: its size, its roles, and the total over all sessions.
use remote_controll_app.Prelude.{
  ◌+◌, ◌≤◌, ◌≡◌, refl, true, false, none, some, [], ◌∷◌, arith, length, Bool-cases, Option-cases,
  inl, inr, ◌↔◌, subst,
}
use remote_controll_app.JsMap
use remote_controll_app.JsMap.{JsMap, Distinct}
use remote_controll_app.Text.{Str, str_beq, str_eq, str_beq_iff}
use remote_controll_app.Sessions.{
  Role, host, viewer, role_beq, StoredPeer, Room, find_role, is_other_peer, total_peers,
  room_or_new,
}

pub role_beq_iff : (a b : Role) → (role_beq a b ≡ true) ↔ (a ≡ b)
unfolding role_beq
role_beq_iff host host = ground arith
role_beq_iff host viewer = ground arith
role_beq_iff viewer host = ground arith
role_beq_iff viewer viewer = ground arith

role_beq-sym : (a b : Role) → role_beq a b ≡ false → role_beq b a ≡ false
unfolding role_beq
role_beq-sym a b h = ground arith

-- Every entry is stored under the peer's own id.
abbrev pub Keyed : Room → Type 0
Keyed [] = Unit
Keyed ((id, p) ∷ room) = (p.peer.client_id ≡ id) × Keyed room

-- No peer of the room has the role.
abbrev pub NoRole : Role → Room → Type 0
NoRole r [] = Unit
NoRole r ((id, p) ∷ room) = (role_beq p.peer.role r ≡ false) × NoRole r room

-- At most one host and one viewer.
abbrev pub OnePerRole : Room → Type 0
OnePerRole [] = Unit
OnePerRole ((id, p) ∷ room) = NoRole p.peer.role room × OnePerRole room

find_role-NoRole : (r : Role) (room : Room) → find_role r room ≡ none → NoRole r room
unfolding find_role
find_role-NoRole r [] h = tt
find_role-NoRole r ((id, p) ∷ room) h = ground (arith, find_role-NoRole r room)

NoRole-delete : (r : Role) (k : Str) (room : Room) → NoRole r room → NoRole r (JsMap.delete k room)
unfolding JsMap.delete
NoRole-delete r k [] h = tt
NoRole-delete r k ((id, p) ∷ room) h = ground (arith, NoRole-delete r k room h.1)

pub OnePerRole-delete : (k : Str) (room : Room) → OnePerRole room → OnePerRole (JsMap.delete k room)
unfolding JsMap.delete
OnePerRole-delete k [] h = tt
OnePerRole-delete k ((id, p) ∷ room) h =
    ground (arith, OnePerRole-delete k room h.1, NoRole-delete p.peer.role k room h.0)

pub Keyed-delete : (k : Str) (room : Room) → Keyed room → Keyed (JsMap.delete k room)
unfolding JsMap.delete
Keyed-delete k [] h = tt
Keyed-delete k ((id, p) ∷ room) h = ground (arith, Keyed-delete k room h.1)

pub Keyed-set :
    (k : Str) (v : StoredPeer) (room : Room)
    → v.peer.client_id ≡ k
    → Keyed room
    → Keyed (JsMap.set k v room)
unfolding JsMap.set
Keyed-set k v [] e h = (e, tt)
Keyed-set k v ((id, p) ∷ room) e h = ground (arith, Keyed-set k v room e h.1, str_beq_iff id k)

-- Writing a peer whose role no other client holds.
NoRole-set :
    (r : Role) (k : Str) (v : StoredPeer) (room : Room)
    → role_beq v.peer.role r ≡ false
    → NoRole r room
    → NoRole r (JsMap.set k v room)
unfolding JsMap.set
NoRole-set r k v [] e h = (e, tt)
NoRole-set r k v ((id, p) ∷ room) e h = ground (arith, NoRole-set r k v room e h.1)

find_role-has :
    (r : Role) (room : Room) (q : StoredPeer)
    → Keyed room
    → find_role r room ≡ some q
    → JsMap.has q.peer.client_id room ≡ true
unfolding find_role JsMap.has
find_role-has r [] q d h = cc
find_role-has r ((id, p) ∷ room) q d h =
    ground (arith, find_role-has r room q d.1, str_beq_iff id q.peer.client_id)

-- A role that only `k` may hold is free in a room without `k`.
absent-NoRole :
    (k : Str) (r : Role) (room : Room)
    → Keyed room
    → JsMap.has k room ≡ false
    → is_other_peer k (find_role r room) ≡ false
    → NoRole r room
unfolding is_other_peer
absent-NoRole k r room d n f = elim (Option-cases (find_role r room)) [
  | inl e ↦ find_role-NoRole r room e
  | inr (q, e) ↦ ground (arith, find_role-has r room q d e, str_beq_iff q.peer.client_id k)
]

role_beq-NoRole : (a b : Role) (room : Room) → role_beq a b ≡ true → NoRole a room → NoRole b room
role_beq-NoRole a b room e h = subst (λ r. NoRole r room) ((role_beq_iff a b).0 e) h

-- If nobody but the client `k` holds `v`'s role, the write keeps one peer for each role.
pub OnePerRole-set :
    (k : Str) (v : StoredPeer) (room : Room)
    → v.peer.client_id ≡ k
    → Keyed room
    → Distinct room
    → is_other_peer k (find_role v.peer.role room) ≡ false
    → OnePerRole room
    → OnePerRole (JsMap.set k v room)
unfolding JsMap.set find_role is_other_peer
OnePerRole-set k v [] e d n f h = (tt, tt)
OnePerRole-set k v ((id, p) ∷ room) e d n f h = elim (Bool-cases (str_beq id k)) [
  | inl hit ↦ elim (Bool-cases (role_beq p.peer.role v.peer.role)) [
    | inl same ↦ rw hit (role_beq-NoRole p.peer.role v.peer.role room same h.0, h.1)
    | inr differ ↦ rw hit (
      absent-NoRole k v.peer.role room d.1 (rw (← (str_beq_iff id k).0 hit) n.0) (rw differ at f),
      h.1,
    )
  ]
  | inr miss ↦ elim (Bool-cases (role_beq p.peer.role v.peer.role)) [
    | inl same ↦ ground (arith, str_beq_iff id k, str_beq_iff p.peer.client_id k, d.0)
    | inr differ ↦ rw miss (
      NoRole-set p.peer.role k v room (role_beq-sym p.peer.role v.peer.role differ) h.0,
      OnePerRole-set k v room e d.1 n.1 (rw differ at f) h.1,
    )
  ]
]

pub get-NoRole :
    (r : Role) (k : Str) (p : StoredPeer) (room : Room)
    → NoRole r room
    → JsMap.get k room ≡ some p
    → role_beq p.peer.role r ≡ false
unfolding JsMap.get
get-NoRole r k p [] h g = cc
get-NoRole r k p ((id, q) ∷ room) h g = ground (arith, get-NoRole r k p room h.1)

-- A stored peer is the only one of its role.
pub find_role-get :
    (k : Str) (p : StoredPeer) (room : Room)
    → Keyed room
    → OnePerRole room
    → JsMap.get k room ≡ some p
    → is_other_peer k (find_role p.peer.role room) ≡ false
unfolding JsMap.get find_role is_other_peer
find_role-get k p [] d h g = refl
find_role-get k p ((id, q) ∷ room) d h g = ground (
  arith,
  str_beq_iff id k,
  str_beq_iff q.peer.client_id k,
  role_beq_iff p.peer.role q.peer.role,
  role_beq_iff q.peer.role p.peer.role,
  get-NoRole q.peer.role k p room h.0,
  find_role-get k p room d.1 h.1,
)

-- Writing one session's map changes the total by the difference of the sizes.
pub total_peers-set :
    (id : Str) (room : Room) (m : JsMap Str Room)
    → total_peers (JsMap.set id room m) + length (room_or_new (JsMap.get id m))
      ≡ total_peers m + length room
unfolding total_peers JsMap.set JsMap.get
total_peers-set id room [] = omega arith
total_peers-set id room ((j, r) ∷ m) = ground (arith, total_peers-set id room m)

pub length-get-le :
    (id : Str) (m : JsMap Str Room) → length (room_or_new (JsMap.get id m)) ≤ total_peers m
unfolding total_peers JsMap.get
length-get-le id [] = omega arith
length-get-le id ((j, r) ∷ m) = ground (arith, length-get-le id m)
