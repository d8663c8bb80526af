-- ===== src/Sessions/Invariant.antt =====
-- The well-formedness of the session registry, and that every operation keeps it.
use remote_controll_app.Prelude.{
  ℕ, suc, ◌≤◌, ◌≡◌, refl, subst, true, false, none, List, [], ◌∷◌, arith, length, Option-cases, inl,
  inr, ◌⊎◌,
}
use remote_controll_app.JsMap
use remote_controll_app.JsMap.{
  JsMap, Distinct, set-Distinct, delete-Distinct, AllValues, AllValues-set, AllValues-get,
  AllValues-delete, length-set, length-delete-le, get-has, get-none-has, has-get,
}
use remote_controll_app.Text.{Str, str_eq}
use remote_controll_app.Sessions.{
  Peer, StoredPeer, Room, Sessions, ok, find_role, is_other_peer, total_peers, room_or_new,
  check_room, check_new, assert_capacity, put_peer, add_peer,
}
use remote_controll_app.Sessions.Peers.{
  Keyed, OnePerRole, OnePerRole-set, Keyed-set, total_peers-set,
}

-- One session: no client twice, each under its own id, one peer to a role, never empty, and within
-- the limit.
pub record IsRoom (limit : ℕ) (room : Room) : Type 0 where
  pub ids : Distinct room
  pub keyed : Keyed room
  pub roles : OnePerRole room
  pub used : 1 ≤ length room
  pub within : length room ≤ limit

pub record IsValid (s : Sessions) : Type 0 where
  pub ids : Distinct s.sessions
  pub rooms : AllValues (IsRoom s.max_peers_per_session) s.sessions
  pub sessions : length s.sessions ≤ s.max_sessions
  pub total : total_peers s.sessions ≤ s.max_total_peers
  pub room : 1 ≤ s.max_peers_per_session

-- What a passed check says of the session's map, new or not.
record Passed (id : Str) (p : Peer) (s : Sessions) : Type 0 where
  role :
      is_other_peer p.client_id (find_role p.role (room_or_new (JsMap.get id s.sessions))) ≡ false
  peers :
      (JsMap.has p.client_id (room_or_new (JsMap.get id s.sessions)) ≡ true)
      ⊎ ((suc (length (room_or_new (JsMap.get id s.sessions))) ≤ s.max_peers_per_session)
          × (suc (total_peers s.sessions) ≤ s.max_total_peers))
  sessions : (JsMap.has id s.sessions ≡ true) ⊎ (suc (length s.sessions) ≤ s.max_sessions)

check_room-none :
    (s : Sessions) (room : Room) (p : Peer)
    → check_room s room p ≡ none
    → (is_other_peer p.client_id (find_role p.role room) ≡ false)
      × ((JsMap.has p.client_id room ≡ true)
          ⊎ ((suc (length room) ≤ s.max_peers_per_session)
              × (suc (total_peers s.sessions) ≤ s.max_total_peers)))
unfolding check_room
check_room-none s room p h = ground arith

check_new-none :
    (s : Sessions)
    → check_new s ≡ none
    → (suc (length s.sessions) ≤ s.max_sessions)
      × (suc (total_peers s.sessions) ≤ s.max_total_peers)
unfolding check_new
check_new-none s h = ground arith

passed :
    (id : Str) (p : Peer) (s : Sessions) → IsValid s → assert_capacity id p s ≡ none → Passed id p s
unfolding assert_capacity find_role is_other_peer JsMap.has
passed id p s v h = elim (Option-cases (JsMap.get id s.sessions)) [
  | inl e ↦
      let (n, t) = check_new-none s (rw (e, assert_capacity) at h) in
      record { role = rw e; peers = rw e (inr (v.room, t)); sessions = inr n }
  | inr (room, e) ↦
      let (r, c) = check_room-none s room p (rw (e, assert_capacity) at h) in
      record { role = rw e r; peers = rw e c; sessions = inl (get-has id room s.sessions e) }
]

-- The map of a session, new or not, has all but the two bounds on its size.
pub record IsOpenRoom (limit : ℕ) (room : Room) : Type 0 where
  pub ids : Distinct room
  pub keyed : Keyed room
  pub roles : OnePerRole room
  pub within : length room ≤ limit

pub room_or_new-IsOpenRoom :
    (limit : ℕ) (id : Str) (m : JsMap Str Room)
    → AllValues (IsRoom limit) m
    → IsOpenRoom limit (room_or_new (JsMap.get id m))
room_or_new-IsOpenRoom limit id m h = elim (Option-cases (JsMap.get id m)) [
  | inl e ↦ rw e (record { ids = tt; keyed = tt; roles = tt; within = omega arith })
  | inr (room, e) ↦
      let r = AllValues-get (IsRoom limit) id room m e h in
      rw e (record { ids = r.ids; keyed = r.keyed; roles = r.roles; within = r.within })
]

length-set-pos : (k : Str) (v : StoredPeer) (room : Room) → 1 ≤ length (JsMap.set k v room)
unfolding JsMap.set
length-set-pos k v [] = omega arith
length-set-pos k v ((j, w) ∷ room) = ground arith

-- Writing a peer into a session's map, where its role is free and there is room for it.
pub set-IsRoom :
    (limit : ℕ) (k : Str) (v : StoredPeer) (room : Room)
    → v.peer.client_id ≡ k
    → is_other_peer k (find_role v.peer.role room) ≡ false
    → (JsMap.has k room ≡ true) ⊎ (suc (length room) ≤ limit)
    → IsOpenRoom limit room
    → IsRoom limit (JsMap.set k v room)
set-IsRoom limit k v room e free fits r = record {
  ids = set-Distinct k v room r.ids;
  keyed = Keyed-set k v room e r.keyed;
  roles = OnePerRole-set k v room e r.keyed r.ids free r.roles;
  used = length-set-pos k v room;
  within = ground (arith, length-set k v room, r.within);
}

module _ (id : Str) (p : Peer) (now : ℕ) (s : Sessions) (v : IsValid s) where
  put_peer-IsValid : Passed id p s → IsValid (record s { sessions = put_peer id p now s.sessions })
  unfolding put_peer
  put_peer-IsValid free =
      let stored : StoredPeer = record { peer = p; last_seen_at = now } in
      let room = room_or_new (JsMap.get id s.sessions) in
      let written = JsMap.set p.client_id stored room in
      record {
        ids = set-Distinct id written s.sessions v.ids;
        rooms =
            AllValues-set (IsRoom s.max_peers_per_session) id written s.sessions
              (set-IsRoom s.max_peers_per_session p.client_id stored room refl free.role
                (ground (arith, free.peers))
                (room_or_new-IsOpenRoom s.max_peers_per_session id s.sessions v.rooms))
              v.rooms;
        sessions = ground (arith, length-set id written s.sessions, free.sessions, v.sessions);
        total = ground (
          arith,
          total_peers-set id written s.sessions,
          length-set p.client_id stored room,
          free.peers,
          v.total,
        );
        room = v.room;
      }

  -- A peer that is added leaves a well formed registry well formed.
  pub add_peer-IsValid :
      (s' : Sessions) (ps : List Peer) → add_peer id p now s ≡ ok s' ps → IsValid s'
  unfolding add_peer
  add_peer-IsValid s' ps h = elim (Option-cases (assert_capacity id p s)) [
    | inl e ↦
        let same : record s { sessions = put_peer id p now s.sessions } ≡ s' =
          cc (rw (e, add_peer) at h) in
        subst IsValid same (put_peer-IsValid (passed id p s v e))
    | inr (err, e) ↦ cc (rw (e, add_peer) at h)
  ]
