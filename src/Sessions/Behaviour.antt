-- ===== src/Sessions/Behaviour.antt =====
-- How the operations of the session registry work together.
use remote_controll_app.Prelude.{
  ℕ, ◌+◌, ◌≤◌, ◌≡◌, ◌≢◌, ap, some, List, [], ◌∷◌, arith, length, length-append, Option-cases, inl,
  inr, beq_refl,
}
use remote_controll_app.JsMap
use remote_controll_app.JsMap.{JsMap, Distinct}
use remote_controll_app.Text.{Str, str_eq, str_beq_iff}
use remote_controll_app.Sessions.{
  Peer, StoredPeer, Room, Sessions, ok, refused, role_taken, total_peers, room_or_new, find_role,
  is_other_peer, map_peer, check_room, assert_capacity, add_peer, get_peer_by_role, lookup_peer,
  touch_peer, put_room,
}
use remote_controll_app.Sessions.Expiry.{
  live_room, expired_in, live_sessions, expired_sessions, remove_expired_peers, get_stats,
}
use remote_controll_app.Sessions.Peers.{OnePerRole, role_beq_iff, get-NoRole}
use remote_controll_app.Sessions.Invariant.{IsValid, add_peer-IsValid, room_or_new-IsOpenRoom}
use remote_controll_app.Sessions.Touch.{touch_peer-IsValid}
use remote_controll_app.Sessions.View.{
  view, view-add_peer, view-touch_peer, view-remove_expired_peers,
}

-- Where roles are unique, the search by role finds the peer that is stored.
find_role_stored :
    (k : Str) (p : StoredPeer) (room : Room)
    → OnePerRole room
    → JsMap.get k room ≡ some p
    → find_role p.peer.role room ≡ some p
unfolding find_role JsMap.get
find_role_stored k p [] h g = cc
find_role_stored k p ((id, q) ∷ room) h g = ground (
  arith,
  find_role_stored k p room h.1,
  get-NoRole q.peer.role k p room h.0,
  role_beq_iff p.peer.role q.peer.role,
  role_beq_iff q.peer.role p.peer.role,
)

get_peer_by_role_stored :
    (id c : Str) (p : StoredPeer) (s : Sessions)
    → IsValid s
    → view s id c ≡ some p
    → get_peer_by_role id p.peer.role s ≡ some p.peer
unfolding get_peer_by_role view lookup_peer
get_peer_by_role_stored id c p s v h =
    let room = room_or_new (JsMap.get id s.sessions) in
    ap map_peer (
      find_role_stored c p room
        (room_or_new-IsOpenRoom s.max_peers_per_session id s.sessions v.rooms).roles h)

-- After a peer was added to a session of a well formed registry, it is the one that
-- `getPeerByRole` returns for its role.
pub get_peer_by_role-add_peer :
    (id : Str) (p : Peer) (now : ℕ) (s s' : Sessions) (ps : List Peer)
    → IsValid s
    → add_peer id p now s ≡ ok s' ps
    → get_peer_by_role id p.role s' ≡ some p
get_peer_by_role-add_peer id p now s s' ps v h =
    get_peer_by_role_stored id p.client_id (record { peer = p; last_seen_at = now }) s'
      (add_peer-IsValid id p now s v s' ps h)
      (rw (view-add_peer id p now s s' ps id p.client_id h, beq_refl id, beq_refl p.client_id))

check_room_role_taken :
    (id : Str) (p q : Peer) (now : ℕ) (s : Sessions) (room : Room)
    → JsMap.get id s.sessions ≡ some room
    → map_peer (find_role p.role room) ≡ some q
    → q.client_id ≢ p.client_id
    → add_peer id p now s ≡ refused role_taken
unfolding add_peer assert_capacity check_room is_other_peer
check_room_role_taken id p q now s room e h ne = ground (arith, str_beq_iff q.client_id p.client_id)

touch_peer-ttl :
    (id c : Str) (t : ℕ) (s : Sessions) → (touch_peer id c t s).0.peer_ttl_ms ≡ s.peer_ttl_ms
unfolding touch_peer
touch_peer-ttl id c t s = ground arith

-- A peer whose role another client holds in the session is refused.
add_peer_role_taken :
    (id : Str) (p q : Peer) (now : ℕ) (s : Sessions)
    → get_peer_by_role id p.role s ≡ some q
    → q.client_id ≢ p.client_id
    → add_peer id p now s ≡ refused role_taken
unfolding add_peer assert_capacity get_peer_by_role check_room is_other_peer find_role
add_peer_role_taken id p q now s h ne = elim (Option-cases (JsMap.get id s.sessions)) [
  | inl e ↦ cc (rw e at h)
  | inr (room, e) ↦ check_room_role_taken id p q now s room e (rw e at h) ne
]

-- A role is given away once: after a peer was added to a session of a well formed registry, another
-- client that asks for the same role of that session is refused, whatever the time, and the registry
-- holds the first peer in that role.
pub add_peer-add_peer :
    (id : Str) (p q : Peer) (now now' : ℕ) (s s' : Sessions) (ps : List Peer)
    → IsValid s
    → add_peer id p now s ≡ ok s' ps
    → q.role ≡ p.role
    → p.client_id ≢ q.client_id
    → (add_peer id q now' s' ≡ refused role_taken) × (get_peer_by_role id q.role s' ≡ some p)
add_peer-add_peer id p q now now' s s' ps v h same ne =
    let held : get_peer_by_role id q.role s' ≡ some p =
      rw same (get_peer_by_role-add_peer id p now s s' ps v h) in
    (add_peer_role_taken id q p now' s' held ne, held)

-- In a well formed registry, an entry that was touched survives every clean-up of the next
-- `peerTtlMs` milliseconds, with the time of the touch.
pub touched_survives :
    (id c : Str) (p : StoredPeer) (t now : ℕ) (s : Sessions)
    → IsValid s
    → view s id c ≡ some p
    → now ≤ t + s.peer_ttl_ms
    → view (remove_expired_peers now (touch_peer id c t s).0).0 id c
      ≡ some (record p { last_seen_at = t })
touched_survives id c p t now s v h fresh =
    rw
      (
        view-remove_expired_peers now (touch_peer id c t s).0 id c (touch_peer-IsValid id c t s v),
        view-touch_peer id c t s id c,
        beq_refl id,
        beq_refl c,
        h,
        touch_peer-ttl id c t s,
      )
      (ground arith)

-- Expiry counts: who is reported as removed is no longer counted as connected.
live_room-count :
    (ttl now : ℕ) (sid : Str) (room : Room)
    → length (live_room ttl now room) + length (expired_in ttl now sid room) ≡ length room
unfolding live_room expired_in
live_room-count ttl now sid [] = omega arith
live_room-count ttl now sid ((id, p) ∷ room) = ground (arith, live_room-count ttl now sid room)

total_peers-put_room :
    (sid : Str) (room : Room) (m : JsMap Str Room)
    → total_peers (put_room sid room m) ≡ length room + total_peers m
unfolding total_peers put_room
total_peers-put_room sid [] m = omega arith
total_peers-put_room sid (p ∷ room) m = omega arith

live_sessions-count :
    (ttl now : ℕ) (m : JsMap Str Room)
    → total_peers (live_sessions ttl now m) + length (expired_sessions ttl now m) ≡ total_peers m
unfolding live_sessions expired_sessions total_peers
live_sessions-count ttl now [] = omega arith
live_sessions-count ttl now ((sid, room) ∷ m) = omega (
  arith,
  live_sessions-count ttl now m,
  live_room-count ttl now sid room,
  total_peers-put_room sid (live_room ttl now room) (live_sessions ttl now m),
  length-append (expired_in ttl now sid room) (expired_sessions ttl now m),
)

-- The clients that are counted after expiry, and those that expiry reports, make up the clients
-- that were counted before.
pub get_stats-remove_expired_peers :
    (now : ℕ) (s : Sessions)
    → (get_stats (remove_expired_peers now s).0).connected_clients
        + length (remove_expired_peers now s).1
      ≡ (get_stats s).connected_clients
unfolding get_stats remove_expired_peers
get_stats-remove_expired_peers now s = live_sessions-count s.peer_ttl_ms now s.sessions
