-- ===== src/Sessions/Touch.antt =====
-- `touchPeer` keeps the registry well formed.
use remote_controll_app.Prelude.{
  ℕ, ◌≡◌, refl, Option, none, some, [], ◌∷◌, arith, Option-cases, inl, inr,
}
use remote_controll_app.JsMap
use remote_controll_app.JsMap.{
  JsMap, Distinct, AllValues, AllValues-set, AllValues-get, length-set, get-has, set-Distinct,
}
use remote_controll_app.Text.{Str, str_eq, str_beq_iff}
use remote_controll_app.Sessions.{StoredPeer, Room, Sessions, room_or_new, lookup_peer, touch_peer}
use remote_controll_app.Sessions.Peers.{Keyed, find_role-get, total_peers-set}
use remote_controll_app.Sessions.Invariant.{IsRoom, IsValid, set-IsRoom, room_or_new-IsOpenRoom}

Keyed-get :
    (k : Str) (p : StoredPeer) (room : Room)
    → Keyed room
    → JsMap.get k room ≡ some p
    → p.peer.client_id ≡ k
unfolding JsMap.get
Keyed-get k p [] d g = cc
Keyed-get k p ((id, q) ∷ room) d g = ground (arith, Keyed-get k p room d.1, str_beq_iff id k)

get-room :
    (c : Str) (o : Option Room) (p : StoredPeer)
    → JsMap.get c (room_or_new o) ≡ some p
    → o ≡ some (room_or_new o)
unfolding JsMap.get
get-room c none p h = cc
get-room c (some room) p h = refl

module _ (id c : Str) (now : ℕ) (s : Sessions) (v : IsValid s) where
  touched-IsValid :
      (p : StoredPeer)
      → lookup_peer id c s.sessions ≡ some p
      → IsValid (record s {
        sessions =
            JsMap.set id
              (JsMap.set c
                (record p { last_seen_at = now })
                (room_or_new (JsMap.get id s.sessions)))
              s.sessions;
      })
  unfolding lookup_peer
  touched-IsValid p e =
      let stored : StoredPeer = record p { last_seen_at = now } in
      let room = room_or_new (JsMap.get id s.sessions) in
      let written = JsMap.set c stored room in
      let open' = room_or_new-IsOpenRoom s.max_peers_per_session id s.sessions v.rooms in
      let there = get-has id room s.sessions (get-room c (JsMap.get id s.sessions) p e) in
      let member = get-has c p room e in
      record {
        ids = set-Distinct id written s.sessions v.ids;
        rooms =
            AllValues-set (IsRoom s.max_peers_per_session) id written s.sessions
              (set-IsRoom s.max_peers_per_session c stored room (Keyed-get c p room open'.keyed e)
                (find_role-get c p room open'.keyed open'.roles e) (inl member) open')
              v.rooms;
        sessions = ground (arith, length-set id written s.sessions, there, v.sessions);
        total = ground (
          arith,
          total_peers-set id written s.sessions,
          length-set c stored room,
          member,
          v.total,
        );
        room = v.room;
      }

  -- A touch leaves a well formed registry well formed, whether the client is there or not.
  pub touch_peer-IsValid : IsValid (touch_peer id c now s).0
  unfolding touch_peer
  touch_peer-IsValid = elim (Option-cases (lookup_peer id c s.sessions)) [
    | inl e ↦ rw (e, touch_peer) v
    | inr (p, e) ↦ rw (e, touch_peer) (touched-IsValid p e)
  ]
