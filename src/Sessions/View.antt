-- ===== src/Sessions/View.antt =====
-- The registry as its clients see it: who is stored in which session. Each operation is a simple
-- update of that view.
use remote_controll_app.Prelude.{
  ℕ, ◌≡◌, refl, false, ◌&&◌, Option, none, some, List, [], ◌∷◌, arith, if◌then◌else◌, Bool-cases,
  Option-cases, inl, inr,
}
use remote_controll_app.JsMap
use remote_controll_app.JsMap.{
  JsMap, Distinct, AllValues, get-set, get-delete, has-get, delete-Distinct,
}
use remote_controll_app.Text.{Str, str_eq, str_beq, str_beq_iff}
use remote_controll_app.Sessions.{
  Peer, StoredPeer, Room, Sessions, ok, room_or_new, put_room, put_peer, lookup_peer, add_peer,
  assert_capacity, touch_peer,
}
use remote_controll_app.Sessions.Expiry.{is_expired, live_room, live_sessions, remove_expired_peers}
use remote_controll_app.Sessions.Invariant.{IsValid, room_or_new-IsOpenRoom}

-- What expiry leaves of an entry, and what a touch makes of it.
abbrev pub unless_expired : ℕ → ℕ → Option StoredPeer → Option StoredPeer
unless_expired ttl now none = none
unless_expired ttl now (some p) = if is_expired ttl now p then none else some p

abbrev pub touched : ℕ → Option StoredPeer → Option StoredPeer
touched now none = none
touched now (some p) = some (record p { last_seen_at = now })

-- The entry of a client in a session.
unfoldable pub view : Sessions → Str → Str → Option StoredPeer
view s id c = lookup_peer id c s.sessions

lookup-set :
    (id c id' c' : Str) (p : StoredPeer) (m : JsMap Str Room)
    → lookup_peer id' c' (JsMap.set id (JsMap.set c p (room_or_new (JsMap.get id m))) m)
      ≡ (if str_beq id id' && str_beq c c' then some p else lookup_peer id' c' m)
unfolding lookup_peer
lookup-set id c id' c' p m = elim (Bool-cases (str_beq id id')) [
  | inl hit ↦
      rw
        (
          get-set id' id (JsMap.set c p (room_or_new (JsMap.get id m))) m,
          hit,
          get-set c' c p (room_or_new (JsMap.get id m)),
          ← (str_beq_iff id id').0 hit,
        )
        refl
  | inr miss ↦ rw (get-set id' id (JsMap.set c p (room_or_new (JsMap.get id m))) m, miss) refl
]

-- A peer that `addPeer` admits is stored with the time of the call, and no other entry changes.
pub view-add_peer :
    (id : Str) (p : Peer) (now : ℕ) (s s' : Sessions) (ps : List Peer) (id' c' : Str)
    → add_peer id p now s ≡ ok s' ps
    → view s' id' c' ≡ (
        if str_beq id id' && str_beq p.client_id c'
        then some (record { peer = p; last_seen_at = now })
        else view s id' c')
unfolding view add_peer
view-add_peer id p now s s' ps id' c' h = elim (Option-cases (assert_capacity id p s)) [
  | inl e ↦
      let same : record s { sessions = put_peer id p now s.sessions } ≡ s' =
        cc (rw (e, add_peer) at h) in
      rw (← same) (
        unfold put_peer in
        lookup-set id p.client_id id' c' (record { peer = p; last_seen_at = now }) s.sessions)
  | inr (err, e) ↦ cc (rw (e, add_peer) at h)
]

lookup_absent :
    (id c id' c' : Str) (m : JsMap Str Room)
    → lookup_peer id c m ≡ none
    → lookup_peer id' c' m ≡ (if str_beq id id' && str_beq c c' then none else lookup_peer id' c' m)
lookup_absent id c id' c' m e = ground (arith, str_beq_iff id id', str_beq_iff c c')

-- A touch sets the time of the entry that it names, if there is one, and changes no other.
pub view-touch_peer :
    (id c : Str) (now : ℕ) (s : Sessions) (id' c' : Str)
    → view (touch_peer id c now s).0 id' c'
      ≡ (if str_beq id id' && str_beq c c' then touched now (view s id c) else view s id' c')
unfolding view touch_peer
view-touch_peer id c now s id' c' = elim (Option-cases (lookup_peer id c s.sessions)) [
  | inl e ↦ rw (e, touch_peer) (lookup_absent id c id' c' s.sessions e)
  | inr (p, e) ↦
      rw (e, touch_peer) (lookup-set id c id' c' (record p { last_seen_at = now }) s.sessions)
]

pub room-put_room :
    (id sid : Str) (room : Room) (m : JsMap Str Room)
    → JsMap.has sid m ≡ false
    → room_or_new (JsMap.get id (put_room sid room m))
      ≡ (if str_beq sid id then room else room_or_new (JsMap.get id m))
unfolding put_room JsMap.get
room-put_room id sid [] m new = ground (arith, str_beq_iff sid id, has-get sid m new)
room-put_room id sid (p ∷ room) m new = ground arith

module _ (ttl now : ℕ) where
  has-live_room-absent :
      (c : Str) (room : Room)
      → JsMap.has c room ≡ false
      → JsMap.get c (live_room ttl now room) ≡ none
  unfolding live_room JsMap.has JsMap.get
  has-live_room-absent c [] h = refl
  has-live_room-absent c ((id, p) ∷ room) h = ground (arith, has-live_room-absent c room)

  get-live_room :
      (c : Str) (room : Room)
      → Distinct room
      → JsMap.get c (live_room ttl now room) ≡ unless_expired ttl now (JsMap.get c room)
  unfolding live_room JsMap.get
  get-live_room c [] d = refl
  get-live_room c ((id, p) ∷ room) d =
      ground (arith, get-live_room c room d.1, has-live_room-absent c room, str_beq_iff id c, d.0)

  has-put_room :
      (id sid : Str) (room : Room) (m : JsMap Str Room)
      → str_beq sid id ≡ false
      → JsMap.has id m ≡ false
      → JsMap.has id (put_room sid room m) ≡ false
  unfolding put_room JsMap.has
  has-put_room id sid [] m ne h = h
  has-put_room id sid (p ∷ room) m ne h = rw (ne, h)

  has-live_sessions :
      (id : Str) (m : JsMap Str Room)
      → JsMap.has id m ≡ false
      → JsMap.has id (live_sessions ttl now m) ≡ false
  unfolding live_sessions JsMap.has
  has-live_sessions id [] h = refl
  has-live_sessions id ((sid, room) ∷ m) h =
      has-put_room id sid (live_room ttl now room) _ (ground arith)
        (has-live_sessions id m (ground arith))

  room-live_sessions :
      (id : Str) (m : JsMap Str Room)
      → Distinct m
      → room_or_new (JsMap.get id (live_sessions ttl now m))
        ≡ live_room ttl now (room_or_new (JsMap.get id m))
  unfolding live_sessions JsMap.get
  room-live_sessions id [] d = unfold live_room in refl
  room-live_sessions id ((sid, room) ∷ m) d =
      rw
        (room-put_room id sid (live_room ttl now room) (live_sessions ttl now m)
          (has-live_sessions sid m d.0))
        (ground (arith, room-live_sessions id m d.1))

pub rooms-Distinct :
    (id : Str) (s : Sessions) → IsValid s → Distinct (room_or_new (JsMap.get id s.sessions))
rooms-Distinct id s v = (room_or_new-IsOpenRoom s.max_peers_per_session id s.sessions v.rooms).ids

-- In a well formed registry, expiry removes exactly the entries that were last seen more than
-- the limit before the time of the call.
pub view-remove_expired_peers :
    (now : ℕ) (s : Sessions) (id c : Str)
    → IsValid s
    → view (remove_expired_peers now s).0 id c ≡ unless_expired s.peer_ttl_ms now (view s id c)
unfolding view remove_expired_peers lookup_peer
view-remove_expired_peers now s id c v =
    rw (room-live_sessions s.peer_ttl_ms now id s.sessions v.ids) (
      get-live_room s.peer_ttl_ms now c (room_or_new (JsMap.get id s.sessions))
        (rooms-Distinct id s v))
