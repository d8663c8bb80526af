-- ===== src/Sessions/Removal.antt =====
-- Removing peers, by a leave or by expiry, keeps the registry well formed.
use remote_controll_app.Prelude.{
  ℕ, ◌≤◌, ◌≡◌, refl, false, [], ◌∷◌, arith, length, Option-cases, inl, inr,
}
use remote_controll_app.JsMap
use remote_controll_app.JsMap.{
  JsMap, Distinct, delete-Distinct, AllValues, AllValues-set, AllValues-get, length-set,
  length-delete-le, get-has, set-Distinct,
}
use remote_controll_app.Text.{Str, str_eq}
use remote_controll_app.Sessions.{
  Role, Room, Sessions, total_peers, put_room, remove_first, remove_peer,
}
use remote_controll_app.Sessions.Expiry.{live_room, live_sessions, remove_expired_peers}
use remote_controll_app.Sessions.Peers.{Keyed, NoRole, OnePerRole, OnePerRole-delete, Keyed-delete}
use remote_controll_app.Sessions.Invariant.{IsRoom, IsValid, IsOpenRoom}

delete-IsOpenRoom :
    (limit : ℕ) (k : Str) (room : Room) → IsRoom limit room → IsOpenRoom limit (JsMap.delete k room)
delete-IsOpenRoom limit k room r = record {
  ids = delete-Distinct k room r.ids;
  keyed = Keyed-delete k room r.keyed;
  roles = OnePerRole-delete k room r.roles;
  within = omega (arith, length-delete-le k room, r.within);
}

-- `m'` is a well-formed map of sessions with nothing that `m` has not.
record Shrunk (limit : ℕ) (m m' : JsMap Str Room) : Type 0 where
  ids : (j : Str) → JsMap.has j m ≡ false → JsMap.has j m' ≡ false
  distinct : Distinct m'
  rooms : AllValues (IsRoom limit) m'
  sessions : length m' ≤ length m
  total : total_peers m' ≤ total_peers m

Shrunk-IsValid :
    (s : Sessions) (m : JsMap Str Room)
    → IsValid s
    → Shrunk s.max_peers_per_session s.sessions m
    → IsValid (record s { sessions = m })
Shrunk-IsValid s m v h = record {
  ids = h.distinct;
  rooms = h.rooms;
  sessions = omega (arith, h.sessions, v.sessions);
  total = omega (arith, h.total, v.total);
  room = v.room;
}

Shrunk-nil : (limit : ℕ) → Shrunk limit [] []
Shrunk-nil limit = record {
  ids = λ j h. h;
  distinct = tt;
  rooms = tt;
  sessions = omega arith;
  total = omega arith;
}

-- One session keeps some of its peers, and later sessions may shrink.
Shrunk-cons :
    (limit : ℕ) (sid : Str) (room : Room) (m m' : JsMap Str Room) (room' : Room)
    → JsMap.has sid m ≡ false
    → IsOpenRoom limit room'
    → length room' ≤ length room
    → Shrunk limit m m'
    → Shrunk limit ((sid, room) ∷ m) (put_room sid room' m')
unfolding put_room total_peers JsMap.has
Shrunk-cons limit sid room m m' [] new r le h = record {
  ids = λ j n. ground (arith, h.ids j);
  distinct = h.distinct;
  rooms = h.rooms;
  sessions = omega (arith, h.sessions);
  total = omega (arith, h.total);
}
Shrunk-cons limit sid room m m' (p ∷ room') new r le h = record {
  ids = λ j n. ground (arith, h.ids j);
  distinct = (h.ids sid new, h.distinct);
  rooms = (
    record { ids = r.ids; keyed = r.keyed; roles = r.roles; used = omega arith; within = r.within },
    h.rooms,
  );
  sessions = omega (arith, h.sessions);
  total = omega (arith, h.total, le);
}

Shrunk-refl :
    (limit : ℕ) (m : JsMap Str Room) → Distinct m → AllValues (IsRoom limit) m → Shrunk limit m m
Shrunk-refl limit m d r = record {
  ids = λ j h. h;
  distinct = d;
  rooms = r;
  sessions = omega arith;
  total = omega arith;
}

-- A session that stays as it is.
Shrunk-keep :
    (limit : ℕ) (sid : Str) (room : Room) (m m' : JsMap Str Room)
    → JsMap.has sid m ≡ false
    → IsRoom limit room
    → Shrunk limit m m'
    → Shrunk limit ((sid, room) ∷ m) ((sid, room) ∷ m')
unfolding total_peers JsMap.has
Shrunk-keep limit sid room m m' new r h = record {
  ids = λ j n. ground (arith, h.ids j);
  distinct = (h.ids sid new, h.distinct);
  rooms = (r, h.rooms);
  sessions = omega (arith, h.sessions);
  total = omega (arith, h.total);
}

remove_first-Shrunk :
    (limit : ℕ) (c : Str) (m : JsMap Str Room)
    → Distinct m
    → AllValues (IsRoom limit) m
    → Shrunk limit m (remove_first c m).0
unfolding remove_first
remove_first-Shrunk limit c [] d r = Shrunk-nil limit
remove_first-Shrunk limit c ((sid, room) ∷ m) d r = elim (Option-cases (JsMap.get c room)) [
  | inl e ↦
      rw (e, remove_first)
        (Shrunk-keep limit sid room m _ d.0 r.0 (remove_first-Shrunk limit c m d.1 r.1))
  | inr (p, e) ↦
      rw (e, remove_first)
        (Shrunk-cons limit sid room m m (JsMap.delete c room) d.0
          (delete-IsOpenRoom limit c room r.0) (length-delete-le c room)
          (Shrunk-refl limit m d.1 r.1))
]

-- Removing a client leaves a well formed registry well formed, whether the client is there or not.
pub remove_peer-IsValid : (c : Str) (s : Sessions) → IsValid s → IsValid (remove_peer c s).0
unfolding remove_peer
remove_peer-IsValid c s v =
    Shrunk-IsValid s _ v (remove_first-Shrunk s.max_peers_per_session c s.sessions v.ids v.rooms)

-- What a filter on the time keeps of a room.
module _ (ttl now : ℕ) where
  has-live_room :
      (j : Str) (room : Room)
      → JsMap.has j room ≡ false
      → JsMap.has j (live_room ttl now room) ≡ false
  unfolding live_room JsMap.has
  has-live_room j [] h = refl
  has-live_room j ((id, p) ∷ room) h = ground (arith, has-live_room j room)

  live_room-NoRole : (r : Role) (room : Room) → NoRole r room → NoRole r (live_room ttl now room)
  unfolding live_room
  live_room-NoRole r [] h = tt
  live_room-NoRole r ((id, p) ∷ room) h = ground (arith, live_room-NoRole r room h.1)

  live_room-OnePerRole : (room : Room) → OnePerRole room → OnePerRole (live_room ttl now room)
  unfolding live_room
  live_room-OnePerRole [] h = tt
  live_room-OnePerRole ((id, p) ∷ room) h =
      ground (arith, live_room-OnePerRole room h.1, live_room-NoRole p.peer.role room h.0)

  live_room-Keyed : (room : Room) → Keyed room → Keyed (live_room ttl now room)
  unfolding live_room
  live_room-Keyed [] h = tt
  live_room-Keyed ((id, p) ∷ room) h = ground (arith, live_room-Keyed room h.1)

  live_room-Distinct : (room : Room) → Distinct room → Distinct (live_room ttl now room)
  unfolding live_room
  live_room-Distinct [] h = tt
  live_room-Distinct ((id, p) ∷ room) h =
      ground (arith, live_room-Distinct room h.1, has-live_room id room h.0)

  length-live_room : (room : Room) → length (live_room ttl now room) ≤ length room
  unfolding live_room
  length-live_room [] = omega arith
  length-live_room ((id, p) ∷ room) = ground (arith, length-live_room room)

  live_room-IsOpenRoom :
      (limit : ℕ) (room : Room) → IsRoom limit room → IsOpenRoom limit (live_room ttl now room)
  live_room-IsOpenRoom limit room r = record {
    ids = live_room-Distinct room r.ids;
    keyed = live_room-Keyed room r.keyed;
    roles = live_room-OnePerRole room r.roles;
    within = omega (arith, length-live_room room, r.within);
  }

  live_sessions-Shrunk :
      (limit : ℕ) (m : JsMap Str Room)
      → Distinct m
      → AllValues (IsRoom limit) m
      → Shrunk limit m (live_sessions ttl now m)
  unfolding live_sessions
  live_sessions-Shrunk limit [] d r = Shrunk-nil limit
  live_sessions-Shrunk limit ((sid, room) ∷ m) d r =
      Shrunk-cons limit sid room m _ (live_room ttl now room) d.0
        (live_room-IsOpenRoom limit room r.0) (length-live_room room)
        (live_sessions-Shrunk limit m d.1 r.1)

-- Expiry leaves a well formed registry well formed, whatever the time.
pub remove_expired_peers-IsValid :
    (now : ℕ) (s : Sessions) → IsValid s → IsValid (remove_expired_peers now s).0
unfolding remove_expired_peers
remove_expired_peers-IsValid now s v =
    Shrunk-IsValid s _ v
      (live_sessions-Shrunk s.peer_ttl_ms now s.max_peers_per_session s.sessions v.ids v.rooms)
