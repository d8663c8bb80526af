-- ===== src/Sessions.antt =====
-- apps/server/src/signaling/sessions.service.ts: the class `SessionsService`. The clock is an
-- argument, and a thrown `SessionCapacityError` is a value.
pub mod Expiry
pub mod Peers
pub mod Invariant
pub mod Removal
pub mod Touch
pub mod View
pub mod Leaving
pub mod Behaviour
mod Tests
use remote_controll_app.Prelude.{
  ℕ, ◌+◌, Bool, true, false, not, ◌&&◌, Option, none, some, List, [], ◌∷◌, map, Eq, ◌==◌,
  if◌then◌else◌, ltb, leb, length, keep, find,
}
use remote_controll_app.JsMap
use remote_controll_app.JsMap.{JsMap}
use remote_controll_app.Text.{Str, str_eq}

-- `PeerRole` of packages/shared/src/index.ts.
pub data Role : Type 0 where
  host viewer : Role

unfoldable pub role_beq : Role → Role → Bool
role_beq host host = true
role_beq viewer viewer = true
role_beq _ _ = false

-- `SessionPeer`
pub record Peer : Type 0 where
  pub client_id : Str
  pub role : Role
  pub display_name : Option Str

-- `StoredSessionPeer`
pub record StoredPeer : Type 0 where
  pub peer : Peer
  pub last_seen_at : ℕ

-- `RemovedSessionPeer`
pub record Membership : Type 0 where
  pub session_id : Str
  pub peer : Peer

abbrev pub Room : Type 0
Room = JsMap Str StoredPeer

-- The limits are read from the environment by `readPositiveInteger`.
pub record Sessions : Type 0 where
  pub sessions : JsMap Str Room
  pub max_sessions : ℕ
  pub max_peers_per_session : ℕ
  pub max_total_peers : ℕ
  pub peer_ttl_ms : ℕ

-- The four places where `assertCapacity` throws `SessionCapacityError`.
pub data CapacityError : Type 0 where
  session_limit role_taken peer_limit total_limit : CapacityError

-- `addPeer` returns the other peers, or throws.
pub data Added : Type 0 where
  ok : Sessions → List Peer → Added
  refused : CapacityError → Added

-- `toSessionPeer`
abbrev pub to_session_peer : StoredPeer → Peer
to_session_peer p = p.peer

-- `getTotalPeerCount`, which `getStats` also computes.
unfoldable pub total_peers : JsMap Str Room → ℕ
total_peers [] = 0
total_peers ((id, room) ∷ rest) = length room + total_peers rest

abbrev pub peers_of : Room → List StoredPeer
peers_of = map (λ entry. entry.1)

-- `.find((existingPeer) => existingPeer.role === peer.role)`
unfoldable pub find_role : Role → Room → Option StoredPeer
unfolding role_beq
find_role r [] = none
find_role r ((id, p) ∷ room) =
    let rest = find_role r room in if role_beq p.peer.role r then some p else rest

-- `sameRolePeer && sameRolePeer.clientId !== peer.clientId`
unfoldable pub is_other_peer : Str → Option StoredPeer → Bool
is_other_peer id none = false
is_other_peer id (some p) = not (p.peer.client_id == id)

-- The checks of `assertCapacity` on a session that is there.
check_room : Sessions → Room → Peer → Option CapacityError
unfolding find_role is_other_peer total_peers
check_room s room p =
    let replacing = JsMap.has p.client_id room in
    if is_other_peer p.client_id (find_role p.role room)
    then some role_taken
    else if not replacing && leb s.max_peers_per_session (length room)
    then some peer_limit
    else if not replacing && leb s.max_total_peers (total_peers s.sessions)
    then some total_limit
    else none

-- On a session that is not there: nothing is replaced and no role is taken.
check_new : Sessions → Option CapacityError
unfolding total_peers
check_new s =
    if leb s.max_sessions (length s.sessions)
    then some session_limit
    else if leb s.max_total_peers (total_peers s.sessions)
    then some total_limit
    else none

-- `assertCapacity`
unfoldable pub assert_capacity : Str → Peer → Sessions → Option CapacityError
unfolding check_room check_new
assert_capacity id p s = elim (JsMap.get id s.sessions) [
  | none ↦ check_new s
  | some room ↦ check_room s room p
]

-- `getOrCreateSession`: the session's map (the caller writes it back).
abbrev pub room_or_new : Option Room → Room
room_or_new none = []
room_or_new (some room) = room

-- `.filter((existingPeer) => existingPeer.clientId !== peer.clientId).map(toSessionPeer)`
unfoldable pub others : Str → Room → List Peer
others id [] = []
others id ((j, p) ∷ room) =
    let rest = others id room in if p.peer.client_id == id then rest else p.peer ∷ rest

-- The body of `addPeer` after the check.
unfoldable pub put_peer : Str → Peer → ℕ → JsMap Str Room → JsMap Str Room
put_peer id p now m =
    JsMap.set id
      (JsMap.set p.client_id (record { peer = p; last_seen_at = now })
        (room_or_new (JsMap.get id m)))
      m

unfoldable pub add_peer : Str → Peer → ℕ → Sessions → Added
unfolding assert_capacity put_peer others
add_peer id p now s = elim (assert_capacity id p s) [
  | some e ↦ refused e
  | none ↦
      let after = put_peer id p now s.sessions in
      ok (record s { sessions = after }) (others p.client_id (room_or_new (JsMap.get id after)))
]

-- Writing back a session's map: `this.sessions.delete(sessionId)` where it became empty.
unfoldable pub put_room : Str → Room → JsMap Str Room → JsMap Str Room
put_room id [] m = m
put_room id (p ∷ room) m = (id, p ∷ room) ∷ m

-- The loop of `removePeer`, which returns at the first session that has the client.
unfoldable pub remove_first : Str → JsMap Str Room → JsMap Str Room × Option Membership
unfolding put_room
remove_first c [] = ([], none)
remove_first c ((id, room) ∷ m) =
    let rest = remove_first c m in
    elim (JsMap.get c room) [
      | none ↦ ((id, room) ∷ rest.0, rest.1)
      | some p ↦
          (put_room id (JsMap.delete c room) m, some (record { session_id = id; peer = p.peer }))
    ]

unfoldable pub remove_peer : Str → Sessions → Sessions × Option Membership
unfolding remove_first
remove_peer c s = let r = remove_first c s.sessions in (record s { sessions = r.0 }, r.1)

-- The loop of `getPeer`.
unfoldable pub find_peer : Str → JsMap Str Room → Option Membership
find_peer c [] = none
find_peer c ((id, room) ∷ m) =
    let rest = find_peer c m in
    elim (JsMap.get c room) [
      | none ↦ rest
      | some p ↦ some (record { session_id = id; peer = p.peer })
    ]

unfoldable pub get_peer : Str → Sessions → Option Membership
unfolding find_peer
get_peer c s = find_peer c s.sessions

abbrev pub map_peer : Option StoredPeer → Option Peer
map_peer none = none
map_peer (some p) = some p.peer

unfoldable pub get_peer_by_role : Str → Role → Sessions → Option Peer
unfolding find_role
get_peer_by_role id r s = map_peer (find_role r (room_or_new (JsMap.get id s.sessions)))

-- `this.sessions.get(sessionId)?.get(clientId)`
unfoldable pub lookup_peer : Str → Str → JsMap Str Room → Option StoredPeer
lookup_peer id c m = JsMap.get c (room_or_new (JsMap.get id m))

-- `touchPeer`, and `hasPeer`, which is `touchPeer`.
unfoldable pub touch_peer : Str → Str → ℕ → Sessions → Sessions × Bool
unfolding lookup_peer
touch_peer id c now s = elim (lookup_peer id c s.sessions) [
  | none ↦ (s, false)
  | some p ↦ (
    record s {
      sessions =
          JsMap.set id
            (JsMap.set c (record p { last_seen_at = now }) (room_or_new (JsMap.get id s.sessions)))
            s.sessions;
    },
    true,
  )
]
