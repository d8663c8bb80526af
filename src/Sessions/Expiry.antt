-- ===== src/Sessions/Expiry.antt =====
-- `removeExpiredPeers` and `getStats` of apps/server/src/signaling/sessions.service.ts.
use remote_controll_app.Prelude.{ℕ, ◌+◌, Bool, List, [], ◌∷◌, ◌++◌, if◌then◌else◌, ltb, length}
use remote_controll_app.JsMap.{JsMap}
use remote_controll_app.Text.{Str}
use remote_controll_app.Sessions.{StoredPeer, Membership, Room, Sessions, put_room, total_peers}

-- `now - peer.lastSeenAt <= this.peerTtlMs` does not hold.
abbrev pub is_expired : ℕ → ℕ → StoredPeer → Bool
is_expired ttl now p = ltb (p.last_seen_at + ttl) now

-- The inner loop: what stays of a session's map, and what is removed from it.
unfoldable pub live_room : ℕ → ℕ → Room → Room
live_room ttl now [] = []
live_room ttl now ((id, p) ∷ room) =
    let rest = live_room ttl now room in if is_expired ttl now p then rest else (id, p) ∷ rest

unfoldable pub expired_in : ℕ → ℕ → Str → Room → List Membership
expired_in ttl now sid [] = []
expired_in ttl now sid ((id, p) ∷ room) =
    let rest = expired_in ttl now sid room in
    if is_expired ttl now p then record { session_id = sid; peer = p.peer } ∷ rest else rest

-- The outer loop.
unfoldable pub live_sessions : ℕ → ℕ → JsMap Str Room → JsMap Str Room
unfolding live_room put_room
live_sessions ttl now [] = []
live_sessions ttl now ((sid, room) ∷ m) =
    put_room sid (live_room ttl now room) (live_sessions ttl now m)

unfoldable pub expired_sessions : ℕ → ℕ → JsMap Str Room → List Membership
unfolding expired_in
expired_sessions ttl now [] = []
expired_sessions ttl now ((sid, room) ∷ m) =
    expired_in ttl now sid room ++ expired_sessions ttl now m

unfoldable pub remove_expired_peers : ℕ → Sessions → Sessions × List Membership
unfolding live_sessions expired_sessions
remove_expired_peers now s = (
  record s { sessions = live_sessions s.peer_ttl_ms now s.sessions },
  expired_sessions s.peer_ttl_ms now s.sessions,
)

-- `getStats`
pub record Stats : Type 0 where
  pub connected_clients : ℕ
  pub active_sessions : ℕ

unfoldable pub get_stats : Sessions → Stats
unfolding total_peers
get_stats s = record {
  connected_clients = total_peers s.sessions;
  active_sessions = length s.sessions;
}
