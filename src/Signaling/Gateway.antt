-- ===== src/Signaling/Gateway.antt =====
-- The state of `SignalingGateway` in apps/server/src/signaling/signaling.gateway.ts, its
-- connections, and its clean-ups. What the code emits, and the rooms that it joins and leaves, are
-- a list of outputs. The clock is an argument.
pub mod Join
pub mod Relays
pub mod Connections
pub mod Senders
use remote_controll_app.Prelude.{
  ℕ, suc, ◌+◌, ◌-◌, Bool, true, false, not, Option, none, some, List, [], ◌∷◌, ◌++◌, map,
  if◌then◌else◌, leb, ltb,
}
use remote_controll_app.JsMap
use remote_controll_app.JsMap.{JsMap}
use remote_controll_app.Text.{Str, str_eq, lit, trim, split_head, is_empty}
use remote_controll_app.RateLimit
use remote_controll_app.RateLimit.{Limiter}
use remote_controll_app.Sessions.{Sessions, Peer, Membership, CapacityError, remove_peer}
use remote_controll_app.Sessions.Expiry.{remove_expired_peers}
use remote_controll_app.Signaling.Payloads.{DescriptionPayload, CandidatePayload}
use remote_controll_app.Signaling.Turn.{TurnCredentials}

pub record Gateway : Type 0 where
  pub sessions : Sessions
  pub address_by_id : JsMap Str Str
  pub counts : JsMap Str ℕ
  pub approved : JsMap Str ℕ
  pub join_limiter : Limiter Str
  pub password_limiter : Limiter Str
  pub approval_limiter : Limiter Str
  pub max_connections : ℕ
  pub approval_ttl_ms : ℕ
  pub ice_servers : List TurnCredentials

-- The texts of the `error` events.
pub data Refusal : Type 0 where
  too_many_connections invalid_join too_many_joins too_many_passwords : Refusal
  invalid_password password_required too_many_approvals rejected_by_host : Refusal
  no_capacity : CapacityError → Refusal
  not_a_member only_host : Refusal

pub data Relay : Type 0 where
  offer answer : DescriptionPayload → Relay
  ice_candidate : CandidatePayload → Relay

-- `ServerToClientEvents`; the approval request names the asking client.
pub data Event : Type 0 where
  approval_request session_left : Str → Event
  session_joined : Peer → Event
  session_shutdown : Str → Str → Event
  signal : Str → Relay → Event
  turn_config : List TurnCredentials → Event
  error : Refusal → Event

-- `client.emit`, `server.to(target).emit`, `server.to(room).emit`, `client.to(room).emit`,
-- `client.join(room)`, `client.leave(room)` and `client.disconnect(true)`. A room is named by its
-- session.
pub data Out : Type 0 where
  emit emit_to_target : Str → Event → Out
  emit_to_room : Str → Event → Out
  emit_to_others : Str → Str → Event → Out
  join_room leave_room : Str → Str → Out
  disconnect : Str → Out

-- The `x-forwarded-for` header.
pub data Forwarded : Type 0 where
  absent : Forwarded
  one : Str → Forwarded
  many : List Str → Forwarded

pub record Handshake : Type 0 where
  pub forwarded_for : Forwarded
  pub address : Str

abbrev pub first_forwarded : Forwarded → Str
first_forwarded absent = []
first_forwarded (one s) = s
first_forwarded (many []) = []
first_forwarded (many (s ∷ rest)) = s

-- `a || b`
abbrev pub or_else : Str → Str → Str
or_else [] t = t
or_else (c ∷ s) t = c ∷ s

-- `getClientAddress`; a missing address is the empty text.
unfoldable pub get_client_address : Handshake → Str
get_client_address h =
    let direct = or_else h.address (lit "unknown") in
    let forwarded = first_forwarded h.forwarded_for in
    if is_empty forwarded then direct else or_else (trim (split_head b',' forwarded)) direct

abbrev pub count_or {ℓ} : {A : Type ℓ} → Option A → A → A
count_or none d = d
count_or (some n) d = n

unfoldable pub handle_connection : Str → Handshake → Gateway → Gateway × List Out
handle_connection id h g =
    let address = get_client_address h in
    let next = count_or (JsMap.get address g.counts) 0 + 1 in
    if ltb g.max_connections next
    then (g, emit id (error too_many_connections) ∷ disconnect id ∷ [])
    else (
      record g {
        address_by_id = JsMap.set id address g.address_by_id;
        counts = JsMap.set address next g.counts;
      },
      [],
    )

-- The two ends of `releaseClientAddress`: the address has no connection left, or some.
abbrev pub put_count : Str → ℕ → JsMap Str ℕ → JsMap Str ℕ
put_count address n m = if leb n 0 then JsMap.delete address m else JsMap.set address n m

unfoldable pub release_address : Str → Option Str → Gateway → Gateway
release_address id none g = g
release_address id (some []) g = g
release_address id (some (c ∷ s)) g = record g {
  address_by_id = JsMap.delete id g.address_by_id;
  counts = put_count (c ∷ s) (count_or (JsMap.get (c ∷ s) g.counts) 1 - 1) g.counts;
}

unfoldable pub release_client_address : Str → Gateway → Gateway
unfolding release_address
release_client_address id g = release_address id (JsMap.get id g.address_by_id) g

abbrev pub left_notice : Option Membership → Str → List Out
left_notice none id = []
left_notice (some mem) id = emit_to_room mem.session_id (session_left id) ∷ []

unfoldable pub handle_disconnect : Str → Gateway → Gateway × List Out
unfolding release_client_address
handle_disconnect id g =
    let g' = release_client_address id g in
    let (sessions', removed) = remove_peer id g'.sessions in
    (record g' { sessions = sessions' }, left_notice removed id)

-- `cleanupExpiredPeers`
unfoldable pub cleanup_expired_peers : ℕ → Gateway → Gateway × List Out
cleanup_expired_peers now g =
    let (sessions', removed) = remove_expired_peers now g.sessions in
    (
      record g { sessions = sessions' },
      map (λ mem. emit_to_room mem.session_id (session_left mem.peer.client_id)) removed,
    )

abbrev pub live_approvals : ℕ → JsMap Str ℕ → JsMap Str ℕ
live_approvals now [] = []
live_approvals now ((key, expires) ∷ m) =
    let rest = live_approvals now m in if leb expires now then rest else (key, expires) ∷ rest

-- `cleanupExpiredApprovals`
unfoldable pub cleanup_expired_approvals : ℕ → Gateway → Gateway
cleanup_expired_approvals now g = record g { approved = live_approvals now g.approved }

-- `approvalCacheKey`, which is also the key of the password and approval limiters.
abbrev pub approval_key : Str → Str → Str
approval_key address session_id = address ++ b':' ∷ session_id

-- What `isRecentlyApproved` finds: nothing (or zero), an entry that is over, or a valid one.
unfoldable pub check_approval : Str → ℕ → Option ℕ → Gateway → Gateway × Bool
check_approval key now none g = (g, false)
check_approval key now (some expires) g =
    if leb expires 0
    then (g, false)
    else if leb expires now
    then (record g { approved = JsMap.delete key g.approved }, false)
    else (g, true)

unfoldable pub is_recently_approved : Str → ℕ → Gateway → Gateway × Bool
unfolding check_approval
is_recently_approved key now g = check_approval key now (JsMap.get key g.approved) g

-- `markApproved`
unfoldable pub mark_approved : Str → ℕ → Gateway → Gateway
mark_approved key now g = record g { approved = JsMap.set key (now + g.approval_ttl_ms) g.approved }

-- What the constructors read from the environment; `readPositiveInteger` makes each positive.
pub record Config : Type 0 where
  pub max_sessions : ℕ
  pub max_peers_per_session : ℕ
  pub max_total_peers : ℕ
  pub peer_ttl_ms : ℕ
  pub max_connections : ℕ
  pub approval_ttl_ms : ℕ
  pub join_attempts : ℕ
  pub join_window_ms : ℕ
  pub password_attempts : ℕ
  pub password_window_ms : ℕ
  pub approval_requests : ℕ
  pub approval_window_ms : ℕ

unfoldable pub init_sessions : Config → Sessions
init_sessions c = record {
  sessions = [];
  max_sessions = c.max_sessions;
  max_peers_per_session = c.max_peers_per_session;
  max_total_peers = c.max_total_peers;
  peer_ttl_ms = c.peer_ttl_ms;
}

unfoldable pub init_gateway : Config → List TurnCredentials → Gateway
unfolding init_sessions
init_gateway c ice = record {
  sessions = init_sessions c;
  address_by_id = [];
  counts = [];
  approved = [];
  join_limiter = RateLimit.init c.join_attempts c.join_window_ms;
  password_limiter = RateLimit.init c.password_attempts c.password_window_ms;
  approval_limiter = RateLimit.init c.approval_requests c.approval_window_ms;
  max_connections = c.max_connections;
  approval_ttl_ms = c.approval_ttl_ms;
  ice_servers = ice;
}

-- The values that stand in the source, used where the environment sets none.
abbrev pub default_config : Config
default_config = record {
  max_sessions = 256;
  max_peers_per_session = 2;
  max_total_peers = 512;
  peer_ttl_ms = 120000;
  max_connections = 16;
  approval_ttl_ms = 120000;
  join_attempts = 30;
  join_window_ms = 60000;
  password_attempts = 8;
  password_window_ms = 300000;
  approval_requests = 6;
  approval_window_ms = 60000;
}
