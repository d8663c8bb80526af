-- ===== src/Signaling/Gateway/Join.antt =====
-- `joinSession` of apps/server/src/signaling/signaling.gateway.ts. The handler gives up the thread
-- at each `await`, where other handlers may run: it is cut there into segments, each of which runs
-- without interruption. A phase is a handler that waits, with the variables that it holds.
use remote_controll_app.Prelude.{
  ℕ, Bool, true, false, ◌&&◌, Option, none, some, List, [], ◌∷◌, ◌++◌, map, if◌then◌else◌,
}
use remote_controll_app.JsMap
use remote_controll_app.Text.{Str, str_eq}
use remote_controll_app.Value.{Value}
use remote_controll_app.RateLimit
use remote_controll_app.Sessions.{
  Role, host, viewer, Peer, Membership, Added, ok, refused, add_peer, remove_peer, get_peer_by_role,
}
use remote_controll_app.Signaling.Payloads.{JoinPayload, sanitize_join_payload}
use remote_controll_app.Signaling.Gateway.{
  Gateway, Refusal, invalid_join, too_many_joins, too_many_passwords, invalid_password,
  password_required, too_many_approvals, rejected_by_host, no_capacity, Out, emit, emit_to_others,
  join_room, leave_room, approval_request, session_joined, turn_config, error,
  cleanup_expired_peers, approval_key, is_recently_approved, mark_approved,
}

-- What the handler returns: nothing, the refusal that it also emitted (with `passwordRequired` or
-- not), or the client's id.
pub data Reply : Type 0 where
  nothing : Reply
  failed : Refusal → Bool → Reply
  joined : Str → Reply

pub data Phase : Type 0 where
  -- `await this.settings.getHostSettings()`
  await_settings : JoinPayload → Str → Phase
  -- `await this.settings.verifyHostPassword(...)`, with `settings.requireViewerApproval ?? true`
  await_password : JoinPayload → Str → Bool → Phase
  -- `await this.requestViewerApproval(...)`, and whether a host socket was asked
  await_approval : JoinPayload → Str → Bool → Phase
  -- `await client.leave(...)`
  await_leave : JoinPayload → Phase
  -- `await client.join(...)`, with the existing peers
  await_room : JoinPayload → List Peer → Phase
  finished : Reply → Phase

-- A refusal is emitted and returned.
abbrev pub refuse : Str → Refusal → Bool → Gateway → Gateway × Phase × List Out
refuse id r password_required' g =
    (g, finished (failed r password_required'), emit id (error r) ∷ [])

abbrev pub peer_of : Str → JoinPayload → Peer
peer_of id p = record { client_id = id; role = p.role; display_name = p.display_name }

-- From `this.sessions.addPeer(...)` to `await client.join(...)`.
abbrev pub after_add : Str → JoinPayload → Gateway → Added → Gateway × Phase × List Out
after_add id p g (refused e) = refuse id (no_capacity e) false g
after_add id p g (ok sessions' others) =
    (record g { sessions = sessions' }, await_room p others, join_room id p.session_id ∷ [])

unfoldable pub after_leave : Str → JoinPayload → ℕ → Gateway → Gateway × Phase × List Out
after_leave id p now g = after_add id p g (add_peer p.session_id (peer_of id p) now g.sessions)

-- From `this.sessions.removePeer(client.id)`: a previous room is left first.
abbrev pub after_remove :
    Str → JoinPayload → ℕ → Gateway → Option Membership → Gateway × Phase × List Out
after_remove id p now g none = after_leave id p now g
after_remove id p now g (some mem) = (g, await_leave p, leave_room id mem.session_id ∷ [])

unfoldable pub admit : Str → JoinPayload → ℕ → Gateway → Gateway × Phase × List Out
unfolding after_leave
admit id p now g =
    let (sessions', previous) = remove_peer id g.sessions in
    after_remove id p now (record g { sessions = sessions' }) previous

-- The end of the handler, after `await client.join(...)`.
unfoldable pub after_room : Str → JoinPayload → List Peer → Gateway → Gateway × Phase × List Out
after_room id p others g = (
  g,
  finished (joined id),
  emit id (turn_config g.ice_servers)
      ∷ (map (λ peer. emit id (session_joined peer)) others
          ++ emit_to_others id p.session_id (session_joined (peer_of id p)) ∷ []),
)

abbrev pub begin_role : Str → JoinPayload → Str → ℕ → Role → Gateway → Gateway × Phase × List Out
begin_role id p address now host g = admit id p now g
begin_role id p address now viewer g = (g, await_settings p address, [])

-- After the payload was accepted: the clean-up, and the limit on join attempts.
unfoldable pub attempt : Str → JoinPayload → Str → ℕ → Gateway → Gateway × Phase × List Out
unfolding admit cleanup_expired_peers
attempt id p address now g =
    let (swept, notices) = cleanup_expired_peers now g in
    let (limiter, allowed) = RateLimit.consume address now swept.join_limiter in
    let counted : Gateway = record swept { join_limiter = limiter } in
    let (g', phase, outs) =
      (if allowed
        then begin_role id p address now p.role counted
        else refuse id too_many_joins false counted) in
    (g', phase, notices ++ outs)

abbrev pub begin : Str → Option JoinPayload → Str → ℕ → Gateway → Gateway × Phase × List Out
begin id none address now g = (g, finished nothing, emit id (error invalid_join) ∷ [])
begin id (some p) address now g = attempt id p address now g

-- `getClientAddressForRateLimit`: the stored address, or that of the handshake.
abbrev pub address_or : Option Str → Str → Str
address_or none fallback = fallback
address_or (some a) fallback = a

-- The first segment; `fallback` is what `getClientAddress` makes of the handshake.
unfoldable pub join_session : Str → Value → Str → ℕ → Gateway → Gateway × Phase × List Out
unfolding attempt
join_session id payload fallback now g =
    begin id (sanitize_join_payload payload) (address_or (JsMap.get id g.address_by_id) fallback)
      now g

-- After `getHostSettings`.
unfoldable pub after_settings :
    Str → JoinPayload → Str → Bool → ℕ → Gateway → Gateway × Phase × List Out
after_settings id p address require now g =
    let (limiter, allowed) =
      RateLimit.is_allowed (approval_key address p.session_id) now g.password_limiter in
    let asked : Gateway = record g { password_limiter = limiter } in
    if allowed
    then (asked, await_password p address require, [])
    else refuse id too_many_passwords true asked

-- `joinPayload.password ? "Invalid server password" : "Server password required"`
abbrev pub password_refusal : Option Str → Refusal
password_refusal none = password_required
password_refusal (some []) = password_required
password_refusal (some (c ∷ s)) = invalid_password

-- `hostPeer` and `hostSocket`: the host of the session, if its socket is connected.
abbrev pub reachable_host : (Str → Bool) → Option Peer → Option Str
reachable_host connected none = none
reachable_host connected (some p) = if connected p.client_id then some p.client_id else none

abbrev pub ask_host : Str → JoinPayload → Str → Gateway → Option Str → Gateway × Phase × List Out
ask_host id p address g none = (g, await_approval p address false, [])
ask_host id p address g (some h) =
    (g, await_approval p address true, emit h (approval_request id) ∷ [])

-- Where no recent approval is found: the limit on requests, and the request.
unfoldable pub request_approval :
    (Str → Bool) → Str → JoinPayload → Str → ℕ → Gateway → Gateway × Phase × List Out
request_approval connected id p address now g =
    let (limiter, allowed) =
      RateLimit.consume (approval_key address p.session_id) now g.approval_limiter in
    let counted : Gateway = record g { approval_limiter = limiter } in
    if allowed
    then ask_host id p address counted
        (reachable_host connected (get_peer_by_role p.session_id host g.sessions))
    else refuse id too_many_approvals false counted

unfoldable pub check_recent :
    (Str → Bool) → Str → JoinPayload → Str → ℕ → Gateway → Gateway × Phase × List Out
unfolding admit request_approval is_recently_approved
check_recent connected id p address now g =
    let (checked, recent) = is_recently_approved (approval_key address p.session_id) now g in
    if recent then admit id p now checked else request_approval connected id p address now checked

-- After `verifyHostPassword`.
unfoldable pub after_password :
    (Str → Bool) → Str → JoinPayload → Str → Bool → Bool → ℕ → Gateway → Gateway × Phase × List Out
unfolding check_recent
after_password connected id p address require false now g =
    let key = approval_key address p.session_id in
    refuse id (password_refusal p.password) true
      (record g { password_limiter = RateLimit.record_event key now g.password_limiter })
after_password connected id p address require true now g =
    let key = approval_key address p.session_id in
    let cleared : Gateway = record g {
      password_limiter = RateLimit.reset key g.password_limiter;
    } in
    if require then check_recent connected id p address now cleared else admit id p now cleared

-- The host's acknowledgement: an error (no answer in time), or `response?.approved`.
pub data Ack : Type 0 where
  timed_out : Ack
  answered : Bool → Ack

abbrev pub is_approved : Bool → Ack → Bool
is_approved asked timed_out = false
is_approved asked (answered b) = asked && b

-- After `requestViewerApproval`.
unfoldable pub after_approval :
    Str → JoinPayload → Str → Bool → Ack → ℕ → Gateway → Gateway × Phase × List Out
unfolding admit mark_approved
after_approval id p address asked ack now g =
    if is_approved asked ack
    then admit id p now (mark_approved (approval_key address p.session_id) now g)
    else refuse id rejected_by_host false g
