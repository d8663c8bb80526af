-- ===== src/Signaling/Gateway/Relays.antt =====
-- The heartbeat, the shutdown announcement and the relaying of signals in
-- apps/server/src/signaling/signaling.gateway.ts.
use remote_controll_app.Prelude.{ℕ, Bool, Option, none, some, List, [], ◌∷◌, if◌then◌else◌, ◌==◌}
use remote_controll_app.Text.{Str, str_eq, lit}
use remote_controll_app.Value.{Value, get_optional}
use remote_controll_app.Sessions.{Role, host, viewer, Membership, get_peer, touch_peer}
use remote_controll_app.Signaling.Payloads.{
  ShutdownRequest, DescriptionPayload, CandidatePayload, sanitize_session_id,
  sanitize_shutdown_request, sanitize_description_payload, sanitize_candidate_payload,
}
use remote_controll_app.Signaling.Gateway.{
  Gateway, Relay, offer, answer, ice_candidate, Out, emit, emit_to_target, emit_to_others, signal,
  session_shutdown, error, not_a_member, only_host,
}

-- `touchPeer` on the gateway's registry.
abbrev pub touch : Str → Str → ℕ → Gateway → Gateway × Bool
touch session_id id now g =
    let (sessions', found) = touch_peer session_id id now g.sessions in
    (record g { sessions = sessions' }, found)

abbrev pub beat : Str → Option Str → ℕ → Gateway → Gateway
beat id none now g = g
beat id (some session_id) now g = (touch session_id id now g).0

unfoldable pub handle_heartbeat : Str → Value → ℕ → Gateway → Gateway
handle_heartbeat id payload now g =
    beat id (sanitize_session_id (get_optional payload (lit "sessionId"))) now g

abbrev pub not_member : Str → Gateway → Gateway × List Out
not_member id g = (g, emit id (error not_a_member) ∷ [])

abbrev pub announce : Str → Role → ShutdownRequest → Gateway → Gateway × List Out
announce id host request g =
    (g, emit_to_others id request.session_id (session_shutdown id request.reason) ∷ [])
announce id viewer request g = (g, emit id (error only_host) ∷ [])

abbrev pub shutdown :
    Str → Option ShutdownRequest → Option Membership → ℕ → Gateway → Gateway × List Out
shutdown id none mem now g = not_member id g
shutdown id (some request) none now g = not_member id g
shutdown id (some request) (some mem) now g =
    if mem.session_id == request.session_id
    then announce id mem.peer.role request (touch request.session_id id now g).0
    else not_member id g

-- `announceShutdown`
unfoldable pub announce_shutdown : Str → Value → ℕ → Gateway → Gateway × List Out
announce_shutdown id payload now g =
    shutdown id (sanitize_shutdown_request payload) (get_peer id g.sessions) now g

-- To the target if the payload names one, and else to the other members of the session.
abbrev pub send : Str → Str → Option Str → Relay → List Out
send id session_id none relay = emit_to_others id session_id (signal id relay) ∷ []
send id session_id (some target) relay = emit_to_target target (signal id relay) ∷ []

-- `relayDescription` and `relayIceCandidate`, after the payload was sanitized.
unfoldable pub relay_from : Str → Str → Option Str → Relay → ℕ → Gateway → Gateway × List Out
relay_from id session_id target relay now g =
    let (g', member) = touch session_id id now g in
    if member then (g', send id session_id target relay) else not_member id g'

abbrev pub relay_sanitized :
    Str → Option (Str × Option Str × Relay) → ℕ → Gateway → Gateway × List Out
relay_sanitized id none now g = not_member id g
relay_sanitized id (some (session_id, target, relay)) now g =
    relay_from id session_id target relay now g

abbrev pub described :
    (DescriptionPayload → Relay) → Option DescriptionPayload → Option (Str × Option Str × Relay)
described kind none = none
described kind (some p) = some (p.session_id, p.target_client_id, kind p)

abbrev pub with_candidate : Option CandidatePayload → Option (Str × Option Str × Relay)
with_candidate none = none
with_candidate (some p) = some (p.session_id, p.target_client_id, ice_candidate p)

unfoldable pub relay_offer : Str → Value → ℕ → Gateway → Gateway × List Out
unfolding relay_from
relay_offer id payload now g =
    relay_sanitized id (described offer (sanitize_description_payload payload)) now g

unfoldable pub relay_answer : Str → Value → ℕ → Gateway → Gateway × List Out
unfolding relay_from
relay_answer id payload now g =
    relay_sanitized id (described answer (sanitize_description_payload payload)) now g

unfoldable pub relay_ice_candidate : Str → Value → ℕ → Gateway → Gateway × List Out
unfolding relay_from
relay_ice_candidate id payload now g =
    relay_sanitized id (with_candidate (sanitize_candidate_payload payload)) now g
