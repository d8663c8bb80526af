-- ===== src/Signaling/Gateway/Senders.antt =====
-- Who may send signals: the relaying handlers of apps/server/src/signaling/signaling.gateway.ts.
use remote_controll_app.Prelude.{◌≡◌, Option, none, some, List, [], ◌∷◌}
use remote_controll_app.Text.{Str, str_eq, lit}
use remote_controll_app.Value.{Value, get_optional}
use remote_controll_app.Sessions.{StoredPeer}
use remote_controll_app.Sessions.View.{view}
use remote_controll_app.Signaling.Payloads.{
  DescriptionPayload, CandidatePayload, sanitize_session_id, sanitize_optional_string, non_empty,
}
use remote_controll_app.Signaling.Gateway.{
  Gateway, Relay, ice_candidate, Out, emit, error, not_a_member,
}
use remote_controll_app.Signaling.Gateway.Relays.{send}

-- The session and the target that a payload names.
abbrev pub session_of : Value → Option Str
session_of payload = sanitize_session_id (get_optional payload (lit "sessionId"))

abbrev pub target_of : Value → Option Str
target_of payload =
    non_empty (sanitize_optional_string 128 (get_optional payload (lit "targetClientId")))

-- The outputs of a relaying handler, which made a signal of the payload or nothing.
pub data IsRelayed (g : Gateway) (id : Str) (payload : Value) (made : Option Relay)
    : List Out → Type 0 where
  malformed : made ≡ none → IsRelayed g id payload made (emit id (error not_a_member) ∷ [])
  stranger :
      (session_id : Str)
      → session_of payload ≡ some session_id
      → view g.sessions session_id id ≡ none
      → IsRelayed g id payload made (emit id (error not_a_member) ∷ [])
  sent :
      (session_id : Str) (relay : Relay) (p : StoredPeer)
      → session_of payload ≡ some session_id
      → made ≡ some relay
      → view g.sessions session_id id ≡ some p
      → IsRelayed g id payload made (send id session_id (target_of payload) relay)

-- What a sanitized payload says of its session and its target is what the payload says.
abbrev Names : Value → Str → Option Str → Type 0
Names payload session_id target =
    (session_of payload ≡ some session_id) × (target ≡ target_of payload)

-- What the sanitizers make of a payload.
abbrev pub made_description :
    (DescriptionPayload → Relay) → Option DescriptionPayload → Option Relay
made_description kind none = none
made_description kind (some p) = some (kind p)

abbrev pub made_candidate : Option CandidatePayload → Option Relay
made_candidate none = none
made_candidate (some p) = some (ice_candidate p)
