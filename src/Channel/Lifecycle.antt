-- ===== src/Channel/Lifecycle.antt =====
-- The life cycle of a session: `reduceSessionLifecycleState` of
-- apps/desktop/src/renderer/src/webrtc/RemoteControlClient.ts.
use remote_controll_app.Prelude.{
  ◌≡◌, refl, ◌∙◌, Bool, true, false, List, [], ◌∷◌, Option, none, some,
}

-- `SessionLifecycleState`; the first of `signaling_connected` is a state, the second an event.
pub data State : Type 0 where
  idle signaling_connecting signaling_connected joining_session session_joined peer_connecting
        peer_connected recovering disconnected :
      State

-- `SessionLifecycleEvent`
pub data Event : Type 0 where
  connect_requested on_signaling_connected join_requested join_succeeded peer_announced
        webrtc_connected recovery_started peer_reset on_disconnected :
      Event

abbrev pub when_announced : State → State
when_announced peer_connected = peer_connected
when_announced _ = peer_connecting

abbrev pub when_reset : State → State
when_reset disconnected = disconnected
when_reset _ = session_joined

unfoldable pub reduce_session_lifecycle_state : State → Event → State
reduce_session_lifecycle_state current on_disconnected = disconnected
reduce_session_lifecycle_state current connect_requested = signaling_connecting
reduce_session_lifecycle_state current on_signaling_connected = signaling_connected
reduce_session_lifecycle_state current join_requested = joining_session
reduce_session_lifecycle_state current join_succeeded = session_joined
reduce_session_lifecycle_state current peer_announced = when_announced current
reduce_session_lifecycle_state current webrtc_connected = peer_connected
reduce_session_lifecycle_state current recovery_started = recovering
reduce_session_lifecycle_state current peer_reset = when_reset current

-- The state of a new client after the events, the newest first.
unfoldable pub run : List Event → State
unfolding reduce_session_lifecycle_state
run [] = idle
run (e ∷ es) = reduce_session_lifecycle_state (run es) e

-- Specification: the last event other than announcements of the peer, or than resets.
abbrev pub last_but_announced : List Event → Option Event
last_but_announced [] = none
last_but_announced (peer_announced ∷ es) = last_but_announced es
last_but_announced (e ∷ es) = some e

abbrev pub last_but_reset : List Event → Option Event
last_but_reset [] = none
last_but_reset (peer_reset ∷ es) = last_but_reset es
last_but_reset (e ∷ es) = some e

abbrev pub is_peer_connected : State → Bool
is_peer_connected peer_connected = true
is_peer_connected _ = false

abbrev pub is_disconnected : State → Bool
is_disconnected disconnected = true
is_disconnected _ = false

abbrev pub was_connected : Option Event → Bool
was_connected (some webrtc_connected) = true
was_connected _ = false

abbrev pub was_disconnected : Option Event → Bool
was_disconnected (some on_disconnected) = true
was_disconnected _ = false

announced_keeps : (s : State) → is_peer_connected (when_announced s) ≡ is_peer_connected s
announced_keeps idle = refl
announced_keeps signaling_connecting = refl
announced_keeps signaling_connected = refl
announced_keeps joining_session = refl
announced_keeps session_joined = refl
announced_keeps peer_connecting = refl
announced_keeps peer_connected = refl
announced_keeps recovering = refl
announced_keeps disconnected = refl

reset_keeps : (s : State) → is_disconnected (when_reset s) ≡ is_disconnected s
reset_keeps idle = refl
reset_keeps signaling_connecting = refl
reset_keeps signaling_connected = refl
reset_keeps joining_session = refl
reset_keeps session_joined = refl
reset_keeps peer_connecting = refl
reset_keeps peer_connected = refl
reset_keeps recovering = refl
reset_keeps disconnected = refl

announced_ends : (s : State) → is_disconnected (when_announced s) ≡ false
announced_ends idle = refl
announced_ends signaling_connecting = refl
announced_ends signaling_connected = refl
announced_ends joining_session = refl
announced_ends session_joined = refl
announced_ends peer_connecting = refl
announced_ends peer_connected = refl
announced_ends recovering = refl
announced_ends disconnected = refl

reset_ends : (s : State) → is_peer_connected (when_reset s) ≡ false
reset_ends idle = refl
reset_ends signaling_connecting = refl
reset_ends signaling_connected = refl
reset_ends joining_session = refl
reset_ends session_joined = refl
reset_ends peer_connecting = refl
reset_ends peer_connected = refl
reset_ends recovering = refl
reset_ends disconnected = refl

-- A client counts as connected to its peer exactly when the connection came up last, announcements of
-- the peer aside; and as disconnected exactly when a disconnection came last, resets of the peer aside.
pub run-last :
    (es : List Event)
    → (is_peer_connected (run es) ≡ was_connected (last_but_announced es))
      × (is_disconnected (run es) ≡ was_disconnected (last_but_reset es))
unfolding run reduce_session_lifecycle_state
run-last [] = (refl, refl)
run-last (on_disconnected ∷ es) = (refl, refl)
run-last (connect_requested ∷ es) = (refl, refl)
run-last (on_signaling_connected ∷ es) = (refl, refl)
run-last (join_requested ∷ es) = (refl, refl)
run-last (join_succeeded ∷ es) = (refl, refl)
run-last (peer_announced ∷ es) =
    (announced_keeps (run es) ∙ (run-last es).0, announced_ends (run es))
run-last (webrtc_connected ∷ es) = (refl, refl)
run-last (recovery_started ∷ es) = (refl, refl)
run-last (peer_reset ∷ es) = (reset_ends (run es), reset_keeps (run es) ∙ (run-last es).1)
