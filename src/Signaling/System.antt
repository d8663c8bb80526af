-- ===== src/Signaling/System.antt =====
-- The gateway with the handlers that wait: every order in which the event loop may run the
-- handlers of apps/server/src/signaling/signaling.gateway.ts and resume them after an `await`.
pub mod Evidence
pub mod Trust
pub mod Segments
pub mod Handlers
pub mod Authorization
use remote_controll_app.Prelude.{ℕ, ◌≡◌, Bool, true, false, Option, none, some, List, [], ◌∷◌, ◌++◌}
use remote_controll_app.Text.{Str, str_eq}
use remote_controll_app.Value.{Value}
use remote_controll_app.Signaling.Payloads.{JoinPayload, sanitize_join_payload}
use remote_controll_app.Signaling.Gateway.{
  Gateway, Handshake, get_client_address, Out, handle_connection, handle_disconnect,
  cleanup_expired_peers, cleanup_expired_approvals,
}
use remote_controll_app.Signaling.Gateway.Join.{
  Phase, await_settings, await_password, await_approval, await_leave, await_room, finished, Ack,
  join_session, address_or, after_settings, after_password, after_approval, after_leave, after_room,
}
use remote_controll_app.Signaling.Gateway.Relays.{
  handle_heartbeat, announce_shutdown, relay_offer, relay_answer, relay_ice_candidate,
}
use remote_controll_app.JsMap

-- The handlers that run without an `await`. `ticks` is the timer of `onModuleInit`.
pub data Action : Type 0 where
  connects : Str → Handshake → Action
  disconnects : Str → Action
  heartbeats shuts_down offers answers sends_candidate : Str → Value → Action
  ticks : Action

unfoldable pub tick : ℕ → Gateway → Gateway × List Out
tick now g =
    let (g', outs) = cleanup_expired_peers now g in (cleanup_expired_approvals now g', outs)

unfoldable pub act : Action → ℕ → Gateway → Gateway × List Out
unfolding tick
act (connects id h) now g = handle_connection id h g
act (disconnects id) now g = handle_disconnect id g
act (heartbeats id v) now g = (handle_heartbeat id v now g, [])
act (shuts_down id v) now g = announce_shutdown id v now g
act (offers id v) now g = relay_offer id v now g
act (answers id v) now g = relay_answer id v now g
act (sends_candidate id v) now g = relay_ice_candidate id v now g
act ticks now g = tick now g

-- What an awaited call comes back with.
pub data Answer : Type 0 where
  settings_read password_checked : Bool → Answer
  host_replied : Ack → Answer
  done : Answer

-- The segment after the `await`. An answer that the phase does not wait for changes nothing.
unfoldable pub resume :
    (Str → Bool) → Str → Phase → Answer → ℕ → Gateway → Gateway × Phase × List Out
resume connected id (await_settings p address) (settings_read require) now g =
    after_settings id p address require now g
resume connected id (await_password p address require) (password_checked accepted) now g =
    after_password connected id p address require accepted now g
resume connected id (await_approval p address asked) (host_replied ack) now g =
    after_approval id p address asked ack now g
resume connected id (await_leave p) done now g = after_leave id p now g
resume connected id (await_room p others) done now g = after_room id p others g
resume connected id phase answer now g = (g, phase, [])

-- What the surroundings said, and when. None of it is a decision of the gateway.
pub data Fact : Type 0 where
  attempted : Str → Str → Str → Fact
  approval_required : Str → Str → Bool → Fact
  password_accepted : Str → Str → Bool → ℕ → Fact
  host_acknowledged : Str → Str → Str → Ack → ℕ → Fact

-- The facts of an answer: client, (address,) session, what was answered.
unfoldable pub facts_of : Str → Phase → Answer → ℕ → List Fact
facts_of id (await_settings p address) (settings_read require) now =
    approval_required id p.session_id require ∷ []
facts_of id (await_password p address require) (password_checked accepted) now =
    password_accepted id p.session_id accepted now ∷ []
facts_of id (await_approval p address true) (host_replied ack) now =
    host_acknowledged id address p.session_id ack now ∷ []
facts_of id phase answer now = []

unfoldable pub facts_of_join : Str → Str → Option JoinPayload → List Fact
facts_of_join id address none = []
facts_of_join id address (some p) = attempted id address p.session_id ∷ []

pub record System : Type 0 where
  pub gateway : Gateway
  pub waiting : List (Str × Phase)
  pub log : List Fact

-- The address that a join of the client counts for.
abbrev pub join_address : Str → Handshake → Gateway → Str
join_address id h g = address_or (JsMap.get id g.address_by_id) (get_client_address h)

unfoldable pub start_join : Str → Handshake → Value → ℕ → System → System
unfolding facts_of_join
start_join id h payload now s =
    let (g', phase, outs) = join_session id payload (get_client_address h) now s.gateway in
    record {
      gateway = g';
      waiting = (id, phase) ∷ s.waiting;
      log = facts_of_join id (join_address id h s.gateway) (sanitize_join_payload payload) ++ s.log;
    }

-- One handler runs, or one handler that waits goes on. Any may be next. Which sockets are connected
-- when it goes on may be anything.
pub data Step : System → System → Type 0 where
  acts :
      (s : System) (a : Action) (now : ℕ) → Step s (record s { gateway = (act a now s.gateway).0 })
  joins :
      (s : System) (id : Str) (h : Handshake) (payload : Value) (now : ℕ)
      → Step s (start_join id h payload now s)
  resumes :
      (s : System) (before after : List (Str × Phase)) (id : Str) (phase : Phase) (answer : Answer)
      (connected : Str → Bool) (now : ℕ)
      → s.waiting ≡ before ++ (id, phase) ∷ after
      → Step s (record {
        gateway = (resume connected id phase answer now s.gateway).0;
        waiting = before ++ (id, (resume connected id phase answer now s.gateway).1) ∷ after;
        log = facts_of id phase answer now ++ s.log;
      })

pub data Reach (s : System) : System → Type 0 where
  here : Reach s s
  next : {t u : System} → Reach s t → Step t u → Reach s u
