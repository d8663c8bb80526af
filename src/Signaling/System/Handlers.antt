-- ===== src/Signaling/System/Handlers.antt =====
-- Every handler, and every segment of a waiting one, keeps the gateway trustworthy.
use remote_controll_app.Prelude.{
  ℕ, ◌≡◌, refl, Bool, true, false, Option, none, some, List, [], ◌∷◌, arith, inl, inr, ◌==◌,
  Bool-cases,
}
use remote_controll_app.JsMap
use remote_controll_app.Text.{Str, str_eq, str_beq_iff}
use remote_controll_app.Sessions.{Role, host, viewer, Membership}
use remote_controll_app.Signaling.Payloads.{ShutdownRequest}
use remote_controll_app.Signaling.Gateway.{
  Gateway, Handshake, Relay, handle_connection, release_address, release_client_address,
  handle_disconnect, cleanup_expired_approvals, live_approvals,
}
use remote_controll_app.Signaling.Gateway.Join.{
  Phase, await_settings, await_password, await_approval, await_leave, await_room,
}
use remote_controll_app.Signaling.Gateway.Relays.{
  touch, beat, handle_heartbeat, announce, shutdown, announce_shutdown, relay_from, relay_sanitized,
  relay_offer, relay_answer, relay_ice_candidate,
}
use remote_controll_app.Signaling.System.{
  Action, connects, disconnects, heartbeats, shuts_down, offers, answers, sends_candidate, ticks,
  act, Answer, settings_read, password_checked, host_replied, done, resume, Fact, facts_of,
}
use remote_controll_app.Signaling.System.Evidence.{Recorded}
use remote_controll_app.Signaling.System.Trust.{
  IsGood, Justified, remove_peer-IsTrusted, touch_peer-IsTrusted,
}
use remote_controll_app.Signaling.System.Segments.{
  Keeps, IsGood-same, IsGood-sessions, after_leave-Keeps, after_settings-Keeps,
  after_password-Keeps, after_approval-Keeps, after_room-Keeps, cleanup-Good,
}

has-live_approvals :
    (now : ℕ) (k : Str) (m : JsMap.JsMap Str ℕ)
    → JsMap.has k m ≡ false
    → JsMap.has k (live_approvals now m) ≡ false
unfolding JsMap.has
has-live_approvals now k [] h = refl
has-live_approvals now k ((j, x) ∷ m) h = ground (arith, has-live_approvals now k m)

live_approvals-Distinct :
    (now : ℕ) (m : JsMap.JsMap Str ℕ) → JsMap.Distinct m → JsMap.Distinct (live_approvals now m)
live_approvals-Distinct now [] d = tt
live_approvals-Distinct now ((j, x) ∷ m) d =
    ground (arith, live_approvals-Distinct now m d.1, has-live_approvals now j m d.0)

get-live_approvals :
    (now : ℕ) (k : Str) (x : ℕ) (m : JsMap.JsMap Str ℕ)
    → JsMap.Distinct m
    → JsMap.get k (live_approvals now m) ≡ some x
    → JsMap.get k m ≡ some x
unfolding JsMap.get
get-live_approvals now k x [] d e = e
get-live_approvals now k x ((j, y) ∷ m) d e =
    ground (arith, get-live_approvals now k x m d.1, JsMap.get-has k x m, str_beq_iff j k, d.0)

-- Every listed fact is in the log.
abbrev pub IsIncluded : List Fact → List Fact → Type 0
IsIncluded [] log = Unit
IsIncluded (f ∷ fs) log = Recorded f log × IsIncluded fs log

module _ (ttl : ℕ) (log : List Fact) where
  -- The handlers without an `await`.
  touch-Good :
      (sid id : Str) (now : ℕ) (g : Gateway)
      → IsGood ttl log g
      → IsGood ttl log (touch sid id now g).0
  touch-Good sid id now g h =
      IsGood-sessions ttl log g _ h (touch_peer-IsTrusted ttl log sid id now g.sessions h.sessions)

  beat-Good :
      (id : Str) (o : Option Str) (now : ℕ) (g : Gateway)
      → IsGood ttl log g
      → IsGood ttl log (beat id o now g)
  beat-Good id none now g h = h
  beat-Good id (some sid) now g h = touch-Good sid id now g h

  announce-Good :
      (id : Str) (r : Role) (q : ShutdownRequest) (g : Gateway)
      → IsGood ttl log g
      → IsGood ttl log (announce id r q g).0
  announce-Good id host q g h = h
  announce-Good id viewer q g h = h

  shutdown-Good :
      (id : Str) (q : Option ShutdownRequest) (mem : Option Membership) (now : ℕ) (g : Gateway)
      → IsGood ttl log g
      → IsGood ttl log (shutdown id q mem now g).0
  shutdown-Good id none mem now g h = h
  shutdown-Good id (some q) none now g h = h
  shutdown-Good id (some q) (some mem) now g h =
      elim (Bool-cases (mem.session_id == q.session_id)) [
        | inl y ↦ rw y (announce-Good id mem.peer.role q _ (touch-Good q.session_id id now g h))
        | inr n ↦ rw n h
      ]

  relay_sanitized-Good :
      (id : Str) (o : Option (Str × Option Str × Relay)) (now : ℕ) (g : Gateway)
      → IsGood ttl log g
      → IsGood ttl log (relay_sanitized id o now g).0
  unfolding relay_from
  relay_sanitized-Good id none now g h = h
  relay_sanitized-Good id (some (sid, target, relay)) now g h =
      elim (Bool-cases (touch sid id now g).1) [
        | inl y ↦ rw y (touch-Good sid id now g h)
        | inr n ↦ rw n (touch-Good sid id now g h)
      ]

  cleanup_expired_approvals-Good :
      (now : ℕ) (g : Gateway) → IsGood ttl log g → IsGood ttl log (cleanup_expired_approvals now g)
  unfolding cleanup_expired_approvals
  cleanup_expired_approvals-Good now g h = record {
    lifetime = h.lifetime;
    sessions = h.sessions;
    keys = live_approvals-Distinct now g.approved h.keys;
    cache = λ k expires e. h.cache k expires (get-live_approvals now k expires g.approved h.keys e);
  }

  release-Good :
      (id : Str) (o : Option Str) (g : Gateway)
      → IsGood ttl log g
      → IsGood ttl log (release_address id o g)
  unfolding release_address
  release-Good id none g h = h
  release-Good id (some []) g h = h
  release-Good id (some (c ∷ s)) g h = IsGood-same ttl log g _ refl refl refl h

  disconnect-Good :
      (id : Str) (g : Gateway) → IsGood ttl log g → IsGood ttl log (handle_disconnect id g).0
  unfolding handle_disconnect release_client_address
  disconnect-Good id g h =
      let released = release-Good id (JsMap.get id g.address_by_id) g h in
      IsGood-sessions ttl log _ _ released (remove_peer-IsTrusted ttl log id _ released.sessions)

  connect-Good :
      (id : Str) (k : Handshake) (g : Gateway)
      → IsGood ttl log g
      → IsGood ttl log (handle_connection id k g).0
  unfolding handle_connection
  connect-Good id k g h = IsGood-same ttl log g _ (ground arith) (ground arith) (ground arith) h

  pub act-Good :
      (a : Action) (now : ℕ) (g : Gateway) → IsGood ttl log g → IsGood ttl log (act a now g).0
  unfolding act handle_heartbeat announce_shutdown relay_offer relay_answer relay_ice_candidate
  act-Good (connects id k) now g h = connect-Good id k g h
  act-Good (disconnects id) now g h = disconnect-Good id g h
  act-Good (heartbeats id v) now g h = beat-Good id _ now g h
  act-Good (shuts_down id v) now g h = shutdown-Good id _ _ now g h
  act-Good (offers id v) now g h = relay_sanitized-Good id _ now g h
  act-Good (answers id v) now g h = relay_sanitized-Good id _ now g h
  act-Good (sends_candidate id v) now g h = relay_sanitized-Good id _ now g h
  act-Good ticks now g h = cleanup_expired_approvals-Good now _ (cleanup-Good ttl log now g h)

  -- The segment after an `await`.
  pub resume-Keeps :
      (connected : Str → Bool) (id : Str) (phase : Phase) (answer : Answer) (now : ℕ) (g : Gateway)
      → IsIncluded (facts_of id phase answer now) log
      → Justified ttl log id phase
      → IsGood ttl log g
      → Keeps ttl log id (resume connected id phase answer now g)
  unfolding resume facts_of
  resume-Keeps connected id (await_settings p address) (settings_read require) now g w j h =
      after_settings-Keeps ttl log id p address require now g (w.0) j h
  resume-Keeps connected id (await_password p address require) (password_checked accepted) now g w j
        h =
      after_password-Keeps ttl log id p connected address require accepted now g (w.0) j h
  resume-Keeps connected id (await_approval p address true) (host_replied ack) now g w j h =
      after_approval-Keeps ttl log id p address true ack now g (λ _. w.0) j h
  resume-Keeps connected id (await_approval p address false) (host_replied ack) now g w j h =
      after_approval-Keeps ttl log id p address false ack now g (λ e. cc e) j h
  resume-Keeps connected id (await_leave p) done now g w j h =
      after_leave-Keeps ttl log id p now g j h
  resume-Keeps connected id (await_room p others) done now g w j h =
      after_room-Keeps ttl log id p others g h
  resume-Keeps connected id phase answer now g w j h = (h, j)
