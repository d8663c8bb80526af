-- ===== src/Signaling/System/Authorization.antt =====
-- Under every interleaving of handlers, a viewer sits in a session only with an accepted password
-- and an approval.
use remote_controll_app.Prelude.{
  ℕ, ◌≤◌, ◌≡◌, refl, Option, none, some, List, [], ◌∷◌, ◌++◌, arith, inl, inr, All,
}
use remote_controll_app.JsMap
use remote_controll_app.Text.{Str, str_eq}
use remote_controll_app.Value.{Value}
use remote_controll_app.Sessions.{viewer, StoredPeer, lookup_peer, total_peers}
use remote_controll_app.Sessions.View.{view}
use remote_controll_app.Signaling.Payloads.{JoinPayload, sanitize_join_payload}
use remote_controll_app.Signaling.Payloads.Bounds.{sanitize_join_payload-IsJoinPayload}
use remote_controll_app.Signaling.Turn.{TurnCredentials}
use remote_controll_app.Signaling.Gateway.{
  Gateway, Handshake, Config, init_gateway, get_client_address,
}
use remote_controll_app.Signaling.Gateway.Join.{Phase, begin, join_session}
use remote_controll_app.Signaling.System.{
  Fact, facts_of, facts_of_join, System, join_address, start_join, Step, acts, joins, resumes,
  Reach, here, next,
}
use remote_controll_app.Signaling.System.Evidence.{Authorized, NoColon, session_id-NoColon}
use remote_controll_app.Signaling.System.Trust.{IsGood, Justified, IsGood-append, Justified-append}
use remote_controll_app.Signaling.System.Segments.{Keeps, attempt-Keeps}
use remote_controll_app.Signaling.System.Handlers.{IsIncluded, act-Good, resume-Keeps}

abbrev Waiters : ℕ → List Fact → List (Str × Phase) → Type 0
Waiters ttl log = All (λ w. Justified ttl log w.0 w.1)

-- The invariant of the system.
pub record IsSound (ttl : ℕ) (s : System) : Type 0 where
  pub good : IsGood ttl s.log s.gateway
  pub waiting : Waiters ttl s.log s.waiting

IsIncluded-cons : (f : Fact) (fs log : List Fact) → IsIncluded fs log → IsIncluded fs (f ∷ log)
IsIncluded-cons f [] log h = tt
IsIncluded-cons f (g ∷ fs) log (h, hs) = (inr h, IsIncluded-cons f fs log hs)

IsIncluded-self : (fs log : List Fact) → IsIncluded fs (fs ++ log)
IsIncluded-self [] log = tt
IsIncluded-self (f ∷ fs) log = (inl refl, IsIncluded-cons f fs (fs ++ log) (IsIncluded-self fs log))

-- More facts, for all that wait; and the handler in the middle goes on.
Waiters-append :
    (ttl : ℕ) (new log : List Fact) (ws : List (Str × Phase))
    → Waiters ttl log ws
    → Waiters ttl (new ++ log) ws
Waiters-append ttl new log [] h = tt
Waiters-append ttl new log ((id, phase) ∷ ws) (h, hs) =
    (Justified-append ttl new log id phase h, Waiters-append ttl new log ws hs)

Waiters-middle :
    (ttl : ℕ) (log : List Fact) (before after : List (Str × Phase)) (id : Str) (phase : Phase)
    → Waiters ttl log (before ++ (id, phase) ∷ after)
    → Justified ttl log id phase
Waiters-middle ttl log [] after id phase h = h.0
Waiters-middle ttl log (w ∷ before) after id phase h =
    Waiters-middle ttl log before after id phase h.1

Waiters-replace :
    (ttl : ℕ) (log : List Fact) (before after : List (Str × Phase)) (id : Str)
    (phase phase' : Phase)
    → Justified ttl log id phase'
    → Waiters ttl log (before ++ (id, phase) ∷ after)
    → Waiters ttl log (before ++ (id, phase') ∷ after)
Waiters-replace ttl log [] after id phase phase' j h = (j, h.1)
Waiters-replace ttl log (w ∷ before) after id phase phase' j h =
    (h.0, Waiters-replace ttl log before after id phase phase' j h.1)

-- The first segment of a join records the attempt.
begin-Keeps :
    (ttl : ℕ) (log : List Fact) (id : Str) (o : Option JoinPayload) (address : Str) (now : ℕ)
    (g : Gateway)
    → IsIncluded (facts_of_join id address o) log
    → ((p : JoinPayload) → o ≡ some p → NoColon p.session_id)
    → IsGood ttl log g
    → Keeps ttl log id (begin id o address now g)
unfolding facts_of_join
begin-Keeps ttl log id none address now g w n h = (h, tt)
begin-Keeps ttl log id (some p) address now g w n h =
    attempt-Keeps ttl log id p address now g w.0 (n p refl) h

join-Keeps :
    (ttl : ℕ) (log : List Fact) (id : Str) (k : Handshake) (payload : Value) (now : ℕ) (g : Gateway)
    → IsIncluded (facts_of_join id (join_address id k g) (sanitize_join_payload payload)) log
    → IsGood ttl log g
    → Keeps ttl log id (join_session id payload (get_client_address k) now g)
unfolding join_session
join-Keeps ttl log id k payload now g w h =
    begin-Keeps ttl log id (sanitize_join_payload payload) (join_address id k g) now g w
      (λ p e.
        session_id-NoColon p.session_id
          (sanitize_join_payload-IsJoinPayload payload p e).session.shape)
      h

start_join-IsSound :
    (ttl : ℕ) (s : System) (id : Str) (k : Handshake) (payload : Value) (now : ℕ)
    → IsSound ttl s
    → IsSound ttl (start_join id k payload now s)
unfolding start_join
start_join-IsSound ttl s id k payload now h =
    let new = facts_of_join id (join_address id k s.gateway) (sanitize_join_payload payload) in
    let (good, j) =
      join-Keeps ttl (new ++ s.log) id k payload now s.gateway (IsIncluded-self new s.log)
        (IsGood-append ttl new s.log s.gateway h.good) in
    record { good = good; waiting = (j, Waiters-append ttl new s.log s.waiting h.waiting) }

-- Whatever runs next, the system stays sound.
pub Step-IsSound : (ttl : ℕ) {s t : System} → Step s t → IsSound ttl s → IsSound ttl t
Step-IsSound ttl (acts s a now) h = record {
  good = act-Good ttl s.log a now s.gateway h.good;
  waiting = h.waiting;
}
Step-IsSound ttl (joins s id k payload now) h = start_join-IsSound ttl s id k payload now h
Step-IsSound ttl (resumes s before after id phase answer connected now e) h =
    let log' = facts_of id phase answer now ++ s.log in
    let waiting' =
      Waiters-append ttl (facts_of id phase answer now) s.log (before ++ (id, phase) ∷ after)
        (rw e at h.waiting) in
    let (good, j) =
      resume-Keeps ttl log' connected id phase answer now s.gateway
        (IsIncluded-self (facts_of id phase answer now) s.log)
        (Waiters-middle ttl log' before after id phase waiting')
        (IsGood-append ttl (facts_of id phase answer now) s.log s.gateway h.good) in
    record { good = good; waiting = Waiters-replace ttl log' before after id phase _ j waiting' }

pub Reach-IsSound : (ttl : ℕ) {s t : System} → IsSound ttl s → Reach s t → IsSound ttl t
Reach-IsSound ttl h here = h
Reach-IsSound ttl h (next r st) = Step-IsSound ttl st (Reach-IsSound ttl h r)

-- A server that has just started.
unfoldable pub init_system : Config → List TurnCredentials → System
init_system c ice = record { gateway = init_gateway c ice; waiting = []; log = [] }

init-IsSound :
    (c : Config) (ice : List TurnCredentials)
    → 1 ≤ c.max_peers_per_session
    → IsSound c.approval_ttl_ms (init_system c ice)
unfolding init_system init_gateway view lookup_peer total_peers JsMap.get
init-IsSound c ice room = record {
  good = record {
    lifetime = refl;
    sessions = record {
      valid = record {
        ids = tt;
        rooms = tt;
        sessions = omega arith;
        total = omega arith;
        room = room;
      };
      viewers = λ session id p e r. cc e;
    };
    keys = tt;
    cache = λ key x e. cc e;
  };
  waiting = tt;
}

-- However the handlers interleave, if a session may have a peer at all: a viewer that is in a
-- session asked to join it, its password was accepted for it, and the host approved it unless the
-- settings asked for no approval. The host approved the client itself, or, for this session, a
-- client at the same address, less than the lifetime of an approval before the password was
-- accepted.
pub viewer-Authorized :
    (c : Config) (ice : List TurnCredentials) (s : System) (session id : Str) (p : StoredPeer)
    → 1 ≤ c.max_peers_per_session
    → Reach (init_system c ice) s
    → view s.gateway.sessions session id ≡ some p
    → p.peer.role ≡ viewer
    → Authorized c.approval_ttl_ms s.log id session
viewer-Authorized c ice s session id p room r e v =
    (Reach-IsSound c.approval_ttl_ms (init-IsSound c ice room) r).good.sessions.viewers session id p
      e v
