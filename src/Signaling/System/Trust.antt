-- ===== src/Signaling/System/Trust.antt =====
-- A trustworthy gateway: its registry well formed, every viewer in it authorized, and every cached
-- approval backed by an answer of a host. What the registry's operations do to that.
use remote_controll_app.Prelude.{
  ℕ, ◌+◌, ◌≡◌, refl, sym, ap, ◌∙◌, Bool, true, false, ◌&&◌, Option, none, some, List, ◌++◌, arith,
  inl, inr, if◌then◌else◌, Bool-cases, Option-cases,
}
use remote_controll_app.JsMap
use remote_controll_app.JsMap.{JsMap, Distinct, get-set, get-delete}
use remote_controll_app.Text.{Str, str_eq, str_beq, str_beq_iff}
use remote_controll_app.Sessions.{
  viewer, Peer, StoredPeer, Sessions, ok, add_peer, remove_peer, touch_peer,
}
use remote_controll_app.Sessions.Expiry.{remove_expired_peers}
use remote_controll_app.Sessions.Invariant.{IsValid, add_peer-IsValid}
use remote_controll_app.Sessions.Removal.{remove_peer-IsValid, remove_expired_peers-IsValid}
use remote_controll_app.Sessions.Touch.{touch_peer-IsValid}
use remote_controll_app.Sessions.View.{
  view, touched, view-add_peer, view-touch_peer, view-remove_expired_peers,
}
use remote_controll_app.Sessions.Leaving.{view-remove_peer}
use remote_controll_app.Signaling.Gateway.{Gateway, approval_key}
use remote_controll_app.Signaling.Gateway.Join.{
  Phase, await_settings, await_password, await_approval, await_leave, await_room, finished,
}
use remote_controll_app.Signaling.System.{Fact, attempted, approval_required, password_accepted}
use remote_controll_app.Signaling.System.Evidence.{
  Recorded, Recorded-append, Authorized, Authorized-append, NoColon, ApprovedAt,
}

-- Every viewer in the registry is authorized for its session.
pub record IsTrusted (ttl : ℕ) (log : List Fact) (s : Sessions) : Type 0 where
  pub valid : IsValid s
  pub viewers :
      (session id : Str) (p : StoredPeer)
      → view s session id ≡ some p
      → p.peer.role ≡ viewer
      → Authorized ttl log id session

-- Every entry of the approval cache was written by an approval that a host gave.
abbrev pub IsBacked : ℕ → List Fact → JsMap Str ℕ → Type 0
IsBacked ttl log cache =
    (key : Str) (expires : ℕ)
    → JsMap.get key cache ≡ some expires
    → (address : Str) × (session : Str) × (t : ℕ) × (key ≡ approval_key address session)
      × NoColon session
      × ApprovedAt log address session t
      × (expires ≡ t + ttl)

pub record IsGood (ttl : ℕ) (log : List Fact) (g : Gateway) : Type 0 where
  pub lifetime : g.approval_ttl_ms ≡ ttl
  pub sessions : IsTrusted ttl log g.sessions
  pub keys : Distinct g.approved
  pub cache : IsBacked ttl log g.approved

-- What a waiting handler has established.
abbrev pub Justified : ℕ → List Fact → Str → Phase → Type 0
Justified ttl log id (await_settings p address) =
    Recorded (attempted id address p.session_id) log × NoColon p.session_id
Justified ttl log id (await_password p address require) =
    Recorded (attempted id address p.session_id) log
    × NoColon p.session_id
    × Recorded (approval_required id p.session_id require) log
Justified ttl log id (await_approval p address asked) =
    Recorded (attempted id address p.session_id) log
    × NoColon p.session_id
    × ((checked : ℕ) × Recorded (password_accepted id p.session_id true checked) log)
Justified ttl log id (await_leave p) = p.role ≡ viewer → Authorized ttl log id p.session_id
Justified ttl log id (await_room p others) = Unit
Justified ttl log id (finished r) = Unit

-- A registry with fewer or older entries, of the same peers, stays trusted.
pub IsTrusted-below :
    (ttl : ℕ) (log : List Fact) (s s' : Sessions)
    → IsTrusted ttl log s
    → IsValid s'
    → ((session id : Str) (p' : StoredPeer)
        → view s' session id ≡ some p'
        → (p : StoredPeer) × (view s session id ≡ some p) × (p.peer ≡ p'.peer))
    → IsTrusted ttl log s'
IsTrusted-below ttl log s s' h v below = record {
  valid = v;
  viewers = λ session id p' e r.
      let (p, there, same) = below session id p' e in
      h.viewers session id p there (cc (ap (λ (q : Peer). q.role) same, r));
}

touch_view :
    (sid c : Str) (now : ℕ) (s : Sessions) (session id : Str)
    → view (touch_peer sid c now s).0 session id ≡ (
        if str_beq sid session && str_beq c id
        then touched now (view s session id)
        else view s session id)
touch_view sid c now s session id =
    rw (view-touch_peer sid c now s session id)
      (ground (arith, str_beq_iff sid session, str_beq_iff c id))

touched_from :
    (b : Bool) (now : ℕ) (o : Option StoredPeer) (p' : StoredPeer)
    → (if b then touched now o else o) ≡ some p'
    → (p : StoredPeer) × (o ≡ some p) × (p.peer ≡ p'.peer)
touched_from true now none p' e = cc e
touched_from true now (some p) p' e =
    let same : record p { last_seen_at = now } ≡ p' = cc e in
    (p, refl, ap (λ (q : StoredPeer). q.peer) same)
touched_from false now o p' e = (p', e, refl)

module _ (ttl : ℕ) (log : List Fact) where
  pub remove_peer-IsTrusted :
      (c : Str) (s : Sessions) → IsTrusted ttl log s → IsTrusted ttl log (remove_peer c s).0
  remove_peer-IsTrusted c s h =
      IsTrusted-below ttl log s (remove_peer c s).0 h (remove_peer-IsValid c s h.valid)
        (λ session id p' e. (p', ground (arith, view-remove_peer c s session id h.valid), refl))

  pub expired-IsTrusted :
      (now : ℕ) (s : Sessions)
      → IsTrusted ttl log s
      → IsTrusted ttl log (remove_expired_peers now s).0
  expired-IsTrusted now s h =
      IsTrusted-below ttl log s (remove_expired_peers now s).0 h
        (remove_expired_peers-IsValid now s h.valid)
        (λ session id p' e. (
          p',
          ground (
            arith,
            view-remove_expired_peers now s session id h.valid,
            Option-cases (view s session id),
          ),
          refl,
        ))

  pub touch_peer-IsTrusted :
      (sid c : Str) (now : ℕ) (s : Sessions)
      → IsTrusted ttl log s
      → IsTrusted ttl log (touch_peer sid c now s).0
  touch_peer-IsTrusted sid c now s h =
      IsTrusted-below ttl log s (touch_peer sid c now s).0 h
        (touch_peer-IsValid sid c now s h.valid)
        (λ session id p' e.
          touched_from (str_beq sid session && str_beq c id) now (view s session id) p'
            (sym (touch_view sid c now s session id) ∙ e))

  added_viewer :
      (sid : Str) (p : Peer) (now : ℕ) (session id : Str) (q : StoredPeer)
      → (str_beq sid session && str_beq p.client_id id) ≡ true
      → some (record { peer = p; last_seen_at = now }) ≡ some q
      → q.peer.role ≡ viewer
      → (p.role ≡ viewer → Authorized ttl log p.client_id sid)
      → Authorized ttl log id session
  added_viewer sid p now session id q hit e r authorized =
      let same_session : sid ≡ session = ground (arith, str_beq_iff sid session) in
      let same_id : p.client_id ≡ id = ground (arith, str_beq_iff p.client_id id) in
      let stored : StoredPeer = record { peer = p; last_seen_at = now } in
      let same : stored ≡ q = cc e in
      rw (← same_session, ← same_id)
        (authorized (cc (ap (λ (x : StoredPeer). x.peer.role) same, r)))

  -- A peer that is a host, or an authorized viewer, may be added.
  pub add_peer-IsTrusted :
      (sid : Str) (p : Peer) (now : ℕ) (s s' : Sessions) (ps : List Peer)
      → IsTrusted ttl log s
      → (p.role ≡ viewer → Authorized ttl log p.client_id sid)
      → add_peer sid p now s ≡ ok s' ps
      → IsTrusted ttl log s'
  add_peer-IsTrusted sid p now s s' ps h authorized added = record {
    valid = add_peer-IsValid sid p now s h.valid s' ps added;
    viewers = λ session id q e r.
        let e' = sym (view-add_peer sid p now s s' ps session id added) ∙ e in
        elim (Bool-cases (str_beq sid session && str_beq p.client_id id)) [
          | inl hit ↦ added_viewer sid p now session id q hit (rw hit at e') r authorized
          | inr miss ↦ h.viewers session id q (rw miss at e') r
        ];
  }

-- More facts take nothing away.
pub IsTrusted-append :
    (ttl : ℕ) (new log : List Fact) (s : Sessions)
    → IsTrusted ttl log s
    → IsTrusted ttl (new ++ log) s
IsTrusted-append ttl new log s h = record {
  valid = h.valid;
  viewers =
      λ session id p e r. Authorized-append ttl new log id session (h.viewers session id p e r);
}

pub IsGood-append :
    (ttl : ℕ) (new log : List Fact) (g : Gateway) → IsGood ttl log g → IsGood ttl (new ++ log) g
IsGood-append ttl new log g h = record {
  lifetime = h.lifetime;
  sessions = IsTrusted-append ttl new log g.sessions h.sessions;
  keys = h.keys;
  cache = λ key expires e.
      let (address, session, t, k, n, (id, a), x) = h.cache key expires e in
      (address, session, t, k, n, (id, Recorded-append _ new log a), x);
}

pub Justified-append :
    (ttl : ℕ) (new log : List Fact) (id : Str) (phase : Phase)
    → Justified ttl log id phase
    → Justified ttl (new ++ log) id phase
Justified-append ttl new log id (await_settings p address) (a, n) = (Recorded-append _ new log a, n)
Justified-append ttl new log id (await_password p address require) (a, n, r) =
    (Recorded-append _ new log a, n, Recorded-append _ new log r)
Justified-append ttl new log id (await_approval p address asked) (a, n, (t, r)) =
    (Recorded-append _ new log a, n, (t, Recorded-append _ new log r))
Justified-append ttl new log id (await_leave p) h =
    λ r. Authorized-append ttl new log id p.session_id (h r)
Justified-append ttl new log id (await_room p others) h = tt
Justified-append ttl new log id (finished r) h = tt
