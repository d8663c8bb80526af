-- ===== src/Signaling/System/Segments.antt =====
-- Each segment of `joinSession` keeps the gateway trustworthy, and justifies the phase that it ends
-- in.
use remote_controll_app.Prelude.{
  ℕ, ◌+◌, ◌<◌, ◌≡◌, refl, sym, subst, ◌∙◌, Bool, true, false, Option, none, some, List, arith, inl,
  inr, leb, Bool-cases, Option-cases,
}
use remote_controll_app.JsMap
use remote_controll_app.JsMap.{JsMap, get-set, get-delete, set-Distinct, delete-Distinct}
use remote_controll_app.RateLimit
use remote_controll_app.Text.{Str, str_eq, str_beq, str_beq_iff}
use remote_controll_app.Sessions.{
  Role, host, viewer, Peer, Membership, Sessions, Added, ok, refused, add_peer, remove_peer,
  get_peer_by_role,
}
use remote_controll_app.Signaling.Payloads.{JoinPayload}
use remote_controll_app.Signaling.Gateway.{
  Gateway, Out, approval_key, check_approval, is_recently_approved, mark_approved,
  cleanup_expired_peers,
}
use remote_controll_app.Signaling.Gateway.Join.{
  Phase, await_settings, await_password, await_approval, Ack, answered, timed_out, peer_of,
  after_add, after_leave, after_remove, admit, after_settings, ask_host, reachable_host,
  request_approval, check_recent, after_password, after_approval, begin_role, attempt, after_room,
}
use remote_controll_app.Signaling.System.{
  Fact, attempted, approval_required, password_accepted, host_acknowledged,
}
use remote_controll_app.Signaling.System.Evidence.{
  Recorded, Authorized, NoColon, ApprovedAt, approval_key_injective,
}
use remote_controll_app.Signaling.System.Trust.{
  IsTrusted, IsBacked, IsGood, Justified, remove_peer-IsTrusted, expired-IsTrusted,
  add_peer-IsTrusted,
}

module _ (ttl : ℕ) (log : List Fact) where
  abbrev pub Keeps : Str → Gateway × Phase × List Out → Type 0
  Keeps id r = IsGood ttl log r.0 × Justified ttl log id r.1

  -- A segment that writes none of the registry, the cache and the lifetime.
  pub IsGood-same :
      (g g' : Gateway)
      → g'.approval_ttl_ms ≡ g.approval_ttl_ms
      → g'.sessions ≡ g.sessions
      → g'.approved ≡ g.approved
      → IsGood ttl log g
      → IsGood ttl log g'
  IsGood-same g g' a b c h = record {
    lifetime = a ∙ h.lifetime;
    sessions = rw b h.sessions;
    keys = rw c h.keys;
    cache = rw c h.cache;
  }

  pub IsGood-sessions :
      (g : Gateway) (s : Sessions)
      → IsGood ttl log g
      → IsTrusted ttl log s
      → IsGood ttl log (record g { sessions = s })
  IsGood-sessions g s h t = record {
    lifetime = h.lifetime;
    sessions = t;
    keys = h.keys;
    cache = h.cache;
  }

  pub cleanup-Good :
      (now : ℕ) (g : Gateway) → IsGood ttl log g → IsGood ttl log (cleanup_expired_peers now g).0
  unfolding cleanup_expired_peers
  cleanup-Good now g h = IsGood-sessions g _ h (expired-IsTrusted ttl log now g.sessions h.sessions)

  module _ (id : Str) (p : JoinPayload) where
    abbrev Entitled : Type 0
    Entitled = p.role ≡ viewer → Authorized ttl log id p.session_id

    after_add-Keeps :
        (now : ℕ) (g : Gateway) (a : Added)
        → add_peer p.session_id (peer_of id p) now g.sessions ≡ a
        → Entitled
        → IsGood ttl log g
        → Keeps id (after_add id p g a)
    after_add-Keeps now g (refused err) e auth h = (h, tt)
    after_add-Keeps now g (ok s' others) e auth h = (
      IsGood-sessions g s' h (
          add_peer-IsTrusted ttl log p.session_id (peer_of id p) now g.sessions s' others h.sessions
            auth e),
      tt,
    )

    pub after_leave-Keeps :
        (now : ℕ) (g : Gateway) → Entitled → IsGood ttl log g → Keeps id (after_leave id p now g)
    unfolding after_leave
    after_leave-Keeps now g auth h = after_add-Keeps now g _ refl auth h

    after_remove-Keeps :
        (now : ℕ) (g : Gateway) (previous : Option Membership)
        → Entitled
        → IsGood ttl log g
        → Keeps id (after_remove id p now g previous)
    after_remove-Keeps now g none auth h = after_leave-Keeps now g auth h
    after_remove-Keeps now g (some mem) auth h = (h, auth)

    admit-Keeps :
        (now : ℕ) (g : Gateway) → Entitled → IsGood ttl log g → Keeps id (admit id p now g)
    unfolding admit
    admit-Keeps now g auth h =
        after_remove-Keeps now _ (remove_peer id g.sessions).1 auth
          (IsGood-sessions g _ h (remove_peer-IsTrusted ttl log id g.sessions h.sessions))

    pub after_settings-Keeps :
        (address : Str) (require : Bool) (now : ℕ) (g : Gateway)
        → Recorded (approval_required id p.session_id require) log
        → Justified ttl log id (await_settings p address)
        → IsGood ttl log g
        → Keeps id (after_settings id p address require now g)
    unfolding after_settings
    after_settings-Keeps address require now g r (a, n) h =
        elim (Bool-cases
          (RateLimit.is_allowed (approval_key address p.session_id) now g.password_limiter).1) [
            | inl free ↦ rw free (IsGood-same g _ refl refl refl h, (a, n, r))
            | inr full ↦ rw full (IsGood-same g _ refl refl refl h, tt)
          ]

    -- A cached approval that is still valid is an approval of the same address and session.
    recent_approval :
        (address : Str) (now : ℕ) (g : Gateway) (expires : ℕ)
        → NoColon p.session_id
        → IsGood ttl log g
        → JsMap.get (approval_key address p.session_id) g.approved ≡ some expires
        → now < expires
        → (t : ℕ) × ApprovedAt log address p.session_id t × (now < t + ttl)
    recent_approval address now g expires n h e fresh =
        let (address', session, t, same, n', (by', a), x) = h.cache _ expires e in
        let (same_address, same_session) =
          approval_key_injective address address' p.session_id session n n' same in
        (
          t,
          subst (λ x. ApprovedAt log x p.session_id t) (sym same_address)
              (subst (λ x. ApprovedAt log address' x t) (sym same_session) (by', a)),
          ground arith,
        )

    IsBacked-delete :
        (key : Str) (cache : JsMap Str ℕ)
        → IsBacked ttl log cache
        → IsBacked ttl log (JsMap.delete key cache)
    IsBacked-delete key cache h k expires e = h k expires (ground (arith, get-delete k key cache))

    recent_some :
        (address : Str) (now : ℕ) (g : Gateway) (expires : ℕ)
        → NoColon p.session_id
        → IsGood ttl log g
        → JsMap.get (approval_key address p.session_id) g.approved ≡ some expires
        → IsGood ttl log (check_approval (approval_key address p.session_id) now (some expires) g).0
          × ((check_approval (approval_key address p.session_id) now (some expires) g).1 ≡ true
              → (t : ℕ) × ApprovedAt log address p.session_id t × (now < t + ttl))
    unfolding check_approval
    recent_some address now g expires n h e = elim (Bool-cases (leb expires 0)) [
      | inl z ↦ rw z (h, λ no'. cc no')
      | inr nz ↦ elim (Bool-cases (leb expires now)) [
        | inl over ↦
            rw (nz, over)
              (
                record {
                  lifetime = h.lifetime;
                  sessions = h.sessions;
                  keys = delete-Distinct (approval_key address p.session_id) g.approved h.keys;
                  cache = IsBacked-delete (approval_key address p.session_id) g.approved h.cache;
                },
                λ no'. cc no',
              )
        | inr fresh ↦
            rw (nz, fresh) (h, λ _. recent_approval address now g expires n h e (ground arith))
      ]
    ]

    -- `isRecentlyApproved` may drop an entry, and says yes only with an approval at hand.
    is_recently_approved-Good :
        (address : Str) (now : ℕ) (g : Gateway)
        → NoColon p.session_id
        → IsGood ttl log g
        → IsGood ttl log (is_recently_approved (approval_key address p.session_id) now g).0
          × ((is_recently_approved (approval_key address p.session_id) now g).1 ≡ true
              → (t : ℕ) × ApprovedAt log address p.session_id t × (now < t + ttl))
    unfolding is_recently_approved
    is_recently_approved-Good address now g n h =
        elim (Option-cases (JsMap.get (approval_key address p.session_id) g.approved)) [
          | inl e ↦ rw (e, check_approval) (h, λ no'. cc no')
          | inr (expires, e) ↦ rw e (recent_some address now g expires n h e)
        ]

    request_approval-Keeps :
        (connected : Str → Bool) (address : Str) (now checked : ℕ) (g : Gateway)
        → Recorded (attempted id address p.session_id) log
        → NoColon p.session_id
        → Recorded (password_accepted id p.session_id true checked) log
        → IsGood ttl log g
        → Keeps id (request_approval connected id p address now g)
    unfolding request_approval
    request_approval-Keeps connected address now checked g a n w h =
        elim (Bool-cases
          (RateLimit.consume (approval_key address p.session_id) now g.approval_limiter).1) [
            | inl free ↦ rw free (
                asked-Keeps _
                  (reachable_host connected (get_peer_by_role p.session_id host g.sessions))
                  (IsGood-same g _ refl refl refl h))
            | inr full ↦ rw full (IsGood-same g _ refl refl refl h, tt)
          ]
      where
        asked-Keeps :
            (g' : Gateway) (o : Option Str)
            → IsGood ttl log g'
            → Keeps id (ask_host id p address g' o)
        asked-Keeps g' none h' = (h', (a, n, (checked, w)))
        asked-Keeps g' (some x) h' = (h', (a, n, (checked, w)))

    check_recent-Keeps :
        (connected : Str → Bool) (address : Str) (now : ℕ) (g : Gateway)
        → Recorded (attempted id address p.session_id) log
        → NoColon p.session_id
        → Recorded (password_accepted id p.session_id true now) log
        → IsGood ttl log g
        → Keeps id (check_recent connected id p address now g)
    unfolding check_recent
    check_recent-Keeps connected address now g a n w h =
        let (good, recent) = is_recently_approved-Good address now g n h in
        elim (Bool-cases (is_recently_approved (approval_key address p.session_id) now g).1) [
          | inl yes' ↦ rw yes' (
              admit-Keeps now _
                (λ _. record {
                  address = address;
                  checked = now;
                  asked = a;
                  password = w;
                  approval = inr (inr (recent yes'));
                })
                good)
          | inr no' ↦ rw no' (request_approval-Keeps connected address now now _ a n w good)
        ]

    pub after_password-Keeps :
        (connected : Str → Bool) (address : Str) (require accepted : Bool) (now : ℕ) (g : Gateway)
        → Recorded (password_accepted id p.session_id accepted now) log
        → Justified ttl log id (await_password p address require)
        → IsGood ttl log g
        → Keeps id (after_password connected id p address require accepted now g)
    unfolding after_password
    after_password-Keeps connected address require false now g w (a, n, r) h =
        (IsGood-same g _ refl refl refl h, tt)
    after_password-Keeps connected address false true now g w (a, n, r) h =
        admit-Keeps now _
          (λ _. record {
            address = address;
            checked = now;
            asked = a;
            password = w;
            approval = inl r;
          })
          (IsGood-same g _ refl refl refl h)
    after_password-Keeps connected address true true now g w (a, n, r) h =
        check_recent-Keeps connected address now _ a n w (IsGood-same g _ refl refl refl h)

    IsBacked-set :
        (address : Str) (now : ℕ) (cache : JsMap Str ℕ)
        → NoColon p.session_id
        → ApprovedAt log address p.session_id now
        → IsBacked ttl log cache
        → IsBacked ttl log (JsMap.set (approval_key address p.session_id) (now + ttl) cache)
    IsBacked-set address now cache n a h k expires e =
        elim (Bool-cases (str_beq (approval_key address p.session_id) k)) [
          | inl hit ↦ (
            address,
            p.session_id,
            now,
            sym ((str_beq_iff _ k).0 hit),
            n,
            a,
            ground (arith, get-set k (approval_key address p.session_id) (now + ttl) cache),
          )
          | inr miss ↦
              h k expires
                (ground (arith, get-set k (approval_key address p.session_id) (now + ttl) cache))
        ]

    mark_approved-Good :
        (address : Str) (now : ℕ) (g : Gateway)
        → NoColon p.session_id
        → ApprovedAt log address p.session_id now
        → IsGood ttl log g
        → IsGood ttl log (mark_approved (approval_key address p.session_id) now g)
    unfolding mark_approved
    mark_approved-Good address now g n a h = record {
      lifetime = h.lifetime;
      sessions = h.sessions;
      keys =
          set-Distinct (approval_key address p.session_id) (now + g.approval_ttl_ms) g.approved
            h.keys;
      cache = rw h.lifetime (IsBacked-set address now g.approved n a h.cache);
    }

    pub after_approval-Keeps :
        (address : Str) (asked : Bool) (ack : Ack) (now : ℕ) (g : Gateway)
        → (asked ≡ true → Recorded (host_acknowledged id address p.session_id ack now) log)
        → Justified ttl log id (await_approval p address asked)
        → IsGood ttl log g
        → Keeps id (after_approval id p address asked ack now g)
    unfolding after_approval
    after_approval-Keeps address true (answered true) now g w (a, n, (t, v)) h =
        admit-Keeps now _
          (λ _. record {
            address = address;
            checked = t;
            asked = a;
            password = v;
            approval = inr (inl (now, w refl));
          })
          (mark_approved-Good address now g n (id, w refl) h)
    after_approval-Keeps address true (answered false) now g w j h = (h, tt)
    after_approval-Keeps address false (answered b) now g w j h = (h, tt)
    after_approval-Keeps address asked timed_out now g w j h = (h, tt)

    pub after_room-Keeps :
        (others : List Peer) (g : Gateway) → IsGood ttl log g → Keeps id (after_room id p others g)
    unfolding after_room
    after_room-Keeps others g h = (h, tt)

    begin_role-Keeps :
        (address : Str) (now : ℕ) (r : Role) (g : Gateway)
        → p.role ≡ r
        → Recorded (attempted id address p.session_id) log
        → NoColon p.session_id
        → IsGood ttl log g
        → Keeps id (begin_role id p address now r g)
    begin_role-Keeps address now host g e a n h = admit-Keeps now g (λ v. cc (e, v)) h
    begin_role-Keeps address now viewer g e a n h = (h, (a, n))

    pub attempt-Keeps :
        (address : Str) (now : ℕ) (g : Gateway)
        → Recorded (attempted id address p.session_id) log
        → NoColon p.session_id
        → IsGood ttl log g
        → Keeps id (attempt id p address now g)
    unfolding attempt
    attempt-Keeps address now g a n h =
        let swept = cleanup-Good now g h in
        elim (Bool-cases
          (RateLimit.consume address now (cleanup_expired_peers now g).0.join_limiter).1) [
            | inl free ↦ rw free (
                begin_role-Keeps address now p.role _ refl a n
                  (IsGood-same _ _ refl refl refl swept))
            | inr full ↦ rw full (IsGood-same _ _ refl refl refl swept, tt)
          ]
