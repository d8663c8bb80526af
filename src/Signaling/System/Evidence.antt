-- ===== src/Signaling/System/Evidence.antt =====
-- What entitles a viewer to its place in a session, read off the recorded facts alone.
use remote_controll_app.Prelude.{
  ℕ, ◌+◌, ◌<◌, ◌≡◌, ◌≢◌, refl, subst, true, false, List, [], ◌∷◌, ◌++◌, arith, ◌⊎◌, inl, inr, All,
  all,
}
use remote_controll_app.Text.{Str, is_word, is_letter, is_digit}
use remote_controll_app.Signaling.Payloads.{is_session_id}
use remote_controll_app.Signaling.Gateway.{approval_key}
use remote_controll_app.Signaling.Gateway.Join.{answered}
use remote_controll_app.Signaling.System.{
  Fact, attempted, approval_required, password_accepted, host_acknowledged,
}

-- The fact is in the log.
abbrev pub Recorded : Fact → List Fact → Type 0
Recorded f [] = ⊥
Recorded f (g ∷ log) = (f ≡ g) ⊎ Recorded f log

pub Recorded-append : (f : Fact) (new log : List Fact) → Recorded f log → Recorded f (new ++ log)
Recorded-append f [] log h = h
Recorded-append f (g ∷ new) log h = inr (Recorded-append f new log h)

-- The host acknowledged a request that came from this address for this session.
abbrev pub ApprovedAt : List Fact → Str → Str → ℕ → Type 0
ApprovedAt log address session t =
    (id : Str) × Recorded (host_acknowledged id address session (answered true) t) log

-- The host approved the client itself, or less than `ttl` before its password was accepted it
-- approved somebody at the client's address.
abbrev pub Approved : ℕ → List Fact → Str → Str → Str → ℕ → Type 0
Approved ttl log id address session checked =
    ((t : ℕ) × Recorded (host_acknowledged id address session (answered true) t) log)
    ⊎ ((t : ℕ) × ApprovedAt log address session t × (checked < t + ttl))

-- The client asked to join the session, its password was accepted for the session, and the host
-- approved unless the settings asked for no approval.
pub record Authorized (ttl : ℕ) (log : List Fact) (id session : Str) : Type 0 where
  pub address : Str
  pub checked : ℕ
  pub asked : Recorded (attempted id address session) log
  pub password : Recorded (password_accepted id session true checked) log
  pub approval :
      Recorded (approval_required id session false) log
      ⊎ Approved ttl log id address session checked

Approved-append :
    (ttl : ℕ) (new log : List Fact) (id address session : Str) (checked : ℕ)
    → Approved ttl log id address session checked
    → Approved ttl (new ++ log) id address session checked
Approved-append ttl new log id address session checked (inl (t, h)) =
    inl (t, Recorded-append _ new log h)
Approved-append ttl new log id address session checked (inr (t, (id', h), le)) =
    inr (t, (id', Recorded-append _ new log h), le)

approval-append :
    (ttl : ℕ) (new log : List Fact) (id address session : Str) (checked : ℕ)
    → Recorded (approval_required id session false) log
      ⊎ Approved ttl log id address session checked
    → Recorded (approval_required id session false) (new ++ log)
      ⊎ Approved ttl (new ++ log) id address session checked
approval-append ttl new log id address session checked (inl h) = inl (Recorded-append _ new log h)
approval-append ttl new log id address session checked (inr h) =
    inr (Approved-append ttl new log id address session checked h)

pub Authorized-append :
    (ttl : ℕ) (new log : List Fact) (id session : Str)
    → Authorized ttl log id session
    → Authorized ttl (new ++ log) id session
Authorized-append ttl new log id session a = record {
  address = a.address;
  checked = a.checked;
  asked = Recorded-append _ new log a.asked;
  password = Recorded-append _ new log a.password;
  approval = approval-append ttl new log id a.address session a.checked a.approval;
}

-- Session ids hold no colon, so the key of the approval cache determines address and session.
abbrev pub NoColon : Str → Type 0
NoColon = All (λ c. c ≢ b':')

word_colon_free : (c : ℕ) → is_word c ≡ true → c ≢ b':'
unfolding is_word is_letter is_digit
word_colon_free c h e = ground arith

words-NoColon : (s : Str) → all is_word s ≡ true → NoColon s
words-NoColon [] h = tt
words-NoColon (c ∷ s) h = (word_colon_free c (ground arith), words-NoColon s (ground arith))

pub session_id-NoColon : (s : Str) → is_session_id s ≡ true → NoColon s
unfolding is_session_id
session_id-NoColon s h = words-NoColon s (ground arith)

colon_inside : (a s : Str) → NoColon (a ++ b':' ∷ s) → ⊥
colon_inside [] s h = h.0 refl
colon_inside (c ∷ a) s h = colon_inside a s h.1

-- Where two session ids have no colon, equal keys have the same address and the same session id.
pub approval_key_injective :
    (a a' s s' : Str)
    → NoColon s
    → NoColon s'
    → approval_key a s ≡ approval_key a' s'
    → (a ≡ a') × (s ≡ s')
approval_key_injective [] [] s s' h h' e = (refl, cc e)
approval_key_injective [] (c ∷ a') s s' h h' e =
    absurd (colon_inside a' s' (subst NoColon (cc e) h))
approval_key_injective (c ∷ a) [] s s' h h' e = absurd (colon_inside a s (subst NoColon (cc e) h'))
approval_key_injective (c ∷ a) (c' ∷ a') s s' h h' e =
    let (p, q) = approval_key_injective a a' s s' h h' (cc e) in (cc (p, e), q)
