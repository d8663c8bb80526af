-- ===== src/RateLimit/Window.antt =====
-- No window of time sees more admitted events of a key than the limit.
use remote_controll_app.Prelude.{
  ℕ, ◌+◌, ◌≤◌, ◌<◌, ◌≡◌, refl, Bool, ◌&&◌, List, [], ◌∷◌, ◌++◌, arith, Eq, if◌then◌else◌, ltb, leb,
  length, keep, keep-append, append_assoc, append-nil, length-append, Bool-cases, inl, inr, ltb→lt,
  subst, sym,
}
use remote_controll_app.RateLimit.{Limiter, is_active, init, consume}
use remote_controll_app.RateLimit.Log.{
  consumes, Event, Ordered, times, recent, log_step, times-append,
}
use remote_controll_app.RateLimit.Refinement.{step, Agrees, step-Agrees, Agrees-later, Agrees-init}

-- The events that a run of `consume` calls admits, in order.
module _ {ℓ} {K : Type ℓ} ⦃e : Eq K⦄ where
  unfoldable pub admitted : List (ℕ × K) → Limiter K → List (Event K)
  admitted [] s = []
  admitted ((now, k) ∷ cs) s =
      let (s', ok) = consume k now s in
      let rest = admitted cs s' in if ok then (k, now) ∷ rest else rest

-- `t` lies in the window of length `w` that ends at `T`.
abbrev pub in_window : ℕ → ℕ → ℕ → Bool
in_window w T t = leb t T && is_active w T t

-- How many of the key's events lie in the window that ends at `T`.
abbrev pub load {ℓ} : {K : Type ℓ} ⦃e : Eq K⦄ → ℕ → ℕ → K → List (Event K) → ℕ
load w T k log = length (keep (in_window w T) (times k log))

-- A window that ends after `now` sees at most what is active at `now`.
load-le :
    (w T now : ℕ) (ts : List ℕ)
    → now ≤ T
    → length (keep (in_window w T) ts) ≤ length (keep (is_active w now) ts)
load-le w T now [] h = omega arith
load-le w T now (t ∷ ts) h = ground (arith, load-le w T now ts)

module _ {ℓ} {K : Type ℓ} ⦃e : Eq K⦄ (max window : ℕ) where
  abbrev Bounded : List (Event K) → Type ℓ
  Bounded log = (T : ℕ) (k : K) → load window T k log ≤ max

  load-append :
      (T : ℕ) (k : K) (xs ys : List (Event K))
      → load window T k (xs ++ ys) ≡ load window T k xs + load window T k ys
  load-append T k xs ys = rw (
    times-append k xs ys,
    keep-append (in_window window T) (times k xs) (times k ys),
    length-append (keep (in_window window T) (times k xs)) (keep (in_window window T) (times k ys)),
  )

  Bounded-append :
      (k : K) (now : ℕ) (log : List (Event K))
      → recent window now k log < max
      → Bounded log
      → Bounded (log ++ (k, now) ∷ [])
  Bounded-append k now log room b T j = ground (
    arith,
    load-append T j log ((k, now) ∷ []),
    b T j,
    e.beq_iff k j,
    load-le window T now (times k log),
  )

  -- The log after one call.
  Bounded-step :
      (k : K) (now : ℕ) (log : List (Event K))
      → Bounded log
      → Bounded (log_step max window (now, consumes k) log).0
  unfolding log_step
  Bounded-step k now log b = elim (Bool-cases (ltb (recent window now k log) max)) [
    | inl room ↦ rw room (Bounded-append k now log (ltb→lt _ _ room) b)
    | inr full ↦ rw full b
  ]

  admitted-cons :
      (k : K) (now : ℕ) (cs : List (ℕ × K)) (s : Limiter K) (log : List (Event K))
      → Agrees max window now s log
      → log ++ admitted ((now, k) ∷ cs) s
        ≡ (log_step max window (now, consumes k) log).0 ++ admitted cs (consume k now s).0
  unfolding admitted log_step step
  admitted-cons k now cs s log a =
      let same = (step-Agrees max window now (consumes k) s log a).1 in
      elim (Bool-cases (ltb (recent window now k log) max)) [
        | inl room ↦
            rw (same, room)
              (sym (append_assoc log ((k, now) ∷ []) (admitted cs (consume k now s).0)))
        | inr full ↦ rw (same, full) refl
      ]

  Bounded-admitted :
      (t : ℕ) (cs : List (ℕ × K)) (s : Limiter K) (log : List (Event K))
      → Ordered t cs
      → Agrees max window t s log
      → Bounded log
      → Bounded (log ++ admitted cs s)
  unfolding step
  Bounded-admitted t [] s log o a b = unfold admitted in rw (append-nil log) b
  Bounded-admitted t ((now, k) ∷ cs) s log (le, o) a b =
      let a' = Agrees-later max window t now s log le a in
      subst Bounded (sym (admitted-cons k now cs s log a')) (
        Bounded-admitted now cs _ _ o (step-Agrees max window now (consumes k) s log a').0
          (Bounded-step k now log b))

  -- However often a key tries: at most `max` of its calls of `consume` are admitted in any window of
  -- the configured length, if the clock does not run back.
  pub admitted_in_window :
      (cs : List (ℕ × K))
      → Ordered 0 cs
      → (T : ℕ) (k : K) → load window T k (admitted cs (init max window)) ≤ max
  admitted_in_window cs o =
      Bounded-admitted 0 cs (init max window) [] o (Agrees-init max window) (λ T k. omega arith)
