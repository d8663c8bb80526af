-- ===== src/RateLimit/Refinement.antt =====
-- The rate limiter answers as the log does.
use remote_controll_app.Prelude.{
  ℕ, ◌≤◌, ◌≡◌, refl, ap, Bool, true, List, [], ◌∷◌, ◌++◌, arith, Eq, ◌==◌, if◌then◌else◌, ltb,
  length, keep, inl, inr, Bool-cases, keep-append, append-nil, subst, sym, ◌∙◌,
}
use mathlib.Core.Path.{ap₂}
use remote_controll_app.JsMap
use remote_controll_app.JsMap.{JsMap, get-set, get-delete}
use remote_controll_app.RateLimit.{
  Limiter, is_active, or_empty, store, init, get_active_events, is_allowed, record_event, reset,
  consume,
}
use remote_controll_app.RateLimit.Log.{
  Call, consumes, asks, records, resets, Event, Ordered, times, recent, forget, log_step,
  log_answers, times-append, times-forget, keep-keep,
}

module _ {ℓ} {K : Type ℓ} ⦃e : Eq K⦄ where
  unfoldable pub step : ℕ × Call K → Limiter K → Limiter K × Bool
  step (now, consumes k) s = consume k now s
  step (now, asks k) s = is_allowed k now s
  step (now, records k) s = (record_event k now s, true)
  step (now, resets k) s = (reset k s, true)

  unfoldable pub answers : List (ℕ × Call K) → Limiter K → List Bool
  unfolding step
  answers [] s = []
  answers (c ∷ cs) s = let (s', answer) = step c s in answer ∷ answers cs s'

  -- The stored events of a key.
  abbrev pub stored : K → Limiter K → List ℕ
  stored k s = or_empty (JsMap.get k s.events)

  -- From the time `now` on, the stored events that count are those of the log.
  pub record Agrees (max window now : ℕ) (s : Limiter K) (log : List (Event K)) : Type ℓ where
    pub limit : s.max_events ≡ max
    pub span : s.window_ms ≡ window
    pub same :
        (later : ℕ)
        → now ≤ later
        → (k : K)
        → keep (is_active window later) (stored k s) ≡ keep (is_active window later) (times k log)

  store-stored :
      (k j : K) (ts : List ℕ) (s : Limiter K)
      → stored j (store k ts s) ≡ (if k == j then ts else stored j s)
  store-stored k j [] s = rw (get-delete j k s.events) (ground arith)
  store-stored k j (t ∷ ts) s = rw (get-set j k (t ∷ ts) s.events) (ground arith)

  store-window : (k : K) (ts : List ℕ) (s : Limiter K) → (store k ts s).window_ms ≡ s.window_ms
  store-window k [] s = refl
  store-window k (t ∷ ts) s = refl

  store-max : (k : K) (ts : List ℕ) (s : Limiter K) → (store k ts s).max_events ≡ s.max_events
  store-max k [] s = refl
  store-max k (t ∷ ts) s = refl

  record_event-stored :
      (k j : K) (now : ℕ) (s : Limiter K)
      → stored j (record_event k now s)
        ≡ (if k == j then keep (is_active s.window_ms now) (stored k s) ++ now ∷ [] else stored j s)
  unfolding record_event get_active_events
  record_event-stored k j now s =
      rw (get-set j k _ (store k (keep (is_active s.window_ms now) (stored k s)) s).events)
        (ground (arith, store-stored k j (keep (is_active s.window_ms now) (stored k s)) s))

module _ {ℓ} {K : Type ℓ} ⦃e : Eq K⦄ (max window : ℕ) where
  -- Dropping what has expired by now changes nothing that counts from now on.
  Agrees-store :
      (k : K) (now : ℕ) (s : Limiter K) (log : List (Event K))
      → Agrees max window now s log
      → Agrees max window now (store k (keep (is_active window now) (stored k s)) s) log
  Agrees-store k now s log h = record {
    limit = store-max k _ s ∙ h.limit;
    span = store-window k _ s ∙ h.span;
    same = λ later le j.
        rw (store-stored k j (keep (is_active window now) (stored k s)) s) (
          ground
            (arith, e.beq_iff k j, keep-keep window now later (stored k s), h.same later le j));
  }

  -- The answer of `isAllowed` is the count of the log.
  length-stored :
      (k : K) (now : ℕ) (s : Limiter K) (log : List (Event K))
      → Agrees max window now s log
      → length (keep (is_active window now) (stored k s)) ≡ recent window now k log
  length-stored k now s log h = ap length (h.same now (omega arith) k)

  pub Agrees-later :
      (now later : ℕ) (s : Limiter K) (log : List (Event K))
      → now ≤ later
      → Agrees max window now s log
      → Agrees max window later s log
  Agrees-later now later s log le h = record {
    limit = h.limit;
    span = h.span;
    same = λ t lt k. h.same t (omega arith) k;
  }

  Agrees-record :
      (k : K) (now : ℕ) (s : Limiter K) (log : List (Event K))
      → Agrees max window now s log
      → Agrees max window now (record_event k now s) (log ++ (k, now) ∷ [])
  unfolding record_event get_active_events
  Agrees-record k now s log h = record {
    limit = store-max k _ s ∙ h.limit;
    span = store-window k _ s ∙ h.span;
    same = λ later le j.
        rw
          (
            record_event-stored k j now s,
            h.span,
            times-append j log ((k, now) ∷ []),
            keep-append (is_active window later) (times j log) (times j ((k, now) ∷ [])),
          )
          (ground (
            arith,
            e.beq_iff k j,
            h.same later le j,
            keep-append (is_active window later) (keep (is_active window now) (stored k s))
                (now ∷ []),
            keep-keep window now later (stored k s),
            append-nil (keep (is_active window later) (times j log)),
          ));
  }

  Agrees-reset :
      (k : K) (now : ℕ) (s : Limiter K) (log : List (Event K))
      → Agrees max window now s log
      → Agrees max window now (reset k s) (forget k log)
  unfolding reset
  Agrees-reset k now s log h = record {
    limit = h.limit;
    span = h.span;
    same = λ later le j.
        rw (get-delete j k s.events, times-forget j k log) (ground (arith, h.same later le j));
  }

  Agrees-get_active_events :
      (k : K) (now : ℕ) (s : Limiter K) (log : List (Event K))
      → Agrees max window now s log
      → Agrees max window now (get_active_events k now s).0 log
  unfolding get_active_events
  Agrees-get_active_events k now s log h =
      subst (λ w. Agrees max window now (store k (keep (is_active w now) (stored k s)) s) log)
        (sym h.span) (Agrees-store k now s log h)

  is_allowed_lem :
      (k : K) (now : ℕ) (s : Limiter K) (log : List (Event K))
      → Agrees max window now s log
      → (is_allowed k now s).1 ≡ ltb (recent window now k log) max
  unfolding is_allowed get_active_events
  is_allowed_lem k now s log h = rw (h.limit, h.span, length-stored k now s log h)

  Agrees-is_allowed :
      (k : K) (now : ℕ) (s : Limiter K) (log : List (Event K))
      → Agrees max window now s log
      → Agrees max window now (is_allowed k now s).0 log
  unfolding is_allowed
  Agrees-is_allowed k now s log h = Agrees-get_active_events k now s log h

  -- One call keeps the agreement, and its answer is that of the log.
  pub step-Agrees :
      (now : ℕ) (c : Call K) (s : Limiter K) (log : List (Event K))
      → Agrees max window now s log
      → Agrees max window now (step (now, c) s).0 (log_step max window (now, c) log).0
        × ((step (now, c) s).1 ≡ (log_step max window (now, c) log).1)
  unfolding step log_step consume
  step-Agrees now (consumes k) s log h = elim (Bool-cases (ltb (recent window now k log) max)) [
    | inl yes' ↦
        rw (is_allowed_lem k now s log h, yes')
          (Agrees-record k now _ log (Agrees-is_allowed k now s log h), refl)
    | inr no' ↦ rw (is_allowed_lem k now s log h, no') (Agrees-is_allowed k now s log h, refl)
  ]
  step-Agrees now (asks k) s log h = (Agrees-is_allowed k now s log h, is_allowed_lem k now s log h)
  step-Agrees now (records k) s log h = (Agrees-record k now s log h, refl)
  step-Agrees now (resets k) s log h = (Agrees-reset k now s log h, refl)

  pub Agrees-answers :
      (t : ℕ) (cs : List (ℕ × Call K)) (s : Limiter K) (log : List (Event K))
      → Ordered t cs
      → Agrees max window t s log
      → answers cs s ≡ log_answers max window cs log
  unfolding answers log_answers
  Agrees-answers t [] s log o h = refl
  Agrees-answers t ((now, c) ∷ cs) s log (le, o) h =
      let (h', same) = step-Agrees now c s log (Agrees-later t now s log le h) in
      ap₂ ◌∷◌ same (Agrees-answers now cs _ _ o h')

  pub Agrees-init : Agrees max window 0 (init {K = K} max window) []
  unfolding init JsMap.get
  Agrees-init = record { limit = refl; span = refl; same = λ later le k. refl }

  -- Whatever calls are made of a new limiter, if the clock does not run back, the limiter answers
  -- each as the log from which nothing expires does.
  pub answers-eq-log :
      (cs : List (ℕ × Call K))
      → Ordered 0 cs
      → answers cs (init max window) ≡ log_answers max window cs []
  answers-eq-log cs o = Agrees-answers 0 cs (init max window) [] o Agrees-init
