-- ===== src/RateLimit/Log.antt =====
-- The specification of the rate limiter: a log of every recorded event, from which nothing ever
-- expires, and a question is answered by counting.
use remote_controll_app.Prelude.{
  ℕ, ◌≤◌, ◌≡◌, refl, Bool, true, false, List, [], ◌∷◌, ◌++◌, arith, Eq, ◌==◌, if◌then◌else◌, ltb,
  length, keep,
}
use remote_controll_app.RateLimit.{is_active}

-- The operations of the class that are called from outside.
pub data Call {ℓ} (K : Type ℓ) : Type ℓ where
  consumes asks records resets : K → Call K

-- An event of a key, with its time.
abbrev pub Event {ℓ} : Type ℓ → Type ℓ
Event K = K × ℕ

-- The clock never runs back over the calls.
abbrev pub Ordered {ℓ} : {C : Type ℓ} → ℕ → List (ℕ × C) → Type 0
Ordered t [] = Unit
Ordered t ((now, c) ∷ cs) = (t ≤ now) × Ordered now cs

module _ {ℓ} {K : Type ℓ} ⦃e : Eq K⦄ where
  -- The times of a key's events.
  abbrev pub times : K → List (Event K) → List ℕ
  times k [] = []
  times k ((j, t) ∷ log) = let rest = times k log in if j == k then t ∷ rest else rest

  -- How many events of the key are younger than the window.
  abbrev pub recent : ℕ → ℕ → K → List (Event K) → ℕ
  recent window now k log = length (keep (is_active window now) (times k log))

  abbrev pub forget : K → List (Event K) → List (Event K)
  forget k [] = []
  forget k ((j, t) ∷ log) = let rest = forget k log in if j == k then rest else (j, t) ∷ rest

  -- One call on the log: the new log and the answer (`true` where the call has none).
  unfoldable pub log_step : ℕ → ℕ → ℕ × Call K → List (Event K) → List (Event K) × Bool
  log_step max window (now, consumes k) log =
      if ltb (recent window now k log) max then (log ++ (k, now) ∷ [], true) else (log, false)
  log_step max window (now, asks k) log = (log, ltb (recent window now k log) max)
  log_step max window (now, records k) log = (log ++ (k, now) ∷ [], true)
  log_step max window (now, resets k) log = (forget k log, true)

  unfoldable pub log_answers : ℕ → ℕ → List (ℕ × Call K) → List (Event K) → List Bool
  unfolding log_step
  log_answers max window [] log = []
  log_answers max window (c ∷ cs) log =
      let (log', answer) = log_step max window c log in answer ∷ log_answers max window cs log'

  pub times-append :
      (k : K) (xs ys : List (Event K)) → times k (xs ++ ys) ≡ times k xs ++ times k ys
  times-append k [] ys = refl
  times-append k ((j, t) ∷ xs) ys = ground (arith, times-append k xs ys)

  pub times-forget :
      (j k : K) (log : List (Event K))
      → times j (forget k log) ≡ (if k == j then [] else times j log)
  times-forget j k [] = ground arith
  times-forget j k ((i, t) ∷ log) =
      ground (arith, times-forget j k log, e.beq_iff i k, e.beq_iff i j, e.beq_iff k j)

-- What is no longer active stays so.
pub keep-keep :
    (w now later : ℕ) (ts : List ℕ)
    → now ≤ later
    → keep (is_active w later) (keep (is_active w now) ts) ≡ keep (is_active w later) ts
keep-keep w now later [] h = refl
keep-keep w now later (t ∷ ts) h = ground (arith, keep-keep w now later ts)
