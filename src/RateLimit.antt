-- ===== src/RateLimit.antt =====
-- apps/server/src/signaling/rateLimit.ts: the class `SlidingWindowRateLimiter`. Keys are of any
-- type with an equality test (the program's are strings), and the clock is an argument.
pub mod Log
pub mod Refinement
pub mod Window
mod Tests
use remote_controll_app.Prelude.{
  ℕ, ◌+◌, Bool, true, false, Option, none, some, List, [], ◌∷◌, ◌++◌, Eq, if◌then◌else◌, ltb,
  length, keep,
}
use remote_controll_app.JsMap
use remote_controll_app.JsMap.{JsMap}

-- The fields of the class, in the constructor's order after the map.
pub record Limiter {ℓ} (K : Type ℓ) : Type ℓ where
  pub events : JsMap K (List ℕ)
  pub max_events : ℕ
  pub window_ms : ℕ

-- `timestamp > now - windowMs`, where the difference may be negative.
abbrev pub is_active : ℕ → ℕ → ℕ → Bool
is_active window now timestamp = ltb now (timestamp + window)

-- `this.events.get(key) ?? []`
abbrev pub or_empty : Option (List ℕ) → List ℕ
or_empty none = []
or_empty (some ts) = ts

-- The writes of `getActiveEvents`: an empty list is deleted, any other is stored.
abbrev pub store {ℓ} : {K : Type ℓ} ⦃e : Eq K⦄ → K → List ℕ → Limiter K → Limiter K
store key [] s = record s { events = JsMap.delete key s.events }
store key (t ∷ ts) s = record s { events = JsMap.set key (t ∷ ts) s.events }

module _ {ℓ} {K : Type ℓ} ⦃e : Eq K⦄ where
  unfoldable pub init : ℕ → ℕ → Limiter K
  init max window = record { events = []; max_events = max; window_ms = window }

  -- `getActiveEvents`: the new state, and the active events.
  unfoldable pub get_active_events : K → ℕ → Limiter K → Limiter K × List ℕ
  get_active_events key now s =
      let active = keep (is_active s.window_ms now) (or_empty (JsMap.get key s.events)) in
      (store key active s, active)

  unfoldable pub is_allowed : K → ℕ → Limiter K → Limiter K × Bool
  unfolding get_active_events
  is_allowed key now s =
      let (s', active) = get_active_events key now s in (s', ltb (length active) s.max_events)

  -- `record`
  unfoldable pub record_event : K → ℕ → Limiter K → Limiter K
  unfolding get_active_events
  record_event key now s =
      let (s', active) = get_active_events key now s in
      record s' { events = JsMap.set key (active ++ now ∷ []) s'.events }

  unfoldable pub reset : K → Limiter K → Limiter K
  reset key s = record s { events = JsMap.delete key s.events }

  unfoldable pub consume : K → ℕ → Limiter K → Limiter K × Bool
  unfolding is_allowed record_event
  consume key now s =
      let (s', allowed) = is_allowed key now s in
      if allowed then (record_event key now s', true) else (s', false)
