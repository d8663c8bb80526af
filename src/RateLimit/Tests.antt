-- ===== src/RateLimit/Tests.antt =====
-- Two consumed events within a window of ten milliseconds, and a third call that is refused.
use remote_controll_app.Prelude.{ℕ, ◌≡◌, refl, true, false, List, [], ◌∷◌, ◌≤◌, arith}
use remote_controll_app.JsMap
use remote_controll_app.Text.{Str, str_eq, str_beq, lit}
use remote_controll_app.RateLimit.{
  init, is_allowed, record_event, reset, consume, get_active_events,
}
use remote_controll_app.RateLimit.Log.{
  Call, consumes, asks, records, resets, Ordered, log_answers, log_step,
}
use remote_controll_app.RateLimit.Refinement.{step, answers, answers-eq-log}
use remote_controll_app.RateLimit.Window.{admitted, load, admitted_in_window}

limiter : Unit {0}
unfolding init is_allowed record_event reset consume get_active_events JsMap.get JsMap.set
    JsMap.delete str_beq step answers admitted log_step log_answers
limiter = tt

abbrev calls : List (ℕ × Call Str)
calls =
    (1, consumes (lit "a"))
    ∷ (2, consumes (lit "a"))
    ∷ (3, asks (lit "a"))
    ∷ (4, asks (lit "b"))
    ∷ (11, consumes (lit "a"))
    ∷ (11, records (lit "a"))
    ∷ (12, resets (lit "a"))
    ∷ (13, asks (lit "a"))
    ∷ []

calls_test : answers calls (init 2 10) ≡ true ∷ true ∷ false ∷ true ∷ true ∷ true ∷ true ∷ true ∷ []
unfolding limiter
calls_test = refl

calls-Ordered : Ordered 0 calls
calls-Ordered = ground arith

answers-eq-log_example : answers calls (init 2 10) ≡ log_answers 2 10 calls []
answers-eq-log_example = answers-eq-log 2 10 calls calls-Ordered

abbrev uses : List (ℕ × Str)
uses = (1, lit "a") ∷ (2, lit "a") ∷ (3, lit "a") ∷ (11, lit "a") ∷ []

uses_test : admitted uses (init 2 10) ≡ (lit "a", 1) ∷ (lit "a", 2) ∷ (lit "a", 11) ∷ []
unfolding limiter
uses_test = refl

uses-Ordered : Ordered 0 uses
uses-Ordered = ground arith

admitted_in_window_example : load 10 11 (lit "a") (admitted uses (init 2 10)) ≤ 2
admitted_in_window_example = admitted_in_window 2 10 uses uses-Ordered 11 (lit "a")
