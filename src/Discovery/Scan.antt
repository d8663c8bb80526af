-- ===== src/Discovery/Scan.antt =====
-- One scan by UDP: `runDiscoveryScan` of apps/desktop/src/main/discoveryClient.ts, as a machine whose
-- inputs are the callbacks of the socket and of the timer.
use remote_controll_app.Prelude.{
  ℕ, suc, ◌+◌, ◌≡◌, refl, Bool, true, false, Option, none, some, List, [], ◌∷◌, ◌++◌, map, any,
  arith, if◌then◌else◌, Bool-cases, inl, inr,
}
use remote_controll_app.JsMap
use remote_controll_app.JsMap.{JsMap}
use remote_controll_app.Text.{Str, str_eq, lit}
use remote_controll_app.Discovery.{Response, Server, create_discovered_server, values_of, decimal}

pub record Scan : Type 0 where
  pub bound : Bool
  pub finished : Bool
  pub servers : JsMap Str Server

-- A message with what was read of it, its sender and the time; an error; the end of `bind`, with the
-- broadcast addresses; and the end of the timeout.
pub data Event : Type 0 where
  message : Option Response → Str → ℕ → Event
  error bound_to timed_out : Event

pub data Out : Type 0 where
  close : Out
  send : Str → Out
  schedule_timeout : Out
  resolve : List Server → Out
  reject : Out

abbrev pub start : Scan
start = record { bound = false; finished = false; servers = [] }

module _ (sort : List Server → List Server) (broadcast_addresses : List Str) where
  abbrev pub result : Scan → Out
  result s = resolve (sort (values_of s.servers))

  -- The callback of "message"; it does not look at `finished`.
  unfoldable pub on_message : Option Response → Str → ℕ → Scan → Scan
  on_message none address now s = s
  on_message (some r) address now s = record s {
    servers =
        JsMap.set (address ++ lit ":" ++ decimal r.port) (create_discovered_server r address now)
          s.servers;
  }

  unfoldable pub on_error : Scan → Scan × List Out
  on_error s =
      if s.finished
      then (s, [])
      else (record s { finished = true }, close ∷ (if s.bound then result s else reject) ∷ [])

  -- `finish`
  unfoldable pub finish : Scan → Scan × List Out
  finish s = if s.finished then (s, []) else (record s { finished = true }, close ∷ result s ∷ [])

  unfoldable pub on_bound : Scan → Scan × List Out
  on_bound s = (record s { bound = true }, map send broadcast_addresses ++ schedule_timeout ∷ [])

  unfoldable pub handle : Event → Scan → Scan × List Out
  unfolding on_message on_error finish on_bound
  handle (message r address now) s = (on_message r address now s, [])
  handle error s = on_error s
  handle bound_to s = on_bound s
  handle timed_out s = finish s

  -- What a sequence of callbacks puts out.
  unfoldable pub outputs : List Event → Scan → List Out
  unfolding handle
  outputs [] s = []
  outputs (e ∷ es) s = let (s', outs) = handle e s in outs ++ outputs es s'

-- How often the promise is settled.
abbrev pub settles : List Out → ℕ
settles [] = 0
settles (resolve servers ∷ outs) = suc (settles outs)
settles (reject ∷ outs) = suc (settles outs)
settles (close ∷ outs) = settles outs
settles (send address ∷ outs) = settles outs
settles (schedule_timeout ∷ outs) = settles outs

-- The callbacks that end a scan.
abbrev pub ends : Event → Bool
ends (message r address now) = false
ends error = true
ends bound_to = false
ends timed_out = true

settles-append : (xs ys : List Out) → settles (xs ++ ys) ≡ settles xs + settles ys
settles-append [] ys = omega arith
settles-append (resolve servers ∷ xs) ys = omega (arith, settles-append xs ys)
settles-append (reject ∷ xs) ys = omega (arith, settles-append xs ys)
settles-append (close ∷ xs) ys = settles-append xs ys
settles-append (send address ∷ xs) ys = settles-append xs ys
settles-append (schedule_timeout ∷ xs) ys = settles-append xs ys

settles-sends : (addresses : List Str) → settles (map send addresses) ≡ 0
settles-sends [] = refl
settles-sends (a ∷ addresses) = settles-sends addresses

module _ (sort : List Server → List Server) (broadcast_addresses : List Str) where
  finished_message :
      (r : Option Response) (address : Str) (now : ℕ) (s : Scan)
      → (on_message sort broadcast_addresses r address now s).finished ≡ s.finished
  unfolding on_message
  finished_message none address now s = refl
  finished_message (some r) address now s = refl

  settles-outputs :
      (es : List Event) (s : Scan)
      → settles (outputs sort broadcast_addresses es s)
        ≡ (if s.finished then 0 else if any ends es then 1 else 0)
  unfolding outputs handle on_error finish on_bound
  settles-outputs [] s = ground arith
  settles-outputs (message r address now ∷ es) s = ground (
    arith,
    finished_message r address now s,
    settles-outputs es (on_message sort broadcast_addresses r address now s),
  )
  settles-outputs (bound_to ∷ es) s =
      rw
        (
          settles-append (map send broadcast_addresses ++ schedule_timeout ∷ [])
              (outputs sort broadcast_addresses es (record s { bound = true })),
          settles-append (map send broadcast_addresses) (schedule_timeout ∷ []),
          settles-sends broadcast_addresses,
        )
        (omega (arith, settles-outputs es (record s { bound = true })))
  settles-outputs (error ∷ es) s = elim (Bool-cases s.finished) [
    | inl y ↦ rw y (ground (arith, settles-outputs es (record s { finished = true })))
    | inr n ↦ elim (Bool-cases s.bound) [
      | inl b ↦
          rw (n, b)
            (ground (arith, settles-outputs es (record s { finished = true; bound = true })))
      | inr b ↦
          rw (n, b)
            (ground (arith, settles-outputs es (record s { finished = true; bound = false })))
    ]
  ]
  settles-outputs (timed_out ∷ es) s = elim (Bool-cases s.finished) [
    | inl y ↦ rw y (ground (arith, settles-outputs es (record s { finished = true })))
    | inr n ↦ rw n (ground (arith, settles-outputs es (record s { finished = true })))
  ]

  -- In whatever order the callbacks run: the promise of a scan is settled once if an error or the
  -- timeout is among them, and otherwise not at all.
  pub settles_once :
      (es : List Event)
      → settles (outputs sort broadcast_addresses es start) ≡ (if any ends es then 1 else 0)
  settles_once es = settles-outputs es start
