-- ===== src/Backend/Laws.antt =====
-- What holds of the embedded server's controller of apps/desktop/src/main/backendProcess.ts, in
-- whatever order its callbacks run.
use remote_controll_app.Prelude.{
  ℕ, zero, suc, ◌+◌, ◌≤◌, ◌<◌, ◌≡◌, ◌∙◌, refl, subst, nat_beq, Bool, true, false, Option, none,
  some, List, [], ◌∷◌, arith, Bool-cases, inl, inr, ◌||◌,
}
use remote_controll_app.Text.{Str}
use remote_controll_app.Backend.{
  find_available_port, combined, host, viewer, Status, starting, running, disabled, Controller,
  init, start_idle, start, after_port, on_spawn, on_error, on_exit, stop_process, stop, Event,
  starts, stops, port_found, spawned, failed, exits, handle, run,
}

-- A process, its log and its token are there together, or none of them.
pub data Together : Option ℕ → Option ℕ → Option Str → Type 0 where
  absent : Together none none none
  present : (id : ℕ) (token : Str) → Together (some id) (some id) (some token)

-- While there is a process, it starts or runs; it may be called disabled once another mode asked.
abbrev pub IsLive : Bool → Option ℕ → Status → Type 0
IsLive other none s = Unit
IsLive other (some id) starting = Unit
IsLive other (some id) running = Unit
IsLive other (some id) disabled = other ≡ true
IsLive other (some id) _ = ⊥

-- Where no host asked there is no process, and no start waits.
abbrev pub IsOff : Bool → Controller → Type 0
IsOff true c = Unit
IsOff false c = (c.process ≡ none) × (c.waiting ≡ 0)

pub record IsConsistent (other hosted : Bool) (c : Controller) : Type 0 where
  pub together : Together c.process c.log c.token
  pub live : IsLive other c.process c.status.status
  pub off : IsOff hosted c

-- Whether a start in another mode than a host's was asked for, and whether a host's was.
abbrev asks_other : Event → Bool
asks_other (starts host) = false
asks_other (starts mode) = true
asks_other e = false

abbrev asks_host : Event → Bool
asks_host (starts host) = true
asks_host e = false

abbrev pub other_asked : List Event → Bool → Bool
other_asked [] asked = asked
other_asked (e ∷ es) asked = other_asked es (asks_other e || asked)

abbrev pub host_asked : List Event → Bool → Bool
host_asked [] asked = asked
host_asked (e ∷ es) asked = host_asked es (asks_host e || asked)

IsLive-running : (other : Bool) (o : Option ℕ) → IsLive other o running
IsLive-running other none = tt
IsLive-running other (some id) = tt

IsLive-disabled : (o : Option ℕ) → IsLive true o disabled
IsLive-disabled none = tt
IsLive-disabled (some id) = refl

-- A controller without a process is consistent if the starts that wait are allowed.
none-IsConsistent :
    (other hosted : Bool) (c : Controller)
    → c.process ≡ none
    → c.log ≡ none
    → c.token ≡ none
    → IsOff hosted c
    → IsConsistent other hosted c
none-IsConsistent other hosted c p l t off = record {
  together = rw (p, l, t) absent;
  live = rw p tt;
  off = off;
}

IsOff-same :
    (hosted : Bool) (c d : Controller)
    → (c.process ≡ none → d.process ≡ none)
    → d.waiting ≡ c.waiting
    → IsOff hosted c
    → IsOff hosted d
IsOff-same true c d p w off = tt
IsOff-same false c d p w off = (p off.0, w ∙ off.1)

start_idle-IsConsistent :
    (other hosted : Bool) (c : Controller) (o : Option ℕ)
    → IsConsistent other hosted c
    → IsConsistent other true (start_idle c o)
start_idle-IsConsistent other hosted c none h = record {
  together = h.together;
  live = h.live;
  off = tt;
}
start_idle-IsConsistent other hosted c (some id) h = record {
  together = h.together;
  live = h.live;
  off = tt;
}

disabled-IsConsistent :
    (other hosted : Bool) (c : Controller)
    → IsConsistent other hosted c
    → IsConsistent true hosted
        (record c { status = record { status = disabled; port = none; failure = none } })
disabled-IsConsistent other hosted c h = record {
  together = h.together;
  live = IsLive-disabled c.process;
  off = IsOff-same hosted c _ (λ e. e) refl h.off;
}

stop_process-IsConsistent :
    (other hosted : Bool) (c : Controller) (o : Option ℕ)
    → IsConsistent other hosted c
    → IsConsistent other hosted (stop_process c o)
stop_process-IsConsistent other hosted c none h = h
stop_process-IsConsistent other hosted c (some id) h =
    none-IsConsistent other hosted (stop_process c (some id)) refl refl refl
      (IsOff-same hosted c (stop_process c (some id)) (λ e. refl) refl h.off)

after_port-IsConsistent :
    (other : Bool) (found : Option ℕ) (id : ℕ) (token : Str) (c : Controller) (n : ℕ)
    → IsConsistent other true c
    → IsConsistent other true (after_port found id token c n)
unfolding after_port
after_port-IsConsistent other found id token c zero h = h
after_port-IsConsistent other none id token c (suc n) h = record {
  together = h.together;
  live = h.live;
  off = tt;
}
after_port-IsConsistent other (some port) id token c (suc n) h = record {
  together = present id token;
  live = tt;
  off = tt;
}

port_found-IsConsistent :
    (other hosted : Bool) (found : Option ℕ) (id : ℕ) (token : Str) (c : Controller)
    → IsConsistent other hosted c
    → IsConsistent other hosted (after_port found id token c c.waiting)
unfolding after_port
port_found-IsConsistent other true found id token c h =
    after_port-IsConsistent other found id token c c.waiting h
port_found-IsConsistent other false found id token c h = rw (h.off.1, after_port) h

handle-IsConsistent :
    (other hosted : Bool) (e : Event) (c : Controller)
    → IsConsistent other hosted c
    → IsConsistent (asks_other e || other) (asks_host e || hosted) (handle e c)
unfolding handle start on_spawn on_error on_exit stop
handle-IsConsistent other hosted (starts host) c h =
    start_idle-IsConsistent other hosted c c.process h
handle-IsConsistent other hosted (starts combined) c h = disabled-IsConsistent other hosted c h
handle-IsConsistent other hosted (starts viewer) c h = disabled-IsConsistent other hosted c h
handle-IsConsistent other hosted stops c h = stop_process-IsConsistent other hosted c c.process h
handle-IsConsistent other hosted (port_found found id token) c h =
    port_found-IsConsistent other hosted found id token c h
handle-IsConsistent other hosted (spawned port) c h = record {
  together = h.together;
  live = IsLive-running other c.process;
  off = IsOff-same hosted c (on_spawn port c) (λ e. e) refl h.off;
}
handle-IsConsistent other hosted (failed port text) c h =
    none-IsConsistent other hosted (on_error port text c) refl refl refl
      (IsOff-same hosted c (on_error port text c) (λ e. refl) refl h.off)
handle-IsConsistent other hosted (exits port code signal) c h =
    none-IsConsistent other hosted (on_exit port code signal c) refl refl refl
      (IsOff-same hosted c (on_exit port code signal c) (λ e. refl) refl h.off)

run-from-IsConsistent :
    (other hosted : Bool) (es : List Event) (c : Controller)
    → IsConsistent other hosted c
    → IsConsistent (other_asked es other) (host_asked es hosted) (run es c)
unfolding run
run-from-IsConsistent other hosted [] c h = h
run-from-IsConsistent other hosted (e ∷ es) c h =
    run-from-IsConsistent (asks_other e || other) (asks_host e || hosted) es (handle e c)
      (handle-IsConsistent other hosted e c h)

-- In whatever order starts in any mode, stops and the callbacks of any process run: the process, its
-- log and its token are there together or not at all; a process that is there starts or runs, and is
-- called disabled only after a start in another mode than a host's; and unless a host's start was
-- asked for there is no process, and no start waits for a port.
pub run-IsConsistent :
    (es : List Event) → IsConsistent (other_asked es false) (host_asked es false) (run es init)
run-IsConsistent es =
    run-from-IsConsistent false false es init
      (none-IsConsistent false false init refl refl refl (refl, refl))

-- What a search for a port finds: the first that is available, or none is.
abbrev pub IsFirstPort : (ℕ → Bool) → ℕ → ℕ → Option ℕ → Type 0
IsFirstPort available lo hi none = (q : ℕ) → lo ≤ q → q < hi → available q ≡ false
IsFirstPort available lo hi (some p) =
    (lo ≤ p) × (p < hi) × (available p ≡ true) × ((q : ℕ) → lo ≤ q → q < p → available q ≡ false)

IsFirstPort-next :
    (available : ℕ → Bool) (lo hi : ℕ) (o : Option ℕ)
    → available lo ≡ false
    → IsFirstPort available (suc lo) hi o
    → IsFirstPort available lo hi o
IsFirstPort-next available lo hi none h rest = λ q le lt. elim (Bool-cases (nat_beq q lo)) [
  | inl y ↦ let same : q ≡ lo = ground arith in rw same h
  | inr n ↦ rest q (ground arith) lt
]
IsFirstPort-next available lo hi (some p) h (le, lt, free, before) = (
  omega arith,
  lt,
  free,
  λ q from to. elim (Bool-cases (nat_beq q lo)) [
    | inl y ↦ let same : q ≡ lo = ground arith in rw same h
    | inr n ↦ before q (ground arith) to
  ],
)

-- The search gives the first available port of its span, and fails only where none is available.
pub find_available_port-IsFirstPort :
    (available : ℕ → Bool) (lo span : ℕ)
    → IsFirstPort available lo (lo + span) (find_available_port available lo span)
unfolding find_available_port
find_available_port-IsFirstPort available lo zero = λ q le lt. ground arith
find_available_port-IsFirstPort available lo (suc span) = elim (Bool-cases (available lo)) [
  | inl y ↦ rw y (omega arith, omega arith, y, λ q le lt. ground arith)
  | inr n ↦ rw n (
      IsFirstPort-next available lo (lo + suc span) _ n (
        subst
          (λ hi. IsFirstPort available (suc lo) hi (find_available_port available (suc lo) span))
          (omega arith) (find_available_port-IsFirstPort available (suc lo) span)))
]
