-- ===== src/Backend.antt =====
-- apps/desktop/src/main/backendProcess.ts: the server that the desktop of a host runs as a child
-- process. A process is named by a number, with its log; a text of an exit error is a constructor.
pub mod Laws
mod Tests
use remote_controll_app.Prelude.{
  ℕ, zero, suc, ◌+◌, Bool, true, false, Option, none, some, List, [], ◌∷◌, if◌then◌else◌, nat_beq,
}
use remote_controll_app.Text.{Str}

-- `findAvailablePort`: the ports from `start` on, `span` of them; `none` where it throws.
unfoldable pub find_available_port : (ℕ → Bool) → ℕ → ℕ → Option ℕ
find_available_port is_available start zero = none
find_available_port is_available start (suc span) =
    let rest = find_available_port is_available (suc start) span in
    if is_available start then some start else rest

-- `appMode`
pub data Mode : Type 0 where
  combined host viewer : Mode

pub data Status : Type 0 where
  disabled starting running stopped error : Status

pub data Failure : Type 0 where
  message : Str → Failure
  exited : ℕ → Option Str → Failure

-- `EmbeddedBackendStatus`; the URL follows from the port.
pub record BackendStatus : Type 0 where
  pub status : Status
  pub port : Option ℕ
  pub failure : Option Failure

-- The variables of `createEmbeddedBackendController`, and how many starts wait for a port.
pub record Controller : Type 0 where
  pub process : Option ℕ
  pub status : BackendStatus
  pub log : Option ℕ
  pub token : Option Str
  pub waiting : ℕ

abbrev pub init : Controller
init = record {
  process = none;
  status = record { status = disabled; port = none; failure = none };
  log = none;
  token = none;
  waiting = 0;
}

abbrev pub start_idle : Controller → Option ℕ → Controller
start_idle c none = record c { waiting = suc c.waiting }
start_idle c (some id) = c

-- `startEmbeddedBackend` up to `await findAvailablePort(...)`.
unfoldable pub start : Mode → Controller → Controller
start host c = start_idle c c.process
start mode c = record c { status = record { status = disabled; port = none; failure = none } }

-- After it: a process was spawned with a new token, or no port was found.
abbrev pub spawn : Option ℕ → ℕ → Str → Controller → Controller
spawn none id token c = c
spawn (some port) id token c = record c {
  process = some id;
  status = record { status = starting; port = some port; failure = none };
  log = some id;
  token = some token;
}

-- It does nothing while no start waits.
unfoldable pub after_port : Option ℕ → ℕ → Str → Controller → ℕ → Controller
after_port found id token c zero = c
after_port found id token c (suc left) = spawn found id token (record c { waiting = left })

-- The three callbacks of a process, with its port. They do not look at which process is current.
unfoldable pub on_spawn : ℕ → Controller → Controller
on_spawn port c = record c {
  status = record { status = running; port = some port; failure = none };
}

unfoldable pub on_error : ℕ → Str → Controller → Controller
on_error port text c = record c {
  process = none;
  status = record { status = error; port = some port; failure = some (message text) };
  log = none;
  token = none;
}

-- `formatEmbeddedBackendExitError`
unfoldable pub exit_failure : Option ℕ → Option Str → Option Failure
exit_failure none signal = none
exit_failure (some code) signal = if nat_beq code 0 then none else some (exited code signal)

unfoldable pub on_exit : ℕ → Option ℕ → Option Str → Controller → Controller
unfolding exit_failure
on_exit port code signal c = record c {
  process = none;
  status = record { status = stopped; port = some port; failure = exit_failure code signal };
  log = none;
  token = none;
}

abbrev pub stop_process : Controller → Option ℕ → Controller
stop_process c none = c
stop_process c (some id) = record c {
  process = none;
  status = record { status = stopped; port = c.status.port; failure = c.status.failure };
  log = none;
  token = none;
}

-- `stopEmbeddedBackend`
unfoldable pub stop : Controller → Controller
stop c = stop_process c c.process

pub data Event : Type 0 where
  starts : Mode → Event
  stops : Event
  port_found : Option ℕ → ℕ → Str → Event
  spawned : ℕ → Event
  failed : ℕ → Str → Event
  exits : ℕ → Option ℕ → Option Str → Event

unfoldable pub handle : Event → Controller → Controller
unfolding start after_port on_spawn on_error on_exit stop
handle (starts mode) c = start mode c
handle stops c = stop c
handle (port_found found id token) c = after_port found id token c c.waiting
handle (spawned port) c = on_spawn port c
handle (failed port text) c = on_error port text c
handle (exits port code signal) c = on_exit port code signal c

unfoldable pub run : List Event → Controller → Controller
unfolding handle
run [] c = c
run (e ∷ es) c = run es (handle e c)
