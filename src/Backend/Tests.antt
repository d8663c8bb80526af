-- ===== src/Backend/Tests.antt =====
-- A server that is stopped, started again, and then hears of the exit of its first process.
use remote_controll_app.Prelude.{ℕ, ◌≡◌, refl, Bool, true, none, some, List, [], ◌∷◌, nat_beq, not}
use remote_controll_app.Text.{lit}
use remote_controll_app.Backend.{
  find_available_port, host, viewer, disabled, init, start, after_port, on_spawn, on_error, on_exit,
  exit_failure, stop, Event, starts, stops, port_found, spawned, exits, handle, run,
}
use remote_controll_app.Backend.Laws.{
  IsConsistent, run-IsConsistent, IsFirstPort, find_available_port-IsFirstPort,
}

backend : Unit {0}
unfolding find_available_port start after_port on_spawn on_error on_exit exit_failure stop handle
    run
backend = tt

abbrev restarted : List Event
restarted =
    starts host
    ∷ port_found (some 47315) 1 (lit "a")
    ∷ spawned 47315
    ∷ stops
    ∷ starts host
    ∷ port_found (some 47316) 2 (lit "b")
    ∷ spawned 47316
    ∷ []

abbrev late_exit : List Event
late_exit =
    starts host
    ∷ port_found (some 47315) 1 (lit "a")
    ∷ spawned 47315
    ∷ stops
    ∷ starts host
    ∷ port_found (some 47316) 2 (lit "b")
    ∷ exits 47315 none (some (lit "SIGTERM"))
    ∷ []

-- The late exit makes the controller forget the second process.
restart_test : ((run restarted init).process ≡ some 2) × ((run late_exit init).process ≡ none)
unfolding backend
restart_test = (refl, refl)

-- A start as a viewer: the server still runs, and its status says that it is disabled.
abbrev switched : List Event
switched = starts host ∷ port_found (some 47315) 1 (lit "a") ∷ spawned 47315 ∷ starts viewer ∷ []

switch_test :
    ((run switched init).process ≡ some 1) × ((run switched init).status.status ≡ disabled)
unfolding backend
switch_test = (refl, refl)

run-IsConsistent_example : IsConsistent true true (run switched init)
run-IsConsistent_example = run-IsConsistent switched

abbrev above : ℕ → Bool
above port = not (nat_beq port 47315)

port_test : find_available_port above 47315 20 ≡ some 47316
unfolding backend
port_test = refl

find_available_port-IsFirstPort_example :
    IsFirstPort above 47315 47335 (find_available_port above 47315 20)
find_available_port-IsFirstPort_example = find_available_port-IsFirstPort above 47315 20
