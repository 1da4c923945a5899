-- ===== src/Memory/Processes.antt =====
-- The theorems about the processes, applied to runs of them.
use mathlib.Core.List.{Memᴰ}
use ragkb.Base.{ℕ, ◌≡◌, ◌⊎◌, ◌≤◌, refl, true, false, some, none, List, [], ◌∷◌}
use ragkb.Text.{Text, lit}
use ragkb.Fault.{Error, other}
use ragkb.Commands.Worker
use ragkb.Commands.Worker.Exits.{cases_taken, history-ends}
use ragkb.Commands.Api
use ragkb.Commands.Api.Exits.{history-closes}

-- A signal comes while the worker runs, and the worker does not end within the ten seconds.
abbrev interrupted : List Worker.Event
interrupted = Worker.signalled ∷ Worker.takes_signal ∷ Worker.times_out ∷ []

abbrev timed_out : Worker.Process
timed_out = record {
  main = Worker.exited 0;
  routine = Worker.running;
  err_ch = none;
  is_closed = false;
  quit = false;
  cancelled = true;
  closes = 1;
  syncs = 1;
  fatal = none;
  panicked = none;
}

-- The consumer is closed while its loop still runs.
interrupted_run : Worker.history interrupted (Worker.boot none none none) ≡ some timed_out
unfolding Worker.history Worker.happen Worker.boot
interrupted_run = refl

history-ends_example :
    (cases_taken interrupted ≤ 2)
    × (((code : ℕ) × (timed_out.main ≡ Worker.exited code))
        ⊎ ((q' : Worker.Process) × (Worker.happen Worker.takes_signal timed_out ≡ some q'))
        ⊎ ((q' : Worker.Process) × (Worker.happen Worker.times_out timed_out ≡ some q')))
history-ends_example =
    history-ends none none none interrupted timed_out interrupted_run (Memᴰ.head refl)

abbrev taken : Error
taken = other (lit "listen tcp :8080: bind: address already in use")

-- The port is taken.
abbrev port_taken : List Api.Event
port_taken = Api.listen_fails taken ∷ Api.gives_up ∷ []

abbrev gave_up : Api.Process
gave_up = record {
  main = Api.exited 1;
  routine = Api.failing taken;
  closes = 0;
  fatal = some taken;
  shutdown_error = none;
}

port_taken_run : Api.history port_taken (Api.boot none none none) ≡ some gave_up
unfolding Api.history Api.happen Api.boot
port_taken_run = refl

history-closes_example :
    ((◌≡◌ {A = ℕ} 1 0) × (gave_up.closes ≡ 1) × (gave_up.fatal ≡ none))
    ⊎ ((◌≡◌ {A = ℕ} 1 1) × (gave_up.closes ≤ 1) × (e : Error) × (gave_up.fatal ≡ some e))
history-closes_example = history-closes none none none port_taken gave_up 1 port_taken_run refl

-- The goroutine fails while the resources have been closed and the process has not exited yet.
late_failure : List Api.Event
late_failure =
    Api.takes_signal
    ∷ Api.shuts_down none
    ∷ Api.closes_app
    ∷ Api.listen_fails taken
    ∷ Api.gives_up
    ∷ []

late_failure_run :
    Api.history late_failure (Api.boot none none none) ≡ some (record gave_up { closes = 1 })
unfolding late_failure Api.history Api.happen Api.boot
late_failure_run = refl
