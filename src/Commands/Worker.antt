-- ===== src/Commands/Worker.antt =====
-- cmd/worker/main.go: the main goroutine, the one that runs the worker, the channel between them and
-- the signals.
pub mod Exits
use ragkb.Base.{ℕ, suc, ◌+◌, ◌≡◌, Bool, true, false, Option, some, none, List, [], ◌∷◌}
use ragkb.Text.{Text}
use ragkb.Fault.{Error}

-- Where `main` stands behind the start of the worker: at the first select, at the second one, which
-- has a time limit, or at its end, with the exit code.
pub data Main : Type 0 where
  waiting draining : Main
  exited : ℕ → Main

-- The goroutine: in `worker.Run`, before `errCh <- err`, before `close(errCh)`, or at its end.
pub data Routine : Type 0 where
  running : Routine
  failing : Error → Routine
  closing ended : Routine

pub record Process : Type 0 where
  pub main : Main
  pub routine : Routine
  -- The channel `errCh`, which holds one error, and whether it is closed
  pub err_ch : Option Error
  pub is_closed : Bool
  -- The channel `quit`, which holds one signal
  pub quit : Bool
  -- Whether the context of the worker is cancelled
  pub cancelled : Bool
  -- How often `worker.Close` and `logger.Sync` have run
  pub closes : ℕ
  pub syncs : ℕ
  -- What a fatal message told before the exit, and what a panic did
  pub fatal : Option Error
  pub panicked : Option Text

-- What may happen next. A `select` with more than one case ready takes any of these.
pub data Event : Type 0 where
  -- worker.Run returns nil, which it does only for a context that is cancelled; or an error; or a panic
  -- of the goroutine ends the process.
  run_ends : Event
  run_fails : Error → Event
  run_panics : Text → Event
  sends closes_channel : Event
  -- The operating system sends SIGINT or SIGTERM.
  signalled : Event
  -- A case of the select that `main` stands at
  takes_signal takes_error takes_close times_out : Event

-- `return` of `main`: the deferred cancel, worker.Close and logger.Sync.
abbrev pub leave : Process → Process
leave p = record p { main = exited 0; cancelled = true; closes = suc p.closes; syncs = suc p.syncs }

-- `logger.Fatal` exits without the deferred calls.
abbrev pub die : Error → Process → Process
die e p = record p { main = exited 1; fatal = some e }

-- The goroutine's steps.
abbrev pub on_running : (Process → Process) → Routine → Process → Option Process
on_running f running p = some (f p)
on_running f _ p = none

abbrev pub end_run : Bool → Routine → Process → Option Process
end_run true running p = some (record p { routine = closing })
end_run _ _ p = none

abbrev pub send : Routine → Option Error → Process → Option Process
send (failing e) none p = some (record p { err_ch = some e; routine = closing })
send _ _ p = none

abbrev pub close_channel : Routine → Process → Option Process
close_channel closing p = some (record p { is_closed = true; routine = ended })
close_channel _ p = none

-- The cases of the selects: a closed channel gives nil once it is empty.
abbrev pub take_signal : Main → Bool → Process → Option Process
take_signal waiting true p = some (record p { main = draining; quit = false; cancelled = true })
take_signal _ _ p = none

abbrev pub take_error : Main → Option Error → Process → Option Process
take_error waiting (some e) p = some (die e (record p { err_ch = none }))
take_error draining (some e) p = some (leave (record p { err_ch = none }))
take_error _ _ p = none

abbrev pub take_close : Main → Option Error → Bool → Process → Option Process
take_close waiting none true p = some (leave p)
take_close draining none true p = some (leave p)
take_close _ _ _ p = none

abbrev pub time_out : Main → Process → Option Process
time_out draining p = some (leave p)
time_out _ p = none

abbrev pub step : Event → Process → Option Process
step run_ends p = end_run p.cancelled p.routine p
step (run_fails e) p = on_running (λ q. record q { routine = failing e }) p.routine p
step (run_panics x) p =
    on_running (λ q. record q { main = exited 2; panicked = some x }) p.routine p
step sends p = send p.routine p.err_ch p
step closes_channel p = close_channel p.routine p
step signalled p = some (record p { quit = true })
step takes_signal p = take_signal p.main p.quit p
step takes_error p = take_error p.main p.err_ch p
step takes_close p = take_close p.main p.err_ch p.is_closed p
step times_out p = time_out p.main p

-- Nothing happens to a process that has exited, or that the event does not fit.
abbrev pub alive : Main → Option Process → Option Process
alive (exited _) q = none
alive _ q = q

unfoldable pub happen : Event → Process → Option Process
happen e p = alive p.main (step e p)

unfoldable pub history : List Event → Process → Option Process
history [] p = some p
history (e ∷ es) p = elim (happen e p) [ none ↦ none | some q ↦ history es q ]

-- The start: the configuration is read, and the logger and the worker are made. What fails is told,
-- and the process exits; the logger is synchronised by none of these exits.
abbrev stillborn : Error → Process
stillborn e = record {
  main = exited 1;
  routine = ended;
  err_ch = none;
  is_closed = false;
  quit = false;
  cancelled = false;
  closes = 0;
  syncs = 0;
  fatal = some e;
  panicked = none;
}

abbrev pub started : Process
started = record {
  main = waiting;
  routine = running;
  err_ch = none;
  is_closed = false;
  quit = false;
  cancelled = false;
  closes = 0;
  syncs = 0;
  fatal = none;
  panicked = none;
}

abbrev from_start : Option Error → Option Error → Option Error → Process
from_start (some e) _ _ = stillborn e
from_start none (some e) _ = stillborn e
from_start none none (some e) = stillborn e
from_start none none none = started

-- The errors of config.Load, of NewLogger and of NewWorker.
unfoldable pub boot : Option Error → Option Error → Option Error → Process
boot load logger worker = from_start load logger worker
