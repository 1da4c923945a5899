-- ===== src/Commands/Api.antt =====
-- cmd/api/main.go: the main goroutine and the one that serves HTTP.
pub mod Exits
use ragkb.Base.{ℕ, suc, Bool, true, false, Option, some, none, List, [], ◌∷◌}
use ragkb.Fault.{Error}

-- `main` waits for a signal, is in Server.Shutdown, stands before the deferred app.Close or behind it,
-- or has exited.
pub data Main : Type 0 where
  waiting shutting_down stopped leaving : Main
  exited : ℕ → Main

-- The goroutine is in ListenAndServe, has its error before the test of it, or has ended.
pub data Routine : Type 0 where
  listening : Routine
  failing : Error → Routine
  ended : Routine

pub record Process : Type 0 where
  pub main : Main
  pub routine : Routine
  -- How often `app.Close` has run
  pub closes : ℕ
  -- What a fatal message told before the exit, and what a failed shutdown told
  pub fatal : Option Error
  pub shutdown_error : Option Error

pub data Event : Type 0 where
  -- ListenAndServe fails by itself.
  listen_fails : Error → Event
  -- It returns http.ErrServerClosed, which it does once Shutdown has been called.
  listen_ends : Event
  -- logger.Fatal of the goroutine
  gives_up : Event
  takes_signal : Event
  -- Shutdown returns, within its ten seconds.
  shuts_down : Option Error → Event
  -- The deferred app.Close runs, and `main` returns; the goroutine still runs meanwhile.
  closes_app returns : Event

abbrev pub on_listen : Error → Routine → Process → Option Process
on_listen e listening p = some (record p { routine = failing e })
on_listen e _ p = none

abbrev pub on_closed : Main → Routine → Process → Option Process
on_closed shutting_down listening p = some (record p { routine = ended })
on_closed stopped listening p = some (record p { routine = ended })
on_closed leaving listening p = some (record p { routine = ended })
on_closed _ _ p = none

abbrev pub give_up : Routine → Process → Option Process
give_up (failing e) p = some (record p { main = exited 1; fatal = some e })
give_up _ p = none

abbrev pub take_signal : Main → Process → Option Process
take_signal waiting p = some (record p { main = shutting_down })
take_signal _ p = none

-- An error of the shutdown is logged.
abbrev pub shut_down : Option Error → Main → Process → Option Process
shut_down e shutting_down p = some (record p { main = stopped; shutdown_error = e })
shut_down e _ p = none

abbrev pub close_app : Main → Process → Option Process
close_app stopped p = some (record p { main = leaving; closes = suc p.closes })
close_app _ p = none

abbrev pub return : Main → Process → Option Process
return leaving p = some (record p { main = exited 0 })
return _ p = none

abbrev pub step : Event → Process → Option Process
step (listen_fails e) p = on_listen e p.routine p
step listen_ends p = on_closed p.main p.routine p
step gives_up p = give_up p.routine p
step takes_signal p = take_signal p.main p
step (shuts_down e) p = shut_down e p.main p
step closes_app p = close_app p.main p
step returns p = return p.main p

abbrev pub alive : Main → Option Process → Option Process
alive (exited _) q = none
alive _ q = q

unfoldable pub happen : Event → Process → Option Process
happen e p = alive p.main (step e p)

unfoldable pub history : List Event → Process → Option Process
history [] p = some p
history (e ∷ es) p = elim (happen e p) [ none ↦ none | some q ↦ history es q ]

abbrev stillborn : Error → Process
stillborn e = record {
  main = exited 1;
  routine = ended;
  closes = 0;
  fatal = some e;
  shutdown_error = none;
}

abbrev from_start : Option Error → Option Error → Option Error → Process
from_start (some e) _ _ = stillborn e
from_start none (some e) _ = stillborn e
from_start none none (some e) = stillborn e
from_start none none none = record {
  main = waiting;
  routine = listening;
  closes = 0;
  fatal = none;
  shutdown_error = none;
}

-- The errors of config.Load, of NewLogger and of NewAPI.
unfoldable pub boot : Option Error → Option Error → Option Error → Process
boot load logger app = from_start load logger app
