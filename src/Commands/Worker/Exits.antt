-- ===== src/Commands/Worker/Exits.antt =====
-- How the process of cmd/worker/main.go ends.
use mathlib.Core.List.{Memᴰ}
use mathlib.Core.List.Memᴰ
use ragkb.Base.{
  ℕ, ◌≡◌, ◌⊎◌, inl, inr, refl, sym, Bool, true, false, Option, some, none, List, [], ◌∷◌, arith,
  Option-cases, Bool-cases, ◌+◌, ◌≤◌,
}
use ragkb.Text.{Text}
use ragkb.Fault.{Error}
use ragkb.Commands.Worker.{
  Main, waiting, draining, exited, Routine, running, failing, closing, ended, Process, Event,
  run_ends, signalled, takes_signal, takes_error, takes_close, times_out, leave, happen, history,
  boot,
}

-- By where `main` stands: its three ways to exit.
abbrev pub Accounts : Main → Process → Type 0
Accounts waiting p = (p.closes ≡ 0) × (p.cancelled ≡ false) × (p.fatal ≡ none) × (p.panicked ≡ none)
Accounts draining p = (p.closes ≡ 0) × (p.cancelled ≡ true) × (p.fatal ≡ none) × (p.panicked ≡ none)
Accounts (exited code) p =
    ((code ≡ 0) × (p.closes ≡ 1) × (p.cancelled ≡ true) × (p.fatal ≡ none) × (p.panicked ≡ none))
    ⊎ ((code ≡ 1)
        × (p.closes ≡ 0)
        × (p.cancelled ≡ false)
        × (p.panicked ≡ none)
        × (e : Error) × (p.fatal ≡ some e))
    ⊎ ((code ≡ 2) × (p.closes ≡ 0) × (p.fatal ≡ none) × (x : Text) × (p.panicked ≡ some x))

-- The channel, by where the goroutine stands: an error is sent at most once, into an empty channel.
abbrev Channel : Routine → Process → Type 0
Channel running p = (p.err_ch ≡ none) × (p.is_closed ≡ false)
Channel (failing e) p = (p.err_ch ≡ none) × (p.is_closed ≡ false)
Channel closing p = p.is_closed ≡ false
Channel ended p = (p.is_closed ≡ true) ⊎ ((code : ℕ) × (p.main ≡ exited code))

pub record IsConsistent (p : Process) : Type 0 where
  pub accounts : Accounts p.main p
  pub channel : Channel p.routine p

Main-cases : (m : Main) → (m ≡ waiting) ⊎ (m ≡ draining) ⊎ ((code : ℕ) × (m ≡ exited code))
Main-cases waiting = inl refl
Main-cases draining = inr (inl refl)
Main-cases (exited code) = inr (inr (code, refl))

-- A signal has come, and waits in its channel or has been taken.
abbrev IsAlerted : Main → Bool → Type 0
IsAlerted waiting quit = quit ≡ true
IsAlerted draining quit = Unit
IsAlerted (exited code) quit = Unit

happen-IsAlerted :
    (e : Event) (p q : Process)
    → happen e p ≡ some q
    → (e ≡ signalled) ⊎ IsAlerted p.main p.quit
    → IsAlerted q.main q.quit
unfolding happen
happen-IsAlerted run_ends p q h a = ground (arith, Bool-cases p.cancelled)
happen-IsAlerted _ p q h a = ground arith

history-IsAlerted_on :
    (es : List Event) (p q : Process)
    → history es p ≡ some q
    → IsAlerted p.main p.quit
    → IsAlerted q.main q.quit
unfolding history
history-IsAlerted_on [] p q h a = ground arith
history-IsAlerted_on (e ∷ es) p q h a = elim (Option-cases (happen e p)) [
  | inl impossible ↦ absurd (ground arith)
  | inr (p', next) ↦
      history-IsAlerted_on es p' q (ground arith) (happen-IsAlerted e p p' next (inr a))
]

history-IsAlerted :
    (es : List Event) (p q : Process)
    → history es p ≡ some q
    → Memᴰ signalled es
    → IsAlerted q.main q.quit
unfolding history
history-IsAlerted [] p q h there = absurd (Memᴰ.not-nil there)
history-IsAlerted (e ∷ es) p q h there = elim (Option-cases (happen e p)) [
  | inl impossible ↦ absurd (ground arith)
  | inr (p', next) ↦ elim (Memᴰ.cases_cons there) [
    | inl now ↦
        history-IsAlerted_on es p' q (ground arith) (happen-IsAlerted e p p' next (inl (sym now)))
    | inr later ↦ history-IsAlerted es p' q (ground arith) later
  ]
]

-- The cases of the selects that have been taken.
abbrev case_of_select : Event → ℕ
case_of_select takes_signal = 1
case_of_select takes_error = 1
case_of_select takes_close = 1
case_of_select times_out = 1
case_of_select _ = 0

abbrev pub cases_taken : List Event → ℕ
cases_taken [] = 0
cases_taken (e ∷ es) = case_of_select e + cases_taken es

-- The selects that are left.
abbrev selects : Main → ℕ
selects waiting = 2
selects draining = 1
selects (exited _) = 0

happen-selects :
    (e : Event) (p q : Process)
    → happen e p ≡ some q
    → case_of_select e + selects q.main ≤ selects p.main
unfolding happen
happen-selects run_ends p q h = ground (arith, Bool-cases p.cancelled)
happen-selects _ p q h = ground arith

history-selects :
    (es : List Event) (p q : Process)
    → history es p ≡ some q
    → cases_taken es + selects q.main ≤ selects p.main
unfolding history
history-selects [] p q h = ground arith
history-selects (e ∷ es) p q h = elim (Option-cases (happen e p)) [
  | inl impossible ↦ absurd (ground arith)
  | inr (p', next) ↦
      let more = history-selects es p' q (ground arith) in
      let one = happen-selects e p p' next in omega arith
]

boot-selects : (load logger worker : Option Error) → selects (boot load logger worker).main ≤ 2
unfolding boot
boot-selects (some e) _ _ = omega arith
boot-selects none (some e) _ = omega arith
boot-selects none none (some e) = omega arith
boot-selects none none none = omega arith

alerted-goes_on :
    (p : Process)
    → IsAlerted p.main p.quit
    → ((code : ℕ) × (p.main ≡ exited code))
      ⊎ ((q : Process) × (happen takes_signal p ≡ some q))
      ⊎ ((q : Process) × (happen times_out p ≡ some q))
unfolding happen
alerted-goes_on p a = elim (Main-cases p.main) [
  | inl wait ↦
      let quit : p.quit ≡ true = ground arith in
      inr (inl (record p { main = draining; quit = false; cancelled = true }, ground arith))
  | inr (inl drain) ↦ inr (inr (leave p, ground arith))
  | inr (inr (code, out)) ↦ inl (code, out)
]

-- Behind a signal a worker process does not get stuck, whatever its goroutine does: in any history at
-- most two cases of its selects are taken, and while it has not exited, the select at which it stands
-- has the case of the signal or that of the time limit.
pub history-ends :
    (load logger worker : Option Error) (es : List Event) (q : Process)
    → history es (boot load logger worker) ≡ some q
    → Memᴰ signalled es
    → (cases_taken es ≤ 2)
      × (((code : ℕ) × (q.main ≡ exited code))
          ⊎ ((q' : Process) × (happen takes_signal q ≡ some q'))
          ⊎ ((q' : Process) × (happen times_out q ≡ some q')))
history-ends load logger worker es q h there =
    let less = history-selects es _ q h in
    let two = boot-selects load logger worker in
    (omega arith, alerted-goes_on q (history-IsAlerted es _ q h there))
