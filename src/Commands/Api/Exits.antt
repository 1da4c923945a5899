-- ===== src/Commands/Api/Exits.antt =====
-- How the process of cmd/api/main.go ends.
use ragkb.Base.{
  ℕ, ◌≡◌, ◌≤◌, ◌⊎◌, inl, inr, refl, Option, some, none, List, [], ◌∷◌, arith, Option-cases, subst,
}
use ragkb.Fault.{Error}
use ragkb.Commands.Api.{
  Main, waiting, shutting_down, stopped, leaving, exited, Process, Event, takes_signal, happen,
  history, boot,
}

abbrev pub Accounts : Main → Process → Type 0
Accounts waiting p = (p.closes ≡ 0) × (p.fatal ≡ none)
Accounts shutting_down p = (p.closes ≡ 0) × (p.fatal ≡ none)
Accounts stopped p = (p.closes ≡ 0) × (p.fatal ≡ none)
Accounts leaving p = (p.closes ≡ 1) × (p.fatal ≡ none)
Accounts (exited code) p =
    ((code ≡ 0) × (p.closes ≡ 1) × (p.fatal ≡ none))
    ⊎ ((code ≡ 1) × (p.closes ≤ 1) × (e : Error) × (p.fatal ≡ some e))

happen-Accounts :
    (e : Event) (p q : Process) → happen e p ≡ some q → Accounts p.main p → Accounts q.main q
unfolding happen
happen-Accounts takes_signal p q h a = ground arith
happen-Accounts _ p q h a = ground arith

history-Accounts :
    (es : List Event) (p q : Process)
    → history es p ≡ some q
    → Accounts p.main p
    → Accounts q.main q
unfolding history
history-Accounts [] p q h a = ground arith
history-Accounts (e ∷ es) p q h a = elim (Option-cases (happen e p)) [
  | inl impossible ↦ absurd (ground arith)
  | inr (p', next) ↦ history-Accounts es p' q (ground arith) (happen-Accounts e p p' next a)
]

boot-Accounts :
    (load logger app : Option Error) → Accounts (boot load logger app).main (boot load logger app)
unfolding boot
boot-Accounts (some e) _ _ = inr (refl, omega arith, e, refl)
boot-Accounts none (some e) _ = inr (refl, omega arith, e, refl)
boot-Accounts none none (some e) = inr (refl, omega arith, e, refl)
boot-Accounts none none none = (refl, refl)

-- However an API process has started and whatever happens in it, and in whatever order: if it has
-- exited, then with 0 and its resources closed once, also where the shutdown has failed; or with 1
-- and a fatal error of the goroutine or of the start, and its resources closed at most once.
pub history-closes :
    (load logger app : Option Error) (es : List Event) (q : Process) (code : ℕ)
    → history es (boot load logger app) ≡ some q
    → q.main ≡ exited code
    → ((code ≡ 0) × (q.closes ≡ 1) × (q.fatal ≡ none))
      ⊎ ((code ≡ 1) × (q.closes ≤ 1) × (e : Error) × (q.fatal ≡ some e))
history-closes load logger app es q code h at_end =
    let a = history-Accounts es _ q h (boot-Accounts load logger app) in
    subst (λ m. Accounts m q) at_end a
