-- ===== src/Action.antt =====
-- Calls that may fail: a result is a value, an error, or a panic, and an action is a call on the
-- state of a component, which comes back whatever the result.
pub mod Program
use ragkb.Base.{◌≡◌, refl, ◌⊎◌, inl, inr, arith}
use ragkb.Text.{Text}
use ragkb.Fault.{Error}

pub data Result (A : Type 0) : Type 0 where
  ok : A → Result A
  err : Error → Result A
  -- A run-time panic: it unwinds every caller up to gin's recovery handler.
  panic : Text → Result A

abbrev pub Action : Type 0 → Type 0 → Type 0
Action S A = S → Result A × S

-- What follows a call that has returned, by its result.
abbrev pub continue :
    {S A B : Type 0} → (A → Action S B) → (Error → Action S B) → Result A × S → Result B × S
continue next failed (ok a, s) = next a s
continue next failed (err e, s) = failed e s
continue next failed (panic p, s) = (panic p, s)

-- `x, err := m; if err != nil { failed } ; next`
abbrev pub attempt :
    {S A B : Type 0} → Action S A → (A → Action S B) → (Error → Action S B) → Action S B
attempt m next failed s = continue next failed (m s)

module _ {S A : Type 0} where
  abbrev pub pure : A → Action S A
  pure a s = (ok a, s)

  abbrev pub fail : Error → Action S A
  fail e s = (err e, s)

  -- A call that only reads.
  abbrev pub reading : (S → Result A) → Action S A
  reading f s = (f s, s)

infixl 5 ◌>>=◌ ◌>>◌
-- `x, err := m; if err != nil { return err } ; f x`
abbrev pub ◌>>=◌ : {S A B : Type 0} → Action S A → (A → Action S B) → Action S B
m >>= f = attempt m f fail

abbrev pub ◌>>◌ : {S A B : Type 0} → Action S A → Action S B → Action S B
m >> k = m >>= λ _. k

-- `return fmt.Errorf("...%w", err)` for the errors of `m`.
abbrev pub map_error : {S A : Type 0} → (Error → Error) → Action S A → Action S A
map_error f m = attempt m pure (λ e. fail (f e))

-- To split on what a call returned and keep the equation.
pub Result-cases :
    {A : Type 0} (r : Result A)
    → ((a : A) × (r ≡ ok a)) ⊎ ((e : Error) × (r ≡ err e)) ⊎ ((p : Text) × (r ≡ panic p))
Result-cases (ok a) = inl (a, refl)
Result-cases (err e) = inr (inl (e, refl))
Result-cases (panic p) = inr (inr (p, refl))

-- A chain that succeeds has succeeded at its first step.
continue-eq-ok :
    {S A B : Type 0} (f : A → Action S B) (p : Result A × S) (s' : S) (b : B)
    → continue f fail p ≡ (ok b, s')
    → (a : A) × (t : S) × (p ≡ (ok a, t)) × (f a t ≡ (ok b, s'))
continue-eq-ok f (ok a, t) s' b h = (a, t, refl, h)
continue-eq-ok f (err e, t) s' b h = absurd (ground arith)
continue-eq-ok f (panic x, t) s' b h = absurd (ground arith)

pub >>=-eq-ok :
    {S A B : Type 0} (m : Action S A) (f : A → Action S B) (s s' : S) (b : B)
    → (m >>= f) s ≡ (ok b, s')
    → (a : A) × (t : S) × (m s ≡ (ok a, t)) × (f a t ≡ (ok b, s'))
>>=-eq-ok m f s s' b h = continue-eq-ok f (m s) s' b h
