-- ===== src/Action/Program.antt =====
-- A method that runs beside others: it stops behind each of its calls, and the calls of other
-- requests may come in between.
pub mod Safe
pub mod Pool
use ragkb.Base.{◌≡◌, refl, ◌∙◌, Bool, true, false, if◌then◌else◌}
use ragkb.Text.{Text}
use ragkb.Fault.{Error}
use ragkb.Action.{Result, ok, err, panic, Action, attempt, continue, reading}

-- What is left of a method: its result, or a call, which changes the shared state and decides from
-- it how the method goes on.
pub data Program (W A : Type 0) : Type 0 where
  returns : Result A → Program W A
  calls : (W → W) → (W → Program W A) → Program W A

-- One call.
abbrev pub atomic : {W A : Type 0} → Action W A → Program W A
atomic m = calls (λ w. (m w).1) (λ w. returns (m w).0)

abbrev pub looking : {W A : Type 0} → (W → Result A) → Program W A
looking f = atomic (reading f)

-- `x, err := p; if err != nil { failed } ; next`
abbrev pub proceed :
    {W A B : Type 0} → Program W A → (A → Program W B) → (Error → Program W B) → Program W B
proceed (returns (ok a)) next failed = next a
proceed (returns (err e)) next failed = failed e
proceed (returns (panic x)) next failed = returns (panic x)
proceed (calls f k) next failed = calls f (λ w. proceed (k w) next failed)

module _ {W A : Type 0} where
  abbrev pub give : A → Program W A
  give a = returns (ok a)

  abbrev pub give_up : Error → Program W A
  give_up e = returns (err e)

infixl 5 ◌>>=◌ ◌>>◌
abbrev pub ◌>>=◌ : {W A B : Type 0} → Program W A → (A → Program W B) → Program W B
p >>= f = proceed p f give_up

abbrev pub ◌>>◌ : {W A B : Type 0} → Program W A → Program W B → Program W B
p >> q = p >>= λ _. q

-- `_ = p`
abbrev pub ignoring : {W A : Type 0} → Program W A → Program W (Unit {0})
ignoring p = proceed p (λ _. give tt) (λ _. give tt)

-- The method alone, with no call of another one in between.
unfoldable pub alone : {W A : Type 0} → Program W A → Action W A
alone (returns r) w = (r, w)
alone (calls f k) w = alone (k w) (f w)

module _ {W A : Type 0} where
  -- A program that does alone what an action does.
  abbrev pub Does : Program W A → Action W A → Type 0
  Does p m = (w : W) → alone p w ≡ m w

  pub atomic-Does : (m : Action W A) → Does (atomic m) m
  unfolding alone
  atomic-Does m w = refl

  pub returns-Does : (r : Result A) → Does (returns r) (λ w. (r, w))
  unfolding alone
  returns-Does r w = refl

  pub if-Does :
      (b : Bool) (p q : Program W A) (m k : Action W A)
      → Does p m
      → Does q k
      → Does (if b then p else q) (if b then m else k)
  if-Does true p q m k f g = f
  if-Does false p q m k f g = g

module _ {W A B : Type 0} (next : A → Program W B) (next' : A → Action W B)
    (failed : Error → Program W B) (failed' : Error → Action W B)
    (next_does : (a : A) → Does (next a) (next' a))
    (failed_does : (e : Error) → Does (failed e) (failed' e)) where
  proceed-alone :
      (p : Program W A) (w : W)
      → alone (proceed p next failed) w ≡ continue next' failed' (alone p w)
  unfolding alone
  proceed-alone (returns (ok a)) w = next_does a w
  proceed-alone (returns (err e)) w = failed_does e w
  proceed-alone (returns (panic x)) w = refl
  proceed-alone (calls f k) w = proceed-alone (k w) (f w)

  pub proceed-Does :
      (p : Program W A) (m : Action W A)
      → Does p m
      → Does (proceed p next failed) (attempt m next' failed')
  proceed-Does p m does w = proceed-alone p w ∙ λ i. continue next' failed' (does w i)
