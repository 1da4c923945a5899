-- ===== src/Action/Program/Safe.antt =====
-- Programs that keep an invariant of the shared state, whatever other programs do in between.
use ragkb.Base.{◌≡◌, refl, Bool, true, false, if◌then◌else◌}
use ragkb.Fault.{Error}
use ragkb.Action.{Result, ok, err, panic, Action}
use ragkb.Action.Program.{Program, returns, calls, atomic, proceed, alone, give, give_up}

-- `Inv` is the invariant. `Later w v` is what is known of any state `v` behind `w`: what a program
-- has found out stays true if `Later` keeps it.
pub record Rules (W : Type 0) : Type 1 where
  pub Inv : W → Type 0
  pub Later : W → W → Type 0
  pub later_refl : (w : W) → Later w w
  pub later_trans : (u v w : W) → Later u v → Later v w → Later u w

abbrev pub Anything : {W A : Type 0} → A → W → Type 0
Anything a w = Unit {0}

module _ {W : Type 0} (r : Rules W) where
  abbrev pub Ends : {A : Type 0} → (A → W → Type 0) → Result A → W → Type 0
  Ends P (ok a) w = P a w
  Ends P (err e) w = Unit {0}
  Ends P (panic x) w = Unit {0}

  -- A call keeps the invariant, and leads to a later state.
  pub record Keeps (v v' : W) : Type 0 where
    pub inv : r.Inv v'
    pub later : r.Later v v'

  -- From `w` on, each of its calls, on whatever later state, keeps the invariant, and a value that
  -- it returns is as `P` says.
  unfoldable pub Safe : {A : Type 0} → (A → W → Type 0) → Program W A → W → Type 0
  Safe P (returns x) w = Ends P x w
  Safe P (calls f k) w = (v : W) → r.Later w v → r.Inv v → Keeps v (f v) × Safe P (k v) (f v)

  Ends-result :
      {A : Type 0} (P : A → W → Type 0) (x : Result A) (w : W)
      → ((a : A) → x ≡ ok a → P a w)
      → Ends P x w
  Ends-result P (ok a) w h = h a refl
  Ends-result P (err e) w h = tt
  Ends-result P (panic x) w h = tt

  pub atomic-Safe :
      {A : Type 0} (P : A → W → Type 0) (m : Action W A) (w : W)
      → ((v : W)
          → r.Later w v
          → r.Inv v
          → Keeps v (m v).1 × ((a : A) → (m v).0 ≡ ok a → P a (m v).1))
      → Safe P (atomic m) w
  unfolding Safe
  atomic-Safe P m w h v later inv =
      let (kept, known) = h v later inv in (kept, Ends-result P (m v).0 (m v).1 known)

  pub proceed-Safe :
      {A B : Type 0} (P : A → W → Type 0) (Q : B → W → Type 0) (next : A → Program W B)
      (failed : Error → Program W B)
      → ((a : A) (w : W) → P a w → Safe Q (next a) w)
      → ((e : Error) (w : W) → Safe Q (failed e) w)
      → (p : Program W A) (w : W) → Safe P p w
      → Safe Q (proceed p next failed) w
  unfolding Safe
  proceed-Safe P Q next failed f g (returns (ok a)) w h = f a w h
  proceed-Safe P Q next failed f g (returns (err e)) w h = g e w
  proceed-Safe P Q next failed f g (returns (panic x)) w h = tt
  proceed-Safe P Q next failed f g (calls c k) w h = λ v later inv.
      let (kept, rest) = h v later inv in (kept, proceed-Safe P Q next failed f g (k v) (c v) rest)

  pub give-Safe : {A : Type 0} (P : A → W → Type 0) (a : A) (w : W) → P a w → Safe P (give a) w
  unfolding Safe
  give-Safe P a w h = h

  pub give_up-Safe : {A : Type 0} (P : A → W → Type 0) (e : Error) (w : W) → Safe P (give_up e) w
  unfolding Safe
  give_up-Safe P e w = tt

  pub if-Safe :
      {A : Type 0} (P : A → W → Type 0) (b : Bool) (p q : Program W A) (w : W)
      → (b ≡ true → Safe P p w)
      → (b ≡ false → Safe P q w)
      → Safe P (if b then p else q) w
  if-Safe P true p q w f g = f refl
  if-Safe P false p q w f g = g refl

  pub Safe-weaken :
      {A : Type 0} (P : A → W → Type 0) (p : Program W A) (w : W) → Safe P p w → Safe Anything p w
  unfolding Safe
  Safe-weaken P (returns (ok a)) w h = tt
  Safe-weaken P (returns (err e)) w h = tt
  Safe-weaken P (returns (panic x)) w h = tt
  Safe-weaken P (calls f k) w h =
      λ v later inv. let (kept, more) = h v later inv in (kept, Safe-weaken P (k v) (f v) more)

  -- Other programs may go on in between.
  pub Safe-later :
      {A : Type 0} (p : Program W A) (w v : W) → r.Later w v → Safe Anything p w → Safe Anything p v
  unfolding Safe
  Safe-later (returns (ok a)) w v l h = tt
  Safe-later (returns (err e)) w v l h = tt
  Safe-later (returns (panic x)) w v l h = tt
  Safe-later (calls f k) w v l h = λ u later inv. h u (r.later_trans w v u l later) inv

  -- One behind the other, they keep the invariant too.
  pub alone-Inv :
      {A : Type 0} (p : Program W A) (w : W) → r.Inv w → Safe Anything p w → r.Inv (alone p w).1
  unfolding alone Safe
  alone-Inv (returns x) w inv h = inv
  alone-Inv (calls f k) w inv h =
      let (kept, rest) = h w (r.later_refl w) inv in alone-Inv (k w) (f w) kept.inv rest
