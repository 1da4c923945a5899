-- ===== src/Action/Program/Pool.antt =====
-- Requests that are served at the same time, each as far as it has got.
use ragkb.Base.{ℕ, ◌==◌, if◌then◌else◌}
use ragkb.Action.{ok}
use ragkb.Action.Program.{Program, returns, calls}
use ragkb.Action.Program.Safe.{Rules, Keeps, Safe, Anything, if-Safe, Safe-later}

-- The shared state, and what is left of each request, by a number. One that is not there, or has
-- been answered, has nothing left to do.
pub record Serving (W : Type 0) : Type 0 where
  pub world : W
  pub left : ℕ → Program W (Unit {0})

module _ {W : Type 0} where
  abbrev pub quiet : W → Serving W
  quiet w = record { world = w; left = λ _. returns (ok tt) }

  abbrev replace : (ℕ → Program W (Unit {0})) → ℕ → Program W (Unit {0}) → ℕ → Program W (Unit {0})
  replace left i p j = if i == j then p else left j

  -- A request comes in under a number; while another one under it is being served, nothing happens.
  abbrev admit : Program W (Unit {0}) → Program W (Unit {0}) → Program W (Unit {0})
  admit p (returns _) = p
  admit p (calls f k) = calls f k

  abbrev call : Program W (Unit {0}) → W → W
  call (returns _) w = w
  call (calls f k) w = f w

  abbrev rest : Program W (Unit {0}) → W → Program W (Unit {0})
  rest (returns x) w = returns x
  rest (calls f k) w = k w

  unfoldable pub arrive : ℕ → Program W (Unit {0}) → Serving W → Serving W
  arrive i p s = record s { left = replace s.left i (admit p (s.left i)) }

  -- The request makes its next call, if it has one.
  unfoldable pub go_on : ℕ → Serving W → Serving W
  go_on i s = record {
    world = call (s.left i) s.world;
    left = replace s.left i (rest (s.left i) s.world);
  }

module _ {W : Type 0} (r : Rules W) where
  -- The invariant holds, and all that is left to do keeps it.
  pub record IsSafe (s : Serving W) : Type 0 where
    pub inv : r.Inv s.world
    pub left : (i : ℕ) → Safe r Anything (s.left i) s.world

  pub quiet-IsSafe : (w : W) → r.Inv w → IsSafe (quiet w)
  unfolding Safe
  quiet-IsSafe w h = record { inv = h; left = λ i. tt }

  replace-Safe :
      (left : ℕ → Program W (Unit {0})) (i : ℕ) (p : Program W (Unit {0})) (w : W)
      → Safe r Anything p w
      → ((j : ℕ) → Safe r Anything (left j) w)
      → (j : ℕ) → Safe r Anything (replace left i p j) w
  replace-Safe left i p w h all j = if-Safe r Anything (i == j) p (left j) w (λ _. h) (λ _. all j)

  admit-Safe :
      (p q : Program W (Unit {0})) (w : W)
      → Safe r Anything p w
      → Safe r Anything q w
      → Safe r Anything (admit p q) w
  admit-Safe p (returns x) w f g = f
  admit-Safe p (calls c k) w f g = g

  pub arrive-IsSafe :
      (i : ℕ) (p : Program W (Unit {0})) (s : Serving W)
      → Safe r Anything p s.world
      → IsSafe s
      → IsSafe (arrive i p s)
  unfolding arrive
  arrive-IsSafe i p s f h = record {
    inv = h.inv;
    left =
        replace-Safe s.left i (admit p (s.left i)) s.world
          (admit-Safe p (s.left i) s.world f (h.left i)) h.left;
  }

  call-Safe :
      (p : Program W (Unit {0})) (w : W)
      → r.Inv w
      → Safe r Anything p w
      → Keeps r w (call p w) × Safe r Anything (rest p w) (call p w)
  unfolding Safe
  call-Safe (returns x) w inv h = (record { inv = inv; later = r.later_refl w }, h)
  call-Safe (calls f k) w inv h = h w (r.later_refl w) inv

  pub go_on-IsSafe : (i : ℕ) (s : Serving W) → IsSafe s → IsSafe (go_on i s)
  unfolding go_on
  go_on-IsSafe i s h =
      let (kept, more) = call-Safe (s.left i) s.world h.inv (h.left i) in
      record {
        inv = kept.inv;
        left =
            replace-Safe s.left i (rest (s.left i) s.world) (call (s.left i) s.world) more
              λ j. Safe-later r (s.left j) s.world (call (s.left i) s.world) kept.later (h.left j);
      }
