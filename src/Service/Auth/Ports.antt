-- ===== src/Service/Auth/Ports.antt =====
-- The interface to the refresh tokens that internal/service/auth/auth.go declares.
use ragkb.Base.{ℤ, ◌≡◌, Bool, true, false, if◌then◌else◌}
use ragkb.Text.{Text, ◌==ᵗ◌}
use ragkb.Action.{Result, ok, Action}

-- `is_live s jti`: the refresh token with that identifier is good.
pub record RefreshStore (F : Type 0) : Type 0 where
  pub is_live : F → Text → Bool
  pub save : Text → ℤ → ℤ → Action F (Unit {0})
  pub exists : Text → F → Result Bool
  pub revoke : Text → Action F (Unit {0})
  pub save_ok :
      (jti : Text) (user ttl : ℤ) (s s' : F) (u : Unit {0})
      → save jti user ttl s ≡ (ok u, s')
      → (k : Text) → is_live s' k ≡ (if jti ==ᵗ k then true else is_live s k)
  pub exists_ok : (jti : Text) (s : F) (b : Bool) → exists jti s ≡ ok b → b ≡ is_live s jti
  pub revoke_ok :
      (jti : Text) (s s' : F) (u : Unit {0})
      → revoke jti s ≡ (ok u, s')
      → (k : Text) → is_live s' k ≡ (if jti ==ᵗ k then false else is_live s k)
