-- ===== src/Infra/Redis/Refresh.antt =====
-- internal/infra/redis/refresh_token_store.go: a key for each refresh token that is still good.
pub mod Laws
use ragkb.Base.{ℤ, pos, Bool, ◌++◌, ltb_ℤ}
use ragkb.Text.{Text, lit}
use ragkb.Fault.{wrapped}
use ragkb.Action.{Result, ok, err, panic, Action}
use ragkb.Infra.Redis.{Keys}

unfoldable pub refresh_key : Text → Text
refresh_key jti = lit "refresh:" ++ jti

module _ {S : Type 0} (r : Keys S) where
  unfoldable pub save : Text → ℤ → ℤ → Action S (Unit {0})
  save jti user ttl = r.set (refresh_key jti) user ttl

  unfoldable pub exists : Text → S → Result Bool
  exists jti s = elim (r.exists (refresh_key jti) s) [
    | ok n ↦ ok (ltb_ℤ (pos 0) n)
    | err e ↦ err (wrapped (lit "check refresh token: ") e)
    | panic p ↦ panic p
  ]

  unfoldable pub revoke : Text → Action S (Unit {0})
  revoke jti = r.del (refresh_key jti)
