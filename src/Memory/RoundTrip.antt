-- ===== src/Memory/RoundTrip.antt =====
-- A registration in memory, and the login behind it.
use ragkb.Base.{pos, ◌≡◌, refl, ◌*ℤ◌, ◌+ℤ◌, wrap_64}
use ragkb.Text.{Text, lit}
use ragkb.Fault.{Error, UserError, user}
use ragkb.Action.{ok, err}
use ragkb.Token.{Claims, parse_access_token}
use ragkb.Service.Auth.{login, check_password}
use ragkb.Service.Auth.RoundTrip.{login-register}
use ragkb.Memory.Auth.{auth, fresh, registered, logged, ann, pair}

login-register_example :
    (login auth (lit "ann") (lit "secret1") registered ≡ (ok (ann, pair), logged))
    × (ann.id ≡ pos 1)
    × ((c : Claims) × (parse_access_token auth.jwt auth.process auth.tokens pair.access_token
            logged.process
          ≡ ok c)
        × (c.user_id ≡ pos 1))
    × ((other : Text) (e : Error)
        → check_password auth ann.password other ≡ err e
        → login auth (lit "ann") other registered
          ≡ (err (user UserError.invalid_credentials), registered))
unfolding pair ann ◌*ℤ◌ ◌+ℤ◌ wrap_64
login-register_example =
    login-register auth (lit "ann") (lit "secret1") fresh registered registered logged ann ann pair
      logged.process refl refl refl refl refl
