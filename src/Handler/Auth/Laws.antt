-- ===== src/Handler/Auth/Laws.antt =====
-- What the replies of internal/handler/auth/handler.go say.
use ragkb.Base.{◌<◌, ◌≡◌, true, some, arith, length}
use ragkb.Text.{lit}
use ragkb.Fault.{is_document, is_user, is_invalid_token}
use ragkb.Action.{ok}
use ragkb.Domain.User.{User}
use ragkb.Service
use ragkb.Service.Auth.{AuthService, AuthWorld, TokenPair, too_long_error, check_password}
use ragkb.Service.Auth.Register.{register-too_long}
use ragkb.Service.Auth.Session.{Issues, login-ok}
use ragkb.Handler.{Response, error, ok_response, code_internal, respond_error}
use ragkb.Handler.Types.{Payload}
use ragkb.Handler.Context.{Context, reply, Binding, respond}
use ragkb.Handler.Context.Laws.{respond-ok, with_body-ok}
use ragkb.Handler.Auth
use ragkb.Handler.Auth.{Runes, Credentials, is_register_request, is_login_request, to_user_response}

module _ {R F C : Type 0} (s : AuthService R F C) where
  -- The limit on a password counts runes, bcrypt's counts bytes: a request that the binding accepts,
  -- with a password of more than 72 bytes, is answered by a 500, and changes nothing.
  pub register-too_long_is_500 :
      (r : Runes) (b : Binding Credentials (is_register_request r)) (c : Context)
      (w : AuthWorld R F C) (req : Credentials)
      → b.bind c.body ≡ ok req
      → 72 < length req.password
      → (is_register_request r req ≡ true)
        × (Auth.register s r b c w ≡ (reply (error code_internal (lit "internal server error")), w))
  unfolding Auth.register respond_error is_document is_user is_invalid_token
  register-too_long_is_500 r b c w req bound long =
      let refused = register-too_long s req.username req.password w long in
      (b.bind_ok c.body req bound, ground arith)

  -- The tokens of a login that is answered with success are those of the user that it names, whose
  -- password fits; the stored hash is no part of the answer.
  pub login-Issues :
      (b : Binding Credentials is_login_request) (c : Context) (w w' : AuthWorld R F C)
      (r : Response)
      → Auth.login s b c w ≡ (reply r, w')
      → r.status ≡ 200
      → (req : Credentials) × (u : User) × (pair : TokenPair) × (b.bind c.body ≡ ok req)
        × (s.users.collation.same u.username req.username ≡ true)
        × (check_password s u.password req.password ≡ ok tt)
        × Issues s u.id pair w w'
        × (r
            ≡ ok_response (
                Payload.token (record {
                  access_token = pair.access_token;
                  refresh_token = pair.refresh_token;
                  user = some (to_user_response u);
                })))
  unfolding Auth.login
  login-Issues b c w w' r h good =
      let tokens = (λ (p : User × TokenPair). ok_response (
        Payload.token (record {
          access_token = p.1.access_token;
          refresh_token = p.1.refresh_token;
          user = some (to_user_response p.0);
        }))) in
      let (req, bound, h₁) =
        with_body-ok b c (λ req. respond (Service.Auth.login s req.username req.password) tokens) w
          w' r h good in
      let (p, done, is) =
        respond-ok (Service.Auth.login s req.username req.password) tokens w w' r h₁ good in
      let (named, _, fits, issued) = login-ok s req.username req.password w w' p.0 p.1 done in
      (req, p.0, p.1, bound, named, fits, issued, is)
