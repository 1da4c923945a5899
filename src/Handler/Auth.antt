-- ===== src/Handler/Auth.antt =====
-- internal/handler/auth: handler.go and dto.go.
pub mod Laws
use ragkb.Base.{ℕ, ◌≤◌, ◌*◌, Bool, not, ◌&&◌, leb, none, some, [], length}
use ragkb.Text.{Text, ◌==ᵗ◌}
use ragkb.Domain.User.{User}
use ragkb.Service.Auth
use ragkb.Service.Auth.{AuthService, AuthWorld, refresh_access}
use ragkb.Handler.{ok_response}
use ragkb.Handler.Types.{Payload, UserResponse}
use ragkb.Handler.Context.{Context, Handler, Binding, respond, with_body}

-- The runes of a text, which are one to four bytes each; a byte that is none counts as one.
pub record Runes : Type 0 where
  pub count : Text → ℕ
  pub count_le : (s : Text) → (count s ≤ length s) × (length s ≤ 4 * count s)

-- The username and password of a registration or a login
pub record Credentials : Type 0 where
  pub username : Text
  pub password : Text

-- The tags `required,min=3,max=64` and `required,min=6,max=72`, which count runes
abbrev pub is_register_request : Runes → Credentials → Bool
is_register_request r req =
    not (req.username ==ᵗ [])
    && (leb 3 (r.count req.username)
        && (leb (r.count req.username) 64
            && (not (req.password ==ᵗ [])
                && (leb 6 (r.count req.password) && leb (r.count req.password) 72))))

abbrev pub is_login_request : Credentials → Bool
is_login_request req = not (req.username ==ᵗ []) && not (req.password ==ᵗ [])

-- The refresh token of a request to refresh or to log out
abbrev pub is_token_request : Text → Bool
is_token_request refresh_token = not (refresh_token ==ᵗ [])

unfoldable pub to_user_response : User → UserResponse
to_user_response u = record {
  id = u.id;
  username = u.username;
  role = u.role;
  primary_tenant = u.primary_tenant;
}

module _ {R F C : Type 0} (s : AuthService R F C) where
  unfoldable pub register :
      (r : Runes)
      → Binding Credentials (is_register_request r)
      → Context
      → Handler (AuthWorld R F C)
  unfolding to_user_response
  register r b c = with_body b c λ req.
      respond (Auth.register s req.username req.password)
        λ u. ok_response (Payload.user (to_user_response u))

  unfoldable pub login : Binding Credentials is_login_request → Context → Handler (AuthWorld R F C)
  unfolding to_user_response
  login b c = with_body b c λ req. respond (Auth.login s req.username req.password) λ (u, pair).
      ok_response (
        Payload.token (record {
          access_token = pair.access_token;
          refresh_token = pair.refresh_token;
          user = some (to_user_response u);
        }))

  unfoldable pub refresh : Binding Text is_token_request → Context → Handler (AuthWorld R F C)
  refresh b c = with_body b c λ refresh_token. respond (refresh_access s refresh_token) λ access.
      ok_response
        (Payload.token (record { access_token = access; refresh_token = []; user = none }))

  unfoldable pub logout : Binding Text is_token_request → Context → Handler (AuthWorld R F C)
  logout b c =
      with_body b c
        λ refresh_token. respond (Auth.logout s refresh_token) λ _. ok_response Payload.logged_out
