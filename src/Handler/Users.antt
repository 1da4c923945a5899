-- ===== src/Handler/Users.antt =====
-- internal/handler/user: handler.go and dto.go.
use ragkb.Base.{Bool, not, []}
use ragkb.Text.{Text, ◌==ᵗ◌}
use ragkb.Action.{reading}
use ragkb.Domain.User.{User}
use ragkb.Service.Users
use ragkb.Service.Users.{UserService, update_primary_tenant}
use ragkb.Handler.{ok_response}
use ragkb.Handler.Types.{Payload, UserResponse}
use ragkb.Handler.Context.{Context, Handler, Binding, respond, with_user, with_body}

-- The tag `required` of the tenant that is to be the default
abbrev pub is_update_request : Text → Bool
is_update_request primary_tenant = not (primary_tenant ==ᵗ [])

unfoldable pub to_user_response : User → UserResponse
to_user_response u = record {
  id = u.id;
  username = u.username;
  role = u.role;
  primary_tenant = u.primary_tenant;
}

module _ {R : Type 0} (s : UserService R) where
  unfoldable pub me : Context → Handler R
  unfolding to_user_response
  me c =
      with_user c λ uid.
        respond (reading (Users.me s uid)) λ u. ok_response (Payload.user (to_user_response u))

  unfoldable pub update_me : Binding Text is_update_request → Context → Handler R
  update_me b c = with_user c λ uid. with_body b c λ primary_tenant.
      respond (update_primary_tenant s uid primary_tenant)
        λ _. ok_response (Payload.primary primary_tenant)

  unfoldable pub my_tenants : Context → Handler R
  my_tenants c =
      with_user c
        λ uid. respond (reading (Users.my_tenants s uid)) λ ts. ok_response (Payload.tenants ts)
