-- ===== src/Service/Users.antt =====
-- internal/service/user/user.go: a user's own data and tenants.
use ragkb.Base.{ℤ, ◌≡◌, List, [], inl, inr, refl, subst, arith, Bool-cases, if◌then◌else◌, true}
use ragkb.Text.{Text}
use ragkb.Fault.{UserError, user, is_user}
use ragkb.Action.{Result, ok, Action, attempt, pure, fail, Result-cases}
use ragkb.Domain.User.{User, UserRepo, Tenant, TenantRepo}
use ragkb.Service.Documents.{DocumentService, World, resolve_tenant}
use ragkb.Service.Documents.Tenants.{resolve_tenant-ok}

-- The repositories stand on one database.
pub record UserService (R : Type 0) : Type 0 where
  pub users : UserRepo R
  pub tenants : TenantRepo R

module _ {R : Type 0} (s : UserService R) where
  unfoldable pub me : ℤ → R → Result User
  me id = s.users.get_by_id id

  unfoldable pub update_primary_tenant : ℤ → Text → Action R (Unit {0})
  update_primary_tenant id tag =
      attempt (s.tenants.set_primary id tag) pure
        λ e. if is_user e UserError.not_found then fail (user UserError.forbidden) else fail e

  unfoldable pub my_tenants : ℤ → R → Result (List Tenant)
  my_tenants id = s.tenants.list_by_user id

  update_primary_tenant-ok :
      (id : ℤ) (tag : Text) (t t' : R) (u : Unit {0})
      → update_primary_tenant id tag t ≡ (ok u, t')
      → s.tenants.set_primary id tag t ≡ (ok u, t')
  unfolding update_primary_tenant
  update_primary_tenant-ok id tag t t' u h =
      elim (Result-cases (s.tenants.set_primary id tag t).0) [
        | inl (v, done) ↦ ground arith
        | inr (inl (x, failed)) ↦
            absurd (ground (arith, Bool-cases (is_user x UserError.not_found)))
        | inr (inr (x, failed)) ↦ absurd (ground arith)
      ]

  -- On one database: when a user has chosen a default tenant, the user is a member of one that the
  -- collation takes for it, and an upload of theirs that names no tenant, if one is found for it, goes
  -- to a tenant whose tag the collation takes for the chosen one.
  pub resolve_tenant-update_primary_tenant :
      {D O P K : Type 0} (d : DocumentService D R O P K) (id : ℤ) (tag tag' : Text) (t : R)
      (w w' : World D R O P K) (u : Unit {0})
      → d.tenants ≡ s.tenants
      → update_primary_tenant id tag t ≡ (ok u, w.tenants)
      → resolve_tenant d id [] w ≡ (ok tag', w')
      → (s.tenants.is_in t id tag ≡ true) × (s.tenants.collation.same tag' tag ≡ true)
  resolve_tenant-update_primary_tenant d id tag tag' t w w' u same chosen resolved =
      let (member, only) =
        s.tenants.set_primary_ok id tag t w.tenants u
          (update_primary_tenant-ok id tag t w.tenants u chosen) in
      let (_, _, which) = resolve_tenant-ok d id [] tag' w w' resolved in
      elim which [
        | inl (given, _) ↦ absurd (given refl)
        | inr (_, default) ↦ (
          member,
          only tag'
              (subst (λ (r : TenantRepo R). r.is_default w.tenants id tag' ≡ true) same default),
        )
      ]
