-- ===== src/Infra/Mysql/Users/Repos.antt =====
-- The repositories of internal/infra/mysql/user_repo.go fill the interfaces that the services rely on.
use ragkb.Base.{ℕ, ==ℤ_refl, ℤ, ◌≡◌, ap, ◌∙◌, Bool, true, false, map, arith, if◌then◌else◌}
use ragkb.Text.{Text}
use ragkb.Action.{ok}
use ragkb.Domain.User.{User, UserRepo, Tenant, TenantRepo}
use ragkb.Infra.Mysql.Users.{
  Database, has_member, membership, create_with_membership, set_primary, list_by_user,
  get_primary_tag, is_member, create_user, get_by_username, get_user_by_id,
}
use ragkb.Infra.Mysql.Users.Members.{
  any, any_mono, cleared, is_default, any-snoc, any-none, cleared-any,
}
use ragkb.Infra.Mysql.Users.Laws.{
  is_member-ok, set_primary-default, get_primary_tag-default, create_with_membership-ok,
  or_conflict-ok, get_user_by_id-id, get_by_username-username,
}
use ragkb.Infra.Mysql.Users.Accounts.{
  account, create_user-account, get_by_username-account, create_with_membership-account,
}

module _ {S : Type 0} (db : Database S) where
  -- As a user's default, a new tenant is the only one.
  pub create_with_membership-default :
      (tenant : Tenant) (s s' : S) (u : Unit {0})
      → create_with_membership db tenant true s ≡ (ok u, s')
      → (tag : Text)
      → any (is_default db.collation tenant.created_by tag) (db.members.rows s')
        ≡ db.collation.same tenant.tag tag
  create_with_membership-default tenant s s' u h tag =
      let ms = map (cleared tenant.created_by) (db.members.rows s) in
      let rows = create_with_membership-ok db tenant true s s' u h in
      ap (any (is_default db.collation tenant.created_by tag)) rows
      ∙ any-snoc (is_default db.collation tenant.created_by tag) ms (membership db tenant true)
      ∙ ground (
        arith,
        cleared-any db.collation tenant.created_by tag (db.members.rows s),
        ==ℤ_refl tenant.created_by,
      )

  abbrev pub has_name : S → Text → Bool
  has_name s name = any (λ u. db.collation.same u.username name) (db.users.rows s)

  pub create_user-ok :
      (u v : User) (s s' : S)
      → create_user db u s ≡ (ok v, s')
      → (id : ℤ) × (t : ℕ) × (v ≡ record u { id = id; created_at = t; updated_at = t })
        × (has_name s u.username ≡ false)
        × ((name : Text)
            → has_name s' name
              ≡ (if db.collation.same u.username name then true else has_name s name))
  unfolding create_user
  create_user-ok u v s s' h =
      let (id, t, is, _, free, rows) =
        db.users.create_ok u v s s' (or_conflict-ok db (db.users.create u) s s' v h) in
      let named : v.username ≡ u.username = ap (λ (x : User). x.username) is in
      (
        id,
        t,
        is,
        any-none (λ x. db.collation.same x.username u.username) (db.users.rows s) free,
        λ name.
            ap (any (λ x. db.collation.same x.username name)) rows
            ∙ any-snoc (λ x. db.collation.same x.username name) (db.users.rows s) v
            ∙ ap (λ y. if db.collation.same y name then true else has_name s name) named,
      )

  -- The repository as the tenants that the services rely on.
  unfoldable pub tenant_repo : TenantRepo S
  tenant_repo = record {
    collation = db.collation;
    is_in = λ s id tag. any (has_member db.collation id tag) (db.members.rows s);
    is_default = λ s id tag. any (is_default db.collation id tag) (db.members.rows s);
    create_with_membership = create_with_membership db;
    set_primary = set_primary db;
    list_by_user = list_by_user db;
    get_primary_tag = get_primary_tag db;
    is_member = is_member db;
    is_member_ok = is_member-ok db;
    set_primary_ok = set_primary-default db;
    get_primary_tag_ok = get_primary_tag-default db;
    create_default_ok = create_with_membership-default;
    default_is_in = λ id s tag.
        any_mono (is_default db.collation id tag) (has_member db.collation id tag)
          (λ m h. ground arith) (db.members.rows s);
  }

  -- The repository as the users that the services rely on.
  unfoldable pub user_repo : UserRepo S
  user_repo = record {
    collation = db.collation;
    create = create_user db;
    get_by_username = get_by_username db;
    get_by_id = get_user_by_id db;
    has_name = has_name;
    account = account db;
    create_account_ok = create_user-account db;
    get_by_username_account = get_by_username-account db;
    create_ok = create_user-ok;
    get_by_username_ok = get_by_username-username db;
    get_by_id_ok = get_user_by_id-id db;
  }

  pub tenant_repo-account :
      (tenant : Tenant) (is_primary : Bool) (s s' : S) (u : Unit {0})
      → tenant_repo.create_with_membership tenant is_primary s ≡ (ok u, s')
      → (name : Text) → user_repo.account s' name ≡ user_repo.account s name
  unfolding tenant_repo user_repo
  tenant_repo-account = create_with_membership-account db
