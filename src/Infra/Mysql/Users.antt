-- ===== src/Infra/Mysql/Users.antt =====
-- internal/infra/mysql/user_repo.go: users, tenants and who belongs to which tenant.
pub mod Members
pub mod Laws
pub mod Repos
pub mod Accounts
use ragkb.Base.{
  ℕ, ℤ, pos, ltb_ℤ, Bool, true, false, ◌&&◌, ◌==ℤ◌, Option, none, List, map, ◌≡◌, if◌then◌else◌,
}
use ragkb.Text.{Text}
use ragkb.Text.Collation.{Collation}
use ragkb.Fault.{Error, UserError, user, is_record_not_found, is_duplicate_key}
use ragkb.Action.{Result, ok, err, panic, Action, attempt, pure, fail, reading, ◌>>=◌, ◌>>◌}
use ragkb.Domain.User.{User, Tenant}
use ragkb.Infra.Mysql.{Schema, Table}

-- A row of user_tenants
pub record UserTenant : Type 0 where
  pub user_id : ℤ
  pub tenant_tag : Text
  pub is_primary : Bool

-- user_id = ? AND tenant_tag = ?
abbrev pub has_member : Collation → ℤ → Text → UserTenant → Bool
has_member c id tag m = m.user_id ==ℤ id && c.same m.tenant_tag tag

-- user_id = ? AND is_primary = ?, for a primary one
abbrev pub has_primary : ℤ → UserTenant → Bool
has_primary id m = m.user_id ==ℤ id && m.is_primary

-- The tables `users`, `tenants` and `user_tenants` of migrations/init.sql.
abbrev pub users_table : Collation → Schema User
users_table c = record {
  has_id = λ id u. u.id ==ℤ id;
  created = λ id t u. record u { id = id; created_at = t; updated_at = t };
  clash = λ u v. c.same v.username u.username;
}

abbrev pub tenants_table : Collation → Schema Tenant
tenants_table c = record {
  has_id = λ id u. u.id ==ℤ id;
  created = λ id t u. record u { id = id; created_at = t; updated_at = t };
  clash = λ u v. c.same v.tag u.tag;
}

-- Its key is the user with the tenant; there is no number for a row.
abbrev pub members_table : Collation → Schema UserTenant
members_table c = record {
  has_id = λ id m. false;
  created = λ id t m. m;
  clash = λ m. has_member c m.user_id m.tenant_tag;
}

-- A row of the join in `ListByUser`
pub record TenantRow : Type 0 where
  pub id : ℤ
  pub tag : Text
  pub name : Text
  pub parent_tag : Option Text
  pub created_by : ℤ
  pub is_primary : Bool

-- The database as these repositories use it; its calls are parameters.
pub record Database (S : Type 0) : Type 0 where
  pub collation : Collation
  pub users : Table S (users_table collation)
  pub tenants : Table S (tenants_table collation)
  pub members : Table S (members_table collation)
  -- The join of the tenants with their members, for a user
  pub joined : ℤ → S → Result (List TenantRow)
  -- db.Transaction(f): what `f` has done is undone unless it returns no error
  pub transaction : Action S (Unit {0}) → Action S (Unit {0})
  pub transaction_ok :
      (f : Action S (Unit {0})) (s s' : S) (u : Unit {0})
      → transaction f s ≡ (ok u, s')
      → f s ≡ (ok u, s')
  -- A row of one table is none of another.
  pub tenants_keep_users : (t : Tenant) (s : S) → users.rows (tenants.create t s).1 ≡ users.rows s
  pub members_keep_users :
      (m : UserTenant) (s : S) → users.rows (members.create m s).1 ≡ users.rows s
  pub updates_keep_users :
      (p : UserTenant → Bool) (f : ℕ → UserTenant → UserTenant) (s : S)
      → users.rows (members.updates p f s).1 ≡ users.rows s
  pub tenants_only : (t : Tenant) (s : S) → members.rows (tenants.create t s).1 ≡ members.rows s

-- gorm.ErrRecordNotFound becomes ErrNotFound.
unfoldable pub or_no_user : {A : Type 0} → Result A → Result A
or_no_user (ok a) = ok a
or_no_user (err e) = err (if is_record_not_found e then user UserError.not_found else e)
or_no_user (panic p) = panic p

module _ {S : Type 0} (db : Database S) where
  -- A duplicate key becomes ErrConflict.
  unfoldable pub or_conflict : {A : Type 0} → Action S A → Action S A
  or_conflict m =
      attempt m pure λ e. if is_duplicate_key e then fail (user UserError.conflict) else fail e

  unfoldable pub create_user : User → Action S User
  unfolding or_conflict
  create_user u = or_conflict (db.users.create u)

  -- A user without a default tenant stays as it is.
  unfoldable pub fill_primary_tenant : User → S → Result User
  fill_primary_tenant u s = elim (db.members.first (has_primary u.id) s) [
    | ok m ↦ ok (record u { primary_tenant = m.tenant_tag })
    | err e ↦ if is_record_not_found e then ok u else err e
    | panic p ↦ panic p
  ]

  unfoldable pub get_user : (User → Bool) → S → Result User
  unfolding or_no_user fill_primary_tenant
  get_user test s = elim (or_no_user (db.users.first test s)) [
    | ok u ↦ fill_primary_tenant u s
    | err e ↦ err e
    | panic p ↦ panic p
  ]

  unfoldable pub get_by_username : Text → S → Result User
  unfolding get_user
  get_by_username username = get_user λ u. db.collation.same u.username username

  unfoldable pub get_user_by_id : ℤ → S → Result User
  unfolding get_user
  get_user_by_id id = get_user λ u. u.id ==ℤ id

  -- No tenant of the user is the default any more.
  unfoldable pub clear_primary : ℤ → Action S (Unit {0})
  clear_primary id =
      db.members.updates (λ m. m.user_id ==ℤ id) (λ t m. record m { is_primary = false })

  abbrev pub membership : Tenant → Bool → UserTenant
  membership tenant is_primary = record {
    user_id = tenant.created_by;
    tenant_tag = tenant.tag;
    is_primary = is_primary;
  }

  unfoldable pub add_member : UserTenant → Action S (Unit {0})
  unfolding or_conflict
  add_member m = attempt (or_conflict (db.members.create m)) (λ _. pure tt) fail

  abbrev pub clear_if : Bool → ℤ → Action S (Unit {0})
  clear_if is_primary id = if is_primary then clear_primary id else pure tt

  unfoldable pub create_with_membership : Tenant → Bool → Action S (Unit {0})
  unfolding or_conflict clear_primary add_member
  create_with_membership tenant is_primary = db.transaction (do
    or_conflict (db.tenants.create tenant)
    clear_if is_primary tenant.created_by
    add_member (membership tenant is_primary))

  unfoldable pub set_primary : ℤ → Text → Action S (Unit {0})
  unfolding or_no_user clear_primary
  set_primary id tag = db.transaction (do
    reading (λ s. or_no_user (db.members.first (has_member db.collation id tag) s))
    clear_primary id
    db.members.updates (has_member db.collation id tag) (λ t m. record m { is_primary = true }))

  -- A tenant as the join gives it, without its times.
  abbrev pub listed : TenantRow → Tenant
  listed row = record {
    id = row.id;
    tag = row.tag;
    name = row.name;
    parent_tag = row.parent_tag;
    created_by = row.created_by;
    created_at = 0;
    updated_at = 0;
    is_primary = row.is_primary;
  }

  unfoldable pub list_by_user : ℤ → S → Result (List Tenant)
  list_by_user id s = elim (db.joined id s) [
    | ok rows ↦ ok (map listed rows)
    | err e ↦ err e
    | panic p ↦ panic p
  ]

  unfoldable pub get_primary_tag : ℤ → S → Result Text
  unfolding or_no_user
  get_primary_tag id s = elim (or_no_user (db.members.first (has_primary id) s)) [
    | ok m ↦ ok m.tenant_tag
    | err e ↦ err e
    | panic p ↦ panic p
  ]

  unfoldable pub is_member : ℤ → Text → S → Result Bool
  is_member id tag s = elim (db.members.count (has_member db.collation id tag) s) [
    | ok count ↦ ok (ltb_ℤ (pos 0) count)
    | err e ↦ err e
    | panic p ↦ panic p
  ]
