-- ===== src/Domain/User.antt =====
-- internal/domain/user: user.go and repository.go.
use ragkb.Base.{ℕ, ℤ, ◌≡◌, Bool, true, false, Option, some, List, if◌then◌else◌}
use ragkb.Text.{Text, lit}
use ragkb.Text.Collation.{Collation}
use ragkb.Action.{Result, ok, Action}

abbrev pub role_user : Text
role_user = lit "USER"

abbrev pub role_admin : Text
role_admin = lit "ADMIN"

pub record User : Type 0 where
  pub id : ℤ
  pub username : Text
  pub password : Text
  pub role : Text
  pub primary_tenant : Text
  pub created_at : ℕ
  pub updated_at : ℕ

pub record Tenant : Type 0 where
  pub id : ℤ
  pub tag : Text
  pub name : Text
  pub parent_tag : Option Text
  pub created_by : ℤ
  pub created_at : ℕ
  pub updated_at : ℕ
  pub is_primary : Bool

-- Over the states `R` of the database.
pub record UserRepo (R : Type 0) : Type 0 where
  pub collation : Collation
  pub create : User → Action R User
  pub get_by_username : Text → R → Result User
  pub get_by_id : ℤ → R → Result User
  -- Some user has that name.
  pub has_name : R → Text → Bool
  -- The number and the stored hash of the user of that name.
  pub account : R → Text → Option (ℤ × Text)
  -- The name was free, and is taken from then on.
  pub create_ok :
      (u v : User) (s s' : R)
      → create u s ≡ (ok v, s')
      → (id : ℤ) × (t : ℕ) × (v ≡ record u { id = id; created_at = t; updated_at = t })
        × (has_name s u.username ≡ false)
        × ((name : Text)
            → has_name s' name ≡ (if collation.same u.username name then true else has_name s name))
  pub create_account_ok :
      (u v : User) (s s' : R)
      → create u s ≡ (ok v, s')
      → account s' u.username ≡ some (v.id, v.password)
  pub get_by_username_account :
      (name : Text) (s : R) (u : User)
      → get_by_username name s ≡ ok u
      → account s name ≡ some (u.id, u.password)
  pub get_by_username_ok :
      (name : Text) (s : R) (u : User)
      → get_by_username name s ≡ ok u
      → collation.same u.username name ≡ true
  pub get_by_id_ok : (id : ℤ) (s : R) (u : User) → get_by_id id s ≡ ok u → u.id ≡ id

-- Over the states `T` of the database. `is_in s user tag`: the user belongs to that tenant.
pub record TenantRepo (T : Type 0) : Type 0 where
  pub collation : Collation
  pub is_in : T → ℤ → Text → Bool
  pub is_default : T → ℤ → Text → Bool
  pub create_with_membership : Tenant → Bool → Action T (Unit {0})
  pub set_primary : ℤ → Text → Action T (Unit {0})
  pub list_by_user : ℤ → T → Result (List Tenant)
  pub get_primary_tag : ℤ → T → Result Text
  pub is_member : ℤ → Text → T → Result Bool
  pub is_member_ok :
      (user : ℤ) (tag : Text) (s : T) (b : Bool)
      → is_member user tag s ≡ ok b
      → b ≡ is_in s user tag
  pub get_primary_tag_ok :
      (user : ℤ) (s : T) (tag : Text)
      → get_primary_tag user s ≡ ok tag
      → is_default s user tag ≡ true
  -- A default tenant is one that the user belongs to.
  pub default_is_in :
      (user : ℤ) (s : T) (tag : Text) → is_default s user tag ≡ true → is_in s user tag ≡ true
  -- The new tenant is its creator's default, and the only one.
  pub create_default_ok :
      (tenant : Tenant) (s s' : T) (u : Unit {0})
      → create_with_membership tenant true s ≡ (ok u, s')
      → (tag : Text) → is_default s' tenant.created_by tag ≡ collation.same tenant.tag tag
  -- The user is in the tenant, and no other one is the default behind it.
  pub set_primary_ok :
      (user : ℤ) (tag : Text) (s s' : T) (u : Unit {0})
      → set_primary user tag s ≡ (ok u, s')
      → (is_in s user tag ≡ true)
        × ((tag' : Text) → is_default s' user tag' ≡ true → collation.same tag' tag ≡ true)
