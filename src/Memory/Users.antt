-- ===== src/Memory/Users.antt =====
-- Users, tenants and memberships in memory, and the theorems about them applied to runs.
use ragkb.Base.{pos, ◌≡◌, refl, true, false, none, some, List, [], ◌∷◌, map, first_match, arith}
use ragkb.Text.{lit, ◌==ᵗ◌}
use ragkb.Action.{Result, ok}
use ragkb.Domain.Document.{Document}
use ragkb.Domain.User.{User, Tenant}
use ragkb.Infra.Mysql.Users.{
  UserTenant, Database, users_table, tenants_table, members_table, has_member, set_primary,
  get_primary_tag, create_with_membership,
}
use ragkb.Infra.Mysql.Users.Members.{only_primary}
use ragkb.Infra.Mysql.Users.Laws.{set_primary-ok}
use ragkb.Infra.Mysql.Users.Repos.{tenant_repo, user_repo}
use ragkb.Service.Documents.{DocumentService, World, resolve_tenant}
use ragkb.Service.Users.{UserService, update_primary_tenant, resolve_tenant-update_primary_tenant}
use ragkb.Memory.Table.{table_of, no_case, same_letters, create-other, next_id, next_id-fresh}
use ragkb.Memory.Servers.{service, empty, Objects, Bits, Topic}

pub record Db : Type 0 where
  pub users : List User
  pub tenants : List Tenant
  pub members : List UserTenant

pub no_number : (ms : List UserTenant) → first_match (λ _. false) ms ≡ none
no_number [] = refl
no_number (m ∷ ms) = no_number ms

undone : Result (Unit {0}) × Db → Db → Result (Unit {0}) × Db
undone (ok u, s') s = (ok u, s')
undone (r, s') s = (r, s)

undone-ok :
    (p : Result (Unit {0}) × Db) (s s' : Db) (u : Unit {0})
    → undone p s ≡ (ok u, s')
    → p ≡ (ok u, s')
unfolding undone
undone-ok p s s' u h = ground arith

unfoldable pub db : Database Db
unfolding table_of same_letters next_id undone undone-ok
db = record {
  collation = no_case;
  users =
      table_of (users_table no_case) (λ s. s.users) (λ rs s. record s { users = rs }) (λ rs s. refl)
        (λ rs. pos (next_id (λ u. u.id) rs)) (next_id-fresh λ u. u.id);
  tenants =
      table_of (tenants_table no_case) (λ s. s.tenants) (λ rs s. record s { tenants = rs })
        (λ rs s. refl) (λ rs. pos (next_id (λ u. u.id) rs)) (next_id-fresh λ u. u.id);
  members =
      table_of (members_table no_case) (λ s. s.members) (λ rs s. record s { members = rs })
        (λ rs s. refl) (λ rs. pos 0) no_number;
  joined = λ id s. ok [];
  transaction = λ f s. undone (f s) s;
  transaction_ok = λ f s s' u h. undone-ok (f s) s s' u h;
  tenants_keep_users = λ t s.
      create-other (tenants_table no_case) (λ s. s.tenants) (λ rs s. record s { tenants = rs })
        (λ rs s. refl) (λ rs. pos (next_id (λ u. u.id) rs)) (next_id-fresh λ u. u.id) (λ s. s.users)
        (λ rs s. refl) t s;
  members_keep_users = λ m s.
      create-other (members_table no_case) (λ s. s.members) (λ rs s. record s { members = rs })
        (λ rs s. refl) (λ rs. pos 0) no_number (λ s. s.users) (λ rs s. refl) m s;
  updates_keep_users = λ p f s. refl;
  tenants_only = λ t s.
      create-other (tenants_table no_case) (λ s. s.tenants) (λ rs s. record s { tenants = rs })
        (λ rs s. refl) (λ rs. pos (next_id (λ u. u.id) rs)) (next_id-fresh λ u. u.id)
        (λ s. s.members) (λ rs s. refl) t s;
}

abbrev pub team : Tenant
team = record {
  id = pos 0;
  tag = lit "team";
  name = lit "Team";
  parent_tag = none;
  created_by = pos 5;
  created_at = 0;
  updated_at = 0;
  is_primary = false;
}

abbrev pub lab : Tenant
lab = record team { tag = lit "lab"; name = lit "Lab" }

abbrev pub no_one : Db
no_one = record { users = []; tenants = []; members = [] }

-- User 5 with the tenants "team", by default, and "lab".
unfoldable two_tenants : Db
unfolding db create_with_membership ◌==ᵗ◌
two_tenants = (create_with_membership db lab false (create_with_membership db team true no_one).1).1

unfoldable chosen : Db
unfolding two_tenants set_primary
chosen = (set_primary db (pos 5) (lit "lab") two_tenants).1

set_primary-ok_example :
    (m : UserTenant) × (first_match (has_member no_case (pos 5) (lit "lab")) two_tenants.members
      ≡ some m)
    × (chosen.members ≡ map (only_primary no_case (pos 5) (lit "lab")) two_tenants.members)
unfolding chosen
set_primary-ok_example = set_primary-ok db (pos 5) (lit "lab") two_tenants chosen tt refl

unfoldable pub accounts : UserService Db
unfolding tenant_repo user_repo
accounts = record { users = user_repo db; tenants = tenant_repo db }

unfoldable pub documents : DocumentService (List Document) Db Objects Bits Topic
unfolding service accounts
documents = record {
  docs = service.docs;
  tenants = accounts.tenants;
  objects = service.objects;
  progress = service.progress;
  producer = service.producer;
  limits = service.limits;
  unicode = service.unicode;
}

chosen_world : World (List Document) Db Objects Bits Topic
chosen_world = record {
  docs = [];
  tenants = chosen;
  objects = empty.objects;
  progress = empty.progress;
  producer = empty.producer;
}

resolve_tenant-update_primary_tenant_example :
    (accounts.tenants.is_in two_tenants (pos 5) (lit "lab") ≡ true)
    × (no_case.same (lit "lab") (lit "lab") ≡ true)
unfolding documents chosen_world chosen update_primary_tenant resolve_tenant get_primary_tag
resolve_tenant-update_primary_tenant_example =
    resolve_tenant-update_primary_tenant accounts documents (pos 5) (lit "lab") (lit "lab")
      two_tenants chosen_world chosen_world tt refl refl refl
