-- ===== src/Infra/Mysql/Users/Laws.antt =====
-- What internal/infra/mysql/user_repo.go does to the memberships, and what its reads find.
use ragkb.Base.{
  ℤ, pos, ◌≡◌, inl, inr, sym, subst, ap, ◌∙◌, Bool, true, false, ◌==ℤ◌, ==ℤ_iff, ltb_ℤ, some, none,
  [], ◌∷◌, ◌++◌, map, first_match, first_match-holds, Bool-cases, arith, if◌then◌else◌,
}
use ragkb.Text.{Text}
use ragkb.Fault.{is_duplicate_key, is_record_not_found}
use ragkb.Action.{ok, Action, Result-cases, >>=-eq-ok, ◌>>◌}
use ragkb.Domain.User.{User, Tenant}
use ragkb.Domain.Document.Repo.{update_rows}
use ragkb.Infra.Mysql.Users.{
  UserTenant, Database, has_member, has_primary, or_no_user, or_conflict, clear_primary, clear_if,
  add_member, membership, create_with_membership, set_primary, get_primary_tag, is_member, get_user,
  fill_primary_tenant, get_by_username, get_user_by_id,
}
use ragkb.Infra.Mysql.Users.Members.{
  any, any-first_match, any-length, only_primary, cleared, clear_and_set, only_primary-first,
  is_default, any-first_match_trans, only_primary-any,
}

module _ {S : Type 0} (db : Database S) where
  -- When a user's default tenant has been set, the user is a member of it, as the collation of the
  -- table compares tags, the memberships in it are the only primary ones of the user, and no other
  -- user's membership has changed.
  pub set_primary-ok :
      (id : ℤ) (tag : Text) (s s' : S) (u : Unit {0})
      → set_primary db id tag s ≡ (ok u, s')
      → (m : UserTenant) × (first_match (has_member db.collation id tag) (db.members.rows s)
          ≡ some m)
        × (db.members.rows s' ≡ map (only_primary db.collation id tag) (db.members.rows s))
  unfolding set_primary clear_primary or_no_user
  set_primary-ok id tag s s' u h =
      let h₁ = db.transaction_ok _ s s' u h in
      elim (Result-cases (db.members.first (has_member db.collation id tag) s)) [
        | inl (m, read) ↦
            let q =
              db.members.updates (λ m. m.user_id ==ℤ id) (λ t m. record m { is_primary = false })
                s in
            elim (Result-cases q.0) [
              | inl (v, done) ↦
                  let (_, rows₁) =
                    db.members.updates_ok (λ m. m.user_id ==ℤ id)
                      (λ t m. record m { is_primary = false }) s q.1 v (λ i. (done i, q.1)) in
                  let (_, rows₂) =
                    db.members.updates_ok (has_member db.collation id tag)
                      (λ t m. record m { is_primary = true }) q.1 s' u (ground arith) in
                  (
                    m,
                    db.members.first_ok _ s m read,
                    rows₂
                        ∙ ap
                            (update_rows (has_member db.collation id tag)
                              (λ m. record m { is_primary = true }))
                            rows₁
                        ∙ clear_and_set db.collation id tag (db.members.rows s),
                  )
              | inr (inl (x, failed)) ↦ absurd (ground arith)
              | inr (inr (x, failed)) ↦ absurd (ground arith)
            ]
        | inr (inl (x, failed)) ↦ absurd (ground arith)
        | inr (inr (x, failed)) ↦ absurd (ground arith)
      ]

  -- The membership that is read as the default one.
  get_primary_tag-ok :
      (id : ℤ) (s : S) (tag : Text)
      → get_primary_tag db id s ≡ ok tag
      → (m : UserTenant) × (first_match (has_primary id) (db.members.rows s) ≡ some m)
        × (m.tenant_tag ≡ tag)
  unfolding get_primary_tag or_no_user
  get_primary_tag-ok id s tag h = elim (Result-cases (db.members.first (has_primary id) s)) [
    | inl (m, read) ↦ (m, db.members.first_ok _ s m read, ground arith)
    | inr (inl (x, failed)) ↦ absurd (ground arith)
    | inr (inr (x, failed)) ↦ absurd (ground arith)
  ]

  -- The default tenant that is read behind a call that has set it is one that the collation
  -- takes for the one that was set.
  pub get_primary_tag-set_primary :
      (id : ℤ) (tag tag' : Text) (s s' : S) (u : Unit {0})
      → set_primary db id tag s ≡ (ok u, s')
      → get_primary_tag db id s' ≡ ok tag'
      → db.collation.same tag' tag ≡ true
  get_primary_tag-set_primary id tag tag' s s' u h read =
      let (_, _, rows) = set_primary-ok id tag s s' u h in
      let (m, found, same) = get_primary_tag-ok id s' tag' read in
      ap (λ t. db.collation.same t tag) (sym same)
      ∙ only_primary-first db.collation id tag (db.members.rows s) m (rw rows at found)

  pub or_conflict-ok :
      {A : Type 0} (m : Action S A) (s s' : S) (a : A)
      → or_conflict db m s ≡ (ok a, s')
      → m s ≡ (ok a, s')
  unfolding or_conflict
  or_conflict-ok m s s' a h = elim (Result-cases (m s).0) [
    | inl (b, done) ↦ ground arith
    | inr (inl (x, failed)) ↦ absurd (ground (arith, Bool-cases (is_duplicate_key x)))
    | inr (inr (x, failed)) ↦ absurd (ground arith)
  ]

  -- The step of a new tenant's transaction that clears the other memberships.
  clear_if-ok :
      (is_primary : Bool) (id : ℤ) (s s' : S) (u : Unit {0})
      → clear_if db is_primary id s ≡ (ok u, s')
      → db.members.rows s'
        ≡ (if is_primary then map (cleared id) (db.members.rows s) else db.members.rows s)
  unfolding clear_primary
  clear_if-ok true id s s' u h = (db.members.updates_ok _ _ s s' u h).1
  clear_if-ok false id s s' u h = ground arith

  add_member-ok :
      (m : UserTenant) (s s' : S) (u : Unit {0})
      → add_member db m s ≡ (ok u, s')
      → (first_match (has_member db.collation m.user_id m.tenant_tag) (db.members.rows s) ≡ none)
        × (db.members.rows s' ≡ db.members.rows s ++ m ∷ [])
  unfolding add_member
  add_member-ok m s s' u h =
      let (v, s₁, made, last) =
        >>=-eq-ok (or_conflict db (db.members.create m)) (λ _ t. (ok tt, t)) s s' u h in
      let (_, _, is, _, fresh, rows) =
        db.members.create_ok m v s s₁ (or_conflict-ok (db.members.create m) s s₁ v made) in
      let same : s₁ ≡ s' = ground arith in
      (
        fresh,
        subst (λ t. db.members.rows t ≡ db.members.rows s ++ m ∷ []) same
            (subst (λ x. db.members.rows s₁ ≡ db.members.rows s ++ x ∷ []) is rows),
      )

  -- When a tenant has been created, its creator is a member of it; as the default one it takes the
  -- place of any other, and no other user's membership has changed.
  pub create_with_membership-ok :
      (tenant : Tenant) (is_primary : Bool) (s s' : S) (u : Unit {0})
      → create_with_membership db tenant is_primary s ≡ (ok u, s')
      → db.members.rows s'
        ≡ (if is_primary
            then map (cleared tenant.created_by) (db.members.rows s)
            else db.members.rows s)
          ++ membership db tenant is_primary ∷ []
  unfolding create_with_membership
  create_with_membership-ok tenant is_primary s s' u h =
      let made = or_conflict db (db.tenants.create tenant) in
      let clear = clear_if db is_primary tenant.created_by in
      let add = add_member db (membership db tenant is_primary) in
      let h₁ = db.transaction_ok (made >> (clear >> add)) s s' u h in
      let (t, s₁, there, h₂) = >>=-eq-ok made (λ _. clear >> add) s s' u h₁ in
      let (w, s₂, cleared_if, added) = >>=-eq-ok clear (λ _. add) s₁ s' u h₂ in
      let same : db.members.rows s₁ ≡ db.members.rows s =
        ap (λ p. db.members.rows p.1) (sym (or_conflict-ok (db.tenants.create tenant) s s₁ t there))
        ∙ db.tenants_only tenant s in
      let mid = clear_if-ok is_primary tenant.created_by s₁ s₂ w cleared_if in
      let (_, rows) = add_member-ok (membership db tenant is_primary) s₂ s' u added in
      rw (rows, mid, same)

  pub is_member-ok :
      (id : ℤ) (tag : Text) (s : S) (b : Bool)
      → is_member db id tag s ≡ ok b
      → b ≡ any (has_member db.collation id tag) (db.members.rows s)
  unfolding is_member
  is_member-ok id tag s b h =
      elim (Result-cases (db.members.count (has_member db.collation id tag) s)) [
        | inl (n, counted) ↦
            let is = db.members.count_ok _ s n counted in
            let answer : ltb_ℤ (pos 0) n ≡ b = ground arith in
            sym answer
            ∙ ap (ltb_ℤ (pos 0)) is
            ∙ sym (any-length (has_member db.collation id tag) (db.members.rows s))
        | inr (inl (x, failed)) ↦ absurd (ground arith)
        | inr (inr (x, failed)) ↦ absurd (ground arith)
      ]

  pub get_primary_tag-default :
      (id : ℤ) (s : S) (tag : Text)
      → get_primary_tag db id s ≡ ok tag
      → any (is_default db.collation id tag) (db.members.rows s) ≡ true
  get_primary_tag-default id s tag h =
      let (m, found, same) = get_primary_tag-ok id s tag h in
      any-first_match_trans db.collation id tag (db.members.rows s) m found
        (ap (λ t. db.collation.same t tag) same ∙ db.collation.same_refl tag)

  pub set_primary-default :
      (id : ℤ) (tag : Text) (s s' : S) (u : Unit {0})
      → set_primary db id tag s ≡ (ok u, s')
      → (any (has_member db.collation id tag) (db.members.rows s) ≡ true)
        × ((tag' : Text)
            → any (is_default db.collation id tag') (db.members.rows s') ≡ true
            → db.collation.same tag' tag ≡ true)
  set_primary-default id tag s s' u h =
      let (m, found, rows) = set_primary-ok id tag s s' u h in
      (
        any-first_match (has_member db.collation id tag) (db.members.rows s) m found,
        λ tag' there.
            only_primary-any db.collation id tag tag' (db.members.rows s) (rw rows at there),
      )

  pub get_user-ok :
      (test : User → Bool) (s : S) (u : User)
      → get_user db test s ≡ ok u
      → (v : User) × (first_match test (db.users.rows s) ≡ some v)
        × (u.id ≡ v.id)
        × (u.username ≡ v.username)
        × (u.password ≡ v.password)
  unfolding get_user or_no_user fill_primary_tenant
  get_user-ok test s u h = elim (Result-cases (db.users.first test s)) [
    | inl (v, read) ↦
        let row = db.users.first_ok test s v read in
        elim (Result-cases (db.members.first (has_primary v.id) s)) [
          | inl (m, found) ↦ (v, row, ground arith, ground arith, ground arith)
          | inr (inl (x, missing)) ↦ elim (Bool-cases (is_record_not_found x)) [
            | inl none_there ↦ (v, row, ground arith, ground arith, ground arith)
            | inr broken ↦ absurd (ground arith)
          ]
          | inr (inr (x, failed)) ↦ absurd (ground arith)
        ]
    | inr (inl (x, failed)) ↦ absurd (ground arith)
    | inr (inr (x, failed)) ↦ absurd (ground arith)
  ]

  pub get_user_by_id-id : (id : ℤ) (s : S) (u : User) → get_user_by_id db id s ≡ ok u → u.id ≡ id
  unfolding get_user_by_id
  get_user_by_id-id id s u h =
      let (v, row, same, _, _) = get_user-ok (λ u. u.id ==ℤ id) s u h in
      same
      ∙ (==ℤ_iff v.id id).0 (first_match-holds (λ (u : User). u.id ==ℤ id) (db.users.rows s) v row)

  pub get_by_username-username :
      (name : Text) (s : S) (u : User)
      → get_by_username db name s ≡ ok u
      → db.collation.same u.username name ≡ true
  unfolding get_by_username
  get_by_username-username name s u h =
      let test = (λ (x : User). db.collation.same x.username name) in
      let (v, row, _, same, _) = get_user-ok test s u h in
      ap (λ t. db.collation.same t name) same ∙ first_match-holds test (db.users.rows s) v row
