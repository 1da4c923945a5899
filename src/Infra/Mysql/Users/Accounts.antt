-- ===== src/Infra/Mysql/Users/Accounts.antt =====
-- The accounts in the table `users` of internal/infra/mysql/user_repo.go: who can log in, by name.
use mathlib.Core.Option
use ragkb.Base.{
  ℤ, ◌≡◌, refl, ap, sym, ◌∙◌, Bool, true, false, Option, some, none, List, [], ◌∷◌, ◌++◌, arith,
  first_match, Bool-cases, inl, inr,
}
use ragkb.Text.{Text}
use ragkb.Action.{ok, ◌>>◌, >>=-eq-ok}
use ragkb.Domain.User.{User, Tenant}
use ragkb.Infra.Mysql.Users.{
  Database, create_user, get_by_username, create_with_membership, or_conflict, clear_if, add_member,
  membership, clear_primary,
}
use ragkb.Infra.Mysql.Users.Laws.{or_conflict-ok, get_user-ok}

first_match-snoc :
    {A : Type 0} (p : A → Bool) (xs : List A) (y : A)
    → first_match p xs ≡ none
    → p y ≡ true
    → first_match p (xs ++ y ∷ []) ≡ some y
first_match-snoc p [] y h it = rw it
first_match-snoc p (x ∷ xs) y h it = elim (Bool-cases (p x)) [
  | inl holds ↦ absurd (ground arith)
  | inr fails ↦ rw fails (first_match-snoc p xs y (ground arith) it)
]

module _ {S : Type 0} (db : Database S) where
  abbrev pub account : S → Text → Option (ℤ × Text)
  account s name =
      Option.map (λ u. (u.id, u.password))
        (first_match (λ u. db.collation.same u.username name) (db.users.rows s))

  pub create_user-account :
      (u v : User) (s s' : S)
      → create_user db u s ≡ (ok v, s')
      → account s' u.username ≡ some (v.id, v.password)
  unfolding create_user
  create_user-account u v s s' h =
      let (id, t, is, _, free, rows) =
        db.users.create_ok u v s s' (or_conflict-ok db (db.users.create u) s s' v h) in
      let test = (λ (x : User). db.collation.same x.username u.username) in
      let named : test v ≡ true = ap test is ∙ db.collation.same_refl u.username in
      ap (λ l. Option.map (λ (x : User). (x.id, x.password)) (first_match test l)) rows
      ∙ ap (Option.map (λ (x : User). (x.id, x.password)))
          (first_match-snoc test (db.users.rows s) v free named)

  pub get_by_username-account :
      (name : Text) (s : S) (u : User)
      → get_by_username db name s ≡ ok u
      → account s name ≡ some (u.id, u.password)
  unfolding get_by_username
  get_by_username-account name s u h =
      let (v, row, id, _, password) =
        get_user-ok db (λ u. db.collation.same u.username name) s u h in
      ap (Option.map (λ (x : User). (x.id, x.password))) row ∙ ground arith

  clear_if-users :
      (is_primary : Bool) (id : ℤ) (s : S)
      → db.users.rows (clear_if db is_primary id s).1 ≡ db.users.rows s
  unfolding clear_primary
  clear_if-users true id s = db.updates_keep_users _ _ s
  clear_if-users false id s = refl

  -- A new tenant changes no account.
  pub create_with_membership-account :
      (tenant : Tenant) (is_primary : Bool) (s s' : S) (u : Unit {0})
      → create_with_membership db tenant is_primary s ≡ (ok u, s')
      → (name : Text) → account s' name ≡ account s name
  unfolding create_with_membership add_member
  create_with_membership-account tenant is_primary s s' u h name =
      let made = or_conflict db (db.tenants.create tenant) in
      let clear = clear_if db is_primary tenant.created_by in
      let add = add_member db (membership db tenant is_primary) in
      let insert = or_conflict db (db.members.create (membership db tenant is_primary)) in
      let h₁ = db.transaction_ok (made >> (clear >> add)) s s' u h in
      let (t, s₁, there, h₂) = >>=-eq-ok made (λ _. clear >> add) s s' u h₁ in
      let (w, s₂, cleared_if, added) = >>=-eq-ok clear (λ _. add) s₁ s' u h₂ in
      let (m, s₃, inserted, last) = >>=-eq-ok insert (λ _ t. (ok tt, t)) s₂ s' u added in
      let users₁ =
        ap (λ p. db.users.rows p.1)
          (sym (or_conflict-ok db (db.tenants.create tenant) s s₁ t there))
        ∙ db.tenants_keep_users tenant s in
      let users₂ =
        ap (λ p. db.users.rows p.1) (sym cleared_if)
        ∙ clear_if-users is_primary tenant.created_by s₁ in
      let users₃ =
        ap (λ p. db.users.rows p.1)
          (sym (
            or_conflict-ok db (db.members.create (membership db tenant is_primary)) s₂ s₃ m
              inserted))
        ∙ db.members_keep_users (membership db tenant is_primary) s₂ in
      let users₄ : db.users.rows s' ≡ db.users.rows s₃ = ap (λ p. db.users.rows p.1) (sym last) in
      ap
        (λ l.
          Option.map (λ (x : User). (x.id, x.password))
            (first_match (λ x. db.collation.same x.username name) l))
        (users₄ ∙ users₃ ∙ users₂ ∙ users₁)
