-- ===== src/Service/Auth/Register.antt =====
-- `Register` of internal/service/auth/auth.go.
use ragkb.Base.{◌<◌, [], ◌≡◌, ◌≢◌, inl, inr, ap, ◌∙◌, true, false, arith, Bool-cases, length}
use ragkb.Text.{Text}
use ragkb.Fault.{Error, UserError, is_user}
use ragkb.Action.{ok, err, Result-cases, >>=-eq-ok, ◌>>=◌}
use ragkb.Domain.User.{User, role_user}
use ragkb.Service.Auth.{
  AuthService, AuthWorld, private_tag, private_tenant, new_user, hash_password, check_password,
  create_account, add_tenant, register, too_long_error,
}

module _ {R F C : Type 0} (s : AuthService R F C) where
  pub hash_password-ok :
      (plain hash : Text) (w w' : AuthWorld R F C)
      → hash_password s plain w ≡ (ok hash, w')
      → (check_password s hash plain ≡ ok tt) × (w'.db ≡ w.db) × (w'.refresh ≡ w.refresh)
  unfolding hash_password check_password
  hash_password-ok plain hash w w' h =
      let q = s.bcrypt.generate_from_password plain w.process in
      (s.bcrypt.generate_ok plain hash w.process q.1 (ground arith), ground arith, ground arith)

  pub create_account-ok :
      (username hash : Text) (w w' : AuthWorld R F C) (u : User)
      → create_account s username hash w ≡ (ok u, w')
      → (s.users.create (new_user s username hash) w.db ≡ (ok u, w'.db)) × (w'.refresh ≡ w.refresh)
  unfolding create_account
  create_account-ok username hash w w' u h =
      let q = s.users.create (new_user s username hash) w.db in
      elim (Result-cases q.0) [
        | inl (v, made) ↦ (ground arith, ground arith)
        | inr (inl (x, failed)) ↦ absurd (ground (arith, Bool-cases (is_user x UserError.conflict)))
        | inr (inr (x, failed)) ↦ absurd (ground arith)
      ]

  pub add_tenant-ok :
      (username : Text) (u v : User) (w w' : AuthWorld R F C)
      → add_tenant s username u w ≡ (ok v, w')
      → (v ≡ record u { primary_tenant = private_tag username })
        × (s.tenants.create_with_membership (private_tenant s u username) true w.db
            ≡ (ok tt, w'.db))
        × (w'.refresh ≡ w.refresh)
  unfolding add_tenant
  add_tenant-ok username u v w w' h =
      let q = s.tenants.create_with_membership (private_tenant s u username) true w.db in
      elim (Result-cases q.0) [
        | inl (a, made) ↦ (ground arith, ground arith, ground arith)
        | inr (inl (x, failed)) ↦ absurd (ground arith)
        | inr (inr (x, failed)) ↦ absurd (ground arith)
      ]

  -- A registration that is answered was for a name that nobody had, as the collation of the database
  -- compares names. The new user has that name, the role of a user, and a stored hash that the
  -- password fits; the user's private tenant is the user's default, and no other one is. No refresh
  -- token has changed.
  pub register-ok :
      (username password : Text) (tag : Text) (w w' : AuthWorld R F C) (u : User)
      → register s username password w ≡ (ok u, w')
      → (s.users.has_name w.db username ≡ false)
        × (u.username ≡ username)
        × (u.role ≡ role_user)
        × (check_password s u.password password ≡ ok tt)
        × (u.primary_tenant ≡ private_tag username)
        × (s.tenants.is_default w'.db u.id tag
            ≡ s.tenants.collation.same (private_tag username) tag)
        × (w'.refresh ≡ w.refresh)
  unfolding register
  register-ok username password tag w w' u h =
      let (hash, w₁, hashed, h₁) =
        >>=-eq-ok (hash_password s password)
          (λ hash. create_account s username hash >>= add_tenant s username) w w' u h in
      let (v, w₂, created, added) =
        >>=-eq-ok (create_account s username hash) (add_tenant s username) w₁ w' u h₁ in
      let (fits, db₁, refresh₁) = hash_password-ok password hash w w₁ hashed in
      let (made, refresh₂) = create_account-ok username hash w₁ w₂ v created in
      let (id, t, is_v, free, _) =
        s.users.create_ok (new_user s username hash) v w₁.db w₂.db made in
      let (is_u, joined, refresh₃) = add_tenant-ok username v u w₂ w' added in
      let default =
        s.tenants.create_default_ok (private_tenant s v username) w₂.db w'.db tt joined tag in
      let is_u' =
        is_u ∙ ap (λ (x : User). record x { primary_tenant = private_tag username }) is_v in
      (
        rw (← db₁) free,
        ap (λ (x : User). x.username) is_u',
        ap (λ (x : User). x.role) is_u',
        rw (ap (λ (x : User). x.password) is_u') fits,
        ap (λ (x : User). x.primary_tenant) is_u,
        rw (ap (λ (x : User). x.id) is_u) default,
        refresh₃ ∙ refresh₂ ∙ refresh₁,
      )

  -- Where the user's row has been made but the private tenant could not be, the registration fails with
  -- that error; and in any state in which the name is still there, as it was behind the row, no
  -- registration for it is answered, with whatever password.
  pub register-half :
      (username password password' hash : Text) (e : Error) (u u' : User)
      (w w₁ w₂ w₃ later v : AuthWorld R F C)
      → hash_password s password w ≡ (ok hash, w₁)
      → create_account s username hash w₁ ≡ (ok u, w₂)
      → add_tenant s username u w₂ ≡ (err e, w₃)
      → s.users.has_name later.db username ≡ s.users.has_name w₂.db username
      → (register s username password w ≡ (err e, w₃))
        × (register s username password' later ≢ (ok u', v))
  unfolding register
  register-half username password password' hash e u u' w w₁ w₂ w₃ later v hashed created failed
        kept =
      let (made, _) = create_account-ok username hash w₁ w₂ u created in
      let (_, _, _, _, names) = s.users.create_ok (new_user s username hash) u w₁.db w₂.db made in
      let taken : s.users.has_name later.db username ≡ true =
        kept ∙ names username ∙ rw (s.users.collation.same_refl username) in
      (
        ground arith,
        λ again.
            let (free, _, _, _, _, _, _) = register-ok username password' [] later v u' again in
            ground arith,
      )

  -- A password of more than 72 bytes is refused by bcrypt, with an error that is none of the users'.
  pub register-too_long :
      (username password : Text) (w : AuthWorld R F C)
      → 72 < length password
      → register s username password w ≡ (err too_long_error, w)
  unfolding register hash_password
  register-too_long username password w long =
      ground (arith, s.bcrypt.too_long password w.process long)
