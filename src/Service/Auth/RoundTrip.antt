-- ===== src/Service/Auth/RoundTrip.antt =====
-- A registration and the logins behind it, of internal/service/auth/auth.go.
use ragkb.Base.{ℤ, ◌+ℤ◌, ◌≡◌, sym, ap, ◌∙◌, true, Option, some, arith}
use ragkb.Text.{Text}
use ragkb.Fault.{Error, UserError, user}
use ragkb.Action.{ok, err, >>=-eq-ok, ◌>>=◌}
use ragkb.Domain.User.{User}
use ragkb.Token.{Claims, is_before, numeric_date, parse_access_token}
use ragkb.Token.Laws.{parse_access_token-generate_access_token}
use ragkb.Service.Auth.{
  AuthService, AuthWorld, TokenPair, private_tenant, new_user, hash_password, check_password,
  create_account, add_tenant, register, login, login_found, issue_tokens,
}
use ragkb.Service.Auth.Register.{hash_password-ok, create_account-ok, add_tenant-ok}
use ragkb.Service.Auth.Session.{issue_tokens-Issues}

module _ {R F C : Type 0} (s : AuthService R F C) where
  -- The account that a registration leaves has the password.
  register-account :
      (username password : Text) (w w' : AuthWorld R F C) (u : User)
      → register s username password w ≡ (ok u, w')
      → (s.users.account w'.db username ≡ some (u.id, u.password))
        × (check_password s u.password password ≡ ok tt)
  unfolding register
  register-account username password w w' u h =
      let (hash, w₁, hashed, h₁) =
        >>=-eq-ok (hash_password s password)
          (λ hash. create_account s username hash >>= add_tenant s username) w w' u h in
      let (v, w₂, created, added) =
        >>=-eq-ok (create_account s username hash) (add_tenant s username) w₁ w' u h₁ in
      let (fits, _, _) = hash_password-ok s password hash w w₁ hashed in
      let (made, _) = create_account-ok s username hash w₁ w₂ v created in
      let (id, t, is_v, _, _) = s.users.create_ok (new_user s username hash) v w₁.db w₂.db made in
      let (is_u, joined, _) = add_tenant-ok s username v u w₂ w' added in
      let kept =
        s.tenants_keep_accounts (private_tenant s v username) true w₂.db w'.db tt joined username in
      let there = s.users.create_account_ok (new_user s username hash) v w₁.db w₂.db made in
      let same : u.password ≡ hash =
        ap (λ (x : User). x.password) is_u ∙ ap (λ (x : User). x.password) is_v in
      (kept ∙ there ∙ ap (λ (x : User). some (x.id, x.password)) (sym is_u), rw same fits)

  -- A user who has registered can log in: while the database is as the registration left it and can
  -- be read, and tokens can be issued, a login with that name and password is answered with them, for
  -- the same user, and the access token is read as that user's until it expires; one with a password
  -- that does not fit the stored hash is refused.
  pub login-register :
      (username password : Text) (w w₁ w₂ w₃ : AuthWorld R F C) (u d : User) (pair : TokenPair)
      (t : C)
      → register s username password w ≡ (ok u, w₁)
      → w₂.db ≡ w₁.db
      → s.users.get_by_username username w₂.db ≡ ok d
      → issue_tokens s u.id w₂ ≡ (ok pair, w₃)
      → is_before
          (s.process.now t)
          (numeric_date (s.process.now w₂.process +ℤ s.tokens.access_expire))
        ≡ true
      → (login s username password w₂ ≡ (ok (d, pair), w₃))
        × (d.id ≡ u.id)
        × ((c : Claims) × (parse_access_token s.jwt s.process s.tokens pair.access_token t ≡ ok c)
            × (c.user_id ≡ u.id))
        × ((other : Text) (e : Error)
            → check_password s u.password other ≡ err e
            → login s username other w₂ ≡ (err (user UserError.invalid_credentials), w₂))
  unfolding login login_found
  login-register username password w w₁ w₂ w₃ u d pair t h same found issued fresh =
      let (left, fits) = register-account username password w w₁ u h in
      let read = s.users.get_by_username_account username w₂.db d found in
      let accounts : ◌≡◌ {A = Option (ℤ × Text)} (some (d.id, d.password))
          (some (u.id, u.password)) =
        sym read ∙ ap (λ r. s.users.account r username) same ∙ left in
      let id : d.id ≡ u.id = ground arith in
      let hash : d.password ≡ u.password = ground arith in
      let fits' : check_password s d.password password ≡ ok tt = rw hash fits in
      let issued' : issue_tokens s d.id w₂ ≡ (ok pair, w₃) = rw id issued in
      let token =
        parse_access_token-generate_access_token s.jwt s.process s.tokens u.id w₂.process w₂.process
          t pair.access_token (issue_tokens-Issues s u.id pair w₂ w₃ issued).access_made fresh in
      (
        ground arith,
        id,
        token,
        λ other e wrong.
            let wrong' : check_password s d.password other ≡ err e = rw hash wrong in ground arith,
      )
