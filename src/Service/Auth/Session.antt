-- ===== src/Service/Auth/Session.antt =====
-- `Login` of internal/service/auth/auth.go.
use ragkb.Base.{ℤ, ◌≡◌, inl, inr, subst, ap, ◌∙◌, true, arith, Bool-cases}
use ragkb.Text.{Text, ==ᵗ_refl}
use ragkb.Fault.{Error, UserError, user, is_user}
use ragkb.Action.{ok, err, Result-cases}
use ragkb.Domain.User.{User}
use ragkb.Token.{generate_access_token, generate_refresh_token, sign}
use ragkb.Service.Auth.{
  AuthService, AuthWorld, TokenPair, check_password, issue_tokens, login_found, login,
}

module _ {R F C : Type 0} (s : AuthService R F C) where
  -- Why a login is refused.
  pub data Refuses (username password : Text) (w : AuthWorld R F C) : Type 0 where
    unknown :
        (e : Error)
        → s.users.get_by_username username w.db ≡ err e
        → is_user e UserError.not_found ≡ true
        → Refuses username password w
    wrong_password :
        (u : User) (e : Error)
        → s.users.get_by_username username w.db ≡ ok u
        → check_password s u.password password ≡ err e
        → Refuses username password w

  -- A login for a name that nobody has and one with a wrong password are refused alike, so the answer
  -- does not tell which names there are. Nothing has changed.
  pub login-refused :
      (username password : Text) (w : AuthWorld R F C)
      → Refuses username password w
      → login s username password w ≡ (err (user UserError.invalid_credentials), w)
  unfolding login login_found
  login-refused username password w (unknown e missing is_missing) = ground arith
  login-refused username password w (wrong_password u e found wrong) = ground arith

  -- What stands behind two tokens that were issued.
  pub record Issues (id : ℤ) (pair : TokenPair) (w w' : AuthWorld R F C) : Type 0 where
    pub jti : Text
    pub between : C
    pub access_made :
        generate_access_token s.jwt s.process s.tokens id w.process
        ≡ (ok pair.access_token, w.process)
    pub refresh_made :
        generate_refresh_token s.jwt s.process s.tokens id w.process
        ≡ (ok (pair.refresh_token, jti), between)
    pub now_live : s.refresh.is_live w'.refresh jti ≡ true
    pub db_kept : w'.db ≡ w.db

  pub issue_tokens-Issues :
      (id : ℤ) (pair : TokenPair) (w w' : AuthWorld R F C)
      → issue_tokens s id w ≡ (ok pair, w')
      → Issues id pair w w'
  unfolding issue_tokens generate_access_token sign
  issue_tokens-Issues id pair w w' h =
      elim (Result-cases (generate_access_token s.jwt s.process s.tokens id w.process).0) [
        | inl (access, signed) ↦
            let q = generate_refresh_token s.jwt s.process s.tokens id w.process in
            elim (Result-cases q.0) [
              | inl ((tok, jti), made) ↦
                  let t = s.refresh.save jti id s.tokens.refresh_expire w.refresh in
                  elim (Result-cases t.0) [
                    | inl (u, saved) ↦
                        let live =
                          s.refresh.save_ok jti id s.tokens.refresh_expire w.refresh t.1 u
                            (λ i. (saved i, t.1)) jti in
                        let end : w'.refresh ≡ t.1 = ground arith in
                        record {
                          jti = jti;
                          between = q.1;
                          access_made = ground arith;
                          refresh_made = ground arith;
                          now_live = rw end (ground (arith, ==ᵗ_refl jti, live));
                          db_kept = ground arith;
                        }
                    | inr (inl (x, failed)) ↦ absurd (ground arith)
                    | inr (inr (x, failed)) ↦ absurd (ground arith)
                  ]
              | inr (inl (x, failed)) ↦ absurd (ground arith)
              | inr (inr (x, failed)) ↦ absurd (ground arith)
            ]
        | inr (inl (x, failed)) ↦ absurd (ground arith)
        | inr (inr (x, failed)) ↦ absurd (ground arith)
      ]

  -- A login that is answered is one of the user whose name the collation of the database takes for the
  -- one that was sent, whose password fits the stored hash,
  -- with two tokens that were issued for that user, the refresh token good from now on. The database
  -- has not changed.
  pub login-ok :
      (username password : Text) (w w' : AuthWorld R F C) (u : User) (pair : TokenPair)
      → login s username password w ≡ (ok (u, pair), w')
      → (s.users.collation.same u.username username ≡ true)
        × (s.users.get_by_username username w.db ≡ ok u)
        × (check_password s u.password password ≡ ok tt)
        × Issues u.id pair w w'
  unfolding login login_found
  login-ok username password w w' u pair h =
      elim (Result-cases (s.users.get_by_username username w.db)) [
        | inl (v, found) ↦ elim (Result-cases (check_password s v.password password)) [
          | inl (a, fits) ↦
              let q = issue_tokens s v.id w in
              elim (Result-cases q.0) [
                | inl (pair', issued) ↦
                    let same : v ≡ u = ground arith in
                    let same_pair : pair' ≡ pair = ground arith in
                    let end : q.1 ≡ w' = ground arith in
                    let done : q ≡ (ok pair, w') =
                      (λ i. (issued i, q.1))
                      ∙ ap (λ x. (ok x, q.1)) same_pair
                      ∙ ap (λ x. (ok pair, x)) end in
                    let found' = found ∙ ap ok same in
                    let done' =
                      subst (λ (x : User). issue_tokens s x.id w ≡ (ok pair, w')) same done in
                    (
                      s.users.get_by_username_ok username w.db u found',
                      found',
                      subst (λ (x : User). check_password s x.password password ≡ ok tt) same fits,
                      issue_tokens-Issues u.id pair w w' done',
                    )
                | inr (inl (x, failed)) ↦ absurd (ground arith)
                | inr (inr (x, failed)) ↦ absurd (ground arith)
              ]
          | inr (inl (x, failed)) ↦ absurd (ground arith)
          | inr (inr (x, failed)) ↦ absurd (ground arith)
        ]
        | inr (inl (x, failed)) ↦
            absurd (ground (arith, Bool-cases (is_user x UserError.not_found)))
        | inr (inr (x, failed)) ↦ absurd (ground arith)
      ]
