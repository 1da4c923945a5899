-- ===== src/Service/Auth/Renewal.antt =====
-- `Refresh` and `Logout` of internal/service/auth/auth.go.
use ragkb.Base.{[], ◌≡◌, ◌≢◌, ◌+ℤ◌, inl, inr, ◌∙◌, true, false, arith, Bool-cases}
use ragkb.Text.{Text, ==ᵗ_refl}
use ragkb.Action.{ok, Result-cases}
use ragkb.Domain.User.{User}
use ragkb.Token.{
  Claims, is_before, numeric_date, key_of, generate_access_token, parse_refresh_token,
  parse_access_token, sign, claims_at, type_access, type_refresh,
}
use ragkb.Token.Laws.{
  parse-ok, parse_access_token-generate_access_token, parse_refresh_token-generate_refresh_token,
}
use ragkb.Service.Auth.{
  AuthService, AuthWorld, TokenPair, login, refresh_claims, refresh_access, logout,
}
use ragkb.Service.Auth.Session.{login-ok}

module _ {R F C : Type 0} (s : AuthService R F C) where
  -- Who gets a new access token has a refresh token that is accepted and good, and the new token is
  -- made for the user of that token. The database and the store have not changed.
  pub refresh_access-ok :
      (raw access : Text) (w w' : AuthWorld R F C)
      → refresh_access s raw w ≡ (ok access, w')
      → (c : Claims) × (parse_refresh_token s.jwt s.process s.tokens raw w.process ≡ ok c)
        × (s.refresh.is_live w.refresh c.id ≡ true)
        × (generate_access_token s.jwt s.process s.tokens c.user_id w.process
            ≡ (ok access, w'.process))
        × (w'.db ≡ w.db)
        × (w'.refresh ≡ w.refresh)
  unfolding refresh_access refresh_claims
  refresh_access-ok raw access w w' h =
      elim (Result-cases (parse_refresh_token s.jwt s.process s.tokens raw w.process)) [
        | inl (c, read) ↦ elim (Result-cases (s.refresh.exists c.id w.refresh)) [
          | inl (good, answer) ↦ elim (Bool-cases good) [
            | inl yes_good ↦ (
              c,
              read,
              ground (arith, s.refresh.exists_ok c.id w.refresh good answer),
              ground arith,
              ground arith,
              ground arith,
            )
            | inr gone ↦ absurd (ground arith)
          ]
          | inr (inl (x, failed)) ↦ absurd (ground arith)
          | inr (inr (x, failed)) ↦ absurd (ground arith)
        ]
        | inr (inl (x, failed)) ↦ absurd (ground arith)
        | inr (inr (x, failed)) ↦ absurd (ground arith)
      ]

  logout-ok :
      (raw : Text) (c : Claims) (w w' : AuthWorld R F C) (u : Unit {0})
      → parse_refresh_token s.jwt s.process s.tokens raw w.process ≡ ok c
      → logout s raw w ≡ (ok u, w')
      → s.refresh.revoke c.id w.refresh ≡ (ok u, w'.refresh)
  unfolding logout
  logout-ok raw c w w' u read h = ground arith

  -- A refresh token that was good at a logout with it buys no access token from then on, at whatever
  -- time and behind whatever else has happened to the database.
  pub refresh_access-logout :
      (raw access : Text) (c : Claims) (w w' v v' : AuthWorld R F C) (u : Unit {0})
      → parse_refresh_token s.jwt s.process s.tokens raw w.process ≡ ok c
      → logout s raw w ≡ (ok u, w')
      → v.refresh ≡ w'.refresh
      → refresh_access s raw v ≢ (ok access, v')
  unfolding parse_refresh_token
  refresh_access-logout raw access c w w' v v' u read out same h =
      let (c', read', live, _, _, _) = refresh_access-ok raw access v v' h in
      let (whole, _) = parse-ok s.jwt s.process s.tokens raw type_refresh w.process c read in
      let (whole', _) = parse-ok s.jwt s.process s.tokens raw type_refresh v.process c' read' in
      let one =
        s.jwt.parse_same raw (key_of s.tokens) (key_of s.tokens) (s.process.now w.process)
          (s.process.now v.process) c c' whole whole' in
      let gone =
        s.refresh.revoke_ok c.id w.refresh w'.refresh u (logout-ok raw c w w' u read out) c.id in
      let gone' : s.refresh.is_live v.refresh c'.id ≡ false =
        rw (same, ← one) (gone ∙ ground (arith, ==ᵗ_refl c.id)) in
      ground arith

  -- The refresh token of a login buys an access token of that user until it expires or is revoked:
  -- while the token is not expired, the store is the one that the login has left and answers, and
  -- signing succeeds, there is a new access token, which is read as the user's until it expires.
  pub refresh_access-login :
      (username password : Text) (w w' v : AuthWorld R F C) (u : User) (pair : TokenPair) (t : C)
      → login s username password w ≡ (ok (u, pair), w')
      → v.refresh ≡ w'.refresh
      → is_before
          (s.process.now v.process)
          (numeric_date (s.process.now w.process +ℤ s.tokens.refresh_expire))
        ≡ true
      → ((jti : Text) → s.refresh.exists jti v.refresh ≡ ok (s.refresh.is_live v.refresh jti))
      → ((c : Claims) → (raw : Text) × (s.jwt.signed_string c s.tokens.secret ≡ ok raw))
      → is_before
          (s.process.now t)
          (numeric_date (s.process.now v.process +ℤ s.tokens.access_expire))
        ≡ true
      → (access : Text) × (c : Claims) × (refresh_access s pair.refresh_token v ≡ (ok access, v))
        × (parse_access_token s.jwt s.process s.tokens access t ≡ ok c)
        × (c.user_id ≡ u.id)
  unfolding refresh_access refresh_claims generate_access_token sign
  refresh_access-login username password w w' v u pair t h same fresh answers signs before =
      let (_, _, _, i) = login-ok s username password w w' u pair h in
      let (c, read, is_u, is_jti) =
        parse_refresh_token-generate_refresh_token s.jwt s.process s.tokens u.id w.process i.between
          v.process pair.refresh_token i.jti i.refresh_made fresh in
      let live : s.refresh.is_live v.refresh c.id ≡ true = rw (same, is_jti) i.now_live in
      let answer = answers c.id in
      let (access, signed) = signs (
        claims_at s.jwt s.process s.tokens c.user_id type_access [] s.tokens.access_expire
          (s.process.now v.process)) in
      let made : generate_access_token s.jwt s.process s.tokens c.user_id v.process
          ≡ (ok access, v.process) =
        (λ i. (signed i, v.process)) in
      let (d, reads, is_c) =
        parse_access_token-generate_access_token s.jwt s.process s.tokens c.user_id v.process
          v.process t access made before in
      (access, d, ground arith, reads, is_c ∙ is_u)
