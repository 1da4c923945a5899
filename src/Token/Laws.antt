-- ===== src/Token/Laws.antt =====
-- What a token of internal/pkg/token/token_manager.go is worth.
use ragkb.Base.{ℤ, ◌≡◌, inl, inr, refl, subst, true, ◌+ℤ◌, arith, Bool-cases, []}
use ragkb.Text.{Text, ◌==ᵗ◌, ==ᵗ_iff, ==ᵗ_refl}
use ragkb.Fault.{invalid_token}
use ragkb.Action.{ok, err, Result-cases}
use ragkb.Token.{
  Claims, TokenManager, Method, hmac, another, is_live_at, is_before, Jwt, Process, type_access,
  type_refresh, key_of, numeric_date, claims_at, sign, generate_access_token,
  generate_refresh_token, parse, parse_access_token, parse_refresh_token,
}

module _ {C : Type 0} (jwt : Jwt) (process : Process C) (m : TokenManager) where
  -- The claims that are parsed are the token's, and it is of the wanted type.
  pub parse-ok :
      (raw want : Text) (s : C) (c : Claims)
      → parse jwt process m raw want s ≡ ok c
      → (jwt.parse_with_claims raw (key_of m) (process.now s) ≡ ok c) × (c.typ ≡ want)
  unfolding parse
  parse-ok raw want s c h =
      elim (Result-cases (jwt.parse_with_claims raw (key_of m) (process.now s))) [
        | inl (d, read) ↦ elim (Bool-cases (d.typ ==ᵗ want)) [
          | inl wanted ↦ ground (arith, ==ᵗ_iff d.typ want)
          | inr another_type ↦ absurd (ground arith)
        ]
        | inr (inl (x, failed)) ↦ absurd (ground arith)
        | inr (inr (x, failed)) ↦ absurd (ground arith)
      ]

  key_of-ok :
      (method : Method) (key : Text) → key_of m method ≡ ok key → (method ≡ hmac) × (key ≡ m.secret)
  unfolding key_of
  key_of-ok hmac key h = ground arith
  key_of-ok (another alg) key h = absurd (ground arith)

  -- An access token that is accepted names HMAC as its method and is signed with the secret, it has
  -- not expired, and it is no refresh token.
  pub parse_access_token-ok :
      (raw : Text) (s : C) (c : Claims)
      → parse_access_token jwt process m raw s ≡ ok c
      → (jwt.method raw ≡ hmac)
        × (jwt.is_signed raw m.secret ≡ true)
        × (is_live_at c (process.now s) ≡ true)
        × (c.typ ≡ type_access)
        × (parse_refresh_token jwt process m raw s ≡ err invalid_token)
  unfolding parse_access_token parse_refresh_token parse
  parse_access_token-ok raw s c h =
      let (read, wanted) = parse-ok raw type_access s c h in
      let (key, given, signed, fresh) = jwt.parse_ok raw (key_of m) (process.now s) c read in
      let (is_hmac, is_secret) = key_of-ok (jwt.method raw) key given in
      (
        is_hmac,
        subst (λ k. jwt.is_signed raw k ≡ true) is_secret signed,
        fresh,
        wanted,
        ground (arith, ==ᵗ_iff c.typ type_refresh),
      )

  sign-parse :
      (user : ℤ) (typ jti : Text) (ttl : ℤ) (s s' t : C) (raw : Text)
      → sign jwt process m user typ jti ttl s ≡ (ok raw, s')
      → is_live_at (claims_at jwt process m user typ jti ttl (process.now s)) (process.now t) ≡ true
      → parse jwt process m raw typ t
        ≡ ok (claims_at jwt process m user typ jti ttl (process.now s))
  unfolding sign parse key_of
  sign-parse user typ jti ttl s s' t raw h fresh =
      let c = claims_at jwt process m user typ jti ttl (process.now s) in
      let signed : jwt.signed_string c m.secret ≡ ok raw = ground arith in
      let (_, reads) = jwt.sign_ok c m.secret raw signed in
      let read = reads (key_of m) (process.now t) refl fresh in ground (arith, ==ᵗ_refl typ)

  -- An access token that was made for a user is read, until it expires, as one of that user.
  pub parse_access_token-generate_access_token :
      (user : ℤ) (s s' t : C) (raw : Text)
      → generate_access_token jwt process m user s ≡ (ok raw, s')
      → is_before (process.now t) (numeric_date (process.now s +ℤ m.access_expire)) ≡ true
      → (c : Claims) × (parse_access_token jwt process m raw t ≡ ok c) × (c.user_id ≡ user)
  unfolding generate_access_token parse_access_token claims_at
  parse_access_token-generate_access_token user s s' t raw h fresh = (
    claims_at jwt process m user type_access [] m.access_expire (process.now s),
    sign-parse user type_access [] m.access_expire s s' t raw h fresh,
    refl,
  )

  -- A refresh token likewise, with the identifier that was handed out beside it.
  pub parse_refresh_token-generate_refresh_token :
      (user : ℤ) (s s' t : C) (raw jti : Text)
      → generate_refresh_token jwt process m user s ≡ (ok (raw, jti), s')
      → is_before (process.now t) (numeric_date (process.now s +ℤ m.refresh_expire)) ≡ true
      → (c : Claims) × (parse_refresh_token jwt process m raw t ≡ ok c)
        × (c.user_id ≡ user)
        × (c.id ≡ jti)
  unfolding generate_refresh_token parse_refresh_token claims_at sign
  parse_refresh_token-generate_refresh_token user s s' t raw jti h fresh =
      elim (Result-cases (process.new_string s).0) [
        | inl (j, made) ↦
            let s₁ = (process.new_string s).1 in
            let c = claims_at jwt process m user type_refresh j m.refresh_expire (process.now s₁) in
            elim (Result-cases (jwt.signed_string c m.secret)) [
              | inl (tok, signed) ↦
                  let is_tok : tok ≡ raw = ground arith in
                  let is_jti : j ≡ jti = ground arith in
                  let fresh₁ : is_before (process.now t)
                        (numeric_date (process.now s₁ +ℤ m.refresh_expire))
                      ≡ true =
                    rw (process.new_string_now s) fresh in
                  let read =
                    sign-parse user type_refresh j m.refresh_expire s₁ s₁ t tok
                      (λ i. (signed i, s₁)) fresh₁ in
                  (c, rw (← is_tok) read, refl, is_jti)
              | inr (inl (x, failed)) ↦ absurd (ground arith)
              | inr (inr (x, failed)) ↦ absurd (ground arith)
            ]
        | inr (inl (x, failed)) ↦ absurd (ground arith)
        | inr (inr (x, failed)) ↦ absurd (ground arith)
      ]
