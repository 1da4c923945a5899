-- ===== src/Token.antt =====
-- internal/pkg/token/token_manager.go: access and refresh tokens as signed JWTs.
pub mod Laws
use ragkb.Base.{
  ℕ, ℤ, pos, negsuc, ◌*◌, ◌/◌, ◌^◌, ◌≡◌, Bool, true, false, Option, some, none, [], ◌++◌, ◌*ℤ◌,
  ◌+ℤ◌, ltb_ℤ, wrap_64, if◌then◌else◌,
}
use ragkb.Text.{Text, lit, ◌==ᵗ◌}
use ragkb.Fault.{Error, invalid_token, other}
use ragkb.Action.{Result, ok, err, panic, Action, ◌>>=◌, pure}

abbrev pub type_access : Text
type_access = lit "access"

abbrev pub type_refresh : Text
type_refresh = lit "refresh"

-- The payload; points in time are Unix seconds.
pub record Claims : Type 0 where
  pub user_id : ℤ
  pub typ : Text
  pub id : Text
  pub issued_at : Option ℤ
  pub expires_at : Option ℤ

-- Durations are in nanoseconds, as Go's int64.
pub record TokenManager : Type 0 where
  pub secret : Text
  pub access_expire : ℤ
  pub refresh_expire : ℤ

-- The signing method that a token's header names.
pub data Method : Type 0 where
  hmac : Method
  another : Text → Method

-- Whether the clock, in nanoseconds, is before a claim's second.
abbrev pub is_before : ℤ → ℤ → Bool
is_before now second = ltb_ℤ now (second *ℤ pos (10 ^ 9))

-- A token without an expiry does not expire.
abbrev pub is_live_at : Claims → ℤ → Bool
is_live_at c now = elim c.expires_at [ none ↦ true | some t ↦ is_before now t ]

-- golang-jwt is not part of the repository: its calls are parameters.
pub record Jwt : Type 0 where
  pub method : Text → Method
  -- The signature of the token fits the key.
  pub is_signed : Text → Text → Bool
  -- NewWithClaims(HS256, claims).SignedString(key)
  pub signed_string : Claims → Text → Result Text
  -- ParseWithClaims(raw, claims, key function), at a time
  pub parse_with_claims : Text → (Method → Result Text) → ℤ → Result Claims
  pub parse_ok :
      (raw : Text) (key_of : Method → Result Text) (now : ℤ) (c : Claims)
      → parse_with_claims raw key_of now ≡ ok c
      → (key : Text) × (key_of (method raw) ≡ ok key)
        × (is_signed raw key ≡ true)
        × (is_live_at c now ≡ true)
  -- The claims stand in the token itself.
  pub parse_same :
      (raw : Text) (key_of key_of' : Method → Result Text) (now now' : ℤ) (c c' : Claims)
      → parse_with_claims raw key_of now ≡ ok c
      → parse_with_claims raw key_of' now' ≡ ok c'
      → c ≡ c'
  pub sign_ok :
      (c : Claims) (key raw : Text)
      → signed_string c key ≡ ok raw
      → (method raw ≡ hmac)
        × ((key_of : Method → Result Text) (now : ℤ)
            → key_of hmac ≡ ok key
            → is_live_at c now ≡ true
            → parse_with_claims raw key_of now ≡ ok c)

-- What the program reads of its surroundings, over the states `C` of the process: the clock in
-- nanoseconds since 1970, and random UUIDs.
pub record Process (C : Type 0) : Type 0 where
  pub now : C → ℤ
  pub new_string : Action C Text
  -- One call is short: the clock is not seen to move in it.
  pub new_string_now : (s : C) → now (new_string s).1 ≡ now s

-- `time.Duration(hours) * time.Hour`
unfoldable pub hours : ℤ → ℤ
hours n = wrap_64 (n *ℤ pos (3600 * 10 ^ 9))

-- From the secret and the two numbers of hours of config.JWTConfig.
unfoldable pub new_token_manager : Text → ℤ → ℤ → TokenManager
unfolding hours
new_token_manager secret expire_hours refresh_expire_hours = record {
  secret = secret;
  access_expire = hours expire_hours;
  refresh_expire = hours refresh_expire_hours;
}

-- gjwt.NewNumericDate: the whole second at or before a point in time.
unfoldable pub numeric_date : ℤ → ℤ
numeric_date (pos n) = pos (n / 10 ^ 9)
numeric_date (negsuc n) = negsuc (n / 10 ^ 9)

-- The key function of `parse`: no other method than HMAC gets the secret.
unfoldable pub key_of : TokenManager → Method → Result Text
key_of m hmac = ok m.secret
key_of m (another alg) = err (other (lit "unexpected signing method: " ++ alg))

module _ {C : Type 0} (jwt : Jwt) (process : Process C) (m : TokenManager) where
  unfoldable pub claims_at : ℤ → Text → Text → ℤ → ℤ → Claims
  unfolding numeric_date
  claims_at user typ jti ttl now = record {
    user_id = user;
    typ = typ;
    id = jti;
    issued_at = some (numeric_date now);
    expires_at = some (numeric_date (now +ℤ ttl));
  }

  unfoldable pub sign : ℤ → Text → Text → ℤ → Action C Text
  unfolding claims_at
  sign user typ jti ttl s =
      (jwt.signed_string (claims_at user typ jti ttl (process.now s)) m.secret, s)

  unfoldable pub generate_access_token : ℤ → Action C Text
  unfolding sign
  generate_access_token user = sign user type_access [] m.access_expire

  -- The token and its identifier.
  unfoldable pub generate_refresh_token : ℤ → Action C (Text × Text)
  unfolding sign
  generate_refresh_token user = do
    jti ← process.new_string
    tok ← sign user type_refresh jti m.refresh_expire
    pure (tok, jti)

  unfoldable pub parse : Text → Text → C → Result Claims
  unfolding key_of
  parse raw want_type s = elim (jwt.parse_with_claims raw (key_of m) (process.now s)) [
    | ok claims ↦ if claims.typ ==ᵗ want_type then ok claims else err invalid_token
    | err e ↦ err invalid_token
    | panic p ↦ panic p
  ]

  unfoldable pub parse_access_token : Text → C → Result Claims
  unfolding parse
  parse_access_token raw = parse raw type_access

  unfoldable pub parse_refresh_token : Text → C → Result Claims
  unfolding parse
  parse_refresh_token raw = parse raw type_refresh
