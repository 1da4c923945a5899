-- ===== src/Memory/Jwt.antt =====
-- Tokens, random identifiers, password hashes and Redis keys in memory. A token is its claims and
-- its key, written one behind the other.
use ragkb.Base.{
  ℕ, ℤ, zero, suc, pos, negsuc, ◌≡◌, refl, sym, ap, ◌∙◌, Bool, true, false, ◌&&◌, Option, some,
  none, [], ◌∷◌, ◌++◌, length, take, drop, ltb, arith, inl, inr, Bool-cases, if◌then◌else◌,
}
use ragkb.Text.{Text, lit, ◌==ᵗ◌, ==ᵗ_refl, ==ᵗ_iff}
use ragkb.Fault.{other}
use ragkb.Action.{Result, ok, err, panic}
use ragkb.Token.{Claims, Jwt, Process, Method, hmac, is_live_at}
use ragkb.Infra.Redis.{Keys}
use ragkb.Service.Auth.{Bcrypt, too_long_error}

take-append : (xs ys : Text) → take (length xs) (xs ++ ys) ≡ xs
take-append [] ys = refl
take-append (x ∷ xs) ys = ap (λ zs. x ∷ zs) (take-append xs ys)

drop-append : (xs ys : Text) → drop (length xs) (xs ++ ys) ≡ ys
drop-append [] ys = refl
drop-append (x ∷ xs) ys = drop-append xs ys

abbrev tag_of : ℤ → ℕ
tag_of (pos n) = 0
tag_of (negsuc n) = 1

abbrev number_of : ℤ → ℕ
number_of (pos n) = n
number_of (negsuc n) = n

abbrev integer : ℕ → ℕ → ℤ
integer zero n = pos n
integer (suc t) n = negsuc n

integer-of : (z : ℤ) → integer (tag_of z) (number_of z) ≡ z
integer-of (pos n) = refl
integer-of (negsuc n) = refl

abbrev time_tag : Option ℤ → ℕ
time_tag none = 0
time_tag (some z) = suc (tag_of z)

abbrev time_number : Option ℤ → ℕ
time_number none = 0
time_number (some z) = number_of z

abbrev time : ℕ → ℕ → Option ℤ
time zero n = none
time (suc t) n = some (integer t n)

time-of : (o : Option ℤ) → time (time_tag o) (time_number o) ≡ o
time-of none = refl
time-of (some z) = ap some (integer-of z)

unfoldable pub encode : Claims → Text → Text
encode c key =
    tag_of c.user_id
    ∷ number_of c.user_id
    ∷ time_tag c.issued_at
    ∷ time_number c.issued_at
    ∷ time_tag c.expires_at
    ∷ time_number c.expires_at
    ∷ length c.typ
    ∷ length c.id
    ∷ (c.typ ++ (c.id ++ key))

unfoldable pub decode : Text → Option (Claims × Text)
decode (a ∷ b ∷ c ∷ d ∷ e ∷ f ∷ m ∷ n ∷ rest) = some (
  record {
    user_id = integer a b;
    typ = take m rest;
    id = take n (drop m rest);
    issued_at = time c d;
    expires_at = time e f;
  },
  drop n (drop m rest),
)
decode _ = none

pub decode-encode : (c : Claims) (key : Text) → decode (encode c key) ≡ some (c, key)
unfolding encode decode
decode-encode c key = rw (
  drop-append c.typ (c.id ++ key),
  drop-append c.id key,
  take-append c.typ (c.id ++ key),
  take-append c.id key,
  integer-of c.user_id,
  time-of c.issued_at,
  time-of c.expires_at,
)

unfoldable pub check_token : Option (Claims × Text) → Result Text → ℤ → Result Claims
check_token none key now = err (other (lit "token is malformed"))
check_token (some (c, signed)) (ok key) now =
    if key ==ᵗ signed && is_live_at c now
    then ok c
    else err (other (lit "token signature is invalid"))
check_token (some (c, signed)) (err e) now = err e
check_token (some (c, signed)) (panic p) now = panic p

unfoldable pub is_signed_by : Option (Claims × Text) → Text → Bool
is_signed_by none key = false
is_signed_by (some (c, signed)) key = key ==ᵗ signed

pub check_token-ok :
    (t : Option (Claims × Text)) (given : Result Text) (now : ℤ) (c : Claims)
    → check_token t given now ≡ ok c
    → (key : Text) × (given ≡ ok key)
      × (is_signed_by t key ≡ true)
      × (is_live_at c now ≡ true)
      × (t ≡ some (c, key))
unfolding check_token is_signed_by
check_token-ok none given now c h = absurd (ground arith)
check_token-ok (some (d, signed)) (err e) now c h = absurd (ground arith)
check_token-ok (some (d, signed)) (panic p) now c h = absurd (ground arith)
check_token-ok (some (d, signed)) (ok key) now c h = elim (Bool-cases (key ==ᵗ signed)) [
  | inl fits ↦ elim (Bool-cases (is_live_at d now)) [
    | inl fresh ↦
        let same : d ≡ c = ground arith in
        let is_key = (==ᵗ_iff key signed).0 fits in
        (key, refl, fits, rw (← same) fresh, λ i. some (same i, sym is_key i))
    | inr old ↦ absurd (ground arith)
  ]
  | inr foreign ↦ absurd (ground arith)
]

jwt_same :
    (raw : Text) (key_of key_of' : Method → Result Text) (now now' : ℤ) (c c' : Claims)
    → check_token (decode raw) (key_of hmac) now ≡ ok c
    → check_token (decode raw) (key_of' hmac) now' ≡ ok c'
    → c ≡ c'
jwt_same raw key_of key_of' now now' c c' h h' =
    let (key, _, _, _, e) = check_token-ok (decode raw) (key_of hmac) now c h in
    let (key', _, _, _, e') = check_token-ok (decode raw) (key_of' hmac) now' c' h' in
    let both : ◌≡◌ {A = Option (Claims × Text)} (some (c, key)) (some (c', key')) = sym e ∙ e' in
    ground arith

jwt_ok :
    (raw : Text) (key_of : Method → Result Text) (now : ℤ) (c : Claims)
    → check_token (decode raw) (key_of hmac) now ≡ ok c
    → (key : Text) × (key_of hmac ≡ ok key)
      × (is_signed_by (decode raw) key ≡ true)
      × (is_live_at c now ≡ true)
jwt_ok raw key_of now c h =
    let (key, given, fits, fresh, _) = check_token-ok (decode raw) (key_of hmac) now c h in
    (key, given, fits, fresh)

sign_reads :
    (c : Claims) (key raw : Text) (key_of : Method → Result Text) (now : ℤ)
    → ok (encode c key) ≡ ok raw
    → key_of hmac ≡ ok key
    → is_live_at c now ≡ true
    → check_token (decode raw) (key_of hmac) now ≡ ok c
unfolding check_token
sign_reads c key raw key_of now made given fresh =
    let same : encode c key ≡ raw = ground arith in
    rw (← same, decode-encode c key, given, ==ᵗ_refl key, fresh)

unfoldable pub jwt : Jwt
unfolding encode decode check_token is_signed_by jwt_ok jwt_same sign_reads
jwt = record {
  method = λ raw. hmac;
  is_signed = λ raw. is_signed_by (decode raw);
  signed_string = λ c key. ok (encode c key);
  parse_with_claims = λ raw key_of now. check_token (decode raw) (key_of hmac) now;
  parse_ok = jwt_ok;
  parse_same = jwt_same;
  sign_ok = λ c key raw h. (refl, λ key_of now. sign_reads c key raw key_of now h);
}

-- The clock in nanoseconds, and how many identifiers were drawn.
pub record Clock : Type 0 where
  pub time : ℤ
  pub drawn : ℕ

unfoldable pub process : Process Clock
process = record {
  now = λ s. s.time;
  new_string = λ s. (ok (s.drawn ∷ []), record s { drawn = suc s.drawn });
  new_string_now = λ s. refl;
}

bcrypt_ok :
    (plain hash : Text) (s s' : Clock)
    → ◌≡◌ {A = Result Text × Clock}
        (if ltb 72 (length plain) then (err too_long_error, s) else (ok plain, s))
        (ok hash, s')
    → ◌≡◌ {A = Result (Unit {0})}
        (if hash ==ᵗ plain then ok tt else err (other (lit "mismatch")))
        (ok tt)
bcrypt_ok plain hash s s' h = ground (arith, ==ᵗ_iff hash plain)

-- A hash is the password itself.
unfoldable pub bcrypt : Bcrypt Clock
unfolding bcrypt_ok
bcrypt = record {
  generate_from_password =
      λ plain s. if ltb 72 (length plain) then (err too_long_error, s) else (ok plain, s);
  compare_hash_and_password =
      λ hash plain. if hash ==ᵗ plain then ok tt else err (other (lit "mismatch"));
  generate_ok = bcrypt_ok;
  too_long = λ plain s long. ground arith;
}

abbrev pub KeySet : Type 0
KeySet = Text → Bool

unfoldable pub keys : Keys KeySet
keys = record {
  has_key = λ s. s;
  set = λ key v ttl s. (ok tt, λ k. if key ==ᵗ k then true else s k);
  exists = λ key s. ok (if s key then pos 1 else pos 0);
  del = λ key s. (ok tt, λ k. if key ==ᵗ k then false else s k);
  set_ok = λ key v ttl s s' u h k. ground arith;
  exists_ok = λ key s n h. ground arith;
  del_ok = λ key s s' u h k. ground arith;
}
