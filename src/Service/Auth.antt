-- ===== src/Service/Auth.antt =====
-- internal/service/auth/auth.go, and the passwords of internal/domain/user/password.go.
pub mod Ports
pub mod Session
pub mod Renewal
pub mod RoundTrip
pub mod Register
use ragkb.Base.{
  ℕ, ℤ, pos, ◌≡◌, ◌<◌, ◌++◌, [], ◌∷◌, List, none, Bool, false, true, length, if◌then◌else◌,
}
use ragkb.Text.{Text, lit}
use ragkb.Fault.{Error, UserError, user, is_user, other}
use ragkb.Action.{Result, ok, err, panic, Action, attempt, pure, fail, reading, ◌>>=◌, ◌>>◌}
use ragkb.Domain.User.{User, UserRepo, Tenant, TenantRepo, role_user}
use ragkb.Token.{
  Claims, TokenManager, Jwt, Process, generate_access_token, generate_refresh_token,
  parse_refresh_token,
}
use Ports.{RefreshStore}

-- bcrypt.ErrPasswordTooLong
abbrev pub too_long_error : Error
too_long_error = other (lit "bcrypt: password length exceeds 72 bytes")

-- The bcrypt package is not part of the repository. A hash takes its salt from the process.
pub record Bcrypt (C : Type 0) : Type 0 where
  pub generate_from_password : Text → Action C Text
  pub compare_hash_and_password : Text → Text → Result (Unit {0})
  pub generate_ok :
      (plain hash : Text) (s s' : C)
      → generate_from_password plain s ≡ (ok hash, s')
      → compare_hash_and_password hash plain ≡ ok tt
  pub too_long :
      (plain : Text) (s : C)
      → 72 < length plain
      → generate_from_password plain s ≡ (err too_long_error, s)

pub record TokenPair : Type 0 where
  pub access_token : Text
  pub refresh_token : Text

-- The states behind the service: the database, the store of refresh tokens, and the process.
pub record AuthWorld (R F C : Type 0) : Type 0 where
  pub db : R
  pub refresh : F
  pub process : C

-- The repositories stand on one database; the libraries are given beside the service's parts.
pub record AuthService (R F C : Type 0) : Type 0 where
  pub users : UserRepo R
  pub tenants : TenantRepo R
  pub tokens : TokenManager
  pub refresh : RefreshStore F
  pub jwt : Jwt
  pub process : Process C
  pub bcrypt : Bcrypt C
  -- A new tenant changes no account.
  pub tenants_keep_accounts :
      (tenant : Tenant) (is_primary : Bool) (t t' : R) (u : Unit {0})
      → tenants.create_with_membership tenant is_primary t ≡ (ok u, t')
      → (name : Text) → users.account t' name ≡ users.account t name

-- "PRIVATE_" + username
abbrev pub private_tag : Text → Text
private_tag username = lit "PRIVATE_" ++ username

-- fmt.Sprintf("%s 的个人空间", username), in UTF-8
abbrev pub private_name : Text → Text
private_name username =
    username
    ++ 32 ∷ 0xe7 ∷ 0x9a ∷ 0x84 ∷ 0xe4 ∷ 0xb8 ∷ 0xaa ∷ 0xe4 ∷ 0xba ∷ 0xba ∷ 0xe7 ∷ 0xa9 ∷ 0xba ∷ 0xe9
      ∷ 0x97 ∷ 0xb4 ∷ []

module _ {R F C : Type 0} (s : AuthService R F C) where
  abbrev pub Call : Type 0 → Type 0
  Call A = Action (AuthWorld R F C) A

  abbrev pub on_db : {A : Type 0} → Action R A → Call A
  on_db m w = let (r, t) = m w.db in (r, record w { db = t })

  abbrev pub on_refresh : {A : Type 0} → Action F A → Call A
  on_refresh m w = let (r, t) = m w.refresh in (r, record w { refresh = t })

  abbrev pub on_process : {A : Type 0} → Action C A → Call A
  on_process m w = let (r, t) = m w.process in (r, record w { process = t })

  unfoldable pub hash_password : Text → Call Text
  hash_password plain = on_process (s.bcrypt.generate_from_password plain)

  unfoldable pub check_password : Text → Text → Result (Unit {0})
  check_password hash plain = s.bcrypt.compare_hash_and_password hash plain

  abbrev pub new_user : Text → Text → User
  new_user username hash = record {
    id = pos 0;
    username = username;
    password = hash;
    role = role_user;
    primary_tenant = [];
    created_at = 0;
    updated_at = 0;
  }

  abbrev pub private_tenant : User → Text → Tenant
  private_tenant u username = record {
    id = pos 0;
    tag = private_tag username;
    name = private_name username;
    parent_tag = none;
    created_by = u.id;
    created_at = 0;
    updated_at = 0;
    is_primary = false;
  }

  -- A name that is taken is ErrAlreadyExists.
  unfoldable pub create_account : Text → Text → Call User
  create_account username hash =
      attempt (on_db (s.users.create (new_user username hash))) pure
        λ e. if is_user e UserError.conflict then fail (user UserError.already_exists) else fail e

  unfoldable pub add_tenant : Text → User → Call User
  add_tenant username u = do
    on_db (s.tenants.create_with_membership (private_tenant u username) true)
    pure (record u { primary_tenant = private_tag username })

  unfoldable pub register : Text → Text → Call User
  register username password = do
    hash ← hash_password password
    u ← create_account username hash
    add_tenant username u

  unfoldable pub issue_tokens : ℤ → Call TokenPair
  issue_tokens id = do
    access ← on_process (generate_access_token s.jwt s.process s.tokens id)
    (tok, jti) ← on_process (generate_refresh_token s.jwt s.process s.tokens id)
    on_refresh (s.refresh.save jti id s.tokens.refresh_expire)
    pure (record { access_token = access; refresh_token = tok })

  -- Behind the lookup: the password, then the tokens.
  unfoldable pub login_found : Text → User → Call (User × TokenPair)
  login_found password u =
      attempt (λ w. (check_password u.password password, w))
        (λ _. issue_tokens u.id >>= λ pair. pure (u, pair))
        (λ e. fail (user UserError.invalid_credentials))

  unfoldable pub login : Text → Text → Call (User × TokenPair)
  login username password =
      attempt (reading (λ w. s.users.get_by_username username w.db)) (login_found password) λ e.
        if is_user e UserError.not_found then fail (user UserError.invalid_credentials) else fail e

  unfoldable pub refresh_claims : Claims → Call Text
  refresh_claims claims = do
    good ← reading (λ w. s.refresh.exists claims.id w.refresh)
    if good
        then on_process (generate_access_token s.jwt s.process s.tokens claims.user_id)
        else fail (user UserError.invalid_token)

  unfoldable pub refresh_access : Text → Call Text
  refresh_access raw =
      attempt (reading (λ w. parse_refresh_token s.jwt s.process s.tokens raw w.process))
        refresh_claims λ e. fail (user UserError.invalid_token)

  unfoldable pub logout : Text → Call (Unit {0})
  logout raw =
      attempt (reading (λ w. parse_refresh_token s.jwt s.process s.tokens raw w.process))
        (λ claims. on_refresh (s.refresh.revoke claims.id)) λ e. pure tt
