-- ===== src/Memory/Auth.antt =====
-- The auth service in memory: a registration, a login, a refresh and a logout.
use ragkb.Base.{
  pos, ◌*◌, ◌^◌, ◌*ℤ◌, ◌+ℤ◌, wrap_64, ◌^◌, ◌≡◌, ◌≢◌, refl, true, false, [], arith, Bool-cases, inl,
  inr, none,
}
use ragkb.Text.{Text, lit, ◌==ᵗ◌}
use ragkb.Fault.{UserError, user, is_user, is_record_not_found, other, invalid_token}
use ragkb.Action.{Result, ok, err, panic}
use ragkb.Domain.User.{User, role_user}
use ragkb.Token.{
  type_access, hmac, is_live_at, Claims, new_token_manager, hours, generate_access_token,
  generate_refresh_token, sign, parse, parse_access_token, parse_refresh_token, key_of, claims_at,
  numeric_date,
}
use ragkb.Infra.Redis.Refresh.{refresh_key, save, exists, revoke}
use ragkb.Infra.Redis.Refresh.Laws.{refresh_store}
use ragkb.Infra.Mysql.Users.{
  create_with_membership, create_user, get_by_username, get_user, or_no_user, fill_primary_tenant,
}
use ragkb.Infra.Mysql.Users.Accounts.{create_with_membership-account}
use ragkb.Service.Auth.{
  AuthService, AuthWorld, TokenPair, register, login, login_found, refresh_access, refresh_claims,
  logout, hash_password, check_password, create_account, add_tenant, issue_tokens, private_tag,
}
use ragkb.Service.Auth.Register.{register-ok, register-half}
use ragkb.Service.Auth.Session.{Issues, Refuses, login-ok, login-refused}
use ragkb.Service.Auth.Renewal.{refresh_access-logout, refresh_access-login}
use ragkb.Token.Laws.{parse_access_token-ok}
use ragkb.Memory.Users.{Db, db, accounts, no_one}
use ragkb.Memory.Jwt.{jwt, process, bcrypt, keys, Clock, KeySet, encode}

abbrev pub Auth : Type 0
Auth = AuthWorld Db KeySet Clock

unfoldable pub auth : AuthService Db KeySet Clock
unfolding accounts jwt process bcrypt keys refresh_store new_token_manager
auth = record {
  users = accounts.users;
  tenants = accounts.tenants;
  tokens = new_token_manager (lit "secret") (pos 2) (pos 168);
  refresh = refresh_store keys;
  jwt = jwt;
  process = process;
  bcrypt = bcrypt;
  tenants_keep_accounts = create_with_membership-account db;
}

abbrev pub fresh : Auth
fresh = record {
  db = no_one;
  refresh = λ k. false;
  process = record { time = pos (1000 * 10 ^ 9); drawn = 7 };
}

unfoldable pub registered : Auth
unfolding register auth hash_password create_account add_tenant create_user db
    create_with_membership is_user ◌==ᵗ◌ check_password
registered = (register auth (lit "ann") (lit "secret1") fresh).1

unfoldable pub ann : User
unfolding registered
ann = record {
  id = pos 1;
  username = lit "ann";
  password = lit "secret1";
  role = role_user;
  primary_tenant = lit "PRIVATE_ann";
  created_at = 7;
  updated_at = 7;
}

register-test : (register auth (lit "ann") (lit "secret1") fresh).0 ≡ ok ann
unfolding registered ann
register-test = refl

register-ok_example :
    (auth.users.has_name no_one (lit "ann") ≡ false)
    × (ann.username ≡ lit "ann")
    × (ann.role ≡ role_user)
    × (check_password auth ann.password (lit "secret1") ≡ ok tt)
    × (ann.primary_tenant ≡ private_tag (lit "ann"))
    × (auth.tenants.is_default registered.db ann.id (lit "team")
        ≡ auth.tenants.collation.same (private_tag (lit "ann")) (lit "team"))
    × (registered.refresh ≡ fresh.refresh)
unfolding registered ann
register-ok_example =
    register-ok auth (lit "ann") (lit "secret1") (lit "team") fresh registered ann refl

-- With a database whose tenants cannot be written.
no_tenants : AuthService Db KeySet Clock
unfolding auth
no_tenants = record {
  users = auth.users;
  tenants = record {
    collation = auth.tenants.collation;
    is_in = auth.tenants.is_in;
    is_default = auth.tenants.is_default;
    create_with_membership = λ tenant primary s. (err (other (lit "connection lost")), s);
    set_primary = auth.tenants.set_primary;
    list_by_user = auth.tenants.list_by_user;
    get_primary_tag = auth.tenants.get_primary_tag;
    is_member = auth.tenants.is_member;
    is_member_ok = auth.tenants.is_member_ok;
    get_primary_tag_ok = auth.tenants.get_primary_tag_ok;
    default_is_in = auth.tenants.default_is_in;
    create_default_ok = λ tenant s s' u h tag. absurd (ground arith);
    set_primary_ok = auth.tenants.set_primary_ok;
  };
  tokens = auth.tokens;
  refresh = auth.refresh;
  jwt = auth.jwt;
  process = auth.process;
  bcrypt = auth.bcrypt;
  tenants_keep_accounts = λ tenant primary t t' u h name. absurd (ground arith);
}

half : Auth
unfolding register no_tenants auth hash_password create_account add_tenant create_user db is_user
    ◌==ᵗ◌
half = (register no_tenants (lit "ann") (lit "secret1") fresh).1

nobody : User
nobody = record {
  id = pos 1;
  username = lit "ann";
  password = lit "secret1";
  role = role_user;
  primary_tenant = [];
  created_at = 7;
  updated_at = 7;
}

-- Another user has registered since.
unfoldable after_half : Auth
unfolding half create_with_membership
after_half = (register auth (lit "bob") (lit "secret3") half).1

register-half_example :
    (register no_tenants (lit "ann") (lit "secret1") fresh
      ≡ (err (other (lit "connection lost")), half))
    × (register no_tenants (lit "ann") (lit "secret2") after_half ≢ (ok nobody, half))
unfolding after_half nobody
register-half_example =
    register-half no_tenants (lit "ann") (lit "secret1") (lit "secret2") (lit "secret1")
      (other (lit "connection lost")) nobody nobody fresh fresh half half after_half half refl refl
      refl refl

unfoldable pub logged : Auth
unfolding registered login login_found issue_tokens get_by_username get_user or_no_user
    fill_primary_tenant generate_access_token generate_refresh_token sign claims_at numeric_date
    hours save refresh_key is_record_not_found
logged = (login auth (lit "ann") (lit "secret1") registered).1

abbrev pair_of : Result (User × TokenPair) → TokenPair
pair_of (ok (u, p)) = p
pair_of (err e) = record { access_token = []; refresh_token = [] }
pair_of (panic p) = record { access_token = []; refresh_token = [] }

unfoldable pub pair : TokenPair
unfolding logged
pair = pair_of (login auth (lit "ann") (lit "secret1") registered).0

-- The name is sent in other letters.
login-ok_example :
    (auth.users.collation.same ann.username (lit "ANN") ≡ true)
    × (auth.users.get_by_username (lit "ANN") registered.db ≡ ok ann)
    × (check_password auth ann.password (lit "secret1") ≡ ok tt)
    × Issues auth ann.id pair registered logged
unfolding pair ann
login-ok_example = login-ok auth (lit "ANN") (lit "secret1") registered logged ann pair refl

login-refused_example :
    login auth (lit "ann") (lit "guess") registered
    ≡ (err (user UserError.invalid_credentials), registered)
unfolding logged ann
login-refused_example =
    login-refused auth (lit "ann") (lit "guess") registered
      (Refuses.wrong_password ann (other (lit "mismatch")) refl refl)

-- One hour later.
abbrev later : Auth → Auth
later w = record w { process = record { time = pos (4600 * 10 ^ 9); drawn = 9 } }

abbrev text_of : Result Text → Text
text_of (ok t) = t
text_of (err e) = []
text_of (panic p) = []

unfoldable renewed : Text
unfolding logged pair refresh_access refresh_claims parse_refresh_token parse key_of exists
renewed = text_of (refresh_access auth pair.refresh_token (later logged)).0

claims_of : Result Claims → Claims
claims_of (ok c) = c
claims_of _ = record { user_id = pos 0; typ = []; id = []; issued_at = none; expires_at = none }

unfoldable refresh_claims_of_ann : Claims
unfolding renewed claims_of
refresh_claims_of_ann =
    claims_of (parse_refresh_token jwt process auth.tokens pair.refresh_token logged.process)

unfoldable out : Auth
unfolding renewed logout revoke
out = (logout auth pair.refresh_token logged).1

refresh_access-logout_example :
    refresh_access auth pair.refresh_token (later out) ≢ (ok renewed, later out)
unfolding out refresh_claims_of_ann ◌*ℤ◌ ◌+ℤ◌ wrap_64
refresh_access-logout_example =
    refresh_access-logout auth pair.refresh_token renewed refresh_claims_of_ann logged out
      (later out) (later out) tt refl refl refl

answers :
    (jti : Text)
    → auth.refresh.exists jti logged.refresh ≡ ok (auth.refresh.is_live logged.refresh jti)
unfolding logged exists
answers jti = elim (Bool-cases (logged.refresh (refresh_key jti))) [
  | inl there ↦ rw there
  | inr gone ↦ rw gone
]

signs : (c : Claims) → (raw : Text) × (auth.jwt.signed_string c auth.tokens.secret ≡ ok raw)
unfolding auth
signs c = (encode c (lit "secret"), refl)

refresh_access-login_example :
    (access : Text) × (c : Claims) × (refresh_access auth pair.refresh_token (later logged)
      ≡ (ok access, later logged))
    × (parse_access_token auth.jwt auth.process auth.tokens access (later logged).process ≡ ok c)
    × (c.user_id ≡ pos 1)
unfolding renewed ann ◌*ℤ◌ ◌+ℤ◌ wrap_64
refresh_access-login_example =
    refresh_access-login auth (lit "ann") (lit "secret1") registered logged (later logged) ann pair
      (later logged).process refl refl refl answers signs refl

access_claims_of_ann : Claims
unfolding renewed claims_of parse_access_token
access_claims_of_ann =
    claims_of (parse_access_token jwt process auth.tokens pair.access_token logged.process)

parse_access_token-ok_example :
    (jwt.method pair.access_token ≡ hmac)
    × (jwt.is_signed pair.access_token (lit "secret") ≡ true)
    × (is_live_at access_claims_of_ann (process.now logged.process) ≡ true)
    × (access_claims_of_ann.typ ≡ type_access)
    × (parse_refresh_token jwt process auth.tokens pair.access_token logged.process
        ≡ err invalid_token)
unfolding access_claims_of_ann ◌*ℤ◌ ◌+ℤ◌ wrap_64
parse_access_token-ok_example =
    parse_access_token-ok jwt process auth.tokens pair.access_token logged.process
      access_claims_of_ann refl
