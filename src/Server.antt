-- ===== src/Server.antt =====
-- internal/server: the middleware of auth_middleware.go and the routes of router.go, for a server on
-- which all three handlers are given.
pub mod Laws
pub mod AccessLog
pub mod Routes
use ragkb.Base.{
  ℕ, ℤ, Bool, true, false, not, ◌||◌, Option, none, some, [], leb, length, take, drop, map,
  if◌then◌else◌,
}
use ragkb.Text.{Text, Unicode, lit, ◌==ᵗ◌, lower_byte, trim_space}
use ragkb.Action.{Result, ok, err, panic}
use ragkb.Token.{Claims, parse_access_token}
use ragkb.Service.Documents.{DocumentService, World}
use ragkb.Service.Auth.{AuthService, AuthWorld}
use ragkb.Service.Users.{UserService}
use ragkb.Handler.{Response, error, code_unauthorized}
use ragkb.Handler.Context.{
  Context, ContextValue, Handler, Reply, reply, crash, Binding, answer, context_user_id,
}
use ragkb.Handler.Documents
use ragkb.Handler.Documents.{InitiateUploadRequest, is_initiate_request, is_complete_request}
use ragkb.Handler.Auth
use ragkb.Handler.Auth.{Credentials, Runes, is_register_request, is_login_request, is_token_request}
use ragkb.Handler.Users
use ragkb.Handler.Users.{is_update_request}

abbrev pub prefix : Text
prefix = lit "Bearer "

-- `strings.EqualFold` with that prefix: no letter of it has another case than the ASCII one.
abbrev pub equal_fold : Text → Text → Bool
equal_fold s t = map lower_byte s ==ᵗ map lower_byte t

unfoldable pub bearer_token : Unicode → Text → Option Text
bearer_token u header =
    if leb (length header) (length prefix) || not (equal_fold (take (length prefix) header) prefix)
    then none
    else let tok = trim_space u (drop (length prefix) header) in
      if tok ==ᵗ [] then none else some tok

-- `c.Set(shared.ContextUserID, claims.UserID)`
unfoldable pub set_user : ℤ → Context → Context
set_user uid c = record c {
  values = λ key. if key ==ᵗ context_user_id then some (ContextValue.int64 uid) else c.values key;
}

-- The states of the process and of the servers behind it. Users and tenants are in one database.
pub record ServerWorld (D R O P K F C : Type 0) : Type 0 where
  pub docs : D
  pub db : R
  pub objects : O
  pub progress : P
  pub producer : K
  pub refresh : F
  pub process : C

-- The services behind the handlers, and the calls of gin and net/http.
pub record Options (D R O P K F C : Type 0) : Type 0 where
  pub documents : DocumentService D R O P K
  pub auth : AuthService R F C
  pub users : UserService R
  pub unicode : Unicode
  pub runes : Runes
  pub max_bytes_reader : ℕ → Text → Text
  pub bind_register : Binding Credentials (is_register_request runes)
  pub bind_login : Binding Credentials is_login_request
  pub bind_token : Binding Text is_token_request
  pub bind_update : Binding Text is_update_request
  pub bind_initiate : Binding InitiateUploadRequest is_initiate_request
  pub bind_complete : Binding ℤ is_complete_request

-- The routes under /api/v1, those of the group /auth first.
pub data Endpoint : Type 0 where
  register login refresh logout : Endpoint
  me update_me my_tenants : Endpoint
  initiate upload complete list get delete : Endpoint

-- The routes that are registered before the group with the middleware.
unfoldable pub is_open : Endpoint → Bool
is_open register = true
is_open login = true
is_open refresh = true
is_open logout = true
is_open _ = false

-- The status of what gin sends: its recovery handler answers a panic by 500.
unfoldable pub status : Reply → ℕ
status (reply r) = r.status
status (crash p) = 500

module _ {D R O P K F C : Type 0} (o : Options D R O P K F C) where
  abbrev pub Served : Type 0
  Served = Handler (ServerWorld D R O P K F C)

  abbrev pub document_world : ServerWorld D R O P K F C → World D R O P K
  document_world w = record {
    docs = w.docs;
    tenants = w.db;
    objects = w.objects;
    progress = w.progress;
    producer = w.producer;
  }

  -- A handler on its part of the world.
  abbrev pub on_documents : Handler (World D R O P K) → Served
  on_documents h w =
      let (r, v) = h (document_world w) in
      (
        r,
        record w {
          docs = v.docs;
          db = v.tenants;
          objects = v.objects;
          progress = v.progress;
          producer = v.producer;
        },
      )

  abbrev pub auth_world : ServerWorld D R O P K F C → AuthWorld R F C
  auth_world w = record { db = w.db; refresh = w.refresh; process = w.process }

  abbrev pub on_auth : Handler (AuthWorld R F C) → Served
  on_auth h w =
      let (r, v) = h (auth_world w) in
      (r, record w { db = v.db; refresh = v.refresh; process = v.process })

  abbrev pub on_users : Handler R → Served
  on_users h w = let (r, v) = h w.db in (r, record w { db = v })

  -- The handler that a route names.
  unfoldable pub endpoint : Endpoint → Context → Served
  endpoint register c = on_auth (Auth.register o.auth o.runes o.bind_register c)
  endpoint login c = on_auth (Auth.login o.auth o.bind_login c)
  endpoint refresh c = on_auth (Auth.refresh o.auth o.bind_token c)
  endpoint logout c = on_auth (Auth.logout o.auth o.bind_token c)
  endpoint me c = on_users (Users.me o.users c)
  endpoint update_me c = on_users (Users.update_me o.users o.bind_update c)
  endpoint my_tenants c = on_users (Users.my_tenants o.users c)
  endpoint initiate c = on_documents (Documents.initiate o.documents o.bind_initiate c)
  endpoint upload c = on_documents (Documents.upload o.documents o.max_bytes_reader c)
  endpoint complete c = on_documents (Documents.complete o.documents o.bind_complete c)
  endpoint list c = on_documents (Documents.list o.documents c)
  endpoint get c = on_documents (Documents.get o.documents c)
  endpoint delete c = on_documents (Documents.delete o.documents c)

  -- Behind the parsing of the token
  abbrev pub with_claims : Result Claims → Context → (Context → Served) → Served
  with_claims (ok claims) c next = next (set_user claims.user_id c)
  with_claims (err e) c next = answer (error code_unauthorized (lit "invalid or expired token"))
  with_claims (panic p) c next = λ w. (crash p, w)

  abbrev pub with_bearer : Option Text → Context → (Context → Served) → Served
  with_bearer none c next =
      answer (error code_unauthorized (lit "missing or malformed Authorization header"))
  with_bearer (some raw) c next = λ w.
      with_claims (parse_access_token o.auth.jwt o.auth.process o.auth.tokens raw w.process) c next
        w

  unfoldable pub jwt_auth : (Context → Served) → Context → Served
  unfolding bearer_token set_user
  jwt_auth next c = with_bearer (bearer_token o.unicode (c.header (lit "Authorization"))) c next

  -- A request to a route.
  unfoldable pub serve : Endpoint → Context → Served
  unfolding jwt_auth is_open endpoint
  serve e c = if is_open e then endpoint e c else jwt_auth (endpoint e) c
