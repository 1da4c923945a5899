-- ===== src/Bootstrap.antt =====
-- internal/bootstrap: api.go, which wires the services to the clients, and worker.go.
pub mod Laws
pub mod Opening
use ragkb.Base.{ℕ, ℤ, pos, ◌^◌, ◌*ℤ◌, wrap_64, Bool, true, false, List, [], ◌∷◌, if◌then◌else◌}
use ragkb.Text.{Text, Unicode, ◌==ᵗ◌}
use ragkb.Fault.{not_implemented}
use ragkb.Action.{Action, fail}
use ragkb.Config.{Config, UploadConfig}
use ragkb.Token.{Jwt, Process, new_token_manager}
use ragkb.Infra.Mysql.{Table}
use ragkb.Infra.Mysql.Documents.{documents}
use ragkb.Infra.Mysql.Documents.Laws.{document_repo}
use ragkb.Infra.Mysql.Users.{Database}
use ragkb.Infra.Mysql.Users.Repos.{user_repo, tenant_repo, tenant_repo-account}
use ragkb.Infra.Redis.{Redis, Keys}
use ragkb.Infra.Redis.Progress.Laws.{upload_progress}
use ragkb.Infra.Redis.Refresh.Laws.{refresh_store}
use ragkb.Infra.Minio.{Minio}
use ragkb.Infra.Minio.Laws.{object_store}
use ragkb.Infra.Kafka.{Writer, event_publisher}
use ragkb.Infra.Kafka.Consumer.{KafkaMessage, Calls, run}
use ragkb.Service.Auth.{AuthService, Bcrypt}
use ragkb.Service.Users.{UserService}
use ragkb.Service.Documents.Types.{UploadLimits}
use ragkb.Service.Documents.{DocumentService}
use ragkb.Handler.Auth.{Credentials, Runes, is_register_request, is_login_request, is_token_request}
use ragkb.Handler.Users.{is_update_request}
use ragkb.Handler.Documents.{InitiateUploadRequest, is_initiate_request, is_complete_request}
use ragkb.Handler.Context.{Binding}
use ragkb.Server.{Options}

-- The map that the loop over the extensions fills: one that is not there is false.
unfoldable pub allowed_set : List Text → Text → Bool
allowed_set [] ext = false
allowed_set (e ∷ es) ext = let more = allowed_set es ext in if e ==ᵗ ext then true else more

-- The limit is shifted as an int64.
unfoldable pub upload_limits : UploadConfig → UploadLimits
unfolding allowed_set
upload_limits cfg = record {
  max_file_size = wrap_64 (cfg.max_file_size_mb *ℤ pos (2 ^ 20));
  allowed_exts = allowed_set cfg.allowed_exts;
}

-- The clients that the constructors open, over the states of their servers, and the libraries.
pub record Clients (D R O P K F C : Type 0) : Type 0 where
  pub db : Database R
  pub docs : Table D (documents db.collation)
  pub minio : Minio O
  pub redis : Redis P
  pub keys : Keys F
  pub writer : Writer K
  pub jwt : Jwt
  pub process : Process C
  pub bcrypt : Bcrypt C
  pub unicode : Unicode
  pub runes : Runes
  pub max_bytes_reader : ℕ → Text → Text
  pub bind_register : Binding Credentials (is_register_request runes)
  pub bind_login : Binding Credentials is_login_request
  pub bind_token : Binding Text is_token_request
  pub bind_update : Binding Text is_update_request
  pub bind_initiate : Binding InitiateUploadRequest is_initiate_request
  pub bind_complete : Binding ℤ is_complete_request

-- The server of the configuration.
unfoldable pub new_api :
    {D R O P K F C : Type 0} → Config → Clients D R O P K F C → Options D R O P K F C
unfolding upload_limits
new_api cfg k = record {
  documents = record {
    docs = document_repo k.unicode k.db.collation k.docs;
    tenants = tenant_repo k.db;
    objects = object_store k.minio cfg.minio.bucket;
    progress = upload_progress k.redis;
    producer = event_publisher k.writer;
    limits = upload_limits cfg.upload;
    unicode = k.unicode;
  };
  auth = record {
    users = user_repo k.db;
    tenants = tenant_repo k.db;
    tokens = new_token_manager cfg.jwt.secret cfg.jwt.expire_hours cfg.jwt.refresh_expire_hours;
    refresh = refresh_store k.keys;
    jwt = k.jwt;
    process = k.process;
    bcrypt = k.bcrypt;
    tenants_keep_accounts = tenant_repo-account k.db;
  };
  users = record { users = user_repo k.db; tenants = tenant_repo k.db };
  unicode = k.unicode;
  runes = k.runes;
  max_bytes_reader = k.max_bytes_reader;
  bind_register = k.bind_register;
  bind_login = k.bind_login;
  bind_token = k.bind_token;
  bind_update = k.bind_update;
  bind_initiate = k.bind_initiate;
  bind_complete = k.bind_complete;
}

-- `Handle` of notImplementedHandler, which logs and fails.
abbrev pub not_implemented_handle : {S : Type 0} → KafkaMessage → Action S (Unit {0})
not_implemented_handle msg = fail not_implemented

-- The consumer of the worker: its handler is that one.
unfoldable pub new_worker : {S : Type 0} → Calls S → Calls S
new_worker c = record c { handle = not_implemented_handle }

-- `Run`, for at most so many rounds
unfoldable pub run_worker : {S : Type 0} → Calls S → ℕ → Action S Bool
unfolding new_worker
run_worker c n = run (new_worker c) n
