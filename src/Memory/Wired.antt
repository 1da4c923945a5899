-- ===== src/Memory/Wired.antt =====
-- The server as it is wired to the servers in memory, by a configuration without extensions.
use ragkb.Base.{pos, ◌≡◌, ◌⊎◌, refl, false, [], List, take}
use ragkb.Text.{lit}
use ragkb.Text.Number.{parse_int}
use ragkb.Fault.{DocumentError, document}
use ragkb.Action.{err}
use ragkb.Config.{Config}
use ragkb.Domain.Document.{Document}
use ragkb.Handler.Auth.{is_register_request, is_login_request, is_token_request}
use ragkb.Handler.Users.{is_update_request}
use ragkb.Handler.Documents.{is_initiate_request, is_complete_request}
use ragkb.Service.Documents.{World, initiate_upload}
use ragkb.Bootstrap.{Clients, new_api}
use ragkb.Bootstrap.Laws.{initiate_upload-no_exts}
use ragkb.Memory.Table.{table, same_letters}
use ragkb.Memory.Servers.{Objects, Bits, Topic, minio, redis, writer, ascii, empty}
use ragkb.Memory.Users.{Db, db, no_one}
use ragkb.Memory.Jwt.{jwt, process, bcrypt, keys, Clock, KeySet}
use ragkb.Memory.Requests.{binding, credentials, runes, upload_request}
use ragkb.Memory.Tests.{params}

config : Config
config = record {
  http = record { addr = lit ":8080" };
  mysql = record { dsn = lit "ragkb" };
  redis = record { addr = lit "redis:6379"; password = []; db = pos 0 };
  es = record { url = []; index_name = [] };
  qdrant = record { host = []; port = pos 6334; collection = [] };
  minio = record {
    endpoint = lit "minio:9000";
    access_key = [];
    secret_key = [];
    bucket = lit "ragkb";
    use_ssl = false;
  };
  kafka = record {
    brokers = [];
    topic = lit "ingest";
    dlq_topic = lit "dlq";
    group_id = lit "worker";
  };
  tika = record { url = [] };
  ai = record {
    llm_base_url = [];
    llm_model = [];
    llm_api_key = [];
    embedding_base_url = [];
    embedding_model = [];
    embedding_api_key = [];
    embedding_dimensions = pos 0;
    embedding_batch_size = pos 0;
    embedding_concurrency = pos 0;
    rerank_base_url = [];
    rerank_model = [];
    rerank_api_key = [];
  };
  jwt = record { secret = lit "secret"; expire_hours = pos 2; refresh_expire_hours = pos 168 };
  upload = record { max_file_size_mb = pos 500; allowed_exts = [] };
  search = record { top_k = pos 5; recall_k = pos 50; rrf_k = pos 60; rerank_timeout_ms = pos 0 };
  log = record { level = lit "info"; mode = lit "prod" };
}

clients : Clients (List Document) Db Objects Bits Topic KeySet Clock
unfolding runes db same_letters
clients = record {
  docs = table;
  db = db;
  minio = minio;
  redis = redis;
  keys = keys;
  writer = writer;
  jwt = jwt;
  process = process;
  bcrypt = bcrypt;
  unicode = ascii;
  runes = runes;
  max_bytes_reader = λ n body. take n body;
  bind_register = binding (is_register_request runes) credentials;
  bind_login = binding is_login_request credentials;
  bind_token = binding is_token_request (λ body. body);
  bind_update = binding is_update_request (λ body. body);
  bind_initiate = binding is_initiate_request upload_request;
  bind_complete = binding is_complete_request (λ body. (parse_int body).value);
}

wired : World (List Document) Db Objects Bits Topic
wired = record {
  docs = [];
  tenants = no_one;
  objects = empty.objects;
  progress = empty.progress;
  producer = empty.producer;
}

initiate_upload-no_exts_example :
    (e : DocumentError) × (initiate_upload (new_api config clients).documents params wired
      ≡ (err (document e), wired))
    × ((e ≡ DocumentError.file_too_large) ⊎ (e ≡ DocumentError.unsupported_type))
unfolding config
initiate_upload-no_exts_example = initiate_upload-no_exts config clients params wired refl
