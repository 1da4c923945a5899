-- ===== src/Memory/Web.antt =====
-- The server in memory: a user registers, logs in, uploads a part and reads the document.
use ragkb.Base.{
  ℕ, zero, suc, pos, take, ◌*ℤ◌, ◌+ℤ◌, wrap_64, ◌≡◌, refl, none, some, [], ◌∷◌, ◌++◌, List,
  if◌then◌else◌,
}
use ragkb.Text.{Text, lit, ◌==ᵗ◌, trim_space, lower_byte}
use ragkb.Text.Number.{parse_int}
use ragkb.Domain.Document.{Document}
use ragkb.Handler.{ok_response}
use ragkb.Handler.Types.{Payload, TokenResponse}
use ragkb.Handler.Context.{Context, Reply, reply, crash, current_user_id}
use ragkb.Handler.Auth.{Credentials, is_register_request, is_login_request, is_token_request}
use ragkb.Handler.Users.{is_update_request}
use ragkb.Handler.Documents.{InitiateUploadRequest, is_initiate_request, is_complete_request}
use ragkb.Handler.Auth
use ragkb.Handler.Documents
use ragkb.Service
use ragkb.Service.Auth.{
  hash_password, create_account, add_tenant, login_found, issue_tokens, check_password,
}
use ragkb.Service.Documents.{
  initiate_upload, find_upload, resume_upload, start_upload, resolve_tenant, owned_doc, upload_part,
  get_document,
}
use ragkb.Service.Documents.Types.{file_ext}
use ragkb.Infra.Mysql.Users.{
  create_user, create_with_membership, get_by_username, get_user, or_no_user, fill_primary_tenant,
  get_primary_tag,
}
use ragkb.Infra.Redis.Refresh.{save, refresh_key}
use ragkb.Token.{
  hours, generate_access_token, generate_refresh_token, sign, parse, parse_access_token, key_of,
  claims_at, numeric_date,
}
use ragkb.Fault.{is_user, is_document, is_record_not_found}
use ragkb.Text.{last_index, to_lower}
use ragkb.Server.{Options, ServerWorld, Endpoint, serve, prefix}
use ragkb.Memory.Tests.{notes}
use ragkb.Memory.Servers.{empty, Objects, Bits, Topic, ascii}
use ragkb.Memory.Users.{Db, db, documents, accounts}
use ragkb.Memory.Jwt.{Clock, KeySet}
use ragkb.Memory.Auth.{auth, fresh}
use ragkb.Memory.Requests.{binding, credentials, line, rest, upload_request, runes, request}

unfoldable pub options : Options (List Document) Db Objects Bits Topic KeySet Clock
unfolding documents auth accounts runes binding line rest Auth.register Auth.login
    Service.Auth.register Service.Auth.login hash_password check_password create_account add_tenant
    create_user db create_with_membership is_user ◌==ᵗ◌ login_found issue_tokens get_by_username
    get_user or_no_user fill_primary_tenant generate_access_token generate_refresh_token sign
    claims_at numeric_date hours save refresh_key is_record_not_found ◌*ℤ◌ ◌+ℤ◌ wrap_64 parse
    parse_access_token key_of Documents.initiate Documents.upload Documents.get initiate_upload
    find_upload resume_upload start_upload resolve_tenant is_document owned_doc upload_part
    get_document file_ext last_index to_lower get_primary_tag parse_int trim_space lower_byte
    current_user_id
options = record {
  documents = documents;
  auth = auth;
  users = accounts;
  unicode = ascii;
  runes = runes;
  max_bytes_reader = λ n body. take n body;
  bind_register = binding (is_register_request runes) credentials;
  bind_login = binding is_login_request credentials;
  bind_token = binding is_token_request (λ body. body);
  bind_update = binding is_update_request (λ body. body);
  bind_initiate = binding is_initiate_request upload_request;
  bind_complete = binding is_complete_request (λ body. (parse_int body).value);
}

abbrev pub Web : Type 0
Web = ServerWorld (List Document) Db Objects Bits Topic KeySet Clock

abbrev pub start : Web
start = record {
  docs = [];
  db = fresh.db;
  objects = empty.objects;
  progress = empty.progress;
  producer = empty.producer;
  refresh = fresh.refresh;
  process = fresh.process;
}

-- The bytes of a Chinese character, so many times
abbrev pub lit_times : ℕ → Text
lit_times zero = []
lit_times (suc n) = 0xe5 ∷ 0xaf ∷ 0x86 ∷ lit_times n

abbrev pub ann_body : Text
ann_body = lit "ann" ++ 10 ∷ lit "secret1"

unfoldable pub signed_up : Web
unfolding options serve
signed_up = (serve options Endpoint.register (request ann_body) start).1

signed_up-test :
    (serve options Endpoint.register (request ann_body) start).0
    ≡ reply (
        ok_response (
          Payload.user (record {
            id = pos 1;
            username = lit "ann";
            role = lit "USER";
            primary_tenant = lit "PRIVATE_ann";
          })))
unfolding signed_up
signed_up-test = refl

unfoldable pub logged_in : Web
unfolding signed_up
logged_in = (serve options Endpoint.login (request ann_body) signed_up).1

abbrev pub tokens_of : Reply → TokenResponse
tokens_of (reply r) = elim r.content [
  | some (Payload.token t) ↦ t
  | _ ↦ record { access_token = []; refresh_token = []; user = none }
]
tokens_of (crash p) = record { access_token = []; refresh_token = []; user = none }

unfoldable pub given : TokenResponse
unfolding logged_in
given = tokens_of (serve options Endpoint.login (request ann_body) signed_up).0

abbrev pub with_token : Context → Context
with_token c = record c {
  header = λ key. if key ==ᵗ lit "Authorization" then prefix ++ given.access_token else [];
}

unfoldable pub opened : Web
unfolding given
opened =
    (serve options Endpoint.initiate (with_token (request (lit "abc" ++ 10 ∷ lit "notes.MD")))
      logged_in).1

-- GET /documents/1
abbrev pub get_one : Context
get_one = record (with_token (request [])) {
  param = λ key. if key ==ᵗ lit "id" then lit "1" else [];
}

abbrev pub ann_notes : Document
ann_notes = record notes { owner_id = pos 1; total_size = pos 3; tenant_tag = lit "PRIVATE_ann" }
