-- ===== src/Memory/Replies.antt =====
-- The theorems about requests and replies, applied to the server in memory.
use ragkb.Base.{
  ℕ, pos, take, ◌≡◌, refl, true, false, none, some, [], ◌∷◌, ◌++◌, List, arith, if◌then◌else◌,
  first_match, ◌⊎◌,
}
use ragkb.Text.{Text, lit, ◌==ᵗ◌}
use ragkb.Text.Number.{parse_int}
use ragkb.Action.{ok}
use ragkb.Domain.Document.{Document}
use ragkb.Token.{Claims}
use ragkb.Handler.{ok_response, error, code_internal, code_not_found}
use ragkb.Handler.Types.{Payload}
use ragkb.Handler.Context.{Context, reply, current_user_id}
use ragkb.Handler.Auth.{Credentials, is_register_request, is_login_request, is_token_request}
use ragkb.Handler.Documents.{InitiateUploadRequest, is_initiate_request, is_complete_request}
use ragkb.Handler.Auth
use ragkb.Handler.Documents
use ragkb.Service.Documents.{World}
use ragkb.Token.{parse_access_token}
use ragkb.Server.{Endpoint, serve, bearer_token, endpoint, set_user, document_world}
use ragkb.Server.Laws.{serve-get, serve-login}
use ragkb.Handler.Documents.Laws.{upload-ok}
use ragkb.Handler.Documents.Errors.{foreign_is_404}
use ragkb.Handler.Auth.Laws.{register-too_long_is_500}
use ragkb.Domain.Document.{has_live_id, upload_status_merged}
use ragkb.Memory.Servers.{Objects, Bits, Topic, ascii}
use ragkb.Memory.Users.{Db, documents}
use ragkb.Memory.Auth.{auth, fresh}
use ragkb.Memory.Requests.{binding, credentials, runes, request}
use ragkb.Memory.Web.{
  options, lit_times, ann_body, signed_up, logged_in, given, opened, get_one, ann_notes,
}

serve-get_example :
    (raw : Text) × (claims : Claims) × (doc : Document) × (bearer_token ascii
        (get_one.header (lit "Authorization"))
      ≡ some raw)
    × (parse_access_token options.auth.jwt options.auth.process options.auth.tokens raw
          opened.process
        ≡ ok claims)
    × (ok_response (Payload.document ann_notes) ≡ ok_response (Payload.document doc))
    × (doc.owner_id ≡ claims.user_id)
    × (parse_int (get_one.param (lit "id")) ≡ record { value = doc.id; failed = false })
    × (doc.deleted_at ≡ none)
    × (opened ≡ opened)
unfolding opened
serve-get_example =
    serve-get options get_one opened opened (ok_response (Payload.document ann_notes)) refl refl

serve-login_example :
    (serve options Endpoint.get get_one opened
      ≡ endpoint options Endpoint.get (set_user (pos 1) get_one) opened)
    × (current_user_id (set_user (pos 1) get_one) ≡ some (pos 1))
unfolding opened
serve-login_example =
    serve-login options Endpoint.get (request ann_body) get_one signed_up logged_in opened
      given.access_token given.refresh_token
      (record {
        id = pos 1;
        username = lit "ann";
        role = lit "USER";
        primary_tenant = lit "PRIVATE_ann";
      })
      refl refl refl refl (λ e. ground arith) refl

-- PUT /documents/1/parts/0?totalParts=1, behind the middleware
abbrev put_one : Context
put_one = set_user (pos 1) (record (request (lit "xyz")) {
  param =
      λ key. if key ==ᵗ lit "id" then lit "1" else if key ==ᵗ lit "partNumber" then lit "0" else [];
  query = λ key. if key ==ᵗ lit "totalParts" then some (lit "1") else none;
})

unfoldable sent : World (List Document) Db Objects Bits Topic
unfolding opened
sent =
    (Documents.upload documents (λ n body. take n body) put_one (document_world options opened)).1

upload-ok_example :
    (doc : Document) × (first_match
        (has_live_id (parse_int (put_one.param (lit "id"))).value)
        (documents.docs.rows opened.docs)
      ≡ some doc)
    × (current_user_id put_one ≡ some doc.owner_id)
    × (((doc.upload_status ≡ upload_status_merged) × (sent ≡ document_world options opened))
        ⊎ ((i : ℕ) × (parse_int (put_one.param (lit "partNumber"))
              ≡ record { value = pos i; failed = false })
            × (documents.objects.part sent.objects doc.file_md5 i ≡ some (lit "xyz"))
            × (documents.progress.has sent.progress doc.file_md5 doc.owner_id i ≡ true)
            × (sent.docs ≡ opened.docs)))
unfolding sent
upload-ok_example =
    upload-ok documents (λ n body. take n body) put_one (document_world options opened) sent
      (ok_response (Payload.uploaded_part (pos 0))) refl refl refl refl

-- Requests of user 2 for that document: the path alone, with a part, and with a body
abbrev foreign_path : Context
foreign_path =
    set_user (pos 2)
      (record (request []) { param = λ key. if key ==ᵗ lit "id" then lit "1" else [] })

abbrev foreign_part : Context
foreign_part = set_user (pos 2) put_one

abbrev foreign_total : Context
foreign_total = record foreign_path { body = lit "1" }

foreign_is_404_example :
    (Documents.get documents foreign_path (document_world options opened)
      ≡ (reply (error code_not_found (lit "document not found")), document_world options opened))
    × (Documents.upload documents
          (λ n body. take n body)
          foreign_part
          (document_world options opened)
        ≡ (reply (error code_not_found (lit "document not found")), document_world options opened))
    × (Documents.complete documents
          (binding is_complete_request (λ body. (parse_int body).value))
          foreign_total
          (document_world options opened)
        ≡ (reply (error code_not_found (lit "document not found")), document_world options opened))
    × (Documents.delete documents foreign_path (document_world options opened)
        ≡ (reply (error code_not_found (lit "document not found")), document_world options opened))
unfolding opened
foreign_is_404_example =
    foreign_is_404 documents (binding is_complete_request (λ body. (parse_int body).value))
      (λ n body. take n body) foreign_path foreign_part foreign_total foreign_path
      (document_world options opened) (pos 2) (pos 1) (pos 0) (pos 1) (pos 1) ann_notes (refl, refl)
      (refl, refl) (refl, refl) (refl, refl) refl refl refl refl refl refl (λ e. ground arith)

-- 25 times three bytes for one rune
abbrev long_password : Text
long_password = lit_times 25

abbrev long_body : Text
long_body = lit "ann" ++ 10 ∷ long_password

register-too_long_is_500_example :
    (is_register_request runes (record { username = lit "ann"; password = long_password }) ≡ true)
    × (Auth.register auth runes
          (binding (is_register_request runes) credentials)
          (request long_body)
          fresh
        ≡ (reply (error code_internal (lit "internal server error")), fresh))
unfolding options
register-too_long_is_500_example =
    register-too_long_is_500 auth runes (binding (is_register_request runes) credentials)
      (request long_body) fresh (record { username = lit "ann"; password = long_password }) refl
      (omega arith)
