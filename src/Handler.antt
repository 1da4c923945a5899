-- ===== src/Handler.antt =====
-- internal/response/response.go, and `RespondError` of internal/handler/shared/common.go. gin, which
-- writes the envelope as JSON, is not part of the repository: a response is the value it is given.
pub mod Types
pub mod Context
pub mod Documents
pub mod Auth
pub mod Users
pub mod Laws
use ragkb.Base.{ℕ, Bool, Option, none, some, ◌||◌, ◌==◌, if◌then◌else◌}
use ragkb.Text.{Text, lit}
use ragkb.Fault.{Error, DocumentError, UserError, is_document, is_user, is_invalid_token, message}
use Types.{Payload}

abbrev pub code_ok : ℕ
code_ok = 0

abbrev pub code_bad_request : ℕ
code_bad_request = 400

abbrev pub code_unauthorized : ℕ
code_unauthorized = 401

abbrev pub code_forbidden : ℕ
code_forbidden = 403

abbrev pub code_not_found : ℕ
code_not_found = 404

abbrev pub code_conflict : ℕ
code_conflict = 409

abbrev pub code_internal : ℕ
code_internal = 500

-- The status of the reply, and its envelope.
pub record Response : Type 0 where
  pub status : ℕ
  pub code : ℕ
  pub text : Text
  pub content : Option Payload

-- The switch of `Error`
unfoldable pub http_status : ℕ → ℕ
http_status code =
    if code == code_bad_request
    then 400
    else if code == code_unauthorized
    then 401
    else if code == code_forbidden
    then 403
    else if code == code_not_found
    then 404
    else if code == code_conflict
    then 409
    else 500

unfoldable pub error : ℕ → Text → Response
unfolding http_status
error code text = record { status = http_status code; code = code; text = text; content = none }

-- `OK`
abbrev pub ok_response : Payload → Response
ok_response content = record {
  status = 200;
  code = code_ok;
  text = lit "ok";
  content = some content;
}

-- The cases of `RespondError`, in their order.
unfoldable pub respond_error : Error → Response
unfolding error
respond_error e =
    if is_document e DocumentError.bad_request
    then error code_bad_request (message e)
    else if is_user e UserError.forbidden || is_document e DocumentError.forbidden
    then error code_forbidden (message e)
    else if is_user e UserError.not_found || is_document e DocumentError.not_found
    then error code_not_found (message e)
    else if is_user e UserError.already_exists
        || (is_user e UserError.conflict || is_document e DocumentError.conflict)
    then error code_conflict (message e)
    else if is_user e UserError.invalid_credentials
        || (is_user e UserError.invalid_token || is_invalid_token e)
    then error code_unauthorized (message e)
    else if is_document e DocumentError.file_too_large
        || (is_document e DocumentError.unsupported_type
            || is_document e DocumentError.parts_incomplete)
    then error code_bad_request (message e)
    else error code_internal (lit "internal server error")
