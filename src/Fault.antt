-- ===== src/Fault.antt =====
-- Go's error values: the sentinels of internal/domain/document/errors.go,
-- internal/domain/user/errors.go, internal/pkg/token and internal/bootstrap/worker.go, those of the
-- libraries that the program tests for, and `errors.Is` on a chain that `%w` builds.
use ragkb.Base.{ℕ, ◌++◌, Bool, true, false, ◌==◌}
use ragkb.Text.{Text, lit}

pub data DocumentError : Type 0 where
  not_found conflict forbidden bad_request file_too_large unsupported_type : DocumentError
  parts_incomplete : DocumentError

pub data UserError : Type 0 where
  not_found conflict already_exists invalid_credentials forbidden invalid_token : UserError

pub data Error : Type 0 where
  document : DocumentError → Error
  user : UserError → Error
  -- token.ErrInvalidToken
  invalid_token : Error
  -- errIngestHandlerNotImplemented
  not_implemented : Error
  -- gorm.ErrRecordNotFound
  record_not_found : Error
  -- context.Canceled
  canceled : Error
  -- *mysql.MySQLError with its number
  mysql : ℕ → Text → Error
  -- fmt.Errorf("...%w", err): the text before the wrapped error
  wrapped : Text → Error → Error
  other : Text → Error

document_index : DocumentError → ℕ
document_index DocumentError.not_found = 0
document_index DocumentError.conflict = 1
document_index DocumentError.forbidden = 2
document_index DocumentError.bad_request = 3
document_index DocumentError.file_too_large = 4
document_index DocumentError.unsupported_type = 5
document_index DocumentError.parts_incomplete = 6

user_index : UserError → ℕ
user_index UserError.not_found = 0
user_index UserError.conflict = 1
user_index UserError.already_exists = 2
user_index UserError.invalid_credentials = 3
user_index UserError.forbidden = 4
user_index UserError.invalid_token = 5

-- `errors.Is(err, target)` for a sentinel of the document domain.
unfoldable pub is_document : Error → DocumentError → Bool
unfolding document_index
is_document (document d) t = document_index d == document_index t
is_document (wrapped _ e) t = is_document e t
is_document _ t = false

unfoldable pub is_user : Error → UserError → Bool
unfolding user_index
is_user (user u) t = user_index u == user_index t
is_user (wrapped _ e) t = is_user e t
is_user _ t = false

-- `errors.Is` for token.ErrInvalidToken, gorm.ErrRecordNotFound and context.Canceled.
unfoldable pub is_invalid_token : Error → Bool
is_invalid_token invalid_token = true
is_invalid_token (wrapped _ e) = is_invalid_token e
is_invalid_token _ = false

unfoldable pub is_record_not_found : Error → Bool
is_record_not_found record_not_found = true
is_record_not_found (wrapped _ e) = is_record_not_found e
is_record_not_found _ = false

unfoldable pub is_canceled : Error → Bool
is_canceled canceled = true
is_canceled (wrapped _ e) = is_canceled e
is_canceled _ = false

-- `IsDuplicateKey`: `errors.As` finds a *MySQLError, whose number is 1062.
unfoldable pub is_duplicate_key : Error → Bool
is_duplicate_key (mysql number _) = number == 1062
is_duplicate_key (wrapped _ e) = is_duplicate_key e
is_duplicate_key _ = false

-- `err.Error()`
document_message : DocumentError → Text
document_message DocumentError.not_found = lit "document not found"
document_message DocumentError.conflict = lit "document conflict"
document_message DocumentError.forbidden = lit "forbidden"
document_message DocumentError.bad_request = lit "bad request"
document_message DocumentError.file_too_large = lit "file too large"
document_message DocumentError.unsupported_type = lit "unsupported file type"
document_message DocumentError.parts_incomplete = lit "upload parts incomplete"

user_message : UserError → Text
user_message UserError.not_found = lit "user not found"
user_message UserError.conflict = lit "user conflict"
user_message UserError.already_exists = lit "user already exists"
user_message UserError.invalid_credentials = lit "invalid credentials"
user_message UserError.forbidden = lit "forbidden"
user_message UserError.invalid_token = lit "invalid token"

unfoldable pub message : Error → Text
unfolding document_message user_message
message (document d) = document_message d
message (user u) = user_message u
message invalid_token = lit "invalid or expired token"
message not_implemented = lit "worker ingest handler is not implemented"
message record_not_found = lit "record not found"
message canceled = lit "context canceled"
message (mysql _ text) = text
message (wrapped before e) = before ++ message e
message (other text) = text
