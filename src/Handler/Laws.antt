-- ===== src/Handler/Laws.antt =====
-- Which status each error of the domains gets from internal/handler/shared/common.go.
use ragkb.Base.{ℕ, ◌≡◌, ◌⊎◌, ◌≢◌, ◌∙◌, refl, arith}
use ragkb.Text.{Text, lit}
use ragkb.Fault.{
  Error, DocumentError, UserError, document, user, invalid_token, not_implemented, record_not_found,
  canceled, mysql, wrapped, other, is_document, is_user, is_invalid_token, message,
}
use ragkb.Handler.{respond_error, error, http_status}

-- The status that an API of documents and users gives each of its errors; 500 for any other.
unfoldable pub expected_status : Error → ℕ
expected_status (document DocumentError.not_found) = 404
expected_status (document DocumentError.conflict) = 409
expected_status (document DocumentError.forbidden) = 403
expected_status (document _) = 400
expected_status (user UserError.not_found) = 404
expected_status (user UserError.conflict) = 409
expected_status (user UserError.already_exists) = 409
expected_status (user UserError.invalid_credentials) = 401
expected_status (user UserError.forbidden) = 403
expected_status (user UserError.invalid_token) = 401
expected_status invalid_token = 401
expected_status (wrapped _ e) = expected_status e
expected_status _ = 500

respond_error-wrapped :
    (t : Text) (e : Error) → (respond_error (wrapped t e)).status ≡ (respond_error e).status
unfolding respond_error error is_document is_user is_invalid_token http_status
respond_error-wrapped t e = ground arith

-- Each error gets the status that is expected of it, however often it was wrapped on its way.
pub respond_error-status : (e : Error) → (respond_error e).status ≡ expected_status e
unfolding respond_error error is_document is_user is_invalid_token http_status expected_status
respond_error-status (document DocumentError.not_found) = refl
respond_error-status (document DocumentError.conflict) = refl
respond_error-status (document DocumentError.forbidden) = refl
respond_error-status (document DocumentError.bad_request) = refl
respond_error-status (document DocumentError.file_too_large) = refl
respond_error-status (document DocumentError.unsupported_type) = refl
respond_error-status (document DocumentError.parts_incomplete) = refl
respond_error-status (user UserError.not_found) = refl
respond_error-status (user UserError.conflict) = refl
respond_error-status (user UserError.already_exists) = refl
respond_error-status (user UserError.invalid_credentials) = refl
respond_error-status (user UserError.forbidden) = refl
respond_error-status (user UserError.invalid_token) = refl
respond_error-status invalid_token = refl
respond_error-status not_implemented = refl
respond_error-status record_not_found = refl
respond_error-status canceled = refl
respond_error-status (mysql _ _) = refl
respond_error-status (wrapped t e) = respond_error-wrapped t e ∙ respond_error-status e
respond_error-status (other _) = refl

-- The reply repeats its status in the envelope, and the text of an error reaches the client only if
-- it is one of the domains' errors: behind a 500 nothing of the failure is told.
pub respond_error-text :
    (e : Error)
    → ((respond_error e).status ≡ (respond_error e).code)
      × ((((respond_error e).status ≡ 500) × ((respond_error e).text ≡ lit "internal server error"))
          ⊎ (((respond_error e).status ≢ 500) × ((respond_error e).text ≡ message e)))
unfolding respond_error error http_status
respond_error-text e = (ground arith, ground arith)
