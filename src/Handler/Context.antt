-- ===== src/Handler/Context.antt =====
-- A request as gin hands it to a handler, `CurrentUserID` of internal/handler/shared/common.go, and
-- the steps that the handlers of internal/handler share.
pub mod Laws
use ragkb.Base.{ℕ, ℤ, ◌≡◌, Bool, true, false, Option, none, some, []}
use ragkb.Text.{Text, lit}
use ragkb.Text.Number.{parse_int}
use ragkb.Fault.{Error, message}
use ragkb.Action.{Result, ok, err, panic, Action}
use ragkb.Handler.{Response, error, respond_error, code_bad_request, code_unauthorized}

-- A value of type `any` in gin's context.
pub data ContextValue : Type 0 where
  int64 : ℤ → ContextValue
  another : Text → ContextValue

-- A query parameter may be missing; a header or a path parameter that is missing is empty.
pub record Context : Type 0 where
  pub header : Text → Text
  pub param : Text → Text
  pub query : Text → Option Text
  pub body : Text
  pub content_length : ℤ
  pub values : Text → Option ContextValue

abbrev pub context_user_id : Text
context_user_id = lit "currentUserID"

-- The type assertion `v.(int64)`
abbrev pub as_int64 : ContextValue → Option ℤ
as_int64 (int64 n) = some n
as_int64 (another t) = none

unfoldable pub current_user_id : Context → Option ℤ
current_user_id c = elim (c.values context_user_id) [ none ↦ none | some v ↦ as_int64 v ]

abbrev pub default_query : Context → Text → Text → Text
default_query c key missing = elim (c.query key) [ none ↦ missing | some t ↦ t ]

-- `ShouldBindJSON` of gin, with the `binding` tags of the request's type as the test `valid`.
pub record Binding (A : Type 0) (valid : A → Bool) : Type 0 where
  pub bind : Text → Result A
  pub bind_ok : (body : Text) (a : A) → bind body ≡ ok a → valid a ≡ true

-- What has become of a request: its response, or a panic that has left the handler.
pub data Reply : Type 0 where
  reply : Response → Reply
  crash : Text → Reply

abbrev pub Handler : Type 0 → Type 0
Handler W = W → Reply × W

module _ {W : Type 0} where
  abbrev pub answer : Response → Handler W
  answer r w = (reply r, w)

  abbrev pub respond_result : {A : Type 0} → (A → Response) → Result A × W → Reply × W
  respond_result f (ok a, w) = (reply (f a), w)
  respond_result f (err e, w) = (reply (respond_error e), w)
  respond_result f (panic p, w) = (crash p, w)

  -- `x, err := m; if err != nil { RespondError } ; f x`
  abbrev pub respond : {A : Type 0} → Action W A → (A → Response) → Handler W
  respond m f w = respond_result f (m w)

  abbrev pub with_user : Context → (ℤ → Handler W) → Handler W
  with_user c next = elim (current_user_id c) [
    | none ↦ answer (error code_unauthorized (lit "unauthorized"))
    | some uid ↦ next uid
  ]

  abbrev pub with_bound : {A : Type 0} → Result A → (A → Handler W) → Handler W
  with_bound (ok a) next = next a
  with_bound (err e) next = answer (error code_bad_request (message e))
  with_bound (panic p) next = λ w. (crash p, w)

  abbrev pub with_body :
      {A : Type 0} {valid : A → Bool} → Binding A valid → Context → (A → Handler W) → Handler W
  with_body b c = with_bound (b.bind c.body)

  abbrev pub with_document_id : Context → (ℤ → Handler W) → Handler W
  with_document_id c next =
      let id = parse_int (c.param (lit "id")) in
      elim id.failed [
        | true ↦ answer (error code_bad_request (lit "invalid document id"))
        | false ↦ next id.value
      ]
