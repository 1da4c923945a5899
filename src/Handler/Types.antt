-- ===== src/Handler/Types.antt =====
-- The data of the replies: the DTOs of internal/handler, and the values that the services return.
use ragkb.Base.{ℤ, Option, List}
use ragkb.Text.{Text}
use ragkb.Domain.Document.{Document}
use ragkb.Domain.User.{Tenant}
use ragkb.Service.Documents.Types.{InitiateResult}

pub record DocumentListResponse : Type 0 where
  pub items : List Document
  pub total : ℤ
  pub page : ℤ
  pub size : ℤ

-- A user as the client sees it: without the password.
pub record UserResponse : Type 0 where
  pub id : ℤ
  pub username : Text
  pub role : Text
  pub primary_tenant : Text

-- An empty refresh token and a missing user are left out of the JSON.
pub record TokenResponse : Type 0 where
  pub access_token : Text
  pub refresh_token : Text
  pub user : Option UserResponse

pub data Payload : Type 0 where
  initiated : InitiateResult → Payload
  uploaded_part : ℤ → Payload
  document : Document → Payload
  listing : DocumentListResponse → Payload
  deleted : Payload
  user : UserResponse → Payload
  token : TokenResponse → Payload
  logged_out : Payload
  primary : Text → Payload
  tenants : List Tenant → Payload
