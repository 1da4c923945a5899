-- ===== src/Handler/Documents.antt =====
-- internal/handler/document: handler.go and dto.go.
pub mod Laws
pub mod Errors
use ragkb.Base.{
  ℕ, ℤ, pos, ◌*◌, ◌^◌, Bool, true, false, not, ◌&&◌, ◌||◌, ◌==ℤ◌, leb_ℤ, Option, none, some, [],
  List, if◌then◌else◌,
}
use ragkb.Text.{Text, lit, ◌==ᵗ◌}
use ragkb.Text.Number.{parse_int}
use ragkb.Fault.{Error}
use ragkb.Domain.Document.{Document}
use ragkb.Service.Documents.Types.{InitiateParams}
use ragkb.Service.Documents.{
  DocumentService, World, initiate_upload, upload_part, complete_upload, list_documents,
  get_document, delete_document,
}
use ragkb.Handler.{Response, error, ok_response, respond_error, code_bad_request}
use ragkb.Handler.Types.{Payload, DocumentListResponse}
use ragkb.Handler.Context.{
  Context, Handler, Binding, answer, respond, with_user, with_body, with_document_id, default_query,
}

pub record InitiateUploadRequest : Type 0 where
  pub file_md5 : Text
  pub file_name : Text
  pub total_size : ℤ
  pub total_parts : ℤ
  pub tenant_tag : Text
  pub is_public : Bool

-- The tags `required`: not the zero value.
abbrev pub is_initiate_request : InitiateUploadRequest → Bool
is_initiate_request r =
    not (r.file_md5 ==ᵗ [])
    && (not (r.file_name ==ᵗ []) && (not (r.total_size ==ℤ pos 0) && not (r.total_parts ==ℤ pos 0)))

abbrev pub is_complete_request : ℤ → Bool
is_complete_request total_parts = not (total_parts ==ℤ pos 0)

-- 10 << 20
abbrev pub max_part_size : ℕ
max_part_size = 10 * 2 ^ 20

-- A completion returns its document or, beside it, the error of the event.
abbrev pub complete_response : Document × Option Error → Response
complete_response (doc, none) = ok_response (Payload.document doc)
complete_response (doc, some e) = respond_error e

-- The number of the part, from the path, and the count of parts, from the query.
abbrev pub with_part_numbers : {W : Type 0} → Context → (ℤ → ℤ → Handler W) → Handler W
with_part_numbers c next =
    let part_number = parse_int (c.param (lit "partNumber")) in
    let total_parts = parse_int (default_query c (lit "totalParts") []) in
    elim part_number.failed [
      | true ↦ answer (error code_bad_request (lit "invalid part number"))
      | false ↦ elim (total_parts.failed || leb_ℤ total_parts.value (pos 0)) [
        | true ↦ answer (error code_bad_request (lit "missing or invalid totalParts query"))
        | false ↦ next part_number.value total_parts.value
      ]
    ]

module _ {R T O P K : Type 0} (s : DocumentService R T O P K) where
  abbrev pub initiate_params : ℤ → InitiateUploadRequest → InitiateParams
  initiate_params uid req = record {
    owner_id = uid;
    file_md5 = req.file_md5;
    file_name = req.file_name;
    total_size = req.total_size;
    total_parts = req.total_parts;
    tenant_tag = req.tenant_tag;
    is_public = req.is_public;
  }

  unfoldable pub initiate :
      Binding InitiateUploadRequest is_initiate_request → Context → Handler (World R T O P K)
  initiate b c = with_user c λ uid. with_body b c λ req.
      respond (initiate_upload s (initiate_params uid req))
        λ res. ok_response (Payload.initiated res)

  -- `max_bytes_reader n body` is what http.MaxBytesReader lets through.
  unfoldable pub upload : (ℕ → Text → Text) → Context → Handler (World R T O P K)
  upload max_bytes_reader c = with_user c λ uid. with_document_id c λ doc_id.
      with_part_numbers c λ part_number total_parts.
        respond
          (upload_part s uid doc_id part_number total_parts (max_bytes_reader max_part_size c.body)
            c.content_length)
          λ _. ok_response (Payload.uploaded_part part_number)

  unfoldable pub complete : Binding ℤ is_complete_request → Context → Handler (World R T O P K)
  complete b c = with_user c λ uid. with_document_id c λ doc_id.
      with_body b c
        λ total_parts. respond (complete_upload s uid doc_id total_parts) complete_response

  -- The errors of `Atoi` are dropped; the value beside one is used.
  unfoldable pub list : Context → Handler (World R T O P K)
  list c = with_user c λ uid.
      let page = (parse_int (default_query c (lit "page") (lit "1"))).value in
      let size = (parse_int (default_query c (lit "size") (lit "20"))).value in
      respond (list_documents s uid page size) λ (docs, total).
        ok_response
          (Payload.listing (record { items = docs; total = total; page = page; size = size }))

  unfoldable pub get : Context → Handler (World R T O P K)
  get c = with_user c λ uid.
      with_document_id c
        λ doc_id. respond (get_document s uid doc_id) λ doc. ok_response (Payload.document doc)

  unfoldable pub delete : Context → Handler (World R T O P K)
  delete c = with_user c λ uid.
      with_document_id c
        λ doc_id. respond (delete_document s uid doc_id) λ _. ok_response Payload.deleted
