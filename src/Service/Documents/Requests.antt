-- ===== src/Service/Documents/Requests.antt =====
-- The methods of internal/service/document/document.go once more, stopping behind each call of a
-- port, so that requests that are served at the same time can be interleaved.
pub mod Alone
pub mod Rules
pub mod Completing
pub mod Keeping
pub mod Interleaved
use ragkb.Base.{
  ℤ, pos, not, ◌||◌, Bool, true, false, Option, none, some, [], ◌==◌, ◌==ℤ◌, ltb_ℤ, leb_ℤ, List,
  ◌++◌, if◌then◌else◌,
}
use ragkb.Text.{Text, lit, ◌==ᵗ◌}
use ragkb.Text.Decimal.{decimal}
use ragkb.Fault.{Error, DocumentError, UserError, document, wrapped, is_document, is_user}
use ragkb.Action.{map_error}
use ragkb.Action.Program.{Program, atomic, looking, proceed, give, give_up, ignoring, ◌>>=◌, ◌>>◌}
use ragkb.Domain.Document.{Document, upload_status_merged}
use ragkb.Service.Documents.Types.{InitiateParams, InitiateResult, file_ext}
use ragkb.Service.Documents.{
  DocumentService, World, on_docs, on_objects, on_progress, publish_ingest, publish_delete,
  wrap_publish_error, new_document,
}

module _ {R T O P K : Type 0} (s : DocumentService R T O P K) where
  abbrev pub Calls : Type 0 → Type 0
  Calls A = Program (World R T O P K) A

  unfoldable pub resolve_tenant : ℤ → Text → Calls Text
  resolve_tenant owner tenant_tag =
      if tenant_tag ==ᵗ []
      then proceed (looking (λ w. s.tenants.get_primary_tag owner w.tenants)) give (λ e.
        if is_user e UserError.not_found
        then give_up (document DocumentError.bad_request)
        else give_up e)
      else do
        member ← looking (λ w. s.tenants.is_member owner tenant_tag w.tenants)
        if member then give tenant_tag else give_up (document DocumentError.forbidden)

  unfoldable pub owned_doc : ℤ → ℤ → Calls Document
  owned_doc owner id = do
    doc ← looking (λ w. s.docs.get_by_id id w.docs)
    if doc.owner_id ==ℤ owner then give doc else give_up (document DocumentError.not_found)

  unfoldable pub owned_doc_any : ℤ → ℤ → Calls Document
  owned_doc_any owner id = do
    doc ← looking (λ w. s.docs.get_by_id_any id w.docs)
    if doc.owner_id ==ℤ owner then give doc else give_up (document DocumentError.not_found)

  unfoldable pub delete_document : ℤ → ℤ → Calls (Unit {0})
  delete_document owner id = do
    doc ← owned_doc_any owner id
    atomic (on_docs s (s.docs.soft_delete id))
    atomic (
        map_error (wrapped (lit "publish delete event for document " ++ (decimal id ++ lit ": ")))
          (publish_delete s doc))

  unfoldable pub list_documents : ℤ → ℤ → ℤ → Calls (List Document × ℤ)
  list_documents owner page size =
      let page' = if ltb_ℤ page (pos 1) then pos 1 else page in
      let size' = if ltb_ℤ size (pos 1) || ltb_ℤ (pos 100) size then pos 20 else size in
      looking
        λ w. s.docs.list_by_owner (record { owner_id = owner; page = page'; size = size' }) w.docs

  unfoldable pub get_document : ℤ → ℤ → Calls Document
  get_document owner id = owned_doc owner id

  unfoldable pub resume_upload : InitiateParams → Document → Calls InitiateResult
  resume_upload p existing =
      if existing.upload_status == upload_status_merged
      then give (record { document_id = existing.id; instant_hit = true; uploaded_parts = none })
      else do
        parts ←
            looking (λ w. s.progress.uploaded_parts p.file_md5 p.owner_id p.total_parts w.progress)
        give
            (record { document_id = existing.id; instant_hit = false; uploaded_parts = some parts })

  unfoldable pub start_upload : InitiateParams → Text → Calls InitiateResult
  start_upload p tenant_tag = do
    doc ← atomic (on_docs s (s.docs.create (new_document s p tenant_tag)))
    give (record { document_id = doc.id; instant_hit = false; uploaded_parts = some [] })

  unfoldable pub find_upload : InitiateParams → Calls InitiateResult
  find_upload p = do
    tenant_tag ← resolve_tenant p.owner_id p.tenant_tag
    proceed (looking (λ w. s.docs.get_by_md5_and_owner p.file_md5 p.owner_id w.docs))
        (resume_upload p)
        λ e. if is_document e DocumentError.not_found then start_upload p tenant_tag else give_up e

  unfoldable pub initiate_upload : InitiateParams → Calls InitiateResult
  initiate_upload p =
      if ltb_ℤ s.limits.max_file_size p.total_size
      then give_up (document DocumentError.file_too_large)
      else if not (s.limits.allowed_exts (file_ext s.unicode p.file_name))
      then give_up (document DocumentError.unsupported_type)
      else if leb_ℤ p.total_parts (pos 0) || p.file_md5 ==ᵗ []
      then give_up (document DocumentError.bad_request)
      else find_upload p

  unfoldable pub upload_part : ℤ → ℤ → ℤ → ℤ → Text → ℤ → Calls (Unit {0})
  upload_part owner id part_number total_parts r size = do
    doc ← owned_doc owner id
    if doc.upload_status == upload_status_merged
        then give tt
        else if ltb_ℤ part_number (pos 0) || leb_ℤ total_parts part_number
        then give_up (document DocumentError.bad_request)
        else (do
          atomic (on_objects s (s.objects.put_part doc.file_md5 part_number r size))
          atomic (on_progress s (s.progress.mark_part doc.file_md5 owner part_number)))

  unfoldable pub finish_upload : ℤ → Document → Text → ℤ → Calls (Document × Option Error)
  finish_upload owner doc merged_key total_parts = do
    ignoring (atomic (on_objects s (s.objects.remove_parts doc.file_md5 total_parts)))
    ignoring (atomic (on_progress s (s.progress.clear doc.file_md5 owner)))
    proceed (atomic (publish_ingest s doc merged_key)) (λ _. give (doc, none))
        λ e. give (doc, some (wrap_publish_error s doc e))

  unfoldable pub compose_upload : ℤ → Document → ℤ → Calls (Document × Option Error)
  compose_upload owner doc total_parts = do
    (merged_key, size) ←
        atomic (on_objects s (s.objects.compose_merged doc.file_md5 doc.file_name total_parts))
    atomic (on_docs s (s.docs.mark_merged doc.id size))
    finish_upload owner (record doc { upload_status = upload_status_merged; total_size = size })
        merged_key total_parts

  unfoldable pub merge_upload : ℤ → Document → ℤ → Calls (Document × Option Error)
  merge_upload owner doc total_parts = do
    all_up ← looking (λ w. s.progress.all_uploaded doc.file_md5 owner total_parts w.progress)
    if all_up
        then compose_upload owner doc total_parts
        else give_up (document DocumentError.parts_incomplete)

  unfoldable pub complete_found : ℤ → ℤ → Document → Calls (Document × Option Error)
  complete_found owner total_parts doc =
      if doc.upload_status == upload_status_merged
      then give (doc, none)
      else merge_upload owner doc total_parts

  unfoldable pub complete_upload : ℤ → ℤ → ℤ → Calls (Document × Option Error)
  complete_upload owner id total_parts = do
    doc ← owned_doc owner id
    complete_found owner total_parts doc
