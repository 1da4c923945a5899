-- ===== src/Service/Documents.antt =====
-- internal/service/document/document.go. A method is an action on the world of its ports' states.
pub mod Ports
pub mod Types
pub mod Access
pub mod Complete
pub mod Later
pub mod Again
pub mod Tenants
pub mod Initiate
pub mod Refusals
pub mod Delete
pub mod Listing
pub mod Progress
pub mod Stored
pub mod Reach
pub mod Requests
use ragkb.Base.{
  ℤ, pos, Bool, true, false, not, ◌||◌, Option, none, some, [], ◌==◌, ◌==ℤ◌, ltb_ℤ, leb_ℤ, List,
  ◌&&◌, ◌++◌, if◌then◌else◌,
}
use ragkb.Text.{Text, Unicode, lit, ◌==ᵗ◌}
use ragkb.Text.Decimal.{decimal}
use ragkb.Fault.{Error, DocumentError, UserError, document, wrapped, is_document, is_user}
use ragkb.Action.{ok, err, panic, Action, attempt, pure, fail, reading, map_error, ◌>>=◌, ◌>>◌}
use ragkb.Json.{marshal}
use ragkb.Domain.Document.{
  Document, DocumentListQuery, FileDeleteEvent, upload_status_uploading, upload_status_merged,
  ingest_status_pending, event_type_file_delete,
}
use ragkb.Domain.Document.Repo.{DocumentRepo}
use ragkb.Domain.User.{TenantRepo}
use Ports.{UploadProgress, ObjectStore, EventPublisher}
use Types.{
  file_ext, UploadLimits, InitiateResult, InitiateParams, ingest_fields, delete_fields,
  ingest_event,
}

-- The states of the servers behind the service.
pub record World (R T O P K : Type 0) : Type 0 where
  pub docs : R
  pub tenants : T
  pub objects : O
  pub progress : P
  pub producer : K

pub record DocumentService (R T O P K : Type 0) : Type 0 where
  pub docs : DocumentRepo R
  pub tenants : TenantRepo T
  pub objects : ObjectStore O
  pub progress : UploadProgress P
  pub producer : EventPublisher K
  pub limits : UploadLimits
  pub unicode : Unicode

module _ {R T O P K : Type 0} (s : DocumentService R T O P K) where
  abbrev pub Call : Type 0 → Type 0
  Call A = Action (World R T O P K) A

  -- A call of one of the ports, on its part of the world.
  abbrev pub on_docs : {A : Type 0} → Action R A → Call A
  on_docs m w = let (r, t) = m w.docs in (r, record w { docs = t })

  abbrev pub on_objects : {A : Type 0} → Action O A → Call A
  on_objects m w = let (r, t) = m w.objects in (r, record w { objects = t })

  abbrev pub on_progress : {A : Type 0} → Action P A → Call A
  on_progress m w = let (r, t) = m w.progress in (r, record w { progress = t })

  abbrev pub on_producer : {A : Type 0} → Action K A → Call A
  on_producer m w = let (r, t) = m w.producer in (r, record w { producer = t })

  unfoldable pub publish_ingest : Document → Text → Call (Unit {0})
  publish_ingest doc merged_key =
      on_producer
        (s.producer.publish doc.file_md5 (marshal (ingest_fields (ingest_event doc merged_key))))

  unfoldable pub delete_event : Document → FileDeleteEvent
  delete_event doc = record {
    event_type = event_type_file_delete;
    document_id = doc.id;
    file_md5 = doc.file_md5;
    file_name = doc.file_name;
    merged_key = s.objects.merged_key doc.file_md5 doc.file_name;
  }

  unfoldable pub publish_delete : Document → Call (Unit {0})
  unfolding delete_event
  publish_delete doc =
      on_producer (s.producer.publish doc.file_md5 (marshal (delete_fields (delete_event doc))))

  -- Without a tag, the user's default tenant; with one, a tenant that the user belongs to.
  unfoldable pub resolve_tenant : ℤ → Text → Call Text
  resolve_tenant owner tenant_tag =
      if tenant_tag ==ᵗ []
      then attempt (reading (λ w. s.tenants.get_primary_tag owner w.tenants)) pure (λ e.
        if is_user e UserError.not_found then fail (document DocumentError.bad_request) else fail e)
      else do
        member ← reading (λ w. s.tenants.is_member owner tenant_tag w.tenants)
        if member then pure tenant_tag else fail (document DocumentError.forbidden)

  unfoldable pub owned_doc : ℤ → ℤ → Call Document
  owned_doc owner id = do
    doc ← reading (λ w. s.docs.get_by_id id w.docs)
    if doc.owner_id ==ℤ owner then pure doc else fail (document DocumentError.not_found)

  unfoldable pub owned_doc_any : ℤ → ℤ → Call Document
  owned_doc_any owner id = do
    doc ← reading (λ w. s.docs.get_by_id_any id w.docs)
    if doc.owner_id ==ℤ owner then pure doc else fail (document DocumentError.not_found)

  abbrev pub wrap_publish_error : Document → Error → Error
  wrap_publish_error doc =
      wrapped (lit "publish ingest event for document " ++ (decimal doc.id ++ lit ": "))

  unfoldable pub delete_document : ℤ → ℤ → Call (Unit {0})
  delete_document owner id = do
    doc ← owned_doc_any owner id
    on_docs (s.docs.soft_delete id)
    map_error (wrapped (lit "publish delete event for document " ++ (decimal id ++ lit ": ")))
        (publish_delete doc)

  unfoldable pub list_documents : ℤ → ℤ → ℤ → Call (List Document × ℤ)
  list_documents owner page size =
      let page' = if ltb_ℤ page (pos 1) then pos 1 else page in
      let size' = if ltb_ℤ size (pos 1) || ltb_ℤ (pos 100) size then pos 20 else size in
      reading
        λ w. s.docs.list_by_owner (record { owner_id = owner; page = page'; size = size' }) w.docs

  unfoldable pub get_document : ℤ → ℤ → Call Document
  get_document owner id = owned_doc owner id

  -- The document that a first upload creates.
  abbrev pub new_document : InitiateParams → Text → Document
  new_document p tenant_tag = record {
    id = pos 0;
    file_md5 = p.file_md5;
    file_name = p.file_name;
    file_ext = file_ext s.unicode p.file_name;
    total_size = p.total_size;
    upload_status = upload_status_uploading;
    ingest_status = ingest_status_pending;
    chunk_count = pos 0;
    embedding_model = none;
    owner_id = p.owner_id;
    tenant_tag = tenant_tag;
    is_public = p.is_public;
    error_msg = none;
    created_at = 0;
    updated_at = 0;
    deleted_at = none;
  }

  -- An upload of the file is known: it is complete, or it goes on with the parts that are missing.
  unfoldable pub resume_upload : InitiateParams → Document → Call InitiateResult
  resume_upload p existing =
      if existing.upload_status == upload_status_merged
      then pure (record { document_id = existing.id; instant_hit = true; uploaded_parts = none })
      else do
        parts ←
            reading (λ w. s.progress.uploaded_parts p.file_md5 p.owner_id p.total_parts w.progress)
        pure
            (record { document_id = existing.id; instant_hit = false; uploaded_parts = some parts })

  unfoldable pub start_upload : InitiateParams → Text → Call InitiateResult
  start_upload p tenant_tag = do
    doc ← on_docs (s.docs.create (new_document p tenant_tag))
    pure (record { document_id = doc.id; instant_hit = false; uploaded_parts = some [] })

  -- Behind the limits: the tenant, then the lookup by MD5 and owner.
  unfoldable pub find_upload : InitiateParams → Call InitiateResult
  find_upload p = do
    tenant_tag ← resolve_tenant p.owner_id p.tenant_tag
    attempt (reading (λ w. s.docs.get_by_md5_and_owner p.file_md5 p.owner_id w.docs))
        (resume_upload p)
        λ e. if is_document e DocumentError.not_found then start_upload p tenant_tag else fail e

  unfoldable pub initiate_upload : InitiateParams → Call InitiateResult
  initiate_upload p =
      if ltb_ℤ s.limits.max_file_size p.total_size
      then fail (document DocumentError.file_too_large)
      else if not (s.limits.allowed_exts (file_ext s.unicode p.file_name))
      then fail (document DocumentError.unsupported_type)
      else if leb_ℤ p.total_parts (pos 0) || p.file_md5 ==ᵗ []
      then fail (document DocumentError.bad_request)
      else find_upload p

  unfoldable pub upload_part : ℤ → ℤ → ℤ → ℤ → Text → ℤ → Call (Unit {0})
  upload_part owner id part_number total_parts r size = do
    doc ← owned_doc owner id
    if doc.upload_status == upload_status_merged
        then pure tt
        else if ltb_ℤ part_number (pos 0) || leb_ℤ total_parts part_number
        then fail (document DocumentError.bad_request)
        else (do
          on_objects (s.objects.put_part doc.file_md5 part_number r size)
          on_progress (s.progress.mark_part doc.file_md5 owner part_number))

  -- `_ = m`: the error is dropped, a panic is not.
  abbrev pub ignoring : {A : Type 0} → Call A → Call (Unit {0})
  ignoring m = attempt m (λ _. pure tt) (λ _. pure tt)

  -- Behind the merge: the parts and the progress are cleaned up, and the event is published. The
  -- error that comes back beside the document is that of the event.
  unfoldable pub finish_upload : ℤ → Document → Text → ℤ → Call (Document × Option Error)
  finish_upload owner doc merged_key total_parts = do
    ignoring (on_objects (s.objects.remove_parts doc.file_md5 total_parts))
    ignoring (on_progress (s.progress.clear doc.file_md5 owner))
    attempt (publish_ingest doc merged_key) (λ _. pure (doc, none))
        λ e. pure (doc, some (wrap_publish_error doc e))

  unfoldable pub compose_upload : ℤ → Document → ℤ → Call (Document × Option Error)
  compose_upload owner doc total_parts = do
    (merged_key, size) ←
        on_objects (s.objects.compose_merged doc.file_md5 doc.file_name total_parts)
    on_docs (s.docs.mark_merged doc.id size)
    finish_upload owner (record doc { upload_status = upload_status_merged; total_size = size })
        merged_key total_parts

  unfoldable pub merge_upload : ℤ → Document → ℤ → Call (Document × Option Error)
  merge_upload owner doc total_parts = do
    all_up ← reading (λ w. s.progress.all_uploaded doc.file_md5 owner total_parts w.progress)
    if all_up
        then compose_upload owner doc total_parts
        else fail (document DocumentError.parts_incomplete)

  unfoldable pub complete_found : ℤ → ℤ → Document → Call (Document × Option Error)
  complete_found owner total_parts doc =
      if doc.upload_status == upload_status_merged
      then pure (doc, none)
      else merge_upload owner doc total_parts

  unfoldable pub complete_upload : ℤ → ℤ → ℤ → Call (Document × Option Error)
  complete_upload owner id total_parts = do
    doc ← owned_doc owner id
    complete_found owner total_parts doc
