-- ===== src/Service/Documents/Requests/Alone.antt =====
-- A request that no other one interrupts does what the method of
-- internal/service/document/document.go does.
use ragkb.Base.{ℤ, pos, not, ◌||◌, [], ◌==◌, ◌==ℤ◌, ltb_ℤ, leb_ℤ}
use ragkb.Text.{Text, ◌==ᵗ◌}
use ragkb.Fault.{Error, DocumentError, UserError, is_document, is_user}
use ragkb.Action.{ok, err, fail, pure, reading, attempt}
use ragkb.Action.Program
use ragkb.Action.Program.{
  Program, Does, atomic-Does, returns-Does, if-Does, proceed-Does, give, give_up, looking, atomic,
  proceed,
}
use ragkb.Domain.Document.{Document, upload_status_merged}
use ragkb.Service.Documents.Types.{InitiateParams, file_ext}
use ragkb.Service.Documents
use ragkb.Service.Documents.{DocumentService, World, Call, on_docs, on_objects, on_progress}
use ragkb.Service.Documents.Requests

module _ {R T O P K : Type 0} (s : DocumentService R T O P K) where
  -- `x, err := p; if err != nil { return err } ; next`
  bind-Does :
      {A B : Type 0} (p : Program (World R T O P K) A) (m : Call s A)
      (next : A → Program (World R T O P K) B) (next' : A → Call s B)
      → Does p m
      → ((a : A) → Does (next a) (next' a))
      → Does (proceed p next give_up) (attempt m next' fail)
  bind-Does p m next next' h k =
      proceed-Does next next' give_up fail k (λ e. returns-Does (err e)) p m h

  fail-Does : {A : Type 0} (e : Error) → Does {W = World R T O P K} (give_up {A = A} e) (fail e)
  fail-Does e = returns-Does (err e)

  pure-Does : {A : Type 0} (a : A) → Does {W = World R T O P K} (give a) (pure a)
  pure-Does a = returns-Does (ok a)

  ignoring-Does :
      {A : Type 0} (m : Call s A) → Does (Program.ignoring (atomic m)) (Documents.ignoring s m)
  ignoring-Does m =
      proceed-Does (λ _. give tt) (λ _. pure tt) (λ _. give tt) (λ _. pure tt) (λ _. pure-Does tt)
        (λ _. pure-Does tt) (atomic m) m (atomic-Does m)

  owned_doc-Does :
      (owner id : ℤ) → Does (Requests.owned_doc s owner id) (Documents.owned_doc s owner id)
  unfolding Requests.owned_doc Documents.owned_doc
  owned_doc-Does owner id =
      bind-Does _ _ _ _ (atomic-Does (reading (λ w. s.docs.get_by_id id w.docs)))
        λ doc. if-Does (doc.owner_id ==ℤ owner) _ _ _ _ (pure-Does doc) (fail-Does _)

  owned_doc_any-Does :
      (owner id : ℤ) → Does (Requests.owned_doc_any s owner id) (Documents.owned_doc_any s owner id)
  unfolding Requests.owned_doc_any Documents.owned_doc_any
  owned_doc_any-Does owner id =
      bind-Does _ _ _ _ (atomic-Does (reading (λ w. s.docs.get_by_id_any id w.docs)))
        λ doc. if-Does (doc.owner_id ==ℤ owner) _ _ _ _ (pure-Does doc) (fail-Does _)

  resolve_tenant-Does :
      (owner : ℤ) (tag : Text)
      → Does (Requests.resolve_tenant s owner tag) (Documents.resolve_tenant s owner tag)
  unfolding Requests.resolve_tenant Documents.resolve_tenant
  resolve_tenant-Does owner tag =
      if-Does (tag ==ᵗ []) _ _ _ _
        (proceed-Does _ _ _ _ pure-Does
          (λ e. if-Does (is_user e UserError.not_found) _ _ _ _ (fail-Does _) (fail-Does e)) _ _
          (atomic-Does (reading (λ w. s.tenants.get_primary_tag owner w.tenants))))
        (bind-Does _ _ _ _ (atomic-Does (reading (λ w. s.tenants.is_member owner tag w.tenants)))
          λ member. if-Does member _ _ _ _ (pure-Does tag) (fail-Does _))

  pub delete_document-Does :
      (owner id : ℤ)
      → Does (Requests.delete_document s owner id) (Documents.delete_document s owner id)
  unfolding Requests.delete_document Documents.delete_document
  delete_document-Does owner id =
      bind-Does _ _ _ _ (owned_doc_any-Does owner id) λ doc.
        bind-Does _ _ _ _ (atomic-Does (on_docs s (s.docs.soft_delete id))) λ _. atomic-Does _

  pub list_documents-Does :
      (owner page size : ℤ)
      → Does
          (Requests.list_documents s owner page size)
          (Documents.list_documents s owner page size)
  unfolding Requests.list_documents Documents.list_documents
  list_documents-Does owner page size = atomic-Does _

  pub get_document-Does :
      (owner id : ℤ) → Does (Requests.get_document s owner id) (Documents.get_document s owner id)
  unfolding Requests.get_document Documents.get_document
  get_document-Does owner id = owned_doc-Does owner id

  resume_upload-Does :
      (p : InitiateParams) (d : Document)
      → Does (Requests.resume_upload s p d) (Documents.resume_upload s p d)
  unfolding Requests.resume_upload Documents.resume_upload
  resume_upload-Does p d = if-Does (d.upload_status == upload_status_merged) _ _ _ _ (pure-Does _) (
      bind-Does _ _ _ _
        (atomic-Does
          (reading (λ w. s.progress.uploaded_parts p.file_md5 p.owner_id p.total_parts w.progress)))
        λ parts. pure-Does _)

  start_upload-Does :
      (p : InitiateParams) (tag : Text)
      → Does (Requests.start_upload s p tag) (Documents.start_upload s p tag)
  unfolding Requests.start_upload Documents.start_upload
  start_upload-Does p tag =
      bind-Does _ _ _ _ (atomic-Does (on_docs s (s.docs.create (Documents.new_document s p tag))))
        λ doc. pure-Does _

  find_upload-Does :
      (p : InitiateParams) → Does (Requests.find_upload s p) (Documents.find_upload s p)
  unfolding Requests.find_upload Documents.find_upload
  find_upload-Does p = bind-Does _ _ _ _ (resolve_tenant-Does p.owner_id p.tenant_tag) λ tag.
      proceed-Does _ _ _ _ (resume_upload-Does p)
        (λ e.
          if-Does (is_document e DocumentError.not_found) _ _ _ _ (start_upload-Does p tag)
            (fail-Does e))
        _ _ (atomic-Does (reading (λ w. s.docs.get_by_md5_and_owner p.file_md5 p.owner_id w.docs)))

  pub initiate_upload-Does :
      (p : InitiateParams) → Does (Requests.initiate_upload s p) (Documents.initiate_upload s p)
  unfolding Requests.initiate_upload Documents.initiate_upload
  initiate_upload-Does p =
      if-Does (ltb_ℤ s.limits.max_file_size p.total_size) _ _ _ _ (fail-Does _) (
        if-Does (not (s.limits.allowed_exts (file_ext s.unicode p.file_name))) _ _ _ _ (fail-Does _)
          (if-Does (leb_ℤ p.total_parts (pos 0) || p.file_md5 ==ᵗ []) _ _ _ _ (fail-Does _)
            (find_upload-Does p)))

  pub upload_part-Does :
      (owner id part total : ℤ) (r : Text) (size : ℤ)
      → Does
          (Requests.upload_part s owner id part total r size)
          (Documents.upload_part s owner id part total r size)
  unfolding Requests.upload_part Documents.upload_part
  upload_part-Does owner id part total r size = bind-Does _ _ _ _ (owned_doc-Does owner id) λ doc.
      if-Does (doc.upload_status == upload_status_merged) _ _ _ _ (pure-Does tt) (
        if-Does (ltb_ℤ part (pos 0) || leb_ℤ total part) _ _ _ _ (fail-Does _) (
          bind-Does _ _ _ _
            (atomic-Does (on_objects s (s.objects.put_part doc.file_md5 part r size)))
            λ _. atomic-Does _))

  finish_upload-Does :
      (owner : ℤ) (doc : Document) (key : Text) (total : ℤ)
      → Does
          (Requests.finish_upload s owner doc key total)
          (Documents.finish_upload s owner doc key total)
  unfolding Requests.finish_upload Documents.finish_upload
  finish_upload-Does owner doc key total =
      bind-Does _ _ _ _ (ignoring-Does (on_objects s (s.objects.remove_parts doc.file_md5 total)))
        λ _.
          bind-Does _ _ _ _ (ignoring-Does (on_progress s (s.progress.clear doc.file_md5 owner)))
            λ _.
              proceed-Does _ _ _ _ (λ _. pure-Does _) (λ _. pure-Does _) _ _
                (atomic-Does (Documents.publish_ingest s doc key))

  compose_upload-Does :
      (owner : ℤ) (doc : Document) (total : ℤ)
      → Does
          (Requests.compose_upload s owner doc total)
          (Documents.compose_upload s owner doc total)
  unfolding Requests.compose_upload Documents.compose_upload
  compose_upload-Does owner doc total =
      bind-Does _ _ _ _
        (atomic-Does (on_objects s (s.objects.compose_merged doc.file_md5 doc.file_name total)))
        λ (key, size).
          bind-Does _ _ _ _ (atomic-Does (on_docs s (s.docs.mark_merged doc.id size)))
            λ _. finish_upload-Does owner _ key total

  complete_found-Does :
      (owner total : ℤ) (doc : Document)
      → Does
          (Requests.complete_found s owner total doc)
          (Documents.complete_found s owner total doc)
  unfolding Requests.complete_found Documents.complete_found Requests.merge_upload
      Documents.merge_upload
  complete_found-Does owner total doc =
      if-Does (doc.upload_status == upload_status_merged) _ _ _ _ (pure-Does _) (
        bind-Does _ _ _ _
          (atomic-Does (reading (λ w. s.progress.all_uploaded doc.file_md5 owner total w.progress)))
          λ all_up. if-Does all_up _ _ _ _ (compose_upload-Does owner doc total) (fail-Does _))

  pub complete_upload-Does :
      (owner id total : ℤ)
      → Does
          (Requests.complete_upload s owner id total)
          (Documents.complete_upload s owner id total)
  unfolding Requests.complete_upload Documents.complete_upload
  complete_upload-Does owner id total =
      bind-Does _ _ _ _ (owned_doc-Does owner id) (complete_found-Does owner total)
