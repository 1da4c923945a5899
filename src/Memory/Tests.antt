-- ===== src/Memory/Tests.antt =====
-- The model run on servers in memory: one upload from its start to its event.
use ragkb.Base.{pos, false, none, ◌≡◌, refl, [], ◌∷◌}
use ragkb.Text.{lit, last_index, to_lower}
use ragkb.Fault.{is_document}
use ragkb.Action.{Result, ok}
use ragkb.Domain.Document.{Document, upload_status_merged}
use ragkb.Service.Documents.Types.{InitiateParams, file_ext}
use ragkb.Service.Documents.{
  initiate_upload, find_upload, resume_upload, start_upload, resolve_tenant, upload_part,
  complete_upload, delete_document, owned_doc, owned_doc_any, complete_found, merge_upload,
  compose_upload, finish_upload, publish_ingest, publish_delete,
}
use ragkb.Memory.Servers.{service, Servers, empty}

abbrev pub params : InitiateParams
params = record {
  owner_id = pos 5;
  file_md5 = lit "abc";
  file_name = lit "notes.MD";
  total_size = pos 5;
  total_parts = pos 2;
  tenant_tag = lit "";
  is_public = false;
}

-- All that a run of the service computes with.
abbrev pub after : {A : Type 0} → Result A × Servers → Servers
after p = p.1

unfoldable pub started : Servers
unfolding service file_ext last_index to_lower initiate_upload find_upload resume_upload
    start_upload resolve_tenant is_document owned_doc upload_part complete_upload complete_found
    merge_upload compose_upload finish_upload publish_ingest publish_delete owned_doc_any
    delete_document
started = after (initiate_upload service params empty)

unfoldable pub sent_first : Servers
unfolding started
sent_first = after (upload_part service (pos 5) (pos 1) (pos 0) (pos 2) (lit "abc") (pos 3) started)

unfoldable pub sent_both : Servers
unfolding sent_first
sent_both =
    after (upload_part service (pos 5) (pos 1) (pos 1) (pos 2) (lit "de") (pos 2) sent_first)

abbrev pub notes : Document
notes = record {
  id = pos 1;
  file_md5 = lit "abc";
  file_name = lit "notes.MD";
  file_ext = lit "md";
  total_size = pos 5;
  upload_status = 0;
  ingest_status = 0;
  chunk_count = pos 0;
  embedding_model = none;
  owner_id = pos 5;
  tenant_tag = lit "team";
  is_public = false;
  error_msg = none;
  created_at = 7;
  updated_at = 7;
  deleted_at = none;
}

abbrev pub merged_notes : Document
merged_notes = record notes { upload_status = upload_status_merged }

started_notes : started.docs ≡ notes ∷ []
unfolding started
started_notes = refl

unfoldable pub merged : Servers
unfolding sent_both
merged = after (complete_upload service (pos 5) (pos 1) (pos 2) sent_both)

pub complete_run :
    complete_upload service (pos 5) (pos 1) (pos 2) sent_both ≡ (ok (merged_notes, none), merged)
unfolding merged
complete_run = refl
