-- ===== src/Domain/Document.antt =====
-- internal/domain/document: document.go, event.go and the query of repository.go.
pub mod Repo
use ragkb.Base.{ℕ, ℤ, Bool, true, false, Option, none, some, ◌&&◌, ◌==ℤ◌}
use ragkb.Text.{Text, lit}
use ragkb.Text.Collation.{Collation}

abbrev pub upload_status_uploading : ℕ
upload_status_uploading = 0

abbrev pub upload_status_merged : ℕ
upload_status_merged = 1

abbrev pub ingest_status_pending : ℕ
ingest_status_pending = 0

abbrev pub ingest_status_processing : ℕ
ingest_status_processing = 1

abbrev pub ingest_status_done : ℕ
ingest_status_done = 2

abbrev pub ingest_status_failed : ℕ
ingest_status_failed = 3

-- Points in time are numbers.
pub record Document : Type 0 where
  pub id : ℤ
  pub file_md5 : Text
  pub file_name : Text
  pub file_ext : Text
  pub total_size : ℤ
  pub upload_status : ℕ
  pub ingest_status : ℕ
  pub chunk_count : ℤ
  pub embedding_model : Option Text
  pub owner_id : ℤ
  pub tenant_tag : Text
  pub is_public : Bool
  pub error_msg : Option Text
  pub created_at : ℕ
  pub updated_at : ℕ
  pub deleted_at : Option ℕ

abbrev pub event_type_file_delete : Text
event_type_file_delete = lit "file_delete"

pub record FileIngestEvent : Type 0 where
  pub document_id : ℤ
  pub file_md5 : Text
  pub file_name : Text
  pub file_ext : Text
  pub merged_key : Text
  pub owner_id : ℤ
  pub tenant_tag : Text
  pub is_public : Bool

pub record FileDeleteEvent : Type 0 where
  pub event_type : Text
  pub document_id : ℤ
  pub file_md5 : Text
  pub file_name : Text
  pub merged_key : Text

pub record DocumentListQuery : Type 0 where
  pub owner_id : ℤ
  pub page : ℤ
  pub size : ℤ

-- The conditions by which the repository selects rows.
abbrev pub is_live : Document → Bool
is_live d = elim d.deleted_at [ none ↦ true | some _ ↦ false ]

-- id = ?
abbrev pub has_id : ℤ → Document → Bool
has_id id d = d.id ==ℤ id

-- id = ? AND deleted_at IS NULL
abbrev pub has_live_id : ℤ → Document → Bool
has_live_id id d = d.id ==ℤ id && is_live d

-- file_md5 = ? AND owner_id = ? AND deleted_at IS NULL
abbrev pub has_md5_and_owner : Collation → Text → ℤ → Document → Bool
has_md5_and_owner c md5 owner d = (c.same d.file_md5 md5 && d.owner_id ==ℤ owner) && is_live d

-- owner_id = ? AND deleted_at IS NULL
abbrev pub has_live_owner : ℤ → Document → Bool
has_live_owner owner d = d.owner_id ==ℤ owner && is_live d

-- What a statement sets in each row that it selects, at the time `t` that the library notes in
-- `updated_at`.
abbrev pub with_merged : ℤ → ℕ → Document → Document
with_merged size t d = record d {
  upload_status = upload_status_merged;
  total_size = size;
  updated_at = t;
}

abbrev pub with_deleted : ℕ → ℕ → Document → Document
with_deleted at t d = record d { deleted_at = some at; updated_at = t }

abbrev pub with_processing : ℕ → Document → Document
with_processing t d = record d {
  ingest_status = ingest_status_processing;
  error_msg = none;
  updated_at = t;
}

abbrev pub with_done : ℤ → Text → ℕ → Document → Document
with_done chunks model t d = record d {
  ingest_status = ingest_status_done;
  chunk_count = chunks;
  embedding_model = some model;
  error_msg = none;
  updated_at = t;
}

abbrev pub with_failed : Text → ℕ → Document → Document
with_failed text t d = record d {
  ingest_status = ingest_status_failed;
  error_msg = some text;
  updated_at = t;
}
