-- ===== src/Service/Documents/Types.antt =====
-- The values that internal/service/document/document.go passes about: the limits, parameters and
-- results of its calls, and the fields of its events.
use ragkb.Base.{
  ℕ, ℤ, ◌+◌, Option, Bool, none, some, List, [], ◌∷◌, ◌==◌, length, drop, String, if◌then◌else◌,
}
use ragkb.Text.{Text, Unicode, last_index, to_lower}
use ragkb.Json.{Value, text, number, bool}
use ragkb.Domain.Document.{Document, FileIngestEvent, FileDeleteEvent}

-- A file name's extension without the dot, in lower case.
unfoldable pub file_ext : Unicode → Text → Text
file_ext u name = elim (last_index b'.' name) [
  | none ↦ []
  | some i ↦ if i + 1 == length name then [] else to_lower u (drop (i + 1) name)
]

pub record UploadLimits : Type 0 where
  pub max_file_size : ℤ
  pub allowed_exts : Text → Bool

pub record InitiateResult : Type 0 where
  pub document_id : ℤ
  pub instant_hit : Bool
  -- A nil slice is `none`.
  pub uploaded_parts : Option (List ℕ)

pub record InitiateParams : Type 0 where
  pub owner_id : ℤ
  pub file_md5 : Text
  pub file_name : Text
  pub total_size : ℤ
  pub total_parts : ℤ
  pub tenant_tag : Text
  pub is_public : Bool

-- The values of the structs by their JSON tags.
unfoldable pub ingest_fields : FileIngestEvent → List (String × Value)
ingest_fields e =
    ("documentId", number e.document_id)
    ∷ ("fileMd5", text e.file_md5)
    ∷ ("fileName", text e.file_name)
    ∷ ("fileExt", text e.file_ext)
    ∷ ("mergedKey", text e.merged_key)
    ∷ ("ownerId", number e.owner_id)
    ∷ ("tenantTag", text e.tenant_tag)
    ∷ ("isPublic", bool e.is_public)
    ∷ []

unfoldable pub delete_fields : FileDeleteEvent → List (String × Value)
delete_fields e =
    ("eventType", text e.event_type)
    ∷ ("documentId", number e.document_id)
    ∷ ("fileMd5", text e.file_md5)
    ∷ ("fileName", text e.file_name)
    ∷ ("mergedKey", text e.merged_key)
    ∷ []

-- The event of a merged document.
abbrev pub ingest_event : Document → Text → FileIngestEvent
ingest_event doc merged_key = record {
  document_id = doc.id;
  file_md5 = doc.file_md5;
  file_name = doc.file_name;
  file_ext = doc.file_ext;
  merged_key = merged_key;
  owner_id = doc.owner_id;
  tenant_tag = doc.tenant_tag;
  is_public = doc.is_public;
}
