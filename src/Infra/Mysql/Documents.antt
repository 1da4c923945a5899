-- ===== src/Infra/Mysql/Documents.antt =====
-- internal/infra/mysql/document_repo.go and errors.go, over a table `t` of documents.
pub mod Laws
use ragkb.Base.{ℤ, pos, ◌-ℤ◌, ◌*ℤ◌, wrap_64, List, length, take, ltb, if◌then◌else◌}
use ragkb.Text.{Text, Unicode, trim_space}
use ragkb.Fault.{Error, DocumentError, document, is_record_not_found, is_duplicate_key}
use ragkb.Action.{Result, ok, err, panic, Action, attempt, pure, fail}
use ragkb.Domain.Document.{
  Document, DocumentListQuery, has_id, has_live_id, has_md5_and_owner, has_live_owner, with_merged,
  with_deleted, with_processing, with_done, with_failed,
}
use ragkb.Domain.Document.Repo.{created, has_same_key}
use ragkb.Text.Collation.{Collation}
use ragkb.Infra.Mysql.{Schema, Table}

-- The table `documents` of migrations/init.sql.
abbrev pub documents : Collation → Schema Document
documents c = record { has_id = has_id; created = created; clash = has_same_key c }

-- The three lookups: gorm.ErrRecordNotFound becomes ErrNotFound.
unfoldable pub or_not_found : {A : Type 0} → Result A → Result A
or_not_found (ok d) = ok d
or_not_found (err e) = err (if is_record_not_found e then document DocumentError.not_found else e)
or_not_found (panic p) = panic p

module _ {S : Type 0} (u : Unicode) (c : Collation) (t : Table S (documents c)) where
  unfoldable pub create : Document → Action S Document
  create d =
      attempt (t.create d) pure
        λ e. if is_duplicate_key e then fail (document DocumentError.conflict) else fail e

  unfoldable pub get_by_id : ℤ → S → Result Document
  unfolding or_not_found
  get_by_id id s = or_not_found (t.first (has_live_id id) s)

  unfoldable pub get_by_id_any : ℤ → S → Result Document
  unfolding or_not_found
  get_by_id_any id s = or_not_found (t.first (has_id id) s)

  unfoldable pub get_by_md5_and_owner : Text → ℤ → S → Result Document
  unfolding or_not_found
  get_by_md5_and_owner md5 owner s = or_not_found (t.first (has_md5_and_owner c md5 owner) s)

  -- `(q.Page - 1) * q.Size` in Go's `int`.
  unfoldable pub offset : DocumentListQuery → ℤ
  offset q = wrap_64 (wrap_64 (q.page -ℤ pos 1) *ℤ q.size)

  unfoldable pub list_by_owner : DocumentListQuery → S → Result (List Document × ℤ)
  list_by_owner q s = elim (t.count (has_live_owner q.owner_id) s) [
    | ok total ↦ elim (t.page (has_live_owner q.owner_id) (offset q) q.size s) [
      | ok docs ↦ ok (docs, total)
      | err e ↦ err e
      | panic p ↦ panic p
    ]
    | err e ↦ err e
    | panic p ↦ panic p
  ]

  unfoldable pub mark_merged : ℤ → ℤ → Action S (Unit {0})
  mark_merged id size = t.updates (has_id id) (with_merged size)

  unfoldable pub mark_ingest_processing : ℤ → Action S (Unit {0})
  mark_ingest_processing id = t.updates (has_live_id id) with_processing

  unfoldable pub mark_ingest_done : ℤ → ℤ → Text → Action S (Unit {0})
  mark_ingest_done id chunks model = t.updates (has_live_id id) (with_done chunks model)

  -- The reason is cut to the 512 bytes of `error_msg`.
  unfoldable pub failure_message : Text → Text
  failure_message text =
      let trimmed = trim_space u text in
      if ltb 512 (length trimmed) then take 512 trimmed else trimmed

  unfoldable pub mark_ingest_failed : ℤ → Text → Action S (Unit {0})
  mark_ingest_failed id text = t.updates (has_live_id id) (with_failed (failure_message text))

  unfoldable pub soft_delete : ℤ → Action S (Unit {0})
  soft_delete id s = t.updates (has_live_id id) (with_deleted (t.now s)) s

  unfoldable pub hard_delete : ℤ → Action S (Unit {0})
  hard_delete id = t.remove (has_id id)
