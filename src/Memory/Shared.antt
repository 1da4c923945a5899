-- ===== src/Memory/Shared.antt =====
-- Parts that are sent and merged, two users who upload the same file, and a listing, on the servers
-- in memory.
use ragkb.Base.{
  ◌≤ℤ◌, leb_ℤ, ℕ, ℤ, zero, suc, pos, negsuc, false, true, none, some, ◌≡◌, ◌≢◌, refl, ◌⊎◌,
  first_match, arith,
}
use ragkb.Text.{Text, lit}
use ragkb.Action.{ok}
use ragkb.Domain.Document.{DocumentListQuery, Document, has_live_id, upload_status_merged}
use ragkb.Infra.Minio.{remove_from}
use ragkb.Service.Documents.{initiate_upload, upload_part, complete_upload}
use ragkb.Service.Documents.{list_documents}
use ragkb.Service.Documents.Listing.{list_documents-bounds}
use ragkb.Service.Documents.Ports.{joined}
use ragkb.Service.Documents.Progress.{complete_upload-returns, upload_part-ok}
use ragkb.Service.Documents.Again.{overwritten_file, shared_parts}
use ragkb.Memory.Servers.{service, minio, Objects, Servers}
use ragkb.Memory.Tests.{params, after, notes, merged_notes, started, sent_first, sent_both, merged}

-- A second user uploads the same file, and then the first one completes.
unfoldable both_started : Servers
unfolding sent_both
both_started = after (initiate_upload service (record params { owner_id = pos 6 }) sent_both)

unfoldable both_sent : Servers
unfolding both_started
both_sent = after (
    upload_part service (pos 6) (pos 2) (pos 1) (pos 2) (lit "de") (pos 2) (
      after (upload_part service (pos 6) (pos 2) (pos 0) (pos 2) (lit "abc") (pos 3) both_started)))

unfoldable first_merged : Servers
unfolding both_sent merged
first_merged = after (complete_upload service (pos 5) (pos 1) (pos 2) both_sent)

second_notes : Document
second_notes = record notes { id = pos 2; owner_id = pos 6 }

remove_from-ok :
    (md5 : Text) (i n : ℕ) (o : Objects) → (remove_from minio (lit "ragkb") md5 i n o).0 ≡ ok tt
unfolding minio remove_from
remove_from-ok md5 i zero o = refl
remove_from-ok md5 i (suc n) o = remove_from-ok md5 (suc i) n _

remove_parts-ok :
    (md5 : Text) (total : ℤ) (o : Objects) → (service.objects.remove_parts md5 total o).0 ≡ ok tt
unfolding service
remove_parts-ok md5 (pos n) o = remove_from-ok md5 0 n o
remove_parts-ok md5 (negsuc n) o = refl

shared_parts_example :
    complete_upload service (pos 6) (pos 2) (pos 2) first_merged
    ≢ (ok (record second_notes { upload_status = upload_status_merged }, none), first_merged)
unfolding first_merged second_notes
shared_parts_example =
    shared_parts service (pos 5) (pos 1) (pos 6) (pos 2) 1 1 both_sent first_merged first_merged
      notes second_notes merged_notes (record second_notes { upload_status = upload_status_merged })
      none none remove_parts-ok refl (λ h. ground arith) refl refl (λ h. ground arith) refl

-- Then the second one sends other bytes as the first part, and completes.
unfoldable resent : Servers
unfolding first_merged
resent = after (
    upload_part service (pos 6) (pos 2) (pos 1) (pos 2) (lit "de") (pos 2) (
      after (upload_part service (pos 6) (pos 2) (pos 0) (pos 2) (lit "XYZ") (pos 3) first_merged)))

unfoldable second_merged : Servers
unfolding resent
second_merged = after (complete_upload service (pos 6) (pos 2) (pos 2) resent)

first_row : Document
first_row = record merged_notes { updated_at = 9 }

overwritten_file_example :
    (n : ℕ) × (content : Text) × (joined (service.objects.part resent.objects (lit "abc")) 0 n
      ≡ some content)
    × (service.objects.merged second_merged.objects (lit "abc") (lit "notes.MD") ≡ some content)
    × (first_match (has_live_id (pos 1)) (service.docs.rows second_merged.docs) ≡ some first_row)
unfolding second_merged first_row second_notes
overwritten_file_example =
    overwritten_file service (pos 6) (pos 2) (pos 1) (pos 2) resent second_merged first_row
      second_notes (record second_notes { upload_status = upload_status_merged }) none refl refl
      (λ h. ground arith) (λ h. ground arith) refl refl refl

complete_upload-returns_example :
    (complete_upload service (pos 5) (pos 1) (pos 2) sent_both).0
    ≡ ok (record notes { upload_status = upload_status_merged; total_size = pos 5 }, none)
unfolding sent_both
complete_upload-returns_example =
    complete_upload-returns service (pos 5) (pos 1) (pos 2) (pos 5) (lit "merged/abc/notes.MD")
      notes sent_both refl refl (λ h. ground arith) refl refl refl
      (λ o p h. ground (arith, remove_parts-ok (lit "abc") (pos 2) o)) (λ p h. ground arith)
      (λ value. refl)

upload_part-ok_example :
    (doc : Document) × (first_match (has_live_id (pos 1)) (service.docs.rows started.docs)
      ≡ some doc)
    × (doc.owner_id ≡ pos 5)
    × (((doc.upload_status ≡ upload_status_merged) × (sent_first ≡ started))
        ⊎ ((doc.upload_status ≢ upload_status_merged)
            × (i : ℕ) × (pos 0 ≡ pos i)
            × (leb_ℤ (pos 2) (pos 0) ≡ false)
            × (service.objects.part sent_first.objects doc.file_md5 i ≡ some (lit "abc"))
            × (service.progress.has sent_first.progress doc.file_md5 (pos 5) i ≡ true)
            × (sent_first.docs ≡ started.docs)))
unfolding sent_first
upload_part-ok_example =
    upload_part-ok service (pos 5) (pos 1) (pos 0) (pos 2) (lit "abc") started sent_first tt refl

list_documents-bounds_example :
    (q : DocumentListQuery) × (q.owner_id ≡ pos 5)
    × (pos 1 ≤ℤ q.page)
    × (pos 1 ≤ℤ q.size)
    × (q.size ≤ℤ pos 100)
    × ((q.page ≡ pos 0) ⊎ ¬ (pos 1 ≤ℤ pos 0))
    × ((q.size ≡ pos 500) ⊎ ¬ (pos 1 ≤ℤ pos 500) ⊎ ¬ (pos 500 ≤ℤ pos 100))
    × (list_documents service (pos 5) (pos 0) (pos 500) started
        ≡ (service.docs.list_by_owner q started.docs, started))
list_documents-bounds_example = list_documents-bounds service (pos 5) (pos 0) (pos 500) started
