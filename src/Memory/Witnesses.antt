-- ===== src/Memory/Witnesses.antt =====
-- The theorems about the document service, applied to runs on the servers in memory.
use ragkb.Base.{
  ℕ, pos, false, true, none, some, ◌≡◌, ◌≢◌, refl, [], ◌∷◌, ◌++◌, ◌⊎◌, Option, first_match,
}
use ragkb.Text.{Text, lit}
use ragkb.Fault.{Error, wrapped, other, message}
use ragkb.Action.{ok}
use ragkb.Domain.Document.{Document, has_live_id, has_id, upload_status_merged, with_deleted}
use ragkb.Domain.Document.Repo.{update_rows}
use ragkb.Service.Documents.Types.{InitiateParams}
use ragkb.Service.Documents.{initiate_upload, complete_upload, delete_document}
use ragkb.Service.Documents.Complete.{Merges, complete_upload-joins}
use ragkb.Service.Documents.Later.{Later}
use ragkb.Service.Documents.Again.{lost_event}
use ragkb.Service.Documents.Initiate.{IsAdmitted, Initiated, initiate_upload-Initiated}
use ragkb.Service.Documents.Refusals.{deleted_blocks_upload}
use ragkb.Service.Documents.Delete.{removal, delete_document-ok}
use ragkb.Handler.{respond_error}
use ragkb.Handler.Laws.{respond_error-text}
use ragkb.Memory.Servers.{service, Servers, empty}
use ragkb.Memory.Tests.{params, after, merged_notes, started, sent_both, merged, complete_run}

complete_upload-joins_example :
    (doc : Document) × (first_match (has_live_id (pos 1)) (service.docs.rows sent_both.docs)
      ≡ some doc)
    × (doc.owner_id ≡ pos 5)
    × (((doc.upload_status ≡ upload_status_merged)
          × (merged_notes ≡ doc)
          × (◌≡◌ {A = Option Error} none none)
          × (merged ≡ sent_both))
        ⊎ ((doc.upload_status ≢ upload_status_merged)
            × Merges service (pos 5) doc (pos 2) sent_both merged merged_notes none))
complete_upload-joins_example =
    complete_upload-joins service (pos 5) (pos 1) (pos 2) sent_both merged merged_notes none
      complete_run

offline : Servers
offline = record sent_both { producer = record { log = []; up = false } }

unannounced : Servers
unfolding merged offline
unannounced = after (complete_upload service (pos 5) (pos 1) (pos 2) offline)

refused_connection : Error
refused_connection =
    wrapped (lit "publish ingest event for document 1: ")
      (wrapped (lit "write kafka message: ") (other (lit "dial tcp: connection refused")))

unannounced_run :
    complete_upload service (pos 5) (pos 1) (pos 2) offline
    ≡ (ok (merged_notes, some refused_connection), unannounced)
unfolding unannounced refused_connection
unannounced_run = refl

-- The broker is up again, and another document has been created.
another : Document
another = record merged_notes { file_md5 = lit "xyz" }

announceable : Servers
announceable = record unannounced {
  docs = (service.docs.create another unannounced.docs).1;
  producer = record { log = []; up = true };
}

lost_event_example : (complete_upload service (pos 5) (pos 1) (pos 1) announceable).1 ≡ announceable
unfolding announceable
lost_event_example =
    lost_event service (pos 5) (pos 1) (pos 2) (pos 5) (pos 1) offline unannounced announceable
      merged_notes refused_connection unannounced_run (Later.creates another Later.here)

initiate_upload-Initiated_example :
    (a : IsAdmitted service params) × (tag : Text) × (service.tenants.is_in empty.tenants
        (pos 5)
        tag
      ≡ true)
    × Initiated service params a.more tag empty started
        (record { document_id = pos 1; instant_hit = false; uploaded_parts = some [] })
unfolding started
initiate_upload-Initiated_example =
    initiate_upload-Initiated service params empty started
      (record { document_id = pos 1; instant_hit = false; uploaded_parts = some [] }) refl

large_params : InitiateParams
large_params = record params { total_size = pos 500 }

unfoldable deleted : Servers
unfolding merged
deleted = after (delete_document service (pos 5) (pos 1) merged)

delete_document-ok_example :
    (doc : Document) × (at : ℕ) × (t : ℕ) × (first_match
        (has_id (pos 1))
        (service.docs.rows merged.docs)
      ≡ some doc)
    × (doc.owner_id ≡ pos 5)
    × (service.docs.rows deleted.docs
        ≡ update_rows (has_live_id (pos 1)) (with_deleted at t) (service.docs.rows merged.docs))
    × (first_match (has_live_id (pos 1)) (service.docs.rows deleted.docs) ≡ none)
    × (service.producer.published deleted.producer
        ≡ service.producer.published merged.producer ++ removal service doc ∷ [])
unfolding deleted
delete_document-ok_example = delete_document-ok service (pos 5) (pos 1) merged deleted tt refl

deleted_notes : Document
deleted_notes = record merged_notes { updated_at = 9; deleted_at = some 8 }

deleted_blocks_upload_example :
    initiate_upload service params deleted
    ≢ (ok (record { document_id = pos 2; instant_hit = false; uploaded_parts = some [] }), deleted)
unfolding deleted deleted_notes
deleted_blocks_upload_example =
    deleted_blocks_upload service params deleted deleted
      (record { document_id = pos 2; instant_hit = false; uploaded_parts = some [] }) deleted_notes
      refl refl

respond_error-text_example :
    ((respond_error (other (lit "dial tcp"))).status
      ≡ (respond_error (other (lit "dial tcp"))).code)
    × ((((respond_error (other (lit "dial tcp"))).status ≡ 500)
          × ((respond_error (other (lit "dial tcp"))).text ≡ lit "internal server error"))
        ⊎ (((respond_error (other (lit "dial tcp"))).status ≢ 500)
            × ((respond_error (other (lit "dial tcp"))).text ≡ message (other (lit "dial tcp")))))
respond_error-text_example = respond_error-text (other (lit "dial tcp"))
