-- ===== src/Service/Documents/Delete.antt =====
-- `DeleteDocument` of internal/service/document/document.go.
use ragkb.Base.{
  ℕ, ℤ, ◌≡◌, ap, ◌∙◌, inl, inr, none, some, [], ◌∷◌, ◌++◌, arith, ◌==ℤ◌, ==ℤ_iff, Bool-cases,
  first_match,
}
use ragkb.Action.{ok, Result-cases}
use ragkb.Json.{marshal}
use ragkb.Domain.Document.{Document, has_id, has_live_id, with_deleted, event_type_file_delete}
use ragkb.Domain.Document.Repo.{update_rows, first_match-update_none}
use ragkb.Service.Documents.Ports.{Message}
use ragkb.Service.Documents.Types.{delete_fields}
use ragkb.Service.Documents.{DocumentService, World, owned_doc_any, publish_delete, delete_document}

module _ {R T O P K : Type 0} (s : DocumentService R T O P K) where
  -- The message that asks for the clean-up of a deleted document.
  abbrev pub removal : Document → Message
  removal doc = record {
    key = doc.file_md5;
    value = marshal (
        delete_fields (record {
          event_type = event_type_file_delete;
          document_id = doc.id;
          file_md5 = doc.file_md5;
          file_name = doc.file_name;
          merged_key = s.objects.merged_key doc.file_md5 doc.file_name;
        }));
  }

  -- A deletion that returns no error was asked for by the owner of a row with that identifier. Rows
  -- with it that were live carry a time of deletion now, no other row has changed, none with it can
  -- be found any more, and the request to clean up is the newest message.
  pub delete_document-ok :
      (owner id : ℤ) (w w' : World R T O P K) (u : Unit {0})
      → delete_document s owner id w ≡ (ok u, w')
      → (doc : Document) × (at : ℕ) × (t : ℕ) × (first_match (has_id id) (s.docs.rows w.docs)
          ≡ some doc)
        × (doc.owner_id ≡ owner)
        × (s.docs.rows w'.docs
            ≡ update_rows (has_live_id id) (with_deleted at t) (s.docs.rows w.docs))
        × (first_match (has_live_id id) (s.docs.rows w'.docs) ≡ none)
        × (s.producer.published w'.producer ≡ s.producer.published w.producer ++ removal doc ∷ [])
  unfolding delete_document owned_doc_any publish_delete
  delete_document-ok owner id w w' u h = elim (Result-cases (s.docs.get_by_id_any id w.docs)) [
    | inl (doc, read) ↦ elim (Bool-cases (doc.owner_id ==ℤ owner)) [
      | inl mine ↦
          let q = s.docs.soft_delete id w.docs in
          elim (Result-cases q.0) [
            | inl (v, deleted) ↦
                let (at, t, rows) = s.docs.soft_delete_ok id w.docs q.1 v (λ i. (deleted i, q.1)) in
                let kept : w'.docs ≡ q.1 = ground arith in
                let after = ap s.docs.rows kept ∙ rows in
                let gone : first_match (has_live_id id)
                      (update_rows (has_live_id id) (with_deleted at t) (s.docs.rows w.docs))
                    ≡ none =
                  first_match-update_none (has_live_id id) (has_live_id id) (with_deleted at t)
                    (λ x. ground arith) (s.docs.rows w.docs) in
                (
                  doc,
                  at,
                  t,
                  s.docs.get_by_id_any_ok id w.docs doc read,
                  (==ℤ_iff _ _).0 mine,
                  after,
                  rw after gone,
                  ground (
                    arith,
                    s.producer.publish_ok doc.file_md5 (removal doc).value w.producer w'.producer
                        tt,
                  ),
                )
            | inr (inl (x, failed)) ↦ absurd (ground arith)
            | inr (inr (x, failed)) ↦ absurd (ground arith)
          ]
      | inr foreign ↦ absurd (ground arith)
    ]
    | inr (inl (x, failed)) ↦ absurd (ground arith)
    | inr (inr (x, failed)) ↦ absurd (ground arith)
  ]
