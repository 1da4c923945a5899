-- ===== src/Service/Documents/Progress.antt =====
-- Calls of internal/service/document/document.go that come to their end: a completion whose clean-up
-- fails, and a part that is stored.
use ragkb.Base.{
  ℕ, ℤ, pos, negsuc, ◌≡◌, ◌≢◌, inl, inr, refl, true, false, some, none, arith, ◌==◌, ==ℤ_refl,
  ltb_ℤ, leb_ℤ, length, Bool-cases, first_match, ◌⊎◌, ◌∙◌,
}
use ragkb.Text.{Text, ==ᵗ_refl}
use ragkb.Action.{ok, panic, Result-cases, ◌>>◌}
use ragkb.Json.{marshal}
use ragkb.Domain.Document.{Document, has_live_id, upload_status_merged}
use ragkb.Service.Documents.Types.{ingest_event, ingest_fields}
use ragkb.Service.Documents.Access.{owned_doc-ok}
use ragkb.Service.Documents.{
  DocumentService, World, owned_doc, publish_ingest, finish_upload, compose_upload, merge_upload,
  complete_found, complete_upload, upload_part, on_objects, on_progress,
}

natural : (z : ℤ) → ltb_ℤ z (pos 0) ≡ false → (n : ℕ) × (z ≡ pos n)
natural (pos n) h = (n, refl)
natural (negsuc n) h = absurd (ground arith)

module _ {R T O P K : Type 0} (s : DocumentService R T O P K) where
  finish_upload-returns :
      (owner : ℤ) (doc : Document) (key : Text) (total : ℤ) (w : World R T O P K)
      → ((p : Text) → (s.objects.remove_parts doc.file_md5 total w.objects).0 ≢ panic p)
      → ((p : Text) → (s.progress.clear doc.file_md5 owner w.progress).0 ≢ panic p)
      → (s.producer.publish doc.file_md5
          (marshal (ingest_fields (ingest_event doc key)))
          w.producer).0
        ≡ ok tt
      → (finish_upload s owner doc key total w).0 ≡ ok (doc, none)
  unfolding finish_upload publish_ingest
  finish_upload-returns owner doc key total w removes clears publishes =
      elim (Result-cases (s.objects.remove_parts doc.file_md5 total w.objects).0) [
        | inr (inr (x, died)) ↦ absurd (removes x died)
        | inl (a, removed) ↦
            elim (Result-cases (s.progress.clear doc.file_md5 owner w.progress).0) [
              | inr (inr (x, died)) ↦ absurd (clears x died)
              | inl (b, cleared) ↦ ground arith
              | inr (inl (y, left)) ↦ ground arith
            ]
        | inr (inl (a, failed)) ↦
            elim (Result-cases (s.progress.clear doc.file_md5 owner w.progress).0) [
              | inr (inr (x, died)) ↦ absurd (clears x died)
              | inl (b, cleared) ↦ ground arith
              | inr (inl (y, left)) ↦ ground arith
            ]
      ]

  -- A completion of the owner's open document returns it merged and without an error, where the parts
  -- are marked, and reading the row, the merge, its mark and the event succeed: it makes no
  -- difference whether the clean-up of parts and progress fails, if only it does not panic.
  pub complete_upload-returns :
      (owner id total size : ℤ) (key : Text) (doc : Document) (w : World R T O P K)
      → s.docs.get_by_id id w.docs ≡ ok doc
      → doc.owner_id ≡ owner
      → doc.upload_status ≢ upload_status_merged
      → s.progress.all_uploaded doc.file_md5 owner total w.progress ≡ ok true
      → (s.objects.compose_merged doc.file_md5 doc.file_name total w.objects).0 ≡ ok (key, size)
      → (s.docs.mark_merged doc.id size w.docs).0 ≡ ok tt
      → ((o : O) (p : Text) → (s.objects.remove_parts doc.file_md5 total o).0 ≢ panic p)
      → ((p : Text) → (s.progress.clear doc.file_md5 owner w.progress).0 ≢ panic p)
      → ((value : Text) → (s.producer.publish doc.file_md5 value w.producer).0 ≡ ok tt)
      → (complete_upload s owner id total w).0
        ≡ ok (record doc { upload_status = upload_status_merged; total_size = size }, none)
  unfolding complete_upload complete_found merge_upload compose_upload owned_doc
  complete_upload-returns owner id total size key doc w read mine open_still all composed marked
        removes clears publishes =
      let doc' = record doc { upload_status = upload_status_merged; total_size = size } in
      let p = s.objects.compose_merged doc.file_md5 doc.file_name total w.objects in
      let q = s.docs.mark_merged doc.id size w.docs in
      let w' : World R T O P K = record w { objects = p.1; docs = q.1 } in
      let end : (finish_upload s owner doc' key total w').0 ≡ ok (doc', none) =
        finish_upload-returns owner doc' key total w' (removes p.1) clears (publishes _) in
      ground (arith, ==ℤ_refl owner)

  store_part-ok :
      (owner : ℤ) (doc : Document) (i : ℕ) (r : Text) (w w' : World R T O P K) (u : Unit {0})
      → (on_objects s (s.objects.put_part doc.file_md5 (pos i) r (pos (length r)))
            >> on_progress s (s.progress.mark_part doc.file_md5 owner (pos i)))
          w
        ≡ (ok u, w')
      → (s.objects.part w'.objects doc.file_md5 i ≡ some r)
        × (s.progress.has w'.progress doc.file_md5 owner i ≡ true)
        × (w'.docs ≡ w.docs)
  store_part-ok owner doc i r w w' u h =
      let p = s.objects.put_part doc.file_md5 (pos i) r (pos (length r)) w.objects in
      let q = s.progress.mark_part doc.file_md5 owner (pos i) w.progress in
      elim (Result-cases p.0) [
        | inl (a, stored) ↦ elim (Result-cases q.0) [
          | inl (b, marked) ↦
              let (part, _) =
                s.objects.put_part_ok doc.file_md5 i r w.objects p.1 a (λ t. (stored t, p.1))
                  doc.file_md5 in
              let mark =
                s.progress.mark_part_ok doc.file_md5 owner i w.progress q.1 b (λ t. (marked t, q.1))
                  doc.file_md5 owner i in
              let objects : w'.objects ≡ p.1 = ground arith in
              let progress : w'.progress ≡ q.1 = ground arith in
              (
                rw objects (part i ∙ ground (arith, ==ᵗ_refl doc.file_md5)),
                rw progress (mark ∙ ground (arith, ==ᵗ_refl doc.file_md5, ==ℤ_refl owner)),
                ground arith,
              )
          | inr (inl (x, failed)) ↦ absurd (ground arith)
          | inr (inr (x, failed)) ↦ absurd (ground arith)
        ]
        | inr (inl (x, failed)) ↦ absurd (ground arith)
        | inr (inr (x, failed)) ↦ absurd (ground arith)
      ]

  -- A part that is accepted, from a reader of the size that the call tells, was sent by the owner of a
  -- live document. That document is merged already and nothing has changed; or the number is one of
  -- the parts, the part's object is what the reader gave, and the part is marked for the owner.
  pub upload_part-ok :
      (owner id number total : ℤ) (r : Text) (w w' : World R T O P K) (u : Unit {0})
      → upload_part s owner id number total r (pos (length r)) w ≡ (ok u, w')
      → (doc : Document) × (first_match (has_live_id id) (s.docs.rows w.docs) ≡ some doc)
        × (doc.owner_id ≡ owner)
        × (((doc.upload_status ≡ upload_status_merged) × (w' ≡ w))
            ⊎ ((doc.upload_status ≢ upload_status_merged)
                × (i : ℕ) × (number ≡ pos i)
                × (leb_ℤ total number ≡ false)
                × (s.objects.part w'.objects doc.file_md5 i ≡ some r)
                × (s.progress.has w'.progress doc.file_md5 owner i ≡ true)
                × (w'.docs ≡ w.docs)))
  unfolding upload_part
  upload_part-ok owner id number total r w w' u h = elim (Result-cases (owned_doc s owner id w).0) [
    | inl (doc, found) ↦
        let w₁ = (owned_doc s owner id w).1 in
        let (same, read, mine) = owned_doc-ok s owner id w w₁ doc (λ t. (found t, w₁)) in
        let row = s.docs.get_by_id_ok id w.docs doc read in
        elim (Bool-cases (doc.upload_status == upload_status_merged)) [
          | inl merged ↦ (doc, row, mine, inl (ground arith))
          | inr open_still ↦ elim (Bool-cases (ltb_ℤ number (pos 0))) [
            | inl negative ↦ absurd (ground arith)
            | inr from_zero ↦ elim (Bool-cases (leb_ℤ total number)) [
              | inl beyond ↦ absurd (ground arith)
              | inr below ↦
                  let (i, is) = natural number from_zero in
                  let rest : (on_objects s
                            (s.objects.put_part doc.file_md5 number r (pos (length r)))
                          >> on_progress s (s.progress.mark_part doc.file_md5 owner number))
                        w
                      ≡ (ok u, w') =
                    ground arith in
                  let (part, mark, kept) = store_part-ok owner doc i r w w' u (rw is at rest) in
                  (doc, row, mine, inr (ground arith, i, is, below, part, mark, kept))
            ]
          ]
        ]
    | inr (inl (x, failed)) ↦ absurd (ground arith)
    | inr (inr (x, failed)) ↦ absurd (ground arith)
  ]
