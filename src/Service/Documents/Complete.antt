-- ===== src/Service/Documents/Complete.antt =====
-- `CompleteUpload` of internal/service/document/document.go.
use ragkb.Base.{
  ℕ, ℤ, pos, ◌<◌, ◌≡◌, ◌≢◌, refl, sym, subst, ap, ◌∙◌, ◌⊎◌, inl, inr, true, Option, none, some, [],
  ◌∷◌, ◌++◌, arith, ◌==◌, length, Bool-cases, first_match,
}
use ragkb.Text.{Text}
use ragkb.Fault.{Error}
use ragkb.Action.{ok, Result-cases, >>=-eq-ok}
use ragkb.Json.{marshal}
use ragkb.Domain.Document.{Document, has_id, has_live_id, with_merged, upload_status_merged}
use ragkb.Domain.Document.Repo.{update_rows}
use ragkb.Service.Documents.Ports.{joined, Message}
use ragkb.Service.Documents.Types.{ingest_event, ingest_fields}
use ragkb.Service.Documents.Access.{owned_doc-ok}
use ragkb.Service.Documents.{
  DocumentService, World, owned_doc, publish_ingest, finish_upload, compose_upload, merge_upload,
  complete_found, complete_upload, wrap_publish_error,
}

-- The message that announces a merged document.
abbrev pub announcement : Document → Text → Message
announcement doc key = record {
  key = doc.file_md5;
  value = marshal (ingest_fields (ingest_event doc key));
}

module _ {R T O P K : Type 0} (s : DocumentService R T O P K) where
  -- Either no error is returned and the event of `doc` is the newest message, or the error tells
  -- that publishing it failed.
  abbrev pub Announced : Document → Text → World R T O P K → World R T O P K → Option Error → Type 0
  Announced doc key w w' e =
      ((e ≡ none)
        × (s.producer.published w'.producer
            ≡ s.producer.published w.producer ++ announcement doc key ∷ []))
      ⊎ ((cause : Error) × (e ≡ some (wrap_publish_error s doc cause)))

  -- What the clean-up and the event change: the documents and the files stay, and the event
  -- is published or the error tells why not.
  record IsFinished (doc : Document) (key : Text) (total : ℤ) (w w' : World R T O P K)
      (doc' : Document) (e : Option Error) : Type 0 where
    same_doc : doc' ≡ doc
    docs_kept : w'.docs ≡ w.docs
    objects_left : w'.objects ≡ (s.objects.remove_parts doc.file_md5 total w.objects).1
    files_kept :
        (md5 name : Text)
        → s.objects.merged w'.objects md5 name ≡ s.objects.merged w.objects md5 name
    announced : Announced doc key w w' e

  finish_upload-IsFinished :
      (owner : ℤ) (doc : Document) (key : Text) (total : ℤ) (w w' : World R T O P K)
      (doc' : Document) (e : Option Error)
      → finish_upload s owner doc key total w ≡ (ok (doc', e), w')
      → IsFinished doc key total w w' doc' e
  unfolding finish_upload publish_ingest
  finish_upload-IsFinished owner doc key total w w' doc' e h = record {
    same_doc = ground arith;
    docs_kept = ground arith;
    objects_left = ground arith;
    files_kept = λ md5 name.
        ground (arith, s.objects.remove_parts_merged doc.file_md5 total w.objects md5 name);
    announced =
        let value = marshal (ingest_fields (ingest_event doc key)) in
        elim (Result-cases (s.producer.publish doc.file_md5 value w.producer).0) [
          | inl (u, sent) ↦ inl (
            ground arith,
            ground (arith, s.producer.publish_ok doc.file_md5 value w.producer w'.producer tt),
          )
          | inr (inl (cause, failed)) ↦ inr (cause, ground arith)
          | inr (inr (x, failed)) ↦ absurd (ground arith)
        ];
  }

  -- What a completion has done to a document `doc` that was still being uploaded.
  pub record Merges (owner : ℤ) (doc : Document) (total : ℤ) (w w' : World R T O P K)
      (doc' : Document) (e : Option Error) : Type 0 where
    -- The number of parts, the file, its size, its key, and the time of the statement.
    pub count : ℕ
    pub content : Text
    pub size : ℤ
    pub key : Text
    pub time : ℕ
    pub total_is : total ≡ pos count
    pub size_is : size ≡ pos (length content)
    pub key_is : key ≡ s.objects.merged_key doc.file_md5 doc.file_name
    pub all_marked : (i : ℕ) → i < count → s.progress.has w.progress doc.file_md5 owner i ≡ true
    pub parts_joined : joined (s.objects.part w.objects doc.file_md5) 0 count ≡ some content
    pub file_stored : s.objects.merged w'.objects doc.file_md5 doc.file_name ≡ some content
    pub doc_returned : doc' ≡ record doc { upload_status = upload_status_merged; total_size = size }
    pub row_marked :
        s.docs.rows w'.docs
        ≡ update_rows (has_id doc.id) (with_merged size time) (s.docs.rows w.docs)
    -- The removal of the parts is the last call on the objects.
    pub store : O
    pub objects_left : w'.objects ≡ (s.objects.remove_parts doc.file_md5 total store).1
    pub announced : Announced doc' key w w' e

  compose_upload-Merges :
      (owner : ℤ) (doc : Document) (total : ℤ) (w w' : World R T O P K) (doc' : Document)
      (e : Option Error)
      → s.progress.all_uploaded doc.file_md5 owner total w.progress ≡ ok true
      → compose_upload s owner doc total w ≡ (ok (doc', e), w')
      → Merges owner doc total w w' doc' e
  unfolding compose_upload
  compose_upload-Merges owner doc total w w' doc' e all h =
      let p = s.objects.compose_merged doc.file_md5 doc.file_name total w.objects in
      elim (Result-cases p.0) [
        | inl ((key, size), composed) ↦
            let q = s.docs.mark_merged doc.id size w.docs in
            elim (Result-cases q.0) [
              | inl (u, marked) ↦
                  let doc₁ = record doc {
                    upload_status = upload_status_merged;
                    total_size = size;
                  } in
                  let w₁ : World R T O P K = record w { objects = p.1; docs = q.1 } in
                  let rest : finish_upload s owner doc₁ key total w₁ ≡ (ok (doc', e), w') =
                    ground arith in
                  let done = finish_upload-IsFinished owner doc₁ key total w₁ w' doc' e rest in
                  let (n, content, total_is, key_is, read, stored, sized) =
                    s.objects.compose_merged_ok doc.file_md5 doc.file_name total w.objects p.1 key
                      size (λ t. (composed t, p.1)) in
                  let (time, rows) =
                    s.docs.mark_merged_ok doc.id size w.docs q.1 u (λ t. (marked t, q.1)) in
                  let every =
                    s.progress.all_uploaded_ok doc.file_md5 owner total w.progress true all in
                  let same_count : n ≡ every.0 = ground arith in
                  record {
                    count = n;
                    content = content;
                    size = size;
                    key = key;
                    time = time;
                    total_is = total_is;
                    size_is = sized;
                    key_is = key_is;
                    all_marked = λ i low. every.2 refl i (omega arith);
                    parts_joined = read;
                    file_stored = done.files_kept doc.file_md5 doc.file_name ∙ stored;
                    doc_returned = done.same_doc;
                    row_marked = ap s.docs.rows done.docs_kept ∙ rows;
                    store = p.1;
                    objects_left = done.objects_left;
                    announced =
                        subst (λ d. Announced d key w w' e) (sym done.same_doc) done.announced;
                  }
              | inr (inl (x, failed)) ↦ absurd (ground arith)
              | inr (inr (x, failed)) ↦ absurd (ground arith)
            ]
        | inr (inl (x, failed)) ↦ absurd (ground arith)
        | inr (inr (x, failed)) ↦ absurd (ground arith)
      ]

  merge_upload-Merges :
      (owner : ℤ) (doc : Document) (total : ℤ) (w w' : World R T O P K) (doc' : Document)
      (e : Option Error)
      → merge_upload s owner doc total w ≡ (ok (doc', e), w')
      → Merges owner doc total w w' doc' e
  unfolding merge_upload
  merge_upload-Merges owner doc total w w' doc' e h =
      elim (Result-cases (s.progress.all_uploaded doc.file_md5 owner total w.progress)) [
        | inl (all, answer) ↦ elim (Bool-cases all) [
          | inl yes_all ↦
              compose_upload-Merges owner doc total w w' doc' e (ground arith) (ground arith)
          | inr not_all ↦ absurd (ground arith)
        ]
        | inr (inl (x, failed)) ↦ absurd (ground arith)
        | inr (inr (x, failed)) ↦ absurd (ground arith)
      ]

  abbrev Outcome :
      ℤ → Document → ℤ → World R T O P K → World R T O P K → Document → Option Error → Type 0
  Outcome owner doc total w w' doc' e =
      ((doc.upload_status ≡ upload_status_merged) × (doc' ≡ doc) × (e ≡ none) × (w' ≡ w))
      ⊎ ((doc.upload_status ≢ upload_status_merged) × Merges owner doc total w w' doc' e)

  complete_found-Outcome :
      (owner : ℤ) (doc : Document) (total : ℤ) (w w' : World R T O P K) (doc' : Document)
      (e : Option Error)
      → complete_found s owner total doc w ≡ (ok (doc', e), w')
      → Outcome owner doc total w w' doc' e
  unfolding complete_found
  complete_found-Outcome owner doc total w w' doc' e h =
      elim (Bool-cases (doc.upload_status == upload_status_merged)) [
        | inl merged ↦ inl (ground arith)
        | inr uploading ↦
            inr (ground arith, merge_upload-Merges owner doc total w w' doc' e (ground arith))
      ]

  -- A completion that returns a document found it live and owned by the caller. Either it was merged
  -- already, and nothing has changed; or the parts 0 to total - 1 were all marked, the file that is
  -- now stored is these parts joined in order, the document carries its size and the merged
  -- status, in the reply and in its row, and the event that announces the document and the file's
  -- key is the newest message, or the error beside the document says that publishing it failed.
  pub complete_upload-joins :
      (owner id total : ℤ) (w w' : World R T O P K) (doc' : Document) (e : Option Error)
      → complete_upload s owner id total w ≡ (ok (doc', e), w')
      → (doc : Document) × (first_match (has_live_id id) (s.docs.rows w.docs) ≡ some doc)
        × (doc.owner_id ≡ owner)
        × (((doc.upload_status ≡ upload_status_merged) × (doc' ≡ doc) × (e ≡ none) × (w' ≡ w))
            ⊎ ((doc.upload_status ≢ upload_status_merged) × Merges owner doc total w w' doc' e))
  unfolding complete_upload
  complete_upload-joins owner id total w w' doc' e h =
      let (doc, w₁, found, h₁) =
        >>=-eq-ok (owned_doc s owner id) (complete_found s owner total) w w' (doc', e) h in
      let (same, read, mine) = owned_doc-ok s owner id w w₁ doc found in
      let h₂ : complete_found s owner total doc w ≡ (ok (doc', e), w') = rw same at h₁ in
      (
        doc,
        s.docs.get_by_id_ok id w.docs doc read,
        mine,
        complete_found-Outcome owner doc total w w' doc' e h₂,
      )
