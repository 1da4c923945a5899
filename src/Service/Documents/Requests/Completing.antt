-- ===== src/Service/Documents/Requests/Completing.antt =====
-- A completion of internal/service/document/document.go keeps the files of the merged rows, whatever
-- other requests do between its calls.
use ragkb.Base.{ℤ, ◌≡◌, refl, some, none, ◌==ℤ◌, ◌==◌, if◌then◌else◌, IsIn-first_match}
use ragkb.Text.{Text}
use ragkb.Fault.{DocumentError, document}
use ragkb.Action.{Result, ok, reading}
use ragkb.Action.Program.{atomic, looking, proceed, give, give_up, ignoring}
use ragkb.Action.Program.Safe.{
  Safe, Anything, atomic-Safe, proceed-Safe, if-Safe, give-Safe, give_up-Safe,
}
use ragkb.Domain.Document.{Document, has_live_id, upload_status_merged}
use ragkb.Service.Documents.{
  DocumentService, World, Call, on_docs, on_objects, on_progress, publish_ingest,
  wrap_publish_error,
}
use ragkb.Service.Documents.Stored.{HasFile}
use ragkb.Service.Documents.Requests.{
  Calls, owned_doc, complete_upload, complete_found, merge_upload, compose_upload, finish_upload,
}
use ragkb.Service.Documents.Requests.Rules.{
  stored_rules, IsLater, same-Keeping, Knows, Knows-later, remove_parts-Keeping,
  compose_merged-Keeping, mark_merged-Keeping,
}

module _ {R T O P K : Type 0} (s : DocumentService R T O P K) where
  abbrev pub IsKeeping :
      {A : Type 0} → (A → World R T O P K → Type 0) → Calls s A → World R T O P K → Type 0
  IsKeeping = Safe (stored_rules s)

  -- A call that only reads, and what its answer says.
  pub looking-IsKeeping :
      {A : Type 0} (Q : A → World R T O P K → Type 0) (f : World R T O P K → Result A)
      (w : World R T O P K)
      → ((v : World R T O P K) → IsLater s w v → (a : A) → f v ≡ ok a → Q a v)
      → IsKeeping Q (looking f) w
  looking-IsKeeping Q f w h =
      atomic-Safe (stored_rules s) Q (reading f) w
        λ v later inv. (same-Keeping s v v refl refl inv, h v later)

  -- A call of the progress or of the producer.
  pub beside-IsKeeping :
      {A : Type 0} (m : Call s A) (w : World R T O P K)
      → ((v : World R T O P K) → v.docs ≡ (m v).1.docs)
      → ((v : World R T O P K) → v.objects ≡ (m v).1.objects)
      → IsKeeping Anything (atomic m) w
  beside-IsKeeping m w docs objects =
      atomic-Safe (stored_rules s) Anything m w
        λ v later inv. (same-Keeping s v (m v).1 (docs v) (objects v) inv, λ a e. tt)

  -- `x, err := p; if err != nil { return err } ; next`
  pub bind-IsKeeping :
      {A B : Type 0} (P' : A → World R T O P K → Type 0) (Q : B → World R T O P K → Type 0)
      (p : Calls s A) (next : A → Calls s B) (w : World R T O P K)
      → IsKeeping P' p w
      → ((a : A) (v : World R T O P K) → P' a v → IsKeeping Q (next a) v)
      → IsKeeping Q (proceed p next give_up) w
  bind-IsKeeping P' Q p next w h k =
      proceed-Safe (stored_rules s) P' Q next give_up k (λ e v. give_up-Safe (stored_rules s) Q e v)
        p w h

  pub ignoring-IsKeeping :
      {A : Type 0} (p : Calls s A) (w : World R T O P K)
      → IsKeeping Anything p w
      → IsKeeping Anything (ignoring p) w
  ignoring-IsKeeping p w h =
      proceed-Safe (stored_rules s) Anything Anything (λ _. give tt) (λ _. give tt)
        (λ a v _. give-Safe (stored_rules s) Anything tt v tt)
        (λ e v. give-Safe (stored_rules s) Anything tt v tt) p w h

  finish_upload-IsKeeping :
      (owner : ℤ) (doc : Document) (key : Text) (total : ℤ) (w : World R T O P K)
      → IsKeeping Anything (finish_upload s owner doc key total) w
  unfolding finish_upload publish_ingest
  finish_upload-IsKeeping owner doc key total w =
      let remove = on_objects s (s.objects.remove_parts doc.file_md5 total) in
      let clear = on_progress s (s.progress.clear doc.file_md5 owner) in
      bind-IsKeeping Anything Anything _ _ w
        (ignoring-IsKeeping (atomic remove) w (
          atomic-Safe (stored_rules s) Anything remove w
            λ v later inv. (remove_parts-Keeping s doc.file_md5 total v inv, λ a e. tt)))
        λ _ v _.
          bind-IsKeeping Anything Anything _ _ v
            (ignoring-IsKeeping (atomic clear) v (beside-IsKeeping clear v (λ _. refl) (λ _. refl)))
            λ _ u _.
              proceed-Safe (stored_rules s) Anything Anything _ _
                (λ _ v' _. give-Safe (stored_rules s) Anything (doc, none) v' tt)
                (λ e v'.
                  give-Safe (stored_rules s) Anything (doc, some (wrap_publish_error s doc e)) v'
                    tt)
                _ u (beside-IsKeeping (publish_ingest s doc key) u (λ _. refl) (λ _. refl))

  compose_upload-IsKeeping :
      (owner : ℤ) (doc : Document) (total : ℤ) (w : World R T O P K)
      → Knows s doc w
      → IsKeeping Anything (compose_upload s owner doc total) w
  unfolding compose_upload
  compose_upload-IsKeeping owner doc total w knows =
      let compose = on_objects s (s.objects.compose_merged doc.file_md5 doc.file_name total) in
      let composed =
        (λ (r : Text × ℤ) (v : World R T O P K). Knows s doc v × HasFile s v.objects doc) in
      bind-IsKeeping composed Anything (atomic compose) _ w
        (atomic-Safe (stored_rules s) composed compose w λ v later inv. (
          compose_merged-Keeping s doc.file_md5 doc.file_name total v inv,
          λ (key, size) done.
              let (_, content, _, _, _, now, _) =
                s.objects.compose_merged_ok doc.file_md5 doc.file_name total v.objects
                  (compose v).1.objects key size (λ i. (done i, (compose v).1.objects)) in
              (Knows-later s doc w v later knows, (content, now)),
        ))
        λ (key, size) v (known, (content, there)).
          let mark = on_docs s (s.docs.mark_merged doc.id size) in
          let merged = record doc { upload_status = upload_status_merged; total_size = size } in
          bind-IsKeeping Anything Anything (atomic mark)
            (λ _. finish_upload s owner merged key total) v
            (atomic-Safe (stored_rules s) Anything mark v λ u later inv. (
              mark_merged-Keeping s doc size u (Knows-later s doc v u later known)
                  (later.files doc.file_md5 doc.file_name content there) inv,
              λ a e. tt,
            ))
            λ _ u _. finish_upload-IsKeeping owner merged key total u

  complete_found-IsKeeping :
      (owner total : ℤ) (doc : Document) (w : World R T O P K)
      → Knows s doc w
      → IsKeeping Anything (complete_found s owner total doc) w
  unfolding complete_found merge_upload
  complete_found-IsKeeping owner total doc w knows =
      if-Safe (stored_rules s) Anything (doc.upload_status == upload_status_merged) _ _ w
        (λ _. give-Safe (stored_rules s) Anything _ w tt)
        λ _.
          let look = (λ (v : World R T O P K).
            s.progress.all_uploaded doc.file_md5 owner total v.progress) in
          let missing = give_up (document DocumentError.parts_incomplete) in
          bind-IsKeeping (λ _. Knows s doc) Anything (looking look)
            (λ all_up. if all_up then compose_upload s owner doc total else missing) w
            (looking-IsKeeping (λ _. Knows s doc) look w
              λ v later a e. Knows-later s doc w v later knows)
            λ all_up v known.
              if-Safe (stored_rules s) Anything all_up (compose_upload s owner doc total) missing v
                (λ _. compose_upload-IsKeeping owner doc total v known)
                (λ _. give_up-Safe (stored_rules s) Anything _ v)

  pub owned_doc-IsKeeping :
      (owner id : ℤ) (w : World R T O P K) → IsKeeping (Knows s) (owned_doc s owner id) w
  unfolding owned_doc
  owned_doc-IsKeeping owner id w =
      bind-IsKeeping (Knows s) (Knows s) _ _ w
        (looking-IsKeeping _ _ w λ v later doc found. (
          doc,
          IsIn-first_match (has_live_id id) (s.docs.rows v.docs) doc
              (s.docs.get_by_id_ok id v.docs doc found),
          (refl, refl, refl),
        ))
        λ doc v known.
          if-Safe (stored_rules s) (Knows s) (doc.owner_id ==ℤ owner) _ _ v
            (λ _. give-Safe (stored_rules s) (Knows s) doc v known)
            (λ _. give_up-Safe (stored_rules s) (Knows s) _ v)

  pub complete_upload-IsKeeping :
      (owner id total : ℤ) (w : World R T O P K)
      → IsKeeping Anything (complete_upload s owner id total) w
  unfolding complete_upload
  complete_upload-IsKeeping owner id total w =
      bind-IsKeeping (Knows s) Anything _ _ w (owned_doc-IsKeeping owner id w)
        λ doc v known. complete_found-IsKeeping owner total doc v known
