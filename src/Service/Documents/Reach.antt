-- ===== src/Service/Documents/Reach.antt =====
-- The states that internal/service/document/document.go reaches, by calls of its methods one behind
-- the other, whatever each of them returns.
use ragkb.Base.{ℤ, ◌≡◌, some, [], IsIn, subst}
use ragkb.Text.{Text}
use ragkb.Domain.Document.{Document, upload_status_merged}
use ragkb.Service.Documents.Types.{InitiateParams}
use ragkb.Service.Documents.{
  DocumentService, World, initiate_upload, upload_part, complete_upload, delete_document,
  list_documents, get_document,
}
use ragkb.Action.{Result}
use ragkb.Action.Program.{Does}
use ragkb.Action.Program.Safe.{Anything, alone-Inv}
use ragkb.Service.Documents.{Call}
use ragkb.Service.Documents.Stored.{Stored}
use ragkb.Service.Documents.Requests.{Calls}
use ragkb.Service.Documents.Requests.Rules.{stored_rules}
use ragkb.Service.Documents.Requests.Alone.{
  initiate_upload-Does, upload_part-Does, complete_upload-Does, delete_document-Does,
  list_documents-Does, get_document-Does,
}
use ragkb.Service.Documents.Requests.Completing.{IsKeeping, complete_upload-IsKeeping}
use ragkb.Service.Documents.Requests.Keeping.{
  initiate_upload-IsKeeping, upload_part-IsKeeping, delete_document-IsKeeping,
  list_documents-IsKeeping, get_document-IsKeeping,
}
use ragkb.Service.Documents.Requests.Interleaved.{nothing-Stored}

module _ {R T O P K : Type 0} (s : DocumentService R T O P K) where
  pub data Step : World R T O P K → World R T O P K → Type 0 where
    initiated : (p : InitiateParams) (w : World R T O P K) → Step w (initiate_upload s p w).1
    sent :
        (owner id part total : ℤ) (r : Text) (size : ℤ) (w : World R T O P K)
        → Step w (upload_part s owner id part total r size w).1
    completed :
        (owner id total : ℤ) (w : World R T O P K) → Step w (complete_upload s owner id total w).1
    deleted : (owner id : ℤ) (w : World R T O P K) → Step w (delete_document s owner id w).1
    listed :
        (owner page size : ℤ) (w : World R T O P K) → Step w (list_documents s owner page size w).1
    shown : (owner id : ℤ) (w : World R T O P K) → Step w (get_document s owner id w).1

  pub data Steps (w : World R T O P K) : World R T O P K → Type 0 where
    start : Steps w w
    next : (v v' : World R T O P K) → Steps w v → Step v v' → Steps w v'

  -- A method keeps the files of the merged rows if its requests do whatever others do meanwhile.
  kept :
      {A : Type 0} (p : Calls s A) (m : Call s A) (w : World R T O P K)
      → Does p m
      → IsKeeping s Anything p w
      → Stored s w
      → Stored s (m w).1
  kept {A} p m w does safe h =
      subst (λ (q : Result A × World R T O P K). Stored s q.1) (does w)
        (alone-Inv (stored_rules s) p w h safe)

  Step-Stored : (w w' : World R T O P K) → Step w w' → Stored s w → Stored s w'
  Step-Stored _ _ (initiated p w) =
      kept _ _ w (initiate_upload-Does s p) (initiate_upload-IsKeeping s p w)
  Step-Stored _ _ (sent owner id part total r size w) =
      kept _ _ w (upload_part-Does s owner id part total r size)
        (upload_part-IsKeeping s owner id part total r size w)
  Step-Stored _ _ (completed owner id total w) =
      kept _ _ w (complete_upload-Does s owner id total)
        (complete_upload-IsKeeping s owner id total w)
  Step-Stored _ _ (deleted owner id w) =
      kept _ _ w (delete_document-Does s owner id) (delete_document-IsKeeping s owner id w)
  Step-Stored _ _ (listed owner page size w) =
      kept _ _ w (list_documents-Does s owner page size)
        (list_documents-IsKeeping s owner page size w)
  Step-Stored _ _ (shown owner id w) =
      kept _ _ w (get_document-Does s owner id) (get_document-IsKeeping s owner id w)

  Steps-Stored : (w w' : World R T O P K) → Steps w w' → Stored s w → Stored s w'
  Steps-Stored w _ start h = h
  Steps-Stored w _ (next v v' before last) h = Step-Stored v v' last (Steps-Stored w v before h)

  -- From an empty table on, whatever calls are made and whatever fails in them: each row that is
  -- marked as merged, deleted or not, has a file under its MD5 and name.
  pub Steps-file :
      (w w' : World R T O P K) (d : Document)
      → s.docs.rows w.docs ≡ []
      → Steps w w'
      → IsIn d (s.docs.rows w'.docs)
      → d.upload_status ≡ upload_status_merged
      → (content : Text) × (s.objects.merged w'.objects d.file_md5 d.file_name ≡ some content)
  Steps-file w w' d empty steps there merged =
      (Steps-Stored w w' steps (nothing-Stored s w empty)).stored d there merged
