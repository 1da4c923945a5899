-- ===== src/Service/Documents/Requests/Interleaved.antt =====
-- Requests to internal/service/document/document.go that are served at the same time: the calls that
-- they make of the ports come in any order.
use ragkb.Base.{ℕ, ℤ, ◌≡◌, some, List, [], ◌∷◌, IsIn, subst, sym}
use ragkb.Text.{Text}
use ragkb.Action.{attempt, pure, fail}
use ragkb.Action.Program.{Does, returns-Does, proceed-Does, proceed, give, give_up, alone}
use ragkb.Action.Program.Safe.{Anything}
use ragkb.Action.Program.Pool.{
  Serving, quiet, arrive, go_on, IsSafe, quiet-IsSafe, arrive-IsSafe, go_on-IsSafe,
}
use ragkb.Domain.Document.{Document, upload_status_merged}
use ragkb.Service.Documents.Types.{InitiateParams}
use ragkb.Service.Documents
use ragkb.Service.Documents.{DocumentService, World, Call}
use ragkb.Service.Documents.Stored.{IsStored, Stored}
use ragkb.Service.Documents.Requests
use ragkb.Service.Documents.Requests.{Calls}
use ragkb.Service.Documents.Requests.Rules.{stored_rules}
use ragkb.Service.Documents.Requests.Alone.{
  initiate_upload-Does, upload_part-Does, complete_upload-Does, delete_document-Does,
  list_documents-Does, get_document-Does,
}
use ragkb.Service.Documents.Requests.Completing.{
  IsKeeping, bind-IsKeeping, complete_upload-IsKeeping,
}
use ragkb.Service.Documents.Requests.Keeping.{
  give-IsKeeping, initiate_upload-IsKeeping, upload_part-IsKeeping, delete_document-IsKeeping,
  list_documents-IsKeeping, get_document-IsKeeping,
}

pub data Request : Type 0 where
  initiates : InitiateParams → Request
  sends : (owner id part total : ℤ) (content : Text) (size : ℤ) → Request
  completes : (owner id total : ℤ) → Request
  deletes : (owner id : ℤ) → Request
  lists : (owner page size : ℤ) → Request
  shows : (owner id : ℤ) → Request

-- A request comes in under a number, or the one of a number makes its next call.
pub data Turn : Type 0 where
  arrives : ℕ → Request → Turn
  goes_on : ℕ → Turn

module _ {R T O P K : Type 0} (s : DocumentService R T O P K) where
  -- The answer is left out.
  abbrev answered : {A : Type 0} → Calls s A → Calls s (Unit {0})
  answered p = proceed p (λ _. give tt) give_up

  abbrev returned : {A : Type 0} → Call s A → Call s (Unit {0})
  returned m = attempt m (λ _. pure tt) fail

  unfoldable pub program : Request → Calls s (Unit {0})
  program (initiates p) = answered (Requests.initiate_upload s p)
  program (sends owner id part total content size) =
      answered (Requests.upload_part s owner id part total content size)
  program (completes owner id total) = answered (Requests.complete_upload s owner id total)
  program (deletes owner id) = answered (Requests.delete_document s owner id)
  program (lists owner page size) = answered (Requests.list_documents s owner page size)
  program (shows owner id) = answered (Requests.get_document s owner id)

  -- The method that serves the request.
  unfoldable pub method : Request → Call s (Unit {0})
  method (initiates p) = returned (Documents.initiate_upload s p)
  method (sends owner id part total content size) =
      returned (Documents.upload_part s owner id part total content size)
  method (completes owner id total) = returned (Documents.complete_upload s owner id total)
  method (deletes owner id) = returned (Documents.delete_document s owner id)
  method (lists owner page size) = returned (Documents.list_documents s owner page size)
  method (shows owner id) = returned (Documents.get_document s owner id)

  unfoldable pub interleave : List Turn → Serving (World R T O P K) → Serving (World R T O P K)
  interleave [] v = v
  interleave (arrives i r ∷ turns) v = interleave turns (arrive i (program r) v)
  interleave (goes_on i ∷ turns) v = interleave turns (go_on i v)

  answered-Does :
      {A : Type 0} (p : Calls s A) (m : Call s A) → Does p m → Does (answered p) (returned m)
  answered-Does p m h =
      proceed-Does (λ _. give tt) (λ _. pure tt) give_up fail (λ _. returns-Does _)
        (λ e. returns-Does _) p m h

  -- A request that runs alone does what the method does, with the same result and on every state.
  pub program-Does : (r : Request) (w : World R T O P K) → alone (program r) w ≡ method r w
  unfolding program method
  program-Does (initiates p) = answered-Does _ _ (initiate_upload-Does s p)
  program-Does (sends owner id part total content size) =
      answered-Does _ _ (upload_part-Does s owner id part total content size)
  program-Does (completes owner id total) =
      answered-Does _ _ (complete_upload-Does s owner id total)
  program-Does (deletes owner id) = answered-Does _ _ (delete_document-Does s owner id)
  program-Does (lists owner page size) = answered-Does _ _ (list_documents-Does s owner page size)
  program-Does (shows owner id) = answered-Does _ _ (get_document-Does s owner id)

  answered-IsKeeping :
      {A : Type 0} (p : Calls s A) (w : World R T O P K)
      → IsKeeping s Anything p w
      → IsKeeping s Anything (answered p) w
  answered-IsKeeping p w h =
      bind-IsKeeping s Anything Anything p (λ _. give tt) w h λ _ v _. give-IsKeeping s tt v

  pub program-IsKeeping : (r : Request) (w : World R T O P K) → IsKeeping s Anything (program r) w
  unfolding program
  program-IsKeeping (initiates p) w = answered-IsKeeping _ w (initiate_upload-IsKeeping s p w)
  program-IsKeeping (sends owner id part total content size) w =
      answered-IsKeeping _ w (upload_part-IsKeeping s owner id part total content size w)
  program-IsKeeping (completes owner id total) w =
      answered-IsKeeping _ w (complete_upload-IsKeeping s owner id total w)
  program-IsKeeping (deletes owner id) w =
      answered-IsKeeping _ w (delete_document-IsKeeping s owner id w)
  program-IsKeeping (lists owner page size) w =
      answered-IsKeeping _ w (list_documents-IsKeeping s owner page size w)
  program-IsKeeping (shows owner id) w =
      answered-IsKeeping _ w (get_document-IsKeeping s owner id w)

  interleave-IsSafe :
      (turns : List Turn) (v : Serving (World R T O P K))
      → IsSafe (stored_rules s) v
      → IsSafe (stored_rules s) (interleave turns v)
  unfolding interleave
  interleave-IsSafe [] v h = h
  interleave-IsSafe (arrives i r ∷ turns) v h =
      interleave-IsSafe turns (arrive i (program r) v)
        (arrive-IsSafe (stored_rules s) i (program r) v (program-IsKeeping r v.world) h)
  interleave-IsSafe (goes_on i ∷ turns) v h =
      interleave-IsSafe turns (go_on i v) (go_on-IsSafe (stored_rules s) i v h)

  pub nothing-Stored : (w : World R T O P K) → s.docs.rows w.docs ≡ [] → Stored s w
  nothing-Stored w empty =
      let nothing : IsStored s [] w.objects = record {
        unique = λ a b a_in b_in same. absurd a_in;
        stored = λ a a_in m. absurd a_in;
      } in
      subst (λ rs. IsStored s rs w.objects) (sym empty) nothing

  -- From an empty table on, whatever requests are served at the same time, in whatever order their
  -- calls of the ports come and whatever fails in them: at any time, each row that is marked as
  -- merged, deleted or not, has a file under its MD5 and name.
  pub interleave-file :
      (turns : List Turn) (w : World R T O P K) (d : Document)
      → s.docs.rows w.docs ≡ []
      → IsIn d (s.docs.rows (interleave turns (quiet w)).world.docs)
      → d.upload_status ≡ upload_status_merged
      → (content : Text) × (s.objects.merged
            (interleave turns (quiet w)).world.objects
            d.file_md5
            d.file_name
          ≡ some content)
  interleave-file turns w d empty there merged =
      (interleave-IsSafe turns (quiet w)
          (quiet-IsSafe (stored_rules s) w (nothing-Stored w empty))).inv.stored
        d there merged
