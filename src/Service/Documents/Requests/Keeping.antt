-- ===== src/Service/Documents/Requests/Keeping.antt =====
-- The other methods of internal/service/document/document.go keep the files of the merged rows,
-- whatever other requests do between their calls.
use ragkb.Base.{
  ℕ, ℤ, pos, not, ◌≡◌, none, some, refl, sym, ap, ◌++◌, true, false, Bool, ◌==ℤ◌, ◌==◌, ◌||◌, [],
  ltb_ℤ, leb_ℤ, List, if◌then◌else◌,
}
use ragkb.Text.{Text, ◌==ᵗ◌, lit}
use ragkb.Text.Decimal.{decimal}
use ragkb.Fault.{Error, DocumentError, UserError, document, is_document, is_user, wrapped}
use ragkb.Action.{Result, ok, err, panic, continue, pure, fail, map_error}
use ragkb.Action.Program.{atomic, looking, give, give_up, proceed, ◌>>◌}
use ragkb.Action.Program.Safe.{
  Anything, Safe-weaken, atomic-Safe, proceed-Safe, if-Safe, give-Safe, give_up-Safe,
}
use ragkb.Domain.Document.{Document, upload_status_merged}
use ragkb.Service.Documents.Types.{InitiateParams, InitiateResult, file_ext}
use ragkb.Service.Documents.{
  DocumentService, World, on_docs, on_objects, on_progress, publish_delete, new_document,
}
use ragkb.Service.Documents.Requests.{
  Calls, owned_doc, get_document, owned_doc_any, resolve_tenant, delete_document, list_documents,
  resume_upload, start_upload, find_upload, initiate_upload, upload_part,
}
use ragkb.Service.Documents.Requests.Rules.{
  stored_rules, Knows, put_part-Keeping, create-Keeping, soft_delete-Keeping,
}
use ragkb.Service.Documents.Requests.Completing.{
  IsKeeping, looking-IsKeeping, beside-IsKeeping, bind-IsKeeping, owned_doc-IsKeeping,
}

map_error-state :
    {S A : Type 0} (f : Error → Error) (p : Result A × S)
    → (continue pure (λ e. fail (f e)) p).1 ≡ p.1
map_error-state f (ok a, t) = refl
map_error-state f (err e, t) = refl
map_error-state f (panic x, t) = refl

module _ {R T O P K : Type 0} (s : DocumentService R T O P K) where
  look-IsKeeping :
      {A : Type 0} (f : World R T O P K → Result A) (w : World R T O P K)
      → IsKeeping s Anything (looking f) w
  look-IsKeeping f w = looking-IsKeeping s Anything f w λ v later a e. tt

  pub give-IsKeeping : {A : Type 0} (a : A) (w : World R T O P K) → IsKeeping s Anything (give a) w
  give-IsKeeping a w = give-Safe (stored_rules s) Anything a w tt

  give_up-IsKeeping :
      (A : Type 0) (e : Error) (w : World R T O P K) → IsKeeping s Anything (give_up {A = A} e) w
  give_up-IsKeeping A e w = give_up-Safe (stored_rules s) Anything e w

  choose-IsKeeping :
      {A : Type 0} (b : Bool) (p q : Calls s A) (w : World R T O P K)
      → IsKeeping s Anything p w
      → IsKeeping s Anything q w
      → IsKeeping s Anything (if b then p else q) w
  choose-IsKeeping b p q w f g = if-Safe (stored_rules s) Anything b p q w (λ _. f) (λ _. g)

  owned_doc_any-IsKeeping :
      (owner id : ℤ) (w : World R T O P K) → IsKeeping s Anything (owned_doc_any s owner id) w
  unfolding owned_doc_any
  owned_doc_any-IsKeeping owner id w =
      let refused = give_up (document DocumentError.not_found) in
      bind-IsKeeping s Anything Anything (looking (λ v. s.docs.get_by_id_any id v.docs))
        (λ doc. if doc.owner_id ==ℤ owner then give doc else refused) w (look-IsKeeping _ w)
        λ doc v _.
          choose-IsKeeping (doc.owner_id ==ℤ owner) (give doc) refused v (give-IsKeeping doc v)
            (give_up-IsKeeping _ _ v)

  pub delete_document-IsKeeping :
      (owner id : ℤ) (w : World R T O P K) → IsKeeping s Anything (delete_document s owner id) w
  unfolding delete_document publish_delete
  delete_document-IsKeeping owner id w =
      let remove = on_docs s (s.docs.soft_delete id) in
      let tell = (λ (doc : Document).
        map_error (wrapped (lit "publish delete event for document " ++ (decimal id ++ lit ": ")))
          (publish_delete s doc)) in
      bind-IsKeeping s Anything Anything (owned_doc_any s owner id)
        (λ doc. atomic remove >> atomic (tell doc)) w (owned_doc_any-IsKeeping owner id w)
        λ doc v _.
          bind-IsKeeping s Anything Anything (atomic remove) (λ _. atomic (tell doc)) v
            (atomic-Safe (stored_rules s) Anything remove v
              λ u later inv. (soft_delete-Keeping s id u inv, λ a e. tt))
            λ _ u _.
              beside-IsKeeping s (tell doc) u
                (λ u'.
                  ap (λ (v : World R T O P K). v.docs)
                    (sym (map_error-state _ (publish_delete s doc u'))))
                (λ u'.
                  ap (λ (v : World R T O P K). v.objects)
                    (sym (map_error-state _ (publish_delete s doc u'))))

  pub list_documents-IsKeeping :
      (owner page size : ℤ) (w : World R T O P K)
      → IsKeeping s Anything (list_documents s owner page size) w
  unfolding list_documents
  list_documents-IsKeeping owner page size w = look-IsKeeping _ w

  pub get_document-IsKeeping :
      (owner id : ℤ) (w : World R T O P K) → IsKeeping s Anything (get_document s owner id) w
  unfolding get_document
  get_document-IsKeeping owner id w =
      Safe-weaken (stored_rules s) (Knows s) (owned_doc s owner id) w
        (owned_doc-IsKeeping s owner id w)

  pub upload_part-IsKeeping :
      (owner id part total : ℤ) (r : Text) (size : ℤ) (w : World R T O P K)
      → IsKeeping s Anything (upload_part s owner id part total r size) w
  unfolding upload_part
  upload_part-IsKeeping owner id part total r size w =
      let put = (λ (doc : Document). on_objects s (s.objects.put_part doc.file_md5 part r size)) in
      let mark =
        (λ (doc : Document). on_progress s (s.progress.mark_part doc.file_md5 owner part)) in
      let send = (λ (doc : Document). atomic (put doc) >> atomic (mark doc)) in
      let bad = give_up (document DocumentError.bad_request) in
      let ask =
        (λ (doc : Document). if ltb_ℤ part (pos 0) || leb_ℤ total part then bad else send doc) in
      bind-IsKeeping s (Knows s) Anything (owned_doc s owner id)
        (λ doc. if doc.upload_status == upload_status_merged then give tt else ask doc) w
        (owned_doc-IsKeeping s owner id w)
        λ doc v _.
          choose-IsKeeping (doc.upload_status == upload_status_merged) (give tt) (ask doc) v
            (give-IsKeeping tt v)
            (choose-IsKeeping (ltb_ℤ part (pos 0) || leb_ℤ total part) bad (send doc) v
              (give_up-IsKeeping _ _ v)
              (bind-IsKeeping s Anything Anything (atomic (put doc)) (λ _. atomic (mark doc)) v
                (atomic-Safe (stored_rules s) Anything (put doc) v
                  λ u later inv. (put_part-Keeping s doc.file_md5 part r size u inv, λ a e. tt))
                λ _ u _. beside-IsKeeping s (mark doc) u (λ _. refl) (λ _. refl)))

  resolve_tenant-IsKeeping :
      (owner : ℤ) (tag : Text) (w : World R T O P K)
      → IsKeeping s Anything (resolve_tenant s owner tag) w
  unfolding resolve_tenant
  resolve_tenant-IsKeeping owner tag w =
      let default = looking (λ (v : World R T O P K). s.tenants.get_primary_tag owner v.tenants) in
      let bad = give_up (document DocumentError.bad_request) in
      let asked = looking (λ (v : World R T O P K). s.tenants.is_member owner tag v.tenants) in
      let foreign = give_up (document DocumentError.forbidden) in
      let no_default =
        (λ (e : Error). if is_user e UserError.not_found then bad else give_up {A = Text} e) in
      choose-IsKeeping (tag ==ᵗ []) (proceed default give no_default)
        (proceed asked (λ member. if member then give tag else foreign) give_up) w
        (proceed-Safe (stored_rules s) Anything Anything give no_default
          (λ t v _. give-IsKeeping t v)
          (λ e v.
            choose-IsKeeping (is_user e UserError.not_found) bad (give_up e) v
              (give_up-IsKeeping _ _ v) (give_up-IsKeeping _ e v))
          default w (look-IsKeeping _ w))
        (bind-IsKeeping s Anything Anything asked (λ member. if member then give tag else foreign) w
          (look-IsKeeping _ w)
          λ member v _.
            choose-IsKeeping member (give tag) foreign v (give-IsKeeping tag v)
              (give_up-IsKeeping _ _ v))

  resume_upload-IsKeeping :
      (p : InitiateParams) (d : Document) (w : World R T O P K)
      → IsKeeping s Anything (resume_upload s p d) w
  unfolding resume_upload
  resume_upload-IsKeeping p d w =
      let hit : InitiateResult = record {
        document_id = d.id;
        instant_hit = true;
        uploaded_parts = none;
      } in
      let look = looking (λ (v : World R T O P K).
        s.progress.uploaded_parts p.file_md5 p.owner_id p.total_parts v.progress) in
      let answer = (λ (l : List ℕ).
        let r : InitiateResult = record {
          document_id = d.id;
          instant_hit = false;
          uploaded_parts = some l;
        } in
        give {W = World R T O P K} r) in
      choose-IsKeeping (d.upload_status == upload_status_merged) (give hit)
        (proceed look answer give_up) w (give-IsKeeping hit w)
        (bind-IsKeeping s Anything Anything look answer w (look-IsKeeping _ w)
          λ l v _. give-IsKeeping _ v)

  start_upload-IsKeeping :
      (p : InitiateParams) (tag : Text) (w : World R T O P K)
      → IsKeeping s Anything (start_upload s p tag) w
  unfolding start_upload
  start_upload-IsKeeping p tag w =
      let create = on_docs s (s.docs.create (new_document s p tag)) in
      let answer = (λ (d : Document).
        let r : InitiateResult = record {
          document_id = d.id;
          instant_hit = false;
          uploaded_parts = some [];
        } in
        give {W = World R T O P K} r) in
      bind-IsKeeping s Anything Anything (atomic create) answer w
        (atomic-Safe (stored_rules s) Anything create w
          λ v later inv. (create-Keeping s p tag v inv, λ a e. tt))
        λ d v _. give-IsKeeping _ v

  find_upload-IsKeeping :
      (p : InitiateParams) (w : World R T O P K) → IsKeeping s Anything (find_upload s p) w
  unfolding find_upload
  find_upload-IsKeeping p w =
      let look =
        looking
          (λ (v : World R T O P K). s.docs.get_by_md5_and_owner p.file_md5 p.owner_id v.docs) in
      let unknown = (λ (tag : Text) (e : Error).
        if is_document e DocumentError.not_found then start_upload s p tag else give_up e) in
      bind-IsKeeping s Anything Anything (resolve_tenant s p.owner_id p.tenant_tag)
        (λ tag. proceed look (resume_upload s p) (unknown tag)) w
        (resolve_tenant-IsKeeping p.owner_id p.tenant_tag w)
        λ tag v _.
          proceed-Safe (stored_rules s) Anything Anything (resume_upload s p) (unknown tag)
            (λ d u _. resume_upload-IsKeeping p d u)
            (λ e u.
              choose-IsKeeping (is_document e DocumentError.not_found) (start_upload s p tag)
                (give_up e) u (start_upload-IsKeeping p tag u) (give_up-IsKeeping _ e u))
            look v (look-IsKeeping _ v)

  pub initiate_upload-IsKeeping :
      (p : InitiateParams) (w : World R T O P K) → IsKeeping s Anything (initiate_upload s p) w
  unfolding initiate_upload
  initiate_upload-IsKeeping p w =
      choose-IsKeeping (ltb_ℤ s.limits.max_file_size p.total_size) (give_up _) _ w
        (give_up-IsKeeping _ _ w)
        (choose-IsKeeping (not (s.limits.allowed_exts (file_ext s.unicode p.file_name))) (give_up _)
          _ w (give_up-IsKeeping _ _ w)
          (choose-IsKeeping (leb_ℤ p.total_parts (pos 0) || p.file_md5 ==ᵗ []) (give_up _)
            (find_upload s p) w (give_up-IsKeeping _ _ w) (find_upload-IsKeeping p w)))
