-- ===== src/Service/Documents/Again.antt =====
-- What a completion leaves behind for the next one, in internal/service/document/document.go: an
-- event that could not be published, and the parts and files that two users share.
use ragkb.Base.{
  ℕ, ℤ, suc, pos, ◌≡◌, ◌≢◌, ap, sym, ◌∙◌, subst, Bool-cases, ==ℤ_iff, and_true, first_match-holds,
  false, inl, inr, Option, none, some, arith, first_match, if◌then◌else◌,
}
use ragkb.Text.{Text, ==ᵗ_refl}
use ragkb.Fault.{Error}
use ragkb.Action.{ok, Result-cases}
use ragkb.Domain.Document.{Document, has_id, has_live_id, with_merged, upload_status_merged}
use ragkb.Domain.Document.Repo.{first_match-update}
use ragkb.Service.Documents.Ports.{joined}
use ragkb.Service.Documents.Later.{Later, IsDone, marked-IsDone, Later-IsDone, IsDone-live}
use ragkb.Service.Documents.Complete.{Merges, complete_upload-joins}
use ragkb.Service.Documents.{DocumentService, World, owned_doc, complete_found, complete_upload}

module _ {R T O P K : Type 0} (s : DocumentService R T O P K) where
  -- A row that is merged stays as it is under a completion, and so does all else.
  merged_untouched :
      (owner id total : ℤ) (w : World R T O P K)
      → ((d : Document)
          → first_match (has_live_id id) (s.docs.rows w.docs) ≡ some d
          → d.upload_status ≡ upload_status_merged)
      → (complete_upload s owner id total w).1 ≡ w
  unfolding complete_upload owned_doc complete_found
  merged_untouched owner id total w merged = elim (Result-cases (s.docs.get_by_id id w.docs)) [
    | inl (d, read) ↦
        let is_merged = merged d (s.docs.get_by_id_ok id w.docs d read) in ground arith
    | inr (inl (x, failed)) ↦ ground arith
    | inr (inr (x, failed)) ↦ ground arith
  ]

  -- If the event of a merge cannot be published, the caller gets the document and an error, and no
  -- later completion of it by anyone publishes the event: whatever rows have been created, merged and
  -- deleted since, each leaves all as it is.
  pub lost_event :
      (owner id total owner' total' : ℤ) (w w' w'' : World R T O P K) (doc' : Document) (e : Error)
      → complete_upload s owner id total w ≡ (ok (doc', some e), w')
      → Later s.docs w'.docs w''.docs
      → (complete_upload s owner' id total' w'').1 ≡ w''
  lost_event owner id total owner' total' w w' w'' doc' e h since =
      let (doc, row, mine, outcome) = complete_upload-joins s owner id total w w' doc' (some e) h in
      elim outcome [
        | inl (merged, same, no_error, kept) ↦ cc
        | inr (uploading, m) ↦
            let marked = marked-IsDone id (s.docs.rows w.docs) doc m.size m.time row in
            let now = subst (IsDone id) (sym m.row_marked) marked in
            let still = Later-IsDone id s.docs w'.docs w''.docs since now in
            merged_untouched owner' id total' w'' (λ d. IsDone-live id s.docs w''.docs d still)
      ]

  -- A merge of one part or more leaves no first part.
  first_part_gone :
      (owner : ℤ) (a : Document) (n : ℕ) (w w' : World R T O P K) (a' : Document) (e : Option Error)
      → ((md5 : Text) (total : ℤ) (o : O) → (s.objects.remove_parts md5 total o).0 ≡ ok tt)
      → Merges s owner a (pos (suc n)) w w' a' e
      → s.objects.part w'.objects a.file_md5 0 ≡ none
  first_part_gone owner a n w w' a' e removes m =
      let total = pos (suc n) in
      let left = (s.objects.remove_parts a.file_md5 total m.store).1 in
      let clean =
        s.objects.remove_parts_ok a.file_md5 total m.store left tt
          (λ i. (removes a.file_md5 total m.store i, left)) a.file_md5 0 in
      rw (m.objects_left, clean, ==ᵗ_refl) (ground arith)

  -- Without the first part there is nothing to merge.
  no_first_part :
      (owner : ℤ) (b : Document) (n : ℕ) (w w' : World R T O P K) (b' : Document) (e : Option Error)
      → s.objects.part w.objects b.file_md5 0 ≡ none
      → ¬ Merges s owner b (pos (suc n)) w w' b' e
  no_first_part owner b n w w' b' e missing m =
      let same : m.count ≡ suc n = ground (arith, m.total_is) in
      let read : joined (s.objects.part w.objects b.file_md5) 0 (suc n) ≡ some m.content =
        subst (λ k. joined (s.objects.part w.objects b.file_md5) 0 k ≡ some m.content) same
          m.parts_joined in
      ground arith

  -- Parts are stored by MD5 alone, and marked by MD5 and owner. So where the removal of parts never
  -- fails, and one upload has been merged from one part or more, no completion of another open upload
  -- of that MD5, with a count of one or more, returns its document on the state behind that merge,
  -- whatever parts are marked for it.
  pub shared_parts :
      (owner id owner' id' : ℤ) (n m : ℕ) (w w' w'' : World R T O P K) (a b a' b' : Document)
      (e e' : Option Error)
      → ((md5 : Text) (total : ℤ) (o : O) → (s.objects.remove_parts md5 total o).0 ≡ ok tt)
      → first_match (has_live_id id) (s.docs.rows w.docs) ≡ some a
      → a.upload_status ≢ upload_status_merged
      → complete_upload s owner id (pos (suc n)) w ≡ (ok (a', e), w')
      → first_match (has_live_id id') (s.docs.rows w'.docs) ≡ some b
      → b.upload_status ≢ upload_status_merged
      → b.file_md5 ≡ a.file_md5
      → complete_upload s owner' id' (pos (suc m)) w' ≢ (ok (b', e'), w'')
  shared_parts owner id owner' id' n m w w' w'' a b a' b' e e' removes row_a open_a h row_b open_b
        same h' =
      let (a₁, row, _, first) = complete_upload-joins s owner id (pos (suc n)) w w' a' e h in
      let (b₁, row', _, second) =
        complete_upload-joins s owner' id' (pos (suc m)) w' w'' b' e' h' in
      let is_a : a₁ ≡ a = ground arith in
      let is_b : b₁ ≡ b = ground arith in
      elim first [
        | inl (merged, _, _, _) ↦ open_a (rw (← is_a) merged)
        | inr (_, f) ↦ elim second [
          | inl (merged, _, _, _) ↦ open_b (rw (← is_b) merged)
          | inr (_, g) ↦
              let gone = first_part_gone owner a₁ n w w' a' e removes f in
              let md5 : b₁.file_md5 ≡ a₁.file_md5 = ground arith in
              no_first_part owner' b₁ m w' w'' b' e' (rw md5 gone) g
        ]
      ]

  -- A file is stored by MD5 and name, whoever owns it, and nothing compares the MD5 with the bytes. So
  -- a merge of another document of that MD5 and name replaces the file of a document: its row stays as
  -- it was, and the object that it names holds the parts of the other upload.
  pub overwritten_file :
      (owner id id' total : ℤ) (w w' : World R T O P K) (a b b' : Document) (e : Option Error)
      → first_match (has_live_id id') (s.docs.rows w.docs) ≡ some a
      → first_match (has_live_id id) (s.docs.rows w.docs) ≡ some b
      → id' ≢ id
      → b.upload_status ≢ upload_status_merged
      → b.file_md5 ≡ a.file_md5
      → b.file_name ≡ a.file_name
      → complete_upload s owner id total w ≡ (ok (b', e), w')
      → (n : ℕ) × (content : Text) × (joined (s.objects.part w.objects b.file_md5) 0 n
          ≡ some content)
        × (s.objects.merged w'.objects a.file_md5 a.file_name ≡ some content)
        × (first_match (has_live_id id') (s.docs.rows w'.docs) ≡ some a)
  overwritten_file owner id id' total w w' a b b' e row_a row_b differ open_b md5 name h =
      let (b₁, row, _, outcome) = complete_upload-joins s owner id total w w' b' e h in
      let is_b : b₁ ≡ b = ground arith in
      elim outcome [
        | inl (merged, _, _, _) ↦ absurd (open_b (rw (← is_b) merged))
        | inr (_, m) ↦
            let md5' : b₁.file_md5 ≡ a.file_md5 = ap (λ (d : Document). d.file_md5) is_b ∙ md5 in
            let name' : b₁.file_name ≡ a.file_name =
              ap (λ (d : Document). d.file_name) is_b ∙ name in
            let stored : s.objects.merged w'.objects a.file_md5 a.file_name ≡ some m.content =
              rw (← md5', ← name') m.file_stored in
            let parts : joined (s.objects.part w.objects b.file_md5) 0 m.count ≡ some m.content =
              rw (← is_b) m.parts_joined in
            let stays : (x : Document)
                → has_live_id id' (if has_id b₁.id x then with_merged m.size m.time x else x)
                  ≡ has_live_id id' x =
              λ x. ground arith in
            let there =
              first_match-update (has_live_id id') (has_id b₁.id) (with_merged m.size m.time) stays
                (s.docs.rows w.docs) a row_a in
            let id_b =
              (==ℤ_iff b₁.id id).0 (and_true _ _ (first_match-holds (has_live_id id) _ b₁ row)).0 in
            let id_a =
              (==ℤ_iff a.id id').0
                (and_true _ _ (first_match-holds (has_live_id id') _ a row_a)).0 in
            let other : has_id b₁.id a ≡ false = elim (Bool-cases (has_id b₁.id a)) [
              | inl same ↦ absurd (differ (ground (arith, (==ℤ_iff a.id b₁.id).0 same)))
              | inr other ↦ other
            ] in
            (m.count, m.content, parts, stored, rw m.row_marked (there ∙ rw other))
      ]
