-- ===== src/Service/Documents/Access.antt =====
-- Who reaches which document: the ownership checks of internal/service/document/document.go.
use ragkb.Base.{
  ℤ, ◌≡◌, ◌≢◌, none, inl, inr, false, arith, ◌==ℤ◌, ==ℤ_iff, first_match-holds, Bool-cases,
  and_true,
}
use ragkb.Text.{Text}
use ragkb.Fault.{document, DocumentError}
use ragkb.Action.{ok, err, Result-cases}
use ragkb.Domain.Document.{Document, has_live_id, is_live}
use ragkb.Service.Documents.{
  DocumentService, World, owned_doc, owned_doc_any, get_document, upload_part, complete_upload,
  delete_document,
}

neq_false : (a b : ℤ) → a ≢ b → (a ==ℤ b) ≡ false
neq_false a b h = elim (Bool-cases (a ==ℤ b)) [
  | inl same ↦ absurd (h ((==ℤ_iff a b).0 same))
  | inr differ ↦ differ
]

module _ {R T O P K : Type 0} (s : DocumentService R T O P K) where
  -- A document that is handed on was found, and is the caller's; nothing has changed.
  pub owned_doc-ok :
      (owner id : ℤ) (w w' : World R T O P K) (d : Document)
      → owned_doc s owner id w ≡ (ok d, w')
      → (w' ≡ w) × (s.docs.get_by_id id w.docs ≡ ok d) × (d.owner_id ≡ owner)
  unfolding owned_doc
  owned_doc-ok owner id w w' d h = elim (Result-cases (s.docs.get_by_id id w.docs)) [
    | inl (a, e) ↦ elim (Bool-cases (a.owner_id ==ℤ owner)) [
      | inl mine ↦ ground (arith, (==ℤ_iff a.owner_id owner).0 mine)
      | inr foreign ↦ absurd (ground arith)
    ]
    | inr (inl (x, e)) ↦ absurd (ground arith)
    | inr (inr (x, e)) ↦ absurd (ground arith)
  ]

  -- Whoever reads a document owns it, and it has that identifier and is not deleted.
  pub get_document-owner :
      (owner id : ℤ) (w w' : World R T O P K) (d : Document)
      → get_document s owner id w ≡ (ok d, w')
      → (d.owner_id ≡ owner) × (d.id ≡ id) × (d.deleted_at ≡ none) × (w' ≡ w)
  unfolding get_document
  get_document-owner owner id w w' d h =
      let (same, found, mine) = owned_doc-ok owner id w w' d h in
      let live = first_match-holds (has_live_id id) _ d (s.docs.get_by_id_ok id w.docs d found) in
      let (x, y) = and_true (d.id ==ℤ id) (is_live d) live in
      (mine, (==ℤ_iff d.id id).0 x, ground arith, same)

  owned_doc-foreign :
      (owner id : ℤ) (w : World R T O P K) (d : Document)
      → s.docs.get_by_id id w.docs ≡ ok d
      → d.owner_id ≢ owner
      → owned_doc s owner id w ≡ (err (document DocumentError.not_found), w)
  unfolding owned_doc
  owned_doc-foreign owner id w d found foreign = rw (found, neq_false d.owner_id owner foreign)

  owned_doc_any-foreign :
      (owner id : ℤ) (w : World R T O P K) (d : Document)
      → s.docs.get_by_id_any id w.docs ≡ ok d
      → d.owner_id ≢ owner
      → owned_doc_any s owner id w ≡ (err (document DocumentError.not_found), w)
  unfolding owned_doc_any
  owned_doc_any-foreign owner id w d found foreign = rw (found, neq_false d.owner_id owner foreign)

  -- To anyone but its owner a document looks like one that is not there: reading it, sending a
  -- part, completing it and deleting it all give ErrNotFound, and change nothing.
  pub foreign_not_found :
      (owner id : ℤ) (w : World R T O P K) (d : Document) (part total size : ℤ) (r : Text)
      → s.docs.get_by_id id w.docs ≡ ok d
      → s.docs.get_by_id_any id w.docs ≡ ok d
      → d.owner_id ≢ owner
      → (get_document s owner id w ≡ (err (document DocumentError.not_found), w))
        × (upload_part s owner id part total r size w ≡ (err (document DocumentError.not_found), w))
        × (complete_upload s owner id total w ≡ (err (document DocumentError.not_found), w))
        × (delete_document s owner id w ≡ (err (document DocumentError.not_found), w))
  unfolding get_document upload_part complete_upload delete_document
  foreign_not_found owner id w d part total size r live any foreign =
      let refused = owned_doc-foreign owner id w d live foreign in
      let refused_any = owned_doc_any-foreign owner id w d any foreign in
      (refused, ground arith, ground arith, ground arith)
