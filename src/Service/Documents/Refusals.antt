-- ===== src/Service/Documents/Refusals.antt =====
-- When `InitiateUpload` of internal/service/document/document.go refuses a request.
use ragkb.Base.{
  ◌&&◌, pos, ◌≡◌, ◌≢◌, ◌⊎◌, inl, inr, true, false, none, some, [], arith, ◌==ℤ◌, first_match, ◌≤ℤ◌,
}
use ragkb.Text.{==ᵗ_iff}
use ragkb.Fault.{DocumentError, document}
use ragkb.Action.{ok, err}
use ragkb.Domain.Document.{Document, has_md5_and_owner}
use ragkb.Service.Documents.Types.{InitiateParams, InitiateResult, file_ext}
use ragkb.Service.Documents.{DocumentService, World, initiate_upload}
use ragkb.Service.Documents.Initiate.{initiate_upload-Initiated}

module _ {R T O P K : Type 0} (s : DocumentService R T O P K) where
  -- Why a request is refused before anything is looked up, in the order of the tests.
  pub data Refuses (p : InitiateParams) : DocumentError → Type 0 where
    too_large : ¬ (p.total_size ≤ℤ s.limits.max_file_size) → Refuses p DocumentError.file_too_large
    unsupported :
        p.total_size ≤ℤ s.limits.max_file_size
        → s.limits.allowed_exts (file_ext s.unicode p.file_name) ≡ false
        → Refuses p DocumentError.unsupported_type
    malformed :
        p.total_size ≤ℤ s.limits.max_file_size
        → s.limits.allowed_exts (file_ext s.unicode p.file_name) ≡ true
        → (p.total_parts ≤ℤ pos 0) ⊎ (p.file_md5 ≡ [])
        → Refuses p DocumentError.bad_request

  -- A request that is too large, of an unsupported type or malformed is refused with the error of the
  -- first of these tests that it fails, and changes nothing.
  pub initiate_upload-refused :
      (p : InitiateParams) (w : World R T O P K) (reason : DocumentError)
      → Refuses p reason
      → initiate_upload s p w ≡ (err (document reason), w)
  unfolding initiate_upload
  initiate_upload-refused p w _ (too_large large) = ground arith
  initiate_upload-refused p w _ (unsupported fits not_allowed) = ground arith
  initiate_upload-refused p w _ (malformed fits allowed broken) =
      ground (arith, ==ᵗ_iff p.file_md5 [])

  -- A deleted document keeps its user from uploading the same file: while its row is there, and no
  -- live one of the file and owner, no request for these is answered without an error.
  pub deleted_blocks_upload :
      (p : InitiateParams) (w w' : World R T O P K) (r : InitiateResult) (deleted : Document)
      → first_match
          (λ d. s.docs.collation.same d.file_md5 p.file_md5 && d.owner_id ==ℤ p.owner_id)
          (s.docs.rows w.docs)
        ≡ some deleted
      → first_match (has_md5_and_owner s.docs.collation p.file_md5 p.owner_id) (s.docs.rows w.docs)
        ≡ none
      → initiate_upload s p w ≢ (ok r, w')
  deleted_blocks_upload p w w' r deleted row no_live h =
      let (a, tag, _, done) = initiate_upload-Initiated s p w w' r h in
      elim done [
        | inl (doc, live, _, _, _) ↦ absurd (ground arith)
        | inr (inl (doc, live, _, _, _)) ↦ absurd (ground arith)
        | inr (inr (_, started)) ↦ absurd (ground (arith, started.no_row))
      ]
