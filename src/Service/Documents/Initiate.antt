-- ===== src/Service/Documents/Initiate.antt =====
-- `InitiateUpload` of internal/service/document/document.go.
use ragkb.Base.{
  ℕ, ℤ, zero, suc, pos, negsuc, ◌≡◌, ◌≢◌, refl, ap, ◌∙◌, ◌⊎◌, inl, inr, true, false, none, some, [],
  ◌∷◌, ◌++◌, arith, ◌==◌, ltb_ℤ, leb_ℤ, keep, range, Bool-cases, first_match, ◌≤ℤ◌,
}
use ragkb.Text.{Text, ◌==ᵗ◌, ==ᵗ_iff}
use ragkb.Fault.{DocumentError, is_document}
use ragkb.Action.{ok, Result-cases}
use ragkb.Domain.Document.{Document, has_md5_and_owner, upload_status_merged}
use ragkb.Domain.Document.Repo.{created, has_same_key}
use ragkb.Service.Documents.Tenants.{resolve_tenant-ok}
use ragkb.Service.Documents.Types.{InitiateParams, InitiateResult, file_ext}
use ragkb.Service.Documents.{
  DocumentService, World, new_document, resolve_tenant, resume_upload, start_upload, find_upload,
  initiate_upload,
}

positive : (z : ℤ) → leb_ℤ z (pos 0) ≡ false → (n : ℕ) × (z ≡ pos (suc n))
positive (pos zero) h = absurd (ground arith)
positive (pos (suc n)) h = (n, refl)
positive (negsuc n) h = absurd (ground arith)

module _ {R T O P K : Type 0} (s : DocumentService R T O P K) where
  -- The limits that a request is held to before anything is looked up.
  pub record IsAdmitted (p : InitiateParams) : Type 0 where
    -- One less than the number of parts.
    pub more : ℕ
    pub size_fits : p.total_size ≤ℤ s.limits.max_file_size
    pub ext_allowed : s.limits.allowed_exts (file_ext s.unicode p.file_name) ≡ true
    pub parts_are : p.total_parts ≡ pos (suc more)
    pub md5_given : p.file_md5 ≢ []

  -- A new upload: the row that is added, and that no row of the file and owner was there.
  pub record Starts (p : InitiateParams) (tag : Text) (w w' : World R T O P K) (r : InitiateResult)
      : Type 0 where
    pub id : ℤ
    pub time : ℕ
    pub result_is : r ≡ record { document_id = id; instant_hit = false; uploaded_parts = some [] }
    pub no_row :
        first_match (has_same_key s.docs.collation (new_document s p tag)) (s.docs.rows w.docs)
        ≡ none
    pub row_added :
        s.docs.rows w'.docs ≡ s.docs.rows w.docs ++ created id time (new_document s p tag) ∷ []

  -- What a request that is admitted did, by the live row of the file and owner.
  abbrev pub Initiated :
      InitiateParams → ℕ → Text → World R T O P K → World R T O P K → InitiateResult → Type 0
  Initiated p more tag w w' r =
      let row =
        first_match (has_md5_and_owner s.docs.collation p.file_md5 p.owner_id)
          (s.docs.rows w.docs) in
      ((doc : Document) × (row ≡ some doc)
        × (doc.upload_status ≡ upload_status_merged)
        × (w' ≡ w)
        × (r ≡ record { document_id = doc.id; instant_hit = true; uploaded_parts = none }))
      ⊎ ((doc : Document) × (row ≡ some doc)
          × (doc.upload_status ≢ upload_status_merged)
          × (w' ≡ w)
          × (r ≡ record {
            document_id = doc.id;
            instant_hit = false;
            uploaded_parts =
                some (keep (s.progress.has w.progress p.file_md5 p.owner_id) (range 0 (suc more)));
          }))
      ⊎ ((row ≡ none) × Starts p tag w w' r)

  resume_upload-ok :
      (p : InitiateParams) (more : ℕ) (doc : Document) (w w' : World R T O P K) (r : InitiateResult)
      → p.total_parts ≡ pos (suc more)
      → resume_upload s p doc w ≡ (ok r, w')
      → ((doc.upload_status ≡ upload_status_merged)
          × (w' ≡ w)
          × (r ≡ record { document_id = doc.id; instant_hit = true; uploaded_parts = none }))
        ⊎ ((doc.upload_status ≢ upload_status_merged)
            × (w' ≡ w)
            × (r ≡ record {
              document_id = doc.id;
              instant_hit = false;
              uploaded_parts =
                  some
                    (keep (s.progress.has w.progress p.file_md5 p.owner_id) (range 0 (suc more)));
            }))
  unfolding resume_upload
  resume_upload-ok p more doc w w' r count h =
      elim (Bool-cases (doc.upload_status == upload_status_merged)) [
        | inl merged ↦ inl (ground arith)
        | inr open_still ↦
            elim (Result-cases
              (s.progress.uploaded_parts p.file_md5 p.owner_id p.total_parts w.progress)) [
                | inl (l, e) ↦
                    let e' : s.progress.uploaded_parts p.file_md5 p.owner_id (pos (suc more))
                          w.progress
                        ≡ ok l =
                      rw (← count) e in
                    let kept =
                      s.progress.uploaded_parts_ok p.file_md5 p.owner_id (suc more) w.progress l
                        e' in
                    inr (ground arith, ground arith, rw (← kept) (ground arith))
                | inr (inl (x, e)) ↦ absurd (ground arith)
                | inr (inr (x, e)) ↦ absurd (ground arith)
              ]
      ]

  start_upload-Starts :
      (p : InitiateParams) (tag : Text) (w w' : World R T O P K) (r : InitiateResult)
      → start_upload s p tag w ≡ (ok r, w')
      → Starts p tag w w' r
  unfolding start_upload
  start_upload-Starts p tag w w' r h =
      let q = s.docs.create (new_document s p tag) w.docs in
      elim (Result-cases q.0) [
        | inl (doc, made) ↦
            let (id, t, is, _, fresh, rows) =
              s.docs.create_ok (new_document s p tag) doc w.docs q.1 (λ i. (made i, q.1)) in
            let kept : w'.docs ≡ q.1 = ground arith in
            record {
              id = id;
              time = t;
              result_is = ground arith;
              no_row = fresh;
              row_added =
                  ap s.docs.rows kept
                  ∙ rows
                  ∙ ap (λ (d : Document). s.docs.rows w.docs ++ d ∷ []) is;
            }
        | inr (inl (x, e)) ↦ absurd (ground arith)
        | inr (inr (x, e)) ↦ absurd (ground arith)
      ]

  find_upload-Initiated :
      (p : InitiateParams) (more : ℕ) (w w' : World R T O P K) (r : InitiateResult)
      → p.total_parts ≡ pos (suc more)
      → find_upload s p w ≡ (ok r, w')
      → (tag : Text) × (s.tenants.is_in w.tenants p.owner_id tag ≡ true)
        × Initiated p more tag w w' r
  unfolding find_upload
  find_upload-Initiated p more w w' r count h =
      elim (Result-cases (resolve_tenant s p.owner_id p.tenant_tag w).0) [
        | inl (tag, resolved) ↦
            let w₁ = (resolve_tenant s p.owner_id p.tenant_tag w).1 in
            let found : resolve_tenant s p.owner_id p.tenant_tag w ≡ (ok tag, w₁) =
              λ i. (resolved i, w₁) in
            let (same, member, _) = resolve_tenant-ok s p.owner_id p.tenant_tag tag w w₁ found in
            let lookup = s.docs.get_by_md5_and_owner p.file_md5 p.owner_id w.docs in
            elim (Result-cases lookup) [
              | inl (doc, read) ↦
                  let row = s.docs.get_by_md5_and_owner_ok p.file_md5 p.owner_id w.docs doc read in
                  let rest : resume_upload s p doc w ≡ (ok r, w') = ground arith in
                  (
                    tag,
                    member,
                    elim (resume_upload-ok p more doc w w' r count rest) [
                      | inl (merged, kept, is) ↦ inl (doc, row, merged, kept, is)
                      | inr (open_still, kept, is) ↦ inr (inl (doc, row, open_still, kept, is))
                    ],
                  )
              | inr (inl (x, failed)) ↦ elim (Bool-cases (is_document x DocumentError.not_found)) [
                | inl missing ↦
                    let none_there =
                      s.docs.get_by_md5_and_owner_not_found p.file_md5 p.owner_id w.docs x failed
                        missing in
                    let rest : start_upload s p tag w ≡ (ok r, w') = ground arith in
                    (tag, member, inr (inr (none_there, start_upload-Starts p tag w w' r rest)))
                | inr broken ↦ absurd (ground arith)
              ]
              | inr (inr (x, failed)) ↦ absurd (ground arith)
            ]
        | inr (inl (x, e)) ↦ absurd (ground arith)
        | inr (inr (x, e)) ↦ absurd (ground arith)
      ]

  initiate_upload-IsAdmitted :
      (p : InitiateParams) (w w' : World R T O P K) (r : InitiateResult)
      → initiate_upload s p w ≡ (ok r, w')
      → IsAdmitted p × (find_upload s p w ≡ (ok r, w'))
  unfolding initiate_upload
  initiate_upload-IsAdmitted p w w' r h =
      elim (Bool-cases (ltb_ℤ s.limits.max_file_size p.total_size)) [
        | inl large ↦ absurd (ground arith)
        | inr fits ↦ elim (Bool-cases (s.limits.allowed_exts (file_ext s.unicode p.file_name))) [
          | inr unsupported ↦ absurd (ground arith)
          | inl allowed ↦ elim (Bool-cases (leb_ℤ p.total_parts (pos 0))) [
            | inl no_parts ↦ absurd (ground arith)
            | inr some_parts ↦ elim (Bool-cases (p.file_md5 ==ᵗ [])) [
              | inl no_md5 ↦ absurd (ground arith)
              | inr given ↦
                  let (more, are) = positive p.total_parts some_parts in
                  (
                    record {
                      more = more;
                      size_fits = ground arith;
                      ext_allowed = allowed;
                      parts_are = are;
                      md5_given = λ blank. ground (arith, ==ᵗ_iff p.file_md5 []);
                    },
                    ground arith,
                  )
            ]
          ]
        ]
      ]

  -- A request that is answered was within the limits, and for a tenant of its user. Where a live row
  -- of the owner has an MD5 that the collation of the table takes for the one that was sent, it hits
  -- that document if it is merged, or goes on with it and is told exactly the parts that are marked
  -- under the MD5 that was sent, and these two change nothing; or no such row is there, and a new one
  -- is added where no row, deleted ones included, was in the way.
  pub initiate_upload-Initiated :
      (p : InitiateParams) (w w' : World R T O P K) (r : InitiateResult)
      → initiate_upload s p w ≡ (ok r, w')
      → (a : IsAdmitted p) × (tag : Text) × (s.tenants.is_in w.tenants p.owner_id tag ≡ true)
        × Initiated p a.more tag w w' r
  initiate_upload-Initiated p w w' r h =
      let (a, rest) = initiate_upload-IsAdmitted p w w' r h in
      let (tag, member, done) = find_upload-Initiated p a.more w w' r a.parts_are rest in
      (a, tag, member, done)
