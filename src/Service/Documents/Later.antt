-- ===== src/Service/Documents/Later.antt =====
-- What the calls of internal/service/document/document.go leave of a merged row in the table.
use ragkb.Base.{
  ℕ, ℤ, ◌≡◌, sym, subst, inl, inr, Bool, true, ==ℤ_iff, none, some, List, [], ◌∷◌, ◌++◌, All, arith,
  Bool-cases, first_match, first_match-holds, and_true, if◌then◌else◌,
}
use ragkb.Domain.Document.{
  Document, has_id, has_live_id, with_merged, with_deleted, upload_status_merged,
}
use ragkb.Domain.Document.Repo.{DocumentRepo, update_rows, created, first_match-update}

-- A table behind calls that create, merge and delete rows, whether they have failed or not.
pub data Later {R : Type 0} (docs : DocumentRepo R) (r : R) : R → Type 0 where
  here : Later docs r r
  creates : {r' : R} (d : Document) → Later docs r r' → Later docs r (docs.create d r').1
  merges : {r' : R} (id size : ℤ) → Later docs r r' → Later docs r (docs.mark_merged id size r').1
  deletes : {r' : R} (id : ℤ) → Later docs r r' → Later docs r (docs.soft_delete id r').1

abbrev MergedIf : ℤ → Document → Type 0
MergedIf id d = has_id id d ≡ true → d.upload_status ≡ upload_status_merged

-- There are rows of that number, and all are merged.
pub record IsDone (id : ℤ) (rows : List Document) : Type 0 where
  pub row : Document
  pub there : first_match (has_id id) rows ≡ some row
  pub all_merged : All (MergedIf id) rows

module _ (id : ℤ) where
  All-first_match :
      (rows : List Document) (d : Document)
      → All (MergedIf id) rows
      → first_match (has_live_id id) rows ≡ some d
      → d.upload_status ≡ upload_status_merged
  All-first_match [] d all h = absurd (ground arith)
  All-first_match (x ∷ xs) d all h = elim (Bool-cases (has_live_id id x)) [
    | inl live ↦
        let same : x ≡ d = ground arith in
        subst (λ (y : Document). y.upload_status ≡ upload_status_merged) same
          (all.0 (and_true _ _ live).0)
    | inr other ↦ All-first_match xs d all.1 (ground arith)
  ]

  first_match-append :
      (xs ys : List Document) (d : Document)
      → first_match (has_id id) xs ≡ some d
      → first_match (has_id id) (xs ++ ys) ≡ some d
  first_match-append [] ys d h = absurd (ground arith)
  first_match-append (x ∷ xs) ys d h = elim (Bool-cases (has_id id x)) [
    | inl this ↦ ground arith
    | inr other ↦ ground (arith, first_match-append xs ys d)
  ]

  All-snoc :
      (xs : List Document) (y : Document)
      → All (MergedIf id) xs
      → MergedIf id y
      → All (MergedIf id) (xs ++ y ∷ [])
  All-snoc [] y all last = (last, tt)
  All-snoc (x ∷ xs) y all last = (all.0, All-snoc xs y all.1 last)

  create-IsDone :
      (rows : List Document) (id' : ℤ) (t : ℕ) (d : Document)
      → first_match (has_id id') rows ≡ none
      → IsDone id rows
      → IsDone id (rows ++ created id' t d ∷ [])
  create-IsDone rows id' t d fresh m = record {
    row = m.row;
    there = first_match-append rows (created id' t d ∷ []) m.row m.there;
    all_merged = All-snoc rows (created id' t d) m.all_merged λ same.
        let is : id' ≡ id = (==ℤ_iff id' id).0 same in
        let missing = subst (λ i. first_match (has_id i) rows ≡ none) is fresh in
        absurd (ground (arith, m.there));
  }

  module _ (q : Document → Bool) (f : Document → Document)
      (same_id : (x : Document) → has_id id (if q x then f x else x) ≡ has_id id x)
      (stays : (x : Document) → MergedIf id x → MergedIf id (if q x then f x else x)) where
    All-update :
        (rows : List Document) → All (MergedIf id) rows → All (MergedIf id) (update_rows q f rows)
    All-update [] all = tt
    All-update (x ∷ xs) all = (stays x all.0, All-update xs all.1)

    update-IsDone : (rows : List Document) → IsDone id rows → IsDone id (update_rows q f rows)
    update-IsDone rows m = record {
      row = if q m.row then f m.row else m.row;
      there = first_match-update (has_id id) q f same_id rows m.row m.there;
      all_merged = All-update rows m.all_merged;
    }

  mark_merged-IsDone :
      (rows : List Document) (id' size : ℤ) (t : ℕ)
      → IsDone id rows
      → IsDone id (update_rows (has_id id') (with_merged size t) rows)
  mark_merged-IsDone rows id' size t m =
      update-IsDone (has_id id') (with_merged size t) (λ x. ground arith)
        (λ x h same. ground (arith, Bool-cases (has_id id' x))) rows m

  soft_delete-IsDone :
      (rows : List Document) (id' : ℤ) (at t : ℕ)
      → IsDone id rows
      → IsDone id (update_rows (has_live_id id') (with_deleted at t) rows)
  soft_delete-IsDone rows id' at t m =
      update-IsDone (has_live_id id') (with_deleted at t) (λ x. ground arith)
        (λ x h same. ground (arith, Bool-cases (has_live_id id' x))) rows m

  -- Marking the rows of a number makes them merged.
  All-with_merged :
      (rows : List Document) (size : ℤ) (t : ℕ)
      → All (MergedIf id) (update_rows (has_id id) (with_merged size t) rows)
  All-with_merged [] size t = tt
  All-with_merged (x ∷ xs) size t =
      (λ same. ground (arith, Bool-cases (has_id id x)), All-with_merged xs size t)

  first_match-live :
      (rows : List Document) (d : Document)
      → first_match (has_live_id id) rows ≡ some d
      → (d' : Document) × (first_match (has_id id) rows ≡ some d')
  first_match-live [] d h = absurd (ground arith)
  first_match-live (x ∷ xs) d h = elim (Bool-cases (has_id id x)) [
    | inl this ↦ (x, ground arith)
    | inr other ↦ let (d', there) = first_match-live xs d (ground arith) in (d', ground arith)
  ]

  -- Behind a merge of a live row.
  pub marked-IsDone :
      (rows : List Document) (d : Document) (size : ℤ) (t : ℕ)
      → first_match (has_live_id id) rows ≡ some d
      → IsDone id (update_rows (has_id d.id) (with_merged size t) rows)
  marked-IsDone rows d size t live =
      let is : d.id ≡ id =
        (==ℤ_iff d.id id).0 (and_true _ _ (first_match-holds (has_live_id id) rows d live)).0 in
      let (d', there) = first_match-live rows d live in
      let marked : IsDone id (update_rows (has_id id) (with_merged size t) rows) = record {
        row = if has_id id d' then with_merged size t d' else d';
        there =
            first_match-update (has_id id) (has_id id) (with_merged size t) (λ x. ground arith) rows
              d' there;
        all_merged = All-with_merged rows size t;
      } in
      subst (λ i. IsDone id (update_rows (has_id i) (with_merged size t) rows)) (sym is) marked

  module _ {R : Type 0} (docs : DocumentRepo R) where
    -- A merged row is never an open one again.
    pub Later-IsDone :
        (r r' : R) → Later docs r r' → IsDone id (docs.rows r) → IsDone id (docs.rows r')
    Later-IsDone r _ here m = m
    Later-IsDone r _ (creates {r'} d before) m =
        let k = Later-IsDone r r' before m in
        elim (docs.create_any d r') [
          | inl same ↦ subst (IsDone id) (sym same) k
          | inr (id', t, fresh, rows) ↦
              subst (IsDone id) (sym rows) (create-IsDone _ id' t d fresh k)
        ]
    Later-IsDone r _ (merges {r'} id' size before) m =
        let k = Later-IsDone r r' before m in
        elim (docs.mark_merged_any id' size r') [
          | inl same ↦ subst (IsDone id) (sym same) k
          | inr (t, rows) ↦ subst (IsDone id) (sym rows) (mark_merged-IsDone _ id' size t k)
        ]
    Later-IsDone r _ (deletes {r'} id' before) m =
        let k = Later-IsDone r r' before m in
        elim (docs.soft_delete_any id' r') [
          | inl same ↦ subst (IsDone id) (sym same) k
          | inr (at, t, rows) ↦ subst (IsDone id) (sym rows) (soft_delete-IsDone _ id' at t k)
        ]

    pub IsDone-live :
        (r : R) (d : Document)
        → IsDone id (docs.rows r)
        → first_match (has_live_id id) (docs.rows r) ≡ some d
        → d.upload_status ≡ upload_status_merged
    IsDone-live r d m live = All-first_match (docs.rows r) d m.all_merged live
