-- ===== src/Infra/Mysql/Documents/Laws.antt =====
-- The repository of documents keeps the contract of its interface.
use ragkb.Base.{
  ℕ, ℤ, [], ◌∷◌, ◌++◌, ◌≤◌, ◌≡◌, refl, ◌⊎◌, inl, inr, Bool, true, none, some, arith, Bool-cases,
  first_match, length, length-take-le, take, ltb, ltb_false→le, if◌then◌else◌,
}
use ragkb.Text.{Text, Unicode, trim_space}
use ragkb.Fault.{Error, DocumentError, is_document, is_record_not_found, is_duplicate_key}
use ragkb.Action.{Result, ok, err, panic, Result-cases}
use ragkb.Domain.Document.{
  Document, has_id, has_live_id, has_md5_and_owner, with_merged, with_deleted,
}
use ragkb.Domain.Document.Repo.{DocumentRepo, update_rows, created}
use ragkb.Text.Collation.{Collation}
use ragkb.Infra.Mysql.{Table}
use ragkb.Infra.Mysql.Documents.{
  documents, or_not_found, create, get_by_id, get_by_id_any, get_by_md5_and_owner, list_by_owner,
  mark_merged, mark_ingest_processing, mark_ingest_done, mark_ingest_failed, soft_delete,
  hard_delete, failure_message,
}

cut-length : (s : Text) → length (if ltb 512 (length s) then take 512 s else s) ≤ 512
cut-length s = elim (Bool-cases (ltb 512 (length s))) [
  | inl long ↦ rw long (length-take-le 512 s)
  | inr short ↦ rw short (ltb_false→le 512 (length s) short)
]

or_not_found-ok : {A : Type 0} (r : Result A) (a : A) → or_not_found r ≡ ok a → r ≡ ok a
unfolding or_not_found
or_not_found-ok r a h = ground arith

or_not_found-err :
    {A : Type 0} (r : Result A) (e : Error)
    → or_not_found r ≡ err e
    → (e' : Error) × (r ≡ err e') × ((is_record_not_found e' ≡ true) ⊎ (e ≡ e'))
unfolding or_not_found
or_not_found-err (ok a) e h = cc
or_not_found-err (panic p) e h = cc
or_not_found-err (err e') e h = elim (Bool-cases (is_record_not_found e')) [
  | inl missing ↦ (e', refl, inl missing)
  | inr other_error ↦ (e', refl, inr (ground arith))
]

module _ {S : Type 0} (u : Unicode) (c : Collation) (t : Table S (documents c)) where
  open t use {rows, first, first_ok, first_missing, first_foreign}

  -- A lookup that reports ErrNotFound has found no row.
  or_not_found-missing :
      (p : Document → Bool) (s : S) (e : Error)
      → or_not_found (first p s) ≡ err e
      → is_document e DocumentError.not_found ≡ true
      → first_match p (rows s) ≡ none
  or_not_found-missing p s e h k =
      let (e', failed, why) = or_not_found-err (first p s) e h in
      elim why [
        | inl missing ↦ first_missing p s e' failed missing
        | inr same ↦
            let foreign = first_foreign p s e' DocumentError.not_found failed in
            let known : is_document e' DocumentError.not_found ≡ true = rw (← same) k in
            cc (foreign, known)
      ]

  pub create_done :
      (d d' : Document) (s s' : S) → create u c t d s ≡ (ok d', s') → t.create d s ≡ (ok d', s')
  unfolding create
  create_done d d' s s' h = ground arith

  pub get_by_id_found :
      (id : ℤ) (s : S) (d : Document)
      → get_by_id u c t id s ≡ ok d
      → first_match (has_live_id id) (rows s) ≡ some d
  unfolding get_by_id
  get_by_id_found id s d h = first_ok (has_live_id id) s d (or_not_found-ok _ d h)

  pub get_by_id_missing :
      (id : ℤ) (s : S) (e : Error)
      → get_by_id u c t id s ≡ err e
      → is_document e DocumentError.not_found ≡ true
      → first_match (has_live_id id) (rows s) ≡ none
  unfolding get_by_id
  get_by_id_missing id s e h k = or_not_found-missing (has_live_id id) s e h k

  pub get_by_id_any_found :
      (id : ℤ) (s : S) (d : Document)
      → get_by_id_any u c t id s ≡ ok d
      → first_match (has_id id) (rows s) ≡ some d
  unfolding get_by_id_any
  get_by_id_any_found id s d h = first_ok (has_id id) s d (or_not_found-ok _ d h)

  pub get_by_id_any_missing :
      (id : ℤ) (s : S) (e : Error)
      → get_by_id_any u c t id s ≡ err e
      → is_document e DocumentError.not_found ≡ true
      → first_match (has_id id) (rows s) ≡ none
  unfolding get_by_id_any
  get_by_id_any_missing id s e h k = or_not_found-missing (has_id id) s e h k

  pub get_by_md5_and_owner_found :
      (md5 : Text) (owner : ℤ) (s : S) (d : Document)
      → get_by_md5_and_owner u c t md5 owner s ≡ ok d
      → first_match (has_md5_and_owner c md5 owner) (rows s) ≡ some d
  unfolding get_by_md5_and_owner
  get_by_md5_and_owner_found md5 owner s d h =
      first_ok (has_md5_and_owner c md5 owner) s d (or_not_found-ok _ d h)

  pub get_by_md5_and_owner_missing :
      (md5 : Text) (owner : ℤ) (s : S) (e : Error)
      → get_by_md5_and_owner u c t md5 owner s ≡ err e
      → is_document e DocumentError.not_found ≡ true
      → first_match (has_md5_and_owner c md5 owner) (rows s) ≡ none
  unfolding get_by_md5_and_owner
  get_by_md5_and_owner_missing md5 owner s e h k =
      or_not_found-missing (has_md5_and_owner c md5 owner) s e h k

  pub mark_merged_done :
      (id size : ℤ) (s s' : S) (v : Unit {0})
      → mark_merged u c t id size s ≡ (ok v, s')
      → (at : ℕ) × (rows s' ≡ update_rows (has_id id) (with_merged size at) (rows s))
  unfolding mark_merged
  mark_merged_done id size s s' v h = t.updates_ok (has_id id) (with_merged size) s s' v h

  pub soft_delete_done :
      (id : ℤ) (s s' : S) (v : Unit {0})
      → soft_delete u c t id s ≡ (ok v, s')
      → (at : ℕ) × (n : ℕ) × (rows s' ≡ update_rows (has_live_id id) (with_deleted at n) (rows s))
  unfolding soft_delete
  soft_delete_done id s s' v h =
      let (n, e) = t.updates_ok (has_live_id id) (with_deleted (t.now s)) s s' v h in
      (t.now s, n, e)

  create-end : (d : Document) (s : S) → (create u c t d s).1 ≡ (t.create d s).1
  unfolding create
  create-end d s = elim (Result-cases (t.create d s).0) [
    | inl (a, done) ↦ ground arith
    | inr (inl (x, failed)) ↦ ground (arith, Bool-cases (is_duplicate_key x))
    | inr (inr (x, failed)) ↦ ground arith
  ]

  pub create_any_done :
      (d : Document) (s : S)
      → (rows (create u c t d s).1 ≡ rows s)
        ⊎ ((id : ℤ) × (n : ℕ) × (first_match (has_id id) (rows s) ≡ none)
            × (rows (create u c t d s).1 ≡ rows s ++ created id n d ∷ []))
  create_any_done d s = rw (create-end d s) (t.create_any d s)

  pub mark_merged_any_done :
      (id size : ℤ) (s : S)
      → (rows (mark_merged u c t id size s).1 ≡ rows s)
        ⊎ ((n : ℕ) × (rows (mark_merged u c t id size s).1
              ≡ update_rows (has_id id) (with_merged size n) (rows s)))
  unfolding mark_merged
  mark_merged_any_done id size s = t.updates_any (has_id id) (with_merged size) s

  pub soft_delete_any_done :
      (id : ℤ) (s : S)
      → (rows (soft_delete u c t id s).1 ≡ rows s)
        ⊎ ((at : ℕ) × (n : ℕ) × (rows (soft_delete u c t id s).1
              ≡ update_rows (has_live_id id) (with_deleted at n) (rows s)))
  unfolding soft_delete
  soft_delete_any_done id s = elim (t.updates_any (has_live_id id) (with_deleted (t.now s)) s) [
    | inl same ↦ inl same
    | inr (n, changed) ↦ inr (t.now s, n, changed)
  ]

  -- The interface, filled by the code over any table that does what GORM documents.
  unfoldable pub document_repo : DocumentRepo S
  document_repo = record {
    collation = c;
    rows = rows;
    create = create u c t;
    get_by_id = get_by_id u c t;
    get_by_id_any = get_by_id_any u c t;
    get_by_md5_and_owner = get_by_md5_and_owner u c t;
    list_by_owner = list_by_owner u c t;
    mark_merged = mark_merged u c t;
    mark_ingest_processing = mark_ingest_processing u c t;
    mark_ingest_done = mark_ingest_done u c t;
    mark_ingest_failed = mark_ingest_failed u c t;
    soft_delete = soft_delete u c t;
    hard_delete = hard_delete u c t;
    get_by_id_ok = get_by_id_found;
    get_by_id_not_found = get_by_id_missing;
    get_by_id_any_ok = get_by_id_any_found;
    get_by_id_any_not_found = get_by_id_any_missing;
    get_by_md5_and_owner_ok = get_by_md5_and_owner_found;
    get_by_md5_and_owner_not_found = get_by_md5_and_owner_missing;
    create_ok = λ d d' s s' h. t.create_ok d d' s s' (create_done d d' s s' h);
    create_any = create_any_done;
    mark_merged_any = mark_merged_any_done;
    soft_delete_any = soft_delete_any_done;
    mark_merged_ok = mark_merged_done;
    soft_delete_ok = soft_delete_done;
  }

  -- The reason that is stored fits the 512 bytes of its column, whatever text is handed in.
  pub failure_message-length : (text : Text) → length (failure_message u c t text) ≤ 512
  unfolding failure_message
  failure_message-length text = cut-length (trim_space u text)
