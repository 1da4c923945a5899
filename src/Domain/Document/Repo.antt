-- ===== src/Domain/Document/Repo.antt =====
-- internal/domain/document/repository.go: what the services rely on from the documents table.
use ragkb.Base.{
  ℕ, ℤ, ◌≡◌, ◌⊎◌, refl, Bool, true, false, ◌&&◌, ◌==ℤ◌, some, none, List, [], ◌∷◌, ◌++◌, map,
  first_match, arith, if◌then◌else◌,
}
use ragkb.Text.{Text}
use ragkb.Text.Collation.{Collation}
use ragkb.Fault.{Error, DocumentError, is_document}
use ragkb.Action.{Result, ok, err, Action}
use ragkb.Domain.Document.{
  Document, DocumentListQuery, has_id, has_live_id, has_md5_and_owner, with_merged, with_deleted,
}

-- The rows, each that passes the test changed.
abbrev pub update_rows : {A : Type 0} → (A → Bool) → (A → A) → List A → List A
update_rows p f = map (λ a. if p a then f a else a)

-- `created id t d` is the row for `d` under the identifier and the times that the database gives.
abbrev pub created : ℤ → ℕ → Document → Document
created id t d = record d { id = id; created_at = t; updated_at = t }

-- uk_md5_owner: the file and the owner of a row are unique, whether it is deleted or not.
abbrev pub has_same_key : Collation → Document → Document → Bool
has_same_key c d r = c.same r.file_md5 d.file_md5 && r.owner_id ==ℤ d.owner_id

-- Over the states `R` of the database. `rows` is the table's content in the order of its key.
pub record DocumentRepo (R : Type 0) : Type 0 where
  pub collation : Collation
  pub rows : R → List Document
  pub create : Document → Action R Document
  pub get_by_id : ℤ → R → Result Document
  pub get_by_id_any : ℤ → R → Result Document
  pub get_by_md5_and_owner : Text → ℤ → R → Result Document
  pub list_by_owner : DocumentListQuery → R → Result (List Document × ℤ)
  pub mark_merged : ℤ → ℤ → Action R (Unit {0})
  pub mark_ingest_processing : ℤ → Action R (Unit {0})
  pub mark_ingest_done : ℤ → ℤ → Text → Action R (Unit {0})
  pub mark_ingest_failed : ℤ → Text → Action R (Unit {0})
  pub soft_delete : ℤ → Action R (Unit {0})
  pub hard_delete : ℤ → Action R (Unit {0})
  pub get_by_id_ok :
      (id : ℤ) (s : R) (d : Document)
      → get_by_id id s ≡ ok d
      → first_match (has_live_id id) (rows s) ≡ some d
  pub get_by_id_not_found :
      (id : ℤ) (s : R) (e : Error)
      → get_by_id id s ≡ err e
      → is_document e DocumentError.not_found ≡ true
      → first_match (has_live_id id) (rows s) ≡ none
  pub get_by_id_any_ok :
      (id : ℤ) (s : R) (d : Document)
      → get_by_id_any id s ≡ ok d
      → first_match (has_id id) (rows s) ≡ some d
  pub get_by_id_any_not_found :
      (id : ℤ) (s : R) (e : Error)
      → get_by_id_any id s ≡ err e
      → is_document e DocumentError.not_found ≡ true
      → first_match (has_id id) (rows s) ≡ none
  pub get_by_md5_and_owner_ok :
      (md5 : Text) (owner : ℤ) (s : R) (d : Document)
      → get_by_md5_and_owner md5 owner s ≡ ok d
      → first_match (has_md5_and_owner collation md5 owner) (rows s) ≡ some d
  pub get_by_md5_and_owner_not_found :
      (md5 : Text) (owner : ℤ) (s : R) (e : Error)
      → get_by_md5_and_owner md5 owner s ≡ err e
      → is_document e DocumentError.not_found ≡ true
      → first_match (has_md5_and_owner collation md5 owner) (rows s) ≡ none
  -- A row is written under a fresh identifier, and only beside rows of another file or owner,
  -- deleted rows included.
  pub create_ok :
      (d d' : Document) (s s' : R)
      → create d s ≡ (ok d', s')
      → (id : ℤ) × (t : ℕ) × (d' ≡ created id t d)
        × (first_match (has_id id) (rows s) ≡ none)
        × (first_match (has_same_key collation d) (rows s) ≡ none)
        × (rows s' ≡ rows s ++ d' ∷ [])
  pub mark_merged_ok :
      (id size : ℤ) (s s' : R) (u : Unit {0})
      → mark_merged id size s ≡ (ok u, s')
      → (t : ℕ) × (rows s' ≡ update_rows (has_id id) (with_merged size t) (rows s))
  -- Whether a call fails or not, it has changed the rows or left them as they were.
  pub create_any :
      (d : Document) (s : R)
      → (rows (create d s).1 ≡ rows s)
        ⊎ ((id : ℤ) × (t : ℕ) × (first_match (has_id id) (rows s) ≡ none)
            × (rows (create d s).1 ≡ rows s ++ created id t d ∷ []))
  pub mark_merged_any :
      (id size : ℤ) (s : R)
      → (rows (mark_merged id size s).1 ≡ rows s)
        ⊎ ((t : ℕ) × (rows (mark_merged id size s).1
              ≡ update_rows (has_id id) (with_merged size t) (rows s)))
  pub soft_delete_any :
      (id : ℤ) (s : R)
      → (rows (soft_delete id s).1 ≡ rows s)
        ⊎ ((at : ℕ) × (t : ℕ) × (rows (soft_delete id s).1
              ≡ update_rows (has_live_id id) (with_deleted at t) (rows s)))
  pub soft_delete_ok :
      (id : ℤ) (s s' : R) (u : Unit {0})
      → soft_delete id s ≡ (ok u, s')
      → (at : ℕ) × (t : ℕ) × (rows s' ≡ update_rows (has_live_id id) (with_deleted at t) (rows s))

module _ {A : Type 0} (p q : A → Bool) (f : A → A) where
  -- An update that leaves the test alone changes the first match in its place.
  pub first_match-update :
      ((x : A) → p (if q x then f x else x) ≡ p x)
      → (xs : List A) (x : A) → first_match p xs ≡ some x
      → first_match p (update_rows q f xs) ≡ some (if q x then f x else x)
  first_match-update same [] x h = absurd (ground arith)
  first_match-update same (y ∷ xs) x h = ground (arith, same y, first_match-update same xs x)

  -- An update after which the test fails leaves no match.
  pub first_match-update_none :
      ((x : A) → p (if q x then f x else x) ≡ false)
      → (xs : List A) → first_match p (update_rows q f xs) ≡ none
  first_match-update_none fails [] = refl
  first_match-update_none fails (y ∷ xs) = rw (fails y) (first_match-update_none fails xs)
