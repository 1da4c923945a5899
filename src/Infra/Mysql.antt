-- ===== src/Infra/Mysql.antt =====
-- A table behind GORM and MySQL, as the repositories of internal/infra/mysql use it.
pub mod Documents
pub mod Users
use ragkb.Base.{
  ℕ, ℤ, ◌≡◌, ◌⊎◌, Bool, true, false, some, none, List, [], ◌∷◌, ◌++◌, first_match, pos, length,
  keep,
}
use ragkb.Action.{Result, ok, err, Action}
use ragkb.Fault.{Error, DocumentError, is_record_not_found, is_document}
use ragkb.Domain.Document.Repo.{update_rows}

-- What the table's definition and GORM's conventions say of its rows.
pub record Schema (Row : Type 0) : Type 0 where
  -- The row has this primary key.
  pub has_id : ℤ → Row → Bool
  -- The first row as it is stored: with its key, and with the time in `created_at`, `updated_at`.
  pub created : ℤ → ℕ → Row → Row
  -- `clash r q`: beside `q`, a unique key refuses `r`.
  pub clash : Row → Row → Bool

-- GORM over MySQL is not part of the repository: its calls are parameters, with the documented
-- effect of those that return no error. A read that fails says nothing, and a write that fails may
-- or may not have been done.
pub record Table (S : Type 0) {Row : Type 0} (c : Schema Row) : Type 0 where
  -- The rows, in the order of the primary key.
  pub rows : S → List Row
  -- time.Now() in the process
  pub now : S → ℕ
  -- db.Where(test).First(&row), by the primary key
  pub first : (Row → Bool) → S → Result Row
  -- db.Model(&row).Where(test).Count(&n)
  pub count : (Row → Bool) → S → Result ℤ
  -- db.Where(test).Order("created_at DESC").Offset(o).Limit(l).Find(&list)
  pub page : (Row → Bool) → ℤ → ℤ → S → Result (List Row)
  -- db.Create(&row)
  pub create : Row → Action S Row
  -- db.Model(&row).Where(test).Updates(columns), the columns set at a time that GORM reads
  pub updates : (Row → Bool) → (ℕ → Row → Row) → Action S (Unit {0})
  -- db.Where(test).Delete(&row)
  pub remove : (Row → Bool) → Action S (Unit {0})
  pub first_ok :
      (p : Row → Bool) (s : S) (r : Row) → first p s ≡ ok r → first_match p (rows s) ≡ some r
  pub first_missing :
      (p : Row → Bool) (s : S) (e : Error)
      → first p s ≡ err e
      → is_record_not_found e ≡ true
      → first_match p (rows s) ≡ none
  -- The library knows no error of the document domain.
  pub first_foreign :
      (p : Row → Bool) (s : S) (e : Error) (k : DocumentError)
      → first p s ≡ err e
      → is_document e k ≡ false
  pub count_ok :
      (p : Row → Bool) (s : S) (n : ℤ) → count p s ≡ ok n → n ≡ pos (length (keep p (rows s)))
  pub create_ok :
      (r r' : Row) (s s' : S)
      → create r s ≡ (ok r', s')
      → (id : ℤ) × (t : ℕ) × (r' ≡ c.created id t r)
        × (first_match (c.has_id id) (rows s) ≡ none)
        × (first_match (c.clash r) (rows s) ≡ none)
        × (rows s' ≡ rows s ++ r' ∷ [])
  -- Whether it fails or not, a new row is added or nothing is.
  pub create_any :
      (r : Row) (s : S)
      → (rows (create r s).1 ≡ rows s)
        ⊎ ((id : ℤ) × (t : ℕ) × (first_match (c.has_id id) (rows s) ≡ none)
            × (rows (create r s).1 ≡ rows s ++ c.created id t r ∷ []))
  -- Likewise, all rows of the condition are updated or none is.
  pub updates_any :
      (p : Row → Bool) (f : ℕ → Row → Row) (s : S)
      → (rows (updates p f s).1 ≡ rows s)
        ⊎ ((t : ℕ) × (rows (updates p f s).1 ≡ update_rows p (f t) (rows s)))
  pub updates_ok :
      (p : Row → Bool) (f : ℕ → Row → Row) (s s' : S) (u : Unit {0})
      → updates p f s ≡ (ok u, s')
      → (t : ℕ) × (rows s' ≡ update_rows p (f t) (rows s))
