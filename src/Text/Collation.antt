-- ===== src/Text/Collation.antt =====
-- How the text columns of migrations/init.sql are compared. The tables name no collation, and the
-- default one of MySQL ignores the letter case, so `=` on a column is not the equality of bytes.
use ragkb.Base.{◌≡◌, Bool, true}
use ragkb.Text.{Text}

-- The collation is not part of the repository: `same` is an equivalence, which the letter case or an
-- accent may not change.
pub record Collation : Type 0 where
  pub same : Text → Text → Bool
  pub same_refl : (a : Text) → same a a ≡ true
  pub same_sym : (a b : Text) → same a b ≡ same b a
  pub same_trans : (a b c : Text) → same a b ≡ true → same b c ≡ true → same a c ≡ true
