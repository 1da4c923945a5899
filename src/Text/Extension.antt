-- ===== src/Text/Extension.antt =====
-- `last_index` and `to_lower` on a text with a suffix behind a separator.
use ragkb.Base.{ℕ, ◌≡◌, refl, some, none, [], ◌∷◌, ◌++◌, arith, length}
use ragkb.Text.{Text, last_index}
use ragkb.Text.Split.{Lacks}

last_index-Lacks : (c : ℕ) (xs : Text) → Lacks c xs → last_index c xs ≡ none
unfolding last_index
last_index-Lacks c [] l = refl
last_index-Lacks c (x ∷ xs) l = ground (arith, last_index-Lacks c xs l.1)

-- The last separator is the one behind which none follows.
pub last_index-append :
    (c : ℕ) (xs ys : Text) → Lacks c ys → last_index c (xs ++ c ∷ ys) ≡ some (length xs)
unfolding last_index
last_index-append c [] ys l = ground (arith, last_index-Lacks c ys l)
last_index-append c (x ∷ xs) ys l = ground (arith, last_index-append c xs ys l)
