-- ===== src/Text.antt =====
-- Go strings as lists of bytes, with the operations of `strings`, `strconv` and `fmt` that the
-- program calls on them.
pub mod Split
pub mod Decimal
pub mod Number
pub mod Extension
pub mod Quote
pub mod Collation
use Prim.Native.Char.{code}
use mathlib.Core.List.{reverse}
use ragkb.Base.{
  ℕ, zero, suc, ◌+◌, ◌≡◌, ◌≢◌, refl, ◌↔◌, inl, inr, Bool-cases, String, Bool, true, false, ◌&&◌,
  ◌||◌, Option, none, some, List, [], ◌∷◌, map, arith, ltb, leb, ◌==◌, ==_iff, if◌then◌else◌,
}

abbrev pub Text : Type 0
Text = List ℕ

-- A string literal; every literal of the program that is used here is ASCII.
abbrev pub lit : String → Text
lit String.[] = []
lit (String.◌∷◌ c s) = code c ∷ lit s

infix 50 ◌==ᵗ◌
unfoldable pub ◌==ᵗ◌ : Text → Text → Bool
[] ==ᵗ [] = true
[] ==ᵗ (y ∷ ys) = false
(x ∷ xs) ==ᵗ [] = false
(x ∷ xs) ==ᵗ (y ∷ ys) = x == y && xs ==ᵗ ys

pub ==ᵗ_sound : (s t : Text) → (s ==ᵗ t) ≡ true → s ≡ t
unfolding ◌==ᵗ◌
==ᵗ_sound [] [] h = refl
==ᵗ_sound [] (y ∷ ys) h = ground arith
==ᵗ_sound (x ∷ xs) [] h = ground arith
==ᵗ_sound (x ∷ xs) (y ∷ ys) h = ground (arith, ==ᵗ_sound xs ys)

pub ==ᵗ_refl : (s : Text) → (s ==ᵗ s) ≡ true
unfolding ◌==ᵗ◌
==ᵗ_refl [] = refl
==ᵗ_refl (x ∷ xs) = ground (arith, ==ᵗ_refl xs)

pub ==ᵗ_iff : (s t : Text) → ((s ==ᵗ t) ≡ true) ↔ (s ≡ t)
==ᵗ_iff s t = (==ᵗ_sound s t, λ e. rw (← e) (==ᵗ_refl s))

pub ne_false : {s t : Text} → s ≢ t → (s ==ᵗ t) ≡ false
ne_false {s} {t} h = elim (Bool-cases (s ==ᵗ t)) [
  | inl same ↦ absurd (h (==ᵗ_sound s t same))
  | inr differ ↦ differ
]

-- `strings.LastIndex(s, c)` for a separator of one byte; `none` is -1.
unfoldable pub last_index : ℕ → Text → Option ℕ
last_index c [] = none
last_index c (x ∷ xs) = elim (last_index c xs) [
  | some i ↦ some (suc i)
  | none ↦ if x == c then some 0 else none
]

unfoldable pub is_ascii : Text → Bool
is_ascii [] = true
is_ascii (x ∷ xs) = ltb x 128 && is_ascii xs

unfoldable pub lower_byte : ℕ → ℕ
lower_byte c = if leb b'A' c && leb c b'Z' then c + 32 else c

-- What Go's tables of Unicode say of texts that are not ASCII.
pub record Unicode : Type 0 where
  pub lower : Text → Text
  pub trim : Text → Text
  pub trim_right : Text → Text
  pub quoted : Text → Text

-- `strings.ToLower`: bytewise on ASCII.
unfoldable pub to_lower : Unicode → Text → Text
unfolding lower_byte is_ascii
to_lower u s = if is_ascii s then map lower_byte s else u.lower s

-- `asciiSpace` of package strings.
unfoldable pub is_space : ℕ → Bool
is_space c = c == 32 || leb 9 c && leb c 13

-- The second loop of `strings.TrimSpace`, over the reversed text.
trim_end : Unicode → Text → Text
unfolding is_space
trim_end u [] = []
trim_end u (c ∷ cs) =
    let shorter = trim_end u cs in
    if leb 128 c
    then u.trim_right (reverse (c ∷ cs))
    else if is_space c
    then shorter
    else reverse (c ∷ cs)

-- `strings.TrimSpace`: it leaves the bytewise loops at the first byte that is not ASCII.
unfoldable pub trim_space : Unicode → Text → Text
unfolding trim_end is_space
trim_space u [] = []
trim_space u (c ∷ cs) =
    let shorter = trim_space u cs in
    if leb 128 c
    then u.trim (c ∷ cs)
    else if is_space c
    then shorter
    else trim_end u (reverse (c ∷ cs))
