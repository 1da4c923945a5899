-- ===== src/Base/Lists.antt =====
-- Lists measured by native numbers, tests on their elements, and ranges of indices.
use Prim.Native.Nat.{ℕ, zero, suc, ◌+◌, ◌≤◌, ◌<◌}
use mathlib.Core.Path.{◌≡◌, refl, ap, subst}
use mathlib.Core.Logic.{◌≢◌, ◌⊎◌, inl, inr}
use mathlib.Core.Bool.{Bool, true, false}
use mathlib.Core.List.{List, [], ◌∷◌, ◌++◌, map}
use mathlib.Core.Option.{Option, none, some, some-injective}
use native.Mathlib.Omega.{arith}
use native.Mathlib.Decide.{ℕ_discrete}
use ragkb.Base.Tests.{if◌then◌else◌, Bool-cases}

module _ {ℓ} {A : Type ℓ} where
  abbrev pub length : List A → ℕ
  length [] = 0
  length (x ∷ xs) = suc (length xs)

  pub length-append : (xs ys : List A) → length (xs ++ ys) ≡ length xs + length ys
  length-append [] ys = omega arith
  length-append (x ∷ xs) ys = omega (arith, length-append xs ys)

  abbrev pub take : ℕ → List A → List A
  take zero xs = []
  take (suc n) [] = []
  take (suc n) (x ∷ xs) = x ∷ take n xs

  abbrev pub drop : ℕ → List A → List A
  drop zero xs = xs
  drop (suc n) [] = []
  drop (suc n) (x ∷ xs) = drop n xs

  pub length-take-le : (n : ℕ) (xs : List A) → length (take n xs) ≤ n
  length-take-le zero xs = omega arith
  length-take-le (suc n) [] = omega arith
  length-take-le (suc n) (x ∷ xs) = omega (arith, length-take-le n xs)

  -- The elements that pass a test, in their order.
  abbrev pub keep : (A → Bool) → List A → List A
  keep p [] = []
  keep p (x ∷ xs) = if p x then x ∷ keep p xs else keep p xs

  -- The first element that passes a test.
  abbrev pub first_match : (A → Bool) → List A → Option A
  first_match p [] = none
  first_match p (x ∷ xs) = if p x then some x else first_match p xs

-- The numbers from `i` up, `n` of them.
abbrev pub range : ℕ → ℕ → List ℕ
range i zero = []
range i (suc n) = i ∷ range (suc i) n

pub length-range : (i n : ℕ) → length (range i n) ≡ n
length-range i zero = refl
length-range i (suc n) = ap suc (length-range (suc i) n)

-- The given statement holds of every element.
abbrev pub All {ℓ κ} : {A : Type ℓ} → (A → Type κ) → List A → Type κ
All P [] = Unit
All P (x ∷ xs) = P x × All P xs

module _ (p : ℕ → Bool) where
  pub length-keep-range-le : (i n : ℕ) → length (keep p (range i n)) ≤ n
  length-keep-range-le i zero = omega arith
  length-keep-range-le i (suc n) = ground (arith, length-keep-range-le (suc i) n)

  -- A range that is kept whole passes the test everywhere.
  pub keep-range-all :
      (i n : ℕ) → length (keep p (range i n)) ≡ n → (j : ℕ) → i ≤ j → j < i + n → p j ≡ true
  keep-range-all i zero e j low high = absurd (omega arith)
  keep-range-all i (suc n) e j low high = elim (Bool-cases (p i)) [
    | inl passes ↦
        let more : length (keep p (range (suc i) n)) ≡ n = ground arith in
        elim (ℕ_discrete i j) [
          | yes here ↦ subst (λ k. p k ≡ true) here passes
          | no later ↦ keep-range-all (suc i) n more j (omega arith) (omega arith)
        ]
    | inr fails ↦
        let few = length-keep-range-le (suc i) n in
        let all : length (keep p (range (suc i) n)) ≡ suc n = ground arith in absurd (omega arith)
  ]

  -- One that is not has an element that fails.
  pub keep-range-some :
      (i n : ℕ) → length (keep p (range i n)) ≢ n → (j : ℕ) × (i ≤ j) × (j < i + n) × (p j ≡ false)
  keep-range-some i zero e = absurd (e refl)
  keep-range-some i (suc n) e = elim (Bool-cases (p i)) [
    | inr fails ↦ (i, omega arith, omega arith, fails)
    | inl passes ↦
        let less : length (keep p (range (suc i) n)) ≢ n = (λ same. e (rw passes (ap suc same))) in
        let (j, low, high, fails) = keep-range-some (suc i) n less in
        (j, omega arith, omega arith, fails)
  ]

module _ {ℓ} {A : Type ℓ} (p : A → Bool) where
  -- What the first match is, passes the test.
  pub first_match-holds : (xs : List A) (x : A) → first_match p xs ≡ some x → p x ≡ true
  first_match-holds [] x h = cc
  first_match-holds (y ∷ xs) x h = elim (Bool-cases (p y)) [
    | inl passes ↦
        let same : some y ≡ some x = rw passes at h in
        subst (λ z. p z ≡ true) (some-injective y x same) passes
    | inr fails ↦ first_match-holds xs x (rw fails at h)
  ]

-- The first is one of the list.
abbrev pub IsIn : {A : Type 0} → A → List A → Type 0
IsIn x [] = ⊥
IsIn x (y ∷ ys) = (x ≡ y) ⊎ IsIn x ys

module _ {A : Type 0} where
  pub IsIn-snoc : (x y : A) (xs : List A) → IsIn x (xs ++ y ∷ []) → IsIn x xs ⊎ (x ≡ y)
  IsIn-snoc x y [] (inl here) = inr here
  IsIn-snoc x y [] (inr there) = absurd there
  IsIn-snoc x y (z ∷ xs) (inl here) = inl (inl here)
  IsIn-snoc x y (z ∷ xs) (inr there) = elim (IsIn-snoc x y xs there) [
    | inl before ↦ inl (inr before)
    | inr last ↦ inr last
  ]

  -- An element of a changed list is one that was there, changed.
  pub IsIn-map :
      (f : A → A) (x : A) (xs : List A) → IsIn x (map f xs) → (y : A) × IsIn y xs × (x ≡ f y)
  IsIn-map f x [] h = absurd h
  IsIn-map f x (y ∷ ys) (inl here) = (y, inl refl, here)
  IsIn-map f x (y ∷ ys) (inr there) =
      let (z, is_in, same) = IsIn-map f x ys there in (z, inr is_in, same)

  pub IsIn-first_match :
      (p : A → Bool) (xs : List A) (x : A) → first_match p xs ≡ some x → IsIn x xs
  IsIn-first_match p [] x h = absurd (ground arith)
  IsIn-first_match p (y ∷ ys) x h = elim (Bool-cases (p y)) [
    | inl yes_y ↦ inl (ground arith)
    | inr no_y ↦ inr (IsIn-first_match p ys x (ground arith))
  ]

  -- Where no element passes a test, each fails it.
  pub IsIn-none :
      (p : A → Bool) (xs : List A) (x : A) → first_match p xs ≡ none → IsIn x xs → p x ≡ false
  IsIn-none p [] x h there = absurd there
  IsIn-none p (y ∷ ys) x h there = elim (Bool-cases (p y)) [
    | inl yes_y ↦ absurd (ground arith)
    | inr no_y ↦ elim there [
      | inl here ↦ rw here no_y
      | inr later ↦ IsIn-none p ys x (ground arith) later
    ]
  ]
