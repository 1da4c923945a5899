-- ===== src/Text/Split.antt =====
-- Joined texts taken apart at a separator, as the keys of the stores are built.
use ragkb.Base.{ℕ, ◌≡◌, ◌≢◌, refl, subst, [], ◌∷◌, ◌++◌, All}
use ragkb.Text.{Text}

abbrev pub Lacks : ℕ → Text → Type 0
Lacks c = All (λ d. d ≢ c)

not-Lacks-append : (c : ℕ) (xs ys : Text) → ¬ Lacks c (xs ++ c ∷ ys)
not-Lacks-append c [] ys h = h.0 refl
not-Lacks-append c (x ∷ xs) ys h = not-Lacks-append c xs ys h.1

-- At a separator that neither tail holds, a joined text splits in one way.
pub split_last :
    (c : ℕ) (xs xs' ys ys' : Text)
    → Lacks c ys
    → Lacks c ys'
    → xs ++ c ∷ ys ≡ xs' ++ c ∷ ys'
    → (xs ≡ xs') × (ys ≡ ys')
split_last c [] [] ys ys' l l' e = (refl, cc)
split_last c [] (x ∷ xs') ys ys' l l' e =
    let tails : ys ≡ xs' ++ c ∷ ys' = cc in
    absurd (not-Lacks-append c xs' ys' (subst (Lacks c) tails l))
split_last c (x ∷ xs) [] ys ys' l l' e =
    let tails : ys' ≡ xs ++ c ∷ ys = cc in
    absurd (not-Lacks-append c xs ys (subst (Lacks c) tails l'))
split_last c (x ∷ xs) (x' ∷ xs') ys ys' l l' e =
    let tails : xs ++ c ∷ ys ≡ xs' ++ c ∷ ys' = cc in
    let heads : x ≡ x' = cc in
    let (fronts, backs) = split_last c xs xs' ys ys' l l' tails in (cc, backs)

-- So it does at one that neither front holds.
pub split_first :
    (c : ℕ) (xs xs' ys ys' : Text)
    → Lacks c xs
    → Lacks c xs'
    → xs ++ c ∷ ys ≡ xs' ++ c ∷ ys'
    → (xs ≡ xs') × (ys ≡ ys')
split_first c [] [] ys ys' l l' e = (refl, cc)
split_first c [] (x ∷ xs') ys ys' l l' e = let heads : x ≡ c = cc in absurd (l'.0 heads)
split_first c (x ∷ xs) [] ys ys' l l' e = let heads : x ≡ c = cc in absurd (l.0 heads)
split_first c (x ∷ xs) (x' ∷ xs') ys ys' l l' e =
    let tails : xs ++ c ∷ ys ≡ xs' ++ c ∷ ys' = cc in
    let heads : x ≡ x' = cc in
    let (fronts, backs) = split_first c xs xs' ys ys' l.1 l'.1 tails in (cc, backs)
