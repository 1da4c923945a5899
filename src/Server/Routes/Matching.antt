-- ===== src/Server/Routes/Matching.antt =====
-- Routes that a request fits, of internal/server/router.go.
use mathlib.Core.List.{Memᴰ}
use mathlib.Core.List.Memᴰ
use ragkb.Base.{
  ◌≡◌, inl, inr, refl, sym, ap, ◌∙◌, subst, Bool, true, false, Option, none, some, List, [], ◌∷◌,
  All, keep, arith, Option-cases, Bool-cases,
}
use ragkb.Text.{Text}
use ragkb.Server.Routes.{Route, Params, matches, Router}

unfoldable pub is_some : {A : Type 0} → Option A → Bool
is_some none = false
is_some (some a) = true

-- The routes that a request fits.
abbrev pub hits : Text → List Text → List Route → List Route
hits m path = keep (λ r. is_some (matches m path r))

module _ (m : Text) (path : List Text) where
  Memᴰ-hits :
      (r : Route) (ps : Params) (rs : List Route)
      → matches m path r ≡ some ps
      → Memᴰ r rs
      → Memᴰ r (hits m path rs)
  unfolding is_some
  Memᴰ-hits r ps [] fits there = absurd (Memᴰ.not-nil there)
  Memᴰ-hits r ps (x ∷ xs) fits (Memᴰ.head e) =
      let here : is_some (matches m path x) ≡ true =
        ap (λ y. is_some (matches m path y)) (sym e) ∙ ap is_some fits in
      rw here (Memᴰ.head e)
  Memᴰ-hits r ps (x ∷ xs) fits (Memᴰ.tail there) =
      let below = Memᴰ-hits r ps xs fits there in
      elim (Bool-cases (is_some (matches m path x))) [
        | inl hit ↦ rw hit (Memᴰ.tail below)
        | inr miss ↦ rw miss below
      ]

  hits-none : (rs : List Route) → All (λ r. matches m path r ≡ none) rs → hits m path rs ≡ []
  unfolding is_some
  hits-none [] h = refl
  hits-none (x ∷ xs) h = rw h.0 (hits-none xs h.1)

  -- Where just one route fits, it is the one that is found.
  pub find-only :
      (g : Router) (rs : List Route) (r : Route) (ps : Params)
      → hits m path rs ≡ r ∷ []
      → matches m path r ≡ some ps
      → g.find rs m path ≡ some (r, ps)
  find-only g rs r ps one fits = elim (Option-cases (g.find rs m path)) [
    | inl nothing ↦
        let no_hits = hits-none rs (g.find_none rs m path nothing) in absurd (ground arith)
    | inr ((r', ps'), found) ↦
        let (there, fits') = g.find_some rs m path r' ps' found in
        let same : r' ≡ r =
          Memᴰ.eq_of_singleton (subst (Memᴰ r') one (Memᴰ-hits r' ps' rs fits' there)) in
        let bound : ◌≡◌ {A = Option Params} (some ps') (some ps) =
          sym fits' ∙ ap (matches m path) same ∙ fits in
        ground arith
  ]
