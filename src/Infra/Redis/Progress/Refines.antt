-- ===== src/Infra/Redis/Progress/Refines.antt =====
-- internal/infra/redis/upload_progress_store.go refines sets of parts, one for each upload.
use ragkb.Base.{
  ℕ, ℤ, zero, suc, pos, ◌+◌, ◌≤◌, ◌<◌, ◌≡◌, inl, inr, refl, sym, ap, ◌∙◌, Bool, true, false, ◌&&◌,
  ◌==◌, List, [], ◌∷◌, keep, range, arith, Bool-cases, if◌then◌else◌,
}
use ragkb.Text.{Text}
use ragkb.Action.{ok, Action, pure, >>=-eq-ok, ◌>>◌}
use ragkb.Service.Documents.Ports.{is_same_upload}
use ragkb.Infra.Redis.{Redis}
use ragkb.Infra.Redis.Progress.{mark_part, uploaded_parts, all_uploaded, clear}
use ragkb.Infra.Redis.Progress.Laws.{upload_progress}

-- The parts of each upload: by its MD5 text and owner, which numbers are in the set.
abbrev pub Parts : Type 0
Parts = Text → ℤ → ℕ → Bool

-- What changes the progress.
pub data Change : Type 0 where
  mark : Text → ℤ → ℕ → Change
  reset : Text → ℤ → Change

-- On the sets: a part is added to one of them, or one of them becomes empty.
unfoldable pub change : Change → Parts → Parts
change (mark md5 owner i) p md5' owner' j =
    if is_same_upload md5 owner md5' owner' && i == j then true else p md5' owner' j
change (reset md5 owner) p md5' owner' j =
    if is_same_upload md5 owner md5' owner' then false else p md5' owner' j

unfoldable pub changes : List Change → Parts → Parts
unfolding change
changes [] p = p
changes (c ∷ cs) p = changes cs (change c p)

-- Each number from `i` on, `n` of them, is in the set.
unfoldable pub every : (ℕ → Bool) → ℕ → ℕ → Bool
every p i zero = true
every p i (suc n) = let rest = every p (suc i) n in if p i then rest else false

every-true :
    (p : ℕ → Bool) (i n : ℕ) → ((j : ℕ) → i ≤ j → j < i + n → p j ≡ true) → every p i n ≡ true
unfolding every
every-true p i zero h = refl
every-true p i (suc n) h =
    let rest = every-true p (suc i) n (λ j low high. h j (omega arith) (omega arith)) in
    let here = h i (omega arith) (omega arith) in ground arith

every-false : (p : ℕ → Bool) (i n j : ℕ) → i ≤ j → j < i + n → p j ≡ false → every p i n ≡ false
unfolding every
every-false p i zero j low high h = absurd (omega arith)
every-false p i (suc n) j low high h = elim (Bool-cases (p i)) [
  | inr fails ↦ ground arith
  | inl passes ↦ elim (Bool-cases (i == j)) [
    | inl same ↦
        let is : i ≡ j = ground arith in let no_j : p i ≡ false = rw is h in absurd (ground arith)
    | inr later ↦
        let less : suc i ≤ j = ground arith in
        let rest = every-false p (suc i) n j less (omega arith) h in ground arith
  ]
]

module _ {S : Type 0} (r : Redis S) where
  -- The sets behind a state of Redis.
  abbrev pub parts : S → Parts
  parts s = (upload_progress r).has s

  unfoldable pub make : Change → Action S (Unit {0})
  make (mark md5 owner i) = mark_part r md5 owner (pos i)
  make (reset md5 owner) = clear r md5 owner

  -- Changes one behind the other, up to the first that fails.
  unfoldable pub make_all : List Change → Action S (Unit {0})
  unfolding make
  make_all [] = pure tt
  make_all (c ∷ cs) = make c >> make_all cs

  make-refines :
      (c : Change) (s s' : S) (u : Unit {0}) → make c s ≡ (ok u, s') → parts s' ≡ change c (parts s)
  unfolding make change upload_progress
  make-refines (mark md5 owner i) s s' u h =
      λ k md5' owner' j. (upload_progress r).mark_part_ok md5 owner i s s' u h md5' owner' j k
  make-refines (reset md5 owner) s s' u h =
      λ k md5' owner' j. (upload_progress r).clear_ok md5 owner s s' u h md5' owner' j k

  make_all-refines :
      (cs : List Change) (s s' : S) (u : Unit {0})
      → make_all cs s ≡ (ok u, s')
      → parts s' ≡ changes cs (parts s)
  unfolding make_all changes
  make_all-refines [] s s' u h = let same : s ≡ s' = ground arith in ap parts (sym same)
  make_all-refines (c ∷ cs) s s' u h =
      let (a, t, first, rest) = >>=-eq-ok (make c) (λ _. make_all cs) s s' u h in
      make_all-refines cs t s' u rest ∙ ap (changes cs) (make-refines c s t a first)

  -- Behind any changes that have succeeded, the parts that are told are those of the abstract set,
  -- in their order, from the numbers below the count.
  pub uploaded_parts-refines :
      (cs : List Change) (s s' : S) (u : Unit {0}) (md5 : Text) (owner : ℤ) (n : ℕ) (l : List ℕ)
      → make_all cs s ≡ (ok u, s')
      → uploaded_parts r md5 owner (pos n) s' ≡ ok l
      → l ≡ keep (changes cs (parts s) md5 owner) (range 0 n)
  unfolding upload_progress
  uploaded_parts-refines cs s s' u md5 owner n l h told =
      (upload_progress r).uploaded_parts_ok md5 owner n s' l told
      ∙ (λ i. keep (make_all-refines cs s s' u h i md5 owner) (range 0 n))

  -- The count that `AllUploaded` compares says the same as a test of each part.
  pub all_uploaded-every :
      (md5 : Text) (owner : ℤ) (n : ℕ) (s : S) (b : Bool)
      → all_uploaded r md5 owner (pos n) s ≡ ok b
      → b ≡ every (parts s md5 owner) 0 n
  unfolding upload_progress
  all_uploaded-every md5 owner n s b h =
      let (m, is_m, yes_all, no_all) =
        (upload_progress r).all_uploaded_ok md5 owner (pos n) s b h in
      let is : n ≡ m = ground arith in
      elim (Bool-cases b) [
        | inl good ↦
            let all = yes_all good in
            good ∙ sym (every-true (parts s md5 owner) 0 n (λ j low high. all j (omega arith)))
        | inr bad ↦
            let (j, high, fails) = no_all bad in
            bad ∙ sym (every-false (parts s md5 owner) 0 n j (omega arith) (omega arith) fails)
      ]
