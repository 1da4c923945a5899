-- ===== src/Memory/Table.antt =====
-- A table as a list of rows in a state, and the documents table as one.
use ragkb.Base.{
  ◌==ℤ◌, map, Bool-cases, ◌↔◌, sym, ap, ◌∙◌, inl, inr, ◌⊎◌, Option-cases, ℕ, ℤ, suc, pos, pos_part,
  ◌≤◌, ◌≡◌, refl, true, false, Bool, none, some, List, [], ◌∷◌, ◌++◌, arith, keep, length,
  first_match, take, drop, if◌then◌else◌, leb,
}
use ragkb.Text.{Text, lit, ◌==ᵗ◌, ==ᵗ_iff, lower_byte}
use ragkb.Text.Collation.{Collation}
use ragkb.Fault.{Error, DocumentError, record_not_found, mysql, is_document}
use ragkb.Action.{Result, ok, err, Action}
use ragkb.Domain.Document.{Document}
use ragkb.Domain.Document.Repo.{update_rows}
use ragkb.Infra.Mysql.{Schema, Table}
use ragkb.Infra.Mysql.Documents.{documents}

-- A key above all that are in use.
module _ {Row : Type 0} (key : Row → ℤ) where
  unfoldable pub next_id : List Row → ℕ
  next_id [] = 1
  next_id (d ∷ ds) =
      let n = next_id ds in let m = suc (pos_part (key d)) in if leb m n then n else m

  next_id-above :
      (n : ℕ) (ds : List Row) → next_id ds ≤ n → first_match (λ d. key d ==ℤ pos n) ds ≡ none
  unfolding next_id
  next_id-above n [] h = refl
  next_id-above n (d ∷ ds) h = ground (arith, next_id-above n ds)

  pub next_id-fresh : (ds : List Row) → first_match (λ d. key d ==ℤ pos (next_id ds)) ds ≡ none
  next_id-fresh ds = next_id-above (next_id ds) ds (omega arith)

-- The rows of a table in a state `S`, and a key above those in use.
module _ {S Row : Type 0} (c : Schema Row) (get : S → List Row) (put : List Row → S → S)
    (get_put : (rs : List Row) (s : S) → get (put rs s) ≡ rs) (next : List Row → ℤ)
    (next_fresh : (rs : List Row) → first_match (c.has_id (next rs)) rs ≡ none) where
  first : (Row → Bool) → S → Result Row
  first p s = elim (first_match p (get s)) [ none ↦ err record_not_found | some d ↦ ok d ]

  first-ok : (p : Row → Bool) (s : S) (d : Row) → first p s ≡ ok d → first_match p (get s) ≡ some d
  unfolding first
  first-ok p s d h = ground arith

  first-err :
      (p : Row → Bool) (s : S) (e : Error)
      → first p s ≡ err e
      → (first_match p (get s) ≡ none) × (e ≡ record_not_found)
  unfolding first
  first-err p s e h = ground arith

  first-foreign :
      (p : Row → Bool) (s : S) (e : Error) (k : DocumentError)
      → first p s ≡ err e
      → is_document e k ≡ false
  unfolding is_document
  first-foreign p s e k h = rw (first-err p s e h).1

  create : Row → Action S Row
  create d s =
      let d' = c.created (next (get s)) 7 d in
      elim (first_match (c.clash d) (get s)) [
        | none ↦ (ok d', put (get s ++ d' ∷ []) s)
        | some _ ↦ (err (mysql 1062 (lit "Duplicate entry")), s)
      ]

  create-ok :
      (d d' : Row) (s s' : S)
      → create d s ≡ (ok d', s')
      → (id : ℤ) × (t : ℕ) × (d' ≡ c.created id t d)
        × (first_match (c.has_id id) (get s) ≡ none)
        × (first_match (c.clash d) (get s) ≡ none)
        × (get s' ≡ get s ++ d' ∷ [])
  unfolding create
  create-ok d d' s s' h =
      let d₁ = c.created (next (get s)) 7 d in
      elim (Option-cases (first_match (c.clash d) (get s))) [
        | inl free ↦
            let is : d₁ ≡ d' = ground arith in
            let end : put (get s ++ d₁ ∷ []) s ≡ s' = ground arith in
            let rows : get s' ≡ get s ++ d₁ ∷ [] = ap get (sym end) ∙ get_put _ s in
            (next (get s), 7, sym is, next_fresh (get s), free, rows ∙ ap (λ x. get s ++ x ∷ []) is)
        | inr (r, taken) ↦ absurd (ground arith)
      ]

  updates-ok :
      (p : Row → Bool) (f : ℕ → Row → Row) (s s' : S) (u : Unit {0})
      → ◌≡◌ {A = Result (Unit {0}) × S} (ok tt, put (update_rows p (f 9) (get s)) s) (ok u, s')
      → (t : ℕ) × (get s' ≡ update_rows p (f t) (get s))
  updates-ok p f s s' u h =
      let end : put (update_rows p (f 9) (get s)) s ≡ s' = ground arith in
      (9, ap get (sym end) ∙ get_put _ s)

  create-any :
      (d : Row) (s : S)
      → (get (create d s).1 ≡ get s)
        ⊎ ((id : ℤ) × (t : ℕ) × (first_match (c.has_id id) (get s) ≡ none)
            × (get (create d s).1 ≡ get s ++ c.created id t d ∷ []))
  unfolding create
  create-any d s = elim (Option-cases (first_match (c.clash d) (get s))) [
    | inl free ↦ inr (next (get s), 7, next_fresh (get s), rw (create, free) (get_put _ s))
    | inr (r, taken) ↦ inl (rw (create, taken))
  ]

  unfoldable pub table_of : Table S c
  unfolding create-any first create first-ok first-err first-foreign create-ok updates-ok
  table_of = record {
    rows = get;
    now = λ s. 8;
    first = first;
    count = λ p s. ok (pos (length (keep p (get s))));
    page = λ p offset size s. ok (take (pos_part size) (drop (pos_part offset) (keep p (get s))));
    create = create;
    updates = λ p f s. (ok tt, put (update_rows p (f 9) (get s)) s);
    remove = λ p s. (ok tt, put (keep (λ d. if p d then false else true) (get s)) s);
    first_ok = first-ok;
    first_missing = λ p s e h _. (first-err p s e h).0;
    first_foreign = first-foreign;
    count_ok = λ p s n h. ground arith;
    create_ok = create-ok;
    create_any = create-any;
    updates_any = λ p f s. inr (9, get_put _ s);
    updates_ok = updates-ok;
  }

  create-view :
      {B : Type 0} (view : S → B)
      → ((rs : List Row) (s : S) → view (put rs s) ≡ view s)
      → (d : Row) (s : S) → view (create d s).1 ≡ view s
  unfolding create
  create-view view same d s = elim (Option-cases (first_match (c.clash d) (get s))) [
    | inl free ↦ rw (create, free) (same _ s)
    | inr (r, taken) ↦ rw (create, taken)
  ]

  -- A new row changes nothing else.
  pub create-other :
      {B : Type 0} (view : S → B)
      → ((rs : List Row) (s : S) → view (put rs s) ≡ view s)
      → (d : Row) (s : S) → view (table_of.create d s).1 ≡ view s
  unfolding table_of
  create-other view same d s = create-view view same d s

-- Texts that are compared without the case of their ASCII letters.
unfoldable pub same_letters : Text → Text → Bool
unfolding ◌==ᵗ◌ lower_byte
same_letters a b = map lower_byte a ==ᵗ map lower_byte b

pub same_letters_iff :
    (a b : Text) → (same_letters a b ≡ true) ↔ (map lower_byte a ≡ map lower_byte b)
unfolding same_letters
same_letters_iff a b = ==ᵗ_iff (map lower_byte a) (map lower_byte b)

pub same_letters-sym : (a b : Text) → same_letters a b ≡ same_letters b a
same_letters-sym a b = elim (Bool-cases (same_letters a b)) [
  | inl alike ↦ alike ∙ sym ((same_letters_iff b a).1 (sym ((same_letters_iff a b).0 alike)))
  | inr differ ↦ elim (Bool-cases (same_letters b a)) [
    | inl alike ↦
        let back = (same_letters_iff a b).1 (sym ((same_letters_iff b a).0 alike)) in
        absurd (ground arith)
    | inr differ' ↦ differ ∙ sym differ'
  ]
]

abbrev pub no_case : Collation
no_case = record {
  same = same_letters;
  same_refl = λ a. (same_letters_iff a a).1 refl;
  same_sym = same_letters-sym;
  same_trans = λ a b c h k.
      (same_letters_iff a c).1 ((same_letters_iff a b).0 h ∙ (same_letters_iff b c).0 k);
}

unfoldable pub table : Table (List Document) (documents no_case)
unfolding next_id table_of same_letters
table =
    table_of (documents no_case) (λ ds. ds) (λ ds _. ds) (λ ds _. refl)
      (λ ds. pos (next_id (λ d. d.id) ds)) (next_id-fresh λ d. d.id)
