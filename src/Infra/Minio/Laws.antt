-- ===== src/Infra/Minio/Laws.antt =====
-- The objects in MinIO keep the contract of `objectStore`.
use ragkb.Base.{
  ℕ, ℤ, zero, suc, pos, negsuc, pos_part, ◌+◌, ◌≡◌, refl, subst, ◌∙◌, inl, inr, false, ◌&&◌, Option,
  some, none, arith, ltb, leb, ◌==◌, ==_iff, length, if◌then◌else◌, Bool-cases, Bool-eq_of_iff,
  and_true,
}
use ragkb.Text.{Text, ◌==ᵗ◌, ==ᵗ_iff, ==ᵗ_refl, ne_false}
use ragkb.Action.{Result, ok, Result-cases}
use ragkb.Infra.Minio.{
  Minio, Location, is_at, contents, part_key, merged_key, at, put_part, sources, compose,
  compose_merged, remove_from, remove_parts,
}
use ragkb.Service.Documents.Ports.{ObjectStore, joined}
use ragkb.Infra.Minio.Keys.{part_key-injective, part_key-ne-merged_key}

module _ {S : Type 0} (m : Minio S) (bucket : Text) where
  abbrev pub place : Text → Location
  place = at m bucket

  pub is_at-eq : (k k' : Text) → is_at (place k) (place k') ≡ (k ==ᵗ k')
  is_at-eq k k' = ground (arith, ==ᵗ_refl bucket)

  part_at :
      (md5 md5' : Text) (i j : ℕ)
      → is_at (place (part_key md5 (pos i))) (place (part_key md5' (pos j)))
        ≡ (md5 ==ᵗ md5' && i == j)
  part_at md5 md5' i j = rw (is_at-eq (part_key md5 (pos i)) (part_key md5' (pos j))) (
      Bool-eq_of_iff _ _
        (λ h.
          let (same, index) = part_key-injective md5 md5' (pos i) (pos j) ((==ᵗ_iff _ _).0 h) in
          rw ((==ᵗ_iff _ _).1 same) ((==_iff i j).1 (ground arith)))
        (λ h.
          let (x, y) = and_true (md5 ==ᵗ md5') (i == j) h in
          let same = (==ᵗ_iff md5 md5').0 x in
          let index = (==_iff i j).0 y in (==ᵗ_iff _ _).1 (cc (same, index))))

  pub part_not_file :
      (md5 md5' name : Text) (i : ℤ)
      → is_at (place (part_key md5 i)) (place (merged_key md5' name)) ≡ false
  part_not_file md5 md5' name i = rw is_at-eq (ne_false (part_key-ne-merged_key md5 md5' name i))

  abbrev pub part : S → Text → ℕ → Option Text
  part s md5 i = m.object s (place (part_key md5 (pos i)))

  abbrev pub merged : S → Text → Text → Option Text
  merged s md5 name = m.object s (place (merged_key md5 name))

  pub put_part_done :
      (md5 : Text) (i : ℕ) (content : Text) (s s' : S) (u : Unit {0})
      → put_part m bucket md5 (pos i) content (pos (length content)) s ≡ (ok u, s')
      → (md5' : Text)
      → ((j : ℕ)
          → part s' md5' j ≡ (if md5 ==ᵗ md5' && i == j then some content else part s md5' j))
        × ((name : Text) → merged s' md5' name ≡ merged s md5' name)
  unfolding put_part
  put_part_done md5 i content s s' u h md5' =
      let stored : m.put_object (place (part_key md5 (pos i))) content (pos (length content)) s
          ≡ (ok u, s') =
        ground arith in
      let after = m.put_object_ok _ content s s' u stored in
      (
        λ j. rw (after (place (part_key md5' (pos j))), part_at md5 md5' i j),
        λ name. rw (after (place (merged_key md5' name)), part_not_file md5 md5' name (pos i)),
      )

  contents-sources :
      (s : S) (md5 : Text) (i n : ℕ)
      → contents (m.object s) (sources m bucket md5 i n) ≡ joined (part s md5) i n
  unfolding sources
  contents-sources s md5 i zero = refl
  contents-sources s md5 i (suc n) = ground (arith, contents-sources s md5 (suc i) n)

  pub compose_merged_done :
      (md5 name : Text) (total : ℤ) (s s' : S) (key : Text) (size : ℤ)
      → compose_merged m bucket md5 name total s ≡ (ok (key, size), s')
      → (n : ℕ) × (content : Text) × (total ≡ pos n)
        × (key ≡ merged_key md5 name)
        × (joined (part s md5) 0 n ≡ some content)
        × (merged s' md5 name ≡ some content)
        × (size ≡ pos (length content))
  unfolding compose_merged compose
  compose_merged_done md5 name (negsuc n) s s' key size h = absurd (ground arith)
  compose_merged_done md5 name (pos n) s s' key size h =
      let dst = place (merged_key md5 name) in
      let composed : m.compose_object dst (sources m bucket md5 0 n) s ≡ (ok size, s') =
        ground arith in
      let told : key ≡ merged_key md5 name = ground arith in
      let (content, read, sized, after) = m.compose_object_ok _ _ s s' size composed in
      (
        n,
        content,
        refl,
        told,
        rw (← contents-sources s md5 0 n) read,
        rw (after dst, is_at-eq, ==ᵗ_refl),
        sized,
      )

  remove_from-merged :
      (md5 : Text) (i n : ℕ) (s : S) (md5' name : Text)
      → merged (remove_from m bucket md5 i n s).1 md5' name ≡ merged s md5' name
  unfolding remove_from
  remove_from-merged md5 i zero s md5' name = refl
  remove_from-merged md5 i (suc n) s md5' name =
      let l = place (part_key md5 (pos i)) in
      ground (
        arith,
        m.remove_object_other l (place (merged_key md5' name)) s
            (part_not_file md5 md5' name (pos i)),
        remove_from-merged md5 (suc i) n (m.remove_object l s).1 md5' name,
      )

  remove_one :
      (md5 : Text) (i : ℕ) (s s' : S) (u : Unit {0})
      → m.remove_object (place (part_key md5 (pos i))) s ≡ (ok u, s')
      → (md5' : Text) (j : ℕ)
      → part s' md5' j ≡ (if md5 ==ᵗ md5' && i == j then none else part s md5' j)
  remove_one md5 i s s' u h md5' j =
      let l = place (part_key md5 (pos i)) in
      let k = place (part_key md5' (pos j)) in
      elim (Bool-cases (md5 ==ᵗ md5' && i == j)) [
        | inl same ↦
            let (x, y) = and_true (md5 ==ᵗ md5') (i == j) same in
            let same_md5 = (==ᵗ_iff md5 md5').0 x in
            let same_index = (==_iff i j).0 y in
            let here : l ≡ k = cc (same_md5, same_index) in
            rw same (subst (λ p. m.object s' p ≡ none) here (m.remove_object_ok l s s' u h))
        | inr other ↦
            let apart : is_at l k ≡ false = part_at md5 md5' i j ∙ other in
            rw other (
              subst (λ (p : Result (Unit {0}) × S). m.object p.1 k ≡ m.object s k) h
                (m.remove_object_other l k s apart))
      ]

  remove_from-part :
      (md5 : Text) (i n : ℕ) (s s' : S) (u : Unit {0})
      → remove_from m bucket md5 i n s ≡ (ok u, s')
      → (md5' : Text) (j : ℕ)
      → part s' md5' j
        ≡ (if md5 ==ᵗ md5' && (leb i j && ltb j (i + n)) then none else part s md5' j)
  unfolding remove_from
  remove_from-part md5 i zero s s' u h md5' j = ground arith
  remove_from-part md5 i (suc n) s s' u h md5' j =
      let l = place (part_key md5 (pos i)) in
      let s₁ = (m.remove_object l s).1 in
      elim (Result-cases (m.remove_object l s).0) [
        | inl (v, e) ↦
            let first : m.remove_object l s ≡ (ok v, s₁) = λ t. (e t, s₁) in
            let rest : remove_from m bucket md5 (suc i) n s₁ ≡ (ok u, s') = ground arith in
            let ih = remove_from-part md5 (suc i) n s₁ s' u rest md5' j in
            let one = remove_one md5 i s s₁ v first md5' j in ground arith
        | inr (inl (x, e)) ↦ absurd (ground arith)
        | inr (inr (x, e)) ↦ absurd (ground arith)
      ]

  pub remove_parts_done :
      (md5 : Text) (total : ℤ) (s s' : S) (u : Unit {0})
      → remove_parts m bucket md5 total s ≡ (ok u, s')
      → (md5' : Text) (j : ℕ)
      → part s' md5' j ≡ (if md5 ==ᵗ md5' && ltb j (pos_part total) then none else part s md5' j)
  unfolding remove_parts
  remove_parts_done md5 (pos n) s s' u h md5' j =
      ground (arith, remove_from-part md5 0 n s s' u h md5' j)
  remove_parts_done md5 (negsuc n) s s' u h md5' j = ground arith

  pub remove_parts-merged :
      (md5 : Text) (total : ℤ) (s : S) (md5' name : Text)
      → merged (remove_parts m bucket md5 total s).1 md5' name ≡ merged s md5' name
  unfolding remove_parts
  remove_parts-merged md5 (pos n) s md5' name = remove_from-merged md5 0 n s md5' name
  remove_parts-merged md5 (negsuc n) s md5' name = refl

  pub put_part-merged :
      (md5 : Text) (i : ℤ) (content : Text) (size : ℤ) (s : S) (md5' name : Text)
      → merged (put_part m bucket md5 i content size s).1 md5' name ≡ merged s md5' name
  unfolding put_part
  put_part-merged md5 i content size s md5' name =
      let l = place (part_key md5 i) in
      let kept =
        m.put_object_other l (place (merged_key md5' name)) content size s
          (part_not_file md5 md5' name i) in
      elim (Result-cases (m.put_object l content size s).0) [
        | inl (v, done) ↦ ground arith
        | inr (inl (x, failed)) ↦ ground arith
        | inr (inr (x, failed)) ↦ ground arith
      ]

  pub compose_merged-any :
      (md5 name : Text) (total : ℤ) (s : S) (md5' name' x : Text)
      → merged s md5' name' ≡ some x
      → (y : Text) × (merged (compose_merged m bucket md5 name total s).1 md5' name' ≡ some y)
  unfolding compose_merged compose
  compose_merged-any md5 name (negsuc n) s md5' name' x h = (x, h)
  compose_merged-any md5 name (pos n) s md5' name' x h =
      let q = m.compose_object (place (merged_key md5 name)) (sources m bucket md5 0 n) s in
      let (y, there) =
        m.compose_object_any (place (merged_key md5 name)) (sources m bucket md5 0 n) s
          (place (merged_key md5' name')) x h in
      elim (Result-cases q.0) [
        | inl (v, done) ↦ (y, ground arith)
        | inr (inl (e, failed)) ↦ (y, ground arith)
        | inr (inr (e, failed)) ↦ (y, ground arith)
      ]

  -- The objects as the store that the document service relies on.
  unfoldable pub object_store : ObjectStore S
  object_store = record {
    part = part;
    merged = merged;
    put_part = put_part m bucket;
    compose_merged = compose_merged m bucket;
    remove_parts = remove_parts m bucket;
    merged_key = merged_key;
    put_part_ok = put_part_done;
    compose_merged_ok = compose_merged_done;
    put_part_merged = put_part-merged;
    compose_merged_any = compose_merged-any;
    remove_parts_merged = remove_parts-merged;
    remove_parts_ok = remove_parts_done;
  }
