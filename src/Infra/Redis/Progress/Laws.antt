-- ===== src/Infra/Redis/Progress/Laws.antt =====
-- The bitmaps keep the contract of `uploadProgress`.
use mathlib.Core.List.{append-nil, append_assoc}
use ragkb.Base.{
  ℕ, ℤ, zero, suc, pos, negsuc, ◌<◌, ◌≡◌, refl, inl, inr, Bool, true, false, ◌&&◌, List, [], ◌∷◌,
  ◌++◌, arith, ◌==◌, ◌==ℤ◌, ==ℤ_iff, keep, range, length, keep-range-all, keep-range-some,
  if◌then◌else◌, Bool-cases, Bool-eq_of_iff, and_true,
}
use ragkb.Text.{Text, ◌==ᵗ◌, ==ᵗ_iff}
use ragkb.Text.Split.{split_last}
use ragkb.Text.Decimal.{decimal, decimal-injective, decimal-Lacks}
use ragkb.Action.{ok, Result-cases}
use ragkb.Infra.Redis.{Redis}
use ragkb.Infra.Redis.Progress.{
  progress_key, mark_part, uploaded_from, uploaded_parts, all_uploaded, clear,
}
use ragkb.Service.Documents.Ports.{UploadProgress, is_same_upload}

-- Two uploads share a key only if they are the same, whatever text the client sends for the MD5.
pub progress_key-injective :
    (md5 md5' : Text) (owner owner' : ℤ)
    → progress_key md5 owner ≡ progress_key md5' owner'
    → (md5 ≡ md5') × (owner ≡ owner')
unfolding progress_key
progress_key-injective md5 md5' owner owner' e =
    let joined : md5 ++ b':' ∷ decimal owner ≡ md5' ++ b':' ∷ decimal owner' = cc in
    let (m, o) =
      split_last b':' md5 md5' (decimal owner) (decimal owner')
        (decimal-Lacks b':' owner (λ h. omega arith) (omega arith))
        (decimal-Lacks b':' owner' (λ h. omega arith) (omega arith)) joined in
    (m, decimal-injective owner owner' o)

-- The test on keys is the test on uploads.
progress_key-eq :
    (md5 md5' : Text) (owner owner' : ℤ)
    → (progress_key md5 owner ==ᵗ progress_key md5' owner') ≡ is_same_upload md5 owner md5' owner'
progress_key-eq md5 md5' owner owner' =
    Bool-eq_of_iff _ _
      (λ h.
        let (m, o) = progress_key-injective md5 md5' owner owner' ((==ᵗ_iff _ _).0 h) in
        rw ((==ᵗ_iff _ _).1 m, (==ℤ_iff _ _).1 o))
      (λ h.
        let (m, o) = and_true (md5 ==ᵗ md5') (owner ==ℤ owner') h in
        let same_md5 = (==ᵗ_iff md5 md5').0 m in
        let same_owner = (==ℤ_iff owner owner').0 o in (==ᵗ_iff _ _).1 (cc (same_md5, same_owner)))

module _ {S : Type 0} (r : Redis S) where
  abbrev pub has : S → Text → ℤ → ℕ → Bool
  has s md5 owner i = r.bit s (progress_key md5 owner) i

  pub mark_part_done :
      (md5 : Text) (owner : ℤ) (i : ℕ) (s s' : S) (u : Unit {0})
      → mark_part r md5 owner (pos i) s ≡ (ok u, s')
      → (md5' : Text) (owner' : ℤ) (j : ℕ)
      → has s' md5' owner' j
        ≡ (if is_same_upload md5 owner md5' owner' && i == j then true else has s md5' owner' j)
  unfolding mark_part
  mark_part_done md5 owner i s s' u h md5' owner' j =
      let after = (r.exec_ok _ s s' u h (progress_key md5' owner')).0 j in
      rw (after, progress_key-eq md5 md5' owner owner') (ground arith)

  uploaded_from-keep :
      (key : Text) (i n : ℕ) (acc : List ℕ) (s : S) (l : List ℕ)
      → uploaded_from r key i n acc s ≡ ok l
      → l ≡ acc ++ keep (r.bit s key) (range i n)
  unfolding uploaded_from
  uploaded_from-keep key i zero acc s l h = rw append-nil (ground arith)
  uploaded_from-keep key i (suc n) acc s l h = elim (Result-cases (r.get_bit key (pos i) s)) [
    | inl (b, e) ↦
        let value = r.get_bit_ok key i s b e in
        let acc' : List ℕ = if b ==ℤ pos 1 then acc ++ i ∷ [] else acc in
        let rest : uploaded_from r key (suc i) n acc' s ≡ ok l = rw (e, uploaded_from) at h in
        let ih = uploaded_from-keep key (suc i) n acc' s l rest in
        elim (Bool-cases (r.bit s key i)) [
          | inl on ↦
              rw on
                (ground (arith, append_assoc acc (i ∷ []) (keep (r.bit s key) (range (suc i) n))))
          | inr off ↦ rw off (ground arith)
        ]
    | inr (inl (x, e)) ↦ absurd (ground arith)
    | inr (inr (x, e)) ↦ absurd (ground arith)
  ]

  pub uploaded_parts_done :
      (md5 : Text) (owner : ℤ) (n : ℕ) (s : S) (l : List ℕ)
      → uploaded_parts r md5 owner (pos n) s ≡ ok l
      → l ≡ keep (has s md5 owner) (range 0 n)
  unfolding uploaded_parts
  uploaded_parts_done md5 owner n s l h = uploaded_from-keep (progress_key md5 owner) 0 n [] s l h

  pub all_uploaded_done :
      (md5 : Text) (owner : ℤ) (total : ℤ) (s : S) (b : Bool)
      → all_uploaded r md5 owner total s ≡ ok b
      → (n : ℕ) × (total ≡ pos n)
        × (b ≡ true → (i : ℕ) → i < n → has s md5 owner i ≡ true)
        × (b ≡ false → (i : ℕ) × (i < n) × (has s md5 owner i ≡ false))
  unfolding all_uploaded
  all_uploaded_done md5 owner (negsuc n) s b h = absurd (unfold uploaded_parts in ground arith)
  all_uploaded_done md5 owner (pos n) s b h =
      elim (Result-cases (uploaded_parts r md5 owner (pos n) s)) [
        | inl (l, e) ↦
            let kept = uploaded_parts_done md5 owner n s l e in
            let answer : (pos (length (keep (has s md5 owner) (range 0 n))) ==ℤ pos n) ≡ b =
              rw (← kept) (ground arith) in
            let whole = keep-range-all (has s md5 owner) 0 n in
            let part = keep-range-some (has s md5 owner) 0 n in
            (
              n,
              refl,
              λ full i low. whole (ground arith) i (omega arith) (omega arith),
              λ short.
                  let (i, _, low, unset) = part (λ same. ground arith) in (i, omega arith, unset),
            )
        | inr (inl (x, e)) ↦ absurd (ground arith)
        | inr (inr (x, e)) ↦ absurd (ground arith)
      ]

  pub clear_done :
      (md5 : Text) (owner : ℤ) (s s' : S) (u : Unit {0})
      → clear r md5 owner s ≡ (ok u, s')
      → (md5' : Text) (owner' : ℤ) (j : ℕ)
      → has s' md5' owner' j
        ≡ (if is_same_upload md5 owner md5' owner' then false else has s md5' owner' j)
  unfolding clear
  clear_done md5 owner s s' u h md5' owner' j =
      let after = (r.del_ok _ s s' u h (progress_key md5' owner')).0 j in
      rw (after, progress_key-eq md5 md5' owner owner')

  -- The bitmaps as the progress that the document service relies on.
  unfoldable pub upload_progress : UploadProgress S
  upload_progress = record {
    has = has;
    mark_part = mark_part r;
    uploaded_parts = uploaded_parts r;
    all_uploaded = all_uploaded r;
    clear = clear r;
    mark_part_ok = mark_part_done;
    uploaded_parts_ok = uploaded_parts_done;
    all_uploaded_ok = all_uploaded_done;
    clear_ok = clear_done;
  }
