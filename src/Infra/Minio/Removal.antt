-- ===== src/Infra/Minio/Removal.antt =====
-- `RemoveObject` of internal/infra/minio/object_store.go, on the keys of files and parts.
use ragkb.Base.{ℤ, ◌≡◌, sym, inl, inr, false, none, arith}
use ragkb.Text.{Text, Unicode, ne_false, ◌==ᵗ◌}
use ragkb.Text.Split.{Lacks}
use ragkb.Action.{ok, Result-cases}
use ragkb.Infra.Minio.{Minio, at, merged_key, part_key, remove_object}
use ragkb.Infra.Minio.Keys.{merged_key-injective, part_key-ne-merged_key}
use ragkb.Infra.Minio.Laws.{is_at-eq}

module _ {S : Type 0} (m : Minio S) (u : Unicode) (bucket : Text) where
  remove_object-kept :
      (key other : Text) (s : S)
      → (key ==ᵗ other) ≡ false
      → m.object (remove_object m bucket u key s).1 (at m bucket other)
        ≡ m.object s (at m bucket other)
  unfolding remove_object
  remove_object-kept key other s differ =
      let kept =
        m.remove_object_other (at m bucket key) (at m bucket other) s
          (rw (is_at-eq m bucket key other) differ) in
      elim (Result-cases (m.remove_object (at m bucket key) s).0) [
        | inl (v, done) ↦ ground arith
        | inr (inl (e, failed)) ↦ ground arith
        | inr (inr (e, failed)) ↦ ground arith
      ]

  remove_object-gone :
      (key : Text) (s s' : S) (x : Unit {0})
      → remove_object m bucket u key s ≡ (ok x, s')
      → m.object s' (at m bucket key) ≡ none
  unfolding remove_object
  remove_object-gone key s s' x h =
      let q = m.remove_object (at m bucket key) s in
      elim (Result-cases q.0) [
        | inl (v, done) ↦ m.remove_object_ok (at m bucket key) s s' v (ground arith)
        | inr (inl (e, failed)) ↦ absurd (ground arith)
        | inr (inr (e, failed)) ↦ absurd (ground arith)
      ]

  -- Removing the file of one MD5 and name leaves all parts, and the files of others, where MD5 texts
  -- hold no slash; if it returns no error, the file is gone.
  pub remove_object-file :
      (md5 name : Text) (s s' : S) (x : Unit {0})
      → remove_object m bucket u (merged_key md5 name) s ≡ (ok x, s')
      → (m.object s' (at m bucket (merged_key md5 name)) ≡ none)
        × ((md5' : Text) (i : ℤ)
            → m.object s' (at m bucket (part_key md5' i))
              ≡ m.object s (at m bucket (part_key md5' i)))
        × ((md5' name' : Text)
            → Lacks b'/' md5
            → Lacks b'/' md5'
            → ¬ ((md5 ≡ md5') × (name ≡ name'))
            → m.object s' (at m bucket (merged_key md5' name'))
              ≡ m.object s (at m bucket (merged_key md5' name')))
  remove_object-file md5 name s s' x h =
      let key = merged_key md5 name in
      let end : (remove_object m bucket u key s).1 ≡ s' = λ i. (h i).1 in
      (
        remove_object-gone key s s' x h,
        λ md5' i. rw (← end) (
            remove_object-kept key (part_key md5' i) s
              (ne_false (λ e. part_key-ne-merged_key md5' md5 name i (sym e)))),
        λ md5' name' l l' differ. rw (← end) (
            remove_object-kept key (merged_key md5' name') s
              (ne_false (λ e. differ (merged_key-injective md5 md5' name name' l l' e)))),
      )
