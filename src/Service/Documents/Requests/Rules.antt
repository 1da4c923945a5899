-- ===== src/Service/Documents/Requests/Rules.antt =====
-- What the single calls of internal/service/document/document.go keep, and what a request knows
-- that no call of another one can undo.
use ragkb.Base.{
  ℤ, ◌≡◌, inl, inr, refl, sym, ap, ◌∙◌, subst, some, List, [], ◌∷◌, ◌++◌, map, arith, Bool-cases,
  ◌==ℤ◌, ==ℤ_iff, IsIn, if◌then◌else◌,
}
use ragkb.Text.{Text}
use ragkb.Action.Program.Safe.{Rules, Keeps}
use ragkb.Domain.Document.{
  Document, has_id, has_live_id, with_merged, with_deleted, upload_status_merged,
}
use ragkb.Service.Documents.Types.{InitiateParams}
use ragkb.Service.Documents.{DocumentService, World, on_docs, on_objects, new_document}
use ragkb.Service.Documents.Stored.{
  IsStored, Stored, HasFile, objects-IsStored, new-IsStored, update-IsStored,
}

abbrev pub IsSameFile : Document → Document → Type 0
IsSameFile d e = (d.id ≡ e.id) × (d.file_md5 ≡ e.file_md5) × (d.file_name ≡ e.file_name)

IsIn-snoc_left : {A : Type 0} (x y : A) (xs : List A) → IsIn x xs → IsIn x (xs ++ y ∷ [])
IsIn-snoc_left x y [] h = absurd h
IsIn-snoc_left x y (z ∷ xs) (inl here) = inl here
IsIn-snoc_left x y (z ∷ xs) (inr there) = inr (IsIn-snoc_left x y xs there)

IsIn-map_image : {A : Type 0} (f : A → A) (x : A) (xs : List A) → IsIn x xs → IsIn (f x) (map f xs)
IsIn-map_image f x [] h = absurd h
IsIn-map_image f x (y ∷ ys) (inl here) = inl (ap f here)
IsIn-map_image f x (y ∷ ys) (inr there) = inr (IsIn-map_image f x ys there)

module _ {R T O P K : Type 0} (s : DocumentService R T O P K) where
  -- The table still has each row, with its number and its file, and the store still has each file.
  pub record IsLater (w v : World R T O P K) : Type 0 where
    pub rows :
        (d : Document)
        → IsIn d (s.docs.rows w.docs)
        → (e : Document) × IsIn e (s.docs.rows v.docs) × IsSameFile e d
    pub files :
        (md5 name x : Text)
        → s.objects.merged w.objects md5 name ≡ some x
        → (y : Text) × (s.objects.merged v.objects md5 name ≡ some y)

  pub same-IsLater : (w : World R T O P K) → IsLater w w
  same-IsLater w = record {
    rows = λ d there. (d, there, (refl, refl, refl));
    files = λ md5 name x there. (x, there);
  }

  pub trans-IsLater : (u v w : World R T O P K) → IsLater u v → IsLater v w → IsLater u w
  trans-IsLater u v w f g = record {
    rows = λ d there.
        let (e, e_in, (id, md5, name)) = f.rows d there in
        let (e', e'_in, (id', md5', name')) = g.rows e e_in in
        (e', e'_in, (id' ∙ id, md5' ∙ md5, name' ∙ name));
    files = λ md5 name x there.
        let (y, y_there) = f.files md5 name x there in g.files md5 name y y_there;
  }

  -- Each merged row has its file, whatever other requests do.
  abbrev pub stored_rules : Rules (World R T O P K)
  stored_rules = record {
    Inv = Stored s;
    Later = IsLater;
    later_refl = same-IsLater;
    later_trans = trans-IsLater;
  }

  abbrev pub Keeping : World R T O P K → World R T O P K → Type 0
  Keeping = Keeps stored_rules

  pub same-Keeping :
      (w v : World R T O P K) → w.docs ≡ v.docs → w.objects ≡ v.objects → Stored s w → Keeping w v
  same-Keeping w v docs objects h = record {
    inv =
        subst (λ o. IsStored s (s.docs.rows v.docs) o) objects
          (subst (λ r. IsStored s (s.docs.rows r) w.objects) docs h);
    later = record {
      rows = λ d there. (d, subst (λ r. IsIn d (s.docs.rows r)) docs there, (refl, refl, refl));
      files =
          λ md5 name x there. (x, subst (λ o. s.objects.merged o md5 name ≡ some x) objects there);
    };
  }

  -- A row of the document is in the table.
  abbrev pub Knows : Document → World R T O P K → Type 0
  Knows doc w = (d : Document) × IsIn d (s.docs.rows w.docs) × IsSameFile d doc

  pub Knows-later :
      (doc : Document) (w v : World R T O P K) → IsLater w v → Knows doc w → Knows doc v
  Knows-later doc w v l (d, there, (id, md5, name)) =
      let (e, e_in, (id', md5', name')) = l.rows d there in
      (e, e_in, (id' ∙ id, md5' ∙ md5, name' ∙ name))

  -- A call of the store of objects that loses no file.
  pub objects-Keeping :
      (w : World R T O P K) (o : O)
      → ((md5 name x : Text)
          → s.objects.merged w.objects md5 name ≡ some x
          → (y : Text) × (s.objects.merged o md5 name ≡ some y))
      → Stored s w
      → Keeping w (record w { objects = o })
  objects-Keeping w o kept h = record {
    inv = objects-IsStored s (s.docs.rows w.docs) w.objects o kept h;
    later = record { rows = λ d there. (d, there, (refl, refl, refl)); files = kept };
  }

  pub put_part-Keeping :
      (md5 : Text) (i : ℤ) (content : Text) (size : ℤ) (w : World R T O P K)
      → Stored s w
      → Keeping w (on_objects s (s.objects.put_part md5 i content size) w).1
  put_part-Keeping md5 i content size w h =
      objects-Keeping w _
        (λ md5' name x there.
          (x, s.objects.put_part_merged md5 i content size w.objects md5' name ∙ there))
        h

  pub remove_parts-Keeping :
      (md5 : Text) (total : ℤ) (w : World R T O P K)
      → Stored s w
      → Keeping w (on_objects s (s.objects.remove_parts md5 total) w).1
  remove_parts-Keeping md5 total w h =
      objects-Keeping w _
        (λ md5' name x there.
          (x, s.objects.remove_parts_merged md5 total w.objects md5' name ∙ there))
        h

  pub compose_merged-Keeping :
      (md5 name : Text) (total : ℤ) (w : World R T O P K)
      → Stored s w
      → Keeping w (on_objects s (s.objects.compose_merged md5 name total) w).1
  compose_merged-Keeping md5 name total w h =
      objects-Keeping w _ (s.objects.compose_merged_any md5 name total w.objects) h

  -- A call of the table after which the rows are `rows'`.
  rows-Keeping :
      (w : World R T O P K) (t : R) (rows' : List Document)
      → s.docs.rows t ≡ rows'
      → ((d : Document)
          → IsIn d (s.docs.rows w.docs)
          → (e : Document) × IsIn e rows' × IsSameFile e d)
      → IsStored s rows' w.objects
      → Keeping w (record w { docs = t })
  rows-Keeping w t rows' now kept h = record {
    inv = subst (λ rs. IsStored s rs w.objects) (sym now) h;
    later = record {
      rows =
          λ d there. let (e, e_in, same) = kept d there in (e, subst (IsIn e) (sym now) e_in, same);
      files = λ md5 name x there. (x, there);
    };
  }

  unchanged-Keeping :
      (w : World R T O P K) (t : R)
      → s.docs.rows t ≡ s.docs.rows w.docs
      → Stored s w
      → Keeping w (record w { docs = t })
  unchanged-Keeping w t same h =
      rows-Keeping w t (s.docs.rows w.docs) same (λ d there. (d, there, (refl, refl, refl))) h

  -- A change of the rows that keeps their numbers and files, and marks none without its file.
  update-Keeping :
      (w : World R T O P K) (t : R) (f : Document → Document)
      → s.docs.rows t ≡ map f (s.docs.rows w.docs)
      → ((d : Document) → IsSameFile (f d) d)
      → ((d : Document)
          → IsIn d (s.docs.rows w.docs)
          → (f d).upload_status ≡ upload_status_merged
          → HasFile s w.objects d)
      → Stored s w
      → Keeping w (record w { docs = t })
  update-Keeping w t f now keeps marks h =
      rows-Keeping w t (map f (s.docs.rows w.docs)) now
        (λ d there. (f d, IsIn-map_image f d (s.docs.rows w.docs) there, keeps d))
        (update-IsStored s (s.docs.rows w.docs) w.objects f keeps marks h)

  pub create-Keeping :
      (p : InitiateParams) (tag : Text) (w : World R T O P K)
      → Stored s w
      → Keeping w (on_docs s (s.docs.create (new_document s p tag)) w).1
  create-Keeping p tag w h = elim (s.docs.create_any (new_document s p tag) w.docs) [
    | inl same ↦ unchanged-Keeping w _ same h
    | inr (id, t, free, more) ↦
        rows-Keeping w _ _ more
          (λ d there. (d, IsIn-snoc_left d _ (s.docs.rows w.docs) there, (refl, refl, refl)))
          (new-IsStored s (s.docs.rows w.docs) w.objects _ free (λ e. ground arith) h)
  ]

  pub soft_delete-Keeping :
      (id : ℤ) (w : World R T O P K)
      → Stored s w
      → Keeping w (on_docs s (s.docs.soft_delete id) w).1
  soft_delete-Keeping id w h = elim (s.docs.soft_delete_any id w.docs) [
    | inl same ↦ unchanged-Keeping w _ same h
    | inr (at, t, changed) ↦
        update-Keeping w _ (λ a. if has_live_id id a then with_deleted at t a else a) changed
          (λ d. (ground arith, ground arith, ground arith))
          (λ d is_in merged. h.stored d is_in (ground arith)) h
  ]

  -- Marking a row whose file is there.
  pub mark_merged-Keeping :
      (doc : Document) (size : ℤ) (w : World R T O P K)
      → Knows doc w
      → HasFile s w.objects doc
      → Stored s w
      → Keeping w (on_docs s (s.docs.mark_merged doc.id size) w).1
  mark_merged-Keeping doc size w (row, there, (id, row_md5, row_name)) (content, has_file) h =
      elim (s.docs.mark_merged_any doc.id size w.docs) [
        | inl same ↦ unchanged-Keeping w _ same h
        | inr (t, changed) ↦
            update-Keeping w _ (λ a. if has_id doc.id a then with_merged size t a else a) changed
              (λ d. (ground arith, ground arith, ground arith))
              (λ d is_in merged. elim (Bool-cases (d.id ==ℤ doc.id)) [
                | inl it ↦
                    let (md5, name) =
                      h.unique d row is_in there ((==ℤ_iff d.id doc.id).0 it ∙ sym id) in
                    (
                      content,
                      (λ i. s.objects.merged w.objects ((md5 ∙ row_md5) i) ((name ∙ row_name) i))
                          ∙ has_file,
                    )
                | inr another ↦ h.stored d is_in (ground arith)
              ])
              h
      ]
