-- ===== src/Service/Documents/Stored.antt =====
-- What stays true however the calls of internal/service/document/document.go follow each other.
use ragkb.Base.{
  ◌≡◌, ◌≢◌, inl, inr, sym, ap, ◌∙◌, some, none, List, [], ◌∷◌, ◌++◌, map, arith, ==ℤ_iff,
  first_match, IsIn, IsIn-snoc, IsIn-map, IsIn-none,
}
use ragkb.Text.{Text}
use ragkb.Domain.Document.{Document, has_id, upload_status_merged}
use ragkb.Service.Documents.{DocumentService, World}

module _ {R T O P K : Type 0} (s : DocumentService R T O P K) where
  abbrev pub HasFile : O → Document → Type 0
  HasFile o d = (content : Text) × (s.objects.merged o d.file_md5 d.file_name ≡ some content)

  -- The rows with one number are of one file, and each merged row, deleted or not, has its file.
  pub record IsStored (rows : List Document) (o : O) : Type 0 where
    pub unique :
        (d d' : Document)
        → IsIn d rows
        → IsIn d' rows
        → d.id ≡ d'.id
        → (d.file_md5 ≡ d'.file_md5) × (d.file_name ≡ d'.file_name)
    pub stored : (d : Document) → IsIn d rows → d.upload_status ≡ upload_status_merged → HasFile o d

  abbrev pub Stored : World R T O P K → Type 0
  Stored w = IsStored (s.docs.rows w.docs) w.objects

  -- A change of the objects that loses no file.
  pub objects-IsStored :
      (rows : List Document) (o o' : O)
      → ((md5 name x : Text)
          → s.objects.merged o md5 name ≡ some x
          → (y : Text) × (s.objects.merged o' md5 name ≡ some y))
      → IsStored rows o
      → IsStored rows o'
  objects-IsStored rows o o' kept h = record {
    unique = h.unique;
    stored = λ d is_in merged.
        let (x, there) = h.stored d is_in merged in kept d.file_md5 d.file_name x there;
  }

  pub new-IsStored :
      (rows : List Document) (o : O) (d : Document)
      → first_match (has_id d.id) rows ≡ none
      → d.upload_status ≢ upload_status_merged
      → IsStored rows o
      → IsStored (rows ++ d ∷ []) o
  new-IsStored rows o d free open_still h =
      let apart : (x : Document) → IsIn x rows → x.id ≢ d.id = λ x is_in same.
        ground (arith, IsIn-none (has_id d.id) rows x free is_in, ==ℤ_iff x.id d.id) in
      record {
        unique = λ a b a_in b_in same. elim (IsIn-snoc a d rows a_in) [
          | inl a_old ↦ elim (IsIn-snoc b d rows b_in) [
            | inl b_old ↦ h.unique a b a_old b_old same
            | inr b_new ↦ absurd (apart a a_old (same ∙ ap (λ (x : Document). x.id) b_new))
          ]
          | inr a_new ↦ elim (IsIn-snoc b d rows b_in) [
            | inl b_old ↦ absurd (apart b b_old (sym same ∙ ap (λ (x : Document). x.id) a_new))
            | inr b_new ↦
                let both = a_new ∙ sym b_new in
                (ap (λ (x : Document). x.file_md5) both, ap (λ (x : Document). x.file_name) both)
          ]
        ];
        stored = λ a a_in merged. elim (IsIn-snoc a d rows a_in) [
          | inl a_old ↦ h.stored a a_old merged
          | inr a_new ↦
              absurd (open_still (sym (ap (λ (x : Document). x.upload_status) a_new) ∙ merged))
        ];
      }

  -- A change of the rows that keeps their numbers and files, and marks none without its file.
  pub update-IsStored :
      (rows : List Document) (o : O) (f : Document → Document)
      → ((d : Document)
          → ((f d).id ≡ d.id) × ((f d).file_md5 ≡ d.file_md5) × ((f d).file_name ≡ d.file_name))
      → ((d : Document) → IsIn d rows → (f d).upload_status ≡ upload_status_merged → HasFile o d)
      → IsStored rows o
      → IsStored (map f rows) o
  update-IsStored rows o f keeps marks h = record {
    unique = λ a b a_in b_in same.
        let (x, x_in, is_a) = IsIn-map f a rows a_in in
        let (y, y_in, is_b) = IsIn-map f b rows b_in in
        let (id_x, md5_x, name_x) = keeps x in
        let (id_y, md5_y, name_y) = keeps y in
        let same_id : x.id ≡ y.id =
          sym id_x
          ∙ sym (ap (λ (d : Document). d.id) is_a)
          ∙ same
          ∙ ap (λ (d : Document). d.id) is_b
          ∙ id_y in
        let (md5, name) = h.unique x y x_in y_in same_id in
        (
          ap (λ (d : Document). d.file_md5) is_a
              ∙ md5_x
              ∙ md5
              ∙ sym md5_y
              ∙ sym (ap (λ (d : Document). d.file_md5) is_b),
          ap (λ (d : Document). d.file_name) is_a
              ∙ name_x
              ∙ name
              ∙ sym name_y
              ∙ sym (ap (λ (d : Document). d.file_name) is_b),
        );
    stored = λ a a_in merged.
        let (x, x_in, is_a) = IsIn-map f a rows a_in in
        let (_, md5_x, name_x) = keeps x in
        let (content, there) =
          marks x x_in (sym (ap (λ (d : Document). d.upload_status) is_a) ∙ merged) in
        let md5 = ap (λ (d : Document). d.file_md5) is_a ∙ md5_x in
        let name = ap (λ (d : Document). d.file_name) is_a ∙ name_x in
        (content, rw (md5, name) there);
  }
