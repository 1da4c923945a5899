-- ===== src/Service/Documents/Ports.antt =====
-- The interfaces that internal/service/document/document.go declares for its object store, its
-- upload progress and its event publisher: operations over a state, and what a call that returns
-- no error has done.
use mathlib.Core.Option
use ragkb.Base.{
  ℕ, ℤ, zero, suc, pos, pos_part, ◌<◌, ltb, ◌≡◌, Bool, true, false, ◌&&◌, Option, some, none, List,
  [], ◌∷◌, ◌++◌, ◌==◌, ◌==ℤ◌, keep, range, length, if◌then◌else◌,
}
use ragkb.Text.{Text, ◌==ᵗ◌}
use ragkb.Action.{Result, ok, Action}

-- Two uploads are the same if the file and its owner are.
abbrev pub is_same_upload : Text → ℤ → Text → ℤ → Bool
is_same_upload md5 owner md5' owner' = md5 ==ᵗ md5' && owner ==ℤ owner'

-- `has s md5 owner i`: part `i` of that upload is marked.
pub record UploadProgress (P : Type 0) : Type 0 where
  pub has : P → Text → ℤ → ℕ → Bool
  pub mark_part : Text → ℤ → ℤ → Action P (Unit {0})
  pub uploaded_parts : Text → ℤ → ℤ → P → Result (List ℕ)
  pub all_uploaded : Text → ℤ → ℤ → P → Result Bool
  pub clear : Text → ℤ → Action P (Unit {0})
  pub mark_part_ok :
      (md5 : Text) (owner : ℤ) (i : ℕ) (s s' : P) (u : Unit {0})
      → mark_part md5 owner (pos i) s ≡ (ok u, s')
      → (md5' : Text) (owner' : ℤ) (j : ℕ)
      → has s' md5' owner' j
        ≡ (if is_same_upload md5 owner md5' owner' && i == j then true else has s md5' owner' j)
  pub uploaded_parts_ok :
      (md5 : Text) (owner : ℤ) (n : ℕ) (s : P) (l : List ℕ)
      → uploaded_parts md5 owner (pos n) s ≡ ok l
      → l ≡ keep (has s md5 owner) (range 0 n)
  -- A count of parts below 0 gives no answer; a true answer means that each part is marked.
  pub all_uploaded_ok :
      (md5 : Text) (owner : ℤ) (total : ℤ) (s : P) (b : Bool)
      → all_uploaded md5 owner total s ≡ ok b
      → (n : ℕ) × (total ≡ pos n)
        × (b ≡ true → (i : ℕ) → i < n → has s md5 owner i ≡ true)
        × (b ≡ false → (i : ℕ) × (i < n) × (has s md5 owner i ≡ false))
  pub clear_ok :
      (md5 : Text) (owner : ℤ) (s s' : P) (u : Unit {0})
      → clear md5 owner s ≡ (ok u, s')
      → (md5' : Text) (owner' : ℤ) (j : ℕ)
      → has s' md5' owner' j
        ≡ (if is_same_upload md5 owner md5' owner' then false else has s md5' owner' j)

-- The contents of the parts from `i` on, `n` of them, in their order; none if one is missing.
abbrev pub joined : (ℕ → Option Text) → ℕ → ℕ → Option Text
joined part i zero = some []
joined part i (suc n) = elim (part i) [
  | none ↦ none
  | some content ↦ Option.map (λ rest. content ++ rest) (joined part (suc i) n)
]

-- `part s md5 i` is the object of part `i`, `merged s md5 name` that of the file.
pub record ObjectStore (O : Type 0) : Type 0 where
  pub part : O → Text → ℕ → Option Text
  pub merged : O → Text → Text → Option Text
  pub put_part : Text → ℤ → Text → ℤ → Action O (Unit {0})
  pub compose_merged : Text → Text → ℤ → Action O (Text × ℤ)
  pub remove_parts : Text → ℤ → Action O (Unit {0})
  pub merged_key : Text → Text → Text
  -- The reader gives the bytes `content`, as many as the call says.
  pub put_part_ok :
      (md5 : Text) (i : ℕ) (content : Text) (s s' : O) (u : Unit {0})
      → put_part md5 (pos i) content (pos (length content)) s ≡ (ok u, s')
      → (md5' : Text)
      → ((j : ℕ)
          → part s' md5' j ≡ (if md5 ==ᵗ md5' && i == j then some content else part s md5' j))
        × ((name : Text) → merged s' md5' name ≡ merged s md5' name)
  -- The file is the parts joined in order, and its size is told.
  pub compose_merged_ok :
      (md5 name : Text) (total : ℤ) (s s' : O) (key : Text) (size : ℤ)
      → compose_merged md5 name total s ≡ (ok (key, size), s')
      → (n : ℕ) × (content : Text) × (total ≡ pos n)
        × (key ≡ merged_key md5 name)
        × (joined (part s md5) 0 n ≡ some content)
        × (merged s' md5 name ≡ some content)
        × (size ≡ pos (length content))
  -- Whether or not they fail, storing a part leaves the files alone, and a merge leaves a file where
  -- there was one.
  pub put_part_merged :
      (md5 : Text) (i : ℤ) (content : Text) (size : ℤ) (s : O) (md5' name : Text)
      → merged (put_part md5 i content size s).1 md5' name ≡ merged s md5' name
  pub compose_merged_any :
      (md5 name : Text) (total : ℤ) (s : O) (md5' name' x : Text)
      → merged s md5' name' ≡ some x
      → (y : Text) × (merged (compose_merged md5 name total s).1 md5' name' ≡ some y)
  -- Whether or not it fails, the removal leaves the files alone.
  pub remove_parts_merged :
      (md5 : Text) (total : ℤ) (s : O) (md5' name : Text)
      → merged (remove_parts md5 total s).1 md5' name ≡ merged s md5' name
  pub remove_parts_ok :
      (md5 : Text) (total : ℤ) (s s' : O) (u : Unit {0})
      → remove_parts md5 total s ≡ (ok u, s')
      → (md5' : Text) (j : ℕ)
      → part s' md5' j ≡ (if md5 ==ᵗ md5' && ltb j (pos_part total) then none else part s md5' j)

-- A message by its key, for the partition, and its value.
pub record Message : Type 0 where
  pub key : Text
  pub value : Text

-- `published s` are the messages of the topic, the oldest first.
pub record EventPublisher (K : Type 0) : Type 0 where
  pub published : K → List Message
  pub publish : Text → Text → Action K (Unit {0})
  pub publish_ok :
      (key value : Text) (s s' : K) (u : Unit {0})
      → publish key value s ≡ (ok u, s')
      → published s' ≡ published s ++ record { key = key; value = value } ∷ []
