-- ===== src/Infra/Minio.antt =====
-- internal/infra/minio/object_store.go, over the calls of the MinIO client.
pub mod Keys
pub mod Laws
pub mod Removal
use mathlib.Core.Option
use ragkb.Base.{
  ℕ, ℤ, zero, suc, pos, negsuc, ◌≡◌, Bool, true, false, ◌&&◌, Option, some, none, List, [], ◌∷◌,
  ◌++◌, ◌⊎◌, length, if◌then◌else◌,
}
use ragkb.Text.{Text, Unicode, lit, ◌==ᵗ◌}
use ragkb.Text.Quote.{quote}
use ragkb.Text.Decimal.{decimal}
use ragkb.Fault.{Error, wrapped}
use ragkb.Action.{Result, ok, err, panic, Action, attempt, pure, fail, map_error}

-- An object's place: its bucket and its key.
pub record Location : Type 0 where
  pub bucket : Text
  pub object : Text

abbrev pub is_at : Location → Location → Bool
is_at a b = a.bucket ==ᵗ b.bucket && a.object ==ᵗ b.object

-- The objects at some places joined in order; none if one is missing.
abbrev pub contents : (Location → Option Text) → List Location → Option Text
contents object [] = some []
contents object (l ∷ ls) = elim (object l) [
  | none ↦ none
  | some content ↦ Option.map (λ rest. content ++ rest) (contents object ls)
]

-- The client is not part of the repository: its calls are parameters over the states `S` of the
-- server, with their documented effect. A call that fails may or may not have been done.
pub record Minio (S : Type 0) : Type 0 where
  pub object : S → Location → Option Text
  -- PutObject reads the given number of bytes
  pub put_object : Location → Text → ℤ → Action S (Unit {0})
  -- ComposeObject returns the size in its UploadInfo
  pub compose_object : Location → List Location → Action S ℤ
  pub remove_object : Location → Action S (Unit {0})
  pub put_object_ok :
      (l : Location) (content : Text) (s s' : S) (u : Unit {0})
      → put_object l content (pos (length content)) s ≡ (ok u, s')
      → (k : Location) → object s' k ≡ (if is_at l k then some content else object s k)
  pub compose_object_ok :
      (dst : Location) (srcs : List Location) (s s' : S) (size : ℤ)
      → compose_object dst srcs s ≡ (ok size, s')
      → (content : Text) × (contents (object s) srcs ≡ some content)
        × (size ≡ pos (length content))
        × ((k : Location) → object s' k ≡ (if is_at dst k then some content else object s k))
  -- Whether they fail or not, storing and composing change no other object, and a composition leaves
  -- an object where there was one.
  pub put_object_other :
      (l k : Location) (content : Text) (size : ℤ) (s : S)
      → is_at l k ≡ false
      → object (put_object l content size s).1 k ≡ object s k
  pub compose_object_any :
      (dst : Location) (srcs : List Location) (s : S) (k : Location) (x : Text)
      → object s k ≡ some x
      → (y : Text) × (object (compose_object dst srcs s).1 k ≡ some y)
  pub remove_object_ok :
      (l : Location) (s s' : S) (u : Unit {0}) → remove_object l s ≡ (ok u, s') → object s' l ≡ none
  -- A removal touches no other object, whether it fails or not.
  pub remove_object_other :
      (l k : Location) (s : S) → is_at l k ≡ false → object (remove_object l s).1 k ≡ object s k

-- chunks/{md5}/{index}
unfoldable pub part_key : Text → ℤ → Text
part_key md5 index = lit "chunks/" ++ (md5 ++ b'/' ∷ decimal index)

-- merged/{md5}/{fileName}
unfoldable pub merged_key : Text → Text → Text
merged_key md5 file_name = lit "merged/" ++ (md5 ++ b'/' ∷ file_name)

module _ {S : Type 0} (m : Minio S) (bucket : Text) where
  abbrev pub at : Text → Location
  at key = record { bucket = bucket; object = key }

  unfoldable pub put_part : Text → ℤ → Text → ℤ → Action S (Unit {0})
  put_part md5 index r size =
      map_error (wrapped (lit "put part " ++ (decimal index ++ lit ": ")))
        (m.put_object (at (part_key md5 index)) r size)

  -- The sources of the parts from `i` on, `n` of them.
  unfoldable pub sources : Text → ℕ → ℕ → List Location
  sources md5 i zero = []
  sources md5 i (suc n) = at (part_key md5 (pos i)) ∷ sources md5 (suc i) n

  unfoldable pub compose : Text → Text → ℕ → Action S (Text × ℤ)
  compose md5 file_name n =
      attempt (m.compose_object (at (merged_key md5 file_name)) (sources md5 0 n))
        (λ size. pure (merged_key md5 file_name, size))
        (λ e. fail (wrapped (lit "compose merged object: ") e))

  -- `make([]T, totalParts)` panics if the length is negative.
  unfoldable pub compose_merged : Text → Text → ℤ → Action S (Text × ℤ)
  compose_merged md5 file_name (pos n) s = compose md5 file_name n s
  compose_merged md5 file_name (negsuc n) s = (panic (lit "makeslice: len out of range"), s)

  -- The loop of `RemoveParts` from index `i`, with `n` rounds left: it stops at the first error.
  unfoldable pub remove_from : Text → ℕ → ℕ → Action S (Unit {0})
  remove_from md5 i zero = pure tt
  remove_from md5 i (suc n) =
      attempt (m.remove_object (at (part_key md5 (pos i)))) (λ _. remove_from md5 (suc i) n)
        (λ e. fail (wrapped (lit "remove part " ++ (decimal (pos i) ++ lit ": ")) e))

  unfoldable pub remove_parts : Text → ℤ → Action S (Unit {0})
  remove_parts md5 (pos n) = remove_from md5 0 n
  remove_parts md5 (negsuc n) = pure tt

  unfoldable pub remove_object : Unicode → Text → Action S (Unit {0})
  remove_object u key =
      map_error (wrapped (lit "remove object " ++ (quote u key ++ lit ": ")))
        (m.remove_object (at key))

  -- The client's call, which opens a reader, is a parameter.
  unfoldable pub get_object :
      {Reader : Type 0} → Unicode → (Location → Action S Reader) → Text → Action S Reader
  get_object u open_reader key =
      map_error (wrapped (lit "get object " ++ (quote u key ++ lit ": "))) (open_reader (at key))
