-- ===== src/Infra/Minio/Keys.antt =====
-- The keys that internal/infra/minio/object_store.go gives to parts and files, against each other.
use ragkb.Base.{ℕ, ℤ, ◌≡◌, ◌≢◌, ap, [], ◌∷◌, ◌++◌, arith}
use ragkb.Text.{Text}
use ragkb.Text.Split.{Lacks, split_last, split_first}
use ragkb.Text.Decimal.{decimal, decimal-injective, decimal-Lacks}
use ragkb.Infra.Minio.{part_key, merged_key}

-- Two parts share an object only if they are the same part of the same file.
pub part_key-injective :
    (md5 md5' : Text) (i j : ℤ) → part_key md5 i ≡ part_key md5' j → (md5 ≡ md5') × (i ≡ j)
unfolding part_key
part_key-injective md5 md5' i j e =
    let rests : md5 ++ b'/' ∷ decimal i ≡ md5' ++ b'/' ∷ decimal j = cc in
    let (m, d) =
      split_last b'/' md5 md5' (decimal i) (decimal j)
        (decimal-Lacks b'/' i (λ h. omega arith) (omega arith))
        (decimal-Lacks b'/' j (λ h. omega arith) (omega arith)) rests in
    (m, decimal-injective i j d)

-- Two files share an object only if they are the same, for MD5 texts without a slash.
pub merged_key-injective :
    (md5 md5' name name' : Text)
    → Lacks b'/' md5
    → Lacks b'/' md5'
    → merged_key md5 name ≡ merged_key md5' name'
    → (md5 ≡ md5') × (name ≡ name')
unfolding merged_key
merged_key-injective md5 md5' name name' l l' e =
    let rests : md5 ++ b'/' ∷ name ≡ md5' ++ b'/' ∷ name' = cc in
    split_first b'/' md5 md5' name name' l l' rests

abbrev first_byte : Text → ℕ
first_byte [] = 0
first_byte (c ∷ _) = c

-- A part is never stored where a file is.
pub part_key-ne-merged_key : (md5 md5' name : Text) (i : ℤ) → part_key md5 i ≢ merged_key md5' name
unfolding part_key merged_key
part_key-ne-merged_key md5 md5' name i e = absurd (omega (arith, ap first_byte e))
