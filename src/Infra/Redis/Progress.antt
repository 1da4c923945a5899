-- ===== src/Infra/Redis/Progress.antt =====
-- internal/infra/redis/upload_progress_store.go: a bitmap for each upload.
pub mod Laws
pub mod Refines
use ragkb.Base.{
  ℕ, ℤ, zero, suc, pos, negsuc, ◌*◌, ◌^◌, Bool, List, [], ◌∷◌, ◌++◌, ◌==◌, ◌==ℤ◌, length,
  if◌then◌else◌,
}
use ragkb.Text.{Text, lit}
use ragkb.Text.Decimal.{decimal}
use ragkb.Action.{Result, ok, err, panic, Action}
use ragkb.Infra.Redis.{Redis, Command, set_bit, expire}

-- 24 hours, in nanoseconds
abbrev pub upload_progress_ttl : ℕ
upload_progress_ttl = 24 * 3600 * 10 ^ 9

unfoldable pub progress_key : Text → ℤ → Text
progress_key md5 owner = lit "upload:" ++ (md5 ++ b':' ∷ decimal owner)

module _ {S : Type 0} (r : Redis S) where
  unfoldable pub mark_part : Text → ℤ → ℤ → Action S (Unit {0})
  mark_part md5 owner index =
      let key = progress_key md5 owner in
      r.exec (set_bit key index (pos 1) ∷ expire key upload_progress_ttl ∷ [])

  -- The loop of `UploadedParts` from index `i`, with `n` rounds left.
  unfoldable pub uploaded_from : Text → ℕ → ℕ → List ℕ → S → Result (List ℕ)
  uploaded_from key i zero uploaded s = ok uploaded
  uploaded_from key i (suc n) uploaded s = elim (r.get_bit key (pos i) s) [
    | ok bit ↦
        uploaded_from key (suc i) n (if bit ==ℤ pos 1 then uploaded ++ i ∷ [] else uploaded) s
    | err e ↦ err e
    | panic p ↦ panic p
  ]

  -- `make([]int, 0, totalParts)` panics if the capacity is negative.
  unfoldable pub uploaded_parts : Text → ℤ → ℤ → S → Result (List ℕ)
  uploaded_parts md5 owner (pos n) s = uploaded_from (progress_key md5 owner) 0 n [] s
  uploaded_parts md5 owner (negsuc n) s = panic (lit "makeslice: cap out of range")

  unfoldable pub all_uploaded : Text → ℤ → ℤ → S → Result Bool
  all_uploaded md5 owner total s = elim (uploaded_parts md5 owner total s) [
    | ok uploaded ↦ ok (pos (length uploaded) ==ℤ total)
    | err e ↦ err e
    | panic p ↦ panic p
  ]

  unfoldable pub clear : Text → ℤ → Action S (Unit {0})
  clear md5 owner = r.del (progress_key md5 owner)
