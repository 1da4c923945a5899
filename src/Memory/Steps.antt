-- ===== src/Memory/Steps.antt =====
-- The progress of uploads in memory, as sets.
use ragkb.Base.{pos, ◌≡◌, refl, [], ◌∷◌, List, keep, range, false}
use ragkb.Text.{lit, ◌==ᵗ◌}
use ragkb.Text.Decimal.{decimal}
use ragkb.Infra.Redis.Progress.{
  progress_key, mark_part, uploaded_from, uploaded_parts, all_uploaded,
}
use ragkb.Infra.Redis.Progress.Refines.{
  Change, changes, every, parts, make_all, uploaded_parts-refines, all_uploaded-every,
}
use ragkb.Memory.Servers.{empty, redis, Bits}

-- Parts 0 and 2 of one upload are marked, and one of another.
abbrev marks : List Change
marks =
    Change.mark (lit "abc") (pos 5) 0
    ∷ Change.mark (lit "abc") (pos 5) 2
    ∷ Change.mark (lit "abc") (pos 6) 1
    ∷ []

unfoldable marked : Bits
unfolding redis make_all mark_part progress_key decimal ◌==ᵗ◌ uploaded_from uploaded_parts
    all_uploaded
marked = (make_all redis marks empty.progress).1

uploaded_parts-refines_example :
    0 ∷ 2 ∷ [] ≡ keep (changes marks (parts redis empty.progress) (lit "abc") (pos 5)) (range 0 3)
unfolding marked
uploaded_parts-refines_example =
    uploaded_parts-refines redis marks empty.progress marked tt (lit "abc") (pos 5) 3 (0 ∷ 2 ∷ [])
      refl refl

all_uploaded-every_example : false ≡ every (parts redis marked (lit "abc") (pos 5)) 0 3
unfolding marked
all_uploaded-every_example = all_uploaded-every redis (lit "abc") (pos 5) 3 marked false refl
