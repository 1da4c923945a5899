-- ===== src/Service/Documents/Listing.antt =====
-- `ListDocuments` of internal/service/document/document.go: the pages of a listing.
use ragkb.Base.{ℤ, pos, ◌≡◌, ◌⊎◌, refl, arith, ltb_ℤ, ◌||◌, ◌≤ℤ◌, if◌then◌else◌}
use ragkb.Domain.Document.{DocumentListQuery}
use ragkb.Service.Documents.{DocumentService, World, list_documents}

module _ {R T O P K : Type 0} (s : DocumentService R T O P K) where
  -- A listing asks for documents of the caller alone, for a page from 1 and 1 to 100 rows, whatever
  -- numbers come with the request, takes the page and the size of the request where they are in
  -- these bounds, and changes nothing.
  pub list_documents-bounds :
      (owner page size : ℤ) (w : World R T O P K)
      → (q : DocumentListQuery) × (q.owner_id ≡ owner)
        × (pos 1 ≤ℤ q.page)
        × (pos 1 ≤ℤ q.size)
        × (q.size ≤ℤ pos 100)
        × ((q.page ≡ page) ⊎ ¬ (pos 1 ≤ℤ page))
        × ((q.size ≡ size) ⊎ ¬ (pos 1 ≤ℤ size) ⊎ ¬ (size ≤ℤ pos 100))
        × (list_documents s owner page size w ≡ (s.docs.list_by_owner q w.docs, w))
  unfolding list_documents
  list_documents-bounds owner page size w =
      let page' = if ltb_ℤ page (pos 1) then pos 1 else page in
      let size' = if ltb_ℤ size (pos 1) || ltb_ℤ (pos 100) size then pos 20 else size in
      (
        record { owner_id = owner; page = page'; size = size' },
        refl,
        ground arith,
        ground arith,
        ground arith,
        ground arith,
        ground arith,
        refl,
      )
