-- ===== src/Handler/Documents/Laws.antt =====
-- What the replies of internal/handler/document/handler.go say.
use ragkb.Base.{
  ◌≤ℤ◌, ==ℤ_refl, ℕ, ℤ, pos, leb_ℤ, ◌≡◌, ◌⊎◌, inl, inr, ap, sym, ◌∙◌, false, true, arith, some,
  none, [], length, first_match, Bool-cases,
}
use ragkb.Text.{Text, lit}
use ragkb.Text.Decimal.{decimal}
use ragkb.Text.Number.{parse_int, min_int64, max_int64, parse_int-decimal}
use ragkb.Fault.{is_user}
use ragkb.Action.{ok}
use ragkb.Domain.Document.{Document, has_live_id, upload_status_merged}
use ragkb.Service.Documents.{DocumentService, World, get_document, owned_doc, upload_part}
use ragkb.Service.Documents.Access.{get_document-owner}
use ragkb.Service.Documents.Progress.{upload_part-ok}
use ragkb.Handler.{Response, ok_response}
use ragkb.Handler.Types.{Payload}
use ragkb.Handler.Context.{
  Context, Handler, reply, current_user_id, respond, with_document_id, default_query,
}
use ragkb.Handler.Context.Laws.{respond-ok, with_user-ok, with_document_id-ok, bad_request-not_ok}
use ragkb.Handler.Documents.{get, upload, with_part_numbers, max_part_size}

with_part_numbers-ok :
    {W : Type 0} (c : Context) (next : ℤ → ℤ → Handler W) (w w' : W) (r : Response)
    → with_part_numbers c next w ≡ (reply r, w')
    → r.status ≡ 200
    → (part : ℤ) × (parts : ℤ) × (parse_int (c.param (lit "partNumber"))
        ≡ record { value = part; failed = false })
      × (parse_int (default_query c (lit "totalParts") [])
          ≡ record { value = parts; failed = false })
      × (leb_ℤ parts (pos 0) ≡ false)
      × (next part parts w ≡ (reply r, w'))
with_part_numbers-ok c next w w' r h good =
    let part = parse_int (c.param (lit "partNumber")) in
    let parts = parse_int (default_query c (lit "totalParts") []) in
    elim (Bool-cases part.failed) [
      | inl bad ↦ absurd (ground (arith, bad_request-not_ok (lit "invalid part number")))
      | inr fine ↦ elim (Bool-cases parts.failed) [
        | inl bad ↦
            absurd (ground (arith, bad_request-not_ok (lit "missing or invalid totalParts query")))
        | inr fine' ↦ elim (Bool-cases (leb_ℤ parts.value (pos 0))) [
          | inl bad ↦
              absurd
                (ground (arith, bad_request-not_ok (lit "missing or invalid totalParts query")))
          | inr positive ↦ (
            part.value,
            parts.value,
            λ i. record { value = part.value; failed = fine i },
            λ i. record { value = parts.value; failed = fine' i },
            positive,
            ground arith,
          )
        ]
      ]
    ]

module _ {R T O P K : Type 0} (s : DocumentService R T O P K) where
  -- A document that is sent to a client is one of the client's user, under the number of the path,
  -- and not deleted. Nothing has changed.
  pub get-ok :
      (c : Context) (w w' : World R T O P K) (r : Response)
      → get s c w ≡ (reply r, w')
      → r.status ≡ 200
      → (doc : Document) × (r ≡ ok_response (Payload.document doc))
        × (current_user_id c ≡ some doc.owner_id)
        × (parse_int (c.param (lit "id")) ≡ record { value = doc.id; failed = false })
        × (doc.deleted_at ≡ none)
        × (w' ≡ w)
  unfolding get
  get-ok c w w' r h good =
      let find = (λ (uid id : ℤ).
        respond (get_document s uid id) (λ doc. ok_response (Payload.document doc))) in
      let (uid, is_user, h₁) =
        with_user-ok c (λ uid. with_document_id c (find uid)) w w' r h good in
      let (fine, h₂) = with_document_id-ok c (find uid) w w' r h₁ good in
      let id = (parse_int (c.param (lit "id"))).value in
      let (doc, found, is) =
        respond-ok (get_document s uid id) (λ doc. ok_response (Payload.document doc)) w w' r h₂
          good in
      let (mine, same_id, live, same) = get_document-owner s uid id w w' doc found in
      (
        doc,
        is,
        is_user ∙ ap some (sym mine),
        λ i. record { value = sym same_id i; failed = fine i },
        live,
        same,
      )

  -- The owner of a live document who asks for it by its number is sent it.
  pub get-returns :
      (c : Context) (w : World R T O P K) (doc : Document)
      → current_user_id c ≡ some doc.owner_id
      → c.param (lit "id") ≡ decimal doc.id
      → min_int64 ≤ℤ doc.id
      → doc.id ≤ℤ max_int64
      → s.docs.get_by_id doc.id w.docs ≡ ok doc
      → get s c w ≡ (reply (ok_response (Payload.document doc)), w)
  unfolding get get_document owned_doc
  get-returns c w doc is_user named low high found =
      let is_id : parse_int (c.param (lit "id")) ≡ record { value = doc.id; failed = false } =
        ap parse_int named ∙ parse_int-decimal doc.id low high in
      let mine = ==ℤ_refl doc.owner_id in ground arith

  -- A part whose upload is answered with success, where the body is as long as the request says and
  -- the limit on parts lets it through, is one for a live document of the client's user. That
  -- document is merged already and nothing has changed; or what is stored as the part, and marked
  -- for the user, is the body of the request under the number of its path.
  pub upload-ok :
      (max_bytes_reader : ℕ → Text → Text) (c : Context) (w w' : World R T O P K) (r : Response)
      → max_bytes_reader max_part_size c.body ≡ c.body
      → c.content_length ≡ pos (length c.body)
      → upload s max_bytes_reader c w ≡ (reply r, w')
      → r.status ≡ 200
      → (doc : Document) × (first_match
            (has_live_id (parse_int (c.param (lit "id"))).value)
            (s.docs.rows w.docs)
          ≡ some doc)
        × (current_user_id c ≡ some doc.owner_id)
        × (((doc.upload_status ≡ upload_status_merged) × (w' ≡ w))
            ⊎ ((i : ℕ) × (parse_int (c.param (lit "partNumber"))
                  ≡ record { value = pos i; failed = false })
                × (s.objects.part w'.objects doc.file_md5 i ≡ some c.body)
                × (s.progress.has w'.progress doc.file_md5 doc.owner_id i ≡ true)
                × (w'.docs ≡ w.docs)))
  unfolding upload
  upload-ok max_bytes_reader c w w' r whole long h good =
      let body = max_bytes_reader max_part_size c.body in
      let send = (λ (uid id part parts : ℤ).
        respond (upload_part s uid id part parts body c.content_length)
          (λ _. ok_response (Payload.uploaded_part part))) in
      let (uid, is_user, h₁) =
        with_user-ok c (λ uid. with_document_id c (λ id. with_part_numbers c (send uid id))) w w' r
          h good in
      let id = (parse_int (c.param (lit "id"))).value in
      let (_, h₂) =
        with_document_id-ok c (λ id. with_part_numbers c (send uid id)) w w' r h₁ good in
      let (part, parts, is_part, _, _, h₃) = with_part_numbers-ok c (send uid id) w w' r h₂ good in
      let (u, sent, _) =
        respond-ok (upload_part s uid id part parts body c.content_length)
          (λ _. ok_response (Payload.uploaded_part part)) w w' r h₃ good in
      let sent' : upload_part s uid id part parts c.body (pos (length c.body)) w ≡ (ok u, w') =
        (λ i. upload_part s uid id part parts (sym whole i) (sym long i) w) ∙ sent in
      let (doc, row, mine, what) = upload_part-ok s uid id part parts c.body w w' u sent' in
      (
        doc,
        row,
        is_user ∙ ap some (sym mine),
        elim what [
          | inl (merged, same) ↦ inl (merged, same)
          | inr (_, i, is_i, _, stored, marked, docs) ↦ inr (
            i,
            is_part ∙ (λ j. record { value = is_i j; failed = false }),
            stored,
            rw mine marked,
            docs,
          )
        ],
      )
