-- ===== src/Handler/Documents/Errors.antt =====
-- What the replies of internal/handler/document/handler.go say of the errors of the service.
use ragkb.Base.{ℕ, ℤ, pos, leb_ℤ, ◌≡◌, ◌≢◌, false, arith, some, []}
use ragkb.Text.{Text, lit}
use ragkb.Text.Number.{parse_int}
use ragkb.Fault.{Error, DocumentError, document, is_document, is_user, message}
use ragkb.Action.{ok, err}
use ragkb.Domain.Document.{Document}
use ragkb.Service.Documents.{
  DocumentService, World, get_document, upload_part, complete_upload, delete_document,
}
use ragkb.Service.Documents.Access.{foreign_not_found}
use ragkb.Handler.{error, http_status, ok_response, code_not_found, respond_error}
use ragkb.Handler.Types.{Payload}
use ragkb.Handler.Context.{
  Context, Handler, reply, Binding, current_user_id, respond, default_query,
}
use ragkb.Handler.Documents.{
  get, upload, complete, delete, is_complete_request, with_part_numbers, max_part_size,
}

with_part_numbers-some :
    {W : Type 0} (c : Context) (next : ℤ → ℤ → Handler W) (part parts : ℤ) (w : W)
    → parse_int (c.param (lit "partNumber")) ≡ record { value = part; failed = false }
    → parse_int (default_query c (lit "totalParts") []) ≡ record { value = parts; failed = false }
    → leb_ℤ parts (pos 0) ≡ false
    → with_part_numbers c next w ≡ next part parts w
with_part_numbers-some c next part parts w is_part is_total positive = ground arith

-- The request is of that user, and its path has the number.
abbrev pub Names : ℤ → ℤ → Context → Type 0
Names uid id c =
    (current_user_id c ≡ some uid)
    × (parse_int (c.param (lit "id")) ≡ record { value = id; failed = false })

module _ {R T O P K : Type 0} (s : DocumentService R T O P K) where
  -- How the error of a service reaches the client.
  get-fails :
      (c : Context) (uid id : ℤ) (e : Error) (w w' : World R T O P K)
      → current_user_id c ≡ some uid
      → parse_int (c.param (lit "id")) ≡ record { value = id; failed = false }
      → get_document s uid id w ≡ (err e, w')
      → get s c w ≡ (reply (respond_error e), w')
  unfolding get
  get-fails c uid id e w w' is_user is_id h = ground arith

  upload-fails :
      (max_bytes_reader : ℕ → Text → Text) (c : Context) (uid id part parts : ℤ) (e : Error)
      (w w' : World R T O P K)
      → current_user_id c ≡ some uid
      → parse_int (c.param (lit "id")) ≡ record { value = id; failed = false }
      → parse_int (c.param (lit "partNumber")) ≡ record { value = part; failed = false }
      → parse_int (default_query c (lit "totalParts") []) ≡ record { value = parts; failed = false }
      → leb_ℤ parts (pos 0) ≡ false
      → upload_part s uid id part parts (max_bytes_reader max_part_size c.body) c.content_length w
        ≡ (err e, w')
      → upload s max_bytes_reader c w ≡ (reply (respond_error e), w')
  unfolding upload
  upload-fails max_bytes_reader c uid id part parts e w w' is_user is_id is_part is_total positive
        h =
      let step =
        with_part_numbers-some c
          (λ part_number total_parts.
            respond
              (upload_part s uid id part_number total_parts (max_bytes_reader max_part_size c.body)
                c.content_length)
              (λ _. ok_response (Payload.uploaded_part part_number)))
          part parts w is_part is_total positive in
      ground arith

  complete-fails :
      (b : Binding ℤ is_complete_request) (c : Context) (uid id total : ℤ) (e : Error)
      (w w' : World R T O P K)
      → current_user_id c ≡ some uid
      → parse_int (c.param (lit "id")) ≡ record { value = id; failed = false }
      → b.bind c.body ≡ ok total
      → complete_upload s uid id total w ≡ (err e, w')
      → complete s b c w ≡ (reply (respond_error e), w')
  unfolding complete
  complete-fails b c uid id total e w w' is_user is_id bound h = ground arith

  delete-fails :
      (c : Context) (uid id : ℤ) (e : Error) (w w' : World R T O P K)
      → current_user_id c ≡ some uid
      → parse_int (c.param (lit "id")) ≡ record { value = id; failed = false }
      → delete_document s uid id w ≡ (err e, w')
      → delete s c w ≡ (reply (respond_error e), w')
  unfolding delete
  delete-fails c uid id e w w' is_user is_id h = ground arith

  -- To a client whose user does not own the document of the path, it looks as if there were none:
  -- four requests that name it, to read it, to send a part of it, to complete and to delete it, get
  -- the same 404, and change nothing, where their part numbers and their body can be read.
  pub foreign_is_404 :
      (b : Binding ℤ is_complete_request) (max_bytes_reader : ℕ → Text → Text)
      (reads sends completes deletes : Context) (w : World R T O P K) (uid id part total parts : ℤ)
      (doc : Document)
      → Names uid id reads
      → Names uid id sends
      → Names uid id completes
      → Names uid id deletes
      → parse_int (sends.param (lit "partNumber")) ≡ record { value = part; failed = false }
      → parse_int (default_query sends (lit "totalParts") [])
        ≡ record { value = parts; failed = false }
      → leb_ℤ parts (pos 0) ≡ false
      → b.bind completes.body ≡ ok total
      → s.docs.get_by_id id w.docs ≡ ok doc
      → s.docs.get_by_id_any id w.docs ≡ ok doc
      → doc.owner_id ≢ uid
      → (get s reads w ≡ (reply (error code_not_found (lit "document not found")), w))
        × (upload s max_bytes_reader sends w
            ≡ (reply (error code_not_found (lit "document not found")), w))
        × (complete s b completes w ≡ (reply (error code_not_found (lit "document not found")), w))
        × (delete s deletes w ≡ (reply (error code_not_found (lit "document not found")), w))
  unfolding respond_error is_document is_user message error http_status
  foreign_is_404 b max_bytes_reader reads sends completes deletes w uid id part total parts doc
        (user₁, id₁) (user₂, id₂) (user₃, id₃) (user₄, id₄) is_part is_total positive bound live any
        foreign =
      let body = max_bytes_reader max_part_size sends.body in
      let (got, sent, _, deleted) =
        foreign_not_found s uid id w doc part parts sends.content_length body live any foreign in
      let (_, _, completed, _) =
        foreign_not_found s uid id w doc part total sends.content_length body live any foreign in
      let missing = document DocumentError.not_found in
      (
        get-fails reads uid id missing w w user₁ id₁ got,
        upload-fails max_bytes_reader sends uid id part parts missing w w user₂ id₂ is_part is_total
            positive sent,
        complete-fails b completes uid id total missing w w user₃ id₃ bound completed,
        delete-fails deletes uid id missing w w user₄ id₄ deleted,
      )
