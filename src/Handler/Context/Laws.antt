-- ===== src/Handler/Context/Laws.antt =====
-- What stands behind a response of the steps that the handlers share.
use ragkb.Base.{ℤ, ◌≡◌, ◌≢◌, inl, inr, false, Bool, arith, none, some, Option-cases, Bool-cases}
use ragkb.Text.{Text, lit}
use ragkb.Text.Number.{parse_int}
use ragkb.Fault.{Error, message}
use ragkb.Action.{ok, err, Action, Result-cases}
use ragkb.Handler.{Response, error, respond_error, code_bad_request, code_unauthorized, http_status}
use ragkb.Handler.Context.{
  Context, Handler, Binding, reply, current_user_id, respond, with_user, with_body,
  with_document_id,
}

-- No error is told by a status of success.
pub respond_error-not_ok : (e : Error) → (respond_error e).status ≢ 200
unfolding respond_error error http_status
respond_error-not_ok e h = ground arith

pub bad_request-not_ok : (t : Text) → (error code_bad_request t).status ≢ 200
unfolding error http_status
bad_request-not_ok t h = ground arith

pub unauthorized-not_ok : (t : Text) → (error code_unauthorized t).status ≢ 200
unfolding error http_status
unauthorized-not_ok t h = ground arith

module _ {W : Type 0} where
  -- A response with status 200 is the one for the value that the call has returned.
  pub respond-ok :
      {A : Type 0} (m : Action W A) (f : A → Response) (w w' : W) (r : Response)
      → respond m f w ≡ (reply r, w')
      → r.status ≡ 200
      → (a : A) × (m w ≡ (ok a, w')) × (r ≡ f a)
  respond-ok m f w w' r h good = elim (Result-cases (m w).0) [
    | inl (a, done) ↦ (a, ground arith, ground arith)
    | inr (inl (e, failed)) ↦ absurd (ground (arith, respond_error-not_ok e))
    | inr (inr (p, failed)) ↦ absurd (ground arith)
  ]

  pub with_user-ok :
      (c : Context) (next : ℤ → Handler W) (w w' : W) (r : Response)
      → with_user c next w ≡ (reply r, w')
      → r.status ≡ 200
      → (uid : ℤ) × (current_user_id c ≡ some uid) × (next uid w ≡ (reply r, w'))
  with_user-ok c next w w' r h good = elim (Option-cases (current_user_id c)) [
    | inl nobody ↦ absurd (ground (arith, unauthorized-not_ok (lit "unauthorized")))
    | inr (uid, somebody) ↦ (uid, somebody, ground arith)
  ]

  pub with_document_id-ok :
      (c : Context) (next : ℤ → Handler W) (w w' : W) (r : Response)
      → with_document_id c next w ≡ (reply r, w')
      → r.status ≡ 200
      → ((parse_int (c.param (lit "id"))).failed ≡ false)
        × (next (parse_int (c.param (lit "id"))).value w ≡ (reply r, w'))
  with_document_id-ok c next w w' r h good =
      elim (Bool-cases (parse_int (c.param (lit "id"))).failed) [
        | inl bad ↦ absurd (ground (arith, bad_request-not_ok (lit "invalid document id")))
        | inr fine ↦ (fine, ground arith)
      ]

  pub with_user-some :
      (c : Context) (next : ℤ → Handler W) (uid : ℤ) (w : W)
      → current_user_id c ≡ some uid
      → with_user c next w ≡ next uid w
  with_user-some c next uid w h = ground arith

  pub with_user-none :
      (c : Context) (next : ℤ → Handler W) (w : W)
      → current_user_id c ≡ none
      → with_user c next w ≡ (reply (error code_unauthorized (lit "unauthorized")), w)
  with_user-none c next w h = ground arith

  pub with_document_id-some :
      (c : Context) (next : ℤ → Handler W) (id : ℤ) (w : W)
      → parse_int (c.param (lit "id")) ≡ record { value = id; failed = false }
      → with_document_id c next w ≡ next id w
  with_document_id-some c next id w h = ground arith

  pub with_body-some :
      {A : Type 0} {valid : A → Bool} (b : Binding A valid) (c : Context) (next : A → Handler W)
      (a : A) (w : W)
      → b.bind c.body ≡ ok a
      → with_body b c next w ≡ next a w
  with_body-some b c next a w h = ground arith

  pub with_body-fails :
      {A : Type 0} {valid : A → Bool} (b : Binding A valid) (c : Context) (next : A → Handler W)
      (e : Error) (w : W)
      → b.bind c.body ≡ err e
      → with_body b c next w ≡ (reply (error code_bad_request (message e)), w)
  with_body-fails b c next e w h = ground arith

  pub respond-fails :
      {A : Type 0} (m : Action W A) (f : A → Response) (e : Error) (w w' : W)
      → m w ≡ (err e, w')
      → respond m f w ≡ (reply (respond_error e), w')
  respond-fails m f e w w' h = ground arith

  pub with_body-ok :
      {A : Type 0} {valid : A → Bool} (b : Binding A valid) (c : Context) (next : A → Handler W)
      (w w' : W) (r : Response)
      → with_body b c next w ≡ (reply r, w')
      → r.status ≡ 200
      → (a : A) × (b.bind c.body ≡ ok a) × (next a w ≡ (reply r, w'))
  with_body-ok b c next w w' r h good = elim (Result-cases (b.bind c.body)) [
    | inl (a, bound) ↦ (a, bound, ground arith)
    | inr (inl (e, failed)) ↦ absurd (ground (arith, bad_request-not_ok (message e)))
    | inr (inr (p, failed)) ↦ absurd (ground arith)
  ]
