-- ===== src/Server/Laws.antt =====
-- Who gets through the middleware of internal/server to which handler.
use ragkb.Base.{
  ℤ, ◌≡◌, ◌≢◌, inl, inr, refl, ap, sym, ◌∙◌, subst, true, false, none, some, [], ◌++◌, ◌+ℤ◌, arith,
  Option-cases,
}
use ragkb.Text.{Text, lit, ◌==ᵗ◌, ==ᵗ_refl, ne_false, lower_byte, trim_space, Unicode}
use ragkb.Text.Number.{parse_int}
use ragkb.Fault.{Error}
use ragkb.Action.{ok, err, Result-cases}
use ragkb.Domain.Document.{Document}
use ragkb.Token.{Claims, is_before, numeric_date, parse_access_token}
use ragkb.Token.Laws.{parse_access_token-generate_access_token}
use ragkb.Handler.{Response, ok_response, error, http_status, code_unauthorized}
use ragkb.Handler.Types.{Payload, UserResponse}
use ragkb.Handler.Auth.{to_user_response}
use ragkb.Handler.Context.{Context, reply, current_user_id, context_user_id}
use ragkb.Handler.Context.Laws.{unauthorized-not_ok}
use ragkb.Handler.Documents
use ragkb.Handler.Documents.Laws.{get-ok}
use ragkb.Handler.Auth
use ragkb.Handler.Auth.Laws.{login-Issues}
use ragkb.Server.{
  Options, ServerWorld, Endpoint, is_open, bearer_token, prefix, set_user, endpoint, jwt_auth,
  serve, Served, document_world, auth_world,
}

-- A token that the trimming leaves alone is found behind the prefix.
pub bearer_token-prefix :
    (u : Unicode) (raw : Text)
    → trim_space u raw ≡ raw
    → raw ≢ []
    → bearer_token u (prefix ++ raw) ≡ some raw
unfolding bearer_token ◌==ᵗ◌ lower_byte
bearer_token-prefix u raw trimmed some_raw = ground (arith, ne_false some_raw)

pub current_user_id-set_user : (uid : ℤ) (c : Context) → current_user_id (set_user uid c) ≡ some uid
unfolding current_user_id set_user
current_user_id-set_user uid c = ground (arith, ==ᵗ_refl context_user_id)

module _ {D R O P K F C : Type 0} (o : Options D R O P K F C) where
  -- Why a request does not get through: no token, or one that is not accepted.
  pub data Refused (c : Context) (w : ServerWorld D R O P K F C) : Type 0 where
    missing : bearer_token o.unicode (c.header (lit "Authorization")) ≡ none → Refused c w
    invalid :
        (raw : Text) (e : Error)
        → bearer_token o.unicode (c.header (lit "Authorization")) ≡ some raw
        → parse_access_token o.auth.jwt o.auth.process o.auth.tokens raw w.process ≡ err e
        → Refused c w

  -- Such a request is answered by a 401, and changes nothing.
  pub jwt_auth-Refused :
      (next : Context → Served o) (c : Context) (w : ServerWorld D R O P K F C)
      → Refused c w
      → (r : Response) × (r.status ≡ 401) × (jwt_auth o next c w ≡ (reply r, w))
  unfolding jwt_auth error http_status
  jwt_auth-Refused next c w (missing h) = (
    error code_unauthorized (lit "missing or malformed Authorization header"),
    refl,
    ground arith,
  )
  jwt_auth-Refused next c w (invalid raw x h failed) =
      (error code_unauthorized (lit "invalid or expired token"), refl, ground arith)

  -- With one, it is handled for the user of the token.
  pub serve-accepted :
      (e : Endpoint) (c : Context) (w : ServerWorld D R O P K F C) (raw : Text) (claims : Claims)
      → is_open e ≡ false
      → bearer_token o.unicode (c.header (lit "Authorization")) ≡ some raw
      → parse_access_token o.auth.jwt o.auth.process o.auth.tokens raw w.process ≡ ok claims
      → serve o e c w ≡ endpoint o e (set_user claims.user_id c) w
  unfolding serve jwt_auth
  serve-accepted e c w raw claims closed found read = ground arith

  -- A request that is answered with success had an accepted token.
  pub serve-ok :
      (e : Endpoint) (c : Context) (w w' : ServerWorld D R O P K F C) (r : Response)
      → is_open e ≡ false
      → serve o e c w ≡ (reply r, w')
      → r.status ≡ 200
      → (raw : Text) × (claims : Claims) × (bearer_token o.unicode (c.header (lit "Authorization"))
          ≡ some raw)
        × (parse_access_token o.auth.jwt o.auth.process o.auth.tokens raw w.process ≡ ok claims)
        × (endpoint o e (set_user claims.user_id c) w ≡ (reply r, w'))
  unfolding serve jwt_auth
  serve-ok e c w w' r closed h good =
      elim (Option-cases (bearer_token o.unicode (c.header (lit "Authorization")))) [
        | inl nothing ↦
            absurd (
              ground (arith, unauthorized-not_ok (lit "missing or malformed Authorization header")))
        | inr (raw, found) ↦
            elim (Result-cases
              (parse_access_token o.auth.jwt o.auth.process o.auth.tokens raw w.process)) [
                | inl (claims, read) ↦ (raw, claims, found, read, ground arith)
                | inr (inl (x, failed)) ↦
                    absurd (ground (arith, unauthorized-not_ok (lit "invalid or expired token")))
                | inr (inr (p, failed)) ↦ absurd (ground arith)
              ]
      ]

  -- Whoever asks for a document by GET /documents/:id and is answered with success has sent an access
  -- token that was accepted; the answer is a document of the user of that token, with the number of
  -- the path, and not deleted, and nothing has changed.
  pub serve-get :
      (c : Context) (w w' : ServerWorld D R O P K F C) (r : Response)
      → serve o Endpoint.get c w ≡ (reply r, w')
      → r.status ≡ 200
      → (raw : Text) × (claims : Claims) × (doc : Document) × (bearer_token o.unicode
            (c.header (lit "Authorization"))
          ≡ some raw)
        × (parse_access_token o.auth.jwt o.auth.process o.auth.tokens raw w.process ≡ ok claims)
        × (r ≡ ok_response (Payload.document doc))
        × (doc.owner_id ≡ claims.user_id)
        × (parse_int (c.param (lit "id")) ≡ record { value = doc.id; failed = false })
        × (doc.deleted_at ≡ none)
        × (w' ≡ w)
  unfolding endpoint is_open set_user
  serve-get c w w' r h good =
      let (raw, claims, found, read, h₁) = serve-ok Endpoint.get c w w' r refl h good in
      let c' = set_user claims.user_id c in
      let q = Documents.get o.documents c' (document_world o w) in
      let (doc, is, mine, number, live, same) =
        get-ok o.documents c' (document_world o w) q.1 r (ground arith) good in
      let user = current_user_id-set_user claims.user_id c in
      (raw, claims, doc, found, read, is, ground arith, number, live, ground arith)

  -- The access token of a login opens every route for the user of the login, until it expires, where
  -- the trimming of the header leaves it alone.
  pub serve-login :
      (e : Endpoint) (c c' : Context) (w w' v : ServerWorld D R O P K F C) (access refresh : Text)
      (user : UserResponse)
      → serve o Endpoint.login c w ≡ (
        reply (
            ok_response (
              Payload.token
                (record { access_token = access; refresh_token = refresh; user = some user }))),
        w',
      )
      → is_open e ≡ false
      → c'.header (lit "Authorization") ≡ prefix ++ access
      → trim_space o.unicode access ≡ access
      → access ≢ []
      → is_before
          (o.auth.process.now v.process)
          (numeric_date (o.auth.process.now w.process +ℤ o.auth.tokens.access_expire))
        ≡ true
      → (serve o e c' v ≡ endpoint o e (set_user user.id c') v)
        × (current_user_id (set_user user.id c') ≡ some user.id)
  unfolding serve endpoint is_open to_user_response
  serve-login e c c' w w' v access refresh user h closed header trimmed some_text fresh =
      let sent = ok_response (
        Payload.token
          (record { access_token = access; refresh_token = refresh; user = some user })) in
      let q = Auth.login o.auth o.bind_login c (auth_world o w) in
      let (_, u, pair, _, _, _, issued, is) =
        login-Issues o.auth o.bind_login c (auth_world o w) q.1 sent (ground arith) refl in
      let is_access : access ≡ pair.access_token = ground arith in
      let is_user : user ≡ to_user_response u = ground arith in
      let (claims, read, of_user) =
        parse_access_token-generate_access_token o.auth.jwt o.auth.process o.auth.tokens u.id
          w.process w.process v.process pair.access_token issued.access_made fresh in
      let found : bearer_token o.unicode (c'.header (lit "Authorization")) ≡ some access =
        ap (bearer_token o.unicode) header
        ∙ bearer_token-prefix o.unicode access trimmed some_text in
      let read' =
        subst
          (λ t. parse_access_token o.auth.jwt o.auth.process o.auth.tokens t v.process ≡ ok claims)
          (sym is_access) read in
      let same : claims.user_id ≡ user.id =
        of_user ∙ sym (ap (λ (x : UserResponse). x.id) is_user) in
      (
        serve-accepted e c' v access claims closed found read'
            ∙ ap (λ id. endpoint o e (set_user id c') v) same,
        current_user_id-set_user user.id c',
      )
