-- ===== src/Server/Routes/Laws.antt =====
-- Which requests internal/server/router.go leads to which handler.
use ragkb.Base.{
  ℕ, drop, ◌≡◌, ◌≢◌, inl, inr, refl, ap, ◌∙◌, none, true, false, some, List, [], ◌∷◌, ◌++◌,
  Bool-cases, if◌then◌else◌,
}
use ragkb.Text.{Text, lit, ◌==ᵗ◌}
use ragkb.Handler.Context.{Context}
use ragkb.Server.{Options, ServerWorld, Endpoint, is_open, serve}
use ragkb.Server.AccessLog.{RequestLine, request_logger}
use ragkb.Server.Routes.{
  Route, all_given, api, api_auth, register_routes, Params, method, pattern, matches, Router,
  set_params, dispatch, new_engine, guarded, segments, redirected, unless_redirected,
}
use ragkb.Server.Routes.Matching.{is_some, hits, find-only}

-- The paths of the handlers, with the texts for the numbers of a document and of a part.
abbrev below : List Text → List Text
below rest = lit "api" ∷ lit "v1" ∷ rest

unfoldable pub path_of : Endpoint → Text → Text → List Text
path_of Endpoint.register id part = below (lit "auth" ∷ lit "register" ∷ [])
path_of Endpoint.login id part = below (lit "auth" ∷ lit "login" ∷ [])
path_of Endpoint.refresh id part = below (lit "auth" ∷ lit "refresh" ∷ [])
path_of Endpoint.logout id part = below (lit "auth" ∷ lit "logout" ∷ [])
path_of Endpoint.me id part = below (lit "users" ∷ lit "me" ∷ [])
path_of Endpoint.update_me id part = below (lit "users" ∷ lit "me" ∷ [])
path_of Endpoint.my_tenants id part = below (lit "tenants" ∷ [])
path_of Endpoint.initiate id part = below (lit "documents" ∷ [])
path_of Endpoint.upload id part = below (lit "documents" ∷ id ∷ lit "parts" ∷ part ∷ [])
path_of Endpoint.complete id part = below (lit "documents" ∷ id ∷ lit "complete" ∷ [])
path_of Endpoint.list id part = below (lit "documents" ∷ [])
path_of Endpoint.get id part = below (lit "documents" ∷ id ∷ [])
path_of Endpoint.delete id part = below (lit "documents" ∷ id ∷ [])

-- What a handler is to find in the path.
unfoldable pub params_of : Endpoint → Text → Text → Params
params_of Endpoint.upload id part = (lit "id", id) ∷ (lit "partNumber", part) ∷ []
params_of Endpoint.complete id part = (lit "id", id) ∷ []
params_of Endpoint.get id part = (lit "id", id) ∷ []
params_of Endpoint.delete id part = (lit "id", id) ∷ []
params_of _ id part = []

-- The route of a handler.
abbrev route : Endpoint → Route
route e = record {
  method = method e;
  path = (if is_open e then api_auth else api) ++ pattern e;
  endpoint = e;
  authed = if is_open e then false else true;
}

Fits : Endpoint → Text → Text → Type 0
Fits e id part =
    (hits (method e) (path_of e id part) (register_routes all_given) ≡ route e ∷ [])
    × (matches (method e) (path_of e id part) (route e) ≡ some (params_of e id part))

-- Two routes that share a method differ in the length or in a given part of their paths.
module _ (x y : ℕ) (xs ys : Text) where
  route-Fits : (e : Endpoint) → Fits e (x ∷ xs) (y ∷ ys)
  unfolding Fits path_of params_of register_routes matches method pattern ◌==ᵗ◌ is_open is_some
  route-Fits Endpoint.register = (refl, refl)
  route-Fits Endpoint.login = (refl, refl)
  route-Fits Endpoint.refresh = (refl, refl)
  route-Fits Endpoint.logout = (refl, refl)
  route-Fits Endpoint.me = (refl, refl)
  route-Fits Endpoint.update_me = (refl, refl)
  route-Fits Endpoint.my_tenants = (refl, refl)
  route-Fits Endpoint.initiate = (refl, refl)
  route-Fits Endpoint.upload = (refl, refl)
  route-Fits Endpoint.complete = (refl, refl)
  route-Fits Endpoint.list = (refl, refl)
  route-Fits Endpoint.get = (refl, refl)
  route-Fits Endpoint.delete = (refl, refl)

module _ {D R O P K F C : Type 0} (o : Options D R O P K F C) (g : Router) where
  found_route :
      (e : Endpoint) (id part : Text)
      → id ≢ []
      → part ≢ []
      → g.find (register_routes all_given) (method e) (path_of e id part)
        ≡ some (route e, params_of e id part)
  unfolding Fits
  found_route e [] part some_id some_part = absurd (some_id refl)
  found_route e (x ∷ xs) [] some_id some_part = absurd (some_part refl)
  found_route e (x ∷ xs) (y ∷ ys) some_id some_part =
      let (one, fits) = route-Fits x y xs ys e in
      find-only (method e) (path_of e (x ∷ xs) (y ∷ ys)) g (register_routes all_given) (route e)
        (params_of e (x ∷ xs) (y ∷ ys)) one fits

  guarded-serve : (e : Endpoint) (c : Context) → guarded o g (route e).authed e c ≡ serve o e c
  unfolding serve
  guarded-serve e c = elim (Bool-cases (is_open e)) [
    | inl free ↦ rw free refl
    | inr closed ↦ rw closed refl
  ]

  dispatch-serve :
      (e : Endpoint) (id part m : Text) (path : List Text) (c : Context)
      → id ≢ []
      → part ≢ []
      → m ≡ method e
      → path ≡ path_of e id part
      → (redirected o g all_given m path ≡ none)
        × (dispatch o g all_given m path c ≡ serve o e (set_params (params_of e id part) c))
  unfolding dispatch
  dispatch-serve e id part m path c some_id some_part of_method of_path =
      let found = found_route e id part some_id some_part in
      let there : g.find (register_routes all_given) m path ≡ some (route e, params_of e id part) =
        ap (λ t. g.find (register_routes all_given) t path) of_method
        ∙ ap (g.find (register_routes all_given) (method e)) of_path
        ∙ found in
      (rw (there, redirected) refl, rw there (guarded-serve e (set_params (params_of e id part) c)))

  -- A request to the path of a handler, with its method, is served by that handler, behind the access
  -- log, and behind the middleware for tokens unless it is one of /auth. The handler finds the numbers
  -- of the path, where they are not empty.
  pub new_engine-serve :
      (e : Endpoint) (id part : Text) (now : ServerWorld D R O P K F C → ℕ) (line : RequestLine)
      (c : Context)
      → id ≢ []
      → part ≢ []
      → line.method ≡ method e
      → drop 1 (segments line.path) ≡ path_of e id part
      → new_engine o g now all_given line c
        ≡ request_logger now line (serve o e (set_params (params_of e id part) c))
  unfolding new_engine
  new_engine-serve e id part now line c some_id some_part of_method of_path =
      let path = drop 1 (segments line.path) in
      let (stays, served) =
        dispatch-serve e id part line.method path c some_id some_part of_method of_path in
      ap
        (λ r.
          unless_redirected r (request_logger now line (dispatch o g all_given line.method path c)))
        stays
      ∙ ap (request_logger now line) served
