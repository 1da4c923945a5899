-- ===== src/Server/Routes.antt =====
-- `registerRoutes` and `New` of internal/server/router.go. A path is the list of the texts between
-- its slashes, and gin's router, which finds a route for it, is a parameter.
pub mod Matching
pub mod Laws
pub mod Refusals
use mathlib.Core.List.{Memᴰ}
use ragkb.Base.{
  ℕ, ◌≡◌, ◌≢◌, Bool, true, false, Option, none, some, List, [], ◌∷◌, ◌++◌, map, All, drop, ◌==◌,
  if◌then◌else◌,
}
use ragkb.Text.{Text, lit, ◌==ᵗ◌}
use ragkb.Handler.{Response}
use ragkb.Handler.Context.{Context, Handler, answer}
use ragkb.Server.{Options, ServerWorld, Endpoint, Served, endpoint, jwt_auth}
use ragkb.Server.AccessLog.{RequestLine, Entry, request_logger}

-- A part of a path that is given, or a parameter with its name.
pub data Segment : Type 0 where
  fixed param : Text → Segment

pub record Route : Type 0 where
  pub method : Text
  pub path : List Segment
  pub endpoint : Endpoint
  -- Whether it is behind the middleware for tokens
  pub authed : Bool

unfoldable pub method : Endpoint → Text
method Endpoint.register = lit "POST"
method Endpoint.login = lit "POST"
method Endpoint.refresh = lit "POST"
method Endpoint.logout = lit "POST"
method Endpoint.me = lit "GET"
method Endpoint.update_me = lit "PATCH"
method Endpoint.my_tenants = lit "GET"
method Endpoint.initiate = lit "POST"
method Endpoint.upload = lit "PUT"
method Endpoint.complete = lit "POST"
method Endpoint.list = lit "GET"
method Endpoint.get = lit "GET"
method Endpoint.delete = lit "DELETE"

-- The path of a handler in its group.
unfoldable pub pattern : Endpoint → List Segment
pattern Endpoint.register = fixed (lit "register") ∷ []
pattern Endpoint.login = fixed (lit "login") ∷ []
pattern Endpoint.refresh = fixed (lit "refresh") ∷ []
pattern Endpoint.logout = fixed (lit "logout") ∷ []
pattern Endpoint.me = fixed (lit "users") ∷ fixed (lit "me") ∷ []
pattern Endpoint.update_me = fixed (lit "users") ∷ fixed (lit "me") ∷ []
pattern Endpoint.my_tenants = fixed (lit "tenants") ∷ []
pattern Endpoint.initiate = fixed (lit "documents") ∷ []
pattern Endpoint.upload =
    fixed (lit "documents") ∷ param (lit "id") ∷ fixed (lit "parts") ∷ param (lit "partNumber") ∷ []
pattern Endpoint.complete = fixed (lit "documents") ∷ param (lit "id") ∷ fixed (lit "complete") ∷ []
pattern Endpoint.list = fixed (lit "documents") ∷ []
pattern Endpoint.get = fixed (lit "documents") ∷ param (lit "id") ∷ []
pattern Endpoint.delete = fixed (lit "documents") ∷ param (lit "id") ∷ []

abbrev pub api : List Segment
api = fixed (lit "api") ∷ fixed (lit "v1") ∷ []

abbrev pub api_auth : List Segment
api_auth = api ++ fixed (lit "auth") ∷ []

-- The routes of a group for its handlers, behind the middleware or not.
abbrev pub group : List Segment → Bool → List Endpoint → List Route
group base authed =
    map (λ e. record { method = method e; path = base ++ pattern e; endpoint = e; authed = authed })

-- The handlers that each group registers, in their order.
abbrev pub auth_endpoints : List Endpoint
auth_endpoints = Endpoint.register ∷ Endpoint.login ∷ Endpoint.refresh ∷ Endpoint.logout ∷ []

abbrev pub user_endpoints : List Endpoint
user_endpoints = Endpoint.me ∷ Endpoint.update_me ∷ Endpoint.my_tenants ∷ []

abbrev pub document_endpoints : List Endpoint
document_endpoints =
    Endpoint.initiate ∷ Endpoint.upload ∷ Endpoint.complete ∷ Endpoint.list ∷ Endpoint.get
    ∷ Endpoint.delete ∷ []

-- Which of the options are not nil.
pub record Given : Type 0 where
  pub auth : Bool
  pub tokens : Bool
  pub user : Bool
  pub document : Bool

unfoldable pub register_routes : Given → List Route
unfolding method pattern
register_routes opts =
    (if opts.auth then group api_auth false auth_endpoints else [])
    ++ (if opts.tokens
        then (if opts.user then group api true user_endpoints else [])
          ++ (if opts.document then group api true document_endpoints else [])
        else [])

-- What `NewAPI` gives.
abbrev pub all_given : Given
all_given = record { auth = true; tokens = true; user = true; document = true }

abbrev pub Params : Type 0
Params = List (Text × Text)

abbrev bound : Text → Text → Option Params → Option Params
bound name value none = none
bound name value (some ps) = some ((name, value) ∷ ps)

-- The parameters of a path that has the form: one is not empty.
unfoldable pub bind_path : List Segment → List Text → Option Params
bind_path [] [] = some []
bind_path [] (t ∷ ts) = none
bind_path (x ∷ xs) [] = none
bind_path (fixed s ∷ xs) (t ∷ ts) = let rest = bind_path xs ts in if s ==ᵗ t then rest else none
bind_path (param name ∷ xs) ([] ∷ ts) = none
bind_path (param name ∷ xs) ((c ∷ cs) ∷ ts) = bound name (c ∷ cs) (bind_path xs ts)

unfoldable pub matches : Text → List Text → Route → Option Params
unfolding bind_path
matches m path r = let found = bind_path r.path path in if r.method ==ᵗ m then found else none

abbrev push : ℕ → List Text → List Text
push c [] = (c ∷ []) ∷ []
push c (t ∷ ts) = (c ∷ t) ∷ ts

-- The texts between the slashes
unfoldable pub segments : Text → List Text
segments [] = [] ∷ []
segments (c ∷ cs) = let rest = segments cs in if c == 47 then [] ∷ rest else push c rest

-- gin's router: it finds a route of the method whose path has the form. Where there is none, the
-- answer is gin's own: a redirection to a path with or without a last slash, which no middleware
-- sees, or a 404.
pub record Router : Type 0 where
  pub find : List Route → Text → List Text → Option (Route × Params)
  pub redirect : List Route → Text → List Text → Option Response
  pub not_found : Text → List Text → Response
  pub find_some :
      (rs : List Route) (m : Text) (path : List Text) (r : Route) (ps : Params)
      → find rs m path ≡ some (r, ps)
      → Memᴰ r rs × (matches m path r ≡ some ps)
  pub find_none :
      (rs : List Route) (m : Text) (path : List Text)
      → find rs m path ≡ none
      → All (λ r. matches m path r ≡ none) rs
  pub redirect_status :
      (rs : List Route) (m : Text) (path : List Text) (r : Response)
      → redirect rs m path ≡ some r
      → r.status ≢ 200
  pub not_found_status : (m : Text) (path : List Text) → (not_found m path).status ≡ 404

-- `c.Param`
abbrev pub value_of : Params → Text → Text
value_of [] key = []
value_of ((name, value) ∷ ps) key = if name ==ᵗ key then value else value_of ps key

unfoldable pub set_params : Params → Context → Context
set_params ps c = record c { param = value_of ps }

abbrev pub unless_redirected : {W : Type 0} → Option Response → Handler W → Handler W
unless_redirected (some r) h = answer r
unless_redirected none h = h

module _ {D R O P K F C : Type 0} (o : Options D R O P K F C) (g : Router) where
  abbrev pub guarded : Bool → Endpoint → Context → Served o
  guarded true e c = jwt_auth o (endpoint o e) c
  guarded false e c = endpoint o e c

  abbrev pub route_to : Response → Option (Route × Params) → Context → Served o
  route_to other (some (r, ps)) c = guarded r.authed r.endpoint (set_params ps c)
  route_to other none c = answer other

  -- A request of that method, and a path with these texts between its slashes, behind the access log.
  unfoldable pub dispatch : Given → Text → List Text → Context → Served o
  unfolding register_routes set_params
  dispatch opts m path c = route_to (g.not_found m path) (g.find (register_routes opts) m path) c

  abbrev pub redirected : Given → Text → List Text → Option Response
  redirected opts m path = elim (g.find (register_routes opts) m path) [
    | some found ↦ none
    | none ↦ g.redirect (register_routes opts) m path
  ]

  -- The engine of `New`, for a path that begins with a slash: the access log is kept behind the
  -- recovery handler and before the routes.
  unfoldable pub new_engine :
      (ServerWorld D R O P K F C → ℕ)
      → Given
      → RequestLine
      → Context
      → Handler (ServerWorld D R O P K F C × List Entry)
  unfolding segments dispatch
  new_engine now opts line c =
      let path = drop 1 (segments line.path) in
      unless_redirected (redirected opts line.method path)
        (request_logger now line (dispatch opts line.method path c))
