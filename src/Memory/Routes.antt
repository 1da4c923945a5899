-- ===== src/Memory/Routes.antt =====
-- A router in memory, which takes the first route that fits, and the requests of a user by their
-- paths.
use mathlib.Core.List.{Memᴰ}
use ragkb.Base.{
  ◌≡◌, ◌≢◌, ◌⊎◌, drop, inl, inr, refl, Option, some, none, List, [], ◌∷◌, All, arith, Option-cases,
}
use ragkb.Text.{Text, lit}
use ragkb.Handler.{Response, error, http_status, code_not_found}
use ragkb.Handler.Context.{reply}
use ragkb.Server.{Endpoint, serve, status}
use ragkb.Server.AccessLog.{RequestLine, Entry, request_logger}
use ragkb.Server.Laws.{Refused}
use ragkb.Server.Routes.{
  Route, all_given, Params, method, matches, Router, set_params, new_engine, redirected, segments,
}
use ragkb.Server.Routes.Laws.{path_of, params_of, new_engine-serve}
use ragkb.Server.Routes.Refusals.{new_engine-Refused}
use ragkb.Memory.Requests.{request}
use ragkb.Memory.Web.{options, opened, get_one}

abbrev or_next : Route → Option Params → Option (Route × Params) → Option (Route × Params)
or_next r (some ps) rest = some (r, ps)
or_next r none rest = rest

unfoldable first_route : List Route → Text → List Text → Option (Route × Params)
first_route [] m path = none
first_route (r ∷ rs) m path = or_next r (matches m path r) (first_route rs m path)

first_route-some :
    (rs : List Route) (m : Text) (path : List Text) (r : Route) (ps : Params)
    → first_route rs m path ≡ some (r, ps)
    → Memᴰ r rs × (matches m path r ≡ some ps)
unfolding first_route
first_route-some [] m path r ps h = absurd (ground arith)
first_route-some (x ∷ xs) m path r ps h = elim (Option-cases (matches m path x)) [
  | inl misses ↦
      let (there, fits) = first_route-some xs m path r ps (ground arith) in (Memᴰ.tail there, fits)
  | inr (qs, hit) ↦
      let same : r ≡ x = ground arith in
      let bound : ps ≡ qs = ground arith in (Memᴰ.head same, ground arith)
]

first_route-none :
    (rs : List Route) (m : Text) (path : List Text)
    → first_route rs m path ≡ none
    → All (λ r. matches m path r ≡ none) rs
unfolding first_route
first_route-none [] m path h = tt
first_route-none (x ∷ xs) m path h = elim (Option-cases (matches m path x)) [
  | inl misses ↦ (misses, first_route-none xs m path (ground arith))
  | inr (qs, hit) ↦ absurd (ground arith)
]

not_found-404 : (t : Text) → (error code_not_found t).status ≡ 404
unfolding error http_status
not_found-404 t = ground arith

abbrev router : Router
router = record {
  find = first_route;
  redirect = λ rs m path. none;
  not_found = λ m path. error code_not_found (lit "404 page not found");
  find_some = first_route-some;
  find_none = first_route-none;
  redirect_status = λ rs m path r h. absurd (ground arith);
  not_found_status = λ m path. not_found-404 (lit "404 page not found");
}

-- The first line of a request
abbrev line_of : Text → Text → RequestLine
line_of method path = record {
  method = method;
  path = path;
  query = [];
  client_ip = lit "10.0.0.1";
}

new_engine-serve_example :
    new_engine options router
      (λ w. 7)
      all_given
      (line_of (lit "GET") (lit "/api/v1/documents/1"))
      get_one
    ≡ request_logger
        (λ w. 7)
        (line_of (lit "GET") (lit "/api/v1/documents/1"))
        (serve options Endpoint.get
          (set_params (params_of Endpoint.get (lit "1") (lit "0")) get_one))
unfolding segments method path_of
new_engine-serve_example =
    new_engine-serve options router Endpoint.get (lit "1") (lit "0") (λ w. 7)
      (line_of (lit "GET") (lit "/api/v1/documents/1")) get_one (λ e. ground arith)
      (λ e. ground arith) refl refl

-- A deletion without a token
new_engine-Refused_example :
    let line = line_of (lit "DELETE") (lit "/api/v1/documents/1") in
    (r : Response) × (log : List Entry) × (r.status ≢ 200)
    × (new_engine options router (λ w. 7) all_given line (request []) (opened, [])
        ≡ (reply r, (opened, log)))
    × (((redirected options router all_given line.method (drop 1 (segments line.path)) ≡ some r)
          × (log ≡ []))
        ⊎ ((e : Entry) × (log ≡ e ∷ [])
            × (e.status ≡ r.status)
            × (e.path ≡ lit "/api/v1/documents/1")))
unfolding opened segments
new_engine-Refused_example =
    new_engine-Refused options router (λ w. 7) all_given
      (line_of (lit "DELETE") (lit "/api/v1/documents/1")) (request []) opened []
      (Refused.missing refl) (λ e. ground arith)
