-- ===== src/Server/Routes/Refusals.antt =====
-- That nobody gets past the middleware of internal/server on another path.
use mathlib.Core.List.{Memᴰ}
use mathlib.Core.List.Memᴰ
use ragkb.Base.{
  ℕ, ◌≡◌, ◌≢◌, ◌⊎◌, inl, inr, refl, sym, ap, ◌∙◌, subst, Bool, true, false, some, List, [], ◌∷◌,
  ◌++◌, All, take, drop, ◌-◌, arith, Option-cases, Bool-cases, if◌then◌else◌,
}
use ragkb.Text.{Text, lit, ◌==ᵗ◌, ==ᵗ_sound}
use ragkb.Handler.Context.{Context, reply}
use ragkb.Handler.{Response}
use ragkb.Server.{Options, ServerWorld, Endpoint, endpoint}
use ragkb.Server.Laws.{Refused, jwt_auth-Refused}
use ragkb.Server.AccessLog.{RequestLine, Entry, request_logger}
use ragkb.Server.Routes.{
  Segment, fixed, Route, Given, api, api_auth, group, auth_endpoints, user_endpoints,
  document_endpoints, register_routes, Params, pattern, bind_path, matches, Router, set_params,
  dispatch, new_engine, redirected, unless_redirected, segments,
}

-- The paths of the group /auth begin so.
abbrev pub auth_path : List Text
auth_path = lit "api" ∷ lit "v1" ∷ lit "auth" ∷ []

-- A route is behind the middleware, or in the group /auth.
Guarded : Route → Type 0
Guarded r = (r.authed ≡ true) ⊎ ((rest : List Segment) × (r.path ≡ api_auth ++ rest))

module _ (P : Route → Type 0) where
  All-append : (xs ys : List Route) → All P xs → All P ys → All P (xs ++ ys)
  All-append [] ys h k = k
  All-append (x ∷ xs) ys h k = (h.0, All-append xs ys h.1 k)

  All-if : (b : Bool) (xs : List Route) → All P xs → All P (if b then xs else [])
  All-if true xs h = h
  All-if false xs h = tt

  All-Memᴰ : (r : Route) (xs : List Route) → All P xs → Memᴰ r xs → P r
  All-Memᴰ r [] h there = absurd (Memᴰ.not-nil there)
  All-Memᴰ r (x ∷ xs) h (Memᴰ.head e) = subst P (sym e) h.0
  All-Memᴰ r (x ∷ xs) h (Memᴰ.tail there) = All-Memᴰ r xs h.1 there

group-Guarded : (es : List Endpoint) → All Guarded (group api true es)
unfolding Guarded
group-Guarded [] = tt
group-Guarded (e ∷ es) = (inl refl, group-Guarded es)

group-Guarded_auth : (es : List Endpoint) → All Guarded (group api_auth false es)
unfolding Guarded
group-Guarded_auth [] = tt
group-Guarded_auth (e ∷ es) = (inr (pattern e, refl), group-Guarded_auth es)

register_routes-Guarded : (opts : Given) → All Guarded (register_routes opts)
unfolding register_routes
register_routes-Guarded opts =
    All-append Guarded _ _ (All-if Guarded opts.auth _ (group-Guarded_auth auth_endpoints)) (
      All-if Guarded opts.tokens _ (
        All-append Guarded _ _ (All-if Guarded opts.user _ (group-Guarded user_endpoints))
          (All-if Guarded opts.document _ (group-Guarded document_endpoints))))

bind_path-fixed :
    (s : Text) (xs : List Segment) (path : List Text) (ps : Params)
    → bind_path (fixed s ∷ xs) path ≡ some ps
    → (rest : List Text) × (path ≡ s ∷ rest) × (bind_path xs rest ≡ some ps)
unfolding bind_path
bind_path-fixed s xs [] ps h = absurd (ground arith)
bind_path-fixed s xs (t ∷ ts) ps h = elim (Bool-cases (s ==ᵗ t)) [
  | inl same ↦ (ts, ap (λ u. u ∷ ts) (sym (==ᵗ_sound s t same)), ground arith)
  | inr differ ↦ absurd (ground arith)
]

bind_path-auth :
    (rest : List Segment) (path : List Text) (ps : Params)
    → bind_path (api_auth ++ rest) path ≡ some ps
    → take 3 path ≡ auth_path
bind_path-auth rest path ps h =
    let (p₁, e₁, h₁) = bind_path-fixed (lit "api") _ path ps h in
    let (p₂, e₂, h₂) = bind_path-fixed (lit "v1") _ p₁ ps h₁ in
    let (p₃, e₃, h₃) = bind_path-fixed (lit "auth") rest p₂ ps h₂ in
    ap (take 3) e₁
    ∙ ap (λ p. lit "api" ∷ take 2 p) e₂
    ∙ ap (λ p. lit "api" ∷ lit "v1" ∷ take 1 p) e₃

matches-bind_path :
    (m : Text) (path : List Text) (r : Route) (ps : Params)
    → matches m path r ≡ some ps
    → bind_path r.path path ≡ some ps
unfolding matches
matches-bind_path m path r ps h = elim (Bool-cases (r.method ==ᵗ m)) [
  | inl same ↦ ground arith
  | inr differ ↦ absurd (ground arith)
]

module _ {D R O P K F C : Type 0} (o : Options D R O P K F C) (g : Router) where
  set_params-Refused :
      (ps : Params) (c : Context) (w : ServerWorld D R O P K F C)
      → Refused o c w
      → Refused o (set_params ps c) w
  unfolding set_params
  set_params-Refused ps c w (Refused.missing h) = Refused.missing h
  set_params-Refused ps c w (Refused.invalid raw e h failed) = Refused.invalid raw e h failed

  not_found-not_ok : (m : Text) (path : List Text) → (g.not_found m path).status ≢ 200
  not_found-not_ok m path good = omega (arith, g.not_found_status m path)

  redirected-not_ok :
      (opts : Given) (m : Text) (path : List Text) (r : Response)
      → redirected o g opts m path ≡ some r
      → r.status ≢ 200
  redirected-not_ok opts m path r h = elim (Option-cases (g.find (register_routes opts) m path)) [
    | inl nothing ↦ g.redirect_status (register_routes opts) m path r (ground arith)
    | inr (x, found) ↦ absurd (ground arith)
  ]

  -- Where the path is not below /auth, a request without an access token that is accepted is answered
  -- by the middleware or by gin.
  dispatch-Refused :
      (opts : Given) (m : Text) (path : List Text) (c : Context) (w : ServerWorld D R O P K F C)
      → Refused o c w
      → take 3 path ≢ auth_path
      → (r : Response) × (r.status ≢ 200) × (dispatch o g opts m path c w ≡ (reply r, w))
  unfolding dispatch Guarded
  dispatch-Refused opts m path c w refused elsewhere =
      elim (Option-cases (g.find (register_routes opts) m path)) [
        | inl nothing ↦ (g.not_found m path, not_found-not_ok m path, ground arith)
        | inr ((r, ps), found) ↦
            let (there, fits) = g.find_some (register_routes opts) m path r ps found in
            elim (All-Memᴰ Guarded r (register_routes opts) (register_routes-Guarded opts) there) [
              | inl authed ↦
                  let (sent, is_401, same) =
                    jwt_auth-Refused o (endpoint o r.endpoint) (set_params ps c) w
                      (set_params-Refused ps c w refused) in
                  (sent, λ good. ground arith, ground arith)
              | inr (rest, is) ↦
                  let bound = matches-bind_path m path r ps fits in
                  absurd (
                    elsewhere
                      (bind_path-auth rest path ps (ap (λ p. bind_path p path) (sym is) ∙ bound)))
            ]
      ]

  -- Without an access token that is accepted, a request of any method and path changes nothing, and is
  -- not answered by a 200, unless the path is below /api/v1/auth; whichever handlers are given. It has
  -- one new entry in the access log, with its path and status, or it is redirected and has none.
  pub new_engine-Refused :
      (now : ServerWorld D R O P K F C → ℕ) (opts : Given) (line : RequestLine) (c : Context)
      (w : ServerWorld D R O P K F C) (log : List Entry)
      → Refused o c w
      → take 3 (drop 1 (segments line.path)) ≢ auth_path
      → (r : Response) × (log' : List Entry) × (r.status ≢ 200)
        × (new_engine o g now opts line c (w, log) ≡ (reply r, (w, log')))
        × (((redirected o g opts line.method (drop 1 (segments line.path)) ≡ some r) × (log' ≡ log))
            ⊎ ((e : Entry) × (log' ≡ e ∷ log) × (e.status ≡ r.status) × (e.path ≡ line.path)))
  unfolding new_engine request_logger
  new_engine-Refused now opts line c w log refused elsewhere =
      let path = drop 1 (segments line.path) in
      let served = request_logger now line (dispatch o g opts line.method path c) in
      elim (Option-cases (redirected o g opts line.method path)) [
        | inr (r, away) ↦ (
          r,
          log,
          redirected-not_ok opts line.method path r away,
          ap (λ q. unless_redirected q served (w, log)) away,
          inl (away, refl),
        )
        | inl stays ↦
            let (r, bad, is) = dispatch-Refused opts line.method path c w refused elsewhere in
            let entry : Entry = record {
              status = r.status;
              method = line.method;
              path = line.path;
              query = line.query;
              ip = line.client_ip;
              latency = now w - now w;
            } in
            (
              r,
              entry ∷ log,
              bad,
              ap (λ q. unless_redirected q served (w, log)) stays ∙ rw is refl,
              inr (entry, refl, refl, refl),
            )
      ]
