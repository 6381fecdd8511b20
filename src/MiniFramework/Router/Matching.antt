-- ===== src/MiniFramework/Router/Matching.antt =====
-- Which routes of mini_router.py match a request, and the parameters that they bind.
use mathlib.Core.Option.{some-injective}
use assets_system.Prelude.Dict
use assets_system.Prelude.Dict.{Dict}
use assets_system.Prelude.{
  ◌≡◌, ◌≢◌, refl, sym, ap, ◌∙◌, if_pos, if_neg, inl, inr, true, Option, none, some, List, [], ◌∷◌,
  ◌++◌, ◌==◌, if◌then◌else◌, length, All, arith, Bool-cases,
}
use assets_system.MiniFramework.Router.{
  Str, Str_discrete, split, is_param, inner, upper, Handler, Router, match_segments, match_route,
  match_routes, wrap, dispatch,
}
use assets_system.EngineeringPatterns.MiddlewareChain.{nest, build_middleware_chain-nest}

-- The segments of a route where the parameters have their values.
abbrev pub fill : List Str → Dict Str Str → List (Option Str)
fill [] params = []
fill (r ∷ rs) params =
    (if is_param r then Dict.get Str_discrete (inner r) params else some r) ∷ fill rs params

abbrev pub somes : List Str → List (Option Str)
somes [] = []
somes (p ∷ ps) = some p ∷ somes ps

-- The name is no parameter of the segments.
abbrev IsFree : Str → List Str → Type 0
IsFree name [] = Unit
IsFree name (r ∷ rs) = (is_param r ≡ true → inner r ≢ name) × IsFree name rs

-- No parameter stands twice.
abbrev pub IsLinear : List Str → Type 0
IsLinear [] = Unit
IsLinear (r ∷ rs) = (is_param r ≡ true → IsFree (inner r) rs) × IsLinear rs

match_segments-IsFree :
    (name : Str) (rs ps : List Str) (params out : Dict Str Str)
    → IsFree name rs
    → match_segments rs ps params ≡ some out
    → Dict.get Str_discrete name out ≡ Dict.get Str_discrete name params
unfolding match_segments
match_segments-IsFree name [] ps params out h e =
    ap (Dict.get Str_discrete name) (sym (some-injective _ _ e))
match_segments-IsFree name (r ∷ rs) [] params out h e =
    ap (Dict.get Str_discrete name) (sym (some-injective _ _ e))
match_segments-IsFree name (r ∷ rs) (p ∷ ps) params out h e = elim (Bool-cases (is_param r)) [
  | inl q ↦
      match_segments-IsFree name rs ps (Dict.set Str_discrete (inner r) p params) out h.1
        (sym (rw (q, match_segments) refl) ∙ e)
      ∙ Dict.get-set_ne Str_discrete (inner r) name p params (h.0 q)
  | inr q ↦ elim (Str_discrete r p) [
    | yes s ↦
        match_segments-IsFree name rs ps params out h.1
          (sym (rw (q, if_pos _ s, match_segments) refl) ∙ e)
    | no s ↦ let bad : none ≡ some out = sym (rw (q, if_neg _ s, match_segments) refl) ∙ e in cc
  ]
]

match_segments-fill :
    (rs ps : List Str) (params out : Dict Str Str)
    → IsLinear rs
    → length rs ≡ length ps
    → match_segments rs ps params ≡ some out
    → fill rs out ≡ somes ps
unfolding match_segments
match_segments-fill [] [] params out h l e = refl
match_segments-fill [] (p ∷ ps) params out h l e = cc
match_segments-fill (r ∷ rs) [] params out h l e = cc
match_segments-fill (r ∷ rs) (p ∷ ps) params out h l e = elim (Bool-cases (is_param r)) [
  | inl q ↦
      let e' : match_segments rs ps (Dict.set Str_discrete (inner r) p params) ≡ some out =
        sym (rw (q, match_segments) refl) ∙ e in
      let bound =
        match_segments-IsFree (inner r) rs ps (Dict.set Str_discrete (inner r) p params) out (h.0 q)
          e'
        ∙ Dict.get-set_self Str_discrete (inner r) p params in
      rw
        (
          q,
          bound,
          match_segments-fill rs ps (Dict.set Str_discrete (inner r) p params) out h.1
              (omega (arith, l)) e',
        )
        refl
  | inr q ↦ elim (Str_discrete r p) [
    | yes s ↦
        let e' : match_segments rs ps params ≡ some out =
          sym (rw (q, if_pos _ s, match_segments) refl) ∙ e in
        rw (q, s, match_segments-fill rs ps params out h.1 (omega (arith, l)) e') refl
    | no s ↦ let bad : none ≡ some out = sym (rw (q, if_neg _ s, match_segments) refl) ∙ e in cc
  ]
]

-- A route that matches a request has its method, and where no parameter stands twice, its segments
-- with the bound parameters in place of their names are the segments of the request.
pub match_route-fill :
    (method route_method route_path : Str) (segments : List Str) (params : Dict Str Str)
    → IsLinear (split route_path)
    → match_route method segments (route_method, route_path) ≡ some params
    → (route_method ≡ method) × (fill (split route_path) params ≡ somes segments)
unfolding match_route
match_route-fill method route_method route_path segments params h e =
    elim (Str_discrete route_method method) [
      | no p ↦ let bad : none ≡ some params = sym (rw (if_neg _ p, match_route) refl) ∙ e in cc
      | yes p ↦
          let e' : (if length (split route_path) == length segments
                then match_segments (split route_path) segments []
                else none)
              ≡ some params =
            sym (rw (if_pos _ p, match_route) refl) ∙ e in
          elim (Bool-cases (length (split route_path) == length segments)) [
            | inr l ↦ let bad : none ≡ some params = sym (rw l refl) ∙ e' in cc
            | inl l ↦ (
              p,
              match_segments-fill (split route_path) segments [] params h (ground (arith, l))
                  (sym (rw l refl) ∙ e'),
            )
          ]
    ]

match_routes-first :
    (method : Str) (segments : List Str) (pre post : Dict (Str × Str) (Handler × List Str))
    (key : Str × Str) (handler : Handler) (names : List Str) (params : Dict Str Str)
    → All (λ route. match_route method segments route.0 ≡ none) pre
    → match_route method segments key ≡ some params
    → match_routes method segments (pre ++ (key, (handler, names)) ∷ post) ≡ some (handler, params)
unfolding match_routes
match_routes-first method segments [] post key handler names params h e = rw (e, match_routes) refl
match_routes-first method segments ((k, (f, ns)) ∷ pre) post key handler names params h e =
    rw (h.0, match_routes)
      (match_routes-first method segments pre post key handler names params h.1 e)

-- A request is answered by the first route that matches it, inside all middlewares, the first of
-- which is the outermost.
pub dispatch-first :
    (method path : Str) (r : Router) (pre post : Dict (Str × Str) (Handler × List Str))
    (key : Str × Str) (handler : Handler) (names : List Str) (params : Dict Str Str)
    → r.routes ≡ pre ++ (key, (handler, names)) ∷ post
    → All (λ route. match_route (upper method) (split path) route.0 ≡ none) pre
    → match_route (upper method) (split path) key ≡ some params
    → dispatch method path r
      ≡ nest handler r.middlewares
          (record { request_method = method; path_info = path; params = some params })
unfolding dispatch wrap
dispatch-first method path r pre post key handler names params routes h e =
    let found =
      ap (match_routes (upper method) (split path)) routes
      ∙ match_routes-first (upper method) (split path) pre post key handler names params h e in
    rw (found, dispatch)
      (ap (λ f. f (record { request_method = method; path_info = path; params = some params }))
        (build_middleware_chain-nest handler r.middlewares))

match_routes-other :
    (method : Str) (segments : List Str) (routes : Dict (Str × Str) (Handler × List Str))
    → All (λ route. route.0.0 ≢ method) routes
    → match_routes method segments routes ≡ none
unfolding match_routes match_route
match_routes-other method segments [] h = refl
match_routes-other method segments ((key, (handler, names)) ∷ routes) h =
    let other =
      if_neg (Str_discrete key.0 method) h.0
        (if length (split key.1) == length segments
          then match_segments (split key.1) segments []
          else none)
        none in
    rw (other, match_routes) (match_routes-other method segments routes h.1)

-- A request with a method that no route has is answered as not found, also where its path is known.
dispatch_other_method :
    (method path : Str) (r : Router)
    → All (λ route. route.0.0 ≢ upper method) r.routes
    → dispatch method path r
      ≡ r.not_found (record { request_method = method; path_info = path; params = none })
unfolding dispatch
dispatch_other_method method path r h =
    rw (match_routes-other (upper method) (split path) r.routes h, dispatch) refl
