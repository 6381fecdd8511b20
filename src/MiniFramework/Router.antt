-- ===== src/MiniFramework/Router.antt =====
-- mini_router.py: routes, dispatch and middlewares. A string is the list of its code points. The
-- environment is what the router itself puts there, and a response has one header.
use mathlib.Core.HLevel.{×_discrete}
use assets_system.Prelude.Dict
use assets_system.Prelude.Dict.{Dict}
use assets_system.Prelude.{
  ℕ, ◌+◌, ◌-◌, refl, ite, Bool, true, false, ◌&&◌, not, Option, none, some, List, [], ◌∷◌, ◌++◌,
  map, leb, if◌then◌else◌, ◌==◌, length, ℕ_discrete,
}
use assets_system.EngineeringPatterns.MiddlewareChain.{build_middleware_chain}
pub mod Matching
mod Tests

abbrev pub Str : Type 0
Str = List ℕ

unfoldable pub Str_discrete : Discrete Str
unfolding ℕ_discrete
Str_discrete [] [] = yes refl
Str_discrete [] (d ∷ t) = no (λ e. cc)
Str_discrete (c ∷ s) [] = no (λ e. cc)
Str_discrete (c ∷ s) (d ∷ t) =
    let rest = Str_discrete s t in
    elim (ℕ_discrete c d) [
      | no p ↦ no (λ e. p cc)
      | yes p ↦ elim rest [ no q ↦ no (λ e. q cc) | yes q ↦ yes cc ]
    ]

-- `str.split` at one character
unfoldable pub push : ℕ → List Str → List Str
push c [] = (c ∷ []) ∷ []
push c (s ∷ rest) = (c ∷ s) ∷ rest

unfoldable pub split_on : ℕ → Str → List Str
unfolding push
split_on sep [] = [] ∷ []
split_on sep (c ∷ s) = let rest = split_on sep s in if c == sep then [] ∷ rest else push c rest

-- the segments that are not empty
unfoldable pub nonempty : List Str → List Str
nonempty [] = []
nonempty ([] ∷ segments) = nonempty segments
nonempty ((c ∷ s) ∷ segments) = (c ∷ s) ∷ nonempty segments

unfoldable pub split : Str → List Str
unfolding split_on nonempty
split path = nonempty (split_on 47 path)

unfoldable pub starts_with : ℕ → Str → Bool
starts_with c [] = false
starts_with c (x ∷ s) = x == c

unfoldable pub ends_with : ℕ → Str → Bool
ends_with c [] = false
ends_with c (x ∷ []) = x == c
ends_with c (x ∷ y ∷ s) = ends_with c (y ∷ s)

-- `s[:-1]`
unfoldable pub drop_last : Str → Str
drop_last [] = []
drop_last (x ∷ []) = []
drop_last (x ∷ y ∷ s) = x ∷ drop_last (y ∷ s)

-- `s[1:-1]`
unfoldable pub inner : Str → Str
unfolding drop_last
inner [] = []
inner (x ∷ s) = drop_last s

-- `seg.startswith("{") and seg.endswith("}")`
unfoldable pub is_param : Str → Bool
unfolding starts_with ends_with
is_param seg = starts_with 123 seg && ends_with 125 seg

-- `str.upper` on the letters of methods
unfoldable pub upper : Str → Str
upper s = map (λ c. if leb 97 c && leb c 122 then c - 32 else c) s

pub record Environ : Type 0 where
  pub request_method : Str
  pub path_info : Str
  pub params : Option (Dict Str Str)

pub record Response : Type 0 where
  pub status : ℕ
  pub content_type : Str
  pub body : Str

abbrev pub Handler : Type 0
Handler = Environ → Response

pub record Router : Type 0 where
  pub routes : Dict (Str × Str) (Handler × List Str)
  pub middlewares : List (Handler → Handler)
  pub not_found : Handler
  pub method_not_allowed : Handler

unfoldable pub key_discrete : Discrete (Str × Str)
unfolding Str_discrete
key_discrete = ×_discrete Str_discrete Str_discrete

-- `text/plain`, `not found` and `method not allowed`
abbrev pub text_plain : Str
text_plain = 116 ∷ 101 ∷ 120 ∷ 116 ∷ 47 ∷ 112 ∷ 108 ∷ 97 ∷ 105 ∷ 110 ∷ []

abbrev pub not_found_body : Str
not_found_body = 110 ∷ 111 ∷ 116 ∷ 32 ∷ 102 ∷ 111 ∷ 117 ∷ 110 ∷ 100 ∷ []

abbrev pub method_not_allowed_body : Str
method_not_allowed_body =
    109 ∷ 101 ∷ 116 ∷ 104 ∷ 111 ∷ 100 ∷ 32 ∷ 110 ∷ 111 ∷ 116 ∷ 32 ∷ 97 ∷ 108 ∷ 108 ∷ 111 ∷ 119 ∷ 101
    ∷ 100 ∷ []

unfoldable pub init : Router
init = record {
  routes = [];
  middlewares = [];
  not_found = λ environ. record { status = 404; content_type = text_plain; body = not_found_body };
  method_not_allowed =
      λ environ. record { status = 405; content_type = text_plain; body = method_not_allowed_body };
}

unfoldable pub add_middleware : (Handler → Handler) → Router → Router
add_middleware middleware r = record r { middlewares = r.middlewares ++ middleware ∷ [] }

unfoldable pub param_names : List Str → List Str
unfolding is_param inner
param_names [] = []
param_names (seg ∷ segments) =
    let rest = param_names segments in if is_param seg then inner seg ∷ rest else rest

unfoldable pub add : Str → Str → Handler → Router → Router
unfolding split param_names upper key_discrete
add method path handler r = record r {
  routes = Dict.set key_discrete (upper method, path) (handler, param_names (split path)) r.routes;
}

-- the methods `get` and `post` of the router, with `GET` and `POST`
unfoldable pub get : Str → Handler → Router → Router
unfolding add
get path handler r = add (71 ∷ 69 ∷ 84 ∷ []) path handler r

unfoldable pub post : Str → Handler → Router → Router
unfolding add
post path handler r = add (80 ∷ 79 ∷ 83 ∷ 84 ∷ []) path handler r

-- the loop over the two lists of segments; `none` is a mismatch
unfoldable pub match_segments : List Str → List Str → Dict Str Str → Option (Dict Str Str)
unfolding is_param inner Str_discrete
match_segments [] ps params = some params
match_segments (r ∷ rs) [] params = some params
match_segments (r ∷ rs) (p ∷ ps) params =
    let bound = match_segments rs ps (Dict.set Str_discrete (inner r) p params) in
    let same = match_segments rs ps params in
    if is_param r then bound else ite (Str_discrete r p) same none

-- the test of one route
unfoldable pub match_route : Str → List Str → Str × Str → Option (Dict Str Str)
unfolding split match_segments
match_route method segments (route_method, route_path) =
    ite (Str_discrete route_method method)
      (if length (split route_path) == length segments
        then match_segments (split route_path) segments []
        else none)
      none

unfoldable pub match_routes :
    Str → List Str → Dict (Str × Str) (Handler × List Str) → Option (Handler × Dict Str Str)
unfolding match_route
match_routes method segments [] = none
match_routes method segments ((key, (handler, names)) ∷ routes) =
    let rest = match_routes method segments routes in
    elim (match_route method segments key) [ none ↦ rest | some params ↦ some (handler, params) ]

unfoldable pub wrap : Handler → Router → Handler
unfolding build_middleware_chain
wrap handler r = build_middleware_chain handler r.middlewares

unfoldable pub dispatch : Str → Str → Router → Response
unfolding match_routes wrap
dispatch method path r = elim (match_routes (upper method) (split path) r.routes) [
  | none ↦ r.not_found (record { request_method = method; path_info = path; params = none })
  | some (handler, params) ↦
      wrap handler r (record { request_method = method; path_info = path; params = some params })
]
