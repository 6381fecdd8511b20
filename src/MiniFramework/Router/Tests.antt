-- ===== src/MiniFramework/Router/Tests.antt =====
-- Requests to a router (mini_router.py), and the theorems at them.
use assets_system.Prelude.Dict
use assets_system.Prelude.Dict.{Dict}
use assets_system.Prelude.{◌≡◌, refl, some, [], ◌∷◌, ℕ_discrete}
use assets_system.EngineeringPatterns.MiddlewareChain.{
  reversed, apply_all, build_middleware_chain, nest,
}
use assets_system.MiniFramework.Router
use assets_system.MiniFramework.Router.{
  Str, Str_discrete, push, split_on, nonempty, split, starts_with, ends_with, drop_last, inner,
  is_param, upper, key_discrete, Environ, Response, Handler, text_plain, not_found_body, init,
  add_middleware, param_names, add, get, match_segments, match_route, match_routes, wrap, dispatch,
}
use assets_system.MiniFramework.Router.Matching.{fill, somes, match_route-fill, dispatch-first}

program : Unit {0}
unfolding reversed apply_all build_middleware_chain Str_discrete push split_on nonempty split
    starts_with ends_with drop_last inner is_param upper key_discrete init add_middleware
    param_names add get match_segments match_route match_routes wrap dispatch Dict.get Dict.set
    ℕ_discrete
program = tt

-- `GET`, `post`, `/u/{i}`, `/u//42`, `i` and `42`
abbrev get_method : Str
get_method = 71 ∷ 69 ∷ 84 ∷ []

abbrev post_method : Str
post_method = 112 ∷ 111 ∷ 115 ∷ 116 ∷ []

abbrev user_route : Str
user_route = 47 ∷ 117 ∷ 47 ∷ 123 ∷ 105 ∷ 125 ∷ []

abbrev user_path : Str
user_path = 47 ∷ 117 ∷ 47 ∷ 47 ∷ 52 ∷ 50 ∷ []

abbrev param : Str
param = 105 ∷ []

abbrev number : Str
number = 52 ∷ 50 ∷ []

-- a handler that answers with the path
abbrev echo : Handler
echo environ = record { status = 200; content_type = text_plain; body = environ.path_info }

-- a middleware that changes the type of the answers
abbrev typed : Str → Handler → Handler
typed content_type handler environ = record (handler environ) { content_type = content_type }

abbrev router : Router.Router
router = add_middleware (typed param) (add_middleware (typed number) (get user_route echo init))

-- The first middleware is the outermost one.
dispatch_user :
    dispatch get_method user_path router
    ≡ record { status = 200; content_type = number; body = user_path }
unfolding program
dispatch_user = refl

match_route-fill_example :
    (get_method ≡ get_method)
    × (fill (split user_route) ((param, number) ∷ []) ≡ somes (split user_path))
unfolding program
match_route-fill_example =
    match_route-fill get_method get_method user_route (split user_path) ((param, number) ∷ [])
      (λ p. cc, (λ p. tt, tt)) refl

dispatch-first_example :
    dispatch get_method user_path router
    ≡ nest echo router.middlewares (record {
      request_method = get_method;
      path_info = user_path;
      params = some ((param, number) ∷ []);
    })
unfolding program
dispatch-first_example =
    dispatch-first get_method user_path router [] [] (get_method, user_route) echo (param ∷ [])
      ((param, number) ∷ []) refl tt refl
