-- ===== src/EngineeringPatterns/MiddlewareChain.antt =====
-- middleware_chain.py: handlers wrapped in middlewares.
use assets_system.Prelude.{◌≡◌, refl, ap, ◌∙◌, List, [], ◌∷◌, ◌++◌}

module _ {H : Type 0} where
  -- `reversed`
  unfoldable pub reversed : List (H → H) → List (H → H)
  reversed [] = []
  reversed (mw ∷ middlewares) = reversed middlewares ++ mw ∷ []

  -- the loop over the middlewares that are left
  unfoldable pub apply_all : H → List (H → H) → H
  apply_all handler [] = handler
  apply_all handler (mw ∷ middlewares) = apply_all (mw handler) middlewares

  unfoldable pub build_middleware_chain : H → List (H → H) → H
  unfolding reversed apply_all
  build_middleware_chain handler middlewares = apply_all handler (reversed middlewares)

  -- The first middleware is the outermost layer.
  abbrev pub nest : H → List (H → H) → H
  nest handler [] = handler
  nest handler (mw ∷ middlewares) = mw (nest handler middlewares)

  apply_all-append :
      (handler : H) (xs : List (H → H)) (mw : H → H)
      → apply_all handler (xs ++ mw ∷ []) ≡ mw (apply_all handler xs)
  unfolding apply_all
  apply_all-append handler [] mw = refl
  apply_all-append handler (x ∷ xs) mw = apply_all-append (x handler) xs mw

  -- The chain calls the first middleware first, then the second, and the handler last.
  pub build_middleware_chain-nest :
      (handler : H) (middlewares : List (H → H))
      → build_middleware_chain handler middlewares ≡ nest handler middlewares
  unfolding build_middleware_chain reversed apply_all
  build_middleware_chain-nest handler [] = refl
  build_middleware_chain-nest handler (mw ∷ middlewares) =
      apply_all-append handler (reversed middlewares) mw
      ∙ ap mw (build_middleware_chain-nest handler middlewares)
