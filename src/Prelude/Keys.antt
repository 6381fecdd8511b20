-- ===== src/Prelude/Keys.antt =====
-- The keys of a dict: which it has, how many there are, and what the operations do to them.
use mathlib.Core.Bool.{Bool, true, false}
use mathlib.Core.List.{[], ◌∷◌, ◌++◌}
use mathlib.Core.Logic.{ite, if_pos, if_neg}
use mathlib.Core.Option.{Option, none, some}
use mathlib.Core.Option.{some-injective}
use mathlib.Core.Path.{◌≡◌, refl, sym, ◌∙◌, subst}
use Prim.Native.Nat.{◌+◌, ◌≤◌}
use native.Mathlib.Omega.{arith}
use assets_system.Prelude.Lists.{length, All}
use assets_system.Prelude.Tests.{if◌then◌else◌}
use assets_system.Prelude.Dict
use assets_system.Prelude.Dict.{Dict}

module _ {ℓ} {K V : Type ℓ} (dec : Discrete K) where
  abbrev pub is_some : Option V → Bool
  is_some none = false
  is_some (some v) = true

  -- `k in d`
  abbrev pub has : Dict K V → K → Bool
  has d k = is_some (Dict.get dec k d)

  pub has-set :
      (k j : K) (v : V) (d : Dict K V) → has (Dict.set dec k v d) j ≡ ite (dec k j) true (has d j)
  has-set k j v d = ground (arith, Dict.get-set dec k j v d)

  pub has-remove :
      (k j : K) (d : Dict K V) → has (Dict.remove dec k d) j ≡ ite (dec k j) false (has d j)
  has-remove k j d = ground (arith, Dict.get-remove dec k j d)

  pub has-append : (j : K) (d e : Dict K V) → has (d ++ e) j ≡ (if has d j then true else has e j)
  unfolding Dict.get
  has-append j [] e = refl
  has-append j ((k, v) ∷ d) e = ground (arith, has-append j d e)

  pub length-set :
      (k : K) (v : V) (d : Dict K V)
      → length (Dict.set dec k v d) ≡ (if has d k then length d else length d + 1)
  unfolding Dict.set Dict.get
  length-set k v [] = omega arith
  length-set k v ((j, w) ∷ d) = ground (arith, length-set k v d)

  remove_absent : (k : K) (d : Dict K V) → Dict.get dec k d ≡ none → Dict.remove dec k d ≡ d
  unfolding Dict.remove Dict.get
  remove_absent k [] h = refl
  remove_absent k ((j, w) ∷ d) h = ground (arith, remove_absent k d)

  pub length-remove :
      (k : K) (d : Dict K V)
      → Dict.Distinct dec d
      → length d
        ≡ (if has d k then length (Dict.remove dec k d) + 1 else length (Dict.remove dec k d))
  unfolding Dict.remove Dict.get
  length-remove k [] h = refl
  length-remove k ((j, w) ∷ d) h = ground (arith, length-remove k d h.1, remove_absent k d, h.0)

  pub length-remove-le : (k : K) (d : Dict K V) → length (Dict.remove dec k d) ≤ length d
  unfolding Dict.remove
  length-remove-le k [] = omega arith
  length-remove-le k ((j, w) ∷ d) = ground (arith, length-remove-le k d)

  -- What holds of all entries holds of the one that is found.
  pub get-All {κ} :
      (P : K → V → Type κ) (k : K) (v : V) (d : Dict K V)
      → All (λ p. P p.0 p.1) d
      → Dict.get dec k d ≡ some v
      → P k v
  unfolding Dict.get
  get-All P k v [] h e = cc
  get-All P k v ((j, w) ∷ d) h e = elim (dec j k) [
    | yes p ↦
        subst (λ x. P k x) (some-injective _ _ (sym (if_pos (dec j k) p _ _) ∙ e))
          (subst (λ x. P x w) p h.0)
    | no p ↦ get-All P k v d h.1 (sym (if_neg (dec j k) p _ _) ∙ e)
  ]

  -- A key that is present is removed.
  pub length-remove_lt :
      (k : K) (d : Dict K V) → has d k ≡ true → length (Dict.remove dec k d) + 1 ≤ length d
  unfolding Dict.remove Dict.get
  length-remove_lt k [] h = cc
  length-remove_lt k ((j, w) ∷ d) h = ground (arith, h, length-remove_lt k d, length-remove-le k d)
