-- ===== src/Prelude/Dict.antt =====
-- Python's `dict` in insertion order, over keys with a decidable equality.
use mathlib.Core.List.{List, [], ◌∷◌}
use mathlib.Core.Logic.{◌≢◌, ◌⊎◌, inl, inr, ite, if_pos, if_neg}
use mathlib.Core.Option.{Option, none, some, some-injective}
use mathlib.Core.Path.{◌≡◌, refl, sym, ◌∙◌, subst}
use native.Mathlib.Omega.{arith}
use assets_system.Prelude.Lists.{All}

abbrev pub Dict {ℓ} : Type ℓ → Type ℓ → Type ℓ
Dict K V = List (K × V)

module _ {ℓ} {K V : Type ℓ} (dec : Discrete K) where
  -- `d.get(k)`
  unfoldable pub get : K → Dict K V → Option V
  get k [] = none
  get k ((j, v) ∷ d) = ite (dec j k) (some v) (get k d)

  -- `d[k] = v`: a key that is present keeps its place.
  unfoldable pub set : K → V → Dict K V → Dict K V
  set k v [] = (k, v) ∷ []
  set k v ((j, w) ∷ d) = ite (dec j k) ((j, v) ∷ d) ((j, w) ∷ set k v d)

  -- `d.pop(k, None)`
  unfoldable pub remove : K → Dict K V → Dict K V
  remove k [] = []
  remove k ((j, w) ∷ d) = let rest = remove k d in ite (dec j k) rest ((j, w) ∷ rest)

  pub get-set :
      (k j : K) (v : V) (d : Dict K V) → get j (set k v d) ≡ ite (dec k j) (some v) (get j d)
  unfolding get set
  get-set k j v [] = refl
  get-set k j v ((i, w) ∷ d) = ground (arith, get-set k j v d)

  pub get-remove : (k j : K) (d : Dict K V) → get j (remove k d) ≡ ite (dec k j) none (get j d)
  unfolding get remove
  get-remove k j [] = ground arith
  get-remove k j ((i, w) ∷ d) = ground (arith, get-remove k j d)

  pub get-set_self : (k : K) (v : V) (d : Dict K V) → get k (set k v d) ≡ some v
  get-set_self k v d = ground (arith, get-set k k v d)

  pub get-set_ne : (k j : K) (v : V) (d : Dict K V) → k ≢ j → get j (set k v d) ≡ get j d
  get-set_ne k j v d h = ground (arith, get-set k j v d)

  -- An entry that is found after an assignment is the new one or was there before.
  pub get-set-some :
      (k j : K) (v w : V) (d : Dict K V)
      → get j (set k v d) ≡ some w
      → ((k ≡ j) × (v ≡ w)) ⊎ ((k ≢ j) × (get j d ≡ some w))
  get-set-some k j v w d e = elim (dec k j) [
    | yes p ↦
        inl (
          p,
          some-injective _ _ (sym (get-set k j v d ∙ if_pos (dec k j) p (some v) (get j d)) ∙ e),
        )
    | no p ↦ inr (p, sym (get-set_ne k j v d p) ∙ e)
  ]

  -- No key stands twice, as in every Python dict.
  abbrev pub Distinct : Dict K V → Type ℓ
  Distinct [] = Unit
  Distinct ((k, v) ∷ d) = (get k d ≡ none) × Distinct d

  pub Distinct-set : (k : K) (v : V) (d : Dict K V) → Distinct d → Distinct (set k v d)
  unfolding set get
  Distinct-set k v [] h = (refl, tt)
  Distinct-set k v ((j, w) ∷ d) h = elim (dec j k) [
    | yes p ↦ rw (if_pos _ p) h
    | no p ↦ rw (if_neg _ p) (ground (arith, get-set k j v d, h.0), Distinct-set k v d h.1)
  ]

  pub Distinct-remove : (k : K) (d : Dict K V) → Distinct d → Distinct (remove k d)
  unfolding remove
  Distinct-remove k [] h = tt
  Distinct-remove k ((j, w) ∷ d) h = elim (dec j k) [
    | yes p ↦ rw (if_pos _ p) (Distinct-remove k d h.1)
    | no p ↦ rw (if_neg _ p) (ground (arith, get-remove k j d, h.0), Distinct-remove k d h.1)
  ]

  pub All-remove : (P : K × V → Type ℓ) (k : K) (d : Dict K V) → All P d → All P (remove k d)
  unfolding remove
  All-remove P k [] h = tt
  All-remove P k ((j, w) ∷ d) h = elim (dec j k) [
    | yes p ↦ rw (if_pos _ p) (All-remove P k d h.1)
    | no p ↦ rw (if_neg _ p) (h.0, All-remove P k d h.1)
  ]

  pub All-set :
      (P : K × V → Type ℓ) (k : K) (v : V) (d : Dict K V) → P (k, v) → All P d → All P (set k v d)
  unfolding set
  All-set P k v [] q h = (q, tt)
  All-set P k v ((j, w) ∷ d) q h = elim (dec j k) [
    | yes p ↦ rw (if_pos _ p) (subst (λ x. P (x, v)) (sym p) q, h.1)
    | no p ↦ rw (if_neg _ p) (h.0, All-set P k v d q h.1)
  ]
