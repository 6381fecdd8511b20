-- ===== src/Raft/Voters.antt =====
-- Sets of voters, as lists of numbers with no repetition, within the keys of a dict (for the
-- majorities of raft_sim.py).
use mathlib.Core.Path.{subst}
use assets_system.Prelude.Dict
use assets_system.Prelude.Dict.{Dict}
use assets_system.Prelude.Keys
use assets_system.Prelude.{
  ℕ, ◌+◌, ◌≤◌, ◌<◌, ◌≡◌, inl, inr, true, false, List, [], ◌∷◌, length, arith, Bool-cases, All,
  contains, ℕ_discrete,
}

abbrev pub Unique : List ℕ → Type 0
Unique [] = Unit
Unique (x ∷ xs) = (contains xs x ≡ false) × Unique xs

-- No member of the second list is one of the first.
abbrev pub Apart : List ℕ → List ℕ → Type 0
Apart xs ys = All (λ y. contains xs y ≡ false) ys

pub Apart-cons : (x : ℕ) (xs ys : List ℕ) → contains ys x ≡ false → Apart xs ys → Apart (x ∷ xs) ys
Apart-cons x xs [] h a = tt
Apart-cons x xs (y ∷ ys) h a = (ground (arith, h, a.0), Apart-cons x xs ys (ground (arith, h)) a.1)

pub Apart-singleton : (x : ℕ) (ys : List ℕ) → contains ys x ≡ false → Apart (x ∷ []) ys
Apart-singleton x [] h = tt
Apart-singleton x (y ∷ ys) h = (ground (arith, h), Apart-singleton x ys (ground (arith, h)))

pub All-member : (P : ℕ → Type 0) (xs : List ℕ) (x : ℕ) → All P xs → contains xs x ≡ true → P x
All-member P [] x h c = cc
All-member P (y ∷ ys) x h c = elim (ℕ_discrete y x) [
  | yes p ↦ subst P p h.0
  | no p ↦ All-member P ys x h.1 (ground (arith, c, p))
]

module _ {V : Type 0} where
  abbrev pub Within : Dict ℕ V → List ℕ → Type 0
  Within d xs = All (λ x. Keys.has ℕ_discrete d x ≡ true) xs

  Within-remove :
      (x : ℕ) (xs : List ℕ) (d : Dict ℕ V)
      → contains xs x ≡ false
      → Within d xs
      → Within (Dict.remove ℕ_discrete x d) xs
  Within-remove x [] d h w = tt
  Within-remove x (y ∷ xs) d h w = (
    ground (arith, Keys.has-remove ℕ_discrete x y d, h, w.0),
    Within-remove x xs d (ground (arith, h)) w.1,
  )

  length-Within :
      (xs : List ℕ) (d : Dict ℕ V)
      → Dict.Distinct ℕ_discrete d
      → Unique xs
      → Within d xs
      → length xs ≤ length d
  length-Within [] d h u w = omega arith
  length-Within (x ∷ xs) d h u w =
      let rest =
        length-Within xs (Dict.remove ℕ_discrete x d) (Dict.Distinct-remove ℕ_discrete x d h) u.1
          (Within-remove x xs d u.0 w.1) in
      ground (arith, rest, Keys.length-remove ℕ_discrete x d h, w.0)

  pub overlap :
      (xs ys : List ℕ) (d : Dict ℕ V)
      → Dict.Distinct ℕ_discrete d
      → Unique xs
      → Unique ys
      → Within d xs
      → Within d ys
      → length d < length xs + length ys
      → (x : ℕ) × (contains xs x ≡ true) × (contains ys x ≡ true)
  overlap [] ys d h u v w z n = absurd (omega (arith, length-Within ys d h v z))
  overlap (x ∷ xs) ys d h u v w z n = elim (Bool-cases (contains ys x)) [
    | inl b ↦ (x, ground arith, b)
    | inr b ↦
        let (e, p, q) =
          overlap xs ys (Dict.remove ℕ_discrete x d) (Dict.Distinct-remove ℕ_discrete x d h) u.1 v
            (Within-remove x xs d u.0 w.1) (Within-remove x ys d b z)
            (ground (arith, n, Keys.length-remove ℕ_discrete x d h, w.0)) in
        (e, ground (arith, p), q)
  ]
