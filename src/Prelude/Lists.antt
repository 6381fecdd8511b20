-- ===== src/Prelude/Lists.antt =====
-- Lists measured by native numbers, membership in sets of numbers, and predicates on lists.
use Prim.Native.Nat.{ℕ, suc, ◌+◌}
use mathlib.Core.Bool.{Bool, true, false}
use mathlib.Core.List.{List, [], ◌∷◌, ◌++◌}
use mathlib.Core.Path.{◌≡◌}
use native.Mathlib.Omega.{arith}
use assets_system.Prelude.Tests.{◌==◌, if◌then◌else◌}

module _ {ℓ} {A : Type ℓ} where
  abbrev pub length : List A → ℕ
  length [] = 0
  length (x ∷ xs) = suc (length xs)

  pub length-append : (xs ys : List A) → length (xs ++ ys) ≡ length xs + length ys
  length-append [] ys = omega arith
  length-append (x ∷ xs) ys = omega (arith, length-append xs ys)

-- Every element satisfies the predicate.
abbrev pub All {ℓ κ} : {A : Type ℓ} → (A → Type κ) → List A → Type κ
All P [] = Unit
All P (x ∷ xs) = P x × All P xs

module _ {ℓ κ} {A : Type ℓ} where
  pub All-map : (P Q : A → Type κ) (xs : List A) → ((x : A) → P x → Q x) → All P xs → All Q xs
  All-map P Q [] f h = tt
  All-map P Q (x ∷ xs) f h = (f x h.0, All-map P Q xs f h.1)

pub All-append {ℓ κ} :
    {A : Type ℓ} (P : A → Type κ) (xs : List A) (x : A) → All P xs → P x → All P (xs ++ x ∷ [])
All-append P [] x h p = (p, tt)
All-append P (y ∷ xs) x h p = (h.0, All-append P xs x h.1 p)

-- A Python `set` of integers, as a list.
abbrev pub contains : List ℕ → ℕ → Bool
contains [] n = false
contains (x ∷ xs) n = if x == n then true else contains xs n

-- `set.add`
abbrev pub add : ℕ → List ℕ → List ℕ
add n xs = if contains xs n then xs else n ∷ xs

-- `set.discard`, and the difference with a singleton
abbrev pub discard : ℕ → List ℕ → List ℕ
discard n [] = []
discard n (x ∷ xs) = let rest = discard n xs in if x == n then rest else x ∷ rest

pub contains-add :
    (n m : ℕ) (xs : List ℕ) → contains (add n xs) m ≡ (if n == m then true else contains xs m)
contains-add n m xs = ground arith

pub contains-discard :
    (n m : ℕ) (xs : List ℕ) → contains (discard n xs) m ≡ (if n == m then false else contains xs m)
contains-discard n m [] = ground arith
contains-discard n m (x ∷ xs) = ground (arith, contains-discard n m xs)
