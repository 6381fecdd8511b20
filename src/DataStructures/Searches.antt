-- ===== src/DataStructures/Searches.antt =====
-- What the searches of binary_search.py find in a sorted sequence.
use assets_system.Prelude.{
  ℕ, zero, suc, ◌+◌, ◌-◌, ◌/◌, ◌≤◌, ◌<◌, ◌≡◌, ◌≢◌, ◌∙◌, ap, inl, inr, Bool, true, false, Option,
  none, some, List, [], ◌∷◌, ltb, leb, ◌==◌, length, arith, Bool-cases,
}
use assets_system.DataStructures.BinarySearch.{
  nth, search, binary_search, bound, lower_bound, upper_bound,
}

-- No element is greater than a later one.
abbrev pub Sorted : List ℕ → Type 0
Sorted arr = (i j x y : ℕ) → i ≤ j → nth arr i ≡ some x → nth arr j ≡ some y → x ≤ y

nth-some : (arr : List ℕ) (i : ℕ) → i < length arr → (x : ℕ) × (nth arr i ≡ some x)
unfolding nth
nth-some [] i h = absurd (omega arith)
nth-some (x ∷ xs) i h = elim (Bool-cases (i == 0)) [
  | inl b ↦ (x, rw b)
  | inr b ↦ let (y, e) = nth-some xs (i - 1) (ground (arith, h, b)) in (y, rw b e)
]

nth-length : (arr : List ℕ) (i x : ℕ) → nth arr i ≡ some x → i < length arr
unfolding nth
nth-length [] i x h = cc
nth-length (y ∷ ys) i x h = ground (arith, h, nth-length ys (i - 1) x)

-- The elements before the index pass the test, and those from it on do not.
abbrev pub SplitAt : (ℕ → Bool) → List ℕ → ℕ → Type 0
SplitAt test arr i =
    ((j x : ℕ) → j < i → nth arr j ≡ some x → test x ≡ true)
    × ((j x : ℕ) → i ≤ j → nth arr j ≡ some x → test x ≡ false)

-- An element before one that passes the test passes it.
abbrev IsMonotone : (ℕ → Bool) → List ℕ → Type 0
IsMonotone test arr =
    (i j x y : ℕ) → i ≤ j → nth arr i ≡ some x → nth arr j ≡ some y → test y ≡ true → test x ≡ true

later_fails :
    (test : ℕ → Bool) (arr : List ℕ) (i j x y : ℕ)
    → IsMonotone test arr
    → i ≤ j
    → nth arr i ≡ some x
    → nth arr j ≡ some y
    → test x ≡ false
    → test y ≡ false
later_fails test arr i j x y m l e f t = elim (Bool-cases (test y)) [
  | inl p ↦ absurd (cc (m i j x y l e f p, t))
  | inr p ↦ p
]

bound-SplitAt :
    (test : ℕ → Bool) (fuel : ℕ) (arr : List ℕ) (left right : ℕ)
    → IsMonotone test arr
    → left ≤ right
    → right ≤ length arr
    → right ≤ left + fuel
    → ((j x : ℕ) → j < left → nth arr j ≡ some x → test x ≡ true)
    → ((j x : ℕ) → right ≤ j → nth arr j ≡ some x → test x ≡ false)
    → (i : ℕ) × (bound test fuel arr left right ≡ some i) × (i ≤ length arr) × SplitAt test arr i
unfolding bound
bound-SplitAt test zero arr left right m h len enough below above = (
  left,
  ground (arith, h, enough),
  omega (arith, h, len),
  (below, λ j x l e. above j x (omega (arith, l, h, enough)) e),
)
bound-SplitAt test (suc fuel) arr left right m h len enough below above =
    elim (Bool-cases (ltb left right)) [
      | inr b ↦ (
        left,
        rw (b, bound),
        omega (arith, h, len),
        (below, λ j x l e. above j x (ground (arith, l, b)) e),
      )
      | inl b ↦
          let mid = (left + right) / 2 in
          let less : left < right = ground (arith, b) in
          let (x, e) = nth-some arr mid (omega (arith, less, len)) in
          elim (Bool-cases (test x)) [
            | inl t ↦
                let (i, r, l, rest) =
                  bound-SplitAt test fuel arr (mid + 1) right m (omega (arith, less)) len
                    (omega (arith, less, enough)) (λ j y l f. m j mid y x (omega (arith, l)) f e t)
                    above in
                (i, rw (b, e, t, bound) r, l, rest)
            | inr t ↦
                let (i, r, l, rest) =
                  bound-SplitAt test fuel arr left mid m (omega (arith, less))
                    (omega (arith, less, len)) (omega (arith, less, enough)) below
                    (λ j y l f. later_fails test arr mid j x y m l e f t) in
                (i, rw (b, e, t, bound) r, l, rest)
          ]
    ]

below-IsMonotone : (arr : List ℕ) (t : ℕ) → Sorted arr → IsMonotone (λ x. ltb x t) arr
below-IsMonotone arr t s i j x y l e f p = let le = s i j x y l e f in ground (arith, le, p)

up_to-IsMonotone : (arr : List ℕ) (t : ℕ) → Sorted arr → IsMonotone (λ x. leb x t) arr
up_to-IsMonotone arr t s i j x y l e f p = let le = s i j x y l e f in ground (arith, le, p)

no_element :
    (test : ℕ → Bool) (arr : List ℕ) (j x : ℕ)
    → length arr ≤ j
    → nth arr j ≡ some x
    → test x ≡ false
no_element test arr j x l e = absurd (omega (arith, l, nth-length arr j x e))

bound_all :
    (test : ℕ → Bool) (arr : List ℕ)
    → IsMonotone test arr
    → (i : ℕ) × (bound test (length arr) arr 0 (length arr) ≡ some i)
      × (i ≤ length arr)
      × SplitAt test arr i
bound_all test arr m =
    bound-SplitAt test (length arr) arr 0 (length arr) m (omega arith) (omega arith) (omega arith)
      (λ j x l e. absurd (omega (arith, l))) (λ j x l e. no_element test arr j x l e)

-- In a sorted sequence `lower_bound` and `upper_bound` return indices, at most the length: what
-- stands before the first is less than the target and what stands from it on is not, and what
-- stands before the second is at most the target and what stands from it on is greater.
lower_bound-upper_bound :
    (arr : List ℕ) (target : ℕ)
    → Sorted arr
    → ((i : ℕ) × (lower_bound arr target ≡ some i)
        × (i ≤ length arr)
        × SplitAt (λ x. ltb x target) arr i)
      × ((i : ℕ) × (upper_bound arr target ≡ some i)
          × (i ≤ length arr)
          × SplitAt (λ x. leb x target) arr i)
unfolding lower_bound upper_bound
lower_bound-upper_bound arr target s = (
  bound_all (λ x. ltb x target) arr (below-IsMonotone arr target s),
  bound_all (λ x. leb x target) arr (up_to-IsMonotone arr target s),
)

-- The index is one of the target, or there is none.
abbrev pub IsAnswer : List ℕ → ℕ → Option ℕ → Type 0
IsAnswer arr target none = (j : ℕ) → nth arr j ≢ some target
IsAnswer arr target (some i) = nth arr i ≡ some target

nowhere :
    (arr : List ℕ) (target left : ℕ)
    → ((j x : ℕ) → j < left → nth arr j ≡ some x → x < target)
    → ((j x : ℕ) → left ≤ j → nth arr j ≡ some x → target < x)
    → IsAnswer arr target none
nowhere arr target left below above j e = elim (Bool-cases (ltb j left)) [
  | inl b ↦ omega (arith, below j target (ground (arith, b)) e)
  | inr b ↦ omega (arith, above j target (ground (arith, b)) e)
]

search-IsAnswer :
    (fuel : ℕ) (arr : List ℕ) (target left stop : ℕ)
    → Sorted arr
    → left ≤ stop
    → stop ≤ length arr
    → stop ≤ left + fuel
    → ((j x : ℕ) → j < left → nth arr j ≡ some x → x < target)
    → ((j x : ℕ) → stop ≤ j → nth arr j ≡ some x → target < x)
    → (r : Option ℕ) × (search fuel arr target left stop ≡ some r) × IsAnswer arr target r
unfolding search
search-IsAnswer zero arr target left stop s h len enough below above = (
  none,
  ground (arith, h, enough),
  nowhere arr target left below (λ j x l e. above j x (omega (arith, l, h, enough)) e),
)
search-IsAnswer (suc fuel) arr target left stop s h len enough below above =
    elim (Bool-cases (ltb left stop)) [
      | inr b ↦ (
        none,
        rw (b, search),
        nowhere arr target left below (λ j x l e. above j x (ground (arith, l, b)) e),
      )
      | inl b ↦
          let mid = (left + stop - 1) / 2 in
          let less : left < stop = ground (arith, b) in
          let (x, e) = nth-some arr mid (omega (arith, less, len)) in
          elim (Bool-cases (x == target)) [
            | inl q ↦ (some mid, rw (b, e, q, search), e ∙ ap some (ground (arith, q)))
            | inr q ↦ elim (Bool-cases (ltb x target)) [
              | inl t ↦
                  let (r, a, answer) =
                    search-IsAnswer fuel arr target (mid + 1) stop s (omega (arith, less)) len
                      (omega (arith, less, enough))
                      (λ j y l f.
                        let le = s j mid y x (omega (arith, l)) f e in ground (arith, le, t))
                      above in
                  (r, rw (b, e, q, t, search) a, answer)
              | inr t ↦
                  let (r, a, answer) =
                    search-IsAnswer fuel arr target left mid s (omega (arith, less))
                      (omega (arith, less, len)) (omega (arith, less, enough)) below
                      (λ j y l f. let le = s mid j x y l e f in ground (arith, le, t, q)) in
                  (r, rw (b, e, q, t, search) a, answer)
            ]
          ]
    ]

-- In a sorted sequence `binary_search` ends without an IndexError: an index that it returns is one
-- of the target, and where it returns -1 the target is nowhere.
pub binary_search-IsAnswer :
    (arr : List ℕ) (target : ℕ)
    → Sorted arr
    → (r : Option ℕ) × (binary_search arr target ≡ some r) × IsAnswer arr target r
unfolding binary_search
binary_search-IsAnswer arr target s =
    search-IsAnswer (length arr) arr target 0 (length arr) s (omega arith) (omega arith)
      (omega arith) (λ j x l e. absurd (omega (arith, l)))
      (λ j x l e. absurd (omega (arith, l, nth-length arr j x e)))
