-- ===== src/Dlock/FencingToken.antt =====
-- fencing_token.py: storage that rejects a write whose token is below the greatest it has seen.
use mathlib.Core.List.{Memᴰ}
use mathlib.Core.List.Memᴰ.{head, tail}
use mathlib.Core.Path.{subst}
use assets_system.Prelude.{
  ℕ, ◌≤◌, ◌≡◌, ap, refl, ◌⊎◌, inl, inr, Bool, true, false, List, [], ◌∷◌, ltb, if◌then◌else◌, arith,
  All, Bool-cases,
}

pub record Storage {ℓ} (V : Type ℓ) : Type ℓ where
  pub stored : V
  pub max_token : ℕ

module _ {ℓ} {V : Type ℓ} where
  unfoldable pub init : V → Storage V
  init initial = record { stored = initial; max_token = 0 }

  unfoldable pub write : V → ℕ → Storage V → Bool × Storage V
  write value token s =
      if ltb token s.max_token
      then (false, s)
      else (true, record { stored = value; max_token = token })

  unfoldable pub read : Storage V → V
  read s = s.stored

  -- the writes of all clients, in the order in which they arrive
  unfoldable pub write_all : List (V × ℕ) → Storage V → Storage V
  unfolding write
  write_all [] s = s
  write_all ((value, token) ∷ ws) s = write_all ws (write value token s).1

  -- What the writes make of the storage `s`: they were all rejected, or the data are those of a write
  -- with the greatest token.
  abbrev pub Newest : List (V × ℕ) → Storage V → Storage V → Type ℓ
  Newest ws s t =
      (s.max_token ≤ t.max_token)
      × All (λ w. w.1 ≤ t.max_token) ws
      × ((t ≡ s) ⊎ Memᴰ (read t, t.max_token) ws)

  Newest-rejected :
      (value : V) (token : ℕ) (ws : List (V × ℕ)) (s t : Storage V)
      → ltb token s.max_token ≡ true
      → Newest ws s t
      → Newest ((value, token) ∷ ws) s t
  Newest-rejected value token ws s t b (grows, all, newest) =
      (grows, (ground (arith, b, grows), all), elim newest [ inl e ↦ inl e | inr m ↦ inr (tail m) ])

  Newest-accepted :
      (value : V) (token : ℕ) (ws : List (V × ℕ)) (s t : Storage V)
      → ltb token s.max_token ≡ false
      → Newest ws (record { stored = value; max_token = token }) t
      → Newest ((value, token) ∷ ws) s t
  unfolding read
  Newest-accepted value token ws s t b (grows, all, newest) = (
    ground (arith, b, grows),
    (grows, all),
    elim newest [ inl e ↦ inr (head (ap (λ x. (x.stored, x.max_token)) e)) | inr m ↦ inr (tail m) ],
  )

  -- Whatever writes arrive in whatever order, the greatest token never falls and is at least that
  -- of every write, and the data are those of a write with the greatest token, unless every write
  -- was rejected and nothing changed.
  write_all-Newest : (ws : List (V × ℕ)) (s : Storage V) → Newest ws s (write_all ws s)
  unfolding write_all write
  write_all-Newest [] s = (omega arith, tt, inl refl)
  write_all-Newest ((value, token) ∷ ws) s = elim (Bool-cases (ltb token s.max_token)) [
    | inl b ↦
        let same : s ≡ (write value token s).1 = rw b in
        subst (λ x. Newest ((value, token) ∷ ws) s (write_all ws x)) same
          (Newest-rejected value token ws s (write_all ws s) b (write_all-Newest ws s))
    | inr b ↦
        let s' : Storage V = record { stored = value; max_token = token } in
        let same : s' ≡ (write value token s).1 = rw b in
        subst (λ x. Newest ((value, token) ∷ ws) s (write_all ws x)) same
          (Newest-accepted value token ws s (write_all ws s') b (write_all-Newest ws s'))
  ]
