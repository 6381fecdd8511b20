-- ===== src/Wal/Checkpoint.antt =====
-- What a checkpoint records (wal_simulator.py, `checkpoint`), and what a crash after it loses.
use assets_system.Prelude.{
  ℕ, ◌≤◌, ◌≡◌, refl, ◌∙◌, true, false, none, some, List, [], ◌∷◌, arith, Bool-cases, inl, inr, All,
  ◌⊎◌, ◌↔◌,
}
use mathlib.Core.Option
use mathlib.Core.Path.{subst}
use assets_system.Prelude.Dict.{Dict}
use assets_system.Wal
use assets_system.Wal.{LogRecord, WalSimulator, max_committed, is_empty, redo, redo_all}
use assets_system.Wal.Order.{log_file-checkpoint}
use assets_system.Wal.Recovery.{crash_and_recover, data_pages-crash_and_recover}

module _ {ℓ} {K V : Type ℓ} where
  -- `m` bounds the LSNs of the committed records.
  abbrev pub BoundsCommitted : ℕ → List (LogRecord K V) → Type 0
  BoundsCommitted m [] = Unit
  BoundsCommitted m (r ∷ rs) = ((r.committed ≡ false) ⊎ (r.lsn ≤ m)) × BoundsCommitted m rs

  -- Some committed record has the LSN `m`.
  abbrev pub HasCommitted : ℕ → List (LogRecord K V) → Type 0
  HasCommitted m [] = ⊥
  HasCommitted m (r ∷ rs) = ((r.committed ≡ true) × (r.lsn ≡ m)) ⊎ HasCommitted m rs

  BoundsCommitted-le :
      (m n : ℕ) (rs : List (LogRecord K V)) → m ≤ n → BoundsCommitted m rs → BoundsCommitted n rs
  BoundsCommitted-le m n [] h b = tt
  BoundsCommitted-le m n (r ∷ rs) h b = (ground arith, BoundsCommitted-le m n rs h b.1)

  BoundsCommitted-empty :
      (m : ℕ) (rs : List (LogRecord K V)) → is_empty rs ≡ true → BoundsCommitted m rs
  unfolding is_empty
  BoundsCommitted-empty m [] h = tt
  BoundsCommitted-empty m (r ∷ rs) h = cc

  max_committed-none :
      (rs : List (LogRecord K V)) → max_committed rs ≡ none → All (λ r. r.committed ≡ false) rs
  unfolding max_committed
  max_committed-none [] e = tt
  max_committed-none (r ∷ rs) e = (ground arith, max_committed-none rs (ground arith))

  max_committed-bounds :
      (rs : List (LogRecord K V)) → BoundsCommitted (Option.get_or (max_committed rs) 0) rs
  unfolding max_committed
  max_committed-bounds [] = tt
  max_committed-bounds (r ∷ rs) =
      (ground arith, BoundsCommitted-le _ _ rs (ground arith) (max_committed-bounds rs))

  max_committed-has :
      (rs : List (LogRecord K V)) (m : ℕ) → max_committed rs ≡ some m → HasCommitted m rs
  unfolding max_committed
  max_committed-has [] m e = cc
  max_committed-has (r ∷ rs) m e = ground (arith, max_committed-has rs m)

  max_committed-none_of :
      (rs : List (LogRecord K V)) → All (λ r. r.committed ≡ false) rs → max_committed rs ≡ none
  unfolding max_committed
  max_committed-none_of [] h = refl
  max_committed-none_of (r ∷ rs) h = ground (arith, max_committed-none_of rs h.1)

  -- A checkpoint raises an error exactly when the log file is not empty and holds no committed
  -- record.
  checkpoint-eq-none_iff :
      (s : WalSimulator K V)
      → (Wal.checkpoint s ≡ none)
        ↔ ((is_empty s.log_file ≡ false) × All (λ r. r.committed ≡ false) s.log_file)
  unfolding Wal.checkpoint
  checkpoint-eq-none_iff s = (
    λ e. (ground arith, max_committed-none s.log_file (ground arith)),
    λ h. ground (arith, max_committed-none_of s.log_file h.1),
  )

  -- Where a checkpoint succeeds on a log file that is not empty, it records the largest LSN of a
  -- committed record of the file.
  checkpoint-max :
      (s u : WalSimulator K V)
      → is_empty s.log_file ≡ false
      → Wal.checkpoint s ≡ some u
      → HasCommitted u.checkpoint_lsn s.log_file × BoundsCommitted u.checkpoint_lsn s.log_file
  unfolding Wal.checkpoint
  checkpoint-max s u ne e =
      let m : max_committed s.log_file ≡ some u.checkpoint_lsn = ground arith in
      (
        max_committed-has s.log_file u.checkpoint_lsn m,
        subst (λ o. BoundsCommitted (Option.get_or o 0) s.log_file) m
            (max_committed-bounds s.log_file),
      )

  bounded :
      (s u : WalSimulator K V)
      → Wal.checkpoint s ≡ some u
      → BoundsCommitted u.checkpoint_lsn s.log_file
  bounded s u e = elim (Bool-cases (is_empty s.log_file)) [
    | inl h ↦ BoundsCommitted-empty u.checkpoint_lsn s.log_file h
    | inr h ↦ (checkpoint-max s u h e).1
  ]

module _ {ℓ} {K V : Type ℓ} (dec : Discrete K) where
  redo_all-bounded :
      (c : ℕ) (rs : List (LogRecord K V)) (pages : Dict K V)
      → BoundsCommitted c rs
      → redo_all dec c rs pages ≡ pages
  unfolding redo_all redo
  redo_all-bounded c [] pages h = refl
  redo_all-bounded c (r ∷ rs) pages h = ground (arith, redo_all-bounded c rs pages h.1)

  -- A crash after a successful checkpoint leaves no page after recovery: the pages in memory are
  -- lost, nothing had stored them, and recovery skips every record up to the checkpoint.
  crash_and_recover-checkpoint :
      (s u : WalSimulator K V)
      → Wal.checkpoint s ≡ some u
      → (crash_and_recover dec u).data_pages ≡ []
  crash_and_recover-checkpoint s u e =
      data_pages-crash_and_recover dec u
      ∙ rw (log_file-checkpoint s u e)
          (redo_all-bounded u.checkpoint_lsn s.log_file [] (bounded s u e))
