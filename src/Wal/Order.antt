-- ===== src/Wal/Order.antt =====
-- The order of the LSNs under the methods of the log (wal_simulator.py).
use assets_system.Prelude.{
  ◌⊎◌, ℕ, ◌+◌, ◌≤◌, ◌<◌, ◌≡◌, sym, false, some, List, [], ◌∷◌, ◌++◌, map, arith,
}
use mathlib.Core.List.{append-nil, append_assoc}
use assets_system.Wal
use mathlib.Core.Option
use assets_system.Wal.{LogRecord, WalSimulator, mark, max_committed}

-- The LSNs of the list increase strictly from above `lo`, up to `hi` at most.
abbrev pub LsnsWithin {ℓ} : {K V : Type ℓ} → ℕ → ℕ → List (LogRecord K V) → Type 0
LsnsWithin lo hi [] = lo ≤ hi
LsnsWithin lo hi (r ∷ rs) = (lo < r.lsn) × LsnsWithin r.lsn hi rs

-- The file, and behind it the buffer, in the order of the LSNs.
pub record IsOrdered {ℓ} {K V : Type ℓ} (s : WalSimulator K V) : Type 0 where
  pub lsns : LsnsWithin 0 s.lsn_counter (s.log_file ++ s.log_buffer)
  pub checkpointed : s.checkpoint_lsn ≤ s.lsn_counter

module _ {ℓ} {K V : Type ℓ} where
  LsnsWithin-snoc :
      (lo hi : ℕ) (rs : List (LogRecord K V)) (r : LogRecord K V)
      → LsnsWithin lo hi rs
      → hi < r.lsn
      → LsnsWithin lo r.lsn (rs ++ r ∷ [])
  LsnsWithin-snoc lo hi [] r h n = omega arith
  LsnsWithin-snoc lo hi (x ∷ rs) r h n = (h.0, LsnsWithin-snoc x.lsn hi rs r h.1 n)

  LsnsWithin-mark :
      (lo hi lsn : ℕ) (xs ys : List (LogRecord K V))
      → LsnsWithin lo hi (xs ++ ys)
      → LsnsWithin lo hi (xs ++ map (mark lsn) ys)
  unfolding mark
  LsnsWithin-mark lo hi lsn [] [] h = h
  LsnsWithin-mark lo hi lsn [] (y ∷ ys) h = ground (arith, LsnsWithin-mark y.lsn hi lsn [] ys h.1)
  LsnsWithin-mark lo hi lsn (x ∷ xs) ys h = (h.0, LsnsWithin-mark x.lsn hi lsn xs ys h.1)

  LsnsWithin-le : (lo hi : ℕ) (xs : List (LogRecord K V)) → LsnsWithin lo hi xs → lo ≤ hi
  LsnsWithin-le lo hi [] h = h
  LsnsWithin-le lo hi (x ∷ xs) h = omega (arith, LsnsWithin-le x.lsn hi xs h.1)

  LsnsWithin-left :
      (lo hi : ℕ) (xs ys : List (LogRecord K V)) → LsnsWithin lo hi (xs ++ ys) → LsnsWithin lo hi xs
  LsnsWithin-left lo hi [] ys h = LsnsWithin-le lo hi ys h
  LsnsWithin-left lo hi (x ∷ xs) ys h = (h.0, LsnsWithin-left x.lsn hi xs ys h.1)

  max_committed-bound :
      (lo hi : ℕ) (xs : List (LogRecord K V))
      → LsnsWithin lo hi xs
      → Option.get_or (max_committed xs) 0 ≤ hi
  unfolding max_committed
  max_committed-bound lo hi [] h = omega arith
  max_committed-bound lo hi (x ∷ xs) h =
      ground (arith, LsnsWithin-le x.lsn hi xs h.1, max_committed-bound x.lsn hi xs h.1)

  max_committed-le :
      (lo hi : ℕ) (xs : List (LogRecord K V))
      → LsnsWithin lo hi xs
      → (m : ℕ) → max_committed xs ≡ some m
      → m ≤ hi
  max_committed-le lo hi xs h m e = ground (arith, max_committed-bound lo hi xs h)

  pub log_file-checkpoint :
      (s u : WalSimulator K V) → Wal.checkpoint s ≡ some u → u.log_file ≡ s.log_file
  unfolding Wal.checkpoint
  log_file-checkpoint s u e = ground arith

  checkpoint_lsn-checkpoint :
      (s u : WalSimulator K V)
      → Wal.checkpoint s ≡ some u
      → (u.checkpoint_lsn ≡ s.checkpoint_lsn) ⊎ (max_committed s.log_file ≡ some u.checkpoint_lsn)
  unfolding Wal.checkpoint
  checkpoint_lsn-checkpoint s u e = ground arith

  checkpoint_frame :
      (s u : WalSimulator K V)
      → Wal.checkpoint s ≡ some u
      → (u.log_buffer ≡ s.log_buffer) × (u.lsn_counter ≡ s.lsn_counter)
  unfolding Wal.checkpoint
  checkpoint_frame s u e = ground arith

  checkpoint-IsOrdered :
      (s u : WalSimulator K V) → Wal.checkpoint s ≡ some u → IsOrdered s → IsOrdered u
  checkpoint-IsOrdered s u e h =
      let (eb, ec) = checkpoint_frame s u e in
      record {
        lsns = rw (log_file-checkpoint s u e, eb, ec) h.lsns;
        checkpointed = rw ec (
            ground (
              arith,
              checkpoint_lsn-checkpoint s u e,
              max_committed-le 0 s.lsn_counter s.log_file
                  (LsnsWithin-left 0 s.lsn_counter s.log_file s.log_buffer h.lsns) u.checkpoint_lsn,
              h.checkpointed,
            ));
      }

  init-IsOrdered : IsOrdered (Wal.init {K = K} {V = V})
  unfolding Wal.init
  init-IsOrdered = omega arith

  append-append_snoc :
      (xs ys : List (LogRecord K V)) (r : LogRecord K V)
      → xs ++ (ys ++ r ∷ []) ≡ (xs ++ ys) ++ r ∷ []
  append-append_snoc xs ys r = sym (append_assoc xs ys (r ∷ []))

module _ {ℓ} {K V : Type ℓ} (dec : Discrete K) where
  -- One call of a method; the log that `recover` gets is arbitrary.
  pub data Step : WalSimulator K V → WalSimulator K V → Type ℓ where
    begin : (s : WalSimulator K V) (t : ℕ) → Step s (Wal.begin s t)
    write : (s : WalSimulator K V) (t : ℕ) (p : K) (o v : V) → Step s (Wal.write s t p o v).0
    commit : (s : WalSimulator K V) (t lsn : ℕ) → Step s (Wal.commit s t lsn)
    modify_page : (s : WalSimulator K V) (p : K) (v : V) → Step s (Wal.modify_page dec s p v)
    checkpoint : (s u : WalSimulator K V) → Wal.checkpoint s ≡ some u → Step s u
    crash : (s : WalSimulator K V) → Step s (Wal.crash s).0
    recover : (s : WalSimulator K V) (log : List (LogRecord K V)) → Step s (Wal.recover dec s log)

  pub data Reach (s : WalSimulator K V) : WalSimulator K V → Type ℓ where
    here : Reach s s
    next : {t u : WalSimulator K V} → Reach s t → Step t u → Reach s u

  Step-IsOrdered : {s u : WalSimulator K V} → Step s u → IsOrdered s → IsOrdered u
  unfolding Wal.begin Wal.write Wal.commit Wal.modify_page Wal.checkpoint Wal.crash Wal.recover
  Step-IsOrdered (begin s t) h = record { lsns = h.lsns; checkpointed = h.checkpointed }
  Step-IsOrdered (write s t p o v) h =
      let r : LogRecord K V = record {
        lsn = s.lsn_counter + 1;
        page_id = p;
        old_val = o;
        new_val = v;
        committed = false;
      } in
      record {
        lsns =
            rw (append-append_snoc s.log_file s.log_buffer r)
              (LsnsWithin-snoc 0 s.lsn_counter (s.log_file ++ s.log_buffer) r h.lsns (omega arith));
        checkpointed = omega (arith, h.checkpointed);
      }
  Step-IsOrdered (commit s t lsn) h = record {
    lsns = rw append-nil (LsnsWithin-mark 0 s.lsn_counter lsn s.log_file s.log_buffer h.lsns);
    checkpointed = h.checkpointed;
  }
  Step-IsOrdered (modify_page s p v) h = record { lsns = h.lsns; checkpointed = h.checkpointed }
  Step-IsOrdered (checkpoint s u e) h = checkpoint-IsOrdered s u e h
  Step-IsOrdered (crash s) h = record {
    lsns = rw append-nil (LsnsWithin-left 0 s.lsn_counter s.log_file s.log_buffer h.lsns);
    checkpointed = h.checkpointed;
  }
  Step-IsOrdered (recover s log) h = record { lsns = h.lsns; checkpointed = h.checkpointed }

  Reach-IsOrdered : {s u : WalSimulator K V} → Reach s u → IsOrdered s → IsOrdered u
  Reach-IsOrdered here h = h
  Reach-IsOrdered (next r st) h = Step-IsOrdered st (Reach-IsOrdered r h)

  -- Whatever methods are called on a new simulator, the LSNs of the file and then of the buffer
  -- increase strictly up to the counter at most, and the checkpoint is not past the counter.
  init-Reach-IsOrdered : (u : WalSimulator K V) → Reach Wal.init u → IsOrdered u
  init-Reach-IsOrdered u r = Reach-IsOrdered r init-IsOrdered
