-- ===== src/Wal/Durability.antt =====
-- A write in the log of wal_simulator.py, from the buffer over its commit to a recovery.
use assets_system.Prelude.Dict
use assets_system.Prelude.Dict.{Dict}
use assets_system.Prelude.{
  ℕ, ◌≤◌, ◌<◌, ◌≡◌, ◌≢◌, refl, ap, ◌∙◌, ◌⊎◌, inl, inr, none, some, List, [], ◌∷◌, ◌++◌, map, All,
  arith,
}
use assets_system.Wal
use assets_system.Wal.{LogRecord, WalSimulator, mark}
use assets_system.Wal.Recovery.{last_redone, or_else, get-recover, crash_and_recover}

-- A call of a method that is neither `checkpoint` nor `recover`.
pub data Call (K V : Type 0) : Type 0 where
  begins : ℕ → Call K V
  writes : ℕ → K → V → V → Call K V
  commits : ℕ → ℕ → Call K V
  modifies : K → V → Call K V
  crashes : Call K V

module _ {K V : Type 0} (dec : Discrete K) where
  unfoldable pub call : Call K V → WalSimulator K V → WalSimulator K V
  unfolding Wal.begin Wal.write Wal.commit Wal.modify_page Wal.crash
  call (begins t) s = Wal.begin s t
  call (writes t p o v) s = (Wal.write s t p o v).0
  call (commits t lsn) s = Wal.commit s t lsn
  call (modifies p v) s = Wal.modify_page dec s p v
  call crashes s = (Wal.crash s).0

  unfoldable pub calls : List (Call K V) → WalSimulator K V → WalSimulator K V
  unfolding call
  calls [] s = s
  calls (c ∷ cs) s = calls cs (call c s)

  -- The call writes no record about the page.
  abbrev pub Spares : K → Call K V → Type 0
  Spares p (writes t q o v) = q ≢ p
  Spares p (begins t) = Unit
  Spares p (commits t lsn) = Unit
  Spares p (modifies q v) = Unit
  Spares p crashes = Unit

  -- Nor does it commit or crash.
  abbrev pub Waits : K → Call K V → Type 0
  Waits p (writes t q o v) = q ≢ p
  Waits p (begins t) = Unit
  Waits p (commits t lsn) = ⊥
  Waits p (modifies q v) = Unit
  Waits p crashes = ⊥

  module _ (p : K) (v : V) where
    abbrev Other : LogRecord K V → Type 0
    Other r = r.page_id ≢ p

    -- The last record about the page in the list is the write with the LSN.
    abbrev Pending : ℕ → List (LogRecord K V) → Type 0
    Pending lsn [] = ⊥
    Pending lsn (r ∷ rs) =
        ((r.page_id ≡ p) × (r.lsn ≡ lsn) × (r.new_val ≡ v) × All Other rs) ⊎ Pending lsn rs

    Other-snoc :
        (rs : List (LogRecord K V)) (r : LogRecord K V)
        → All Other rs
        → Other r
        → All Other (rs ++ r ∷ [])
    Other-snoc [] r h o = (o, tt)
    Other-snoc (x ∷ rs) r h o = (h.0, Other-snoc rs r h.1 o)

    Pending-snoc :
        (lsn : ℕ) (rs : List (LogRecord K V)) (r : LogRecord K V)
        → Pending lsn rs
        → Other r
        → Pending lsn (rs ++ r ∷ [])
    Pending-snoc lsn [] r h o = absurd h
    Pending-snoc lsn (x ∷ rs) r (inl (page, l, new, others)) o =
        inl (page, l, new, Other-snoc rs r others o)
    Pending-snoc lsn (x ∷ rs) r (inr h) o = inr (Pending-snoc lsn rs r h o)

    Pending-new :
        (rs : List (LogRecord K V)) (r : LogRecord K V)
        → r.page_id ≡ p
        → r.new_val ≡ v
        → Pending r.lsn (rs ++ r ∷ [])
    Pending-new [] r page new = inl (page, refl, new, tt)
    Pending-new (x ∷ rs) r page new = inr (Pending-new rs r page new)

    -- what records about other pages leave
    last_redone-others :
        (c n : ℕ) (rs : List (LogRecord K V))
        → All Other rs
        → last_redone dec c p (map (mark n) rs) ≡ none
    unfolding last_redone mark
    last_redone-others c n [] h = refl
    last_redone-others c n (r ∷ rs) h = ground (arith, last_redone-others c n rs h.1, h.0)

    last_redone-append :
        (c : ℕ) (xs ys : List (LogRecord K V))
        → last_redone dec c p (xs ++ ys)
          ≡ or_else dec (last_redone dec c p ys) (last_redone dec c p xs)
    unfolding last_redone
    last_redone-append c [] ys = ground arith
    last_redone-append c (x ∷ xs) ys = ground (arith, last_redone-append c xs ys)

    -- a commit with the LSN marks the write
    last_redone-Pending :
        (c lsn : ℕ) (rs : List (LogRecord K V))
        → c < lsn
        → Pending lsn rs
        → last_redone dec c p (map (mark lsn) rs) ≡ some v
    unfolding last_redone mark
    last_redone-Pending c lsn [] h k = absurd k
    last_redone-Pending c lsn (r ∷ rs) h (inl (page, l, new, others)) =
        ground (arith, last_redone-others c lsn rs others, h, page, l, new)
    last_redone-Pending c lsn (r ∷ rs) h (inr k) = ground (arith, last_redone-Pending c lsn rs h k)

    -- the write is in the buffer
    record IsPending (c lsn : ℕ) (s : WalSimulator K V) : Type 0 where
      checkpoint : s.checkpoint_lsn ≡ c
      pending : Pending lsn s.log_buffer

    -- the write is in the file, and redone
    record IsDurable (s : WalSimulator K V) : Type 0 where
      durable : last_redone dec s.checkpoint_lsn p s.log_file ≡ some v
      others : All Other s.log_buffer

    calls-IsPending :
        (c lsn : ℕ) (cs : List (Call K V)) (s : WalSimulator K V)
        → All (Waits p) cs
        → IsPending c lsn s
        → IsPending c lsn (calls cs s)
    unfolding calls
    calls-IsPending c lsn [] s w h = h
    calls-IsPending c lsn (begins t ∷ cs) s w h =
        calls-IsPending c lsn cs (Wal.begin s t) w.1 (record {
          checkpoint = unfold Wal.begin in h.checkpoint;
          pending = unfold Wal.begin in h.pending;
        })
    calls-IsPending c lsn (writes t q o u ∷ cs) s w h =
        calls-IsPending c lsn cs (Wal.write s t q o u).0 w.1 (record {
          checkpoint = unfold Wal.write in h.checkpoint;
          pending = unfold Wal.write in Pending-snoc lsn s.log_buffer _ h.pending w.0;
        })
    calls-IsPending c lsn (commits t n ∷ cs) s w h = absurd w.0
    calls-IsPending c lsn (modifies q u ∷ cs) s w h =
        calls-IsPending c lsn cs (Wal.modify_page dec s q u) w.1 (record {
          checkpoint = unfold Wal.modify_page in h.checkpoint;
          pending = unfold Wal.modify_page in h.pending;
        })
    calls-IsPending c lsn (crashes ∷ cs) s w h = absurd w.0

    commit-IsDurable :
        (c lsn t : ℕ) (s : WalSimulator K V)
        → c < lsn
        → IsPending c lsn s
        → IsDurable (Wal.commit s t lsn)
    unfolding Wal.commit
    commit-IsDurable c lsn t s l h = record {
      durable =
          last_redone-append s.checkpoint_lsn s.log_file (map (mark lsn) s.log_buffer)
          ∙ ap (λ x. or_else dec x (last_redone dec s.checkpoint_lsn p s.log_file))
              (last_redone-Pending s.checkpoint_lsn lsn s.log_buffer
                (omega (arith, l, h.checkpoint)) h.pending);
      others = tt;
    }

    call-IsDurable :
        (c : Call K V) (s : WalSimulator K V) → Spares p c → IsDurable s → IsDurable (call c s)
    unfolding call Wal.begin Wal.write Wal.commit Wal.modify_page Wal.crash
    call-IsDurable (begins t) s w h = record { durable = h.durable; others = h.others }
    call-IsDurable (writes t q o u) s w h = record {
      durable = h.durable;
      others = Other-snoc s.log_buffer _ h.others w;
    }
    call-IsDurable (commits t n) s w h = record {
      durable =
          last_redone-append s.checkpoint_lsn s.log_file (map (mark n) s.log_buffer)
          ∙ ap (λ x. or_else dec x (last_redone dec s.checkpoint_lsn p s.log_file))
              (last_redone-others s.checkpoint_lsn n s.log_buffer h.others)
          ∙ h.durable;
      others = tt;
    }
    call-IsDurable (modifies q u) s w h = record { durable = h.durable; others = h.others }
    call-IsDurable crashes s w h = record { durable = h.durable; others = tt }

    calls-IsDurable :
        (cs : List (Call K V)) (s : WalSimulator K V)
        → All (Spares p) cs
        → IsDurable s
        → IsDurable (calls cs s)
    unfolding calls
    calls-IsDurable [] s w h = h
    calls-IsDurable (c ∷ cs) s w h = calls-IsDurable cs (call c s) w.1 (call-IsDurable c s w.0 h)

    recover-IsDurable :
        (s : WalSimulator K V)
        → IsDurable s
        → Dict.get dec p (crash_and_recover dec s).data_pages ≡ some v
    unfolding Wal.crash
    recover-IsDurable s h =
        get-recover dec (Wal.crash s).0 s.log_file p
        ∙ ap (λ x. or_else dec x (Dict.get dec p (Wal.crash s).0.data_pages)) h.durable

    write-IsPending :
        (s : WalSimulator K V) (t : ℕ) (o : V)
        → IsPending s.checkpoint_lsn (Wal.write s t p o v).1 (Wal.write s t p o v).0
    unfolding Wal.write
    write-IsPending s t o = record {
      checkpoint = refl;
      pending = Pending-new s.log_buffer _ refl refl;
    }

  -- A write of a page that is committed with the LSN that it returned is on the page after a crash
  -- and the recovery, in a log whose checkpoint is not past its counter, where these calls come in
  -- between: before the commit any but commits, crashes, checkpoints, recoveries and writes of
  -- the page, and after it any but checkpoints, recoveries and writes of the page.
  pub recover-commit-write :
      (s : WalSimulator K V) (t : ℕ) (p : K) (o v : V) (before after : List (Call K V))
      → s.checkpoint_lsn ≤ s.lsn_counter
      → All (Waits p) before
      → All (Spares p) after
      → (let (written, lsn) = Wal.write s t p o v in
          let committed = Wal.commit (calls before written) t lsn in
          Dict.get dec p (crash_and_recover dec (calls after committed)).data_pages ≡ some v)
  recover-commit-write s t p o v before after h w w' =
      let (written, lsn) = Wal.write s t p o v in
      let pending =
        calls-IsPending p v s.checkpoint_lsn lsn before written w (write-IsPending p v s t o) in
      let past : s.checkpoint_lsn < lsn = unfold Wal.write in omega (arith, h) in
      let committed = Wal.commit (calls before written) t lsn in
      recover-IsDurable p v (calls after committed) (
        calls-IsDurable p v after committed w'
          (commit-IsDurable p v s.checkpoint_lsn lsn t (calls before written) past pending))
