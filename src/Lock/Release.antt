-- ===== src/Lock/Release.antt =====
-- In a run in which no system call fails no process gives up, and an abandoned lock file does not
-- stay behind.
use unix_tasks.Prelude.{ℕ, ◌≡◌, ◌≢◌, refl, true, false, some, List, [], ◌∷◌, arith, inl, inr}
use unix_tasks.Lock.Worker.{Shared, Proc, Event, react}
use unix_tasks.Lock.System.{System, set_proc, act, run, initial}
use unix_tasks.Lock.Owner.{critical, IsPid}
use unix_tasks.Lock.Exclusion.{Inv, act-Inv, initial-Inv}
use unix_tasks.Lock.Clean.{is_failure, NoFailure, has_failed, react_keeps, react-unfailed}

-- Somebody holds the lock file that is there, and nobody has given up.
pub record Clean (s : System) : Type 0 where
  pub working : (i : ℕ) → has_failed (s.proc i).point ≡ false
  pub owner : (n : ℕ) → s.shared.entry ≡ some n → (i : ℕ) × (critical (s.proc i).point ≡ true)

set_proc_self : (f : ℕ → Proc) (i : ℕ) (p : Proc) → set_proc f i p i ≡ p
set_proc_self f i p = ground arith

set_proc_other : (f : ℕ → Proc) (i j : ℕ) (p : Proc) → i ≢ j → set_proc f i p j ≡ f j
set_proc_other f i j p ne = ground arith

module _ (pid : ℕ → ℕ) (pids : (i : ℕ) → IsPid (pid i)) where
  act-Clean :
      (i : ℕ) (e : Event) (s : System)
      → is_failure e ≡ false
      → Inv pid pids s
      → Clean s
      → Clean (act pid i e s)
  unfolding act
  act-Clean i e s f inv v = record { working = working; owner = owner }
    where
      after : Shared × Proc
      after = react (pid i) e s.shared (s.proc i)

      working : (j : ℕ) → has_failed (set_proc s.proc i after.1 j).point ≡ false
      working j = ground (
        arith,
        v.working j,
        react-unfailed (pid i) e s.shared (s.proc i) f (pids i) (inv.owned i) (v.working i),
      )

      Held : Type 0
      Held = (j : ℕ) × (critical (set_proc s.proc i after.1 j).point ≡ true)

      old_owner :
          critical (s.proc i).point ≡ false → (j : ℕ) × (critical (s.proc j).point ≡ true) → Held
      old_owner outside (j, c) = (j, ground arith)

      owner : (n : ℕ) → after.0.entry ≡ some n → Held
      owner n q = elim (react_keeps (pid i) e s.shared (s.proc i) n f (pids i) (inv.owned i) q) [
        | inl inside ↦ (i, rw (set_proc_self s.proc i after.1) inside)
        | inr (outside, was) ↦ old_owner outside (v.owner n was)
      ]

  run-Clean :
      (es : List (ℕ × Event)) (s : System)
      → NoFailure es
      → Inv pid pids s
      → Clean s
      → Clean (run pid es s)
  unfolding run
  run-Clean [] s f inv v = v
  run-Clean ((i, e) ∷ es) s f inv v =
      run-Clean es (act pid i e s) (f.1) (act-Inv pid pids i e s inv) (act-Clean i e s (f.0) inv v)

  initial-Clean : Clean initial
  initial-Clean = record { working = λ i. refl; owner = λ n e. cc }

  -- In a run in which no system call fails, no process ever exits with EXIT_FAILURE, whatever the
  -- interleaving, the signals and the short reads and writes.
  pub nobody_fails :
      (es : List (ℕ × Event)) (i : ℕ)
      → NoFailure es
      → has_failed ((run pid es initial).proc i).point ≡ false
  nobody_fails es i f = (run-Clean es initial f (initial-Inv pid pids) initial-Clean).working i

  -- In a run in which no system call fails, whatever the interleaving and the signals, the lock file
  -- is there only while some process is between its creation and its removal: no lock is left behind.
  pub no_stale_lock :
      (es : List (ℕ × Event)) (n : ℕ)
      → NoFailure es
      → (run pid es initial).shared.entry ≡ some n
      → (i : ℕ) × (critical ((run pid es initial).proc i).point ≡ true)
  no_stale_lock es n f e = (run-Clean es initial f (initial-Inv pid pids) initial-Clean).owner n e
