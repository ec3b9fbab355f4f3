-- ===== src/Lock/Exclusion.antt =====
-- Mutual exclusion over every interleaving of any number of lock programs.
use unix_tasks.Prelude.{
  ℕ, ◌≡◌, ◌≢◌, subst, true, false, List, [], ◌∷◌, arith, ◌==◌, ==_iff, Bool-cases, inl, inr,
}
use unix_tasks.Lock.Worker.{Shared, Proc, checking, judge, verify_ok, Event, react}
use unix_tasks.Lock.System.{System, set_proc, act, run, initial}
use unix_tasks.Lock.Owner.{critical, Owns, IsPid, judge-pid_line}
use unix_tasks.Lock.Frame.{
  SameLock, react-Owns, react-SameLock, Owns-outside, Owns-entry, Owns-SameLock,
}

module _ (pid : ℕ → ℕ) (pids : (i : ℕ) → IsPid (pid i)) where
  -- Every process owns what its place in the code says, and one at most is in the critical section.
  pub record Inv (s : System) : Type 0 where
    pub owned : (i : ℕ) → Owns s.shared (pid i) (s.proc i).point
    pub alone :
        (i j : ℕ) → critical (s.proc i).point ≡ true → critical (s.proc j).point ≡ true → i ≡ j

  module _ (i : ℕ) (e : Event) (s : System) (inv : Inv s) where
    abbrev after : Shared × Proc
    after = react (pid i) e s.shared (s.proc i)

    -- Another process in the critical section: the one that acts is outside, and stays there.
    apart :
        (j : ℕ)
        → i ≢ j
        → critical (s.proc j).point ≡ true
        → SameLock s.shared after.0 × (critical after.1.point ≡ false)
    apart j ne c = elim (Bool-cases (critical (s.proc i).point)) [
      | inl inside ↦ absurd (ne (inv.alone i j inside c))
      | inr outside ↦
          react-SameLock (pid i) e s.shared (s.proc i) outside
            (Owns-entry s.shared (pid j) (s.proc j).point c (inv.owned j)).1
    ]

    other-Owns : (j : ℕ) → i ≢ j → Owns after.0 (pid j) (s.proc j).point
    other-Owns j ne = elim (Bool-cases (critical (s.proc j).point)) [
      | inl c ↦
          Owns-SameLock s.shared after.0 (pid j) (s.proc j).point (apart j ne c).0 (inv.owned j)
      | inr c ↦ Owns-outside after.0 (pid j) (s.proc j).point c
    ]

    act-owned : (j : ℕ) → Owns after.0 (pid j) (set_proc s.proc i after.1 j).point
    act-owned j = elim (Bool-cases (i == j)) [
      | inl same ↦ rw same (
          subst (λ a. Owns after.0 (pid a) after.1.point) ((==_iff i j).0 same)
            (react-Owns (pid i) e s.shared (s.proc i) (pids i) (inv.owned i)))
      | inr other ↦ rw other (other-Owns j (ground arith))
    ]

    act-alone :
        (a b : ℕ)
        → critical (set_proc s.proc i after.1 a).point ≡ true
        → critical (set_proc s.proc i after.1 b).point ≡ true
        → a ≡ b
    act-alone a b ca cb = ground (arith, apart a, apart b, inv.alone a b)

  pub act-Inv : (i : ℕ) (e : Event) (s : System) → Inv s → Inv (act pid i e s)
  unfolding act
  act-Inv i e s inv = record { owned = act-owned i e s inv; alone = act-alone i e s inv }

  pub run-Inv : (es : List (ℕ × Event)) (s : System) → Inv s → Inv (run pid es s)
  unfolding run
  run-Inv [] s inv = inv
  run-Inv ((i, e) ∷ es) s inv = run-Inv es (act pid i e s) (act-Inv i e s inv)

  pub initial-Inv : Inv initial
  initial-Inv = record { owned = λ i. tt; alone = λ i j c d. cc }

  -- Mutual exclusion: whatever the processes, the kernel and the signals do, no two processes are
  -- ever between the creation of the lock file and its removal.
  pub mutual_exclusion :
      (es : List (ℕ × Event)) (i j : ℕ)
      → critical ((run pid es initial).proc i).point ≡ true
      → critical ((run pid es initial).proc j).point ≡ true
      → i ≡ j
  mutual_exclusion es = (run-Inv es initial initial-Inv).alone

  -- The check before the removal never goes wrong: once a process has read the lock file, the
  -- file names that process, so `verify_lock_file_owner` answers VERIFY_OK.
  pub verification_succeeds :
      (es : List (ℕ × Event)) (i : ℕ) {got : List ℕ}
      → ((run pid es initial).proc i).point ≡ checking got
      → judge (pid i) got ≡ verify_ok
  verification_succeeds es i {got} e =
      let o = rw e at ((run-Inv es initial initial-Inv).owned i) in
      rw (← o.1) (judge-pid_line (pid i) (pids i))
