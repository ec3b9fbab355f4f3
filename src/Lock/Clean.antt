-- ===== src/Lock/Clean.antt =====
-- Runs in which no system call fails: nobody gives up, and the lock file has an owner.
use unix_tasks.Prelude.{
  ℕ, suc, ◌≡◌, refl, ◌∙◌, Bool, true, false, some, List, [], ◌∷◌, arith, inl, inr, ◌⊎◌, Bytes, drop,
}
use unix_tasks.Lock.Worker.{
  Shared, Proc, Point, looping, creating, pausing, writing, closing, sleeping, opening, reading,
  draining, checking, unlinking, opening_stats, reporting, closing_stats, exited, failed, Event,
  success, interrupt, failure, sigint, retry, succeed, react, try_create, try_unlink, after_report,
  after_write, after_read, next_round,
}
use unix_tasks.Lock.Owner.{critical, Owns, IsPid, judge-pid_line, drain_empty}

-- No system call fails in these events.
abbrev pub is_failure : Event → Bool
is_failure (failure _) = true
is_failure _ = false

abbrev pub NoFailure : List (ℕ × Event) → Type 0
NoFailure [] = Unit
NoFailure ((i, e) ∷ es) = (is_failure e ≡ false) × NoFailure es

abbrev pub has_failed : Point → Bool
has_failed (failed _) = true
has_failed _ = false

after_write-critical : (fd : ℕ) (left : Bytes) → critical (after_write fd left) ≡ true
after_write-critical fd [] = refl
after_write-critical fd (c ∷ cs) = refl

after_read-critical : (fd : ℕ) (got chunk : Bytes) → critical (after_read fd got chunk) ≡ true
unfolding after_read
after_read-critical fd got chunk = ground arith

-- A holder that goes on has removed the entry or is still inside; nobody else makes one but by
-- entering.
succeed_keeps :
    (self : ℕ) (pt : Point) (k : ℕ) (sh : Shared) (p : Proc) (n : ℕ)
    → IsPid self
    → p.point ≡ pt
    → Owns sh self pt
    → (succeed self pt k sh p).0.entry ≡ some n
    → (critical (succeed self pt k sh p).1.point ≡ true)
      ⊎ ((critical pt ≡ false) × (sh.entry ≡ some n))
unfolding succeed try_create try_unlink
succeed_keeps self looping k sh p n h q o e = inr (refl, e)
succeed_keeps self creating k sh p n h q o e = ground arith
succeed_keeps self pausing k sh p n h q o e = inr (refl, e)
succeed_keeps self (writing fd left) k sh p n h q o e =
    inl (after_write-critical fd (drop (suc k) left))
succeed_keeps self closing k sh p n h q o e = inl refl
succeed_keeps self sleeping k sh p n h q o e = inl refl
succeed_keeps self opening k sh p n h q o e = rw e (inl refl)
succeed_keeps self (reading fd got) k sh p n h q o e = inl (after_read-critical fd got _)
succeed_keeps self (draining fd got) k sh p n h q o e =
    rw (drain_empty self fd k sh got o) (inl refl)
succeed_keeps self (checking got) k sh p n h q o e = rw (← o.1, judge-pid_line self h) (inl refl)
succeed_keeps self unlinking k sh p n h q o e = ground arith
succeed_keeps self opening_stats k sh p n h q o e = inr (refl, e)
succeed_keeps self (reporting left) k sh p n h q o e = inr (refl, e)
succeed_keeps self closing_stats k sh p n h q o e = inr (refl, e)
succeed_keeps self exited k sh p n h q o e = inr (refl, e)
succeed_keeps self (failed f) k sh p n h q o e = inr (refl, e)

next_round-unfailed : (p : Proc) → has_failed (next_round p) ≡ false
next_round-unfailed p = ground arith

after_write-unfailed : (fd : ℕ) (left : Bytes) → has_failed (after_write fd left) ≡ false
after_write-unfailed fd [] = refl
after_write-unfailed fd (c ∷ cs) = refl

after_report-unfailed : (left : Bytes) → has_failed (after_report left) ≡ false
after_report-unfailed [] = refl
after_report-unfailed (c ∷ cs) = refl

-- A call that succeeds does not make a process give up.
succeed-unfailed :
    (self : ℕ) (pt : Point) (k : ℕ) (sh : Shared) (p : Proc)
    → IsPid self
    → p.point ≡ pt
    → Owns sh self pt
    → has_failed pt ≡ false
    → has_failed (succeed self pt k sh p).1.point ≡ false
unfolding succeed try_create try_unlink after_read
succeed-unfailed self looping k sh p h q o u = ground arith
succeed-unfailed self creating k sh p h q o u = ground arith
succeed-unfailed self pausing k sh p h q o u = refl
succeed-unfailed self (writing fd left) k sh p h q o u = after_write-unfailed fd (drop (suc k) left)
succeed-unfailed self closing k sh p h q o u = refl
succeed-unfailed self sleeping k sh p h q o u = refl
succeed-unfailed self opening k sh p h q o u = ground arith
succeed-unfailed self (reading fd got) k sh p h q o u = ground arith
succeed-unfailed self (draining fd got) k sh p h q o u = rw (drain_empty self fd k sh got o) refl
succeed-unfailed self (checking got) k sh p h q o u = rw (← o.1, judge-pid_line self h) refl
succeed-unfailed self unlinking k sh p h q o u = ground arith
succeed-unfailed self opening_stats k sh p h q o u = refl
succeed-unfailed self (reporting left) k sh p h q o u = after_report-unfailed (drop (suc k) left)
succeed-unfailed self closing_stats k sh p h q o u = refl
succeed-unfailed self exited k sh p h q o u = rw q refl
succeed-unfailed self (failed f) k sh p h q o u = cc

-- An interrupted call neither enters the critical section nor leaves it.
retry_keeps :
    (pt : Point) (p : Proc)
    → p.point ≡ pt
    → (critical (retry pt p).point ≡ critical pt) × (has_failed (retry pt p).point ≡ has_failed pt)
unfolding retry
retry_keeps pausing p q = ground arith
retry_keeps sleeping p q = ground arith
retry_keeps _ p q = rw q (refl, refl)

pub react_keeps :
    (self : ℕ) (e : Event) (sh : Shared) (p : Proc) (n : ℕ)
    → is_failure e ≡ false
    → IsPid self
    → Owns sh self p.point
    → (react self e sh p).0.entry ≡ some n
    → (critical (react self e sh p).1.point ≡ true)
      ⊎ ((critical p.point ≡ false) × (sh.entry ≡ some n))
unfolding react
react_keeps self (success k) sh p n f h o e = succeed_keeps self p.point k sh p n h refl o e
react_keeps self interrupt sh p n f h o e = ground (arith, retry_keeps p.point p refl)
react_keeps self (failure x) sh p n f h o e = cc
react_keeps self sigint sh p n f h o e = ground arith

pub react-unfailed :
    (self : ℕ) (e : Event) (sh : Shared) (p : Proc)
    → is_failure e ≡ false
    → IsPid self
    → Owns sh self p.point
    → has_failed p.point ≡ false
    → has_failed (react self e sh p).1.point ≡ false
unfolding react
react-unfailed self (success k) sh p f h o u = succeed-unfailed self p.point k sh p h refl o u
react-unfailed self interrupt sh p f h o u = (retry_keeps p.point p refl).1 ∙ u
react-unfailed self (failure x) sh p f h o u = cc
react-unfailed self sigint sh p f h o u = u
