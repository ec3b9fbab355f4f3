-- ===== src/Myinit/Stopping.antt =====
-- How the supervisor stops, from its start to what it returns.
use unix_tasks.Prelude.{
  ℕ, ◌≡◌, refl, sym, ap, subst, ◌∙◌, Bool, true, false, ◌||◌, Option, none, some, List, [], ◌∷◌,
  ◌++◌, arith, Bytes, Bool-cases, inl, inr,
}
use unix_tasks.Myinit.Config.{is_absolute_path}
use unix_tasks.Myinit.Descriptors.{Fds, close_fd}
use unix_tasks.Myinit.Daemon.{Daemon, parent_exits, fails, runs, daemonize, install_signal_handlers}
use unix_tasks.Myinit.Children.{Supervisor, Wait, count_running_children, running, shutdown_myinit}
use unix_tasks.Myinit.Reaping.{Distinct, Exhausted, AllWaited, waited, shutdown_myinit-empty}
use unix_tasks.Myinit.Main.{
  ReloadAnswers, Pass, continues, exits, stuck, crashes, ended, shut_down, main_pass,
}
use unix_tasks.Myinit.Life.{Turn, deliver, and_then, main_loop}
use unix_tasks.Myinit.Launch.{
  Launch, Program, refuses, leaves_child, ends, serves, waits, crashed, after_loop, enter_loop,
  as_daemon, main,
}

-- The signal finds the loop in `s`: the loop is left, with no child in the table and SIGTERM sent
-- to those that ran.
pub record Stops (s : Supervisor) (p : Pass) : Type 0 where
  pub last : Supervisor
  pub leaves : p ≡ exits last
  pub nobody_runs : count_running_children last.children ≡ 0
  pub all_signalled : last.signalled ≡ s.signalled ++ running s.children

and_then_assoc :
    (p : Pass) (f g h : Supervisor → Pass)
    → ((s : Supervisor) → h s ≡ and_then (f s) g)
    → and_then p h ≡ and_then (and_then p f) g
and_then_assoc (continues s) f g h e = e s
and_then_assoc (exits s) f g h e = refl
and_then_assoc (stuck s) f g h e = refl
and_then_assoc (crashes s) f g h e = refl

main_loop-append :
    (ts us : List Turn) (s : Supervisor)
    → main_loop (ts ++ us) s ≡ and_then (main_loop ts s) (λ s'. main_loop us s')
unfolding main_loop
main_loop-append [] us s = refl
main_loop-append (t ∷ ts) us s = and_then_assoc _ _ _ _ (main_loop-append ts us)

or-true : (b : Bool) → (b || true) ≡ true
or-true true = refl
or-true false = refl

ended-Stops :
    (s : Supervisor) (r : Bool × Supervisor)
    → r.0 ≡ true
    → count_running_children r.1.children ≡ 0
    → r.1.signalled ≡ s.signalled ++ running s.children
    → Stops s (ended r)
ended-Stops s (true, last) e none_left told = record {
  last = last;
  leaves = refl;
  nobody_runs = none_left;
  all_signalled = told;
}
ended-Stops s (false, last) e none_left told = absurd (ground arith)

and_then-Stops :
    (s : Supervisor) (p : Pass) (next : Supervisor → Pass) → Stops s p → Stops s (and_then p next)
and_then-Stops s p next h = record {
  last = h.last;
  leaves = ap (λ q. and_then q next) h.leaves;
  nobody_runs = h.nobody_runs;
  all_signalled = h.all_signalled;
}

main_pass-shut_down :
    (r : ReloadAnswers) (ws : List Wait) (w : Wait) (s : Supervisor)
    → s.shutdown_requested ≡ true
    → main_pass r ws w s ≡ shut_down ws s
unfolding main_pass
main_pass-shut_down r ws w s e = rw e refl

-- A pass that finds SIGTERM or SIGINT.
turn-Stops :
    (t : Turn) (s : Supervisor)
    → t.sigterm ≡ true
    → Distinct s.children
    → Exhausted t.last_waits
    → AllWaited s.children (waited t.last_waits)
    → Stops s (main_loop (t ∷ []) s)
unfolding main_loop
turn-Stops t s term d x h =
    let (returns, none_left, told) = shutdown_myinit-empty t.last_waits (deliver t s) d x h in
    let flagged : (deliver t s).shutdown_requested ≡ true =
      ap (λ b. s.shutdown_requested || b) term ∙ or-true s.shutdown_requested in
    and_then-Stops s _ _ (
      subst (Stops s)
        (sym (main_pass-shut_down t.reload_answers t.last_waits t.wait (deliver t s) flagged))
        (ended-Stops s (shutdown_myinit t.last_waits (deliver t s)) returns none_left told))

-- The program has returned EXIT_SUCCESS, with no child in the table and SIGTERM sent to those of `s`.
pub record Stopped (s : Supervisor) (p : Program) : Type 0 where
  pub last : Supervisor
  pub fds : Fds
  pub returned : p ≡ ends last fds
  pub nobody_runs : count_running_children last.children ≡ 0
  pub all_signalled : last.signalled ≡ s.signalled ++ running s.children

-- The state of a program that is in its loop.
serving : Program → Supervisor → Supervisor
serving (serves s) other = s
serving refuses other = other
serving leaves_child other = other
serving (ends s t) other = other
serving (waits s) other = other
serving (crashed s) other = other

after_loop-serves :
    (log_fd : ℕ) (t : Fds) (p : Pass) (s : Supervisor)
    → after_loop log_fd t p ≡ serves s
    → p ≡ continues s
unfolding serving
after_loop-serves log_fd t (continues s') s e = ap (λ p. continues (serving p s)) e
after_loop-serves log_fd t (exits s') s e = absurd (ground arith)
after_loop-serves log_fd t (stuck s') s e = absurd (ground arith)
after_loop-serves log_fd t (crashes s') s e = absurd (ground arith)

after_loop-Stopped :
    (log_fd : ℕ) (t : Fds) (s : Supervisor) (p : Pass)
    → Stops s p
    → Stopped s (after_loop log_fd t p)
after_loop-Stopped log_fd t s p h = record {
  last = h.last;
  fds = close_fd log_fd t;
  returned = ap (after_loop log_fd t) h.leaves;
  nobody_runs = h.nobody_runs;
  all_signalled = h.all_signalled;
}

module _ (final : Turn) (s : Supervisor) (term : final.sigterm ≡ true)
    (different : Distinct s.children) (exhausted : Exhausted final.last_waits)
    (all_waited : AllWaited s.children (waited final.last_waits)) where
  enter_loop-Stopped :
      (ts : List Turn) (log_fd : ℕ) (t : Fds) (o : Option Supervisor)
      → enter_loop ts log_fd t o ≡ serves s
      → Stopped s (enter_loop (ts ++ final ∷ []) log_fd t o)
  enter_loop-Stopped ts log_fd t none e = absurd (ground arith)
  enter_loop-Stopped ts log_fd t (some s0) e = after_loop-Stopped log_fd t s _ (
      subst (Stops s)
        (sym (
          main_loop-append ts (final ∷ []) s0
          ∙ ap (λ p. and_then p (main_loop (final ∷ [])))
              (after_loop-serves log_fd t (main_loop ts s0) s e)))
        (turn-Stops final s term different exhausted all_waited))

  as_daemon-Stopped :
      (a : Launch) (ts : List Turn) (d : Daemon)
      → as_daemon a ts d ≡ serves s
      → Stopped s (as_daemon a (ts ++ final ∷ []) d)
  unfolding as_daemon
  as_daemon-Stopped a ts parent_exits e = absurd (ground arith)
  as_daemon-Stopped a ts fails e = absurd (ground arith)
  as_daemon-Stopped a ts (runs t log_fd written) e =
      elim (Bool-cases (install_signal_handlers a.hup a.term a.int a.pipe)) [
        | inl installed ↦
            let e' = rw installed at e in rw installed (enter_loop-Stopped ts log_fd t _ e')
        | inr refused ↦ absurd (let e' = rw refused at e in ground arith)
      ]

  -- Once the program is in its main loop, a SIGTERM or SIGINT ends it: when the pids in its table are
  -- different, and `waitpid` gives each of them before it says that there are no children (and
  -- perhaps others, in any order, with interruptions between them), then it sends SIGTERM to exactly
  -- the children that ran, waits for them all, and returns EXIT_SUCCESS with no child in its table.
  pub main-Stopped :
      (args : List Bytes) (a : Launch) (t : Fds) (ts : List Turn)
      → main args a t ts ≡ serves s
      → Stopped s (main args a t (ts ++ final ∷ []))
  unfolding main as_daemon
  main-Stopped [] a t ts e = absurd (ground arith)
  main-Stopped (path ∷ more ∷ rest) a t ts e = absurd (ground arith)
  main-Stopped (path ∷ []) a t ts e = elim (Bool-cases (is_absolute_path path)) [
    | inr relative ↦ absurd (let e' = rw relative at e in ground arith)
    | inl absolute ↦ elim (Bool-cases a.path_copied) [
      | inr no_memory ↦ absurd (let e' = rw (absolute, no_memory) at e in ground arith)
      | inl copied ↦
          let e' = rw (absolute, copied) at e in
          rw (absolute, copied) (as_daemon-Stopped a ts (daemonize a.daemon t) e')
    ]
  ]
