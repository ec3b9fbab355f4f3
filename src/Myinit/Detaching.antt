-- ===== src/Myinit/Detaching.antt =====
-- Which descriptors the daemon has.
use unix_tasks.Prelude.{
  ℕ, zero, suc, ◌≡◌, ◌≤◌, refl, sym, ap, subst, ◌∙◌, true, ◌&&◌, Option, none, some, ◌==◌, ltb,
  lt→ltb, ltb→lt, arith, if◌then◌else◌, if_both, Bytes, Bool-cases, inl, inr,
}
use unix_tasks.Myinit.Config.{is_absolute_path}
use unix_tasks.Myinit.Descriptors.{
  OpenFile, Fds, put_fd, close_fd, dev_null, log_file, at_path, LowestFree,
}
use unix_tasks.Myinit.Daemon.{
  max_fd, close_below, with_null_stdio, attach_dev_null_stdio, PidfileAnswers, write_pidfile,
  write_pidfile_if_requested, Fork, fork_failed, parent, child, DaemonAnswers, Daemon, parent_exits,
  fails, runs, open_log, in_child, after_fork, daemonize, ignore_job_control_signals,
}

pub close_below_lem :
    (n : ℕ) (t : Fds) (k : ℕ) → close_below n t k ≡ (if ltb k n then none else t k)
unfolding close_below
close_below_lem zero t k = ground arith
close_below_lem (suc n) t k = ground (arith, close_below_lem n t k)

-- The lowest descriptor of a table in which 0 is free is 0.
lowest-zero : (t : Fds) (fd : ℕ) → t 0 ≡ none → LowestFree t fd → fd ≡ 0
lowest-zero t zero h l = refl
lowest-zero t (suc fd) h l = absurd (l.below_taken 0 (omega arith) h)

-- `/dev/null` as 0, 1 and 2, and nothing else below the limit.
pub null_stdio_lem :
    (n : ℕ) (t : Fds) (k : ℕ)
    → with_null_stdio 0 (close_below n t) k
      ≡ (if ltb k 3 then some dev_null else if ltb k n then none else t k)
null_stdio_lem n t k = ground (arith, close_below_lem n t k)

-- The table of the daemon: `/dev/null` as 0, 1 and 2, the log as 3, nothing else below the limit.
abbrev pub daemon_fds : ℕ → Fds → Fds
daemon_fds n t k =
    if ltb k 3
    then some dev_null
    else if k == 3
    then some log_file
    else if ltb k n
    then none
    else t k

some_below :
    (n : ℕ) (t : Fds) (fd : ℕ) (f : OpenFile) (g : Option OpenFile)
    → (if ltb fd 3 then some f else g) ≡ none
    → 3 ≤ fd
some_below n t fd f g h = ground arith

three_free : (n : ℕ) (t : Fds) → 4 ≤ n → with_null_stdio 0 (close_below n t) 3 ≡ none
three_free n t h =
    let below : ltb 3 n ≡ true = lt→ltb 3 n (omega arith) in null_stdio_lem n t 3 ∙ rw below refl

lowest-three :
    (n : ℕ) (t : Fds) (fd : ℕ)
    → 4 ≤ n
    → LowestFree (with_null_stdio 0 (close_below n t)) fd
    → fd ≡ 3
lowest-three n t fd h l =
    let low = some_below n t fd dev_null _ (sym (null_stdio_lem n t fd) ∙ l.is_free) in
    elim (Bool-cases (ltb 3 fd)) [
      | inl high ↦ absurd (l.below_taken 3 (ltb→lt 3 fd high) (three_free n t h))
      | inr at_most ↦ ground arith
    ]

with_log_lem :
    (n : ℕ) (t : Fds) (k : ℕ)
    → put_fd 3 (some log_file) (with_null_stdio 0 (close_below n t)) k ≡ daemon_fds n t k
with_log_lem n t k = ground (arith, null_stdio_lem n t k)

-- A descriptor that was free, opened and closed leaves the table as it was.
close_fd-put_fd :
    (fd : ℕ) (f : OpenFile) (t : Fds) (k : ℕ)
    → t fd ≡ none
    → close_fd fd (put_fd fd (some f) t) k ≡ t k
close_fd-put_fd fd f t k h = ground arith

write_pidfile-table :
    (pid : ℕ) (a : PidfileAnswers) (o : Option Bytes) (t : Fds) (k : ℕ)
    → t a.fd ≡ none
    → (write_pidfile pid a o t).0 k ≡ t k
unfolding write_pidfile
write_pidfile-table pid a none t k h = refl
write_pidfile-table pid a (some path) t k h =
    if_both (λ (r : Fds × Option Bytes). r.0 k ≡ t k) (is_absolute_path path && a.opened)
      (close_fd-put_fd a.fd (at_path path) t k h) refl

abbrev pub DaemonHas : ℕ → Fds → Daemon → Type 0
DaemonHas n t (runs t' log_fd written) = (log_fd ≡ 3) × ((k : ℕ) → t' k ≡ daemon_fds n t k)
DaemonHas n t parent_exits = Unit
DaemonHas n t fails = Unit

-- What POSIX says of the descriptors that the three calls of `open` give.
pub record Opens (a : DaemonAnswers) (t : Fds) : Type 0 where
  pub null_lowest : LowestFree (close_below (max_fd a.rlim_max) t) a.null.fd
  pub log_lowest :
      LowestFree (with_null_stdio a.null.fd (close_below (max_fd a.rlim_max) t)) a.log_fd
  pub pidfile_free :
      put_fd a.log_fd
        (some log_file)
        (with_null_stdio a.null.fd (close_below (max_fd a.rlim_max) t))
        a.pidfile.fd
      ≡ none

open_log-DaemonHas :
    (a : DaemonAnswers) (t : Fds)
    → 4 ≤ max_fd a.rlim_max
    → Opens a t
    → DaemonHas
        (max_fd a.rlim_max)
        t
        (open_log a (some (with_null_stdio a.null.fd (close_below (max_fd a.rlim_max) t))))
unfolding open_log write_pidfile_if_requested
open_log-DaemonHas a t h o =
    let n = max_fd a.rlim_max in
    let zero_free : close_below n t 0 ≡ none =
      close_below_lem n t 0 ∙ (let below = lt→ltb 0 n (omega arith) in rw below refl) in
    let null_zero = lowest-zero (close_below n t) a.null.fd zero_free o.null_lowest in
    let log_three = lowest-three n t a.log_fd h (
      subst (λ d. LowestFree (with_null_stdio d (close_below n t)) a.log_fd) null_zero
        o.log_lowest) in
    let table = put_fd a.log_fd (some log_file) (with_null_stdio a.null.fd (close_below n t)) in
    if_both (DaemonHas n t) a.log_opened
      (
        log_three,
        λ k.
            write_pidfile-table a.pid a.pidfile a.pidfile.path table k o.pidfile_free
            ∙ ap (λ d. put_fd d (some log_file) (with_null_stdio a.null.fd (close_below n t)) k)
                log_three
            ∙ ap (λ d. put_fd 3 (some log_file) (with_null_stdio d (close_below n t)) k) null_zero
            ∙ with_log_lem n t k,
      )
      tt

attached-DaemonHas :
    (a : DaemonAnswers) (t : Fds)
    → 4 ≤ max_fd a.rlim_max
    → Opens a t
    → DaemonHas
        (max_fd a.rlim_max)
        t
        (open_log a (attach_dev_null_stdio a.null (close_below (max_fd a.rlim_max) t)))
unfolding attach_dev_null_stdio
attached-DaemonHas a t h o =
    if_both (λ (x : Option Fds). DaemonHas (max_fd a.rlim_max) t (open_log a x))
      (a.null.opened && a.null.dup_in && a.null.dup_out && a.null.dup_err)
      (open_log-DaemonHas a t h o) (unfold open_log in tt)

after_fork-DaemonHas :
    (a : DaemonAnswers) (t : Fds) (f : Fork)
    → 4 ≤ max_fd a.rlim_max
    → Opens a t
    → DaemonHas (max_fd a.rlim_max) t (after_fork a t f)
unfolding after_fork in_child
after_fork-DaemonHas a t fork_failed h o = tt
after_fork-DaemonHas a t parent h o = tt
after_fork-DaemonHas a t child h o =
    if_both (DaemonHas (max_fd a.rlim_max) t) (a.session && a.rlimit_read && a.in_root)
      (attached-DaemonHas a t h o) tt

-- When the limit on descriptors is 4 at least, and `open` gives the lowest free descriptor as POSIX
-- says: the daemon runs with `/dev/null` as 0, 1 and 2, its log as 3 and nothing else below the
-- limit, also behind the pid file; what stood at the limit of the loop or above it stays open.
pub daemonize-DaemonHas :
    (a : DaemonAnswers) (t : Fds)
    → 4 ≤ max_fd a.rlim_max
    → Opens a t
    → DaemonHas (max_fd a.rlim_max) t (daemonize a t)
unfolding daemonize
daemonize-DaemonHas a t h o =
    if_both (DaemonHas (max_fd a.rlim_max) t)
      (ignore_job_control_signals a.parent_is_init a.ttou a.ttin a.tstp)
      (after_fork-DaemonHas a t a.fork h o) tt
