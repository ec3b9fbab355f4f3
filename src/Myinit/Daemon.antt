-- ===== src/Myinit/Daemon.antt =====
-- How the supervisor becomes a daemon: `daemonize` of task3-myinit/myinit.c and what it calls, and
-- the signal set-up.
use unix_tasks.Prelude.{
  ℕ, zero, suc, Bool, true, ◌&&◌, Option, none, some, [], ◌∷◌, ◌++◌, ltb, if◌then◌else◌, Bytes,
}
use unix_tasks.Text.Print.{print}
use unix_tasks.Myinit.Config.{is_absolute_path}
use unix_tasks.Myinit.Descriptors.{Fds, put_fd, close_fd, dup2, dev_null, log_file, at_path}

-- `sigaction` for SIGTTOU, SIGTTIN and SIGTSTP, unless the parent is process 1.
unfoldable pub ignore_job_control_signals : Bool → Bool → Bool → Bool → Bool
ignore_job_control_signals parent_is_init ttou ttin tstp =
    if parent_is_init then true else ttou && ttin && tstp

-- The limit of the loop in `close_all_fds`; `none` is RLIM_INFINITY.
unfoldable pub max_fd : Option ℕ → ℕ
max_fd none = 4096
max_fd (some rlim_max) = if ltb 65536 rlim_max then 65536 else rlim_max

-- `for (fd = 0; fd < maxfd; fd++) close(fd)`
unfoldable pub close_below : ℕ → Fds → Fds
close_below zero t = t
close_below (suc n) t = close_fd n (close_below n t)

-- What the kernel answers to `attach_dev_null_stdio`.
pub record NullAnswers : Type 0 where
  pub opened : Bool
  pub fd : ℕ
  pub dup_in : Bool
  pub dup_out : Bool
  pub dup_err : Bool

-- The table when every `dup2` has succeeded.
abbrev pub with_null_stdio : ℕ → Fds → Fds
with_null_stdio d t =
    let opened = put_fd d (some dev_null) t in
    let duped = dup2 d 2 (dup2 d 1 (dup2 d 0 opened)) in if ltb 2 d then close_fd d duped else duped

unfoldable pub attach_dev_null_stdio : NullAnswers → Fds → Option Fds
attach_dev_null_stdio a t =
    if a.opened && a.dup_in && a.dup_out && a.dup_err then some (with_null_stdio a.fd t) else none

-- MYINIT_PIDFILE, if it is set; whether the file is opened, and as which descriptor.
pub record PidfileAnswers : Type 0 where
  pub path : Option Bytes
  pub opened : Bool
  pub fd : ℕ

-- The table afterwards, and what `write_full` is given to write, if it is called.
unfoldable pub write_pidfile : ℕ → PidfileAnswers → Option Bytes → Fds → Fds × Option Bytes
write_pidfile pid a none t = (t, none)
write_pidfile pid a (some path) t =
    if is_absolute_path path && a.opened
    then (close_fd a.fd (put_fd a.fd (some (at_path path)) t), some (print pid ++ b'\n' ∷ []))
    else (t, none)

unfoldable pub write_pidfile_if_requested : ℕ → PidfileAnswers → Fds → Fds × Option Bytes
write_pidfile_if_requested pid a t = write_pidfile pid a a.path t

-- What `fork` returns.
pub data Fork : Type 0 where
  fork_failed parent child : Fork

-- What the kernel answers to `daemonize`, in the order of the calls.
pub record DaemonAnswers : Type 0 where
  pub parent_is_init : Bool
  pub ttou : Bool
  pub ttin : Bool
  pub tstp : Bool
  pub fork : Fork
  pub session : Bool
  pub rlimit_read : Bool
  pub rlim_max : Option ℕ
  pub in_root : Bool
  pub null : NullAnswers
  pub log_opened : Bool
  pub log_fd : ℕ
  pub pid : ℕ
  pub pidfile : PidfileAnswers

-- `_exit(EXIT_SUCCESS)` in the parent, -1, or 0 with the table, `log_fd`, and what was written into
-- the pid file.
pub data Daemon : Type 0 where
  parent_exits : Daemon
  fails : Daemon
  runs : Fds → ℕ → Option Bytes → Daemon

abbrev pub with_log : DaemonAnswers → Fds → Daemon
with_log a t =
    let (t', written) = write_pidfile_if_requested a.pid a.pidfile t in runs t' a.log_fd written

unfoldable pub open_log : DaemonAnswers → Option Fds → Daemon
open_log a none = fails
open_log a (some t) = if a.log_opened then with_log a (put_fd a.log_fd (some log_file) t) else fails

unfoldable pub in_child : DaemonAnswers → Fds → Daemon
in_child a t =
    if a.session && a.rlimit_read && a.in_root
    then open_log a (attach_dev_null_stdio a.null (close_below (max_fd a.rlim_max) t))
    else fails

unfoldable pub after_fork : DaemonAnswers → Fds → Fork → Daemon
after_fork a t fork_failed = fails
after_fork a t parent = parent_exits
after_fork a t child = in_child a t

unfoldable pub daemonize : DaemonAnswers → Fds → Daemon
daemonize a t =
    if ignore_job_control_signals a.parent_is_init a.ttou a.ttin a.tstp
    then after_fork a t a.fork
    else fails

-- `sigaction` for SIGHUP, SIGTERM, SIGINT and SIGPIPE.
unfoldable pub install_signal_handlers : Bool → Bool → Bool → Bool → Bool
install_signal_handlers hup term int pipe = hup && term && int && pipe
