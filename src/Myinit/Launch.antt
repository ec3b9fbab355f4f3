-- ===== src/Myinit/Launch.antt =====
-- `main` of task3-myinit/myinit.c, from its arguments to what it returns.
use unix_tasks.Prelude.{ℕ, Bool, Option, none, some, List, [], ◌∷◌, Bytes, if◌then◌else◌}
use unix_tasks.Myinit.Config.{is_absolute_path}
use unix_tasks.Myinit.Files.{ConfigFile}
use unix_tasks.Myinit.Descriptors.{Fds, close_fd}
use unix_tasks.Myinit.Daemon.{
  DaemonAnswers, Daemon, parent_exits, fails, runs, daemonize, install_signal_handlers,
}
use unix_tasks.Myinit.Children.{Supervisor}
use unix_tasks.Myinit.Main.{Pass, continues, exits, stuck, crashes}
use unix_tasks.Myinit.Life.{Turn, start_up, main_loop}

-- What the kernel and the memory answer up to the main loop.
pub record Launch : Type 0 where
  pub path_copied : Bool
  pub daemon : DaemonAnswers
  pub hup : Bool
  pub term : Bool
  pub int : Bool
  pub pipe : Bool
  pub file : ConfigFile
  pub allocs : List Bool
  pub table_given : Bool
  pub forks : List (Option ℕ)

-- How the program stands: EXIT_FAILURE; `_exit(EXIT_SUCCESS)` of the parent; EXIT_SUCCESS, with the
-- globals and the descriptors at the end; in the main loop; waiting for ever; or crashed.
pub data Program : Type 0 where
  refuses : Program
  leaves_child : Program
  ends : Supervisor → Fds → Program
  serves : Supervisor → Program
  waits : Supervisor → Program
  crashed : Supervisor → Program

-- Behind the loop the log is closed.
abbrev pub after_loop : ℕ → Fds → Pass → Program
after_loop log_fd t (continues s) = serves s
after_loop log_fd t (exits s) = ends s (close_fd log_fd t)
after_loop log_fd t (stuck s) = waits s
after_loop log_fd t (crashes s) = crashed s

abbrev pub enter_loop : List Turn → ℕ → Fds → Option Supervisor → Program
enter_loop ts log_fd t none = refuses
enter_loop ts log_fd t (some s) = after_loop log_fd t (main_loop ts s)

-- Behind `daemonize`.
unfoldable pub as_daemon : Launch → List Turn → Daemon → Program
as_daemon a ts parent_exits = leaves_child
as_daemon a ts fails = refuses
as_daemon a ts (runs t log_fd written) =
    if install_signal_handlers a.hup a.term a.int a.pipe
    then enter_loop ts log_fd t (start_up a.file a.allocs a.table_given a.forks)
    else refuses

-- `argv` without the name of the program.
unfoldable pub main : List Bytes → Launch → Fds → List Turn → Program
main [] a t ts = refuses
main (path ∷ []) a t ts =
    if is_absolute_path path
    then (if a.path_copied then as_daemon a ts (daemonize a.daemon t) else refuses)
    else refuses
main (path ∷ more ∷ rest) a t ts = refuses
