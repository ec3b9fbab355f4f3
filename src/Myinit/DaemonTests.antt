-- ===== src/Myinit/DaemonTests.antt =====
-- The descriptors of the supervisor and of its children, and the program as a whole, at concrete
-- inputs.
use unix_tasks.Prelude.{
  ◌≡◌, refl, true, false, some, none, ℕ, List, [], ◌∷◌, inr, arith, ltb, ◌==◌, if◌then◌else◌,
}
use unix_tasks.Myinit.Tests.{worker, memory, whole_file, pids, started, start_up-started}
use unix_tasks.Myinit.Children.{ends, no_child}
use unix_tasks.Myinit.Reaping.{AllWaited, waited}
use unix_tasks.Myinit.Life.{Turn, main_loop}
use unix_tasks.Myinit.Launch.{Launch, serves, as_daemon, main}
use unix_tasks.Myinit.Stopping.{Stopped, main-Stopped}
use unix_tasks.Myinit.Nap.{
  NapReply, elapsed, woken, returns, AddsUp, poll_ns, nap_from, short_sleep_poll,
  short_sleep_poll-AddsUp,
}
use unix_tasks.Myinit.Descriptors.{Fds, put_fd, dev_null, log_file, at_path, inherited, LowestFree}
use unix_tasks.Myinit.Daemon.{
  child, DaemonAnswers, max_fd, daemonize, ignore_job_control_signals, after_fork, in_child,
  open_log, attach_dev_null_stdio, write_pidfile_if_requested, write_pidfile,
  install_signal_handlers,
}
use unix_tasks.Myinit.Exec.{ChildAnswers, child_side}
use unix_tasks.Myinit.Inheriting.{StdioTaken, ChildInherits, child_side-ChildInherits}
use unix_tasks.Myinit.Detaching.{
  null_stdio_lem, Opens, DaemonHas, close_below_lem, daemonize-DaemonHas,
}

-- The table of the supervisor: `/dev/null` as 0, 1 and 2, and the log as 3.
abbrev supervisor_fds : Fds
supervisor_fds k = if ltb k 3 then some dev_null else if k == 3 then some log_file else none

stdio_taken : StdioTaken supervisor_fds
stdio_taken k h e = absurd (ground arith)

four_lowest : LowestFree supervisor_fds 4
four_lowest = record { is_free = refl; below_taken = λ k h e. absurd (ground arith) }

five_lowest : LowestFree (put_fd 4 (some (at_path worker.stdin_path)) supervisor_fds) 5
five_lowest = record { is_free = refl; below_taken = λ k h e. absurd (ground arith) }

abbrev runs_worker : ChildAnswers
runs_worker = record {
  in_opened = true;
  infd = 4;
  out_opened = true;
  outfd = 5;
  dup_in = true;
  dup_out = true;
  dup_err = true;
  executed = true;
}

child_side-ChildInherits_example :
    ChildInherits worker supervisor_fds (child_side worker runs_worker supervisor_fds)
child_side-ChildInherits_example =
    child_side-ChildInherits worker runs_worker supervisor_fds stdio_taken four_lowest five_lowest

-- A shell's table: a terminal as 0, 1 and 2, and something as 7.
abbrev shell_fds : Fds
shell_fds k = if ltb k 3 then some (inherited 0) else if k == 7 then some (inherited 7) else none

abbrev detaches : DaemonAnswers
detaches = record {
  parent_is_init = false;
  ttou = true;
  ttin = true;
  tstp = true;
  fork = child;
  session = true;
  rlimit_read = true;
  rlim_max = some 16;
  in_root = true;
  null = record { opened = true; fd = 0; dup_in = true; dup_out = true; dup_err = true };
  log_opened = true;
  log_fd = 3;
  pid = 77;
  pidfile = record { path = some (b'/' ∷ b'p' ∷ []); opened = true; fd = 4 };
}

detaches-Opens : Opens detaches shell_fds
unfolding max_fd
detaches-Opens = record {
  null_lowest = record {
    is_free = close_below_lem 16 shell_fds 0;
    below_taken = λ k h e. absurd (omega arith);
  };
  log_lowest = record {
    is_free = null_stdio_lem 16 shell_fds 3;
    below_taken = λ k h e. absurd (let table = null_stdio_lem 16 shell_fds k in ground arith);
  };
  pidfile_free = null_stdio_lem 16 shell_fds 4;
}

daemonize-DaemonHas_example : DaemonHas 16 shell_fds (daemonize detaches shell_fds)
unfolding max_fd
daemonize-DaemonHas_example = daemonize-DaemonHas detaches shell_fds (omega arith) detaches-Opens

abbrev launch : Launch
launch = record {
  path_copied = true;
  daemon = detaches;
  hup = true;
  term = true;
  int = true;
  pipe = true;
  file = whole_file;
  allocs = memory;
  table_given = true;
  forks = pids;
}

abbrev config_path : List (List ℕ)
config_path = (b'/' ∷ b'c' ∷ []) ∷ []

launch-serves : main config_path launch shell_fds [] ≡ serves started
unfolding main as_daemon main_loop daemonize ignore_job_control_signals after_fork in_child open_log
    attach_dev_null_stdio write_pidfile_if_requested write_pidfile install_signal_handlers
launch-serves = rw start_up-started refl

-- SIGTERM, and the child ends.
abbrev sigterm : Turn
sigterm = record {
  sighup = false;
  sigterm = true;
  reload_answers = record {
    masked = true;
    waits = [];
    file = whole_file;
    allocs = memory;
    table_given = true;
    restored = true;
  };
  last_waits = ends 7 15 ∷ no_child ∷ [];
  wait = no_child;
}

started-AllWaited : AllWaited started.children (waited sigterm.last_waits)
started-AllWaited q p h = ground arith

main-Stopped_example : Stopped started (main config_path launch shell_fds (sigterm ∷ []))
main-Stopped_example =
    main-Stopped sigterm started refl (inr refl, tt) tt started-AllWaited config_path launch
      shell_fds [] launch-serves

-- Two interruptions, the second by a handler that sets a flag.
abbrev broken_nap : List NapReply
broken_nap = woken 30000000 70000000 false ∷ woken 20000000 50000000 true ∷ elapsed ∷ []

naps : short_sleep_poll false broken_nap ≡ returns 50000000 50000000
unfolding short_sleep_poll nap_from
naps = refl

short_sleep_poll-AddsUp_example : AddsUp poll_ns (short_sleep_poll false broken_nap)
short_sleep_poll-AddsUp_example = short_sleep_poll-AddsUp false broken_nap (refl, (refl, tt))
