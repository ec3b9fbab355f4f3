-- ===== src/Myinit/Tests.antt =====
-- Runs of the supervisor's parts, and the theorems at concrete inputs.
use unix_tasks.Prelude.{
  ◌≡◌, refl, ap, Bool, true, false, some, none, Option, ℕ, List, [], ◌∷◌, ◌++◌, inr, arith,
}
use unix_tasks.Kernel.{ReadReply, gives}
use unix_tasks.Myinit.Config.{
  ConfigEntry, validate_entry_paths, tokens_onto, tokens_of, join_onto, build_cmd_for_log, allocate,
}
use unix_tasks.Myinit.Children.{
  no_change, reap_children, Supervisor, Wait, ends, interrupted, no_child, find_child_index,
  count_running_children, running, set_child, forked, spawn_from, start, reap_at, shutdown_myinit,
}
use unix_tasks.Myinit.Reaping.{waited, AllWaited, shutdown_myinit-empty}
use unix_tasks.Myinit.Main.{
  reload_config, after_reap, after_load, with_entries, after_spawn, ReloadAnswers, continues,
  main_pass, polled, handle_exit,
}
use unix_tasks.Myinit.Full.{IsFull, ContinuesFull}
use unix_tasks.Myinit.Passes.{main_pass-ContinuesFull}
use unix_tasks.Myinit.Life.{Turn, with_config, after_parse, start_up, main_loop, main_loop-start_up}
use unix_tasks.Myinit.Tokens.{tokens_of-build_cmd_for_log}
use unix_tasks.Myinit.Entries.{IsRunnable}
use unix_tasks.Myinit.Files.{ConfigFile, loaded, parse_config_file}
use unix_tasks.Myinit.RoundTrip.{parse_config_file-print_config}
use unix_tasks.Myinit.Loading.{LoadRunnable, parse_config_file-LoadRunnable}

-- `/w a /i /o`
abbrev pub worker : ConfigEntry
worker = record {
  argv = (b'/' ∷ b'w' ∷ []) ∷ (b'a' ∷ []) ∷ [];
  stdin_path = b'/' ∷ b'i' ∷ [];
  stdout_path = b'/' ∷ b'o' ∷ [];
  cmd_for_log = b'/' ∷ b'w' ∷ b' ' ∷ b'a' ∷ [];
}

worker-IsRunnable : IsRunnable worker
unfolding validate_entry_paths join_onto
worker-IsRunnable = record {
  arguments = ((refl, (refl, tt)), ((refl, tt), tt));
  input = (refl, (refl, tt));
  output = (refl, (refl, tt));
  paths = refl;
  fits = omega arith;
  logged = refl;
}

abbrev pub memory : List Bool
memory = true ∷ true ∷ true ∷ true ∷ true ∷ true ∷ true ∷ true ∷ []

-- The file has lost its last two bytes since `fstat`, and rubbish stands behind what was read.
abbrev worker_file : ConfigFile
worker_file = record {
  opened = true;
  st_size = some 13;
  contents = b'/' ∷ b'w' ∷ b' ' ∷ b'a' ∷ b' ' ∷ b'/' ∷ b'i' ∷ b' ' ∷ b'/' ∷ b'o' ∷ b'\n' ∷ [];
  reads = gives 20 ∷ gives 0 ∷ [];
  garbage = b'#' ∷ b'\n' ∷ [];
}

tokens-skip_blanks :
    tokens_of (b' ' ∷ b'a' ∷ b'\t' ∷ b' ' ∷ b'b' ∷ []) ≡ (b'a' ∷ []) ∷ (b'b' ∷ []) ∷ []
unfolding tokens_onto
tokens-skip_blanks = refl

tokens_of-build_cmd_for_log_example :
    tokens_of (build_cmd_for_log ((b'/' ∷ b'w' ∷ []) ∷ (b'a' ∷ []) ∷ []))
    ≡ (b'/' ∷ b'w' ∷ []) ∷ (b'a' ∷ []) ∷ []
tokens_of-build_cmd_for_log_example =
    tokens_of-build_cmd_for_log ((b'/' ∷ b'w' ∷ []) ∷ (b'a' ∷ []) ∷ [])
      ((refl, (refl, tt)), ((refl, tt), tt))

-- Read in two pieces, with an interruption between them.
abbrev pub whole_file : ConfigFile
whole_file = record {
  opened = true;
  st_size = some 11;
  contents = b'/' ∷ b'w' ∷ b' ' ∷ b'a' ∷ b' ' ∷ b'/' ∷ b'i' ∷ b' ' ∷ b'/' ∷ b'o' ∷ b'\n' ∷ [];
  reads =
      gives 4
      ∷ ReadReply.interrupted
      ∷ gives 9
      ∷ gives 0
      ∷ gives 0
      ∷ gives 0
      ∷ gives 0
      ∷ gives 0
      ∷ gives 0
      ∷ gives 0
      ∷ gives 0
      ∷ gives 0
      ∷ [];
  garbage = b'#' ∷ [];
}

parse_config_file-print_config_example :
    parse_config_file whole_file memory ≡ loaded (record { entries = worker ∷ []; allocs = [] })
unfolding join_onto allocate
parse_config_file-print_config_example =
    parse_config_file-print_config (worker ∷ []) whole_file memory [] (worker-IsRunnable, tt)
      ((refl, (refl, (refl, (refl, (refl, (refl, (refl, (refl, (refl, (refl, tt)))))))))), tt) refl
      refl refl (omega arith) tt (omega arith) refl

parse_config_file-LoadRunnable_example : LoadRunnable (parse_config_file worker_file memory)
parse_config_file-LoadRunnable_example = parse_config_file-LoadRunnable worker_file memory

-- Two children run, and `fork` has a third pid to give.
abbrev at_work : Supervisor
at_work = record {
  entries = worker ∷ worker ∷ [];
  children = 11 ∷ 12 ∷ [];
  reload_requested = false;
  shutdown_requested = false;
  reloading = false;
  shutting_down = false;
  log = [];
  signalled = [];
  forks = some 13 ∷ [];
}

at_work-IsFull : IsFull at_work
at_work-IsFull = record {
  some_entry = omega arith;
  one_place = refl;
  taken = (omega arith, (omega arith, tt));
  positive = (omega arith, tt);
  not_reloading = refl;
  not_shutting_down = refl;
}

abbrev no_reload : ReloadAnswers
no_reload = record {
  masked = true;
  waits = [];
  file = whole_file;
  allocs = memory;
  table_given = true;
  restored = true;
}

-- The second child has ended and is started again.
restarts-second :
    (elim (main_pass no_reload [] (ends 12 0) at_work) [ continues s ↦ s.children | _ ↦ [] ])
    ≡ 11 ∷ 13 ∷ []
unfolding main_pass polled handle_exit find_child_index reap_at forked set_child
restarts-second = refl

main_pass-ContinuesFull_example : ContinuesFull (main_pass no_reload [] (ends 12 0) at_work)
main_pass-ContinuesFull_example =
    main_pass-ContinuesFull no_reload [] (ends 12 0) at_work at_work-IsFull

abbrev last_waits : List Wait
last_waits = ends 12 15 ∷ interrupted ∷ ends 40 0 ∷ ends 11 15 ∷ no_child ∷ []

at_work-AllWaited : AllWaited at_work.children (waited last_waits)
at_work-AllWaited q p h = ground arith

shutdown_myinit-empty_example :
    ((shutdown_myinit last_waits at_work).0 ≡ true)
    × (count_running_children (shutdown_myinit last_waits at_work).1.children ≡ 0)
    × ((shutdown_myinit last_waits at_work).1.signalled ≡ [] ++ running (11 ∷ 12 ∷ []))
shutdown_myinit-empty_example =
    shutdown_myinit-empty last_waits at_work (inr refl, (inr refl, tt)) tt at_work-AllWaited

abbrev pub pids : List (Option ℕ)
pids = some 7 ∷ some 8 ∷ some 9 ∷ none ∷ []

abbrev pub started : Supervisor
started = record {
  entries = worker ∷ [];
  children = 7 ∷ [];
  reload_requested = false;
  shutdown_requested = false;
  reloading = false;
  shutting_down = false;
  log = start 0 7 ∷ [];
  signalled = [];
  forks = some 8 ∷ some 9 ∷ none ∷ [];
}

pub start_up-started : start_up whole_file memory true pids ≡ some started
unfolding start_up with_config spawn_from forked set_child
start_up-started = ap (after_parse true pids) parse_config_file-print_config_example

-- A turn, with what `waitpid` answers in it.
abbrev turn : Bool → Wait → Turn
turn hup wait = record {
  sighup = hup;
  sigterm = false;
  reload_answers = record no_reload { waits = interrupted ∷ ends 8 15 ∷ no_child ∷ [] };
  last_waits = [];
  wait = wait;
}

-- The child ends and is started again; SIGHUP comes, the child is stopped and the configuration is
-- loaded again; then nothing happens.
abbrev turns : List Turn
turns = turn false (ends 7 0) ∷ turn true no_change ∷ turn false no_change ∷ []

goes_round : (elim (main_loop turns started) [ continues s ↦ s.children | _ ↦ [] ]) ≡ 9 ∷ []
unfolding main_loop main_pass polled handle_exit find_child_index reap_at forked set_child
    reload_config after_reap reap_children after_load with_entries after_spawn spawn_from
goes_round = rw parse_config_file-print_config_example refl

main_loop-start_up_example : ContinuesFull (main_loop turns started)
main_loop-start_up_example =
    main_loop-start_up whole_file memory true pids turns started
      (omega arith, (omega arith, (omega arith, tt))) start_up-started
