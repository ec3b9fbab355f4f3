-- ===== src/Myinit/Children.antt =====
-- The supervisor's children (task3-myinit/myinit.c): the table `g_children`, what it logs, and the
-- functions that start, find, signal and reap them.
use unix_tasks.Prelude.{
  ℕ, zero, suc, Bool, true, false, ◌||◌, Option, none, some, List, [], ◌∷◌, ◌++◌, ◌==◌,
  if◌then◌else◌,
}
use unix_tasks.Kernel.{Errno}
use unix_tasks.Myinit.Config.{ConfigEntry}

-- The lines of the log, less their texts: the places of the table, the pids, the status.
pub data LogLine : Type 0 where
  fork_error restart_failed wait_error mask_error : LogLine
  start : ℕ → ℕ → LogLine
  restart : ℕ → ℕ → ℕ → LogLine
  exit_status stop_status : ℕ → ℕ → ℕ → LogLine
  unknown_child : ℕ → LogLine
  no_children_running reload shutdown empty_config parse_error no_memory : LogLine

-- The globals. `g_children` has a pid for each entry of the configuration, 0 where no child runs; `signalled`
-- are the pids that SIGTERM was sent to, and `forks` the answers to come of `fork`, which fails
-- when none is left.
pub record Supervisor : Type 0 where
  pub entries : List ConfigEntry
  pub children : List ℕ
  pub reload_requested : Bool
  pub shutdown_requested : Bool
  pub reloading : Bool
  pub shutting_down : Bool
  pub log : List LogLine
  pub signalled : List ℕ
  pub forks : List (Option ℕ)

abbrev pub log_fmt : LogLine → Supervisor → Supervisor
log_fmt line s = record s { log = s.log ++ line ∷ [] }

-- The first place of the table that holds the pid; (size_t)-1 is `none`.
unfoldable pub find_child_index : ℕ → List ℕ → Option ℕ
find_child_index pid [] = none
find_child_index pid (child ∷ children) =
    if child == pid
    then some 0
    else elim (find_child_index pid children) [ none ↦ none | some i ↦ some (suc i) ]

unfoldable pub count_running_children : List ℕ → ℕ
count_running_children [] = 0
count_running_children (child ∷ children) =
    if child == 0 then count_running_children children else suc (count_running_children children)

-- `g_children[idx] = pid`.
unfoldable pub set_child : ℕ → ℕ → List ℕ → List ℕ
set_child idx pid [] = []
set_child zero pid (child ∷ children) = pid ∷ children
set_child (suc idx) pid (child ∷ children) = child ∷ set_child idx pid children

-- 0 or -1, with the state.
abbrev pub Result : Type 0
Result = Bool × Supervisor

-- In the parent, on the answer of `fork`.
unfoldable pub forked : ℕ → ℕ → Supervisor → List (Option ℕ) → Result
forked idx oldpid s [] = (false, log_fmt fork_error s)
forked idx oldpid s (none ∷ forks) = (false, log_fmt fork_error (record s { forks = forks }))
forked idx oldpid s (some pid ∷ forks) =
    let s' : Supervisor = record s { forks = forks } in
    let logged = if oldpid == 0 then s' else log_fmt (restart idx oldpid pid) s' in
    let started = log_fmt (start idx pid) logged in
    (true, record started { children = set_child idx pid s.children })

abbrev pub spawn_child_at : ℕ → ℕ → Supervisor → Result
spawn_child_at idx oldpid s = forked idx oldpid s s.forks

-- `return -1` when a start fails.
abbrev pub after_start : Result → (Supervisor → Result) → Result
after_start (true, s) next = next s
after_start (false, s) next = (false, s)

-- The loop over the places from `i` on, with what the table held there.
unfoldable pub spawn_from : ℕ → List ℕ → Supervisor → Result
spawn_from i [] s = (true, s)
spawn_from i (child ∷ rest) s = elim (child == 0) [
  | false ↦ spawn_from (suc i) rest s
  | true ↦ after_start (spawn_child_at i 0 s) (λ s'. spawn_from (suc i) rest s')
]

abbrev pub spawn_all_children : Supervisor → Result
spawn_all_children s = spawn_from 0 s.children s

abbrev pub running : List ℕ → List ℕ
running [] = []
running (child ∷ children) = if child == 0 then running children else child ∷ running children

abbrev pub send_sigterm_to_all_children : Supervisor → Supervisor
send_sigterm_to_all_children s = record s { signalled = s.signalled ++ running s.children }

-- An answer of `waitpid`; `no_change` is that of a call with WNOHANG only.
pub data Wait : Type 0 where
  ends : ℕ → ℕ → Wait
  no_change interrupted no_child : Wait
  failed : Errno → Wait

-- A child of the table has ended: its place is free, and the log tells how.
unfoldable pub reap_at : ℕ → ℕ → ℕ → Supervisor → Supervisor
reap_at idx pid status s =
    let s' : Supervisor = record s { children = set_child idx 0 s.children } in
    if s.reloading || s.shutting_down
    then log_fmt (stop_status idx pid status) s'
    else log_fmt (exit_status idx pid status) s'

abbrev pub reap_found : Option ℕ → ℕ → ℕ → Supervisor → Supervisor
reap_found none pid status s = log_fmt (unknown_child pid) s
reap_found (some idx) pid status s = reap_at idx pid status s

abbrev pub reap : ℕ → ℕ → Supervisor → Supervisor
reap pid status s = reap_found (find_child_index pid s.children) pid status s

-- `for (;;)` on the answers of `waitpid` without WNOHANG. With none left it has not returned.
unfoldable pub reap_children : List Wait → Supervisor → Bool × Supervisor
reap_children [] s = (false, s)
reap_children (ends pid status ∷ ws) s = reap_children ws (reap pid status s)
reap_children (no_change ∷ ws) s = reap_children ws s
reap_children (interrupted ∷ ws) s = reap_children ws s
reap_children (no_child ∷ ws) s = (true, s)
reap_children (failed e ∷ ws) s = (true, log_fmt wait_error s)

unfoldable pub shutdown_myinit : List Wait → Supervisor → Bool × Supervisor
shutdown_myinit ws s =
    let s' = log_fmt shutdown (record s { shutting_down = true }) in
    reap_children ws (send_sigterm_to_all_children s')
