-- ===== src/Myinit/Main.antt =====
-- The supervisor's reaction to SIGHUP, and one pass of its main loop (task3-myinit/myinit.c).
use unix_tasks.Prelude.{
  ℕ, Bool, true, false, not, ◌&&◌, ◌||◌, Option, none, some, List, [], ◌∷◌, ◌==◌, length,
  if◌then◌else◌,
}
use unix_tasks.Myinit.Config.{ConfigEntry}
use unix_tasks.Myinit.Files.{ConfigFile, Load, loaded, refused, waiting, parse_config_file}
use unix_tasks.Myinit.Children.{
  Supervisor, LogLine, mask_error, reload, parse_error, empty_config, no_memory, unknown_child,
  restart_failed, no_children_running, wait_error, log_fmt, Result, Wait, ends, no_change,
  interrupted, no_child, failed, find_child_index, count_running_children, spawn_child_at,
  spawn_all_children, send_sigterm_to_all_children, reap_at, reap_children, shutdown_myinit,
}

-- What the kernel answers while the configuration is loaded again: `sigprocmask` twice, `waitpid`,
-- the file, and memory.
pub record ReloadAnswers : Type 0 where
  pub masked : Bool
  pub waits : List Wait
  pub file : ConfigFile
  pub allocs : List Bool
  pub table_given : Bool
  pub restored : Bool

-- `reload_config` returns 0 or -1, or it waits for ever; `tableless` is -1 with entries counted
-- and `g_children` NULL.
pub data Returned : Type 0 where
  returned : Bool → Supervisor → Returned
  tableless : Supervisor → Returned
  hangs : Supervisor → Returned

abbrev pub zeros : List ConfigEntry → List ℕ
zeros [] = []
zeros (e ∷ es) = 0 ∷ zeros es

abbrev pub end_reload : Supervisor → Supervisor
end_reload s = record s { reloading = false }

unfoldable pub after_spawn : ReloadAnswers → Result → Returned
after_spawn r (false, s) = returned false (end_reload s)
after_spawn r (true, s) =
    if r.restored
    then returned true (end_reload s)
    else returned false (log_fmt mask_error (end_reload s))

unfoldable pub with_entries : ReloadAnswers → Supervisor → List ConfigEntry → Returned
with_entries r s [] = returned false (end_reload (log_fmt empty_config s))
with_entries r s (e ∷ es) =
    if r.table_given
    then after_spawn r
        (spawn_all_children (record s { entries = e ∷ es; children = zeros (e ∷ es) }))
    else tableless (end_reload (log_fmt no_memory (record s { entries = e ∷ es })))

unfoldable pub after_load : ReloadAnswers → Supervisor → Load → Returned
after_load r s (loaded cfg) = with_entries r s cfg.entries
after_load r s refused = returned false (end_reload (log_fmt parse_error s))
after_load r s waiting = hangs s

-- With its count at 0 no place of the old table is looked at any more.
unfoldable pub after_reap : ReloadAnswers → Bool × Supervisor → Returned
after_reap r (false, s) = hangs s
after_reap r (true, s) =
    after_load r (record s { entries = []; children = [] }) (parse_config_file r.file r.allocs)

unfoldable pub reload_config : ReloadAnswers → Supervisor → Returned
reload_config r s =
    let s' = log_fmt reload (record s { reloading = true }) in
    if r.masked
    then after_reap r (reap_children r.waits (send_sigterm_to_all_children s'))
    else returned false (log_fmt mask_error s)

-- A pass of the main loop: it goes round again, or the program ends, or it waits for ever, or it
-- reads the table where there is none.
pub data Pass : Type 0 where
  continues : Supervisor → Pass
  exits : Supervisor → Pass
  stuck : Supervisor → Pass
  crashes : Supervisor → Pass

abbrev pub ended : Bool × Supervisor → Pass
ended (true, s) = exits s
ended (false, s) = stuck s

abbrev pub shut_down : List Wait → Supervisor → Pass
shut_down ws s = ended (shutdown_myinit ws s)

abbrev pub or_shut_down : List Wait → LogLine → Result → Pass
or_shut_down ws line (true, s) = continues s
or_shut_down ws line (false, s) = shut_down ws (log_fmt line s)

abbrev pub after_reload : List Wait → Returned → Pass
after_reload ws (returned true s) = continues s
after_reload ws (returned false s) = shut_down ws s
after_reload ws (tableless s) = crashes s
after_reload ws (hangs s) = stuck s

-- A child has ended: it is started again.
unfoldable pub handle_exit : List Wait → ℕ → ℕ → Option ℕ → Supervisor → Pass
handle_exit ws pid status none s = continues (log_fmt (unknown_child pid) s)
handle_exit ws pid status (some idx) s =
    let s' = reap_at idx pid status s in
    if s.reloading || s.shutting_down
    then continues s'
    else or_shut_down ws restart_failed (spawn_child_at idx pid s')

abbrev pub or_give_up : List Wait → Result → Pass
or_give_up ws (true, s) = continues s
or_give_up ws (false, s) = shut_down ws s

unfoldable pub respawn : List Wait → Supervisor → Pass
respawn ws s =
    if not (length s.entries == 0) && (count_running_children s.children == 0)
    then or_give_up ws (spawn_all_children (log_fmt no_children_running s))
    else continues s

-- On the answer of `waitpid(-1, &status, WNOHANG)`.
unfoldable pub polled : List Wait → Supervisor → Wait → Pass
polled ws s (ends pid status) = handle_exit ws pid status (find_child_index pid s.children) s
polled ws s no_change = continues s
polled ws s interrupted = continues s
polled ws s no_child = respawn ws s
polled ws s (failed e) = exits (log_fmt wait_error s)

-- `ws` are the answers to the loop of `waitpid` in `shutdown_myinit`, when the pass gets there.
unfoldable pub main_pass : ReloadAnswers → List Wait → Wait → Supervisor → Pass
main_pass r ws w s =
    if s.shutdown_requested
    then shut_down ws s
    else if s.reload_requested
    then after_reload ws (reload_config r (record s { reload_requested = false }))
    else polled ws s w
