-- ===== src/Myinit/Life.antt =====
-- The supervisor from its start on: the set-up of its table in `main`, the signal handlers, and any
-- number of passes of the main loop (task3-myinit/myinit.c).
use unix_tasks.Prelude.{
  ℕ, ◌≡◌, ◌≤◌, refl, sym, ap, subst, ◌∙◌, Bool, true, false, ◌||◌, Option, none, some, List, [],
  ◌∷◌, arith, length, if◌then◌else◌, if_both,
}
use unix_tasks.Myinit.Config.{ConfigEntry}
use unix_tasks.Myinit.Files.{ConfigFile, Load, loaded, refused, waiting, parse_config_file}
use unix_tasks.Myinit.Children.{Supervisor, Result, Wait, spawn_all_children}
use unix_tasks.Myinit.Main.{ReloadAnswers, zeros, Pass, continues, exits, stuck, crashes, main_pass}
use unix_tasks.Myinit.Spawning.{PositivePids, spawn_all_children-taken}
use unix_tasks.Myinit.Full.{IsFull, ContinuesFull}
use unix_tasks.Myinit.Passes.{main_pass-ContinuesFull, length-zeros}

-- The globals when the table has just been allocated.
abbrev pub with_table : List ConfigEntry → List (Option ℕ) → Supervisor
with_table es forks = record {
  entries = es;
  children = zeros es;
  reload_requested = false;
  shutdown_requested = false;
  reloading = false;
  shutting_down = false;
  log = [];
  signalled = [];
  forks = forks;
}

-- The main loop is entered, or EXIT_FAILURE.
abbrev pub if_spawned : Result → Option Supervisor
if_spawned (true, s) = some s
if_spawned (false, s) = none

unfoldable pub with_config : Bool → List (Option ℕ) → List ConfigEntry → Option Supervisor
with_config table_given forks [] = none
with_config table_given forks (e ∷ es) =
    if table_given then if_spawned (spawn_all_children (with_table (e ∷ es) forks)) else none

abbrev pub after_parse : Bool → List (Option ℕ) → Load → Option Supervisor
after_parse table_given forks refused = none
after_parse table_given forks waiting = none
after_parse table_given forks (loaded cfg) = with_config table_given forks cfg.entries

-- From the first call of `parse_config_file` to the main loop.
unfoldable pub start_up : ConfigFile → List Bool → Bool → List (Option ℕ) → Option Supervisor
start_up file allocs table_given forks =
    after_parse table_given forks (parse_config_file file allocs)

-- What happens up to a pass and in it: the signals that arrive, and the kernel's answers.
pub record Turn : Type 0 where
  pub sighup : Bool
  pub sigterm : Bool
  pub reload_answers : ReloadAnswers
  pub last_waits : List Wait
  pub wait : Wait

-- `handle_sighup` and `handle_shutdown`.
abbrev pub deliver : Turn → Supervisor → Supervisor
deliver t s = record s {
  reload_requested = s.reload_requested || t.sighup;
  shutdown_requested = s.shutdown_requested || t.sigterm;
}

abbrev pub and_then : Pass → (Supervisor → Pass) → Pass
and_then (continues s) next = next s
and_then (exits s) next = exits s
and_then (stuck s) next = stuck s
and_then (crashes s) next = crashes s

unfoldable pub main_loop : List Turn → Supervisor → Pass
main_loop [] s = continues s
main_loop (t ∷ ts) s =
    and_then (main_pass t.reload_answers t.last_waits t.wait (deliver t s)) (λ s'. main_loop ts s')

with_table-IsFull :
    (e : ConfigEntry) (es : List ConfigEntry) (forks : List (Option ℕ))
    → PositivePids forks
    → (spawn_all_children (with_table (e ∷ es) forks)).0 ≡ true
    → IsFull (spawn_all_children (with_table (e ∷ es) forks)).1
with_table-IsFull e es forks p h =
    let (taken, size, positive, alike) = spawn_all_children-taken (with_table (e ∷ es) forks) p h in
    record {
      some_entry = subst (λ l. 1 ≤ length l) (sym alike.same_entries) (omega arith);
      one_place = size ∙ length-zeros (e ∷ es) ∙ sym (ap length alike.same_entries);
      taken = taken;
      positive = positive;
      not_reloading = alike.same_reloading;
      not_shutting_down = alike.same_shutting_down;
    }

abbrev OptionFull : Option Supervisor → Type 0
OptionFull none = Unit
OptionFull (some s) = IsFull s

if_spawned-OptionFull : (r : Result) → (r.0 ≡ true → IsFull r.1) → OptionFull (if_spawned r)
if_spawned-OptionFull (true, s) h = h refl
if_spawned-OptionFull (false, s) h = tt

with_config-OptionFull :
    (given : Bool) (forks : List (Option ℕ)) (es : List ConfigEntry)
    → PositivePids forks
    → OptionFull (with_config given forks es)
unfolding with_config
with_config-OptionFull given forks [] p = tt
with_config-OptionFull given forks (e ∷ es) p =
    if_both OptionFull given (if_spawned-OptionFull _ (with_table-IsFull e es forks p)) tt

after_parse-OptionFull :
    (given : Bool) (forks : List (Option ℕ)) (load : Load)
    → PositivePids forks
    → OptionFull (after_parse given forks load)
after_parse-OptionFull given forks (loaded cfg) p = with_config-OptionFull given forks cfg.entries p
after_parse-OptionFull given forks refused p = tt
after_parse-OptionFull given forks waiting p = tt

deliver-IsFull : (t : Turn) (s : Supervisor) → IsFull s → IsFull (deliver t s)
deliver-IsFull t s f = record {
  some_entry = f.some_entry;
  one_place = f.one_place;
  taken = f.taken;
  positive = f.positive;
  not_reloading = f.not_reloading;
  not_shutting_down = f.not_shutting_down;
}

and_then-ContinuesFull :
    (p : Pass) (next : Supervisor → Pass)
    → ContinuesFull p
    → ((s : Supervisor) → IsFull s → ContinuesFull (next s))
    → ContinuesFull (and_then p next)
and_then-ContinuesFull (continues s) next h k = k s h
and_then-ContinuesFull (exits s) next h k = tt
and_then-ContinuesFull (stuck s) next h k = tt
and_then-ContinuesFull (crashes s) next h k = tt

main_loop-ContinuesFull :
    (ts : List Turn) (s : Supervisor) → IsFull s → ContinuesFull (main_loop ts s)
unfolding main_loop
main_loop-ContinuesFull [] s f = f
main_loop-ContinuesFull (t ∷ ts) s f =
    and_then-ContinuesFull _ _
      (main_pass-ContinuesFull t.reload_answers t.last_waits t.wait (deliver t s)
        (deliver-IsFull t s f))
      (main_loop-ContinuesFull ts)

-- From its start on, through any number of passes with any signals and any children that end,
-- the supervisor has at least one entry and one place in its table for each, and a child stands at
-- each place, for as long as the main loop goes round; given that `fork` numbers processes from 1.
pub main_loop-start_up :
    (file : ConfigFile) (allocs : List Bool) (given : Bool) (forks : List (Option ℕ))
    (ts : List Turn) (s : Supervisor)
    → PositivePids forks
    → start_up file allocs given forks ≡ some s
    → ContinuesFull (main_loop ts s)
unfolding start_up
main_loop-start_up file allocs given forks ts s p h =
    main_loop-ContinuesFull ts s
      (subst OptionFull h (after_parse-OptionFull given forks (parse_config_file file allocs) p))
