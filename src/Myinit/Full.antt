-- ===== src/Myinit/Full.antt =====
-- A supervisor with a child for every entry keeps it so when children end.
use unix_tasks.Prelude.{
  ℕ, zero, suc, ◌≡◌, ◌≤◌, refl, sym, ap, subst, ◌∙◌, Bool, true, false, not, ◌&&◌, Option, none,
  some, List, [], ◌∷◌, arith, ◌==◌, length, if_both,
}
use unix_tasks.Myinit.Children.{
  Supervisor, LogLine, log_fmt, Result, Wait, ends, no_change, interrupted, no_child, failed,
  set_child, reap_at, spawn_child_at, spawn_all_children, restart_failed, count_running_children,
  no_children_running,
}
use unix_tasks.Myinit.Main.{
  Returned, returned, tableless, hangs, Pass, continues, exits, stuck, crashes, ended, or_shut_down,
  or_give_up, after_reload, handle_exit, respawn, polled,
}
use unix_tasks.Myinit.Spawning.{
  AllTaken, PositivePids, Alike, forked-true, spawn_all_children-taken,
}

-- The supervisor at work: it has entries, and a child for each of them.
pub record IsFull (s : Supervisor) : Type 0 where
  pub some_entry : 1 ≤ length s.entries
  pub one_place : length s.children ≡ length s.entries
  pub taken : AllTaken s.children
  pub positive : PositivePids s.forks
  pub not_reloading : s.reloading ≡ false
  pub not_shutting_down : s.shutting_down ≡ false

abbrev pub ContinuesFull : Pass → Type 0
ContinuesFull (continues s) = IsFull s
ContinuesFull (exits s) = Unit
ContinuesFull (stuck s) = Unit
ContinuesFull (crashes s) = Unit

abbrev pub ReturnsFull : Returned → Type 0
ReturnsFull (returned true s) = IsFull s
ReturnsFull (returned false s) = Unit
ReturnsFull (tableless s) = Unit
ReturnsFull (hangs s) = Unit

pub ended-ContinuesFull : (r : Bool × Supervisor) → ContinuesFull (ended r)
ended-ContinuesFull (true, s) = tt
ended-ContinuesFull (false, s) = tt

or_shut_down-ContinuesFull :
    (ws : List Wait) (line : LogLine) (r : Result)
    → (r.0 ≡ true → IsFull r.1)
    → ContinuesFull (or_shut_down ws line r)
or_shut_down-ContinuesFull ws line (true, s) h = h refl
or_shut_down-ContinuesFull ws line (false, s) h = ended-ContinuesFull _

or_give_up-ContinuesFull :
    (ws : List Wait) (r : Result) → (r.0 ≡ true → IsFull r.1) → ContinuesFull (or_give_up ws r)
or_give_up-ContinuesFull ws (true, s) h = h refl
or_give_up-ContinuesFull ws (false, s) h = ended-ContinuesFull _

pub after_reload-ContinuesFull :
    (ws : List Wait) (r : Returned) → ReturnsFull r → ContinuesFull (after_reload ws r)
after_reload-ContinuesFull ws (returned true s) h = h
after_reload-ContinuesFull ws (returned false s) h = ended-ContinuesFull _
after_reload-ContinuesFull ws (tableless s) h = tt
after_reload-ContinuesFull ws (hangs s) h = tt

-- A place is freed and taken again.
AllTaken-set_child :
    (i pid : ℕ) (children : List ℕ)
    → AllTaken children
    → 1 ≤ pid
    → AllTaken (set_child i pid (set_child i 0 children))
unfolding set_child
AllTaken-set_child i pid [] t p = tt
AllTaken-set_child zero pid (c ∷ children) (q, t) p = (p, t)
AllTaken-set_child (suc i) pid (c ∷ children) (q, t) p = (q, AllTaken-set_child i pid children t p)

length-set_child :
    (i pid : ℕ) (children : List ℕ) → length (set_child i pid children) ≡ length children
unfolding set_child
length-set_child i pid [] = refl
length-set_child zero pid (c ∷ children) = refl
length-set_child (suc i) pid (c ∷ children) = omega (arith, length-set_child i pid children)

spawn_child_at-IsFull :
    (idx oldpid : ℕ) (s s' : Supervisor)
    → IsFull s
    → s'.children ≡ set_child idx 0 s.children
    → s'.forks ≡ s.forks
    → Alike s' s
    → (spawn_child_at idx oldpid s').0 ≡ true
    → IsFull (spawn_child_at idx oldpid s').1
spawn_child_at-IsFull idx oldpid s s' f e forks alike h =
    let (pid, positive, table, p', es, rl, sd) =
      forked-true idx oldpid s' s'.forks (subst PositivePids (sym forks) f.positive) h in
    let children = table ∙ ap (set_child idx pid) e in
    record {
      some_entry = subst (λ l. 1 ≤ length l) (sym (es ∙ alike.same_entries)) f.some_entry;
      one_place =
          ap length children
          ∙ length-set_child idx pid (set_child idx 0 s.children)
          ∙ length-set_child idx 0 s.children
          ∙ f.one_place
          ∙ sym (ap length (es ∙ alike.same_entries));
      taken =
          subst AllTaken (sym children) (AllTaken-set_child idx pid s.children f.taken positive);
      positive = p';
      not_reloading = rl ∙ alike.same_reloading ∙ f.not_reloading;
      not_shutting_down = sd ∙ alike.same_shutting_down ∙ f.not_shutting_down;
    }

handle_exit-ContinuesFull :
    (ws : List Wait) (pid status : ℕ) (o : Option ℕ) (s : Supervisor)
    → IsFull s
    → ContinuesFull (handle_exit ws pid status o s)
unfolding handle_exit reap_at
handle_exit-ContinuesFull ws pid status none s f = record {
  some_entry = f.some_entry;
  one_place = f.one_place;
  taken = f.taken;
  positive = f.positive;
  not_reloading = f.not_reloading;
  not_shutting_down = f.not_shutting_down;
}
handle_exit-ContinuesFull ws pid status (some idx) s f =
    rw (f.not_reloading, f.not_shutting_down)
      (or_shut_down-ContinuesFull ws restart_failed _ (
        spawn_child_at-IsFull idx pid s _ f refl refl (record {
          same_entries = refl;
          same_reloading = sym f.not_reloading;
          same_shutting_down = sym f.not_shutting_down;
        })))

spawn_all_children-IsFull :
    (s : Supervisor) → IsFull s → (spawn_all_children s).0 ≡ true → IsFull (spawn_all_children s).1
spawn_all_children-IsFull s f h =
    let (taken, size, positive, alike) = spawn_all_children-taken s f.positive h in
    record {
      some_entry = subst (λ l. 1 ≤ length l) (sym alike.same_entries) f.some_entry;
      one_place = size ∙ f.one_place ∙ sym (ap length alike.same_entries);
      taken = taken;
      positive = positive;
      not_reloading = alike.same_reloading ∙ f.not_reloading;
      not_shutting_down = alike.same_shutting_down ∙ f.not_shutting_down;
    }

log_fmt-IsFull : (line : LogLine) (s : Supervisor) → IsFull s → IsFull (log_fmt line s)
log_fmt-IsFull line s f = record {
  some_entry = f.some_entry;
  one_place = f.one_place;
  taken = f.taken;
  positive = f.positive;
  not_reloading = f.not_reloading;
  not_shutting_down = f.not_shutting_down;
}

respawn-ContinuesFull : (ws : List Wait) (s : Supervisor) → IsFull s → ContinuesFull (respawn ws s)
unfolding respawn
respawn-ContinuesFull ws s f =
    if_both ContinuesFull (not (length s.entries == 0) && (count_running_children s.children == 0))
      (or_give_up-ContinuesFull ws _
        (spawn_all_children-IsFull _ (log_fmt-IsFull no_children_running s f)))
      f

pub polled-ContinuesFull :
    (ws : List Wait) (s : Supervisor) (w : Wait) → IsFull s → ContinuesFull (polled ws s w)
unfolding polled
polled-ContinuesFull ws s (ends pid status) f = handle_exit-ContinuesFull ws pid status _ s f
polled-ContinuesFull ws s no_change f = f
polled-ContinuesFull ws s interrupted f = f
polled-ContinuesFull ws s no_child f = respawn-ContinuesFull ws s f
polled-ContinuesFull ws s (failed e) f = tt
