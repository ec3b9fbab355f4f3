-- ===== src/Myinit/Passes.antt =====
-- As long as the main loop goes round, a child is in the table for every entry.
use unix_tasks.Prelude.{
  ℕ, ◌≡◌, ◌≤◌, refl, sym, ap, subst, ◌∙◌, Bool, true, false, ◌||◌, Option, none, some, List, [],
  ◌∷◌, arith, length, Bool-cases, if_both, inl, inr,
}
use unix_tasks.Myinit.Config.{ConfigEntry}
use unix_tasks.Myinit.Files.{Load, loaded, refused, waiting}
use unix_tasks.Myinit.Children.{
  Supervisor, log_fmt, Result, Wait, ends, no_change, interrupted, no_child, failed, reap_at,
  reap_found, reap, reap_children, spawn_all_children, find_child_index, reload,
  send_sigterm_to_all_children,
}
use unix_tasks.Myinit.Main.{
  ReloadAnswers, zeros, end_reload, after_spawn, with_entries, after_load, after_reap,
  reload_config, main_pass,
}
use unix_tasks.Myinit.Spawning.{PositivePids, spawn_all_children-taken}
use unix_tasks.Myinit.Full.{
  IsFull, ContinuesFull, ReturnsFull, ended-ContinuesFull, after_reload-ContinuesFull,
  polled-ContinuesFull,
}

-- What reaping leaves alone.
reap_found-kept :
    (pid status : ℕ) (s : Supervisor) (o : Option ℕ)
    → ((reap_found o pid status s).forks ≡ s.forks)
      × ((reap_found o pid status s).shutting_down ≡ s.shutting_down)
unfolding reap_at
reap_found-kept pid status s none = (refl, refl)
reap_found-kept pid status s (some i) = elim (Bool-cases (s.reloading || s.shutting_down)) [
  | inl stops ↦ (rw stops refl, rw stops refl)
  | inr goes_on ↦ (rw goes_on refl, rw goes_on refl)
]

reap_children-kept :
    (ws : List Wait) (s : Supervisor)
    → ((reap_children ws s).1.forks ≡ s.forks)
      × ((reap_children ws s).1.shutting_down ≡ s.shutting_down)
unfolding reap_children
reap_children-kept [] s = (refl, refl)
reap_children-kept (no_child ∷ ws) s = (refl, refl)
reap_children-kept (failed e ∷ ws) s = (refl, refl)
reap_children-kept (no_change ∷ ws) s = reap_children-kept ws s
reap_children-kept (interrupted ∷ ws) s = reap_children-kept ws s
reap_children-kept (ends pid status ∷ ws) s =
    let (forks, sd) = reap_children-kept ws (reap pid status s) in
    let (forks', sd') = reap_found-kept pid status s (find_child_index pid s.children) in
    (forks ∙ forks', sd ∙ sd')

pub length-zeros : (es : List ConfigEntry) → length (zeros es) ≡ length es
length-zeros [] = refl
length-zeros (e ∷ es) = omega (arith, length-zeros es)

after_spawn-ReturnsFull :
    (r : ReloadAnswers) (res : Result)
    → (res.0 ≡ true → IsFull (end_reload res.1))
    → ReturnsFull (after_spawn r res)
unfolding after_spawn
after_spawn-ReturnsFull r (false, s) h = tt
after_spawn-ReturnsFull r (true, s) h = if_both ReturnsFull r.restored (h refl) tt

with_entries-ReturnsFull :
    (r : ReloadAnswers) (s : Supervisor) (es : List ConfigEntry)
    → PositivePids s.forks
    → s.shutting_down ≡ false
    → ReturnsFull (with_entries r s es)
unfolding with_entries
with_entries-ReturnsFull r s [] p sd = tt
with_entries-ReturnsFull r s (e ∷ es) p sd =
    let s' : Supervisor = record s { entries = e ∷ es; children = zeros (e ∷ es) } in
    if_both ReturnsFull r.table_given
      (after_spawn-ReturnsFull r (spawn_all_children s') (λ h.
        let (taken, size, positive, alike) = spawn_all_children-taken s' p h in
        record {
          some_entry = subst (λ l. 1 ≤ length l) (sym alike.same_entries) (omega arith);
          one_place = size ∙ length-zeros (e ∷ es) ∙ sym (ap length alike.same_entries);
          taken = taken;
          positive = positive;
          not_reloading = refl;
          not_shutting_down = alike.same_shutting_down ∙ sd;
        }))
      tt

after_load-ReturnsFull :
    (r : ReloadAnswers) (s : Supervisor) (load : Load)
    → PositivePids s.forks
    → s.shutting_down ≡ false
    → ReturnsFull (after_load r s load)
unfolding after_load
after_load-ReturnsFull r s (loaded cfg) p sd = with_entries-ReturnsFull r s cfg.entries p sd
after_load-ReturnsFull r s refused p sd = tt
after_load-ReturnsFull r s waiting p sd = tt

after_reap-ReturnsFull :
    (r : ReloadAnswers) (reaped : Bool × Supervisor)
    → PositivePids reaped.1.forks
    → reaped.1.shutting_down ≡ false
    → ReturnsFull (after_reap r reaped)
unfolding after_reap
after_reap-ReturnsFull r (false, s) p sd = tt
after_reap-ReturnsFull r (true, s) p sd = after_load-ReturnsFull r _ _ p sd

reload_config-ReturnsFull :
    (r : ReloadAnswers) (s : Supervisor)
    → PositivePids s.forks
    → s.shutting_down ≡ false
    → ReturnsFull (reload_config r s)
unfolding reload_config
reload_config-ReturnsFull r s p sd =
    let asked = log_fmt reload (record s { reloading = true }) in
    let told = send_sigterm_to_all_children asked in
    let (forks, kept) = reap_children-kept r.waits told in
    if_both ReturnsFull r.masked
      (after_reap-ReturnsFull r (reap_children r.waits told) (subst PositivePids (sym forks) p)
        (kept ∙ sd))
      tt

-- Whatever ends, interrupts or asks the supervisor: when the table has a place for each entry and
-- a child at each place, and `fork` numbers processes from 1, then after a pass of the main loop
-- that goes round again the same holds, whether a child was started again, all of them were
-- started from a new configuration, or nothing happened.
pub main_pass-ContinuesFull :
    (r : ReloadAnswers) (ws : List Wait) (w : Wait) (s : Supervisor)
    → IsFull s
    → ContinuesFull (main_pass r ws w s)
unfolding main_pass
main_pass-ContinuesFull r ws w s f =
    if_both ContinuesFull s.shutdown_requested (ended-ContinuesFull _) (
      if_both ContinuesFull s.reload_requested
        (after_reload-ContinuesFull ws _
          (reload_config-ReturnsFull r _ f.positive f.not_shutting_down))
        (polled-ContinuesFull ws s w f))
