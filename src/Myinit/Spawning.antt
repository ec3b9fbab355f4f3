-- ===== src/Myinit/Spawning.antt =====
-- What the supervisor starts stands in its table.
use unix_tasks.Prelude.{
  ℕ, suc, ◌≡◌, ◌≤◌, refl, sym, ap, subst, ◌∙◌, true, false, Option, none, some, List, [], ◌∷◌, ◌++◌,
  arith, ◌==◌, length, length-append, append_assoc, append-nil, Bool-cases, inl, inr,
}
use unix_tasks.Myinit.Children.{
  Supervisor, set_child, forked, spawn_child_at, after_start, spawn_from, spawn_all_children,
  Result,
}

-- A child runs at every place.
abbrev pub AllTaken : List ℕ → Type 0
AllTaken [] = Unit
AllTaken (child ∷ children) = (1 ≤ child) × AllTaken children

-- The kernel numbers processes from 1.
abbrev pub PositivePids : List (Option ℕ) → Type 0
PositivePids [] = Unit
PositivePids (none ∷ forks) = PositivePids forks
PositivePids (some pid ∷ forks) = (1 ≤ pid) × PositivePids forks

AllTaken-append : (a : List ℕ) (pid : ℕ) → AllTaken a → 1 ≤ pid → AllTaken (a ++ pid ∷ [])
AllTaken-append [] pid p q = (q, tt)
AllTaken-append (c ∷ a) pid (h, p) q = (h, AllTaken-append a pid p q)

set_child-middle :
    (a b : List ℕ) (child pid : ℕ) → set_child (length a) pid (a ++ child ∷ b) ≡ a ++ pid ∷ b
unfolding set_child
set_child-middle [] b child pid = refl
set_child-middle (c ∷ a) b child pid = ap (◌∷◌ c) (set_child-middle a b child pid)

-- A start that succeeds puts a pid at the place and changes no other.
pub forked-true :
    (idx oldpid : ℕ) (s : Supervisor) (forks : List (Option ℕ))
    → PositivePids forks
    → (forked idx oldpid s forks).0 ≡ true
    → (pid : ℕ) × (1 ≤ pid)
      × ((forked idx oldpid s forks).1.children ≡ set_child idx pid s.children)
      × PositivePids (forked idx oldpid s forks).1.forks
      × ((forked idx oldpid s forks).1.entries ≡ s.entries)
      × ((forked idx oldpid s forks).1.reloading ≡ s.reloading)
      × ((forked idx oldpid s forks).1.shutting_down ≡ s.shutting_down)
unfolding forked
forked-true idx oldpid s [] p h = absurd (ground arith)
forked-true idx oldpid s (none ∷ forks) p h = absurd (ground arith)
forked-true idx oldpid s (some pid ∷ forks) (q, p) h = elim (Bool-cases (oldpid == 0)) [
  | inl new ↦ (pid, q, refl, rw new p, rw new refl, rw new refl, rw new refl)
  | inr again ↦ (pid, q, refl, rw again p, rw again refl, rw again refl, rw again refl)
]

-- Two states differ in their tables, logs and answers to come only.
pub record Alike (a b : Supervisor) : Type 0 where
  pub same_entries : a.entries ≡ b.entries
  pub same_reloading : a.reloading ≡ b.reloading
  pub same_shutting_down : a.shutting_down ≡ b.shutting_down

Alike-trans : (a b c : Supervisor) → Alike a b → Alike b c → Alike a c
Alike-trans a b c p q = record {
  same_entries = p.same_entries ∙ q.same_entries;
  same_reloading = p.same_reloading ∙ q.same_reloading;
  same_shutting_down = p.same_shutting_down ∙ q.same_shutting_down;
}

-- A table of `n` places with a child at each, in a state that is otherwise that of `s`.
abbrev pub Filled : ℕ → Supervisor → Result → Type 0
Filled n s r =
    AllTaken r.1.children × (length r.1.children ≡ n) × PositivePids r.1.forks × Alike r.1 s

spawn_from-free :
    (i child : ℕ) (rest : List ℕ) (s : Supervisor)
    → (child == 0) ≡ true
    → spawn_from i (child ∷ rest) s
      ≡ after_start (spawn_child_at i 0 s) (λ s'. spawn_from (suc i) rest s')
unfolding spawn_from
spawn_from-free i child rest s e = rw (spawn_from, e) refl

spawn_from-occupied :
    (i child : ℕ) (rest : List ℕ) (s : Supervisor)
    → (child == 0) ≡ false
    → spawn_from i (child ∷ rest) s ≡ spawn_from (suc i) rest s
unfolding spawn_from
spawn_from-occupied i child rest s e = rw (spawn_from, e) refl

after_start-true :
    (r : Result) (next : Supervisor → Result)
    → (after_start r next).0 ≡ true
    → (r.0 ≡ true) × (after_start r next ≡ next r.1)
after_start-true (true, s) next h = (refl, refl)
after_start-true (false, s) next h = absurd (ground arith)

-- The loop over the places ends with the whole table taken.
pub spawn_from-taken :
    (rest a : List ℕ) (i : ℕ) (s : Supervisor)
    → i ≡ length a
    → s.children ≡ a ++ rest
    → AllTaken a
    → PositivePids s.forks
    → (spawn_from i rest s).0 ≡ true
    → Filled (length (a ++ rest)) s (spawn_from i rest s)
unfolding spawn_from
spawn_from-taken [] a i s k e t p h = (
  subst AllTaken (sym (e ∙ append-nil a)) t,
  ap length e,
  p,
  record { same_entries = refl; same_reloading = refl; same_shutting_down = refl },
)
spawn_from-taken (child ∷ rest) a i s k e t p h = elim (Bool-cases (child == 0)) [
  | inr taken ↦
      let eq = spawn_from-occupied i child rest s taken in
      let assoc = append_assoc a (child ∷ []) rest in
      subst (Filled (length (a ++ child ∷ rest)) s) (sym eq) (
        subst (λ n. Filled n s (spawn_from (suc i) rest s)) (ap length assoc)
          (spawn_from-taken rest (a ++ child ∷ []) (suc i) s
            (omega (arith, length-append {0} a (child ∷ []))) (e ∙ sym assoc)
            (AllTaken-append a child t (ground arith)) p (sym (ap (λ r. r.0) eq) ∙ h)))
  | inl free ↦
      let eq = spawn_from-free i child rest s free in
      let started = spawn_child_at i 0 s in
      let (ok, go) = after_start-true started _ (sym (ap (λ r. r.0) eq) ∙ h) in
      let (pid, positive, table, p', es, rl, sd) = forked-true i 0 s s.forks p ok in
      let assoc = append_assoc a (pid ∷ []) rest in
      let size : length (a ++ pid ∷ rest) ≡ length (a ++ child ∷ rest) =
        omega (arith, length-append {0} a (pid ∷ rest), length-append {0} a (child ∷ rest)) in
      let (all, n, q, alike) =
        spawn_from-taken rest (a ++ pid ∷ []) (suc i) started.1
          (omega (arith, length-append {0} a (pid ∷ [])))
          (table
            ∙ ap (set_child i pid) e
            ∙ ap (λ j. set_child j pid (a ++ child ∷ rest)) k
            ∙ set_child-middle a rest child pid
            ∙ sym assoc)
          (AllTaken-append a pid t positive) p'
          (sym (ap (λ r. r.0) go) ∙ sym (ap (λ r. r.0) eq) ∙ h) in
      subst (Filled (length (a ++ child ∷ rest)) s) (sym (eq ∙ go)) (
        all,
        n ∙ ap length assoc ∙ size,
        q,
        Alike-trans _ started.1 s alike
            (record { same_entries = es; same_reloading = rl; same_shutting_down = sd }),
      )
]

-- Starting all children leaves a child at every place.
pub spawn_all_children-taken :
    (s : Supervisor)
    → PositivePids s.forks
    → (spawn_all_children s).0 ≡ true
    → Filled (length s.children) s (spawn_all_children s)
spawn_all_children-taken s p h = spawn_from-taken s.children [] 0 s (omega arith) refl tt p h
