-- ===== src/Myinit/Reaping.antt =====
-- What the supervisor reaps is gone from its table; when the kernel has no more children for it,
-- the table is empty.
use unix_tasks.Prelude.{
  ℕ, suc, ◌≡◌, ◌≤◌, refl, sym, subst, ◌∙◌, Bool, true, false, ◌||◌, Option, none, some, List, [],
  ◌∷◌, ◌++◌, arith, ◌==◌, if◌then◌else◌, Bool-cases, Option-cases, inl, inr, ◌⊎◌,
}
use unix_tasks.Myinit.Children.{
  Supervisor, find_child_index, count_running_children, set_child, Wait, ends, no_change,
  interrupted, no_child, failed, running, reap, reap_at, reap_found, reap_children, shutdown_myinit,
}

abbrev pub holds : ℕ → List ℕ → Bool
holds pid [] = false
holds pid (child ∷ children) = if child == pid then true else holds pid children

-- No pid stands at two places.
abbrev pub Distinct : List ℕ → Type 0
Distinct [] = Unit
Distinct (child ∷ children) = ((child ≡ 0) ⊎ (holds child children ≡ false)) × Distinct children

-- The table once a child has ended.
abbrev pub free_at : Option ℕ → List ℕ → List ℕ
free_at none children = children
free_at (some i) children = set_child i 0 children

abbrev pub free_place : ℕ → List ℕ → List ℕ
free_place pid children = free_at (find_child_index pid children) children

find-hit :
    (pid child : ℕ) (children : List ℕ)
    → (child == pid) ≡ true
    → find_child_index pid (child ∷ children) ≡ some 0
unfolding find_child_index
find-hit pid child children e = rw (find_child_index, e) refl

find-miss :
    (pid child : ℕ) (children : List ℕ) (o : Option ℕ)
    → (child == pid) ≡ false
    → find_child_index pid children ≡ o
    → find_child_index pid (child ∷ children) ≡ elim o [ none ↦ none | some i ↦ some (suc i) ]
unfolding find_child_index
find-miss pid child children o e found = rw (find_child_index, e, found) refl

free_place-hit :
    (pid child : ℕ) (children : List ℕ)
    → (child == pid) ≡ true
    → free_place pid (child ∷ children) ≡ 0 ∷ children
unfolding set_child
free_place-hit pid child children e = rw (find-hit pid child children e) refl

free_place-miss :
    (pid child : ℕ) (children : List ℕ)
    → (child == pid) ≡ false
    → free_place pid (child ∷ children) ≡ child ∷ free_place pid children
unfolding set_child
free_place-miss pid child children e = elim (Option-cases (find_child_index pid children)) [
  | inl missing ↦ rw (find-miss pid child children none e missing, missing) refl
  | inr (i, found) ↦ rw (find-miss pid child children (some i) e found, found) refl
]

-- What is in the table afterwards was there before.
holds-free_place :
    (q pid : ℕ) (children : List ℕ)
    → 1 ≤ q
    → holds q (free_place pid children) ≡ true
    → holds q children ≡ true
unfolding find_child_index
holds-free_place q pid [] p h = h
holds-free_place q pid (child ∷ children) p h = elim (Bool-cases (child == q)) [
  | inl here ↦ rw here refl
  | inr there ↦ elim (Bool-cases (child == pid)) [
    | inl hit ↦ let h' = rw (free_place-hit pid child children hit) at h in rw there (ground arith)
    | inr miss ↦
        let h' = rw (free_place-miss pid child children miss, there) at h in
        rw there (holds-free_place q pid children p h')
  ]
]

lacks-free_place :
    (q pid : ℕ) (children : List ℕ)
    → 1 ≤ q
    → holds q children ≡ false
    → holds q (free_place pid children) ≡ false
lacks-free_place q pid children p h = elim (Bool-cases (holds q (free_place pid children))) [
  | inl held ↦ absurd (let there = holds-free_place q pid children p held in ground arith)
  | inr lacked ↦ lacked
]

Distinct-free_place :
    (pid : ℕ) (children : List ℕ) → Distinct children → Distinct (free_place pid children)
unfolding find_child_index
Distinct-free_place pid [] d = tt
Distinct-free_place pid (child ∷ children) (once, d) = elim (Bool-cases (child == pid)) [
  | inl hit ↦ rw (free_place-hit pid child children hit) (inl refl, d)
  | inr miss ↦ rw (free_place-miss pid child children miss) (
    elim once [
      | inl e ↦ inl e
      | inr lacked ↦ elim (Bool-cases (child == 0)) [
        | inl none_there ↦ inl (ground arith)
        | inr positive ↦ inr (lacks-free_place child pid children (ground arith) lacked)
      ]
    ],
    Distinct-free_place pid children d,
  )
]

-- The pid itself is not.
free_place-gone :
    (pid : ℕ) (children : List ℕ)
    → 1 ≤ pid
    → Distinct children
    → holds pid (free_place pid children) ≡ false
unfolding find_child_index
free_place-gone pid [] p d = refl
free_place-gone pid (child ∷ children) p (once, d) = elim (Bool-cases (child == pid)) [
  | inl hit ↦
      let same : child ≡ pid = ground arith in
      rw (free_place-hit pid child children hit) (elim once [
        | inl e ↦ absurd (omega arith)
        | inr lacked ↦ let lacked' = rw same at lacked in ground arith
      ])
  | inr miss ↦
      rw (free_place-miss pid child children miss) (rw miss (free_place-gone pid children p d))
]

-- The pids that `waitpid` gives before the loop ends.
abbrev pub waited : List Wait → List ℕ
waited [] = []
waited (ends pid status ∷ ws) = pid ∷ waited ws
waited (no_change ∷ ws) = waited ws
waited (interrupted ∷ ws) = waited ws
waited (no_child ∷ ws) = []
waited (failed e ∷ ws) = []

-- The kernel says at last that there are no more children.
abbrev pub Exhausted : List Wait → Type 0
Exhausted [] = ⊥
Exhausted (no_child ∷ ws) = Unit
Exhausted (failed e ∷ ws) = ⊥
Exhausted (ends pid status ∷ ws) = Exhausted ws
Exhausted (no_change ∷ ws) = Exhausted ws
Exhausted (interrupted ∷ ws) = Exhausted ws

-- Every running child is waited for.
abbrev pub AllWaited : List ℕ → List ℕ → Type 0
AllWaited children pids = (q : ℕ) → 1 ≤ q → holds q children ≡ true → holds q pids ≡ true

children-reap :
    (pid status : ℕ) (s : Supervisor) (o : Option ℕ)
    → (reap_found o pid status s).children ≡ free_at o s.children
unfolding reap_at
children-reap pid status s none = refl
children-reap pid status s (some i) = elim (Bool-cases (s.reloading || s.shutting_down)) [
  | inl stops ↦ rw stops refl
  | inr exits ↦ rw exits refl
]

held-behind :
    (q child : ℕ) (children : List ℕ) → holds q children ≡ true → holds q (child ∷ children) ≡ true
held-behind q child children h = ground arith

held-first : (child : ℕ) (children : List ℕ) → holds child (child ∷ children) ≡ true
held-first child children = ground arith

none_running : (children : List ℕ) → AllWaited children [] → count_running_children children ≡ 0
unfolding count_running_children
none_running [] h = refl
none_running (child ∷ children) h = elim (Bool-cases (child == 0)) [
  | inl free ↦
      rw (count_running_children, free)
        (none_running children (λ q p k. h q p (held-behind q child children k)))
  | inr taken ↦
      absurd (let impossible = h child (ground arith) (held-first child children) in ground arith)
]

AllWaited-free_place :
    (pid : ℕ) (children pids : List ℕ)
    → Distinct children
    → AllWaited children (pid ∷ pids)
    → AllWaited (free_place pid children) pids
AllWaited-free_place pid children pids d h q p k =
    let before = h q p (holds-free_place q pid children p k) in
    elim (Bool-cases (pid == q)) [
      | inl same ↦
          let e : pid ≡ q = ground arith in
          absurd (let gone = free_place-gone q children p d in let k' = rw e at k in ground arith)
      | inr other ↦ rw other at before
    ]

-- When the pids in the table are different, `waitpid` gives each of them before it says that
-- there are no children (and perhaps others, in any order, with interruptions between them), then
-- the loop ends, and no child is left in the table.
pub reap_children-empty :
    (ws : List Wait) (s : Supervisor)
    → Distinct s.children
    → Exhausted ws
    → AllWaited s.children (waited ws)
    → ((reap_children ws s).0 ≡ true) × (count_running_children (reap_children ws s).1.children ≡ 0)
unfolding reap_children
reap_children-empty [] s d x h = absurd x
reap_children-empty (no_child ∷ ws) s d x h = (refl, none_running s.children h)
reap_children-empty (failed e ∷ ws) s d x h = absurd x
reap_children-empty (no_change ∷ ws) s d x h = reap_children-empty ws s d x h
reap_children-empty (interrupted ∷ ws) s d x h = reap_children-empty ws s d x h
reap_children-empty (ends pid status ∷ ws) s d x h =
    let table = children-reap pid status s (find_child_index pid s.children) in
    reap_children-empty ws (reap pid status s)
      (subst Distinct (sym table) (Distinct-free_place pid s.children d)) x
      (subst (λ c. AllWaited c (waited ws)) (sym table)
        (AllWaited-free_place pid s.children (waited ws) d h))

reap_found-signalled :
    (pid status : ℕ) (s : Supervisor) (o : Option ℕ)
    → (reap_found o pid status s).signalled ≡ s.signalled
unfolding reap_at
reap_found-signalled pid status s none = refl
reap_found-signalled pid status s (some i) = elim (Bool-cases (s.reloading || s.shutting_down)) [
  | inl stops ↦ rw stops refl
  | inr exits ↦ rw exits refl
]

reap_children-signalled :
    (ws : List Wait) (s : Supervisor) → (reap_children ws s).1.signalled ≡ s.signalled
unfolding reap_children
reap_children-signalled [] s = refl
reap_children-signalled (no_child ∷ ws) s = refl
reap_children-signalled (failed e ∷ ws) s = refl
reap_children-signalled (no_change ∷ ws) s = reap_children-signalled ws s
reap_children-signalled (interrupted ∷ ws) s = reap_children-signalled ws s
reap_children-signalled (ends pid status ∷ ws) s =
    reap_children-signalled ws (reap pid status s)
    ∙ reap_found-signalled pid status s (find_child_index pid s.children)

-- The end of the supervisor: when the pids in the table are different, and `waitpid` gives each of
-- them before it says that there are no children (and perhaps others, in any order, with
-- interruptions between them), then SIGTERM goes to exactly the children that ran, the loop that
-- waits for them ends, and no child is left in the table.
pub shutdown_myinit-empty :
    (ws : List Wait) (s : Supervisor)
    → Distinct s.children
    → Exhausted ws
    → AllWaited s.children (waited ws)
    → ((shutdown_myinit ws s).0 ≡ true)
      × (count_running_children (shutdown_myinit ws s).1.children ≡ 0)
      × ((shutdown_myinit ws s).1.signalled ≡ s.signalled ++ running s.children)
unfolding shutdown_myinit
shutdown_myinit-empty ws s d x h =
    let (ends_all, empty) = reap_children-empty ws _ d x h in
    (ends_all, empty, reap_children-signalled ws _)
