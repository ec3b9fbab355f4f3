-- ===== src/Myinit/Inheriting.antt =====
-- Which descriptors a program has that the supervisor starts.
use unix_tasks.Prelude.{
  ℕ, ◌≡◌, ◌≢◌, ◌≤◌, ◌<◌, refl, sym, false, not, ◌&&◌, none, some, ◌==◌, ltb, lt→ltb, ltb→lt, ◌⊎◌,
  arith, if◌then◌else◌, if_both, Bool-cases, inl, inr,
}
use unix_tasks.Myinit.Config.{ConfigEntry}
use unix_tasks.Myinit.Descriptors.{OpenFile, Fds, put_fd, at_path, LowestFree}
use unix_tasks.Myinit.Exec.{ChildAnswers, Child, execs, exits, child_fds, child_side}

-- A program starts with its two files as standard input, output and error; from 3 on it has the
-- descriptors that the supervisor has.
pub child_fds-stdio :
    (e : ConfigEntry) (infd outfd : ℕ) (t : Fds) (k : ℕ)
    → 3 ≤ infd
    → 3 ≤ outfd
    → infd ≢ outfd
    → t infd ≡ none
    → t outfd ≡ none
    → child_fds e infd outfd t k ≡ (
        if k == 0
        then some (at_path e.stdin_path)
        else if ltb k 3
        then some (at_path e.stdout_path)
        else t k)
unfolding child_fds
child_fds-stdio e infd outfd t k p q ne fi fo =
    let high_in = lt→ltb 2 infd (omega arith) in
    let high_out = lt→ltb 2 outfd (omega arith) in
    let apart : (outfd == infd) ≡ false = ground arith in
    rw (high_in, high_out, apart) (ground arith)

-- The standard descriptors are in use.
abbrev pub StdioTaken : Fds → Type 0
StdioTaken t = (k : ℕ) → k < 3 → t k ≢ none

abbrev pub ChildInherits : ConfigEntry → Fds → Child → Type 0
ChildInherits e t (execs t') =
    (k : ℕ)
    → t' k ≡ (
        if k == 0
        then some (at_path e.stdin_path)
        else if ltb k 3
        then some (at_path e.stdout_path)
        else t k)
ChildInherits e t (exits status) = (status ≡ 126) ⊎ (status ≡ 127)

free_above : (t : Fds) (fd : ℕ) → StdioTaken t → t fd ≡ none → 3 ≤ fd
free_above t fd taken free = elim (Bool-cases (ltb fd 3)) [
  | inl low ↦ absurd (taken fd (ltb→lt fd 3 low) free)
  | inr high ↦ ground arith
]

put_fd-free :
    (t : Fds) (fd k : ℕ) (f : OpenFile) → put_fd fd (some f) t k ≡ none → (k ≢ fd) × (t k ≡ none)
put_fd-free t fd k f h = ground arith

-- With the standard descriptors in use and descriptors for its two files that are not, a child of
-- the supervisor either starts its program with the input file as descriptor 0 and the output file
-- as 1 and 2, and from 3 on with exactly the descriptors of the supervisor, its log among them; or
-- it exits with 126 or 127.
pub child_side-ChildInherits :
    (e : ConfigEntry) (a : ChildAnswers) (t : Fds)
    → StdioTaken t
    → LowestFree t a.infd
    → LowestFree (put_fd a.infd (some (at_path e.stdin_path)) t) a.outfd
    → ChildInherits e t (child_side e a t)
unfolding child_side
child_side-ChildInherits e a t taken low_in low_out =
    let (apart, free) = put_fd-free t a.infd a.outfd (at_path e.stdin_path) low_out.is_free in
    let high_in = free_above t a.infd taken low_in.is_free in
    let high_out = free_above t a.outfd taken free in
    if_both (ChildInherits e t) (not a.in_opened) (inl refl) (
      if_both (ChildInherits e t) (not a.out_opened) (inl refl) (
        if_both (ChildInherits e t) (not (a.dup_in && a.dup_out && a.dup_err)) (inl refl) (
          if_both (ChildInherits e t) a.executed
            (λ k.
              child_fds-stdio e a.infd a.outfd t k high_in high_out (λ same. apart (sym same))
                low_in.is_free free)
            (inr refl))))
