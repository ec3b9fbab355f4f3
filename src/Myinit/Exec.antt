-- ===== src/Myinit/Exec.antt =====
-- The child between `fork` and `execv` in `spawn_child_at` (task3-myinit/myinit.c).
use unix_tasks.Prelude.{ℕ, Bool, not, ◌&&◌, some, ◌==◌, ltb, if◌then◌else◌}
use unix_tasks.Myinit.Config.{ConfigEntry}
use unix_tasks.Myinit.Descriptors.{Fds, put_fd, close_fd, dup2, at_path}

-- What the kernel answers to the child.
pub record ChildAnswers : Type 0 where
  pub in_opened : Bool
  pub infd : ℕ
  pub out_opened : Bool
  pub outfd : ℕ
  pub dup_in : Bool
  pub dup_out : Bool
  pub dup_err : Bool
  pub executed : Bool

-- The program of the entry runs with this table, or the child exits with a status.
pub data Child : Type 0 where
  execs : Fds → Child
  exits : ℕ → Child

-- The table for `execv`.
unfoldable pub child_fds : ConfigEntry → ℕ → ℕ → Fds → Fds
child_fds e infd outfd t =
    let opened =
      put_fd outfd (some (at_path e.stdout_path)) (put_fd infd (some (at_path e.stdin_path)) t) in
    let duped = dup2 outfd 2 (dup2 outfd 1 (dup2 infd 0 opened)) in
    let less_in = if ltb 2 infd then close_fd infd duped else duped in
    if ltb 2 outfd && not (outfd == infd) then close_fd outfd less_in else less_in

unfoldable pub child_side : ConfigEntry → ChildAnswers → Fds → Child
child_side e a t =
    if not a.in_opened
    then exits 126
    else if not a.out_opened
    then exits 126
    else if not (a.dup_in && a.dup_out && a.dup_err)
    then exits 126
    else if a.executed
    then execs (child_fds e a.infd a.outfd t)
    else exits 127
