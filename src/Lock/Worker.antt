-- ===== src/Lock/Worker.antt =====
-- One process of the lock program: the loop of `main`, one system call or one test of `stop_flag`
-- at a time, so that a signal or another process can come between any two.
use unix_tasks.Prelude.{
  ℕ, suc, ◌+◌, ◌-◌, ◌%◌, ◌^◌, Bool, true, [], ◌∷◌, ◌++◌, ◌==◌, length, take, drop, Bytes,
  if◌then◌else◌, Option, none, some,
}
use unix_tasks.Kernel.{Errno, other}
use unix_tasks.Text.Print.{print}
use unix_tasks.Lock.Pid.{pid_line, parse_pid_file_content}
use unix_tasks.Lock.Calls.{read_once}

-- The files that all processes share. The directory entry of the lock file names an inode.
pub record Shared : Type 0 where
  pub entry : Option ℕ
  pub inodes : ℕ
  pub content : ℕ → Bytes
  pub stats : Bytes

abbrev pub update : (ℕ → Bytes) → ℕ → Bytes → ℕ → Bytes
update f n bs m = if n == m then bs else f m

pub data VerifyResult : Type 0 where
  verify_ok verify_vanished verify_bad_content verify_pid_mismatch : VerifyResult

-- Why a process leaves with EXIT_FAILURE.
pub data Fault : Type 0 where
  call_failed : Errno → Fault
  unverified : VerifyResult → Fault

-- Where a process stands, with its live locals: a descriptor is the inode that it is open on.
pub data Point : Type 0 where
  looping : Point  -- the test at the head of the loop
  creating : Point  -- `open(lckpath, O_WRONLY | O_CREAT | O_EXCL)`
  pausing : Point  -- `usleep_retry`, after EEXIST or after the lock was given up
  writing : (fd : ℕ) (left : Bytes) → Point  -- `write_full` of `write_pid_line`
  closing : Point  -- `close_retry(lock_fd)`
  sleeping : Point  -- `sleep_interruptible(1U)`
  opening : Point  -- `open_retry` of `verify_lock_file_owner`
  reading : (fd : ℕ) (got : Bytes) → Point  -- its `read_full`
  draining : (fd : ℕ) (got : Bytes) → Point  -- its read beyond the buffer
  checking : (got : Bytes) → Point  -- its `close_retry`, then the parse
  unlinking : Point  -- `unlink_retry(lckpath)`
  opening_stats : Point  -- `open_retry` of `write_stats_line_atomic_append`
  reporting : (left : Bytes) → Point  -- the write of the statistics line
  closing_stats : Point  -- the `close_retry` behind it
  exited : Point
  failed : Fault → Point

pub record Proc : Type 0 where
  pub point : Point
  pub stop_flag : Bool
  pub locks : ℕ  -- uint64_t

-- What happens next to a process: its call succeeds, moving up to `k + 1` bytes if it moves any;
-- the call is interrupted, or fails with an `errno` that the code does not single out; or SIGINT.
pub data Event : Type 0 where
  success : ℕ → Event
  interrupt : Event
  failure : ℕ → Event
  sigint : Event

-- `PID=%jd LOCKS=%` PRIu64 `\n`
abbrev pub stats_line : ℕ → ℕ → Bytes
stats_line self locks =
    b'P'
    ∷ b'I'
    ∷ b'D'
    ∷ b'='
    ∷ (print self ++ b' ' ∷ b'L' ∷ b'O' ∷ b'C' ∷ b'K' ∷ b'S' ∷ b'=' ∷ (print locks ++ b'\n' ∷ []))

abbrev pub at : Proc → Point → Proc
at p point = record p { point = point }

-- `break` if `stop_flag` is set, `continue` if not.
abbrev pub next_round : Proc → Point
next_round p = if p.stop_flag then opening_stats else looping

-- The end of `verify_lock_file_owner`, on the bytes read.
unfoldable pub judge : ℕ → Bytes → VerifyResult
judge self got = elim (parse_pid_file_content got) [
  | none ↦ verify_bad_content
  | some file_pid ↦ if file_pid == self then verify_ok else verify_pid_mismatch
]

-- What `main` does with the result.
abbrev pub after_verify : Proc → VerifyResult → Point
after_verify p verify_ok = unlinking
after_verify p verify_vanished = next_round p
after_verify p verify_bad_content = failed (unverified verify_bad_content)
after_verify p verify_pid_mismatch = failed (unverified verify_pid_mismatch)

-- `O_CREAT | O_EXCL` answers EEXIST if the entry is there, and else makes an empty file.
unfoldable pub try_create : ℕ → Shared → Proc → Option ℕ → Shared × Proc
try_create self sh p (some _) = (sh, at p pausing)
try_create self sh p none = (
  record sh {
    entry = some sh.inodes;
    inodes = suc sh.inodes;
    content = update sh.content sh.inodes [];
  },
  at p (writing sh.inodes (pid_line self)),
)

abbrev pub after_write : ℕ → Bytes → Point
after_write fd [] = closing
after_write fd (c ∷ cs) = writing fd (c ∷ cs)

abbrev pub after_report : Bytes → Point
after_report [] = closing_stats
after_report (c ∷ cs) = reporting (c ∷ cs)

-- ENOENT is VERIFY_VANISHED.
abbrev pub after_open : Proc → Option ℕ → Point
after_open p none = after_verify p verify_vanished
after_open p (some fd) = reading fd []

-- The size of `buf` and of `scratch`.
abbrev pub buffer_size : ℕ
buffer_size = 128

abbrev pub scratch_size : ℕ
scratch_size = 64

unfoldable pub after_read : ℕ → Bytes → Bytes → Point
after_read fd got chunk =
    if length chunk == 0
    then draining fd got
    else if length (got ++ chunk) == buffer_size
    then draining fd (got ++ chunk)
    else reading fd (got ++ chunk)

abbrev pub after_drain : Bytes → Bytes → Point
after_drain got [] = checking got
after_drain got (c ∷ cs) = failed (unverified verify_bad_content)

-- `unlink` answers ENOENT if the entry is gone; the lock counts only if it was there.
unfoldable pub try_unlink : Shared → Proc → Option ℕ → Shared × Proc
try_unlink sh p none = (sh, at p (next_round p))
try_unlink sh p (some _) =
    let p' = record p { locks = (p.locks + 1) % 2 ^ 64 } in
    (record sh { entry = none }, at p' (if p.stop_flag then opening_stats else pausing))

-- A call of the process succeeds.
unfoldable pub succeed : ℕ → Point → ℕ → Shared → Proc → Shared × Proc
succeed self looping k sh p = (sh, at p (if p.stop_flag then opening_stats else creating))
succeed self creating k sh p = try_create self sh p sh.entry
succeed self pausing k sh p = (sh, at p looping)
succeed self (writing fd left) k sh p = (
  record sh { content = update sh.content fd (sh.content fd ++ take (suc k) left) },
  at p (after_write fd (drop (suc k) left)),
)
succeed self closing k sh p = (sh, at p sleeping)
succeed self sleeping k sh p = (sh, at p opening)
succeed self opening k sh p = (sh, at p (after_open p sh.entry))
succeed self (reading fd got) k sh p = (
  sh,
  at p (after_read fd got (read_once k (sh.content fd) (length got) (buffer_size - length got))),
)
succeed self (draining fd got) k sh p =
    (sh, at p (after_drain got (read_once k (sh.content fd) (length got) scratch_size)))
succeed self (checking got) k sh p = (sh, at p (after_verify p (judge self got)))
succeed self unlinking k sh p = try_unlink sh p sh.entry
succeed self opening_stats k sh p = (sh, at p (reporting (stats_line self p.locks)))
succeed self (reporting left) k sh p =
    (record sh { stats = sh.stats ++ take (suc k) left }, at p (after_report (drop (suc k) left)))
succeed self closing_stats k sh p = (sh, at p exited)
succeed self exited k sh p = (sh, p)
succeed self (failed f) k sh p = (sh, p)

-- EINTR: the call is made again, but the two sleeps look at `stop_flag` first.
unfoldable pub retry : Point → Proc → Proc
retry pausing p = if p.stop_flag then at p looping else p
retry sleeping p = if p.stop_flag then at p opening else p
retry _ p = p

-- Any other error makes the process print it and exit. Tests of a flag make no call, and `sleep`
-- has no errors.
unfoldable pub give_up : Point → ℕ → Proc → Proc
give_up looping e p = p
give_up sleeping e p = p
give_up exited e p = p
give_up (failed f) e p = p
give_up _ e p = at p (failed (call_failed (other e)))

-- One event of one process, whose number is `self`.
unfoldable pub react : ℕ → Event → Shared → Proc → Shared × Proc
unfolding succeed retry give_up
react self (success k) sh p = succeed self p.point k sh p
react self interrupt sh p = (sh, retry p.point p)
react self (failure e) sh p = (sh, give_up p.point e p)
react self sigint sh p = (sh, record p { stop_flag = true })
