-- ===== src/Myinit/Descriptors.antt =====
-- The descriptor table of a process, as the calls of task3-myinit/myinit.c change it.
use unix_tasks.Prelude.{ℕ, ◌≡◌, ◌≢◌, ◌<◌, Option, none, ◌==◌, if◌then◌else◌, Bytes}

-- What a descriptor stands for: `/dev/null`, the log, the file at a path, or what the process had
-- before.
pub data OpenFile : Type 0 where
  dev_null log_file : OpenFile
  at_path : Bytes → OpenFile
  inherited : ℕ → OpenFile

abbrev pub Fds : Type 0
Fds = ℕ → Option OpenFile

abbrev pub put_fd : ℕ → Option OpenFile → Fds → Fds
put_fd fd f t k = if k == fd then f else t k

abbrev pub close_fd : ℕ → Fds → Fds
close_fd fd t = put_fd fd none t

abbrev pub dup2 : ℕ → ℕ → Fds → Fds
dup2 from to t = put_fd to (t from) t

-- The descriptor that POSIX has `open` return: the lowest one that is not in use.
pub record LowestFree (t : Fds) (fd : ℕ) : Type 0 where
  pub is_free : t fd ≡ none
  pub below_taken : (k : ℕ) → k < fd → t k ≢ none
