-- ===== src/Kernel.antt =====
-- The kernel's answers to the system calls that the programs make. A program runs against a list of
-- answers, in the order in which it asks.
use unix_tasks.Prelude.{ℕ, suc, List, [], ◌∷◌}

-- The values of `errno` that the programs look at or set; `other` is any further one.
pub data Errno : Type 0 where
  eio eexist enoent echild econnreset emsgsize : Errno
  other : ℕ → Errno

-- `read`: up to `k + 1` bytes, or all that are asked for if those are fewer. It answers 0 at the
-- end of the input only.
pub data ReadReply : Type 0 where
  gives : ℕ → ReadReply
  interrupted : ReadReply
  failed : Errno → ReadReply

-- `write`: it takes up to `k + 1` of the bytes that are offered, or answers 0.
pub data WriteReply : Type 0 where
  takes : ℕ → WriteReply
  takes_none : WriteReply
  interrupted : WriteReply
  failed : Errno → WriteReply

-- How a loop of calls ends; `blocked` while it waits for an answer that has not come.
pub data Status : Type 0 where
  done : Status
  error : Errno → Status
  blocked : Status

-- The answers hold no error; they may hold interruptions.
abbrev pub NoReadError : List ReadReply → Type 0
NoReadError [] = Unit
NoReadError (failed _ ∷ rs) = ⊥
NoReadError (gives _ ∷ rs) = NoReadError rs
NoReadError (interrupted ∷ rs) = NoReadError rs

abbrev pub NoWriteError : List WriteReply → Type 0
NoWriteError [] = Unit
NoWriteError (failed _ ∷ rs) = ⊥
NoWriteError (takes_none ∷ rs) = ⊥
NoWriteError (takes _ ∷ rs) = NoWriteError rs
NoWriteError (interrupted ∷ rs) = NoWriteError rs

-- The answers that are no interruptions.
abbrev pub reads_in : List ReadReply → ℕ
reads_in [] = 0
reads_in (interrupted ∷ rs) = reads_in rs
reads_in (_ ∷ rs) = suc (reads_in rs)

abbrev pub writes_in : List WriteReply → ℕ
writes_in [] = 0
writes_in (interrupted ∷ rs) = writes_in rs
writes_in (_ ∷ rs) = suc (writes_in rs)
