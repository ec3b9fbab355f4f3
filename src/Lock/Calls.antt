-- ===== src/Lock/Calls.antt =====
-- The loops of the lock program round single system calls.
use unix_tasks.Prelude.{
  ℕ, suc, ◌+◌, ◌-◌, ◌*◌, ◌%◌, ◌^◌, List, [], ◌∷◌, ◌++◌, ◌==◌, ltb, length, take, drop, min, Bytes,
  if◌then◌else◌,
}
use unix_tasks.Kernel.{
  Errno, eio, ReadReply, gives, WriteReply, takes, takes_none, Status, done, error, blocked,
}

-- What a loop of `write` has handed to the kernel, and how it ended.
pub record Sent : Type 0 where
  pub sent : Bytes
  pub status : Status

-- The bytes that the rest of the loop hands over come behind those of this call.
abbrev pub after : Bytes → Sent → Sent
after bs r = record { sent = bs ++ r.sent; status = r.status }

-- `left` counts down from the whole buffer; the bytes are what `p` points at.
unfoldable pub write_full : Bytes → List WriteReply → Sent
write_full [] rs = record { sent = []; status = done }
write_full (c ∷ cs) [] = record { sent = []; status = blocked }
write_full (c ∷ cs) (takes k ∷ rs) =
    after (take (suc k) (c ∷ cs)) (write_full (drop (suc k) (c ∷ cs)) rs)
write_full (c ∷ cs) (takes_none ∷ rs) = record { sent = []; status = error eio }
write_full (c ∷ cs) (WriteReply.interrupted ∷ rs) = write_full (c ∷ cs) rs
write_full (c ∷ cs) (WriteReply.failed e ∷ rs) = record { sent = []; status = error e }

-- The bytes that one `read` of at most `left` finds in a file behind the first `got`.
abbrev pub read_once : ℕ → Bytes → ℕ → ℕ → Bytes
read_once k content got left = take (min (suc k) left) (drop got content)

-- What a loop of `read` has put in its buffer, and how it ended.
pub record Received : Type 0 where
  pub received : Bytes
  pub status : Status

-- `count` bytes are asked for, and `got` of the content of the file are read already. The loop
-- ends when the buffer is full or at the end of the file.
unfoldable pub read_full : Bytes → ℕ → Bytes → List ReadReply → Received
read_full content count got [] = record {
  received = got;
  status = if ltb (length got) count then blocked else done;
}
read_full content count got (gives k ∷ rs) =
    let chunk = read_once k content (length got) (count - length got) in
    let more = read_full content count (got ++ chunk) rs in
    let finished : Received = record { received = got; status = done } in
    if ltb (length got) count then (if length chunk == 0 then finished else more) else finished
read_full content count got (ReadReply.interrupted ∷ rs) =
    let more = read_full content count got rs in
    if ltb (length got) count then more else record { received = got; status = done }
read_full content count got (ReadReply.failed e ∷ rs) = record {
  received = got;
  status = if ltb (length got) count then error e else done;
}

-- An answer of `open`, `close`, `unlink` or `usleep`.
pub data Answer : Type 0 where
  ok : ℕ → Answer
  interrupted : Answer
  failed : Errno → Answer

pub data Retried : Type 0 where
  returns : ℕ → Retried
  fails : Errno → Retried
  waiting : Retried

-- `for (;;)` that tries again after EINTR: the answers of `open` are descriptors.
unfoldable pub open_retry : List Answer → Retried
open_retry [] = waiting
open_retry (ok fd ∷ rs) = returns fd
open_retry (interrupted ∷ rs) = open_retry rs
open_retry (failed e ∷ rs) = fails e

unfoldable pub close_retry : List Answer → Retried
close_retry [] = waiting
close_retry (ok _ ∷ rs) = returns 0
close_retry (interrupted ∷ rs) = close_retry rs
close_retry (failed e ∷ rs) = fails e

unfoldable pub unlink_retry : List Answer → Retried
unlink_retry [] = waiting
unlink_retry (ok _ ∷ rs) = returns 0
unlink_retry (interrupted ∷ rs) = unlink_retry rs
unlink_retry (failed e ∷ rs) = fails e

-- `useconds_t` and `unsigned int` have 32 bits.
abbrev pub u32 : ℕ → ℕ
u32 n = n % 2 ^ 32

-- The argument of `usleep`, from `delay_ms` and the process's own number.
unfoldable pub usleep_arg : ℕ → ℕ → ℕ
usleep_arg delay_ms self = u32 (u32 (delay_ms + self % 17) * 1000)
