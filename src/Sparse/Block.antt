-- ===== src/Sparse/Block.antt =====
-- One block of the copier: `full_write` and `block_is_all_zeroes`.
use unix_tasks.Prelude.{
  ℕ, suc, ◌+◌, Bool, true, false, not, List, [], ◌∷◌, ◌==◌, ltb, length, take, drop, if◌then◌else◌,
  Bytes,
}
use unix_tasks.Kernel.{
  WriteReply, takes, takes_none, interrupted, failed, Status, done, error, blocked, eio,
}
use unix_tasks.Sparse.Disk.{Disk}

-- The loop stops at the first byte that is not 0.
unfoldable pub block_is_all_zeroes : Bytes → Bool
block_is_all_zeroes [] = true
block_is_all_zeroes (c ∷ cs) = if not (c == 0) then false else block_is_all_zeroes cs

-- The file behind `out_fd`, the answers that are left and what the loop returns.
pub record Written (disk : Disk) : Type 0 where
  pub file : disk.File
  pub replies : List WriteReply
  pub status : Status

module _ (disk : Disk) where
  -- `write(fd, p + written, count - written)` again and again, from `written` on.
  unfoldable pub full_write : disk.File → Bytes → ℕ → List WriteReply → Written disk
  full_write f buf written [] = record {
    file = f;
    replies = [];
    status = if ltb written (length buf) then blocked else done;
  }
  full_write f buf written (takes k ∷ rs) =
      let sent = take (suc k) (drop written buf) in
      let more = full_write (disk.write f sent) buf (written + length sent) rs in
      if ltb written (length buf)
      then more
      else record { file = f; replies = takes k ∷ rs; status = done }
  full_write f buf written (takes_none ∷ rs) =
      if ltb written (length buf)
      then record { file = f; replies = rs; status = error eio }
      else record { file = f; replies = takes_none ∷ rs; status = done }
  full_write f buf written (interrupted ∷ rs) =
      let more = full_write f buf written rs in
      if ltb written (length buf)
      then more
      else record { file = f; replies = interrupted ∷ rs; status = done }
  full_write f buf written (failed e ∷ rs) =
      if ltb written (length buf)
      then record { file = f; replies = rs; status = error e }
      else record { file = f; replies = failed e ∷ rs; status = done }
