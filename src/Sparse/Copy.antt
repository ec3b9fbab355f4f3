-- ===== src/Sparse/Copy.antt =====
-- The copy loop of `main`.
use unix_tasks.Prelude.{
  ℕ, suc, ◌+◌, Bool, true, false, List, [], ◌∷◌, ◌==◌, length, take, drop, min, if◌then◌else◌,
  Bytes,
}
use unix_tasks.Kernel.{
  ReadReply, gives, interrupted, failed, WriteReply, Status, done, error, blocked,
}
use unix_tasks.Sparse.Disk.{Disk}
use unix_tasks.Sparse.Block.{block_is_all_zeroes, full_write}

-- The call at which the copier gave up.
pub data Stage : Type 0 where
  open_input open_output malloc_buffer read_input lseek_output write_output : Stage
  ftruncate_output close_input close_output : Stage

-- How the loop or a pass through its body ends.
pub data Progress : Type 0 where
  proceeds : Progress
  dies : Stage → Progress
  waits : Progress

-- The variables of the loop, what is left of the input, and the answers to come of `write` and
-- `lseek`.
pub record Copy (disk : Disk) : Type 0 where
  pub file : disk.File
  pub input : Bytes
  pub logical_size : ℕ
  pub writes : List WriteReply
  pub seeks : List Bool

module _ (disk : Disk) where
  -- `lseek(out_fd, rc, SEEK_CUR)` and what follows it.
  unfoldable pub skip_block : Copy disk → ℕ → List Bool → Copy disk × Progress
  skip_block s rc [] = (s, waits)
  skip_block s rc (false ∷ rest) = (record s { seeks = rest }, dies lseek_output)
  skip_block s rc (true ∷ rest) = (
    record s { file = disk.lseek_cur s.file rc; seeks = rest; logical_size = s.logical_size + rc },
    proceeds,
  )

  -- After `full_write`: its answer decides, and the size grows if it succeeded.
  unfoldable pub after_write : Copy disk → ℕ → Status → Copy disk × Progress
  after_write s rc done = (record s { logical_size = s.logical_size + rc }, proceeds)
  after_write s rc (error e) = (s, dies write_output)
  after_write s rc blocked = (s, waits)

  -- The body of the loop on a block that was read.
  unfoldable pub copy_block : Copy disk → Bytes → Copy disk × Progress
  unfolding block_is_all_zeroes full_write skip_block after_write
  copy_block s block =
      let w = full_write disk s.file block 0 s.writes in
      if block_is_all_zeroes block
      then skip_block s (length block) s.seeks
      else after_write (record s { file = w.file; writes = w.replies }) (length block) w.status

  -- `continue`, or leave the loop.
  unfoldable pub after_block :
      Copy disk × Progress → (Copy disk → Copy disk × Progress) → Copy disk × Progress
  after_block (s, proceeds) next_round = next_round s
  after_block (s, dies stage) next_round = (s, dies stage)
  after_block (s, waits) next_round = (s, waits)

  -- `for (;;)`, on the answers of `read`. An answer of no bytes is the end of the input.
  unfoldable pub copy_loop : ℕ → Copy disk → List ReadReply → Copy disk × Progress
  copy_loop block_size s [] = (s, waits)
  copy_loop block_size s (interrupted ∷ rs) = copy_loop block_size s rs
  copy_loop block_size s (failed e ∷ rs) = (s, dies read_input)
  copy_loop block_size s (gives k ∷ rs) =
      let block = take (min (suc k) block_size) s.input in
      let read = record s { input = drop (min (suc k) block_size) s.input } in
      if length block == 0
      then (s, proceeds)
      else after_block (copy_block read block) (λ s'. copy_loop block_size s' rs)
