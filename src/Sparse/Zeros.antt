-- ===== src/Sparse/Zeros.antt =====
-- Sparseness: blocks of zeros are skipped, never written.
use unix_tasks.Prelude.{
  ℕ, zero, suc, ◌≡◌, refl, ◌∙◌, Bool, true, false, List, [], ◌∷◌, ◌==◌, arith, length, take, drop,
  min, Bytes, Bool-cases, inl, inr,
}
use unix_tasks.Kernel.{ReadReply, gives, interrupted, failed}
use unix_tasks.Sparse.Disk.{Disk}
use unix_tasks.Sparse.Block.{block_is_all_zeroes}
use unix_tasks.Sparse.Copy.{
  Copy, Progress, proceeds, dies, waits, skip_block, copy_block, after_block, copy_loop,
}

all_zeroes-take :
    (n : ℕ) (bs : Bytes)
    → block_is_all_zeroes bs ≡ true
    → (block_is_all_zeroes (take n bs) ≡ true) × (block_is_all_zeroes (drop n bs) ≡ true)
unfolding block_is_all_zeroes
all_zeroes-take zero bs h = (refl, h)
all_zeroes-take (suc n) [] h = (refl, refl)
all_zeroes-take (suc n) (c ∷ cs) h = ground (arith, all_zeroes-take n cs)

module _ (disk : Disk) where
  -- What `lseek` cannot change: the answers of `write` that are left and the size of the file.
  pub record Unwritten (s t : Copy disk) : Type 0 where
    pub no_write : t.writes ≡ s.writes
    pub no_growth : disk.size t.file ≡ disk.size s.file

  skip_block-Unwritten :
      (s t : Copy disk) (m : ℕ) (seeks : List Bool)
      → Unwritten s t
      → Unwritten s (skip_block disk t m seeks).0 × ((skip_block disk t m seeks).0.input ≡ t.input)
  unfolding skip_block
  skip_block-Unwritten s t m [] v = (v, refl)
  skip_block-Unwritten s t m (false ∷ rest) v =
      (record { no_write = v.no_write; no_growth = v.no_growth }, refl)
  skip_block-Unwritten s t m (true ∷ rest) v = (
    record { no_write = v.no_write; no_growth = disk.size-lseek_cur t.file m ∙ v.no_growth },
    refl,
  )

  after_block-Unwritten :
      (s : Copy disk) (r : Copy disk × Progress) (next_round : Copy disk → Copy disk × Progress)
      → Unwritten s r.0
      → Unwritten s (next_round r.0).0
      → Unwritten s (after_block disk r next_round).0
  unfolding after_block
  after_block-Unwritten s (t, proceeds) next_round v w = w
  after_block-Unwritten s (t, dies stage) next_round v w = v
  after_block-Unwritten s (t, waits) next_round v w = v

  copy_loop-zeros :
      (rs : List ReadReply) (n : ℕ) (s t : Copy disk)
      → block_is_all_zeroes t.input ≡ true
      → Unwritten s t
      → Unwritten s (copy_loop disk n t rs).0
  unfolding copy_loop copy_block
  copy_loop-zeros [] n s t z v = v
  copy_loop-zeros (interrupted ∷ rs) n s t z v = copy_loop-zeros rs n s t z v
  copy_loop-zeros (failed e ∷ rs) n s t z v = v
  copy_loop-zeros (gives k ∷ rs) n s t z v =
      let m = min (suc k) n in
      let read = record t { input = drop m t.input } in
      let (front, back) = all_zeroes-take m t.input z in
      elim (Bool-cases (length (take m t.input) == 0)) [
        | inl eof ↦ rw eof v
        | inr more ↦
            let (kept, same) =
              skip_block-Unwritten s read (length (take m t.input)) t.seeks
                (record { no_write = v.no_write; no_growth = v.no_growth }) in
            rw (more, front)
              (after_block-Unwritten s _ (λ s'. copy_loop disk n s' rs) kept
                (copy_loop-zeros rs n s _ (rw same back) kept))
      ]

  -- An input of zeros is copied without one call of `write`: all the answers of `write` are still
  -- there when the loop stops, whatever they are, and the file has not grown.
  pub copy_loop-Unwritten :
      (rs : List ReadReply) (n : ℕ) (s : Copy disk)
      → block_is_all_zeroes s.input ≡ true
      → Unwritten s (copy_loop disk n s rs).0
  copy_loop-Unwritten rs n s z =
      copy_loop-zeros rs n s s z (record { no_write = refl; no_growth = refl })
