-- ===== src/Sparse/Finishes.antt =====
-- The copier comes to an end when the kernel goes on answering without errors.
use unix_tasks.Prelude.{
  ℕ, suc, ◌+◌, ◌-◌, ◌≤◌, ◌<◌, ◌≡◌, refl, ap, Bool, true, false, List, [], ◌∷◌, arith, ltb, ltb→lt,
  ◌==◌, length, take, drop, length-take, length-drop, Bytes, Bool-cases, inl, inr, min,
}
use unix_tasks.Kernel.{
  ReadReply, gives, interrupted, failed, WriteReply, takes, takes_none, done, NoReadError,
  NoWriteError, reads_in, writes_in,
}
use unix_tasks.Sparse.Disk.{Disk}
use unix_tasks.Sparse.Block.{block_is_all_zeroes, Written, full_write}
use unix_tasks.Sparse.Copy.{
  Copy, Progress, proceeds, dies, waits, skip_block, after_write, copy_block, after_block,
  copy_loop,
}

-- Every `lseek` succeeds.
abbrev pub NoSeekError : List Bool → Type 0
NoSeekError [] = Unit
NoSeekError (b ∷ bs) = (b ≡ true) × NoSeekError bs

module _ (disk : Disk) where
  -- A write loop that is done, with answers left that hold no error, at most `n` of them used.
  record Done (rs : List WriteReply) (n : ℕ) (w : Written disk) : Type 0 where
    ends : w.status ≡ done
    clean : NoWriteError w.replies
    used : writes_in rs ≤ writes_in w.replies + n

  full_write-Done :
      (rs : List WriteReply) (f : disk.File) (buf : Bytes) (w : ℕ)
      → NoWriteError rs
      → length buf - w ≤ writes_in rs
      → Done rs (length buf - w) (full_write disk f buf w rs)
  unfolding full_write
  full_write-Done [] f buf w c h = ground arith
  full_write-Done (takes k ∷ rs) f buf w c h = elim (Bool-cases (ltb w (length buf))) [
    | inl more ↦
        let now = take (suc k) (drop w buf) in
        let some_taken : 0 < length now = omega (
          arith,
          length-take {0} (suc k) (drop w buf),
          length-drop {0} w buf,
          ltb→lt w (length buf) more,
        ) in
        let d = full_write-Done rs (disk.write f now) buf (w + length now) c (omega arith) in
        rw more (record {
          ends = d.ends;
          clean = d.clean;
          used = omega (arith, d.used, ltb→lt w (length buf) more);
        })
    | inr over ↦ rw over (record { ends = refl; clean = c; used = omega arith })
  ]
  full_write-Done (takes_none ∷ rs) f buf w c h = absurd c
  full_write-Done (interrupted ∷ rs) f buf w c h = elim (Bool-cases (ltb w (length buf))) [
    | inl more ↦
        let d = full_write-Done rs f buf w c h in
        rw more (record { ends = d.ends; clean = d.clean; used = d.used })
    | inr over ↦ rw over (record { ends = refl; clean = c; used = omega arith })
  ]
  full_write-Done (failed x ∷ rs) f buf w c h = absurd c

  -- Enough answers without an error for `n` more bytes of input.
  pub record Supplied (n : ℕ) (s : Copy disk) : Type 0 where
    pub rest : length s.input ≤ n
    pub writes_clean : NoWriteError s.writes
    pub writes_last : n ≤ writes_in s.writes
    pub seeks_clean : NoSeekError s.seeks
    pub seeks_last : n ≤ length s.seeks

  skip_block-Supplied :
      (n : ℕ) (s : Copy disk) (seeks : List Bool) (m : ℕ)
      → NoSeekError seeks
      → suc n ≤ length seeks
      → length s.input ≤ n
      → NoWriteError s.writes
      → n ≤ writes_in s.writes
      → ((skip_block disk s m seeks).1 ≡ proceeds)
        × Supplied n (skip_block disk s m seeks).0
        × ((skip_block disk s m seeks).0.input ≡ s.input)
  unfolding skip_block
  skip_block-Supplied n s [] m c l i w k = absurd (omega arith)
  skip_block-Supplied n s (false ∷ rest) m c l i w k = cc (c.0)
  skip_block-Supplied n s (true ∷ rest) m c l i w k = (
    refl,
    record {
      rest = i;
      writes_clean = w;
      writes_last = k;
      seeks_clean = c.1;
      seeks_last = omega arith;
    },
    refl,
  )

  copy_block-Supplied :
      (n : ℕ) (s : Copy disk) (block : Bytes)
      → 0 < length block
      → length s.input + length block ≤ n
      → NoWriteError s.writes
      → n ≤ writes_in s.writes
      → NoSeekError s.seeks
      → n ≤ length s.seeks
      → ((copy_block disk s block).1 ≡ proceeds)
        × Supplied (n - length block) (copy_block disk s block).0
        × ((copy_block disk s block).0.input ≡ s.input)
  unfolding copy_block after_write
  copy_block-Supplied n s block p i wc wl sc sl = elim (Bool-cases (block_is_all_zeroes block)) [
    | inl z ↦ rw z (
        skip_block-Supplied (n - length block) s s.seeks (length block) sc (omega arith)
          (omega arith) wc (omega arith))
    | inr nz ↦
        let d = full_write-Done s.writes s.file block 0 wc (omega arith) in
        rw (nz, d.ends)
          (
            refl,
            record {
              rest = omega arith;
              writes_clean = d.clean;
              writes_last = omega (arith, d.used);
              seeks_clean = sc;
              seeks_last = omega arith;
            },
            refl,
          )
  ]

  after_block-next :
      (r : Copy disk × Progress) (next_round : Copy disk → Copy disk × Progress)
      → r.1 ≡ proceeds
      → after_block disk r next_round ≡ next_round r.0
  unfolding after_block
  after_block-next (s, proceeds) next_round e = refl
  after_block-next (s, dies stage) next_round e = cc
  after_block-next (s, waits) next_round e = cc

  -- With answers for all of the input the loop reaches its end.
  pub copy_loop-proceeds :
      (rs : List ReadReply) (block_size : ℕ) (s : Copy disk)
      → 0 < block_size
      → NoReadError rs
      → length s.input < reads_in rs
      → Supplied (length s.input) s
      → (copy_loop disk block_size s rs).1 ≡ proceeds
  unfolding copy_loop
  copy_loop-proceeds [] block_size s b c l v = absurd (omega arith)
  copy_loop-proceeds (interrupted ∷ rs) block_size s b c l v =
      copy_loop-proceeds rs block_size s b c l v
  copy_loop-proceeds (failed x ∷ rs) block_size s b c l v = absurd c
  copy_loop-proceeds (gives k ∷ rs) block_size s b c l v =
      let n = min (suc k) block_size in
      let read = record s { input = drop n s.input } in
      let left = length-drop {0} n s.input in
      let got = length-take {0} n s.input in
      elim (Bool-cases (length (take n s.input) == 0)) [
        | inl eof ↦ rw eof
        | inr more ↦
            let full : 0 < length (take n s.input) = ground arith in
            let (pass, fed, same) =
              copy_block-Supplied (length s.input) read (take n s.input) full (omega arith)
                v.writes_clean v.writes_last v.seeks_clean v.seeks_last in
            let next = (copy_block disk read (take n s.input)).0 in
            let size : length s.input - length (take n s.input) ≡ length next.input =
              omega (arith, ap (length {A = ℕ}) same) in
            rw more (
              rw
                (after_block-next (copy_block disk read (take n s.input))
                  (λ s'. copy_loop disk block_size s' rs) pass)
                (copy_loop-proceeds rs block_size next b c (omega (arith, size)) (rw size at fed)))
      ]
