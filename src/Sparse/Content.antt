-- ===== src/Sparse/Content.antt =====
-- What the output file holds while the copier runs: the bytes copied so far, with every block of
-- zeros left out by `lseek` read back as zeros.
use unix_tasks.Prelude.{
  ℕ, zero, suc, ◌+◌, ◌-◌, ◌≤◌, ◌<◌, ◌≡◌, refl, sym, ap, subst, ◌∙◌, Bool, true, false, List, [],
  ◌∷◌, ◌++◌, append_assoc, append-nil, arith, ltb, ◌==◌, length, length-append, take, drop, get_or,
  get_or-past, get_or-append, take-add, take-all, length-take, length-drop, take-append-drop, Bytes,
  Bool-cases, ltb→lt, inl, inr, min,
}
use unix_tasks.Kernel.{
  ReadReply, gives, interrupted, failed, WriteReply, takes, takes_none, Status, done, error,
  blocked,
}
use unix_tasks.Sparse.Disk.{Disk}
use unix_tasks.Sparse.Block.{block_is_all_zeroes, full_write}
use unix_tasks.Sparse.Copy.{
  Copy, Progress, proceeds, dies, waits, skip_block, after_write, copy_block, copy_loop,
  after_block,
}

take-eq-nil : (n : ℕ) (xs : Bytes) → 0 < n → (length (take n xs) == 0) ≡ true → xs ≡ []
take-eq-nil zero xs h e = absurd (omega arith)
take-eq-nil (suc n) [] h e = refl
take-eq-nil (suc n) (x ∷ xs) h e = ground arith

all_zeroes-get_or : (bs : Bytes) (i : ℕ) → block_is_all_zeroes bs ≡ true → get_or bs i 0 ≡ 0
unfolding block_is_all_zeroes
all_zeroes-get_or [] i h = refl
all_zeroes-get_or (c ∷ cs) zero h = ground arith
all_zeroes-get_or (c ∷ cs) (suc i) h = ground (arith, all_zeroes-get_or cs i)

module _ (disk : Disk) where
  open disk use {
    File, offset, size, byte, write, lseek_cur, offset-write, size-write, byte-write,
    offset-lseek_cur, size-lseek_cur, byte-lseek_cur,
  }

  -- The file stands for the bytes `p`, once it is extended to their length.
  pub record Holds (f : File) (p : Bytes) : Type 0 where
    pub at : offset f ≡ length p
    pub within : size f ≤ length p
    pub reads : (i : ℕ) → byte f i ≡ get_or p i 0

  write-Holds : (f : File) (p bs : Bytes) → 0 < length bs → Holds f p → Holds (write f bs) (p ++ bs)
  write-Holds f p bs h v = record {
    at = omega (arith, offset-write f bs, length-append {0} p bs, v.at);
    within = omega (arith, size-write f bs h, length-append {0} p bs, v.at, v.within);
    reads = λ i. ground (
      arith,
      byte-write f bs i,
      v.reads i,
      v.at,
      get_or-append p bs i,
      get_or-past p i 0,
      get_or-past bs (i - length p) 0,
    );
  }

  lseek_cur-Holds :
      (f : File) (p bs : Bytes)
      → block_is_all_zeroes bs ≡ true
      → Holds f p
      → Holds (lseek_cur f (length bs)) (p ++ bs)
  lseek_cur-Holds f p bs z v = record {
    at = omega (arith, offset-lseek_cur f (length bs), length-append {0} p bs, v.at);
    within = omega (arith, size-lseek_cur f (length bs), length-append {0} p bs, v.within);
    reads = λ i. ground (
      arith,
      byte-lseek_cur f (length bs) i,
      v.reads i,
      get_or-append p bs i,
      get_or-past p i 0,
      all_zeroes-get_or bs (i - length p) z,
    );
  }

  -- One answer of `write` that takes bytes extends what the file stands for.
  takes-Holds :
      (f : File) (p buf : Bytes) (w k : ℕ)
      → w < length buf
      → Holds f (p ++ take w buf)
      → Holds
          (write f (take (suc k) (drop w buf)))
          (p ++ take (w + length (take (suc k) (drop w buf))) buf)
  takes-Holds f p buf w k lt v =
      let now = take (suc k) (drop w buf) in
      let some_taken : 0 < length now =
        omega (arith, length-take {0} (suc k) (drop w buf), length-drop {0} w buf) in
      rw (← take-add w (suc k) buf, ← append_assoc)
        (write-Holds f (p ++ take w buf) now some_taken v)

  all-Holds :
      (f : File) (p buf : Bytes) (w : ℕ)
      → ltb w (length buf) ≡ false
      → Holds f (p ++ take w buf)
      → Holds f (p ++ buf)
  all-Holds f p buf w over v = rw (take-all w buf (ground arith)) at v

  full_write-Holds :
      (rs : List WriteReply) (f : File) (p buf : Bytes) (w : ℕ)
      → Holds f (p ++ take w buf)
      → (full_write disk f buf w rs).status ≡ done
      → Holds (full_write disk f buf w rs).file (p ++ buf)
  unfolding full_write
  full_write-Holds [] f p buf w v e = elim (Bool-cases (ltb w (length buf))) [
    | inl more ↦ cc (rw more at e)
    | inr over ↦ all-Holds f p buf w over v
  ]
  full_write-Holds (takes k ∷ rs) f p buf w v e = elim (Bool-cases (ltb w (length buf))) [
    | inl more ↦ rw more (
        full_write-Holds rs _ p buf _ (takes-Holds f p buf w k (ltb→lt w (length buf) more) v)
          (rw more at e))
    | inr over ↦ rw over (all-Holds f p buf w over v)
  ]
  full_write-Holds (takes_none ∷ rs) f p buf w v e = elim (Bool-cases (ltb w (length buf))) [
    | inl more ↦ cc (rw more at e)
    | inr over ↦ rw over (all-Holds f p buf w over v)
  ]
  full_write-Holds (interrupted ∷ rs) f p buf w v e = elim (Bool-cases (ltb w (length buf))) [
    | inl more ↦ rw more (full_write-Holds rs f p buf w v (rw more at e))
    | inr over ↦ rw over (all-Holds f p buf w over v)
  ]
  full_write-Holds (failed x ∷ rs) f p buf w v e = elim (Bool-cases (ltb w (length buf))) [
    | inl more ↦ cc (rw more at e)
    | inr over ↦ rw over (all-Holds f p buf w over v)
  ]

  -- After copying the first `p` of the bytes `src`.
  pub record Copied (src p : Bytes) (s : Copy disk) : Type 0 where
    pub splits : p ++ s.input ≡ src
    pub counts : s.logical_size ≡ length p
    pub holds : Holds s.file p

  skip_block-Copied :
      (src p block : Bytes) (s : Copy disk) (seeks : List Bool)
      → (p ++ block) ++ s.input ≡ src
      → s.logical_size ≡ length p
      → Holds s.file p
      → block_is_all_zeroes block ≡ true
      → (skip_block disk s (length block) seeks).1 ≡ proceeds
      → Copied src (p ++ block) (skip_block disk s (length block) seeks).0
  unfolding skip_block
  skip_block-Copied src p block s [] split count v z e = cc
  skip_block-Copied src p block s (false ∷ rest) split count v z e = cc
  skip_block-Copied src p block s (true ∷ rest) split count v z e = record {
    splits = split;
    counts = omega (arith, length-append {0} p block);
    holds = lseek_cur-Holds s.file p block z v;
  }

  after_write-Copied :
      (src p block : Bytes) (s : Copy disk) (status : Status)
      → (p ++ block) ++ s.input ≡ src
      → s.logical_size ≡ length p
      → (status ≡ done → Holds s.file (p ++ block))
      → (after_write disk s (length block) status).1 ≡ proceeds
      → Copied src (p ++ block) (after_write disk s (length block) status).0
  unfolding after_write
  after_write-Copied src p block s done split count v e = record {
    splits = split;
    counts = omega (arith, length-append {0} p block);
    holds = v refl;
  }
  after_write-Copied src p block s (error x) split count v e = cc
  after_write-Copied src p block s blocked split count v e = cc

  -- A pass through the body that goes on has copied its block.
  copy_block-Copied :
      (src p block : Bytes) (s : Copy disk)
      → (p ++ block) ++ s.input ≡ src
      → s.logical_size ≡ length p
      → Holds s.file p
      → (copy_block disk s block).1 ≡ proceeds
      → Copied src (p ++ block) (copy_block disk s block).0
  unfolding copy_block
  copy_block-Copied src p block s split count v e = elim (Bool-cases (block_is_all_zeroes block)) [
    | inl z ↦ rw z (skip_block-Copied src p block s s.seeks split count v z (rw z at e))
    | inr nz ↦ rw nz (
        after_write-Copied src p block _ _ split count
          (full_write-Holds s.writes s.file p block 0 (rw append-nil v)) (rw nz at e))
  ]

  after_block-proceeds :
      (r : Copy disk × Progress) (next_round : Copy disk → Copy disk × Progress)
      → (after_block disk r next_round).1 ≡ proceeds
      → (r.1 ≡ proceeds) × (after_block disk r next_round ≡ next_round r.0)
  unfolding after_block
  after_block-proceeds (s, proceeds) next_round e = (refl, refl)
  after_block-proceeds (s, dies stage) next_round e = cc
  after_block-proceeds (s, waits) next_round e = cc

  Copied-end : (src p : Bytes) (s : Copy disk) → s.input ≡ [] → Copied src p s → Copied src src s
  Copied-end src p s end v =
      let e : p ≡ src = sym (append-nil p) ∙ ap (λ r. p ++ r) (sym end) ∙ v.splits in
      subst (λ q. Copied src q s) e v

  -- A loop that ends has copied all of the input.
  pub copy_loop-Copied :
      (rs : List ReadReply) (block_size : ℕ) (src p : Bytes) (s : Copy disk)
      → 0 < block_size
      → Copied src p s
      → (copy_loop disk block_size s rs).1 ≡ proceeds
      → Copied src src (copy_loop disk block_size s rs).0
  unfolding copy_loop
  copy_loop-Copied [] block_size src p s b v e = cc
  copy_loop-Copied (interrupted ∷ rs) block_size src p s b v e =
      copy_loop-Copied rs block_size src p s b v e
  copy_loop-Copied (failed x ∷ rs) block_size src p s b v e = cc
  copy_loop-Copied (gives k ∷ rs) block_size src p s b v e =
      let n = min (suc k) block_size in
      let read = record s { input = drop n s.input } in
      elim (Bool-cases (length (take n s.input) == 0)) [
        | inl eof ↦ rw eof (Copied-end src p s (take-eq-nil n s.input (omega arith) eof) v)
        | inr more ↦
            let (pass, same) =
              after_block-proceeds (copy_block disk read (take n s.input))
                (λ s'. copy_loop disk block_size s' rs) (rw more at e) in
            let split : (p ++ take n s.input) ++ drop n s.input ≡ src =
              append_assoc p _ _ ∙ ap (λ r. p ++ r) (take-append-drop n s.input) ∙ v.splits in
            rw more (
              rw same (
                copy_loop-Copied rs block_size src (p ++ take n s.input) _ b
                  (copy_block-Copied src p (take n s.input) read split v.counts v.holds pass)
                  (rw (more, same) at e)))
      ]
