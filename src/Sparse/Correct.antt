-- ===== src/Sparse/Correct.antt =====
-- The copy is exact: the content of the output file when `main` of the copier succeeds.
use unix_tasks.Prelude.{
  ℕ, ◌<◌, ◌≡◌, refl, ◌∙◌, Bool, true, false, List, [], ◌∷◌, ◌==◌, arith, length, get_or, Bytes,
  Bool-cases, inl, inr, Option, none, some,
}
use unix_tasks.Text.Number.{strtoul}
use unix_tasks.Sparse.Disk.{Disk}
use unix_tasks.Sparse.Copy.{Copy, Progress, proceeds, dies, waits, copy_loop}
use unix_tasks.Sparse.Content.{Copied, copy_loop-Copied}
use unix_tasks.Sparse.Main.{
  GetOpt, opt_b, opt_unknown, Options, sized, refused, set_block_size, parse_options,
  default_block_size, Kernel, Process, success, idle, start, run, after_loop, with_operands, main,
}

set_block_size-positive :
    (o : Option ℕ) (rest : ℕ → Options) (n : ℕ)
    → ((m : ℕ) → 0 < m → rest m ≡ sized n → 0 < n)
    → set_block_size o rest ≡ sized n
    → 0 < n
set_block_size-positive none rest n later e = cc
set_block_size-positive (some m) rest n later e = elim (Bool-cases (m == 0)) [
  | inl z ↦ cc (rw z at e)
  | inr nz ↦ later m (ground arith) (rw nz at e)
]

pub parse_options-positive :
    (opts : List GetOpt) (b n : ℕ) → 0 < b → parse_options b opts ≡ sized n → 0 < n
unfolding parse_options
parse_options-positive [] b n h e = ground arith
parse_options-positive (opt_b arg ∷ opts) b n h e =
    set_block_size-positive (strtoul arg) _ n (λ m p q. parse_options-positive opts m n p q) e
parse_options-positive (opt_unknown ∷ opts) b n h e = cc

module _ (disk : Disk) where
  -- The file is the bytes: as long as they are, with each of them in its place.
  pub record Reproduces (f : disk.File) (src : Bytes) : Type 0 where
    pub as_long : disk.size f ≡ length src
    pub same_bytes : (i : ℕ) → i < length src → disk.byte f i ≡ get_or src i 0

  after_loop_success :
      (named : Bool) (k : Kernel) (p : Process disk) (r : Copy disk × Progress)
      → (after_loop disk named k p r).1 ≡ success
      → (r.1 ≡ proceeds)
        × ((after_loop disk named k p r).0.file ≡ disk.ftruncate r.0.file r.0.logical_size)
  unfolding after_loop
  after_loop_success named k p (s, proceeds) e = ground arith
  after_loop_success named k p (s, dies stage) e = cc
  after_loop_success named k p (s, waits) e = cc

  run_success :
      (n : ℕ) (named : Bool) (k : Kernel)
      → (run disk n named k).1 ≡ success
      → ((copy_loop disk n (start disk k) k.reads).1 ≡ proceeds)
        × ((run disk n named k).0.file
            ≡ disk.ftruncate
                (copy_loop disk n (start disk k) k.reads).0.file
                (copy_loop disk n (start disk k) k.reads).0.logical_size)
  unfolding run
  run_success n named k e = ground (
    arith,
    after_loop_success named k
        (record (idle disk) { input_open = named; output_open = true; buffer = true })
        (copy_loop disk n (start disk k) k.reads),
  )

  Copied-Reproduces :
      (src : Bytes) (s : Copy disk)
      → Copied disk src src s
      → Reproduces (disk.ftruncate s.file s.logical_size) src
  Copied-Reproduces src s v = record {
    as_long = disk.size-ftruncate s.file s.logical_size ∙ v.counts;
    same_bytes = λ i h.
        ground (arith, disk.byte-ftruncate s.file s.logical_size i, v.counts, v.holds.reads i);
  }

  start-Copied : (k : Kernel) → Copied disk k.source [] (start disk k)
  start-Copied k = record {
    splits = refl;
    counts = refl;
    holds = record {
      at = disk.offset-created;
      within = omega (arith, disk.size-created);
      reads = disk.byte-created;
    };
  }

  run-Reproduces :
      (n : ℕ) (named : Bool) (k : Kernel)
      → 0 < n
      → (run disk n named k).1 ≡ success
      → Reproduces (run disk n named k).0.file k.source
  run-Reproduces n named k h e =
      let (ends, file) = run_success n named k e in
      rw file (
        Copied-Reproduces k.source _
          (copy_loop-Copied disk k.reads n k.source [] (start disk k) h (start-Copied k) ends))

  with_operands-Reproduces :
      (o : Options) (operands : List Bytes) (k : Kernel)
      → ((n : ℕ) → o ≡ sized n → 0 < n)
      → (with_operands disk o operands k).1 ≡ success
      → Reproduces (with_operands disk o operands k).0.file k.source
  with_operands-Reproduces (sized n) (out ∷ []) k h e = run-Reproduces n false k (h n refl) e
  with_operands-Reproduces (sized n) (inp ∷ out ∷ []) k h e = run-Reproduces n true k (h n refl) e
  with_operands-Reproduces (refused why) operands k h e = cc
  with_operands-Reproduces (sized n) operands k h e = cc

  -- If `main` returns EXIT_SUCCESS, the output file reproduces the input: it is as long as the
  -- input and holds each byte of it in its place, whatever the block size, the short reads and the
  -- short writes were.
  pub main-Reproduces :
      (options : List GetOpt) (operands : List Bytes) (k : Kernel)
      → (main disk options operands k).1 ≡ success
      → Reproduces (main disk options operands k).0.file k.source
  unfolding main
  main-Reproduces options operands k e =
      with_operands-Reproduces (parse_options default_block_size options) operands k
        (λ n. parse_options-positive options default_block_size n (omega arith)) e
