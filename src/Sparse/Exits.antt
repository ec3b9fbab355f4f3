-- ===== src/Sparse/Exits.antt =====
-- How `main` of the copier ends: what it holds then, and when it succeeds.
use unix_tasks.Prelude.{
  ℕ, ◌≤◌, ◌<◌, ◌≡◌, ◌≢◌, refl, Bool, true, false, List, [], ◌∷◌, arith, length, Bytes, ◌⊎◌,
}
use unix_tasks.Kernel.{NoReadError, NoWriteError, reads_in, writes_in}
use unix_tasks.Sparse.Disk.{Disk}
use unix_tasks.Sparse.Copy.{Copy, Progress, proceeds, dies, waits, copy_loop}
use unix_tasks.Sparse.Correct.{parse_options-positive}
use unix_tasks.Sparse.Finishes.{NoSeekError, copy_loop-proceeds}
use unix_tasks.Sparse.Main.{
  GetOpt, Options, sized, refused, parse_options, default_block_size, Kernel, Process, success,
  unfinished, idle, start, run, after_loop, with_operands, main,
}

module _ (disk : Disk) where
  -- Nothing that the process acquired is left open or allocated.
  pub record Released (p : Process disk) : Type 0 where
    pub no_input : p.input_open ≡ false
    pub no_output : p.output_open ≡ false
    pub no_buffer : p.buffer ≡ false

  after_loop-Released :
      (named : Bool) (k : Kernel) (p : Process disk) (r : Copy disk × Progress)
      → p.input_open ≡ named
      → (after_loop disk named k p r).1 ≢ unfinished
      → Released (after_loop disk named k p r).0
  unfolding after_loop
  after_loop-Released named k p (s, proceeds) h e = ground arith
  after_loop-Released named k p (s, dies stage) h e = ground arith
  after_loop-Released named k p (s, waits) h e = absurd (e refl)

  run-Released :
      (n : ℕ) (named : Bool) (k : Kernel)
      → (run disk n named k).1 ≢ unfinished
      → Released (run disk n named k).0
  unfolding run
  run-Released n named k e = ground (
    arith,
    after_loop-Released named k
        (record (idle disk) { input_open = named; output_open = true; buffer = true })
        (copy_loop disk n (start disk k) k.reads),
  )

  with_operands-Released :
      (o : Options) (operands : List Bytes) (k : Kernel)
      → (with_operands disk o operands k).1 ≢ unfinished
      → Released (with_operands disk o operands k).0
  with_operands-Released (sized n) (out ∷ []) k e = run-Released n false k e
  with_operands-Released (sized n) (inp ∷ out ∷ []) k e = run-Released n true k e
  with_operands-Released (refused why) operands k e = ground arith
  with_operands-Released (sized n) operands k e = ground arith

  -- Whatever the kernel answers and at whichever call `main` gives up, when it exits both
  -- descriptors are closed and the buffer is freed.
  pub main-Released :
      (options : List GetOpt) (operands : List Bytes) (k : Kernel)
      → (main disk options operands k).1 ≢ unfinished
      → Released (main disk options operands k).0
  unfolding main
  main-Released options operands k e =
      with_operands-Released (parse_options default_block_size options) operands k e

  -- The kernel answers every call without an error, and often enough for all of the input.
  pub record Serves (k : Kernel) : Type 0 where
    pub opens_input : k.opens_input ≡ true
    pub opens_output : k.opens_output ≡ true
    pub allocates : k.allocates ≡ true
    pub reads_clean : NoReadError k.reads
    pub reads_last : length k.source < reads_in k.reads
    pub writes_clean : NoWriteError k.writes
    pub writes_last : length k.source ≤ writes_in k.writes
    pub seeks_clean : NoSeekError k.seeks
    pub seeks_last : length k.source ≤ length k.seeks
    pub truncates : k.truncates ≡ true
    pub closes_input : k.closes_input ≡ true
    pub closes_output : k.closes_output ≡ true

  after_loop-proceeds :
      (named : Bool) (k : Kernel) (p : Process disk) (r : Copy disk × Progress)
      → Serves k
      → r.1 ≡ proceeds
      → (after_loop disk named k p r).1 ≡ success
  unfolding after_loop
  after_loop-proceeds named k p (s, proceeds) v e = ground arith
  after_loop-proceeds named k p (s, dies stage) v e = cc
  after_loop-proceeds named k p (s, waits) v e = cc

  run-Serves :
      (n : ℕ) (named : Bool) (k : Kernel) → 0 < n → Serves k → (run disk n named k).1 ≡ success
  unfolding run
  run-Serves n named k h v =
      let ends =
        copy_loop-proceeds disk k.reads n (start disk k) h v.reads_clean v.reads_last (record {
          rest = omega arith;
          writes_clean = v.writes_clean;
          writes_last = v.writes_last;
          seeks_clean = v.seeks_clean;
          seeks_last = v.seeks_last;
        }) in
      ground (
        arith,
        after_loop-proceeds named k
            (record (idle disk) { input_open = named; output_open = true; buffer = true })
            (copy_loop disk n (start disk k) k.reads) v ends,
      )

  with_operands-Serves :
      (n : ℕ) (operands : List Bytes) (k : Kernel)
      → 0 < n
      → (length operands ≡ 1) ⊎ (length operands ≡ 2)
      → Serves k
      → (with_operands disk (sized n) operands k).1 ≡ success
  with_operands-Serves n [] k h two v = absurd (omega arith)
  with_operands-Serves n (out ∷ []) k h two v = run-Serves n false k h v
  with_operands-Serves n (inp ∷ out ∷ []) k h two v = run-Serves n true k h v
  with_operands-Serves n (a ∷ b ∷ c ∷ rest) k h two v = absurd (omega arith)

  -- With valid options, one operand or two, and a kernel that answers every call without an error
  -- and often enough, interruptions among the answers, `main` returns EXIT_SUCCESS.
  pub main-Serves :
      (options : List GetOpt) (operands : List Bytes) (k : Kernel) (n : ℕ)
      → parse_options default_block_size options ≡ sized n
      → (length operands ≡ 1) ⊎ (length operands ≡ 2)
      → Serves k
      → (main disk options operands k).1 ≡ success
  unfolding main
  main-Serves options operands k n e two v = rw e (
      with_operands-Serves n operands k
        (parse_options-positive options default_block_size n (omega arith) e) two v)
