-- ===== src/Sparse/Tests.antt =====
-- A disk in memory, runs of the copier on it, and its theorems at concrete inputs.
use unix_tasks.Prelude.{
  ℕ, ◌+◌, ◌-◌, ◌≡◌, refl, ◌&&◌, true, false, List, [], ◌∷◌, arith, ltb, leb, length, get_or, Bytes,
  if◌then◌else◌, inr,
}
use Prim.Native.Nat.{max}
use unix_tasks.Kernel.{gives, takes, ReadReply, WriteReply}
use unix_tasks.Text.Number.{strtoul}
use unix_tasks.Sparse.Disk.{Disk}
use unix_tasks.Sparse.Block.{block_is_all_zeroes}
use unix_tasks.Sparse.Copy.{Copy, copy_block, after_block, copy_loop, ftruncate_output}
use unix_tasks.Sparse.Main.{
  GetOpt, opt_b, sized, parse_options, Kernel, success, failure, died, usage, invalid_block_size,
  start, run, after_loop, main,
}
use unix_tasks.Sparse.Correct.{Reproduces, main-Reproduces}
use unix_tasks.Sparse.Exits.{Released, main-Released, Serves, main-Serves}
use unix_tasks.Sparse.Zeros.{Unwritten, copy_loop-Unwritten}

record Sheet : Type 0 where
  at : ℕ
  size : ℕ
  cell : ℕ → ℕ

abbrev sheet_write : Sheet → Bytes → Sheet
sheet_write f bs = record {
  at = f.at + length bs;
  size = max f.size (f.at + length bs);
  cell = λ i. if leb f.at i && ltb i (f.at + length bs) then get_or bs (i - f.at) 0 else f.cell i;
}

abbrev memory : Disk
memory = record {
  File = Sheet;
  created = record { at = 0; size = 0; cell = λ _. 0 };
  offset = λ f. f.at;
  size = λ f. f.size;
  byte = λ f. f.cell;
  write = sheet_write;
  lseek_cur = λ f n. record f { at = f.at + n };
  ftruncate = λ f n. record f { size = n; cell = λ i. if ltb i n then f.cell i else 0 };
  offset-created = refl;
  size-created = refl;
  byte-created = λ i. refl;
  offset-write = λ f bs. refl;
  size-write = λ f bs h. refl;
  byte-write = λ f bs i. refl;
  offset-lseek_cur = λ f n. refl;
  size-lseek_cur = λ f n. refl;
  byte-lseek_cur = λ f n i. refl;
  size-ftruncate = λ f n. refl;
  byte-ftruncate = λ f n i. refl;
}

-- Three bytes of data, four zeros and a byte, read in blocks of four, with short answers.
abbrev sample : Kernel
sample = record {
  source = 7 ∷ 0 ∷ 9 ∷ 0 ∷ 0 ∷ 0 ∷ 0 ∷ 0 ∷ 5 ∷ [];
  opens_input = true;
  opens_output = true;
  allocates = true;
  reads =
      gives 9
      ∷ ReadReply.interrupted
      ∷ gives 9
      ∷ gives 9
      ∷ gives 0
      ∷ gives 0
      ∷ gives 0
      ∷ gives 0
      ∷ gives 0
      ∷ gives 0
      ∷ gives 0
      ∷ [];
  writes =
      takes 1
      ∷ WriteReply.interrupted
      ∷ takes 0
      ∷ takes 3
      ∷ takes 0
      ∷ takes 0
      ∷ takes 0
      ∷ takes 0
      ∷ takes 0
      ∷ takes 0
      ∷ [];
  seeks = true ∷ true ∷ true ∷ true ∷ true ∷ true ∷ true ∷ true ∷ true ∷ [];
  truncates = true;
  closes_input = true;
  closes_output = true;
}

abbrev four : List GetOpt
four = opt_b (b'4' ∷ []) ∷ []

abbrev two_paths : List Bytes
two_paths = (b'a' ∷ []) ∷ (b'b' ∷ []) ∷ []

copies : (main memory four two_paths sample).1 ≡ success
unfolding main run after_loop copy_loop after_block copy_block parse_options strtoul
copies = refl

hole_reads_zero :
    ((main memory four two_paths sample).0.file.size ≡ 9)
    × ((main memory four two_paths sample).0.file.cell 2 ≡ 9)
    × ((main memory four two_paths sample).0.file.cell 5 ≡ 0)
    × ((main memory four two_paths sample).0.file.cell 8 ≡ 5)
unfolding main run after_loop copy_loop after_block copy_block parse_options strtoul
hole_reads_zero = (refl, refl, refl, refl)

zero_block_size :
    (main memory (opt_b (b'0' ∷ []) ∷ []) two_paths sample).1 ≡ failure invalid_block_size
unfolding main parse_options strtoul
zero_block_size = refl

no_operand : (main memory four [] sample).1 ≡ failure usage
unfolding main parse_options strtoul
no_operand = refl

main-Reproduces_example : Reproduces memory (main memory four two_paths sample).0.file sample.source
main-Reproduces_example = main-Reproduces memory four two_paths sample copies

abbrev full_disk : Kernel
full_disk = record sample { truncates = false }

full_disk_fails : (main memory four two_paths full_disk).1 ≡ failure (died ftruncate_output)
unfolding main run after_loop copy_loop after_block copy_block parse_options strtoul
full_disk_fails = refl

main-Released_example : Released memory (main memory four two_paths full_disk).0
main-Released_example = main-Released memory four two_paths full_disk (λ e. cc (full_disk_fails, e))

sample-Serves : Serves memory sample
sample-Serves = ground arith

four_lem : parse_options 4096 four ≡ sized 4
unfolding parse_options strtoul
four_lem = refl

main-Serves_example : (main memory four two_paths sample).1 ≡ success
main-Serves_example = main-Serves memory four two_paths sample 4 four_lem (inr refl) sample-Serves

abbrev zeros : Copy memory
zeros = start memory (record sample { source = 0 ∷ 0 ∷ 0 ∷ [] })

copy_loop-Unwritten_example : Unwritten memory zeros (copy_loop memory 2 zeros sample.reads).0
unfolding block_is_all_zeroes
copy_loop-Unwritten_example = copy_loop-Unwritten memory sample.reads 2 zeros refl
