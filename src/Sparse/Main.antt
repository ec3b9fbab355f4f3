-- ===== src/Sparse/Main.antt =====
-- `main` of the copier: its options, the descriptors and the buffer that it holds, and its exits.
use unix_tasks.Prelude.{
  ℕ, Bool, true, false, not, ◌&&◌, List, [], ◌∷◌, ◌==◌, if◌then◌else◌, Bytes, Option, none, some,
}
use unix_tasks.Kernel.{ReadReply, WriteReply}
use unix_tasks.Text.Number.{strtoul}
use unix_tasks.Sparse.Disk.{Disk}
use unix_tasks.Sparse.Copy.{
  Stage, open_input, open_output, malloc_buffer, ftruncate_output, close_input, close_output, Copy,
  Progress, proceeds, dies, waits, copy_loop,
}

-- An answer of `getopt(argc, argv, "b:")`: `-b` with `optarg`, or `?`.
pub data GetOpt : Type 0 where
  opt_b : Bytes → GetOpt
  opt_unknown : GetOpt

-- Why `main` returns EXIT_FAILURE, or exits with it in `die`.
pub data Failure : Type 0 where
  invalid_block_size usage : Failure
  died : Stage → Failure

pub data Exit : Type 0 where
  success : Exit
  failure : Failure → Exit
  unfinished : Exit

abbrev pub default_block_size : ℕ
default_block_size = 4096

pub data Options : Type 0 where
  sized : ℕ → Options
  refused : Failure → Options

-- The body of `case 'b'`, then the rest of the options.
abbrev pub set_block_size : Option ℕ → (ℕ → Options) → Options
set_block_size none rest = refused invalid_block_size
set_block_size (some parsed) rest = if parsed == 0 then refused invalid_block_size else rest parsed

unfoldable pub parse_options : ℕ → List GetOpt → Options
parse_options block_size [] = sized block_size
parse_options block_size (opt_b arg ∷ opts) =
    set_block_size (strtoul arg) (λ parsed. parse_options parsed opts)
parse_options block_size (opt_unknown ∷ opts) = refused usage

-- What the kernel answers to each call, and the bytes that the input holds.
pub record Kernel : Type 0 where
  pub source : Bytes
  pub opens_input : Bool
  pub opens_output : Bool
  pub allocates : Bool
  pub reads : List ReadReply
  pub writes : List WriteReply
  pub seeks : List Bool
  pub truncates : Bool
  pub closes_input : Bool
  pub closes_output : Bool

-- What the process holds. Standard input is not its own to close.
pub record Process (disk : Disk) : Type 0 where
  pub file : disk.File
  pub input_open : Bool
  pub output_open : Bool
  pub buffer : Bool

module _ (disk : Disk) where
  -- Before any call.
  abbrev pub idle : Process disk
  idle = record { file = disk.created; input_open = false; output_open = false; buffer = false }

  abbrev free : Process disk → Process disk
  free p = record p { buffer = false }

  abbrev close_in : Process disk → Process disk
  close_in p = record p { input_open = false }

  abbrev close_out : Process disk → Process disk
  close_out p = record p { output_open = false }

  -- `if (in_path != NULL) close(in_fd);`
  abbrev close_in_if : Bool → Process disk → Process disk
  close_in_if named p = if named then close_in p else p

  -- The blocks in front of `die` in the copy loop and after `ftruncate`.
  unfoldable pub release : Bool → Process disk → Process disk
  release named p = let p1 = free p in let p2 = close_in_if named p1 in close_out p2

  -- From `free(buf)` after the loop to the end of `main`.
  unfoldable pub close_files : Bool → Kernel → Process disk → Process disk × Exit
  close_files named k p =
      let p1 = free p in
      let p2 = close_in_if named p1 in
      if named && not k.closes_input
      then (close_out p2, failure (died close_input))
      else if not k.closes_output
      then (close_out p2, failure (died close_output))
      else (close_out p2, success)

  -- After the loop: `ftruncate` to the logical size.
  unfoldable pub set_size : Bool → Kernel → ℕ → Process disk → Process disk × Exit
  unfolding close_files release
  set_size named k logical_size p =
      if not k.truncates
      then (release named p, failure (died ftruncate_output))
      else close_files named k (record p { file = disk.ftruncate p.file logical_size })

  unfoldable pub after_loop :
      Bool → Kernel → Process disk → Copy disk × Progress → Process disk × Exit
  unfolding set_size release
  after_loop named k p (s, proceeds) = set_size named k s.logical_size (record p { file = s.file })
  after_loop named k p (s, dies stage) =
      (release named (record p { file = s.file }), failure (died stage))
  after_loop named k p (s, waits) = (record p { file = s.file }, unfinished)

  abbrev pub start : Kernel → Copy disk
  start k = record {
    file = disk.created;
    input = k.source;
    logical_size = 0;
    writes = k.writes;
    seeks = k.seeks;
  }

  -- From `open(in_path)` on; `named` tells `in_path != NULL`.
  unfoldable pub run : ℕ → Bool → Kernel → Process disk × Exit
  run block_size named k =
      let reading = record idle { input_open = named } in
      let writing = record reading { output_open = true } in
      if named && not k.opens_input
      then (idle, failure (died open_input))
      else if not k.opens_output
      then (close_in_if named reading, failure (died open_output))
      else if not k.allocates
      then (close_out (close_in_if named writing), failure (died malloc_buffer))
      else after_loop named k (record writing { buffer = true })
          (copy_loop disk block_size (start k) k.reads)

  -- One operand is the output, two are the input and the output.
  abbrev pub with_operands : Options → List Bytes → Kernel → Process disk × Exit
  with_operands (sized n) (out_path ∷ []) k = run n false k
  with_operands (sized n) (in_path ∷ out_path ∷ []) k = run n true k
  with_operands (refused why) operands k = (idle, failure why)
  with_operands (sized n) operands k = (idle, failure usage)

  -- `main`, on the answers of `getopt` and the operands behind the options.
  unfoldable pub main : List GetOpt → List Bytes → Kernel → Process disk × Exit
  main options operands k = with_operands (parse_options default_block_size options) operands k
