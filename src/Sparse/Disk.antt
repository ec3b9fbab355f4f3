-- ===== src/Sparse/Disk.antt =====
-- The regular file that the copier writes, as POSIX describes `write`, `lseek` and `ftruncate` on
-- it. The file system is not part of the program: it is this record, with its laws.
use unix_tasks.Prelude.{ℕ, ◌+◌, ◌-◌, ◌<◌, ◌≡◌, ◌&&◌, length, get_or, ltb, leb, if◌then◌else◌, Bytes}
use Prim.Native.Nat.{max}

pub record Disk : Type 1 where
  pub File : Type 0
  -- A file that `open` has created or truncated.
  pub created : File
  pub offset : File → ℕ
  pub size : File → ℕ
  -- What a read at a position finds; past the end, what it would find if the file were extended.
  pub byte : File → ℕ → ℕ
  pub write : File → Bytes → File
  pub lseek_cur : File → ℕ → File
  pub ftruncate : File → ℕ → File
  pub offset-created : offset created ≡ 0
  pub size-created : size created ≡ 0
  pub byte-created : (i : ℕ) → byte created i ≡ 0
  pub offset-write : (f : File) (bs : Bytes) → offset (write f bs) ≡ offset f + length bs
  pub size-write :
      (f : File) (bs : Bytes)
      → 0 < length bs
      → size (write f bs) ≡ max (size f) (offset f + length bs)
  pub byte-write :
      (f : File) (bs : Bytes) (i : ℕ)
      → byte (write f bs) i ≡ (
          if leb (offset f) i && ltb i (offset f + length bs)
          then get_or bs (i - offset f) 0
          else byte f i)
  -- Seeking past the end leaves the file as it is.
  pub offset-lseek_cur : (f : File) (n : ℕ) → offset (lseek_cur f n) ≡ offset f + n
  pub size-lseek_cur : (f : File) (n : ℕ) → size (lseek_cur f n) ≡ size f
  pub byte-lseek_cur : (f : File) (n i : ℕ) → byte (lseek_cur f n) i ≡ byte f i
  -- Extending reads as zeros, as `byte` has it already.
  pub size-ftruncate : (f : File) (n : ℕ) → size (ftruncate f n) ≡ n
  pub byte-ftruncate :
      (f : File) (n i : ℕ) → byte (ftruncate f n) i ≡ (if ltb i n then byte f i else 0)
