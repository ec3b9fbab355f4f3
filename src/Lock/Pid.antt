-- ===== src/Lock/Pid.antt =====
-- The text of the lock file: `write_pid_line` writes it and `parse_pid_file_content` reads it.
pub mod Format
use unix_tasks.Prelude.{
  ℕ, ◌+◌, ◌-◌, ◌*◌, ◌%◌, ◌^◌, not, ◌||◌, Option, none, some, [], ◌∷◌, ◌++◌, ◌==◌, leb, ltb, length,
  get_or, take, if◌then◌else◌, Bytes,
}
use unix_tasks.Text.Digits.{digit_run, is_digit}
use unix_tasks.Text.Print.{print}

abbrev pub int_max : ℕ
int_max = 2147483647

-- The bytes of `snprintf(buf, 64, "%jd\n", pid)`.
unfoldable pub pid_line : ℕ → Bytes
pid_line pid = print pid ++ b'\n' ∷ []

-- `for (j = 0; j < i; j++)`, in `unsigned long long`.
unfoldable pub accumulate : ℕ → Bytes → Option ℕ
accumulate acc [] = some acc
accumulate acc (c ∷ cs) =
    let sum = (acc * 10 + (c - b'0')) % 2 ^ 64 in
    let more = accumulate sum cs in if ltb int_max sum then none else more

-- `acc == 0ULL` is no process.
abbrev pub nonzero : Option ℕ → Option ℕ
nonzero none = none
nonzero (some acc) = if acc == 0 then none else some acc

unfoldable pub parse_pid_file_content : Bytes → Option ℕ
parse_pid_file_content file =
    let i = digit_run file in
    if length file == 0
    then none
    else if i == 0
    then none
    else if leb (length file) i || not (get_or file i 0 == b'\n')
    then none
    else if not (i + 1 == length file)
    then none
    else nonzero (accumulate 0 (take i file))
