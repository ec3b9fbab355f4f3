-- ===== src/Lock/Pid/Format.antt =====
-- The format of the lock file: exactly a positive decimal number that fits an `int`, and a newline.
use unix_tasks.Prelude.{
  ℕ, ◌+◌, ◌-◌, ◌*◌, ◌%◌, ◌^◌, ◌≤◌, ◌<◌, ◌≡◌, ◌↔◌, refl, sym, ap, ◌∙◌, none, some, [], ◌∷◌, ◌++◌,
  leb, arith, length, length-append, take, get_or, Bytes, if◌then◌else◌, take-append-drop,
  take-append_length, drop_last,
}
use unix_tasks.Text.Digits.{
  Digits, value, value_onto, le-value_onto, digit_run, digit_run-append, take-digit_run,
}
use unix_tasks.Text.Print.{print, value-print, Digits-print, length-print}
use unix_tasks.Lock.Pid.{int_max, pid_line, accumulate, nonzero, parse_pid_file_content}

-- The content names the process `pid`: digits that spell it, in the range of a positive `int`, and
-- one newline behind them.
pub record Names (file : Bytes) (pid : ℕ) : Type 0 where
  pub digits : Bytes
  pub all_digits : Digits digits
  pub shape : file ≡ digits ++ b'\n' ∷ []
  pub spells : value digits ≡ pid
  pub positive : 0 < pid
  pub fits : pid ≤ int_max

-- On digits the loop computes their value; it stops as soon as that leaves `int`, so that the sum
-- never wraps round.
accumulate-value :
    (cs : Bytes) (acc : ℕ)
    → Digits cs
    → acc ≤ int_max
    → accumulate acc cs
      ≡ (if leb (value_onto acc cs) int_max then some (value_onto acc cs) else none)
unfolding accumulate value_onto
accumulate-value [] acc d h = ground arith
accumulate-value (c ∷ cs) acc d h =
    let sum = acc * 10 + (c - b'0') in
    let exact : sum % 2 ^ 64 ≡ sum = ground arith in
    rw exact (ground (arith, accumulate-value cs sum d.1, le-value_onto sum cs))

nonzero-value :
    (ds : Bytes) {pid : ℕ}
    → Digits ds
    → nonzero (accumulate 0 ds) ≡ some pid
    → (value ds ≡ pid) × (0 < pid) × (pid ≤ int_max)
nonzero-value ds d e = ground (arith, accumulate-value ds 0 d)

value-nonzero :
    (ds : Bytes)
    → Digits ds
    → 0 < value ds
    → value ds ≤ int_max
    → nonzero (accumulate 0 ds) ≡ some (value ds)
value-nonzero ds d p f = ground (arith, accumulate-value ds 0 d)

-- What the tests before the loop establish.
parse_guards :
    (file : Bytes) {pid : ℕ}
    → parse_pid_file_content file ≡ some pid
    → (get_or file (digit_run file) 0 ≡ b'\n')
      × (digit_run file + 1 ≡ length file)
      × (nonzero (accumulate 0 (take (digit_run file) file)) ≡ some pid)
unfolding parse_pid_file_content
parse_guards file e = ground arith

value-length : (ds : Bytes) → 0 < value ds → 0 < length ds
unfolding value_onto
value-length [] h = absurd (omega arith)
value-length (c ∷ cs) h = omega arith

get_or-length : (ds : Bytes) (c : ℕ) → get_or (ds ++ c ∷ []) (length ds) 0 ≡ c
get_or-length [] c = refl
get_or-length (d ∷ ds) c = get_or-length ds c

parse-Names : (file : Bytes) {pid : ℕ} → parse_pid_file_content file ≡ some pid → Names file pid
parse-Names file {pid} e =
    let i = digit_run file in
    let (newline, last, number) = parse_guards file e in
    let (spelt, pos, small) = nonzero-value (take i file) (take-digit_run file) number in
    record {
      digits = take i file;
      all_digits = take-digit_run file;
      shape =
          sym (take-append-drop i file)
          ∙ ap (λ r. take i file ++ r) (drop_last i file 0 last ∙ ap (λ c. c ∷ []) newline);
      spells = spelt;
      positive = pos;
      fits = small;
    }

Names-parse : (file : Bytes) (pid : ℕ) → Names file pid → parse_pid_file_content file ≡ some pid
unfolding parse_pid_file_content
Names-parse file pid v =
    let ds = v.digits in
    let nl : Bytes = b'\n' ∷ [] in
    rw v.shape (
      ground (
        arith,
        digit_run-append ds nl v.all_digits refl,
        length-append {0} ds nl,
        get_or-length ds b'\n',
        take-append_length ds nl,
        value-length ds,
        value-nonzero ds v.all_digits,
      ))

-- `parse_pid_file_content` accepts exactly the contents that name a process, and returns the
-- process that they name.
pub parse_pid_file_content_iff :
    (file : Bytes) (pid : ℕ) → (parse_pid_file_content file ≡ some pid) ↔ Names file pid
parse_pid_file_content_iff file pid = (parse-Names file, Names-parse file pid)

pid_line-Names : (pid : ℕ) → 0 < pid → pid ≤ int_max → Names (pid_line pid) pid
unfolding pid_line
pid_line-Names pid p f = record {
  digits = print pid;
  all_digits = Digits-print pid;
  shape = refl;
  spells = value-print pid;
  positive = p;
  fits = f;
}

-- What `write_pid_line` writes for a process, `parse_pid_file_content` reads back.
pub parse-pid_line :
    (pid : ℕ) → 0 < pid → pid ≤ int_max → parse_pid_file_content (pid_line pid) ≡ some pid
parse-pid_line pid p f = Names-parse (pid_line pid) pid (pid_line-Names pid p f)

-- The line fits the 64 bytes of its buffer, with room for the NUL, and the 128 of the reader's.
pub length-pid_line : (pid : ℕ) → pid ≤ int_max → length (pid_line pid) ≤ 11
unfolding pid_line
length-pid_line pid f =
    omega (arith, length-print 9 pid (omega arith), length-append {0} (print pid) (b'\n' ∷ []))
