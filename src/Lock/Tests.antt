-- ===== src/Lock/Tests.antt =====
-- Runs of the lock program, and its theorems at concrete inputs.
use Prim.Native.String.{String}
use Prim.Native.Char.{code}
use unix_tasks.Prelude.{
  ℕ, ◌+◌, ◌*◌, ◌%◌, ◌≡◌, ◌<◌, ◌↔◌, refl, true, false, none, some, List, [], ◌∷◌, ◌++◌, arith, take,
  length, Bytes,
}
use unix_tasks.Kernel.{gives, takes, ReadReply, WriteReply, done}
use unix_tasks.Text.Print.{print}
use unix_tasks.Text.Digits.{digit_run}
use unix_tasks.Lock.Pid.{pid_line, accumulate, parse_pid_file_content}
use unix_tasks.Lock.Pid.Format.{Names, parse_pid_file_content_iff, parse-pid_line}
use unix_tasks.Lock.Calls.{write_full, read_full, usleep_arg}
use unix_tasks.Lock.Transfer.{write_full-prefix, write_full-done, read_full-take}
use unix_tasks.Text.Number.{strtoul}
use unix_tasks.Lock.Start.{
  GetOpt, opt_s, opt_d, default_settings, parse_options, path_max, lock_suffix, build_lock_path,
  Ready, with_operands, start,
}
use unix_tasks.Lock.Starting.{Accepted, last_delay, last_path, start-some}
use unix_tasks.Lock.Worker.{
  Point, checking, exited, Event, success, interrupt, sigint, judge, verify_ok, after_read,
  try_create, try_unlink, succeed, retry, react,
}
use unix_tasks.Lock.System.{act, run, initial}
use unix_tasks.Lock.Owner.{critical, IsPid}
use unix_tasks.Lock.Exclusion.{mutual_exclusion, verification_succeeds}
use unix_tasks.Lock.Clean.{has_failed}
use unix_tasks.Lock.Release.{nobody_fails, no_stale_lock}

abbrev codes : String → Bytes
codes String.[] = []
codes (String.◌∷◌ c s) = code c ∷ codes s

accepts : parse_pid_file_content (codes "4711\n") ≡ some 4711
unfolding parse_pid_file_content digit_run accumulate
accepts = refl

-- Leading zeros are accepted; a missing or second newline, 0 and numbers beyond `int` are not.
refuses :
    (parse_pid_file_content (codes "0042\n") ≡ some 42)
    × (parse_pid_file_content (codes "42") ≡ none)
    × (parse_pid_file_content (codes "42\n\n") ≡ none)
    × (parse_pid_file_content (codes "0\n") ≡ none)
    × (parse_pid_file_content (codes "2147483648\n") ≡ none)
    × (parse_pid_file_content (codes " 42\n") ≡ none)
unfolding parse_pid_file_content digit_run accumulate
refuses = (refl, refl, refl, refl, refl, refl)

parse_pid_file_content_iff_example :
    (parse_pid_file_content (codes "4711\n") ≡ some 4711) ↔ Names (codes "4711\n") 4711
parse_pid_file_content_iff_example = parse_pid_file_content_iff (codes "4711\n") 4711

parse-pid_line_example : parse_pid_file_content (pid_line 2147483647) ≡ some 2147483647
parse-pid_line_example = parse-pid_line 2147483647 (omega arith) (omega arith)

abbrev some_writes : List WriteReply
some_writes = takes 1 ∷ WriteReply.interrupted ∷ takes 0 ∷ takes 7 ∷ []

write_full-prefix_example :
    (left : Bytes) × ((write_full (codes "abc") some_writes).sent ++ left ≡ codes "abc")
    × ((write_full (codes "abc") some_writes).status ≡ done → left ≡ [])
write_full-prefix_example = write_full-prefix (codes "abc") some_writes

write_full-done_example : (write_full (codes "abc") some_writes).status ≡ done
write_full-done_example = write_full-done (codes "abc") some_writes tt (omega arith)

abbrev some_reads : List ReadReply
some_reads = gives 1 ∷ ReadReply.interrupted ∷ gives 9 ∷ gives 0 ∷ []

read_full_stops : (read_full (codes "abcde") 4 [] some_reads).status ≡ done
unfolding read_full
read_full_stops = refl

read_full-take_example :
    (read_full (codes "abcde") 4 [] some_reads).received ≡ take 4 (codes "abcde")
read_full-take_example =
    read_full-take some_reads (codes "abcde") 4 [] refl (omega arith) read_full_stops

abbrev numbers : ℕ → ℕ
numbers i = i % 1000 + 1

numbers-IsPid : (i : ℕ) → IsPid (numbers i)
numbers-IsPid i = omega arith

abbrev ok : ℕ → ℕ × Event
ok i = (i, success 200)

-- Process 0 creates the file, and process 1 finds it there.
abbrev contended : List (ℕ × Event)
contended = ok 0 ∷ ok 0 ∷ ok 1 ∷ ok 1 ∷ []

first_inside :
    (critical ((run numbers contended initial).proc 0).point ≡ true)
    × (((run numbers contended initial).proc 1).point ≡ Point.pausing)
    × ((run numbers contended initial).shared.entry ≡ some 0)
unfolding run act react succeed try_create
first_inside = (refl, refl, refl)

mutual_exclusion_example : ◌≡◌ {A = ℕ} 0 0
mutual_exclusion_example =
    mutual_exclusion numbers numbers-IsPid contended 0 0 first_inside.0 first_inside.0

nobody_fails_example : has_failed ((run numbers contended initial).proc 1).point ≡ false
nobody_fails_example =
    nobody_fails numbers numbers-IsPid contended 1 (refl, (refl, (refl, (refl, tt))))

no_stale_lock_example : (i : ℕ) × (critical ((run numbers contended initial).proc i).point ≡ true)
no_stale_lock_example =
    no_stale_lock numbers numbers-IsPid contended 0 (refl, (refl, (refl, (refl, tt))))
      first_inside.2

-- Write, close, sleep through an interruption, open, read, read at the end, read beyond.
abbrev verified : List (ℕ × Event)
verified = contended ++ ok 0 ∷ ok 0 ∷ (0, interrupt) ∷ ok 0 ∷ ok 0 ∷ ok 0 ∷ ok 0 ∷ ok 0 ∷ []

at_check : ((run numbers verified initial).proc 0).point ≡ checking (codes "1\n")
unfolding run act react succeed retry try_create after_read pid_line print
at_check = refl

verification_succeeds_example : judge 1 (codes "1\n") ≡ verify_ok
verification_succeeds_example = verification_succeeds numbers numbers-IsPid verified 0 at_check

-- After SIGINT the process removes its lock, counts it, writes its statistics and ends.
abbrev stopped : List (ℕ × Event)
stopped = verified ++ (0, sigint) ∷ ok 0 ∷ ok 0 ∷ ok 0 ∷ ok 0 ∷ ok 0 ∷ []

one_lock :
    (((run numbers stopped initial).proc 0).point ≡ exited)
    × ((run numbers stopped initial).shared.entry ≡ none)
    × ((run numbers stopped initial).shared.stats ≡ codes "PID=1 LOCKS=1\n")
unfolding run act react succeed retry try_create after_read try_unlink judge pid_line print
    parse_pid_file_content digit_run accumulate
one_lock = (refl, refl, refl)

abbrev quick : Ready
quick = record {
  settings = record { stats_path = codes "s.txt"; delay_ms = 250 };
  lckpath = codes "f.lck";
}

abbrev quick_options : List GetOpt
quick_options = opt_d (codes "5") ∷ opt_s (codes "s.txt") ∷ opt_d (codes "250") ∷ []

starts-quick : start quick_options (codes "f" ∷ []) true ≡ some quick
unfolding start parse_options strtoul with_operands build_lock_path
starts-quick = refl

refuses-delay :
    (start (opt_d (codes "1000001") ∷ []) (codes "f" ∷ []) true ≡ none)
    × (start (opt_d (codes "1s") ∷ []) (codes "f" ∷ []) true ≡ none)
    × (start [] [] true ≡ none)
unfolding start parse_options strtoul with_operands build_lock_path
refuses-delay = (refl, refl, refl)

start-some_example :
    Accepted quick_options
    × (quick.settings.delay_ms ≡ last_delay 100 quick_options)
    × (quick.settings.stats_path ≡ last_path default_settings.stats_path quick_options)
    × ((myfile : Bytes) × (codes "f" ∷ [] ≡ myfile ∷ [])
        × (quick.lckpath ≡ myfile ++ lock_suffix)
        × (length quick.lckpath < path_max))
    × ((self : ℕ)
        → usleep_arg quick.settings.delay_ms self ≡ (quick.settings.delay_ms + self % 17) * 1000)
start-some_example = start-some quick_options (codes "f" ∷ []) true quick starts-quick
