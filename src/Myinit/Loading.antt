-- ===== src/Myinit/Loading.antt =====
-- Whatever the file holds, the parser loads entries that can be run, and no others.
use unix_tasks.Prelude.{ℕ, ◌≡◌, refl, Option, none, some, List, Bool, Bool-cases, inl, inr, ltb}
use unix_tasks.Myinit.Config.{Config, allocate, max_config_size, parse_buffer}
use unix_tasks.Myinit.Entries.{AllRunnable, push_lines-AllRunnable}
use unix_tasks.Myinit.Files.{
  ConfigFile, Reading, filled, broken, pending, Load, loaded, refused, waiting, parsed_as,
  with_contents, with_buffer, with_size, parse_config_file,
}

-- A table of entries that was loaded holds only entries that can be run.
abbrev pub LoadRunnable : Load → Type 0
LoadRunnable (loaded cfg) = AllRunnable cfg.entries
LoadRunnable refused = Unit
LoadRunnable waiting = Unit

parsed_as-LoadRunnable :
    (o : Option Config)
    → ((cfg : Config) → o ≡ some cfg → AllRunnable cfg.entries)
    → LoadRunnable (parsed_as o)
parsed_as-LoadRunnable none h = tt
parsed_as-LoadRunnable (some cfg) h = h cfg refl

with_contents-LoadRunnable :
    (file : ConfigFile) (n : ℕ) (allocs : List Bool) (r : Reading)
    → LoadRunnable (with_contents file n allocs r)
unfolding parse_buffer
with_contents-LoadRunnable file n allocs (filled contents) =
    parsed_as-LoadRunnable _ (λ cfg. push_lines-AllRunnable _ cfg _ tt)
with_contents-LoadRunnable file n allocs broken = tt
with_contents-LoadRunnable file n allocs pending = tt

with_buffer-LoadRunnable :
    (file : ConfigFile) (n : ℕ) (o : Option (List Bool)) → LoadRunnable (with_buffer file n o)
with_buffer-LoadRunnable file n none = tt
with_buffer-LoadRunnable file n (some allocs) = with_contents-LoadRunnable file n allocs _

with_size-LoadRunnable :
    (file : ConfigFile) (allocs : List Bool) (o : Option ℕ) → LoadRunnable (with_size file allocs o)
with_size-LoadRunnable file allocs none = tt
with_size-LoadRunnable file allocs (some n) = elim (Bool-cases (ltb max_config_size n)) [
  | inl large ↦ rw large tt
  | inr small ↦ rw small (with_buffer-LoadRunnable file n (allocate 1 allocs))
]

-- Whatever the file, the memory and the reads are, also for a file that is cut off while it is
-- read: when the parser returns 0, every entry has a program and two files with absolute paths,
-- words without blanks, at most 254 arguments, and a log text that joins its arguments.
pub parse_config_file-LoadRunnable :
    (file : ConfigFile) (allocs : List Bool) → LoadRunnable (parse_config_file file allocs)
unfolding parse_config_file
parse_config_file-LoadRunnable file allocs = elim (Bool-cases file.opened) [
  | inl opened ↦ rw opened (with_size-LoadRunnable file allocs file.st_size)
  | inr closed ↦ rw closed tt
]
