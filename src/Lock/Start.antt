-- ===== src/Lock/Start.antt =====
-- How a process of the lock program starts: its options, the path of the lock file, and the signal
-- handler (`main` of task2-lock/lockprog.c in front of its loop).
use unix_tasks.Prelude.{
  ℕ, Bool, Option, none, some, List, [], ◌∷◌, ◌++◌, ltb, leb, length, Bytes, if◌then◌else◌, ◌>>=◌,
}
use unix_tasks.Text.Number.{strtoul}
use unix_tasks.Lock.Calls.{u32}

-- An answer of `getopt(argc, argv, "s:d:")`: an option with `optarg`, or `?`.
pub data GetOpt : Type 0 where
  opt_s opt_d : Bytes → GetOpt
  opt_unknown : GetOpt

pub record Settings : Type 0 where
  pub stats_path : Bytes
  pub delay_ms : ℕ

-- `stats.txt`, and 100 ms.
abbrev pub default_settings : Settings
default_settings = record {
  stats_path = b's' ∷ b't' ∷ b'a' ∷ b't' ∷ b's' ∷ b'.' ∷ b't' ∷ b'x' ∷ b't' ∷ [];
  delay_ms = 100;
}

abbrev pub max_delay_ms : ℕ
max_delay_ms = 1000000

-- `case 'd'`
abbrev pub set_delay : Option ℕ → Settings → Option Settings
set_delay none s = none
set_delay (some v) s = if ltb max_delay_ms v then none else some (record s { delay_ms = u32 v })

-- `none` is EXIT_FAILURE.
unfoldable pub parse_options : Settings → List GetOpt → Option Settings
parse_options s [] = some s
parse_options s (opt_s path ∷ opts) = parse_options (record s { stats_path = path }) opts
parse_options s (opt_d arg ∷ opts) = set_delay (strtoul arg) s >>= (λ s'. parse_options s' opts)
parse_options s (opt_unknown ∷ opts) = none

abbrev pub path_max : ℕ
path_max = 4096

abbrev pub lock_suffix : Bytes
lock_suffix = b'.' ∷ b'l' ∷ b'c' ∷ b'k' ∷ []

-- `snprintf(out, out_sz, "%s.lck", myfile)`; `none` is `exit(EXIT_FAILURE)`.
unfoldable pub build_lock_path : ℕ → Bytes → Option Bytes
build_lock_path out_sz myfile =
    let path = myfile ++ lock_suffix in if leb out_sz (length path) then none else some path

-- What the loop of `main` works with.
pub record Ready : Type 0 where
  pub settings : Settings
  pub lckpath : Bytes

abbrev pub with_path : Settings → Bool → Option Bytes → Option Ready
with_path s handler_installed none = none
with_path s handler_installed (some lckpath) =
    if handler_installed then some (record { settings = s; lckpath = lckpath }) else none

-- `if (optind + 1 != argc)`, then the path and the handler.
unfoldable pub with_operands : Settings → List Bytes → Bool → Option Ready
with_operands s [] handler_installed = none
with_operands s (myfile ∷ []) handler_installed =
    with_path s handler_installed (build_lock_path path_max myfile)
with_operands s (myfile ∷ more ∷ rest) handler_installed = none

unfoldable pub start : List GetOpt → List Bytes → Bool → Option Ready
start opts operands handler_installed =
    parse_options default_settings opts >>= (λ s. with_operands s operands handler_installed)
