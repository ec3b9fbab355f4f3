-- ===== src/Myinit/Config.antt =====
-- The configuration of the supervisor: `parse_config_file` of task3-myinit/myinit.c and what it
-- calls. A line names a program, its arguments, and the files of its input and output.
use unix_tasks.Prelude.{
  ℕ, zero, suc, ◌+◌, ◌-◌, ◌*◌, Bool, true, false, not, ◌&&◌, ◌||◌, Option, none, some, List, [],
  ◌∷◌, ◌++◌, ◌==◌, ltb, length, take, get_or, Bytes, if◌then◌else◌, ◌>>=◌,
}

-- `argc` is the length of `argv`.
pub record ConfigEntry : Type 0 where
  pub argv : List Bytes
  pub stdin_path : Bytes
  pub stdout_path : Bytes
  pub cmd_for_log : Bytes

-- The entries, and the answers to come of `malloc`, `calloc`, `strdup` and `realloc`; with no
-- answer left they give no memory.
pub record Config : Type 0 where
  pub entries : List ConfigEntry
  pub allocs : List Bool

abbrev pub max_tokens : ℕ
max_tokens = 256

abbrev pub max_config_size : ℕ
max_config_size = 16 * 1024 * 1024

abbrev pub is_blank : ℕ → Bool
is_blank c = c == b' ' || c == b'\t'

-- A token ends; `strtok_r` gives none that is empty.
abbrev pub emit : Bytes → List Bytes → List Bytes
emit [] more = more
emit (c ∷ cs) more = (c ∷ cs) ∷ more

-- The calls of `strtok_r(line, " \t", &saveptr)`, with the bytes of the present token so far.
unfoldable pub tokens_onto : Bytes → Bytes → List Bytes
tokens_onto token [] = emit token []
tokens_onto token (c ∷ cs) = elim (is_blank c) [
  | true ↦ emit token (tokens_onto [] cs)
  | false ↦ tokens_onto (token ++ c ∷ []) cs
]

abbrev pub tokens_of : Bytes → List Bytes
tokens_of line = tokens_onto [] line

abbrev pub is_absolute_path : Bytes → Bool
is_absolute_path [] = false
is_absolute_path (c ∷ cs) = c == b'/'

unfoldable pub validate_entry_paths : ConfigEntry → Bool
validate_entry_paths e =
    is_absolute_path e.stdin_path
    && is_absolute_path e.stdout_path
    && not (length e.argv == 0)
    && is_absolute_path (get_or e.argv 0 [])

-- The body of the second loop of `build_cmd_for_log`, on what `out` holds so far.
abbrev pub append_argument : Bytes → Bytes → Bytes
append_argument [] arg = arg
append_argument (c ∷ out) arg = (c ∷ out) ++ b' ' ∷ arg

unfoldable pub join_onto : Bytes → List Bytes → Bytes
join_onto out [] = out
join_onto out (arg ∷ argv) = join_onto (append_argument out arg) argv

abbrev pub build_cmd_for_log : List Bytes → Bytes
build_cmd_for_log argv = join_onto [] argv

-- That many allocations: what is left of the answers, or nothing when one of them fails.
unfoldable pub allocate : ℕ → List Bool → Option (List Bool)
allocate zero allocs = some allocs
allocate (suc n) [] = none
allocate (suc n) (given ∷ allocs) = if given then allocate n allocs else none

-- The entry that a line of `nt` tokens makes.
abbrev pub entry_of : ℕ → List Bytes → ConfigEntry
entry_of nt tokens = record {
  argv = take (nt - 2) tokens;
  stdin_path = get_or tokens (nt - 2) [];
  stdout_path = get_or tokens (nt - 1) [];
  cmd_for_log = build_cmd_for_log (take (nt - 2) tokens);
}

-- The two paths, `argv`, its strings and `cmd_for_log` take memory before the paths are looked at,
-- and the table of entries takes it afterwards.
unfoldable pub push_entry : Config → ConfigEntry → Option Config
push_entry cfg ent = do
  left ← allocate (length ent.argv + 4) cfg.allocs
  rest ← if validate_entry_paths ent then allocate 1 left else none
  some (record { entries = cfg.entries ++ ent ∷ []; allocs = rest })

unfoldable pub push_config_line : Config → Bytes → Option Config
push_config_line cfg line =
    let tokens = tokens_of line in
    let nt = length tokens in
    if ltb max_tokens nt
    then none
    else if ltb nt 3
    then some cfg
    else push_entry cfg (entry_of nt tokens)

-- `line_start` moves over the blanks.
unfoldable pub skip_blanks : Bytes → Bytes
skip_blanks [] = []
skip_blanks (c ∷ cs) = if is_blank c then skip_blanks cs else c ∷ cs

-- The bytes from `line_start` to `pos`.
abbrev pub push_unless_comment : Config → Bytes → Option Config
push_unless_comment cfg [] = some cfg
push_unless_comment cfg (c ∷ cs) = if c == b'#' then some cfg else push_config_line cfg (c ∷ cs)

abbrev pub is_line_end : ℕ → Bool
is_line_end c = c == b'\n' || c == 0

-- The lines that the loop over `pos` meets, the bytes of the present one first.
unfoldable pub lines_onto : Bytes → Bytes → List Bytes
lines_onto line [] = []
lines_onto line (c ∷ cs) = elim (is_line_end c) [
  | true ↦ line ∷ lines_onto [] cs
  | false ↦ lines_onto (line ++ c ∷ []) cs
]

unfoldable pub push_lines : Config → List Bytes → Option Config
push_lines cfg [] = some cfg
push_lines cfg (line ∷ lines) =
    push_unless_comment cfg (skip_blanks line) >>= (λ cfg'. push_lines cfg' lines)

-- The loop over `buf`, whose `st_size + 1` bytes are what was read, a NUL, and whatever the memory
-- held behind it.
unfoldable pub parse_buffer : Config → ℕ → Bytes → Bytes → Option Config
parse_buffer cfg st_size contents garbage =
    push_lines cfg (lines_onto [] (take (suc st_size) (contents ++ 0 ∷ garbage)))
