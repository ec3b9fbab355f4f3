-- ===== src/Myinit/RoundTrip.antt =====
-- A configuration that is written out in the format of the file is read back as it was.
use unix_tasks.Prelude.{
  ℕ, zero, suc, ◌+◌, ◌-◌, ◌≤◌, ◌≡◌, refl, sym, ap, ◌∙◌, Bool, true, false, none, some, List, [],
  ◌∷◌, ◌++◌, arith, ltb, length, get_or, Bytes, ◌>>=◌, append_assoc, append-nil, length-append,
  take-append_length, bind-some,
}
use unix_tasks.Kernel.{NoReadError, reads_in}
use unix_tasks.Myinit.Config.{
  ConfigEntry, Config, is_line_end, is_absolute_path, validate_entry_paths, tokens_of,
  build_cmd_for_log, allocate, entry_of, push_entry, push_config_line, push_unless_comment,
  push_lines, skip_blanks, lines_onto, max_tokens, max_config_size,
}
use unix_tasks.Myinit.Tokens.{
  IsToken, AreTokens, tokens_of-build_cmd_for_log, build_cmd_for_log-spaced, spaced,
}
use unix_tasks.Myinit.Entries.{IsRunnable, AllRunnable}
use unix_tasks.Myinit.Files.{ConfigFile, loaded, parse_config_file, parsed_as}
use unix_tasks.Myinit.Reading.{read_contents-all, parse_buffer-whole}

-- The words of a line: the arguments, then the two files.
abbrev pub words : ConfigEntry → List Bytes
words e = e.argv ++ e.stdin_path ∷ e.stdout_path ∷ []

abbrev pub config_line : ConfigEntry → Bytes
config_line e = build_cmd_for_log (words e)

abbrev pub print_config : List ConfigEntry → Bytes
print_config [] = []
print_config (e ∷ es) = config_line e ++ b'\n' ∷ print_config es

abbrev pub NoLineEnd : Bytes → Type 0
NoLineEnd [] = Unit
NoLineEnd (c ∷ cs) = (is_line_end c ≡ false) × NoLineEnd cs

-- No line holds a newline or a NUL.
abbrev pub Printable : List ConfigEntry → Type 0
Printable [] = Unit
Printable (e ∷ es) = NoLineEnd (config_line e) × Printable es

-- The allocations that the entries take.
abbrev pub needs : List ConfigEntry → ℕ
needs [] = 0
needs (e ∷ es) = length e.argv + 4 + (1 + needs es)

lines_onto-line :
    (line acc rest : Bytes)
    → NoLineEnd line
    → lines_onto acc (line ++ b'\n' ∷ rest) ≡ (acc ++ line) ∷ lines_onto [] rest
unfolding lines_onto
lines_onto-line [] acc rest p = ap (λ a. a ∷ lines_onto [] rest) (sym (append-nil acc))
lines_onto-line (c ∷ cs) acc rest (h, p) =
    rw (lines_onto, h)
      (lines_onto-line cs (acc ++ c ∷ []) rest p
        ∙ ap (λ a. a ∷ lines_onto [] rest) (append_assoc acc (c ∷ []) cs))

words-AreTokens :
    (argv : List Bytes) (i o : Bytes)
    → AreTokens argv
    → IsToken i
    → IsToken o
    → AreTokens (argv ++ i ∷ o ∷ [])
words-AreTokens [] i o p q r = (q, (r, tt))
words-AreTokens (t ∷ ts) i o (p, ps) q r = (p, words-AreTokens ts i o ps q r)

tokens_of-config_line : (e : ConfigEntry) → IsRunnable e → tokens_of (config_line e) ≡ words e
tokens_of-config_line e r =
    tokens_of-build_cmd_for_log (words e) (words-AreTokens e.argv _ _ r.arguments r.input r.output)

get_or-at :
    (xs : List Bytes) (y : Bytes) (ys : List Bytes) → get_or (xs ++ y ∷ ys) (length xs) [] ≡ y
get_or-at [] y ys = refl
get_or-at (x ∷ xs) y ys = get_or-at xs y ys

get_or-after :
    (xs : List Bytes) (y z : Bytes) (zs : List Bytes)
    → get_or (xs ++ y ∷ z ∷ zs) (suc (length xs)) [] ≡ z
get_or-after [] y z zs = refl
get_or-after (x ∷ xs) y z zs = get_or-after xs y z zs

entry_of-words : (e : ConfigEntry) → IsRunnable e → entry_of (length (words e)) (words e) ≡ e
entry_of-words e r =
    let size = length-append {0} e.argv (e.stdin_path ∷ e.stdout_path ∷ []) in
    let second : length (words e) - 2 ≡ length e.argv = omega (arith, size) in
    let first : length (words e) - 1 ≡ suc (length e.argv) = omega (arith, size) in
    rw (second, first)
      (rw
        (
          take-append_length e.argv (e.stdin_path ∷ e.stdout_path ∷ []),
          get_or-at e.argv e.stdin_path (e.stdout_path ∷ []),
          get_or-after e.argv e.stdin_path e.stdout_path [],
          ← r.logged,
        )
        refl)

allocate-add :
    (m n : ℕ) (allocs : List Bool) → allocate (m + n) allocs ≡ (allocate m allocs >>= allocate n)
unfolding allocate
allocate-add zero n allocs = let e : 0 + n ≡ n = omega arith in rw e refl
allocate-add (suc m) n [] = let e : suc m + n ≡ suc (m + n) = omega arith in rw e refl
allocate-add (suc m) n (true ∷ allocs) =
    let e : suc m + n ≡ suc (m + n) = omega arith in rw e (allocate-add m n allocs)
allocate-add (suc m) n (false ∷ allocs) = let e : suc m + n ≡ suc (m + n) = omega arith in rw e refl

allocate-split :
    (m n : ℕ) (allocs rest : List Bool)
    → allocate (m + n) allocs ≡ some rest
    → (left : List Bool) × (allocate m allocs ≡ some left) × (allocate n left ≡ some rest)
allocate-split m n allocs rest h =
    bind-some (allocate m allocs) (allocate n) rest (sym (allocate-add m n allocs) ∙ h)

push_entry-granted :
    (cfg : Config) (e : ConfigEntry) (n : ℕ) (rest : List Bool)
    → IsRunnable e
    → allocate (length e.argv + 4 + (1 + n)) cfg.allocs ≡ some rest
    → (left : List Bool) × (push_entry cfg e
        ≡ some (record { entries = cfg.entries ++ e ∷ []; allocs = left }))
      × (allocate n left ≡ some rest)
unfolding push_entry
push_entry-granted cfg e n rest r h =
    let (strings, enough, h') = allocate-split (length e.argv + 4) (1 + n) cfg.allocs rest h in
    let (table, grown, h'') = allocate-split 1 n strings rest h' in
    (table, rw (enough, r.paths, grown) refl, h'')

absolute-program :
    (e : ConfigEntry) → validate_entry_paths e ≡ true → is_absolute_path (get_or e.argv 0 []) ≡ true
unfolding validate_entry_paths
absolute-program e h = ground arith

slash : (t rest : Bytes) → is_absolute_path t ≡ true → (cs : Bytes) × (t ++ rest ≡ b'/' ∷ cs)
slash [] rest h = absurd (ground arith)
slash (c ∷ cs) rest h = let e : c ≡ b'/' = ground arith in (cs ++ rest, ap (λ d. d ∷ cs ++ rest) e)

build_cmd_for_log-slash :
    (argv more : List Bytes)
    → AreTokens argv
    → is_absolute_path (get_or argv 0 []) ≡ true
    → (cs : Bytes) × (build_cmd_for_log (argv ++ more) ≡ b'/' ∷ cs)
build_cmd_for_log-slash [] more p h = absurd (ground arith)
build_cmd_for_log-slash (t ∷ ts) more (p, ps) h =
    let (cs, e) = slash t (spaced (ts ++ more)) h in
    (cs, build_cmd_for_log-spaced t (ts ++ more) p ∙ e)

config_line-slash : (e : ConfigEntry) → IsRunnable e → (cs : Bytes) × (config_line e ≡ b'/' ∷ cs)
config_line-slash e r = build_cmd_for_log-slash e.argv _ r.arguments (absolute-program e r.paths)

not_below : (a b : ℕ) → b ≤ a → ltb a b ≡ false
not_below a b h = ground arith

argc-positive : (e : ConfigEntry) → validate_entry_paths e ≡ true → 1 ≤ length e.argv
unfolding validate_entry_paths
argc-positive e h = ground arith

push_config_line-words :
    (cfg : Config) (e : ConfigEntry)
    → IsRunnable e
    → push_config_line cfg (config_line e) ≡ push_entry cfg e
unfolding push_config_line
push_config_line-words cfg e r =
    let some_program = argc-positive e r.paths in
    let size = length-append {0} e.argv (e.stdin_path ∷ e.stdout_path ∷ []) in
    let high : ltb max_tokens (length (words e)) ≡ false =
      not_below _ _ (omega (arith, size, r.fits)) in
    let low : ltb (length (words e)) 3 ≡ false = not_below _ _ (omega (arith, size)) in
    rw (tokens_of-config_line e r, high, low, entry_of-words e r) refl

-- A line that begins with a slash is no comment and has no blanks to skip.
slash-pushed :
    (cfg : Config) (line cs : Bytes)
    → line ≡ b'/' ∷ cs
    → push_unless_comment cfg (skip_blanks line) ≡ push_config_line cfg line
unfolding skip_blanks
slash-pushed cfg line cs start = rw start refl

-- A line of the file, with its newline gone.
push_unless_comment-words :
    (cfg : Config) (e : ConfigEntry)
    → IsRunnable e
    → push_unless_comment cfg (skip_blanks (config_line e)) ≡ push_entry cfg e
push_unless_comment-words cfg e r =
    let (cs, start) = config_line-slash e r in
    slash-pushed cfg (config_line e) cs start ∙ push_config_line-words cfg e r

push_lines-printed :
    (es : List ConfigEntry) (cfg : Config) (rest : List Bool)
    → AllRunnable es
    → Printable es
    → allocate (needs es) cfg.allocs ≡ some rest
    → push_lines cfg (lines_onto [] (print_config es ++ 0 ∷ []))
      ≡ some (record { entries = cfg.entries ++ es; allocs = rest })
unfolding push_lines lines_onto allocate skip_blanks
push_lines-printed [] cfg rest p q h =
    rw (append-nil cfg.entries)
      (ap (λ o. elim o [ none ↦ none | some a ↦ some (record cfg { allocs = a }) ]) h)
push_lines-printed (e ∷ es) cfg rest (r, p) (q, qs) h =
    let (left, pushed, h') = push_entry-granted cfg e (needs es) rest r h in
    let more = print_config es ++ 0 ∷ [] in
    let next : Config = record { entries = cfg.entries ++ e ∷ []; allocs = left } in
    ap (λ b. push_lines cfg (lines_onto [] b))
      (append_assoc (config_line e) (b'\n' ∷ print_config es) (0 ∷ []))
    ∙ ap (push_lines cfg) (lines_onto-line (config_line e) [] more q)
    ∙ ap (λ o. o >>= (λ cfg'. push_lines cfg' (lines_onto [] more)))
        (push_unless_comment-words cfg e r ∙ pushed)
    ∙ push_lines-printed es next rest p qs h'
    ∙ ap (λ a. some (record { entries = a; allocs = rest })) (append_assoc cfg.entries (e ∷ []) es)

-- A configuration of entries that can be run, written one line to an entry, is loaded as it is,
-- given the memory for it and a file of at most 16 MB that is opened, tells its size and is read
-- without an error; whatever pieces `read` gives, and whatever the memory held before.
pub parse_config_file-print_config :
    (es : List ConfigEntry) (file : ConfigFile) (allocs rest : List Bool)
    → AllRunnable es
    → Printable es
    → file.opened ≡ true
    → file.st_size ≡ some (length (print_config es))
    → file.contents ≡ print_config es
    → length (print_config es) ≤ max_config_size
    → NoReadError file.reads
    → length (print_config es) ≤ reads_in file.reads
    → allocate (1 + needs es) allocs ≡ some rest
    → parse_config_file file allocs ≡ loaded (record { entries = es; allocs = rest })
unfolding parse_config_file
parse_config_file-print_config es file allocs rest p q opened size contents small clean enough h =
    let text = print_config es in
    let (left, buffer, h') = allocate-split 1 (needs es) allocs rest h in
    let fits : ltb max_config_size (length text) ≡ false = not_below _ _ small in
    let read = read_contents-all file.reads [] text text refl clean enough in
    rw (opened, size, fits, buffer, contents, read)
      (ap parsed_as (parse_buffer-whole _ text file.garbage ∙ push_lines-printed es _ rest p q h'))
