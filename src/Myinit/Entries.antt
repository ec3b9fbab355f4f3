-- ===== src/Myinit/Entries.antt =====
-- What the parser takes into the configuration.
use unix_tasks.Prelude.{
  ℕ, zero, suc, ◌+◌, ◌-◌, ◌≤◌, ◌<◌, ◌≡◌, refl, sym, ap, subst, ◌⊎◌, true, none, some, List, [], ◌∷◌,
  ◌++◌, arith, ◌==◌, length, take, get_or, Bytes, if◌then◌else◌, Bool-cases, inl, inr, bind-some,
  length-take,
}
use unix_tasks.Myinit.Config.{
  ConfigEntry, Config, validate_entry_paths, tokens_of, build_cmd_for_log, allocate, entry_of,
  push_entry, push_config_line, push_unless_comment, push_lines, skip_blanks, max_tokens,
}
use unix_tasks.Myinit.Tokens.{IsToken, AreTokens, tokens_onto-AreTokens}

-- An entry that can be run: its program and its two files are absolute paths, the arguments fit
-- into the parser's table, every word is one that a line can hold, and the log shows the arguments.
pub record IsRunnable (e : ConfigEntry) : Type 0 where
  pub arguments : AreTokens e.argv
  pub input : IsToken e.stdin_path
  pub output : IsToken e.stdout_path
  pub paths : validate_entry_paths e ≡ true
  pub fits : length e.argv + 2 ≤ max_tokens
  pub logged : e.cmd_for_log ≡ build_cmd_for_log e.argv

abbrev pub AllRunnable : List ConfigEntry → Type 0
AllRunnable [] = Unit
AllRunnable (e ∷ es) = IsRunnable e × AllRunnable es

AllRunnable-append :
    (es : List ConfigEntry) (e : ConfigEntry)
    → AllRunnable es
    → IsRunnable e
    → AllRunnable (es ++ e ∷ [])
AllRunnable-append [] e p q = (q, tt)
AllRunnable-append (f ∷ es) e (h, p) q = (h, AllRunnable-append es e p q)

AreTokens-take : (n : ℕ) (ts : List Bytes) → AreTokens ts → AreTokens (take n ts)
AreTokens-take zero ts p = tt
AreTokens-take (suc n) [] p = tt
AreTokens-take (suc n) (t ∷ ts) (p, ps) = (p, AreTokens-take n ts ps)

AreTokens-get_or :
    (ts : List Bytes) (i : ℕ) → i < length ts → AreTokens ts → IsToken (get_or ts i [])
AreTokens-get_or [] i h p = absurd (omega arith)
AreTokens-get_or (t ∷ ts) zero h (p, ps) = p
AreTokens-get_or (t ∷ ts) (suc i) h (p, ps) = AreTokens-get_or ts i (omega arith) ps

-- An entry goes in only when its paths are absolute, and behind the others.
push_entry-some :
    (cfg cfg' : Config) (e : ConfigEntry)
    → push_entry cfg e ≡ some cfg'
    → (validate_entry_paths e ≡ true) × (cfg'.entries ≡ cfg.entries ++ e ∷ [])
unfolding push_entry
push_entry-some cfg cfg' e h =
    let (left, enough, h') = bind-some (allocate (length e.argv + 4) cfg.allocs) _ cfg' h in
    let (rest, valid, h'') =
      bind-some (if validate_entry_paths e then allocate 1 left else none) _ cfg' h' in
    elim (Bool-cases (validate_entry_paths e)) [
      | inl absolute ↦ (absolute, ap (λ o. elim o [ none ↦ [] | some c ↦ c.entries ]) (sym h''))
      | inr relative ↦ absurd (ground arith)
    ]

-- What the parser makes of a line that it takes in can be run.
entry_of-IsRunnable :
    (tokens : List Bytes)
    → AreTokens tokens
    → 3 ≤ length tokens
    → length tokens ≤ max_tokens
    → validate_entry_paths (entry_of (length tokens) tokens) ≡ true
    → IsRunnable (entry_of (length tokens) tokens)
entry_of-IsRunnable tokens p low high valid = record {
  arguments = AreTokens-take (length tokens - 2) tokens p;
  input = AreTokens-get_or tokens (length tokens - 2) (omega arith) p;
  output = AreTokens-get_or tokens (length tokens - 1) (omega arith) p;
  paths = valid;
  fits = omega (arith, length-take {0} (length tokens - 2) tokens);
  logged = refl;
}

some-entries : (a b : Config) → some a ≡ some b → a.entries ≡ b.entries
some-entries a b e = ap (λ o. elim o [ none ↦ [] | some c ↦ c.entries ]) e

-- A line adds nothing, when it has fewer than three words, or its entry.
push_config_line-some :
    (cfg cfg' : Config) (line : Bytes)
    → push_config_line cfg line ≡ some cfg'
    → (some cfg ≡ some cfg')
      ⊎ ((3 ≤ length (tokens_of line))
          × (length (tokens_of line) ≤ max_tokens)
          × (push_entry cfg (entry_of (length (tokens_of line)) (tokens_of line)) ≡ some cfg'))
unfolding push_config_line
push_config_line-some cfg cfg' line h = ground arith

push_config_line-AllRunnable :
    (cfg cfg' : Config) (line : Bytes)
    → AllRunnable cfg.entries
    → push_config_line cfg line ≡ some cfg'
    → AllRunnable cfg'.entries
push_config_line-AllRunnable cfg cfg' line p h = elim (push_config_line-some cfg cfg' line h) [
  | inl same ↦ subst AllRunnable (some-entries cfg cfg' same) p
  | inr (low, high, pushed) ↦
      let tokens = tokens_of line in
      let (valid, added) = push_entry-some cfg cfg' _ pushed in
      subst AllRunnable (sym added) (
        AllRunnable-append cfg.entries _ p
          (entry_of-IsRunnable tokens (tokens_onto-AreTokens [] line tt) low high valid))
]

push_unless_comment-AllRunnable :
    (cfg cfg' : Config) (line : Bytes)
    → AllRunnable cfg.entries
    → push_unless_comment cfg line ≡ some cfg'
    → AllRunnable cfg'.entries
push_unless_comment-AllRunnable cfg cfg' [] p h = subst AllRunnable (some-entries cfg cfg' h) p
push_unless_comment-AllRunnable cfg cfg' (c ∷ cs) p h = elim (Bool-cases (c == b'#')) [
  | inl comment ↦ subst AllRunnable (some-entries cfg cfg' (ground arith)) p
  | inr other ↦ push_config_line-AllRunnable cfg cfg' (c ∷ cs) p (ground arith)
]

pub push_lines-AllRunnable :
    (cfg cfg' : Config) (lines : List Bytes)
    → AllRunnable cfg.entries
    → push_lines cfg lines ≡ some cfg'
    → AllRunnable cfg'.entries
unfolding push_lines
push_lines-AllRunnable cfg cfg' [] p h = subst AllRunnable (some-entries cfg cfg' h) p
push_lines-AllRunnable cfg cfg' (line ∷ lines) p h =
    let (next, one, more) = bind-some (push_unless_comment cfg (skip_blanks line)) _ cfg' h in
    push_lines-AllRunnable next cfg' lines
      (push_unless_comment-AllRunnable cfg next (skip_blanks line) p one) more
