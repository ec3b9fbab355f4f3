-- ===== src/Server/Answers.antt =====
-- What the server answers: every number with the sum so far, in the order in which they came.
use unix_tasks.Prelude.{
  ℕ, zero, suc, ◌≤◌, ◌<◌, ◌≡◌, refl, ap, ◌∙◌, Bool, true, false, some, List, [], ◌∷◌, ◌++◌,
  append-nil, append_assoc, arith, ltb, length, length-append, take, drop, take-append_length,
  Bytes,
}
use unix_tasks.Prelude.Int.{ℤ, ◌+ℤ◌}
use unix_tasks.Server.Long.{is_long, add_long, print_long}
use unix_tasks.Server.Lines.{
  Session, proceeds, answered, max_line_len, find_newline, queue_response, add_delta, add_number,
  handle_line, after_line, at_newline, parse_loop, parse_and_queue_lines,
}
use unix_tasks.Server.Reading.{
  FitsLine, print_long-Plain, find_newline-Plain, length-print_long, strtol-line,
}

abbrev pub line : ℤ → Bytes
line n = print_long n ++ b'\n' ∷ []

-- The client's side: each number on a line of its own.
abbrev pub text : List ℤ → Bytes
text [] = []
text (n ∷ ns) = line n ++ text ns

abbrev pub total : ℤ → List ℤ → ℤ
total state [] = state
total state (n ∷ ns) = total (state +ℤ n) ns

-- The sums after each number, each on a line.
abbrev pub answers : ℤ → List ℤ → Bytes
answers state [] = []
answers state (n ∷ ns) = line (state +ℤ n) ++ answers (state +ℤ n) ns

-- Memory for the answer to each number, and then the answers `rest` of `realloc`.
abbrev pub granted : List ℤ → List Bool → List Bool
granted [] rest = rest
granted (n ∷ ns) rest = true ∷ granted ns rest

-- Every number fits a line, and no sum on the way leaves `long`.
abbrev pub Summable : ℤ → List ℤ → Type 0
Summable state [] = Unit
Summable state (n ∷ ns) = (FitsLine n × (is_long (state +ℤ n) ≡ true)) × Summable (state +ℤ n) ns

abbrev session : ℤ → Bytes → List Bool → Session
session state out allocs = record { state = state; out = out; allocs = allocs }

handle_line-answer :
    (state n : ℤ) (out : Bytes) (rest : List Bool)
    → FitsLine n
    → is_long (state +ℤ n) ≡ true
    → handle_line (session state out (true ∷ rest)) (print_long n)
      ≡ answered (session (state +ℤ n) (out ++ line (state +ℤ n)) rest)
unfolding handle_line add_number add_delta queue_response add_long
handle_line-answer state n out rest f l = rw (strtol-line n f) (rw l refl)

drop-line : (cs rest : Bytes) → drop (suc (length cs)) (cs ++ b'\n' ∷ rest) ≡ rest
drop-line [] rest = refl
drop-line (c ∷ cs) rest = drop-line cs rest

parse_loop-found :
    (fuel n : ℕ) (a : Bytes) (s : Session)
    → find_newline a ≡ some n
    → n ≤ max_line_len
    → parse_loop (suc fuel) a s
      ≡ after_line (handle_line s (take n a)) (λ t. parse_loop fuel (drop (suc n) a) t)
unfolding parse_loop at_newline
parse_loop-found fuel n [] s found short = unfold find_newline in cc
parse_loop-found fuel n (c ∷ cs) s found short =
    let fits : ltb max_line_len n ≡ false = ground arith in rw found (rw fits refl)

-- One round of the loop at the start of a number's line.
parse_loop-line :
    (fuel : ℕ) (n : ℤ) (rest : Bytes) (s : Session)
    → FitsLine n
    → parse_loop (suc fuel) (line n ++ rest) s
      ≡ after_line (handle_line s (print_long n)) (λ t. parse_loop fuel rest t)
parse_loop-line fuel n rest s f =
    let p = print_long n in
    let a = p ++ b'\n' ∷ rest in
    let found = find_newline-Plain p rest (print_long-Plain n) in
    rw (append_assoc p (b'\n' ∷ []) rest) (
      parse_loop-found fuel (length p) a s found (length-print_long n f)
      ∙ rw (take-append_length p (b'\n' ∷ rest), drop-line p rest))

parse_loop-text :
    (ns : List ℤ) (fuel : ℕ) (state : ℤ) (out : Bytes) (rest : List Bool)
    → Summable state ns
    → length (text ns) < fuel
    → parse_loop fuel (text ns) (session state out (granted ns rest))
      ≡ proceeds [] (session (total state ns) (out ++ answers state ns) rest)
unfolding after_line
parse_loop-text [] zero state out rest v h = absurd (omega arith)
parse_loop-text [] (suc fuel) state out rest v h = unfold parse_loop in rw append-nil
parse_loop-text (n ∷ ns) zero state out rest v h = absurd (omega arith)
parse_loop-text (n ∷ ns) (suc fuel) state out rest v h =
    parse_loop-line fuel n (text ns) _ v.0.0
    ∙ rw (handle_line-answer state n out (granted ns rest) (v.0.0) (v.0.1)) (
        parse_loop-text ns fuel (state +ℤ n) (out ++ line (state +ℤ n)) rest v.1 (
          omega (
            arith,
            length-append {0} (line n) (text ns),
            length-append {0} (print_long n) (b'\n' ∷ []),
          ))
        ∙ ap (λ o. proceeds [] (session (total (state +ℤ n) ns) o rest))
            (append_assoc out (line (state +ℤ n)) (answers (state +ℤ n) ns)))

-- Numbers that fit their lines, with sums that stay in `long`, are answered one by one: the answer
-- to each is the sum up to it, the sum is kept for all clients, and nothing stays in the buffer.
pub parse-text :
    (ns : List ℤ) (state : ℤ) (out : Bytes) (rest : List Bool)
    → Summable state ns
    → parse_and_queue_lines
        (text ns)
        (record { state = state; out = out; allocs = granted ns rest })
      ≡ proceeds []
          (record { state = total state ns; out = out ++ answers state ns; allocs = rest })
unfolding parse_and_queue_lines
parse-text ns state out rest v =
    parse_loop-text ns (suc (length (text ns))) state out rest v (omega arith)
