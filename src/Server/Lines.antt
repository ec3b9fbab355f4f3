-- ===== src/Server/Lines.antt =====
-- `parse_and_queue_lines`: the complete lines in a client's input are added up and answered.
use unix_tasks.Prelude.{
  ℕ, zero, suc, Bool, true, false, Option, none, some, List, [], ◌∷◌, ◌++◌, ◌==◌, ltb, length, take,
  drop, Bytes, if◌then◌else◌,
}
use unix_tasks.Prelude.Int.{ℤ}
use unix_tasks.Text.Number.{c_string}
use unix_tasks.Server.Long.{strtol, add_long, print_long}

abbrev pub max_line_len : ℕ
max_line_len = 10

-- What a pass over the lines of a client changes: the sum, the client's output, and the answers to
-- come of `realloc`; with no answer left it gives no memory.
pub record Session : Type 0 where
  pub state : ℤ
  pub out : Bytes
  pub allocs : List Bool

-- How a pass ends: with the bytes of an unfinished line left in the buffer; with -1; or in
-- undefined behaviour, when the sum overflows.
pub data Parsed : Type 0 where
  proceeds : Bytes → Session → Parsed
  rejected : Session → Parsed
  undefined : Session → Parsed

-- How one line ends.
pub data LineEnd : Type 0 where
  answered : Session → LineEnd
  refused : Session → LineEnd
  overflowed : Session → LineEnd

-- `memchr(p, '\n', n)`, as an offset.
unfoldable pub find_newline : Bytes → Option ℕ
find_newline [] = none
find_newline (c ∷ cs) =
    if c == b'\n' then some 0 else elim (find_newline cs) [ none ↦ none | some n ↦ some (suc n) ]

-- A `\r` at the end of the line becomes its NUL.
unfoldable pub strip_cr : Bytes → Bytes
strip_cr [] = []
strip_cr (c ∷ []) = if c == b'\r' then [] else c ∷ []
strip_cr (c ∷ d ∷ cs) = c ∷ strip_cr (d ∷ cs)

-- `realloc` for the answer, and the copy behind what is queued already.
unfoldable pub queue_response : Session → Bytes → List Bool → LineEnd
queue_response s line [] = refused s
queue_response s line (false ∷ rest) = refused (record s { allocs = rest })
queue_response s line (true ∷ rest) = answered (record s { out = s.out ++ line; allocs = rest })

-- `*state += delta`, and the answer.
unfoldable pub add_delta : Session → Option ℤ → LineEnd
add_delta s none = overflowed s
add_delta s (some sum) =
    queue_response (record s { state = sum }) (print_long sum ++ b'\n' ∷ []) s.allocs

unfoldable pub add_number : Session → Option ℤ → LineEnd
add_number s none = refused s
add_number s (some delta) = add_delta s (add_long s.state delta)

-- The body of the loop on a line that is short enough.
unfoldable pub handle_line : Session → Bytes → LineEnd
handle_line s line = add_number s (strtol (c_string (strip_cr line)))

unfoldable pub after_line : LineEnd → (Session → Parsed) → Parsed
after_line (answered s) next = next s
after_line (refused s) next = rejected s
after_line (overflowed s) next = undefined s

-- What the loop does at `start`, on the bytes from there on and the offset of their newline.
unfoldable pub at_newline : Bytes → Session → Option ℕ → (Bytes → Session → Parsed) → Parsed
at_newline rest s none next = if ltb max_line_len (length rest) then rejected s else proceeds rest s
at_newline rest s (some line_len) next =
    if ltb max_line_len line_len
    then rejected s
    else after_line (handle_line s (take line_len rest)) (next (drop (suc line_len) rest))

-- `while (start < c->in_len)`. Every round takes a byte at least: fuel above the length is enough.
unfoldable pub parse_loop : ℕ → Bytes → Session → Parsed
parse_loop zero rest s = proceeds rest s
parse_loop (suc fuel) [] s = proceeds [] s
parse_loop (suc fuel) (c ∷ cs) s =
    at_newline (c ∷ cs) s (find_newline (c ∷ cs)) (λ rest s'. parse_loop fuel rest s')

unfoldable pub parse_and_queue_lines : Bytes → Session → Parsed
parse_and_queue_lines inbuf s = parse_loop (suc (length inbuf)) inbuf s
