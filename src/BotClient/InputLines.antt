-- ===== src/BotClient/InputLines.antt =====
-- The input of the client as lines: numbers, each on a line of its own.
use unix_tasks.Prelude.{
  ℕ, zero, suc, ◌-◌, ◌≤◌, ◌<◌, ◌≡◌, refl, ap, ◌∙◌, true, List, [], ◌∷◌, ◌++◌, append_assoc, arith,
  length, length-append, drop, Bytes,
}
use unix_tasks.Prelude.Int.{ℤ, pos, negsuc, ◌+ℤ◌}
use unix_tasks.Text.Number.{c_string}
use unix_tasks.Text.Strings.{fgets}
use unix_tasks.Text.Print.{length-print}
use unix_tasks.Server.Long.{is_long, print_long}
use unix_tasks.Server.Reading.{Plain, FitsLine, print_long-Plain, length-print_long}
use unix_tasks.Server.Answers.{text, Summable}
use unix_tasks.BotClient.Stream.{NoNewline}
use unix_tasks.BotClient.Main.{input_lines, line_cap}

pub Plain-NoNewline : (cs : Bytes) → Plain cs → NoNewline cs
Plain-NoNewline [] p = tt
Plain-NoNewline (c ∷ cs) (h, p) = (ground arith, Plain-NoNewline cs p)

pub c_string-line : (cs : Bytes) → Plain cs → c_string (cs ++ b'\n' ∷ []) ≡ cs ++ b'\n' ∷ []
unfolding c_string
c_string-line [] p = refl
c_string-line (c ∷ cs) (h, p) = ground (arith, c_string-line cs p)

pub fgets-line :
    (cs rest : Bytes) (room : ℕ)
    → Plain cs
    → length cs < room
    → fgets room (cs ++ b'\n' ∷ rest) ≡ cs ++ b'\n' ∷ []
unfolding fgets
fgets-line cs rest zero p h = absurd (omega arith)
fgets-line [] rest (suc room) p h = refl
fgets-line (c ∷ cs) rest (suc room) (q, p) h = ground (arith, fgets-line cs rest room p)

pub drop-append : (a b : Bytes) → drop (length a) (a ++ b) ≡ b
drop-append [] b = refl
drop-append (c ∷ a) b = drop-append a b

-- A sum of 64 bits takes 20 bytes at most.
pub length-print_long_le : (n : ℤ) → is_long n ≡ true → length (print_long n) ≤ 20
unfolding print_long
length-print_long_le (pos n) h = omega (arith, length-print 18 n (ground arith))
length-print_long_le (negsuc n) h = omega (arith, length-print 18 (suc n) (ground arith))

abbrev pub line : ℤ → Bytes
line n = print_long n ++ b'\n' ∷ []

abbrev pub lines : List ℤ → List Bytes
lines [] = []
lines (n ∷ ns) = line n ∷ lines ns

pub input_lines-step :
    (fuel : ℕ) (stdin : Bytes)
    → 0 < length stdin
    → input_lines (suc fuel) stdin
      ≡ fgets (line_cap - 1) stdin
        ∷ input_lines fuel (drop (length (fgets (line_cap - 1) stdin)) stdin)
unfolding input_lines
input_lines-step fuel [] h = absurd (omega arith)
input_lines-step fuel (c ∷ cs) h = refl

pub length-line : (n : ℤ) → FitsLine n → length (line n) ≤ 11
length-line n f =
    omega (arith, length-append {0} (print_long n) (b'\n' ∷ []), length-print_long n f)

pub fgets-number :
    (n : ℤ) (rest : Bytes) → FitsLine n → fgets (line_cap - 1) (line n ++ rest) ≡ line n
fgets-number n rest f =
    ap (fgets (line_cap - 1)) (append_assoc (print_long n) (b'\n' ∷ []) rest)
    ∙ fgets-line (print_long n) rest (line_cap - 1) (print_long-Plain n)
        (omega (arith, length-print_long n f))

-- `fgets` gives the numbers line by line.
pub input_lines-text :
    (ns : List ℤ) (state : ℤ) (fuel : ℕ)
    → Summable state ns
    → length (text ns) < fuel
    → input_lines fuel (text ns) ≡ lines ns
unfolding input_lines
input_lines-text [] state zero v h = absurd (omega arith)
input_lines-text [] state (suc fuel) v h = refl
input_lines-text (n ∷ ns) state zero v h = absurd (omega arith)
input_lines-text (n ∷ ns) state (suc fuel) v h =
    let size = length-append {0} (line n) (text ns) in
    let newline = length-append {0} (print_long n) (b'\n' ∷ []) in
    input_lines-step fuel (line n ++ text ns) (omega (arith, size, newline))
    ∙ rw (fgets-number n (text ns) (v.0.0), drop-append (line n) (text ns))
        (ap (◌∷◌ (line n))
          (input_lines-text ns (state +ℤ n) fuel v.1 (omega (arith, size, newline))))
