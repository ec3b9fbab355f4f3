-- ===== src/Server/Reading.antt =====
-- The server reads back what `%ld` prints: a line with a number on it is parsed as that number.
use unix_tasks.Prelude.{
  ℕ, suc, ◌^◌, ◌≤◌, ◌<◌, ◌≡◌, ◌≢◌, refl, ap, Bool, true, false, some, [], ◌∷◌, ◌++◌, append-nil,
  arith, ◌==◌, length, take-all, drop-all, Bytes,
}
use unix_tasks.Prelude.Int.{ℤ, pos, negsuc}
use unix_tasks.Text.Digits.{is_digit, Digits, digit_run, digit_run-append}
use unix_tasks.Text.Print.{print, Digits-print, value-print, print-ne-nil, length-print}
use unix_tasks.Text.Number.{split_digits, is_space, scan, c_string}
use unix_tasks.Server.Long.{strtol, print_long}
use unix_tasks.Server.Lines.{find_newline, strip_cr, max_line_len}

-- Bytes from `-` on: no NUL, no newline, no `\r`.
abbrev pub Plain : Bytes → Type 0
Plain [] = Unit
Plain (c ∷ cs) = (b'-' ≤ c) × Plain cs

Digits-Plain : (ds : Bytes) → Digits ds → Plain ds
Digits-Plain [] d = tt
Digits-Plain (c ∷ cs) d = (ground arith, Digits-Plain cs d.1)

pub print_long-Plain : (n : ℤ) → Plain (print_long n)
unfolding print_long
print_long-Plain (pos n) = Digits-Plain (print n) (Digits-print n)
print_long-Plain (negsuc n) = (omega arith, Digits-Plain (print (suc n)) (Digits-print (suc n)))

strip_cr-Plain : (cs : Bytes) → Plain cs → strip_cr cs ≡ cs
unfolding strip_cr
strip_cr-Plain [] p = refl
strip_cr-Plain (c ∷ []) p = ground arith
strip_cr-Plain (c ∷ d ∷ cs) p = ap (◌∷◌ c) (strip_cr-Plain (d ∷ cs) p.1)

c_string-Plain : (cs : Bytes) → Plain cs → c_string cs ≡ cs
unfolding c_string
c_string-Plain [] p = refl
c_string-Plain (c ∷ cs) p = ground (arith, c_string-Plain cs p.1)

pub find_newline-Plain :
    (cs rest : Bytes) → Plain cs → find_newline (cs ++ b'\n' ∷ rest) ≡ some (length cs)
unfolding find_newline
find_newline-Plain [] rest p = refl
find_newline-Plain (c ∷ cs) rest p = ground (arith, find_newline-Plain cs rest p.1)

split_digits-Digits :
    (negative : Bool) (ds : Bytes)
    → Digits ds
    → split_digits negative ds ≡ record { negative = negative; digits = ds; rest = [] }
split_digits-Digits negative ds d =
    let run : digit_run ds ≡ length ds = rw (append-nil) at (digit_run-append ds [] d tt) in
    rw (run, take-all (length ds) ds (omega arith), drop-all (length ds) ds (omega arith))

digit_tests :
    (c : ℕ)
    → is_digit c ≡ true
    → (is_space c ≡ false) × ((c == b'-') ≡ false) × ((c == b'+') ≡ false)
digit_tests c d = ground arith

scan-Digits :
    (ds : Bytes)
    → Digits ds
    → ds ≢ []
    → scan ds ≡ record { negative = false; digits = ds; rest = [] }
unfolding scan
scan-Digits [] d ne = absurd (ne refl)
scan-Digits (c ∷ cs) d ne =
    let (no_space, no_minus, no_plus) = digit_tests c (d.0) in
    rw no_space (rw (no_minus, no_plus) (split_digits-Digits false (c ∷ cs) d))

scan-minus :
    (ds : Bytes) → Digits ds → scan (b'-' ∷ ds) ≡ record { negative = true; digits = ds; rest = [] }
unfolding scan
scan-minus ds d = split_digits-Digits true ds d

-- A number that fits a line of MAX_LINE_LEN bytes.
abbrev pub FitsLine : ℤ → Type 0
FitsLine (pos n) = n < 10 ^ 10
FitsLine (negsuc n) = suc n < 10 ^ 9

pub length-print_long : (n : ℤ) → FitsLine n → length (print_long n) ≤ max_line_len
unfolding print_long
length-print_long (pos n) h = length-print 9 n h
length-print_long (negsuc n) h = omega (arith, length-print 8 (suc n) h)

length-ne-zero : (cs : Bytes) → cs ≢ [] → length cs ≢ 0
length-ne-zero [] h e = h refl
length-ne-zero (c ∷ cs) h e = absurd (omega arith)

strtol-print_long : (n : ℤ) → FitsLine n → strtol (print_long n) ≡ some n
unfolding strtol print_long
strtol-print_long (pos n) h =
    rw (scan-Digits (print n) (Digits-print n) (print-ne-nil n))
      (rw (value-print n) (ground (arith, length-ne-zero (print n) (print-ne-nil n))))
strtol-print_long (negsuc n) h = rw (scan-minus (print (suc n)) (Digits-print (suc n))) (
    rw (value-print (suc n))
      (ground (arith, length-ne-zero (print (suc n)) (print-ne-nil (suc n)))))

-- The line that a client sends for a number is read as that number.
pub strtol-line : (n : ℤ) → FitsLine n → strtol (c_string (strip_cr (print_long n))) ≡ some n
strtol-line n h =
    rw (strip_cr-Plain (print_long n) (print_long-Plain n))
      (rw (c_string-Plain (print_long n) (print_long-Plain n)) (strtol-print_long n h))
