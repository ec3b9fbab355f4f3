-- ===== src/Server/Long.antt =====
-- `long` of 64 bits: the sum that the server keeps, how it reads one and how it prints it.
use unix_tasks.Prelude.{
  suc, ◌^◌, Bool, not, ◌&&◌, ◌||◌, Option, none, some, ◌∷◌, ◌==◌, ltb, leb, length, Bytes,
  if◌then◌else◌,
}
use unix_tasks.Prelude.Int.{ℤ, pos, negsuc, pos_part, neg_part, sub_ℕ, ◌+ℤ◌}
use unix_tasks.Text.Digits.{value}
use unix_tasks.Text.Print.{print}
use unix_tasks.Text.Number.{scan}

-- LONG_MIN ≤ a ≤ LONG_MAX.
abbrev pub is_long : ℤ → Bool
is_long a = ltb (pos_part a) (2 ^ 63) && leb (neg_part a) (2 ^ 63)

-- `errno = 0; v = strtol(s, &end, 10)`, where `errno != 0 || end == s || *end != '\0'` is an error.
unfoldable pub strtol : Bytes → Option ℤ
strtol s =
    let t = scan s in
    let v : ℤ = if t.negative then sub_ℕ 0 (value t.digits) else pos (value t.digits) in
    if length t.digits == 0 || not (length t.rest == 0) || not (is_long v) then none else some v

-- Signed overflow is undefined in C.
unfoldable pub add_long : ℤ → ℤ → Option ℤ
add_long a b = if is_long (a +ℤ b) then some (a +ℤ b) else none

-- `%ld`
unfoldable pub print_long : ℤ → Bytes
print_long (pos n) = print n
print_long (negsuc n) = b'-' ∷ print (suc n)
