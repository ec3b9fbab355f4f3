-- ===== src/Text/Number.antt =====
-- `strtol` and `strtoul` of the C library at base 10, on the bytes of a string before its NUL.
use unix_tasks.Prelude.{
  ℕ, ◌-◌, ◌^◌, Bool, true, false, ◌&&◌, ◌||◌, not, [], ◌∷◌, leb, ◌==◌, if◌then◌else◌, length, Bytes,
  take, drop, Option, some, none,
}
use unix_tasks.Text.Digits.{digit_run, value, value_onto}

-- `isspace` in the C locale.
abbrev pub is_space : ℕ → Bool
is_space c = c == b' ' || leb b'\t' c && leb c b'\r'

unfoldable pub skip_space : Bytes → Bytes
skip_space [] = []
skip_space (c ∷ cs) = if is_space c then skip_space cs else c ∷ cs

-- What the subject sequence of `strtol` is: a sign, digits, and the bytes from `*endptr` on.
pub record Scan : Type 0 where
  pub negative : Bool
  pub digits : Bytes
  pub rest : Bytes

abbrev pub split_digits : Bool → Bytes → Scan
split_digits negative s = record {
  negative = negative;
  digits = take (digit_run s) s;
  rest = drop (digit_run s) s;
}

-- With no digits there is no number, and `endptr` is the start of the string.
unfoldable pub scan_sign : Bytes → Scan
scan_sign [] = split_digits false []
scan_sign (c ∷ cs) =
    if c == b'-'
    then split_digits true cs
    else if c == b'+'
    then split_digits false cs
    else split_digits false (c ∷ cs)

unfoldable pub scan : Bytes → Scan
unfolding scan_sign skip_space
scan s = scan_sign (skip_space s)

-- The string in a buffer: its bytes before the first NUL.
unfoldable pub c_string : Bytes → Bytes
c_string [] = []
c_string (c ∷ cs) = if c == 0 then [] else c ∷ c_string cs

-- `errno = 0; v = strtoul(s, &end, 10)`, where `errno != 0 || end == s || *end != '\0'` is an error.
-- The value of a negated number wraps round, as the C standard says.
unfoldable pub strtoul : Bytes → Option ℕ
unfolding scan digit_run value_onto
strtoul s =
    let t = scan s in
    if length t.digits == 0 || not (length t.rest == 0) || leb (2 ^ 64) (value t.digits)
    then none
    else some (
        if t.negative && not (value t.digits == 0) then 2 ^ 64 - value t.digits else value t.digits)
