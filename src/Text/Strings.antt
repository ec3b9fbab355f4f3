-- ===== src/Text/Strings.antt =====
-- What `fgets`, `strcspn` and `strchr` of the C library do with bytes.
use unix_tasks.Prelude.{ℕ, zero, suc, Bool, true, false, ◌||◌, [], ◌∷◌, ◌==◌, if◌then◌else◌, Bytes}

-- The bytes that `fgets` stores when there is room for that many before its NUL: up to a newline,
-- which it keeps, or the end of the stream.
unfoldable pub fgets : ℕ → Bytes → Bytes
fgets zero stream = []
fgets (suc room) [] = []
fgets (suc room) (c ∷ cs) = if c == b'\n' then c ∷ [] else c ∷ fgets room cs

abbrev pub ends_name : ℕ → Bool
ends_name c = c == b'\r' || c == b'\n' || c == 0

-- The string up to its first `\r`, `\n` or NUL.
unfoldable pub before_line_end : Bytes → Bytes
before_line_end [] = []
before_line_end (c ∷ cs) = if ends_name c then [] else c ∷ before_line_end cs

unfoldable pub has_slash : Bytes → Bool
has_slash [] = false
has_slash (c ∷ cs) = if c == b'/' then true else has_slash cs
