-- ===== src/Myinit/Log.antt =====
-- What the supervisor writes to its log (task3-myinit/myinit.c).
use unix_tasks.Prelude.{
  ℕ, ◌≤◌, ◌<◌, ◌≡◌, sym, ap, ◌∙◌, Option, none, some, List, [], ◌∷◌, ◌++◌, append-nil, leb, length,
  Bytes, arith, if◌then◌else◌, Bool-cases, inl, inr,
}
use unix_tasks.Kernel.{WriteReply, NoWriteError, writes_in}
use unix_tasks.Lock.Calls
use unix_tasks.Lock.Calls.{Sent}
use unix_tasks.Lock.Transfer.{write_full-prefix, write_full-done}

-- The function of the lock program, word for word.
abbrev pub write_full : Bytes → List WriteReply → Sent
write_full = Calls.write_full

-- `sizeof(buf)`
abbrev pub log_cap : ℕ
log_cap = 2048

-- `"log_fmt: message too long\n"`
abbrev pub too_long : Bytes
too_long =
    b'l' ∷ b'o' ∷ b'g' ∷ b'_' ∷ b'f' ∷ b'm' ∷ b't' ∷ b':' ∷ b' ' ∷ b'm' ∷ b'e' ∷ b's' ∷ b's' ∷ b'a'
    ∷ b'g' ∷ b'e' ∷ b' ' ∷ b't' ∷ b'o' ∷ b'o' ∷ b' ' ∷ b'l' ∷ b'o' ∷ b'n' ∷ b'g' ∷ b'\n' ∷ []

-- The text that a line makes, with the NUL behind it, has to fit the buffer.
unfoldable pub log_text : Bytes → Bytes
log_text text = if leb log_cap (length text) then too_long else text

-- What a call of `log_fmt` appends to the log, if the log is open.
unfoldable pub log_bytes : Option ℕ → Bytes → List WriteReply → Bytes
log_bytes none text rs = []
log_bytes (some log_fd) text rs = (write_full (log_text text) rs).sent

length-log_text : (text : Bytes) → length (log_text text) < log_cap
unfolding log_text
length-log_text text = elim (Bool-cases (leb log_cap (length text))) [
  | inl long ↦ rw long (omega arith)
  | inr short ↦ rw short (ground arith)
]

-- With the log open and no error, a line is written whole, in however many pieces, or the complaint
-- in its place; it is never cut.
pub log_bytes_lem :
    (log_fd : ℕ) (text : Bytes) (rs : List WriteReply)
    → NoWriteError rs
    → log_cap ≤ writes_in rs
    → log_bytes (some log_fd) text rs ≡ log_text text
unfolding log_bytes
log_bytes_lem log_fd text rs ok many =
    let line = log_text text in
    let (left, split, all) = write_full-prefix line rs in
    let nothing_left =
      all (write_full-done line rs ok (omega (arith, length-log_text text, many))) in
    sym (append-nil (write_full line rs).sent)
    ∙ ap (λ l. (write_full line rs).sent ++ l) (sym nothing_left)
    ∙ split
