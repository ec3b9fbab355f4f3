-- ===== src/BotClient/Wire.antt =====
-- The client's end of the connection: `write_all` and `read_line_fd`.
use unix_tasks.Prelude.{
  ℕ, zero, suc, ◌-◌, List, [], ◌∷◌, ◌++◌, ◌==◌, length, take, drop, Bytes, if◌then◌else◌,
}
use unix_tasks.Kernel.{
  Errno, econnreset, emsgsize, WriteReply, takes, takes_none, Status, done, error, blocked,
}

abbrev pub response_buf_cap : ℕ
response_buf_cap = 4096

-- What `write_all` has sent, how it ended, and the answers to come of `write`.
pub record Written : Type 0 where
  pub sent : Bytes
  pub status : Status
  pub later : List WriteReply

abbrev pub behind : Bytes → Written → Written
behind bs r = record r { sent = bs ++ r.sent }

-- `while (off < len)`; the bytes are those from `off` on. A call that takes nothing is made again.
unfoldable pub write_all : Bytes → List WriteReply → Written
write_all [] rs = record { sent = []; status = done; later = rs }
write_all (c ∷ cs) [] = record { sent = []; status = blocked; later = [] }
write_all (c ∷ cs) (takes k ∷ rs) =
    behind (take (suc k) (c ∷ cs)) (write_all (drop (suc k) (c ∷ cs)) rs)
write_all (c ∷ cs) (takes_none ∷ rs) = write_all (c ∷ cs) rs
write_all (c ∷ cs) (WriteReply.interrupted ∷ rs) = write_all (c ∷ cs) rs
write_all (c ∷ cs) (WriteReply.failed e ∷ rs) = record { sent = []; status = error e; later = rs }

-- An answer of `read` on the connection: the bytes that are there, of which it takes at most
-- RESPONSE_BUF_CAP; none at all is the end of the stream.
pub data Arrival : Type 0 where
  arrives : Bytes → Arrival
  interrupted would_block : Arrival
  failed : Errno → Arrival

-- What the bytes of `inbuf` from `in_off` on make of the loop: a line, with the bytes behind it; a
-- full buffer; or all of them are taken, and there is room for so many more.
pub data Taken : Type 0 where
  line : Bytes → Bytes → Taken
  full : Taken
  wants : ℕ → Bytes → Taken

-- The rounds in which `in_off < in_len`, with the room that is left in `buf` and what it holds.
unfoldable pub take_buffered : ℕ → Bytes → Bytes → Taken
take_buffered zero buf inbuf = full
take_buffered (suc room) buf [] = wants (suc room) buf
take_buffered (suc room) buf (c ∷ cs) =
    if c == b'\n' then line (buf ++ c ∷ []) cs else take_buffered room (buf ++ c ∷ []) cs

-- How `read_line_fd` ends: with a line, with the bytes left in its static buffer and the answers to
-- come; with -1; or it waits for an answer that has not come.
pub data LineRead : Type 0 where
  returns : Bytes → Bytes → List Arrival → LineRead
  fails : Errno → LineRead
  waits : LineRead

unfoldable pub after_taken : Taken → List Arrival → (ℕ → Bytes → LineRead) → LineRead
after_taken (line l inbuf) rs next = returns l inbuf rs
after_taken full rs next = fails emsgsize
after_taken (wants room buf) rs next = next room buf

-- The rounds from one with `in_off == in_len` on.
unfoldable pub read_more : List Arrival → ℕ → Bytes → LineRead
read_more [] room buf = waits
read_more (interrupted ∷ rs) room buf = read_more rs room buf
read_more (would_block ∷ rs) room buf = read_more rs room buf
read_more (failed e ∷ rs) room buf = fails e
read_more (arrives bs ∷ rs) room buf =
    let inbuf = take response_buf_cap bs in
    if length inbuf == 0
    then fails econnreset
    else after_taken (take_buffered room buf inbuf) rs (λ room' buf'. read_more rs room' buf')

-- `read_line_fd(fd, buf, cap)`, with the bytes of its static buffer from `in_off` on.
unfoldable pub read_line_fd : ℕ → Bytes → List Arrival → LineRead
read_line_fd cap inbuf rs =
    after_taken (take_buffered (cap - 1) [] inbuf) rs (λ room buf. read_more rs room buf)
