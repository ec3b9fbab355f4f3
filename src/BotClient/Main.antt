-- ===== src/BotClient/Main.antt =====
-- `main` of task4-brownian-bot/client.c: each line of the input is sent, and its answer printed.
use unix_tasks.Prelude.{
  ℕ, zero, suc, ◌-◌, Bool, true, false, Option, List, [], ◌∷◌, ◌++◌, ◌==◌, length, drop, Bytes,
}
use unix_tasks.Kernel.{WriteReply, Status, done, error, blocked}
use unix_tasks.Text.Number.{c_string}
use unix_tasks.Text.Strings.{fgets}
use unix_tasks.BotClient.Address.{Connection, connected, refused, connect_socket}
use unix_tasks.BotClient.Wire.{write_all, Arrival, LineRead, returns, fails, waits, read_line_fd}

-- `sizeof(in_line)` and `sizeof(out_line)`
abbrev pub line_cap : ℕ
line_cap = 128

-- The client's end: the bytes in the static buffer of `read_line_fd`, and the answers to come of
-- `read`, `write` and `fputs`; what it has sent and printed. With no answer of `fputs` left it
-- prints.
pub record Chat : Type 0 where
  pub inbuf : Bytes
  pub arrivals : List Arrival
  pub writes : List WriteReply
  pub prints : List Bool
  pub sent : Bytes
  pub printed : Bytes

-- `main` returns 0 or 1, or waits for an answer of the kernel.
pub data Outcome : Type 0 where
  exits : ℕ → Chat → Outcome
  waiting : Chat → Outcome

-- What `fgets(in_line, sizeof(in_line), stdin)` gives one time after the other, up to the end of the
-- input. Every time it takes a byte at least: fuel above the length is enough.
unfoldable pub input_lines : ℕ → Bytes → List Bytes
input_lines zero stdin = []
input_lines (suc fuel) [] = []
input_lines (suc fuel) (c ∷ cs) =
    let in_line = fgets (line_cap - 1) (c ∷ cs) in
    in_line ∷ input_lines fuel (drop (length in_line) (c ∷ cs))

-- `fputs(out_line, stdout)`
unfoldable pub put_line : Bytes → Chat → List Bool → (Chat → Outcome) → Outcome
put_line out_line w [] next = next (record w { printed = w.printed ++ c_string out_line })
put_line out_line w (true ∷ more) next =
    next (record w { printed = w.printed ++ c_string out_line; prints = more })
put_line out_line w (false ∷ more) next = exits 1 (record w { prints = more })

unfoldable pub after_read : LineRead → Chat → (Chat → Outcome) → Outcome
after_read (returns out_line inbuf arrivals) w next =
    put_line out_line (record w { inbuf = inbuf; arrivals = arrivals }) w.prints next
after_read (fails e) w next = exits 1 w
after_read waits w next = waiting w

unfoldable pub after_write : Status → Chat → (Chat → Outcome) → Outcome
after_write done w next = after_read (read_line_fd line_cap w.inbuf w.arrivals) w next
after_write (error e) w next = exits 1 w
after_write blocked w next = waiting w

-- The body of the loop, on a line that is not empty as a string.
unfoldable pub exchange : Bytes → Chat → (Chat → Outcome) → Outcome
exchange text w next =
    let r = write_all text w.writes in
    after_write r.status (record w { sent = w.sent ++ r.sent; writes = r.later }) next

-- `while (fgets(...) != NULL)`, on the lines that it gives.
unfoldable pub chat : List Bytes → Chat → Outcome
chat [] w = exits 0 w
chat (in_line ∷ lines) w = elim (length (c_string in_line) == 0) [
  | true ↦ chat lines w
  | false ↦ exchange (c_string in_line) w (λ w'. chat lines w')
]

abbrev pub when_connected : Connection → Bytes → Chat → Outcome
when_connected refused stdin w = exits 1 w
when_connected (connected path) stdin w = chat (input_lines (suc (length stdin)) stdin) w

unfoldable pub run_client : Option Bytes → Bool → Bool → Bytes → Chat → Outcome
run_client config socket_given accepted stdin w =
    when_connected (connect_socket config socket_given accepted) stdin w
