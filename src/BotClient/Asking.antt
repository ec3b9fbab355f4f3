-- ===== src/BotClient/Asking.antt =====
-- The client that waits for an answer.
use unix_tasks.Prelude.{
  ℕ, ◌+◌, ◌≡◌, refl, sym, ap, ◌∙◌, List, [], ◌∷◌, ◌++◌, append-nil, append_assoc, arith, length,
  Bytes,
}
use unix_tasks.Prelude.Int.{ℤ}
use unix_tasks.Server.Answers.{text, answers, Summable}
use unix_tasks.BotClient.Wire.{
  Arrival, waits, read_line_fd, write_all, read_more, take_buffered, after_taken, arrives,
  interrupted, would_block, failed,
}
use unix_tasks.BotClient.Stream.{joined, Connected}
use unix_tasks.BotClient.Main.{
  Chat, Outcome, waiting, line_cap, after_read, after_write, exchange, chat,
}
use unix_tasks.BotClient.Sending.{write_all-whole}
use unix_tasks.BotClient.InputLines.{line, lines}
use unix_tasks.BotClient.Dialogue.{Spoke, Linked, chat-line, chat-answers}

-- With nothing more to come, the next read waits.
read_more-waits :
    (rs : List Arrival) (room : ℕ) (buf : Bytes)
    → Connected rs
    → joined rs ≡ []
    → read_more rs room buf ≡ waits
unfolding read_more
read_more-waits [] room buf c e = refl
read_more-waits (interrupted ∷ rs) room buf c e = read_more-waits rs room buf c e
read_more-waits (would_block ∷ rs) room buf c e = read_more-waits rs room buf c e
read_more-waits (failed x ∷ rs) room buf c e = absurd c
read_more-waits (arrives [] ∷ rs) room buf c e = absurd (omega (arith, c.0.0))
read_more-waits (arrives (b ∷ bs) ∷ rs) room buf c e = absurd (omega (arith, ap (length {A = ℕ}) e))

read_line_fd-waits :
    (inbuf : Bytes) (rs : List Arrival)
    → Connected rs
    → inbuf ++ joined rs ≡ []
    → read_line_fd line_cap inbuf rs ≡ waits
unfolding read_line_fd take_buffered after_taken
read_line_fd-waits [] rs c e = read_more-waits rs _ [] c e
read_line_fd-waits (b ∷ bs) rs c e = absurd (omega (arith, ap (length {A = ℕ}) e))

exchange-waits :
    (n : ℤ) (w : Chat) (next : Chat → Outcome)
    → Linked w (length (line n)) []
    → (w' : Chat) × (exchange (line n) w next ≡ waiting w') × Spoke w w' (line n) []
unfolding exchange after_write after_read
exchange-waits n w next k =
    let (sent, ended, p, h) =
      write_all-whole w.writes (line n) 0 k.willing (omega (arith, k.enough)) in
    let idle = read_line_fd-waits w.inbuf w.arrivals k.connected k.to_come in
    (
      record w { sent = w.sent ++ line n; writes = (write_all (line n) w.writes).later },
      simp (sent, ended, idle),
      record { now_sent = refl; now_printed = sym (append-nil w.printed) },
    )

text-snoc : (ns : List ℤ) (n : ℤ) → text (ns ++ n ∷ []) ≡ text ns ++ line n
text-snoc [] n = append-nil (line n)
text-snoc (m ∷ ns) n =
    ap (λ b. line m ++ b) (text-snoc ns n) ∙ sym (append_assoc (line m) (text ns) (line n))

-- No deadlock: when the connection holds and takes every byte, `stdout` takes what is printed, and the
-- answers to the first requests have come and no others, the client has sent one request more and
-- waits for its answer. So it never waits for what the server does not owe it,
-- and there is always one request on the way.
pub chat-asks_first :
    (ns : List ℤ) (n : ℤ) (ms : List ℤ) (state : ℤ) (w : Chat)
    → Summable state ns
    → Linked w (length (text ns) + length (line n)) (answers state ns)
    → (w' : Chat) × (chat (lines ns ++ lines (n ∷ ms)) w ≡ waiting w')
      × (w'.sent ≡ w.sent ++ text (ns ++ n ∷ []))
      × (w'.printed ≡ w.printed ++ answers state ns)
chat-asks_first ns n ms state w v k =
    let (w', went, spoke, k') =
      chat-answers ns state w (length (line n)) [] (lines (n ∷ ms)) v (record {
        connected = k.connected;
        to_come = k.to_come ∙ sym (append-nil (answers state ns));
        willing = k.willing;
        enough = k.enough;
        stdout_open = k.stdout_open;
      }) in
    let (w'', waited, spoke') = exchange-waits n w' _ k' in
    (
      w'',
      went ∙ chat-line n (lines ms) w' ∙ waited,
      spoke'.now_sent
          ∙ ap (λ b. b ++ line n) spoke.now_sent
          ∙ append_assoc w.sent (text ns) (line n)
          ∙ ap (λ b. w.sent ++ b) (sym (text-snoc ns n)),
      spoke'.now_printed ∙ append-nil w'.printed ∙ spoke.now_printed,
    )
