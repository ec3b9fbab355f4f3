-- ===== src/BotClient/Dialogue.antt =====
-- The client with the server: what it sends is added up, and what it prints are the sums.
use unix_tasks.Prelude.{
  ℕ, suc, ◌+◌, ◌≤◌, ◌≡◌, refl, sym, ap, ◌∙◌, Bool, true, false, List, [], ◌∷◌, ◌++◌, append-nil,
  append_assoc, arith, ◌==◌, length, length-append, Bytes,
}
use unix_tasks.Prelude.Int.{ℤ, ◌+ℤ◌}
use unix_tasks.Text.Number.{c_string}
use unix_tasks.Server.Long.{is_long, print_long}
use unix_tasks.Server.Lines.{Session, proceeds, parse_and_queue_lines}
use unix_tasks.Server.Reading.{print_long-Plain}
use unix_tasks.Server.Answers.{text, answers, granted, Summable, parse-text}
use unix_tasks.BotClient.Wire.{write_all}
use unix_tasks.BotClient.Stream.{joined, Connected, read_line_fd-GivesLine}
use unix_tasks.BotClient.Main.{
  Chat, Outcome, exits, input_lines, line_cap, put_line, after_read, after_write, exchange, chat,
}
use unix_tasks.BotClient.Sending.{Willing, takes_in, write_all-whole}
use unix_tasks.BotClient.InputLines.{
  Plain-NoNewline, c_string-line, length-print_long_le, line, lines, input_lines-text,
}

-- The client has sent and printed so much more, and the rest of the answers is still to come.
pub record Spoke (w w' : Chat) (said heard : Bytes) : Type 0 where
  pub now_sent : w'.sent ≡ w.sent ++ said
  pub now_printed : w'.printed ≡ w.printed ++ heard

-- The connection is there, takes so many bytes at least, and brings these; `stdout` takes all.
pub record Linked (w : Chat) (bytes : ℕ) (brings : Bytes) : Type 0 where
  pub connected : Connected w.arrivals
  pub to_come : w.inbuf ++ joined w.arrivals ≡ brings
  pub willing : Willing w.writes
  pub enough : bytes ≤ takes_in w.writes
  pub stdout_open : w.prints ≡ []

-- One request and its answer: the loop goes on behind it.
exchange-line :
    (n m : ℤ) (w : Chat) (more : ℕ) (rest : Bytes) (next : Chat → Outcome)
    → is_long m ≡ true
    → Linked w (length (line n) + more) (line m ++ rest)
    → (w' : Chat) × (exchange (line n) w next ≡ next w')
      × Spoke w w' (line n) (line m)
      × Linked w' more rest
unfolding exchange after_write after_read put_line
exchange-line n m w more rest next long k =
    let (sent, ended, p, h) = write_all-whole w.writes (line n) more k.willing k.enough in
    let (inbuf, rs, got, left, c) =
      read_line_fd-GivesLine line_cap w.inbuf w.arrivals (print_long m) rest
        (Plain-NoNewline (print_long m) (print_long-Plain m)) k.connected
        (omega (arith, length-print_long_le m long))
        (k.to_come ∙ append_assoc (print_long m) (b'\n' ∷ []) rest) in
    let r = write_all (line n) w.writes in
    (
      record w {
        inbuf = inbuf;
        arrivals = rs;
        writes = r.later;
        prints = [];
        sent = w.sent ++ line n;
        printed = w.printed ++ line m;
      },
      simp (sent, ended, got, k.stdout_open, c_string-line (print_long m) (print_long-Plain m)),
      record { now_sent = refl; now_printed = refl },
      record { connected = c; to_come = left; willing = p; enough = h; stdout_open = refl },
    )

length-positive : (cs : Bytes) (c : ℕ) → (length (cs ++ c ∷ []) == 0) ≡ false
length-positive cs c = let size = length-append {0} cs (c ∷ []) in ground arith

chat-nonempty :
    (l : Bytes) (ls : List Bytes) (w : Chat)
    → (length (c_string l) == 0) ≡ false
    → chat (l ∷ ls) w ≡ exchange (c_string l) w (λ w'. chat ls w')
unfolding chat
chat-nonempty l ls w e = rw (chat, e) refl

pub chat-line :
    (n : ℤ) (ls : List Bytes) (w : Chat)
    → chat (line n ∷ ls) w ≡ exchange (line n) w (λ w'. chat ls w')
chat-line n ls w =
    let whole = c_string-line (print_long n) (print_long-Plain n) in
    chat-nonempty (line n) ls w
      (ap (λ b. length b == 0) whole ∙ length-positive (print_long n) b'\n')
    ∙ ap (λ b. exchange b w (λ w'. chat ls w')) whole

-- All requests of `ns` and their answers.
pub chat-answers :
    (ns : List ℤ) (state : ℤ) (w : Chat) (more : ℕ) (rest : Bytes) (ls : List Bytes)
    → Summable state ns
    → Linked w (length (text ns) + more) (answers state ns ++ rest)
    → (w' : Chat) × (chat (lines ns ++ ls) w ≡ chat ls w')
      × Spoke w w' (text ns) (answers state ns)
      × Linked w' more rest
chat-answers [] state w more rest ls v k = (
  w,
  refl,
  record { now_sent = sym (append-nil w.sent); now_printed = sym (append-nil w.printed) },
  record {
    connected = k.connected;
    to_come = k.to_come;
    willing = k.willing;
    enough = omega (arith, k.enough);
    stdout_open = k.stdout_open;
  },
)
chat-answers (n ∷ ns) state w more rest ls v k =
    let m = state +ℤ n in
    let size = length-append {0} (line n) (text ns) in
    let (w', went, spoke, k') =
      exchange-line n m w (length (text ns) + more) (answers m ns ++ rest)
        (λ w'. chat (lines ns ++ ls) w') (v.0.1)
        (record {
          connected = k.connected;
          to_come = k.to_come ∙ append_assoc (line m) (answers m ns) rest;
          willing = k.willing;
          enough = omega (arith, k.enough, size);
          stdout_open = k.stdout_open;
        }) in
    let (w'', went', spoke', k'') = chat-answers ns m w' more rest ls v.1 k' in
    (
      w'',
      chat-line n (lines ns ++ ls) w ∙ went ∙ went',
      record {
        now_sent =
            spoke'.now_sent
            ∙ ap (λ b. b ++ text ns) spoke.now_sent
            ∙ append_assoc w.sent (line n) (text ns);
        now_printed =
            spoke'.now_printed
            ∙ ap (λ b. b ++ answers m ns) spoke.now_printed
            ∙ append_assoc w.printed (line m) (answers m ns);
      },
      k'',
    )

-- The client and the server together: a client whose input are numbers, each on a line, gets from
-- the server the answers that the server makes of exactly the bytes that the client sends. When the
-- connection holds, takes every byte and brings those answers, in whatever pieces, and `stdout` takes
-- what is printed, the client returns 0, it has sent its input as it was, and it has printed the server's answers as they were.
pub chat-parse_and_queue_lines :
    (ns : List ℤ) (state : ℤ) (allocs : List Bool) (w : Chat) (s : Session)
    → Summable state ns
    → parse_and_queue_lines
        (text ns)
        (record { state = state; out = []; allocs = granted ns allocs })
      ≡ proceeds [] s
    → Linked w (length (text ns)) s.out
    → (w' : Chat) × (chat (input_lines (suc (length (text ns))) (text ns)) w ≡ exits 0 w')
      × (w'.sent ≡ w.sent ++ text ns)
      × (w'.printed ≡ w.printed ++ s.out)
chat-parse_and_queue_lines ns state allocs w s v served k =
    let out : s.out ≡ answers state ns =
      ap (λ r. elim r [ proceeds rest t ↦ t.out | _ ↦ [] ])
        (sym served ∙ parse-text ns state [] allocs v) in
    let (w', went, spoke, k') = chat-answers ns state w 0 [] [] v (record {
      connected = k.connected;
      to_come = k.to_come ∙ out ∙ sym (append-nil (answers state ns));
      willing = k.willing;
      enough = omega (arith, k.enough);
      stdout_open = k.stdout_open;
    }) in
    (
      w',
      rw (input_lines-text ns state (suc (length (text ns))) v (omega arith))
          (ap (λ l. chat l w) (sym (append-nil (lines ns))) ∙ went ∙ (unfold chat in refl)),
      spoke.now_sent,
      spoke.now_printed ∙ ap (λ b. w.printed ++ b) (sym out),
    )
