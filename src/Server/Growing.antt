-- ===== src/Server/Growing.antt =====
-- What is queued for a client is never taken back: a pass over its lines, and the loop of `recv`,
-- only add to it.
use unix_tasks.Prelude.{
  ℕ, zero, suc, ◌+◌, ◌≤◌, Bool, true, false, Option, none, some, List, [], ◌∷◌, arith, ◌==◌, ltb,
  length, length-append, take, drop, Bytes, if_both,
}
use unix_tasks.Prelude.Int.{ℤ}
use unix_tasks.Server.Long.{add_long}
use unix_tasks.Server.Lines.{
  Session, Parsed, proceeds, rejected, undefined, LineEnd, answered, refused, overflowed,
  max_line_len, queue_response, add_delta, add_number, handle_line, after_line, at_newline,
  parse_loop, parse_and_queue_lines,
}
use unix_tasks.Server.Client.{
  client_in_cap, read_chunk, RecvReply, arrives, would_block, broken, Received, drained, dies,
  hung_up, undefined_sum, after_parse, receive,
}

abbrev LineGrows : ℕ → LineEnd → Type 0
LineGrows n (answered s) = n ≤ length s.out
LineGrows n (refused s) = Unit
LineGrows n (overflowed s) = Unit

abbrev ParseGrows : ℕ → Parsed → Type 0
ParseGrows n (proceeds rest s) = n ≤ length s.out
ParseGrows n (rejected s) = Unit
ParseGrows n (undefined s) = Unit

abbrev pub ReceiveGrows : ℕ → Received → Type 0
ReceiveGrows n (drained inbuf s) = n ≤ length s.out
ReceiveGrows n (hung_up inbuf s) = n ≤ length s.out
ReceiveGrows n (dies s) = Unit
ReceiveGrows n (undefined_sum s) = Unit

queue_response-LineGrows :
    (n : ℕ) (s : Session) (line : Bytes) (allocs : List Bool)
    → n ≤ length s.out
    → LineGrows n (queue_response s line allocs)
unfolding queue_response
queue_response-LineGrows n s line [] h = tt
queue_response-LineGrows n s line (false ∷ rest) h = tt
queue_response-LineGrows n s line (true ∷ rest) h = omega (arith, h, length-append {0} s.out line)

add_delta-LineGrows :
    (n : ℕ) (s : Session) (o : Option ℤ) → n ≤ length s.out → LineGrows n (add_delta s o)
unfolding add_delta
add_delta-LineGrows n s none h = tt
add_delta-LineGrows n s (some sum) h = queue_response-LineGrows n _ _ s.allocs h

add_number-LineGrows :
    (n : ℕ) (s : Session) (o : Option ℤ) → n ≤ length s.out → LineGrows n (add_number s o)
unfolding add_number
add_number-LineGrows n s none h = tt
add_number-LineGrows n s (some delta) h = add_delta-LineGrows n s (add_long s.state delta) h

after_line-ParseGrows :
    (n : ℕ) (r : LineEnd) (next : Session → Parsed)
    → LineGrows n r
    → ((s : Session) → n ≤ length s.out → ParseGrows n (next s))
    → ParseGrows n (after_line r next)
unfolding after_line
after_line-ParseGrows n (answered s) next h k = k s h
after_line-ParseGrows n (refused s) next h k = tt
after_line-ParseGrows n (overflowed s) next h k = tt

at_newline-ParseGrows :
    (n : ℕ) (rest : Bytes) (s : Session) (o : Option ℕ) (next : Bytes → Session → Parsed)
    → n ≤ length s.out
    → ((cs : Bytes) (t : Session) → n ≤ length t.out → ParseGrows n (next cs t))
    → ParseGrows n (at_newline rest s o next)
unfolding at_newline handle_line
at_newline-ParseGrows n rest s none next h k =
    if_both (ParseGrows n) (ltb max_line_len (length rest)) tt h
at_newline-ParseGrows n rest s (some len) next h k =
    if_both (ParseGrows n) (ltb max_line_len len) tt
      (after_line-ParseGrows n _ _ (add_number-LineGrows n s _ h) (k (drop (suc len) rest)))

parse_loop-ParseGrows :
    (n fuel : ℕ) (rest : Bytes) (s : Session)
    → n ≤ length s.out
    → ParseGrows n (parse_loop fuel rest s)
unfolding parse_loop
parse_loop-ParseGrows n zero rest s h = h
parse_loop-ParseGrows n (suc fuel) [] s h = h
parse_loop-ParseGrows n (suc fuel) (c ∷ cs) s h =
    at_newline-ParseGrows n (c ∷ cs) s _ _ h (λ rest t. parse_loop-ParseGrows n fuel rest t)

after_parse-ReceiveGrows :
    (n : ℕ) (r : Parsed) (next : Bytes → Session → Received)
    → ParseGrows n r
    → ((rest : Bytes) (s : Session) → n ≤ length s.out → ReceiveGrows n (next rest s))
    → ReceiveGrows n (after_parse r next)
unfolding after_parse
after_parse-ReceiveGrows n (proceeds rest s) next h k = k rest s h
after_parse-ReceiveGrows n (rejected s) next h k = tt
after_parse-ReceiveGrows n (undefined s) next h k = tt

pub receive-ReceiveGrows :
    (n : ℕ) (rs : List RecvReply) (inbuf : Bytes) (s : Session)
    → n ≤ length s.out
    → ReceiveGrows n (receive inbuf s rs)
unfolding receive parse_and_queue_lines
receive-ReceiveGrows n [] inbuf s h = h
receive-ReceiveGrows n (would_block ∷ rs) inbuf s h = h
receive-ReceiveGrows n (broken ∷ rs) inbuf s h = tt
receive-ReceiveGrows n (arrives bs ∷ rs) inbuf s h =
    if_both (ReceiveGrows n) (length (take read_chunk bs) == 0) h (
      if_both (ReceiveGrows n) (ltb client_in_cap (length inbuf + length (take read_chunk bs))) tt (
        after_parse-ReceiveGrows n _ _ (parse_loop-ParseGrows n _ _ s h)
          (λ rest t. receive-ReceiveGrows n rs rest t)))
