-- ===== src/Server/Serving.antt =====
-- The turn of one client that sends whole lines with numbers.
use unix_tasks.Prelude.{
  append-nil, ◌⊎◌, inl, inr, subst, sym, ℕ, zero, suc, ◌≤◌, ◌≡◌, refl, ap, ◌∙◌, Bool, true, false,
  ◌&&◌, none, List, [], ◌∷◌, ◌++◌, arith, ◌==◌, ltb, length, length-append, drop, Bytes, if_both,
  if◌then◌else◌,
}
use unix_tasks.Prelude.Int.{ℤ}
use unix_tasks.Server.Lines.{Session, parse_and_queue_lines}
use unix_tasks.Server.Client.{
  Client, pending, receive, drained, SendReply, takes, takes_none, flush_end, flush_client_output,
  Flushed,
}
use unix_tasks.Server.Chunks.{arrivals, joined, Pieces, as_received, receive-joined}
use unix_tasks.Server.Answers.{text, total, answers, granted, Summable, parse-text}
use unix_tasks.Server.Flush.{flush-pending}
use unix_tasks.Server.Poll.{
  Revents, Answers, Served, with_client, finish, flush_if, after_receive, serve,
}
use unix_tasks.Server.Bounds.{IsValid, empty-Unfinished, flush-IsValid}

-- Every line of the client has been read to its end.
pub record IsBetween (c : Client) : Type 0 where
  pub no_input : c.inbuf ≡ []
  pub offset : c.out_off ≤ length c.outbuf

-- `send` does not fail.
abbrev pub NoSendError : List SendReply → Type 0
NoSendError [] = Unit
NoSendError (takes k ∷ rs) = NoSendError rs
NoSendError (takes_none ∷ rs) = ⊥
NoSendError (SendReply.would_block ∷ rs) = NoSendError rs
NoSendError (SendReply.broken ∷ rs) = ⊥

-- The client sends nothing, and its socket is open.
pub record IsIdle (ns : List ℤ) (r : Revents) : Type 0 where
  pub no_numbers : ns ≡ []
  pub unreadable : r.readable ≡ false
  pub still_open : r.hup ≡ false

-- The client sends the numbers, a line for each, in any pieces, and takes its answers as it likes.
pub record Sends (ns : List ℤ) (r : Revents) (a : Answers) : Type 0 where
  pub parts : List Bytes
  pub whole : joined parts ≡ text ns
  pub sized : Pieces parts
  pub arriving : a.recvs ≡ arrivals parts
  pub no_send_error : NoSendError a.sends
  pub no_error : r.error ≡ false
  pub ready : (r.readable ≡ true) ⊎ IsIdle ns r

-- The numbers are in the sum, the client keeps its slot, and its answers are sent or queued.
pub record Serves (state : ℤ) (ns : List ℤ) (rest : List Bool) (c : Client) (now : Served)
    : Type 0 where
  pub sum : now.state ≡ total state ns
  pub memory : now.allocs ≡ rest
  pub stays : now.closed ≡ none
  pub defined : now.overflow ≡ false
  pub same_fd : now.client.fd ≡ c.fd
  pub stream : now.sent ++ pending now.client ≡ pending c ++ answers state ns
  pub between : IsBetween now.client

abbrev Alike : Client → Client → Type 0
Alike c d = (d.fd ≡ c.fd) × (d.inbuf ≡ c.inbuf)

abbrev KeepsClient : Client → Flushed → Type 0
KeepsClient c f = (f.ok ≡ true) × Alike c f.client

flush_end-Alike : (c : Client) → Alike c (flush_end c)
unfolding flush_end
flush_end-Alike c = if_both (Alike c) (c.out_off == length c.outbuf) (refl, refl) (refl, refl)

flush-KeepsClient :
    (rs : List SendReply) (c : Client) → NoSendError rs → KeepsClient c (flush_client_output c rs)
unfolding flush_client_output
flush-KeepsClient [] c h =
    (refl, if_both (Alike c) (ltb c.out_off (length c.outbuf)) (refl, refl) (flush_end-Alike c))
flush-KeepsClient (SendReply.would_block ∷ rs) c h =
    (refl, if_both (Alike c) (ltb c.out_off (length c.outbuf)) (refl, refl) (flush_end-Alike c))
flush-KeepsClient (takes_none ∷ rs) c h = absurd h
flush-KeepsClient (SendReply.broken ∷ rs) c h = absurd h
flush-KeepsClient (takes k ∷ rs) c h =
    if_both (KeepsClient c) (ltb c.out_off (length c.outbuf)) (flush-KeepsClient rs _ h)
      (refl, flush_end-Alike c)

drop-append_left : (n : ℕ) (xs ys : Bytes) → n ≤ length xs → drop n (xs ++ ys) ≡ drop n xs ++ ys
drop-append_left zero xs ys h = refl
drop-append_left (suc n) [] ys h = absurd (omega arith)
drop-append_left (suc n) (x ∷ xs) ys h = drop-append_left n xs ys (omega arith)

receive-numbers :
    (ns : List ℤ) (parts : List Bytes) (state : ℤ) (out : Bytes) (rest : List Bool)
    → Summable state ns
    → joined parts ≡ text ns
    → Pieces parts
    → receive [] (record { state = state; out = out; allocs = granted ns rest }) (arrivals parts)
      ≡ drained [] (record { state = total state ns; out = out ++ answers state ns; allocs = rest })
receive-numbers ns parts state out rest v whole sized =
    receive-joined parts [] _ empty-Unfinished sized
    ∙ ap
        (λ bs. as_received (
          parse_and_queue_lines bs (record { state = state; out = out; allocs = granted ns rest })))
        whole
    ∙ ap as_received (parse-text ns state out rest v)

finish-open :
    (s : Session) (f : Flushed) → f.ok ≡ true → finish false s f ≡ with_client s f.client f.sent
unfolding finish
finish-open s f ok = rw ok refl

-- What a turn of `flush_client_output`, or none, makes of the client.
abbrev Flushes : Client → Flushed → Type 0
Flushes c f = KeepsClient c f × (f.sent ++ pending f.client ≡ pending c) × IsValid f.client

flush-Flushes :
    (c : Client) (rs : List SendReply) (writable : Bool)
    → IsValid c
    → NoSendError rs
    → Flushes c
        (if writable then flush_client_output c rs else record { client = c; sent = []; ok = true })
flush-Flushes c rs writable v h =
    if_both (Flushes c) writable
      (flush-KeepsClient rs c h, flush-pending rs c, flush-IsValid rs c v)
      ((refl, (refl, refl)), refl, v)

flush_if-Serves :
    (state : ℤ) (ns : List ℤ) (rest : List Bool) (c : Client) (rs : List SendReply)
    (writable : Bool)
    → IsBetween c
    → NoSendError rs
    → Serves state ns rest c (
        flush_if writable false
          (record { state = total state ns; out = c.outbuf ++ answers state ns; allocs = rest })
          (record c { inbuf = []; outbuf = c.outbuf ++ answers state ns })
          rs)
unfolding flush_if
flush_if-Serves state ns rest c rs writable b h =
    let d : Client = record c { inbuf = []; outbuf = c.outbuf ++ answers state ns } in
    let v : IsValid d = record {
      input = empty-Unfinished;
      offset = omega (arith, b.offset, length-append {0} c.outbuf (answers state ns));
    } in
    let s : Session = record {
      state = total state ns;
      out = c.outbuf ++ answers state ns;
      allocs = rest;
    } in
    let f : Flushed =
      if writable then flush_client_output d rs else record { client = d; sent = []; ok = true } in
    let (keeps, stream, valid) = flush-Flushes d rs writable v h in
    rw (finish-open s f (keeps.0)) (record {
      sum = refl;
      memory = refl;
      stays = refl;
      defined = refl;
      same_fd = keeps.1.0;
      stream = stream ∙ drop-append_left c.out_off c.outbuf (answers state ns) b.offset;
      between = record { no_input = keeps.1.1; offset = valid.offset };
    })

and-false : (b : Bool) → (b && false) ≡ false
and-false true = refl
and-false false = refl

idle-Serves :
    (state : ℤ) (rest : List Bool) (c : Client) (r : Revents) (a : Answers)
    → IsBetween c
    → NoSendError a.sends
    → r.error ≡ false
    → r.readable ≡ false
    → r.hup ≡ false
    → Serves state [] rest c (serve state rest c r a)
unfolding serve after_receive
idle-Serves state rest c r a b h quiet unreadable still_open =
    rw (quiet, unreadable, still_open, b.no_input)
      (subst
        (λ out.
          Serves state [] rest (record c { inbuf = [] })
            (flush_if r.writable false (record { state = state; out = out; allocs = rest })
              (record c { inbuf = []; outbuf = out }) a.sends))
        (append-nil c.outbuf)
        (flush_if-Serves state [] rest (record c { inbuf = [] }) a.sends r.writable
          (record { no_input = refl; offset = b.offset }) h))

readable-Serves :
    (state : ℤ) (ns : List ℤ) (rest : List Bool) (c : Client) (r : Revents) (a : Answers)
    → Summable state ns
    → IsBetween c
    → Sends ns r a
    → r.readable ≡ true
    → Serves state ns rest c (serve state (granted ns rest) c r a)
unfolding serve after_receive
readable-Serves state ns rest c r a v b sends readable =
    let got = receive-numbers ns sends.parts state c.outbuf rest v sends.whole sends.sized in
    rw (sends.no_error, readable, sends.arriving, b.no_input, got)
      (rw (and-false r.hup) (
        flush_if-Serves state ns rest (record c { inbuf = [] }) a.sends r.writable
          (record { no_input = refl; offset = b.offset }) sends.no_send_error))

-- The turn of a client that sends numbers, or nothing.
pub serve-Serves :
    (state : ℤ) (ns : List ℤ) (rest : List Bool) (c : Client) (r : Revents) (a : Answers)
    → Summable state ns
    → IsBetween c
    → Sends ns r a
    → Serves state ns rest c (serve state (granted ns rest) c r a)
serve-Serves state ns rest c r a v b sends = elim (sends.ready) [
  | inl readable ↦ readable-Serves state ns rest c r a v b sends readable
  | inr idle ↦
      subst (λ l. Serves state l rest c (serve state (granted l rest) c r a)) (sym idle.no_numbers)
        (idle-Serves state rest c r a b sends.no_send_error sends.no_error idle.unreadable
          idle.still_open)
]
