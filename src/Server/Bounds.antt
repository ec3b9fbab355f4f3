-- ===== src/Server/Bounds.antt =====
-- The server's arrays are never overrun: the slots, the poll set and the buffers stay in bounds.
use unix_tasks.Prelude.{
  suc, ◌+◌, ◌≤◌, ◌≡◌, refl, Bool, true, not, ◌&&◌, List, [], ◌∷◌, arith, ◌==◌, ltb, length, take,
  drop, length-take, length-drop, Bytes, if_both,
}
use unix_tasks.Prelude.Int.{ℤ}
use unix_tasks.Server.Lines.{Session, Parsed, proceeds, rejected, undefined, find_newline}
use unix_tasks.Server.Client.{
  Client, free_slot, close_client, client_in_cap, read_chunk, RecvReply, arrives, Received, drained,
  dies, hung_up, undefined_sum, after_parse, receive, SendReply, takes, takes_none, flush_end,
  flush_client_output, Flushed,
}
use unix_tasks.Server.Chunks.{Unfinished, parse-Unfinished}
use unix_tasks.Server.Growing.{ReceiveGrows, receive-ReceiveGrows}
use unix_tasks.Server.Poll.{Revents, Answers, Served, finish, flush_if, after_receive, serve}

-- Between two rounds a client has an unfinished line in its input at most, and its offset stands in
-- its output.
pub record IsValid (c : Client) : Type 0 where
  pub input : Unfinished c.inbuf
  pub offset : c.out_off ≤ length c.outbuf

abbrev pub AllValid : List Client → Type 0
AllValid [] = Unit
AllValid (c ∷ cs) = IsValid c × AllValid cs

pub empty-Unfinished : Unfinished []
unfolding find_newline
empty-Unfinished = record { no_newline = refl; short = omega arith }

flush_end-IsValid : (c : Client) → IsValid c → IsValid (flush_end c)
unfolding flush_end
flush_end-IsValid c v =
    if_both IsValid (c.out_off == length c.outbuf)
      (record { input = v.input; offset = omega arith }) v

abbrev ValidFlush : Flushed → Type 0
ValidFlush f = IsValid f.client

pub flush-IsValid :
    (rs : List SendReply) (c : Client) → IsValid c → IsValid (flush_client_output c rs).client
unfolding flush_client_output
flush-IsValid [] c v = if_both IsValid (ltb c.out_off (length c.outbuf)) v (flush_end-IsValid c v)
flush-IsValid (SendReply.would_block ∷ rs) c v =
    if_both IsValid (ltb c.out_off (length c.outbuf)) v (flush_end-IsValid c v)
flush-IsValid (takes_none ∷ rs) c v =
    if_both ValidFlush (ltb c.out_off (length c.outbuf)) v (flush_end-IsValid c v)
flush-IsValid (SendReply.broken ∷ rs) c v =
    if_both ValidFlush (ltb c.out_off (length c.outbuf)) v (flush_end-IsValid c v)
flush-IsValid (takes k ∷ rs) c v =
    let now = take (suc k) (drop c.out_off c.outbuf) in
    if_both ValidFlush (ltb c.out_off (length c.outbuf))
      (flush-IsValid rs (record c { out_off = c.out_off + length now })
        (record {
          input = v.input;
          offset = omega (
            arith,
            v.offset,
            length-take {0} (suc k) (drop c.out_off c.outbuf),
            length-drop {0} c.out_off c.outbuf,
          );
        }))
      (flush_end-IsValid c v)

abbrev ReceiveUnfinished : Received → Type 0
ReceiveUnfinished (drained inbuf s) = Unfinished inbuf
ReceiveUnfinished (hung_up inbuf s) = Unfinished inbuf
ReceiveUnfinished (dies s) = Unit
ReceiveUnfinished (undefined_sum s) = Unit

after_parse-ReceiveUnfinished :
    (r : Parsed) (next : Bytes → Session → Received)
    → ((rest : Bytes) (t : Session) → r ≡ proceeds rest t → ReceiveUnfinished (next rest t))
    → ReceiveUnfinished (after_parse r next)
unfolding after_parse
after_parse-ReceiveUnfinished (proceeds rest t) next h = h rest t refl
after_parse-ReceiveUnfinished (rejected t) next h = tt
after_parse-ReceiveUnfinished (undefined t) next h = tt

receive-ReceiveUnfinished :
    (rs : List RecvReply) (inbuf : Bytes) (s : Session)
    → Unfinished inbuf
    → ReceiveUnfinished (receive inbuf s rs)
unfolding receive
receive-ReceiveUnfinished [] inbuf s v = v
receive-ReceiveUnfinished (RecvReply.would_block ∷ rs) inbuf s v = v
receive-ReceiveUnfinished (RecvReply.broken ∷ rs) inbuf s v = tt
receive-ReceiveUnfinished (arrives bs ∷ rs) inbuf s v =
    if_both ReceiveUnfinished (length (take read_chunk bs) == 0) v (
      if_both ReceiveUnfinished (ltb client_in_cap (length inbuf + length (take read_chunk bs))) tt
        (after_parse-ReceiveUnfinished _ _
          (λ rest t e. receive-ReceiveUnfinished rs rest t (parse-Unfinished _ s rest t e))))

finish-IsValid :
    (peer_closed : Bool) (s : Session) (f : Flushed)
    → IsValid f.client
    → IsValid (finish peer_closed s f).client
unfolding finish close_client
finish-IsValid peer_closed s f v =
    let freed : IsValid free_slot = record { input = empty-Unfinished; offset = omega arith } in
    if_both (λ (r : Served). IsValid r.client) (not f.ok) freed
      (if_both (λ (r : Served). IsValid r.client)
        (peer_closed && f.client.out_off == length f.client.outbuf) freed v)

flush_if-IsValid :
    (writable peer_closed : Bool) (s : Session) (c : Client) (sends : List SendReply)
    → IsValid c
    → IsValid (flush_if writable peer_closed s c sends).client
unfolding flush_if
flush_if-IsValid writable peer_closed s c sends v =
    finish-IsValid peer_closed s _
      (if_both (λ (f : Flushed). IsValid f.client) writable (flush-IsValid sends c v) v)

after_receive-IsValid :
    (r : Revents) (peer_closed : Bool) (c : Client) (sends : List SendReply) (v : Received)
    → IsValid c
    → ReceiveUnfinished v
    → ReceiveGrows (length c.outbuf) v
    → IsValid (after_receive r peer_closed c sends v).client
unfolding after_receive close_client
after_receive-IsValid r peer_closed c sends (drained inbuf s) v u g =
    flush_if-IsValid r.writable peer_closed s (record c { inbuf = inbuf; outbuf = s.out }) sends
      (record { input = u; offset = omega (arith, v.offset, g) })
after_receive-IsValid r peer_closed c sends (hung_up inbuf s) v u g =
    flush_if-IsValid r.writable true s (record c { inbuf = inbuf; outbuf = s.out }) sends
      (record { input = u; offset = omega (arith, v.offset, g) })
after_receive-IsValid r peer_closed c sends (dies s) v u g = record {
  input = empty-Unfinished;
  offset = omega arith;
}
after_receive-IsValid r peer_closed c sends (undefined_sum s) v u g = v

pub serve-IsValid :
    (state : ℤ) (allocs : List Bool) (c : Client) (r : Revents) (a : Answers)
    → IsValid c
    → IsValid (serve state allocs c r a).client
unfolding serve close_client
serve-IsValid state allocs c r a v =
    let s : Session = record { state = state; out = c.outbuf; allocs = allocs } in
    if_both (λ (x : Served). IsValid x.client) r.error
      (record { input = empty-Unfinished; offset = omega arith })
      (after_receive-IsValid r _ c a.sends _ v
        (if_both ReceiveUnfinished r.readable (receive-ReceiveUnfinished a.recvs c.inbuf s v.input)
          v.input)
        (if_both (ReceiveGrows (length c.outbuf)) r.readable
          (receive-ReceiveGrows (length c.outbuf) a.recvs c.inbuf s (omega arith)) (omega arith)))
