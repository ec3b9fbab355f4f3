-- ===== src/Server/Client.antt =====
-- One client of the server: the loop of `recv`, `flush_client_output` and `close_client`.
use unix_tasks.Prelude.{
  ℕ, suc, ◌+◌, Bool, true, false, Option, none, List, [], ◌∷◌, ◌++◌, ◌==◌, ltb, length, take, drop,
  Bytes, if◌then◌else◌,
}
use unix_tasks.Server.Lines.{Session, Parsed, proceeds, rejected, undefined, parse_and_queue_lines}

abbrev pub client_in_cap : ℕ
client_in_cap = 8192

abbrev pub read_chunk : ℕ
read_chunk = 2048

-- An answer of `recv` on a socket that does not block. At most READ_CHUNK of the bytes that arrive
-- are taken; none at all is the end of the stream.
pub data RecvReply : Type 0 where
  arrives : Bytes → RecvReply
  would_block : RecvReply
  broken : RecvReply

-- The session after the loop, and why it ended: nothing more to read, or the end of the stream
-- (`peer_closed`), with the input that is kept; an error (`dead`), after which `close_client` drops
-- the input; or undefined behaviour.
pub data Received : Type 0 where
  drained : Bytes → Session → Received
  dies : Session → Received
  hung_up : Bytes → Session → Received
  undefined_sum : Session → Received

-- What follows `parse_and_queue_lines` in the loop; `next` is its next round.
unfoldable pub after_parse : Parsed → (Bytes → Session → Received) → Received
after_parse (proceeds rest s) next = next rest s
after_parse (rejected s) next = dies s
after_parse (undefined s) next = undefined_sum s

-- `while (1)`, up to the last answer that has come.
unfoldable pub receive : Bytes → Session → List RecvReply → Received
receive inbuf s [] = drained inbuf s
receive inbuf s (would_block ∷ rs) = drained inbuf s
receive inbuf s (broken ∷ rs) = dies s
receive inbuf s (arrives bs ∷ rs) =
    let tmp = take read_chunk bs in
    if length tmp == 0
    then hung_up inbuf s
    else if ltb client_in_cap (length inbuf + length tmp)
    then dies s
    else after_parse (parse_and_queue_lines (inbuf ++ tmp) s) (λ rest t. receive rest t rs)

-- An answer of `send`: it takes up to `k + 1` bytes, none, cannot take any now, or fails.
pub data SendReply : Type 0 where
  takes : ℕ → SendReply
  takes_none : SendReply
  would_block : SendReply
  broken : SendReply

-- `fd` is `none` for -1, a free slot. `in_len` and `out_len` are the lengths of the buffers.
pub record Client : Type 0 where
  pub fd : Option ℕ
  pub inbuf : Bytes
  pub outbuf : Bytes
  pub out_off : ℕ

-- What is queued and not yet sent.
abbrev pub pending : Client → Bytes
pending c = drop c.out_off c.outbuf

abbrev pub free_slot : Client
free_slot = record { fd = none; inbuf = []; outbuf = []; out_off = 0 }

-- `close_client`, and the descriptor that it closes.
unfoldable pub close_client : Client → Client × Option ℕ
close_client c = (free_slot, c.fd)

-- The client after `flush_client_output`, the bytes that went out, and whether it returned 0.
pub record Flushed : Type 0 where
  pub client : Client
  pub sent : Bytes
  pub ok : Bool

-- Behind the loop: a buffer that is sent is freed.
unfoldable pub flush_end : Client → Client
flush_end c = if c.out_off == length c.outbuf then record c { outbuf = []; out_off = 0 } else c

abbrev pub send_first : Bytes → Flushed → Flushed
send_first now r = record r { sent = now ++ r.sent }

-- `while (c->out_off < c->out_len)`; a call that has not been answered would block.
unfoldable pub flush_client_output : Client → List SendReply → Flushed
flush_client_output c [] = record {
  client = if ltb c.out_off (length c.outbuf) then c else flush_end c;
  sent = [];
  ok = true;
}
flush_client_output c (takes k ∷ rs) =
    let now = take (suc k) (drop c.out_off c.outbuf) in
    let more = flush_client_output (record c { out_off = c.out_off + length now }) rs in
    if ltb c.out_off (length c.outbuf)
    then send_first now more
    else record { client = flush_end c; sent = []; ok = true }
flush_client_output c (would_block ∷ rs) = record {
  client = if ltb c.out_off (length c.outbuf) then c else flush_end c;
  sent = [];
  ok = true;
}
flush_client_output c (takes_none ∷ rs) =
    if ltb c.out_off (length c.outbuf)
    then record { client = c; sent = []; ok = false }
    else record { client = flush_end c; sent = []; ok = true }
flush_client_output c (broken ∷ rs) =
    if ltb c.out_off (length c.outbuf)
    then record { client = c; sent = []; ok = false }
    else record { client = flush_end c; sent = []; ok = true }
