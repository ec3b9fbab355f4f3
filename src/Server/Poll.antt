-- ===== src/Server/Poll.antt =====
-- One round of the server's event loop: the poll set, `accept`, and the service of each client.
use unix_tasks.Prelude.{
  ℕ, Bool, true, false, not, ◌&&◌, ◌||◌, Option, none, some, List, [], ◌∷◌, ◌++◌, ◌==◌, ltb, length,
  Bytes, if◌then◌else◌,
}
use unix_tasks.Prelude.Int.{ℤ}
use unix_tasks.Server.Lines.{Session}
use unix_tasks.Server.Client.{
  Client, free_slot, close_client, Received, drained, dies, hung_up, undefined_sum, RecvReply,
  receive, SendReply, Flushed, flush_client_output,
}

-- `revents`: POLLERR or POLLNVAL, POLLHUP, POLLIN, POLLOUT.
pub record Revents : Type 0 where
  pub error : Bool
  pub hup : Bool
  pub readable : Bool
  pub writable : Bool

abbrev pub is_free : Client → Bool
is_free c = elim c.fd [ none ↦ true | some _ ↦ false ]

-- The descriptors of the poll set behind that of the listening socket, with POLLOUT asked for or
-- not, in the order of the slots.
unfoldable pub poll_set : List Client → List (Option ℕ × Bool)
poll_set [] = []
poll_set (c ∷ cs) =
    if is_free c then poll_set cs else (c.fd, ltb c.out_off (length c.outbuf)) ∷ poll_set cs

-- `for (i = 0; i < MAX_CLIENTS; i++)` after `accept`: the first free slot takes the descriptor;
-- `none` if there is none.
unfoldable pub admit : ℕ → List Client → Option (List Client)
admit cfd [] = none
admit cfd (c ∷ cs) =
    if is_free c
    then some (record free_slot { fd = some cfd } ∷ cs)
    else elim (admit cfd cs) [ none ↦ none | some ds ↦ some (c ∷ ds) ]

-- An answer of `accept`, with that of `set_nonblocking` on the new descriptor.
pub data AcceptReply : Type 0 where
  connects : ℕ → Bool → AcceptReply
  no_more : AcceptReply
  accept_failed : AcceptReply

-- The slots after the loop of `accept`, the descriptors closed, and `g_stop`.
pub record Accepted : Type 0 where
  pub clients : List Client
  pub closed : List ℕ
  pub stop : Bool

abbrev pub close_first : ℕ → Accepted → Accepted
close_first fd r = record r { closed = fd ∷ r.closed }

-- After the search for a slot: the next answer, with the descriptor in a slot or closed.
unfoldable pub seat : ℕ → List Client → Option (List Client) → (List Client → Accepted) → Accepted
seat cfd cs none next = close_first cfd (next cs)
seat cfd cs (some ds) next = next ds

unfoldable pub accept_loop : List Client → List AcceptReply → Accepted
accept_loop cs [] = record { clients = cs; closed = []; stop = false }
accept_loop cs (no_more ∷ rs) = record { clients = cs; closed = []; stop = false }
accept_loop cs (accept_failed ∷ rs) = record { clients = cs; closed = []; stop = true }
accept_loop cs (connects cfd false ∷ rs) = close_first cfd (accept_loop cs rs)
accept_loop cs (connects cfd true ∷ rs) = seat cfd cs (admit cfd cs) (λ ds. accept_loop ds rs)

-- What the kernel answers on one descriptor in this round.
pub record Answers : Type 0 where
  pub recvs : List RecvReply
  pub sends : List SendReply

-- A client after its turn; the sum and the answers to come of `realloc`; the bytes sent and the
-- descriptor closed; and whether the sum overflowed.
pub record Served : Type 0 where
  pub client : Client
  pub state : ℤ
  pub allocs : List Bool
  pub sent : Bytes
  pub closed : Option ℕ
  pub overflow : Bool

abbrev pub with_client : Session → Client → Bytes → Served
with_client s c sent = record {
  client = c;
  state = s.state;
  allocs = s.allocs;
  sent = sent;
  closed = none;
  overflow = false;
}

-- `close_client`, for a client that is dead.
abbrev dropped : Session → Client → Bytes → Served
dropped s c sent = record (with_client s (close_client c).0 sent) { closed = (close_client c).1 }

-- The last `if`s: a peer that has closed is dropped once its answers are sent.
unfoldable pub finish : Bool → Session → Flushed → Served
unfolding close_client
finish peer_closed s f =
    if not f.ok
    then dropped s f.client f.sent
    else if peer_closed && f.client.out_off == length f.client.outbuf
    then dropped s f.client f.sent
    else with_client s f.client f.sent

-- `if (!dead && (revents & POLLOUT))`
unfoldable pub flush_if : Bool → Bool → Session → Client → List SendReply → Served
unfolding finish
flush_if writable peer_closed s c sends =
    let f = flush_client_output c sends in
    finish peer_closed s (if writable then f else record { client = c; sent = []; ok = true })

-- After the loop of `recv`. `read` gives the client the output that was queued meanwhile.
unfoldable pub after_receive : Revents → Bool → Client → List SendReply → Received → Served
unfolding flush_if close_client
after_receive r peer_closed c sends (drained inbuf s) =
    flush_if r.writable peer_closed s (record c { inbuf = inbuf; outbuf = s.out }) sends
after_receive r peer_closed c sends (hung_up inbuf s) =
    flush_if r.writable true s (record c { inbuf = inbuf; outbuf = s.out }) sends
after_receive r peer_closed c sends (dies s) = dropped s c []
after_receive r peer_closed c sends (undefined_sum s) = record (with_client s c []) {
  overflow = true;
}

-- The body of the second loop over the slots, for a client that has a descriptor.
unfoldable pub serve : ℤ → List Bool → Client → Revents → Answers → Served
unfolding after_receive close_client
serve state allocs c r a =
    let s : Session = record { state = state; out = c.outbuf; allocs = allocs } in
    if r.error
    then dropped s c []
    else after_receive r (r.hup && not r.readable) c a.sends
        (if r.readable then receive c.inbuf s a.recvs else drained c.inbuf s)

-- Entries of the array behind those that `poll` filled in; they hold what an earlier round, or
-- nobody, left there.
abbrev pub next_revents : List Revents → Revents → Revents
next_revents [] stale = stale
next_revents (r ∷ rs) stale = r

abbrev pub later_revents : List Revents → List Revents
later_revents [] = []
later_revents (r ∷ rs) = rs

-- What the second loop over the slots makes of them: the sum, what each descriptor was sent, and
-- the descriptors closed.
pub record Round : Type 0 where
  pub clients : List Client
  pub state : ℤ
  pub allocs : List Bool
  pub sent : List (ℕ × Bytes)
  pub closed : List ℕ
  pub overflow : Bool

abbrev pub close_if : Option ℕ → List ℕ → List ℕ
close_if none fds = fds
close_if (some fd) fds = fd ∷ fds

-- The turn of one client in front of those of the later slots.
abbrev pub serve_first : ℕ → Served → Round → Round
serve_first fd now r = record r {
  clients = now.client ∷ r.clients;
  sent = (fd, now.sent) ∷ r.sent;
  closed = close_if now.closed r.closed;
  overflow = now.overflow || r.overflow;
}

-- One slot of the second loop: `nfds` moves to the next entry of the array if the slot has a
-- descriptor by now. `next` is what follows for the later slots.
unfoldable pub serve_slot :
    (ℕ → Answers)
    → ℤ
    → List Bool
    → Revents
    → Option ℕ
    → Client
    → List Revents
    → (ℤ → List Bool → List Revents → Round)
    → Round
serve_slot answers state allocs stale none c rs next =
    let r = next state allocs rs in record r { clients = c ∷ r.clients }
serve_slot answers state allocs stale (some fd) c rs next =
    let now = serve state allocs c (next_revents rs stale) (answers fd) in
    serve_first fd now (next now.state now.allocs (later_revents rs))

unfoldable pub serve_all :
    (ℕ → Answers) → ℤ → List Bool → Revents → List Client → List Revents → Round
serve_all answers state allocs stale [] rs = record {
  clients = [];
  state = state;
  allocs = allocs;
  sent = [];
  closed = [];
  overflow = false;
}
serve_all answers state allocs stale (c ∷ cs) rs =
    serve_slot answers state allocs stale c.fd c rs
      (λ state' allocs' rs'. serve_all answers state' allocs' stale cs rs')

-- The variables of `main` that outlive a round.
pub record Server : Type 0 where
  pub clients : List Client
  pub state : ℤ
  pub allocs : List Bool
  pub g_stop : Bool

-- What the kernel answers in one round: to `poll`, for the listening socket and for each entry of
-- the poll set; to `accept`; and to the calls on each descriptor.
pub record Events : Type 0 where
  pub listening : Bool
  pub revents : List Revents
  pub stale : Revents
  pub accepts : List AcceptReply
  pub answers : ℕ → Answers

-- One pass of `while (!g_stop)` in which `poll` succeeds: the server, what was sent and closed, and
-- whether the sum overflowed.
unfoldable pub round : Server → Events → Server × Round
round srv ev =
    let a : Accepted =
      if ev.listening
      then accept_loop srv.clients ev.accepts
      else record { clients = srv.clients; closed = []; stop = false } in
    let r = serve_all ev.answers srv.state srv.allocs ev.stale a.clients ev.revents in
    (
      record {
        clients = r.clients;
        state = r.state;
        allocs = r.allocs;
        g_stop = srv.g_stop || a.stop;
      },
      record r { closed = a.closed ++ r.closed },
    )
