-- ===== src/Server/Main.antt =====
-- The server from its set-up to its end: the loop of `main` over any number of rounds, the signal
-- handler, and what follows the loop.
use unix_tasks.Prelude.{ℕ, zero, suc, Bool, false, ◌||◌, List, [], ◌∷◌, ◌++◌, if◌then◌else◌}
use unix_tasks.Prelude.Int.{pos}
use unix_tasks.Server.Client.{Client, free_slot, close_client}
use unix_tasks.Server.Poll.{
  AcceptReply, connects, no_more, accept_failed, close_if, Server, Events, Round, round,
}

abbrev pub max_clients : ℕ
max_clients = 1024

-- `for (i = 0; i < MAX_CLIENTS; i++)` before the loop.
abbrev pub free_slots : ℕ → List Client
free_slots zero = []
free_slots (suc n) = free_slot ∷ free_slots n

-- `on_signal`
abbrev pub on_signal : Bool → Server → Server
on_signal signalled srv = record srv { g_stop = srv.g_stop || signalled }

-- `poll` fills in its array, is interrupted, or fails.
pub data PollReply : Type 0 where
  polled : Events → PollReply
  interrupted : PollReply
  poll_failed : PollReply

-- A pass of the loop: whether SIGINT or SIGTERM has come before it, and the answer of `poll`.
pub record Turn : Type 0 where
  pub signalled : Bool
  pub reply : PollReply

-- The descriptors that `accept` gives in a round.
abbrev pub given : List AcceptReply → List ℕ
given [] = []
given (no_more ∷ rs) = []
given (accept_failed ∷ rs) = []
given (connects cfd _ ∷ rs) = cfd ∷ given rs

abbrev pub accepted_in : Events → List ℕ
accepted_in ev = if ev.listening then given ev.accepts else []

-- The server, with the descriptors that it has got from `accept` and closed so far.
pub record Life : Type 0 where
  pub server : Server
  pub accepted : List ℕ
  pub closed : List ℕ

-- The loop is left, the program goes on, or the sum has overflowed.
pub data Running : Type 0 where
  leaves : Life → Running
  goes_on : Life → Running
  undefined_sum : Life → Running

abbrev pub after_round : Server × Round → Events → Life → Life
after_round (srv, r) ev l = record {
  server = srv;
  accepted = l.accepted ++ accepted_in ev;
  closed = l.closed ++ r.closed;
}

unfoldable pub pass : PollReply → Life → (Life → Running) → Running
pass poll_failed l next = leaves l
pass interrupted l next = next l
pass (polled ev) l next =
    let r = round l.server ev in
    if r.1.overflow then undefined_sum (after_round r ev l) else next (after_round r ev l)

-- `while (!g_stop)`
unfoldable pub serve_loop : List Turn → Life → Running
serve_loop [] l = goes_on l
serve_loop (t ∷ ts) l =
    let l' : Life = record l { server = on_signal t.signalled l.server } in
    if l'.server.g_stop then leaves l' else pass t.reply l' (λ l''. serve_loop ts l'')

-- `for (i = 0; i < MAX_CLIENTS; i++) close_client(&clients[i], logf)`, with the descriptors closed.
unfoldable pub close_clients : List Client → List Client × List ℕ
close_clients [] = ([], [])
close_clients (c ∷ cs) =
    let (ds, fds) = close_clients cs in let (d, fd) = close_client c in (d ∷ ds, close_if fd fds)

unfoldable pub close_all : Life → Life
close_all l =
    let (ds, fds) = close_clients l.server.clients in
    record l { server = record l.server { clients = ds }; closed = l.closed ++ fds }

abbrev pub first_life : List Bool → Life
first_life allocs = record {
  server = record {
    clients = free_slots max_clients;
    state = pos 0;
    allocs = allocs;
    g_stop = false;
  };
  accepted = [];
  closed = [];
}

-- From the first pass of the loop to `return 0`.
unfoldable pub run_server : List Turn → List Bool → Running
run_server ts allocs = elim (serve_loop ts (first_life allocs)) [
  | leaves l ↦ leaves (close_all l)
  | goes_on l ↦ goes_on l
  | undefined_sum l ↦ undefined_sum l
]
