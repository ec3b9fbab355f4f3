-- ===== src/Server/Closing.antt =====
-- Every connection that the server accepts is closed, once, by the time it ends.
use unix_tasks.Prelude.{
  ℕ, zero, suc, ◌+◌, ◌≡◌, refl, Bool, ◌||◌, List, [], ◌∷◌, arith, if◌then◌else◌, if_both,
  Bool-cases, inl, inr,
}
use unix_tasks.Server.Client.{Client, close_client}
use unix_tasks.Server.Poll.{AcceptReply, connects, no_more, accept_failed, Events, round}
use unix_tasks.Server.Slots.{held, counted, counted-append, brought, close_if-counted, round-held}
use unix_tasks.Server.Main.{
  max_clients, free_slots, PollReply, polled, interrupted, poll_failed, Turn, given, accepted_in,
  Life, Running, leaves, goes_on, undefined_sum, after_round, pass, serve_loop, close_clients,
  close_all, first_life, run_server,
}

-- Each descriptor is in a slot or closed, as often as `accept` gave it.
abbrev pub Balanced : ℕ → Life → Type 0
Balanced k l = held k l.server.clients + counted k l.closed ≡ counted k l.accepted

abbrev pub RunBalanced : ℕ → Running → Type 0
RunBalanced k (leaves l) = Balanced k l
RunBalanced k (goes_on l) = Balanced k l
RunBalanced k (undefined_sum l) = Balanced k l

given-brought : (k : ℕ) (rs : List AcceptReply) → counted k (given rs) ≡ brought k rs
given-brought k [] = refl
given-brought k (no_more ∷ rs) = refl
given-brought k (accept_failed ∷ rs) = refl
given-brought k (connects cfd b ∷ rs) = omega (arith, given-brought k rs)

accepted_in-brought :
    (k : ℕ) (ev : Events)
    → counted k (accepted_in ev) ≡ (if ev.listening then brought k ev.accepts else 0)
accepted_in-brought k ev = elim (Bool-cases ev.listening) [
  | inl yes_in ↦ rw yes_in (given-brought k ev.accepts)
  | inr no_in ↦ rw no_in refl
]

after_round-Balanced :
    (k : ℕ) (l : Life) (ev : Events)
    → Balanced k l
    → Balanced k (after_round (round l.server ev) ev l)
after_round-Balanced k l ev h = omega (
  arith,
  h,
  round-held k l.server ev,
  accepted_in-brought k ev,
  counted-append k l.closed (round l.server ev).1.closed,
  counted-append k l.accepted (accepted_in ev),
)

pass-RunBalanced :
    (k : ℕ) (p : PollReply) (l : Life) (next : Life → Running)
    → Balanced k l
    → ((l' : Life) → Balanced k l' → RunBalanced k (next l'))
    → RunBalanced k (pass p l next)
unfolding pass
pass-RunBalanced k poll_failed l next h n = h
pass-RunBalanced k interrupted l next h n = n l h
pass-RunBalanced k (polled ev) l next h n =
    if_both (RunBalanced k) (round l.server ev).1.overflow (after_round-Balanced k l ev h)
      (n _ (after_round-Balanced k l ev h))

serve_loop-RunBalanced :
    (k : ℕ) (ts : List Turn) (l : Life) → Balanced k l → RunBalanced k (serve_loop ts l)
unfolding serve_loop
serve_loop-RunBalanced k [] l h = h
serve_loop-RunBalanced k (t ∷ ts) l h =
    if_both (RunBalanced k) (l.server.g_stop || t.signalled) h
      (pass-RunBalanced k t.reply _ _ h (λ l'. serve_loop-RunBalanced k ts l'))

held-free_slots : (k n : ℕ) → held k (free_slots n) ≡ 0
held-free_slots k zero = refl
held-free_slots k (suc n) = omega (arith, held-free_slots k n)

close_clients-held :
    (k : ℕ) (cs : List Client)
    → (held k (close_clients cs).0 ≡ 0) × (counted k (close_clients cs).1 ≡ held k cs)
unfolding close_clients close_client
close_clients-held k [] = (refl, refl)
close_clients-held k (c ∷ cs) =
    let (freed, closed) = close_clients-held k cs in
    (omega (arith, freed), omega (arith, closed, close_if-counted k c.fd (close_clients cs).1))

-- The server ended with no connection held, and closed each one as often as it accepted it.
abbrev pub AllClosed : ℕ → Running → Type 0
AllClosed k (leaves l) = (held k l.server.clients ≡ 0) × (counted k l.closed ≡ counted k l.accepted)
AllClosed k (goes_on l) = Balanced k l
AllClosed k (undefined_sum l) = Balanced k l

close_all-AllClosed : (k : ℕ) (l : Life) → Balanced k l → AllClosed k (leaves (close_all l))
unfolding close_all
close_all-AllClosed k l h =
    let (freed, closed) = close_clients-held k l.server.clients in
    (freed, omega (arith, h, closed, counted-append k l.closed (close_clients l.server.clients).1))

run-AllClosed :
    (k : ℕ) (r : Running)
    → RunBalanced k r
    → AllClosed k (elim r [
      | leaves l ↦ leaves (close_all l)
      | goes_on l ↦ goes_on l
      | undefined_sum l ↦ undefined_sum l
    ])
run-AllClosed k (leaves l) h = close_all-AllClosed k l h
run-AllClosed k (goes_on l) h = h
run-AllClosed k (undefined_sum l) h = h

-- Over the whole life of the server, through any number of rounds, signals, interruptions and
-- failures of `poll` and `accept`: while it runs, each descriptor is held in a slot or closed
-- exactly as often as `accept` gave it; and when `main` returns, no slot holds it any more, and it
-- was closed exactly as often as `accept` gave it.
pub run_server-AllClosed :
    (k : ℕ) (ts : List Turn) (allocs : List Bool) → AllClosed k (run_server ts allocs)
unfolding run_server
run_server-AllClosed k ts allocs =
    run-AllClosed k (serve_loop ts (first_life allocs)) (
      serve_loop-RunBalanced k ts (first_life allocs)
        (omega (arith, held-free_slots k max_clients)))
