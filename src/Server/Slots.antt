-- ===== src/Server/Slots.antt =====
-- The server's descriptors and slots over a round of its loop.
use unix_tasks.Prelude.{
  ℕ, suc, ◌+◌, ◌≡◌, refl, ap, ◌∙◌, Bool, true, false, Option, none, some, List, [], ◌∷◌, ◌++◌,
  arith, ◌==◌, length, take, drop, if◌then◌else◌, Bool-cases, Option-cases, inl, inr,
}
use unix_tasks.Prelude.Int.{ℤ}
use unix_tasks.Server.Lines.{Session}
use unix_tasks.Server.Client.{
  Client, Received, drained, dies, hung_up, undefined_sum, SendReply, flush_end, takes, takes_none,
  would_block, broken, flush_client_output,
}
use unix_tasks.Server.Poll.{
  Revents, Answers, admit, AcceptReply, connects, no_more, accept_failed, Accepted, accept_loop,
  Served, flush_if, after_receive, serve, next_revents, later_revents, Round, serve_all, serve_slot,
  seat, close_if, Server, Events, round,
}

-- How often the descriptor `k` stands in a slot, in a list, and among the answers of `accept`.
abbrev pub one_if : ℕ → Option ℕ → ℕ
one_if k none = 0
one_if k (some fd) = if k == fd then 1 else 0

abbrev pub held : ℕ → List Client → ℕ
held k [] = 0
held k (c ∷ cs) = one_if k c.fd + held k cs

abbrev pub counted : ℕ → List ℕ → ℕ
counted k [] = 0
counted k (fd ∷ fds) = one_if k (some fd) + counted k fds

pub counted-append : (k : ℕ) (xs ys : List ℕ) → counted k (xs ++ ys) ≡ counted k xs + counted k ys
counted-append k [] ys = omega arith
counted-append k (x ∷ xs) ys = omega (arith, counted-append k xs ys)

-- A new descriptor takes one free slot and no other changes.
admit-held :
    (k cfd : ℕ) (cs ds : List Client)
    → admit cfd cs ≡ some ds
    → held k ds ≡ one_if k (some cfd) + held k cs
unfolding admit
admit-held k cfd [] ds e = cc
admit-held k cfd (c ∷ cs) ds e = elim (Option-cases (admit cfd cs)) [
  | inl full ↦ ground arith
  | inr (rest, taken) ↦ ground (arith, admit-held k cfd cs rest taken)
]

flush-fd : (rs : List SendReply) (c : Client) → (flush_client_output c rs).client.fd ≡ c.fd
unfolding flush_client_output flush_end
flush-fd [] c = ground arith
flush-fd (takes k ∷ rs) c = ground (
  arith,
  flush-fd rs (record c { out_off = c.out_off + length (take (suc k) (drop c.out_off c.outbuf)) }),
)
flush-fd (would_block ∷ rs) c = ground arith
flush-fd (takes_none ∷ rs) c = ground arith
flush-fd (broken ∷ rs) c = ground arith

-- The client has the descriptor, or has given it up to `close`.
abbrev Accounted : ℕ → Option ℕ → Served → Type 0
Accounted k fd now = one_if k now.client.fd + one_if k now.closed ≡ one_if k fd

flush_if-fd :
    (k : ℕ) (writable peer_closed : Bool) (s : Session) (c : Client) (sends : List SendReply)
    → Accounted k c.fd (flush_if writable peer_closed s c sends)
unfolding flush_if
flush_if-fd k writable peer_closed s c sends = ground (arith, flush-fd sends c)

after_receive-fd :
    (k : ℕ) (r : Revents) (peer_closed : Bool) (c : Client) (sends : List SendReply) (v : Received)
    → Accounted k c.fd (after_receive r peer_closed c sends v)
unfolding after_receive
after_receive-fd k r peer_closed c sends (drained inbuf s) =
    flush_if-fd k r.writable peer_closed s (record c { inbuf = inbuf; outbuf = s.out }) sends
after_receive-fd k r peer_closed c sends (hung_up inbuf s) =
    flush_if-fd k r.writable true s (record c { inbuf = inbuf; outbuf = s.out }) sends
after_receive-fd k r peer_closed c sends (dies s) = omega arith
after_receive-fd k r peer_closed c sends (undefined_sum s) = omega arith

serve-fd :
    (k : ℕ) (state : ℤ) (allocs : List Bool) (c : Client) (r : Revents) (a : Answers)
    → Accounted k c.fd (serve state allocs c r a)
unfolding serve
serve-fd k state allocs c r a = elim (Bool-cases r.error) [
  | inl broke ↦ rw broke (omega arith)
  | inr fine ↦ rw fine (after_receive-fd k r _ c a.sends _)
]

pub close_if-counted :
    (k : ℕ) (o : Option ℕ) (fds : List ℕ) → counted k (close_if o fds) ≡ one_if k o + counted k fds
close_if-counted k none fds = omega arith
close_if-counted k (some fd) fds = refl

serve_slot-held :
    (k : ℕ) (answers : ℕ → Answers) (state : ℤ) (allocs : List Bool) (stale : Revents)
    (o : Option ℕ) (c : Client) (rs : List Revents) (next : ℤ → List Bool → List Revents → Round)
    (n : ℕ)
    → c.fd ≡ o
    → ((state' : ℤ) (allocs' : List Bool) (rs' : List Revents)
        → held k (next state' allocs' rs').clients + counted k (next state' allocs' rs').closed ≡ n)
    → held k (serve_slot answers state allocs stale o c rs next).clients
        + counted k (serve_slot answers state allocs stale o c rs next).closed
      ≡ one_if k o + n
unfolding serve_slot
serve_slot-held k answers state allocs stale none c rs next n e h =
    rw e (omega (arith, h state allocs rs))
serve_slot-held k answers state allocs stale (some fd) c rs next n e h =
    let now = serve state allocs c (next_revents rs stale) (answers fd) in
    omega (
      arith,
      h now.state now.allocs (later_revents rs),
      close_if-counted k now.closed,
      serve-fd k state allocs c (next_revents rs stale) (answers fd) ∙ ap (one_if k) e,
    )

-- The second loop closes the descriptors that it takes from the slots.
serve_all-held :
    (k : ℕ) (answers : ℕ → Answers) (cs : List Client) (state : ℤ) (allocs : List Bool)
    (stale : Revents) (rs : List Revents)
    → held k (serve_all answers state allocs stale cs rs).clients
        + counted k (serve_all answers state allocs stale cs rs).closed
      ≡ held k cs
unfolding serve_all
serve_all-held k answers [] state allocs stale rs = omega arith
serve_all-held k answers (c ∷ cs) state allocs stale rs =
    serve_slot-held k answers state allocs stale c.fd c rs _ (held k cs) refl
      (λ state' allocs' rs'. serve_all-held k answers cs state' allocs' stale rs')

-- What `accept` brings in one round, up to the answer that ends its loop.
abbrev pub brought : ℕ → List AcceptReply → ℕ
brought k [] = 0
brought k (no_more ∷ rs) = 0
brought k (accept_failed ∷ rs) = 0
brought k (connects cfd _ ∷ rs) = one_if k (some cfd) + brought k rs

seat-held :
    (k cfd : ℕ) (cs : List Client) (o : Option (List Client)) (next : List Client → Accepted)
    (n : ℕ)
    → admit cfd cs ≡ o
    → ((ds : List Client) → held k (next ds).clients + counted k (next ds).closed ≡ held k ds + n)
    → held k (seat cfd cs o next).clients + counted k (seat cfd cs o next).closed
      ≡ held k cs + (one_if k (some cfd) + n)
unfolding seat
seat-held k cfd cs none next n e h = omega (arith, h cs)
seat-held k cfd cs (some ds) next n e h = omega (arith, h ds, admit-held k cfd cs ds e)

accept_loop-held :
    (k : ℕ) (rs : List AcceptReply) (cs : List Client)
    → held k (accept_loop cs rs).clients + counted k (accept_loop cs rs).closed
      ≡ held k cs + brought k rs
unfolding accept_loop
accept_loop-held k [] cs = omega arith
accept_loop-held k (no_more ∷ rs) cs = omega arith
accept_loop-held k (accept_failed ∷ rs) cs = omega arith
accept_loop-held k (connects cfd false ∷ rs) cs = omega (arith, accept_loop-held k rs cs)
accept_loop-held k (connects cfd true ∷ rs) cs =
    seat-held k cfd cs (admit cfd cs) _ (brought k rs) refl (λ ds. accept_loop-held k rs ds)

-- No descriptor is lost or closed twice: over a round, each one is held in a slot or closed as often
-- as it was held before and came from `accept`.
pub round-held :
    (k : ℕ) (srv : Server) (ev : Events)
    → held k (round srv ev).0.clients + counted k (round srv ev).1.closed
      ≡ held k srv.clients + (if ev.listening then brought k ev.accepts else 0)
unfolding round
round-held k srv ev = elim (Bool-cases ev.listening) [
  | inl yes_in ↦ rw yes_in (
      let a = accept_loop srv.clients ev.accepts in
      omega (
        arith,
        accept_loop-held k ev.accepts srv.clients,
        serve_all-held k ev.answers a.clients srv.state srv.allocs ev.stale ev.revents,
        counted-append k a.closed
            (serve_all ev.answers srv.state srv.allocs ev.stale a.clients ev.revents).closed,
      ))
  | inr no_in ↦ rw no_in (
      omega (
        arith,
        serve_all-held k ev.answers srv.clients srv.state srv.allocs ev.stale ev.revents,
        counted-append k []
            (serve_all ev.answers srv.state srv.allocs ev.stale srv.clients ev.revents).closed,
      ))
]
