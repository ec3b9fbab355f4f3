-- ===== src/Server/Promises.antt =====
-- One round of the server with clients that send whole lines with numbers.
use unix_tasks.Prelude.{
  ℕ, ◌≡◌, refl, sym, ap, ap₂, subst, ◌∙◌, Bool, true, false, ◌||◌, Option, none, some, List, [],
  ◌∷◌,
}
use unix_tasks.Prelude.Int.{ℤ}
use unix_tasks.Server.Client.{Client}
use unix_tasks.Server.Answers.{total, granted, Summable}
use unix_tasks.Server.Poll.{Revents, Answers, serve, Round, Server, Events, round}
use unix_tasks.Server.Alignment.{reported, serve_own, serve_own_slot, serve_all-own}
use unix_tasks.Server.Serving.{IsBetween, Sends, serve-Serves}
use unix_tasks.Server.Promised.{
  asked, AllBetween, Summable-append, granted-append, serve_first-Keeps, skip-Keeps, asked-free,
  asked-taken, Keeps,
}

module _ (asks : ℕ → List ℤ) (kernel : ℕ → Answers) (happens : ℕ → Revents)
    (sends : (fd : ℕ) → Sends (asks fd) (happens fd) (kernel fd)) (rest : List Bool) where
  -- The rest of the slots, from a sum on.
  abbrev KeepsFrom : List Client → ℤ → Type 0
  KeepsFrom cs state =
      Keeps asks state rest cs (serve_own kernel happens state (granted (asked asks cs) rest) cs)

  slot-Keeps :
      (state : ℤ) (o : Option ℕ) (c : Client) (cs : List Client)
      → c.fd ≡ o
      → IsBetween c
      → Summable state (asked asks (c ∷ cs))
      → ((state' : ℤ) → Summable state' (asked asks cs) → KeepsFrom cs state')
      → Keeps asks state rest (c ∷ cs) (
          serve_own_slot kernel happens state
            (granted (asked asks (c ∷ cs)) rest)
            o
            c
            (λ state' allocs'. serve_own kernel happens state' allocs' cs))
  unfolding serve_own_slot
  slot-Keeps state none c cs e b v later =
      let ns = asked-free asks c cs e in
      subst
        (λ l. Keeps asks state rest (c ∷ cs) (
          serve_own_slot kernel happens state (granted l rest) none c
            (λ state' allocs'. serve_own kernel happens state' allocs' cs)))
        (sym ns) (skip-Keeps asks state rest c cs _ e b (later state (subst (Summable state) ns v)))
  slot-Keeps state (some fd) c cs e b v later =
      let ns = asked-taken asks fd c cs e in
      let (now_v, later_v) =
        Summable-append (asks fd) (asked asks cs) state (subst (Summable state) ns v) in
      let memory = granted (asked asks cs) rest in
      let given : granted (asked asks (c ∷ cs)) rest ≡ granted (asks fd) memory =
        ap (λ l. granted l rest) ns ∙ granted-append (asks fd) (asked asks cs) rest in
      let turn =
        serve-Serves state (asks fd) memory c (happens fd) (kernel fd) now_v b (sends fd) in
      let now = serve state (granted (asks fd) memory) c (happens fd) (kernel fd) in
      let after = later (total state (asks fd)) later_v in
      let after' =
        subst
          (λ g.
            Keeps asks (total state (asks fd)) rest cs (serve_own kernel happens now.state g cs))
          (sym turn.memory)
          (subst
            (λ (s : ℤ).
              Keeps asks (total state (asks fd)) rest cs (serve_own kernel happens s memory cs))
            (sym turn.sum) after) in
      subst
        (λ g. Keeps asks state rest (c ∷ cs) (
          serve_own_slot kernel happens state g (some fd) c
            (λ state' allocs'. serve_own kernel happens state' allocs' cs)))
        (sym given) (serve_first-Keeps asks fd state rest memory c cs _ _ e turn after')

  serve_own-Keeps :
      (cs : List Client) (state : ℤ)
      → AllBetween cs
      → Summable state (asked asks cs)
      → KeepsFrom cs state
  unfolding serve_own
  serve_own-Keeps [] state b v = record {
    sum = refl;
    memory = refl;
    nobody_closed = refl;
    defined = refl;
    same_fds = refl;
    streams = refl;
    between = tt;
  }
  serve_own-Keeps (c ∷ cs) state b v =
      slot-Keeps state c.fd c cs refl b.0 v (λ state' v'. serve_own-Keeps cs state' b.1 v')

after : Server → Round → Server
after srv r = record {
  clients = r.clients;
  state = r.state;
  allocs = r.allocs;
  g_stop = srv.g_stop || false;
}

-- The server after a round that keeps its promises.
abbrev pub next : Server → (ℕ → List ℤ) → List Bool → Round → Server
next srv asks rest r = record srv {
  clients = r.clients;
  state = total srv.state (asked asks srv.clients);
  allocs = rest;
}

pub or-false : (b : Bool) → (b || false) ≡ b
or-false true = refl
or-false false = refl

after-next :
    (srv : Server) (asks : ℕ → List ℤ) (rest : List Bool) (r : Round)
    → Keeps asks srv.state rest srv.clients r
    → after srv r ≡ next srv asks rest r
unfolding after
after-next srv asks rest r keeps = rw (or-false srv.g_stop) (
    ap₂ (λ sum memory. record srv { clients = r.clients; state = sum; allocs = memory }) keeps.sum
      keeps.memory)

-- In a round in which no connection is waiting, where every client has had its lines read to their
-- end before, and now sends numbers, each on a line, in any pieces, or nothing, with sums that stay
-- in `long`, memory for the answers, and no error of the sockets: the sum grows by the numbers of
-- all clients, slot by slot; each descriptor has been sent, or has queued behind that, what was
-- queued for it and the sum after each of its numbers; nobody is closed, nothing overflows, and
-- every client has its lines read to their end again.
pub round-Keeps :
    (srv : Server) (ev : Events) (asks : ℕ → List ℤ) (happens : ℕ → Revents) (rest : List Bool)
    → ev.listening ≡ false
    → ev.revents ≡ reported happens srv.clients
    → ((fd : ℕ) → Sends (asks fd) (happens fd) (ev.answers fd))
    → srv.allocs ≡ granted (asked asks srv.clients) rest
    → AllBetween srv.clients
    → Summable srv.state (asked asks srv.clients)
    → Keeps asks srv.state rest srv.clients (round srv ev).1
      × ((round srv ev).0 ≡ next srv asks rest (round srv ev).1)
unfolding round after
round-Keeps srv ev asks happens rest quiet polled sends memory b v =
    let same = serve_all-own ev.answers happens srv.clients srv.state srv.allocs ev.stale in
    let keeps =
      subst
        (λ m.
          Keeps asks srv.state rest srv.clients
            (serve_own ev.answers happens srv.state m srv.clients))
        (sym memory)
        (serve_own-Keeps asks ev.answers happens sends rest srv.clients srv.state b v) in
    rw (quiet, polled)
      (subst
        (λ (r : Round).
          Keeps asks srv.state rest srv.clients r × (after srv r ≡ next srv asks rest r))
        (sym same) (keeps, after-next srv asks rest _ keeps))
