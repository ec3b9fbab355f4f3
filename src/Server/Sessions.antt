-- ===== src/Server/Sessions.antt =====
-- Any number of rounds of the server with clients that send whole lines with numbers.
use unix_tasks.Prelude.{
  ℕ, ◌≡◌, refl, sym, ap, subst, ◌∙◌, Bool, false, Option, none, some, List, [], ◌∷◌, ◌++◌,
  append-nil, if◌then◌else◌,
}
use unix_tasks.Prelude.Int.{ℤ}
use unix_tasks.Server.Client.{Client}
use unix_tasks.Server.Answers.{total, granted, Summable}
use unix_tasks.Server.Poll.{Revents, Answers, Server, Events, round}
use unix_tasks.Server.Alignment.{reported, nothing}
use unix_tasks.Server.Serving.{Sends}
use unix_tasks.Server.Promised.{
  asked, AllBetween, fds, total-append, Summable-append, granted-append,
}
use unix_tasks.Server.Promises.{round-Keeps}
use unix_tasks.Server.Main.{
  on_signal, polled, Turn, Life, Running, leaves, goes_on, undefined_sum, after_round, pass,
  serve_loop,
}

-- One round: the numbers that come on each descriptor, and what the kernel answers for it.
pub record Visit : Type 0 where
  pub asks : ℕ → List ℤ
  pub happens : ℕ → Revents
  pub kernel : ℕ → Answers

abbrev events : List Client → Visit → Events
events cs v = record {
  listening = false;
  revents = reported v.happens cs;
  stale = nothing;
  accepts = [];
  answers = v.kernel;
}

-- The passes of the loop in which these visits come, no connection and no signal.
abbrev pub turns : List Client → List Visit → List Turn
turns cs [] = []
turns cs (v ∷ vs) = record { signalled = false; reply = polled (events cs v) } ∷ turns cs vs

-- The numbers of all visits, in the order of the rounds and of the slots.
abbrev pub all_asked : List Visit → List Client → List ℤ
all_asked [] cs = []
all_asked (v ∷ vs) cs = asked v.asks cs ++ all_asked vs cs

abbrev pub AllSend : List Visit → Type 0
AllSend [] = Unit
AllSend (v ∷ vs) = ((fd : ℕ) → Sends (v.asks fd) (v.happens fd) (v.kernel fd)) × AllSend vs

-- The loop waits for the next round, with this sum, every client in its slot and nobody closed.
pub record Waits (sum : ℤ) (rest : List Bool) (cs : List Client) (l : Life) (r : Running)
    : Type 0 where
  pub then_life : Life
  pub waiting : r ≡ goes_on then_life
  pub sum_is : then_life.server.state ≡ sum
  pub memory : then_life.server.allocs ≡ rest
  pub same_fds : fds then_life.server.clients ≡ fds cs
  pub between : AllBetween then_life.server.clients
  pub same_closed : then_life.closed ≡ l.closed

abbrev reported_on : (ℕ → Revents) → List (Option ℕ) → List Revents
reported_on happens [] = []
reported_on happens (none ∷ os) = reported_on happens os
reported_on happens (some fd ∷ os) = happens fd ∷ reported_on happens os

abbrev asked_on : (ℕ → List ℤ) → List (Option ℕ) → List ℤ
asked_on asks [] = []
asked_on asks (none ∷ os) = asked_on asks os
asked_on asks (some fd ∷ os) = asks fd ++ asked_on asks os

reported-fds :
    (happens : ℕ → Revents) (cs : List Client) → reported happens cs ≡ reported_on happens (fds cs)
reported-fds happens [] = refl
reported-fds happens (c ∷ cs) =
    elim c.fd
      as (λ o.
        (elim o [ none ↦ reported happens cs | some fd ↦ happens fd ∷ reported happens cs ])
        ≡ reported_on happens (o ∷ fds cs)) [
          | none ↦ reported-fds happens cs
          | some fd ↦ ap (λ rs. happens fd ∷ rs) (reported-fds happens cs)
        ]

asked-fds : (asks : ℕ → List ℤ) (cs : List Client) → asked asks cs ≡ asked_on asks (fds cs)
asked-fds asks [] = refl
asked-fds asks (c ∷ cs) =
    elim c.fd
      as (λ o.
        (elim o [ none ↦ asked asks cs | some fd ↦ asks fd ++ asked asks cs ])
        ≡ asked_on asks (o ∷ fds cs)) [
          | none ↦ asked-fds asks cs
          | some fd ↦ ap (λ ns. asks fd ++ ns) (asked-fds asks cs)
        ]

reported-same :
    (happens : ℕ → Revents) (cs ds : List Client)
    → fds cs ≡ fds ds
    → reported happens cs ≡ reported happens ds
reported-same happens cs ds e =
    reported-fds happens cs ∙ ap (reported_on happens) e ∙ sym (reported-fds happens ds)

asked-same :
    (asks : ℕ → List ℤ) (cs ds : List Client) → fds cs ≡ fds ds → asked asks cs ≡ asked asks ds
asked-same asks cs ds e = asked-fds asks cs ∙ ap (asked_on asks) e ∙ sym (asked-fds asks ds)

on_signal-calm : (srv : Server) → srv.g_stop ≡ false → on_signal false srv ≡ srv
on_signal-calm srv going = rw going refl

serve_loop-calm :
    (ev : Events) (ts : List Turn) (l : Life)
    → l.server.g_stop ≡ false
    → (round l.server ev).1.overflow ≡ false
    → serve_loop (record { signalled = false; reply = polled ev } ∷ ts) l
      ≡ serve_loop ts (after_round (round l.server ev) ev l)
unfolding serve_loop pass
serve_loop-calm ev ts l going sound =
    subst
      (λ srv.
        (if srv.g_stop
          then leaves (record l { server = srv })
          else if (round srv ev).1.overflow
          then undefined_sum (after_round (round srv ev) ev (record l { server = srv }))
          else serve_loop ts (after_round (round srv ev) ev (record l { server = srv })))
        ≡ serve_loop ts (after_round (round l.server ev) ev l))
      (sym (on_signal-calm l.server going)) (rw (sound, going) refl)

-- Through any number of rounds in which no connection and no signal comes, where clients that had
-- their lines read to their end send numbers, each on a line, in any pieces, or nothing, with sums
-- that stay in `long`, memory for the answers, and no error of the sockets: the loop goes on, every
-- client keeps its slot, nobody is closed, and the sum is the sum before and all these numbers.
pub serve_loop-Waits :
    (vs : List Visit) (cs : List Client) (l : Life) (rest : List Bool)
    → AllSend vs
    → fds l.server.clients ≡ fds cs
    → AllBetween l.server.clients
    → l.server.g_stop ≡ false
    → l.server.allocs ≡ granted (all_asked vs cs) rest
    → Summable l.server.state (all_asked vs cs)
    → Waits (total l.server.state (all_asked vs cs)) rest cs l (serve_loop (turns cs vs) l)
serve_loop-Waits [] cs l rest sends same b going memory v = record {
  then_life = l;
  waiting = unfold serve_loop in refl;
  sum_is = refl;
  memory = memory;
  same_fds = same;
  between = b;
  same_closed = refl;
}
serve_loop-Waits (v ∷ vs) cs l rest sends same b going memory sums =
    let ns = asked-same v.asks cs l.server.clients (sym same) in
    let polls = reported-same v.happens cs l.server.clients (sym same) in
    let (now_sums, later_sums) =
      Summable-append (asked v.asks cs) (all_asked vs cs) l.server.state sums in
    let (keeps, new) =
      round-Keeps l.server (events cs v) v.asks v.happens (granted (all_asked vs cs) rest) refl
        polls (sends.0)
        (memory
          ∙ granted-append (asked v.asks cs) (all_asked vs cs) rest
          ∙ ap (λ ms. granted ms (granted (all_asked vs cs) rest)) ns)
        b (subst (Summable l.server.state) ns now_sums) in
    let l2 = after_round (round l.server (events cs v)) (events cs v) l in
    let sum2 : l2.server.state ≡ total l.server.state (asked v.asks cs) =
      ap (λ (srv : Server). srv.state) new ∙ ap (total l.server.state) (sym ns) in
    let later =
      serve_loop-Waits vs cs l2 rest sends.1
        (ap (λ (srv : Server). fds srv.clients) new ∙ keeps.same_fds ∙ same)
        (subst (λ (srv : Server). AllBetween srv.clients) (sym new) keeps.between)
        (ap (λ (srv : Server). srv.g_stop) new ∙ going) (ap (λ (srv : Server). srv.allocs) new)
        (subst (λ st. Summable st (all_asked vs cs)) (sym sum2) later_sums) in
    record {
      then_life = later.then_life;
      waiting = serve_loop-calm (events cs v) (turns cs vs) l going keeps.defined ∙ later.waiting;
      sum_is =
          later.sum_is
          ∙ ap (λ st. total st (all_asked vs cs)) sum2
          ∙ sym (total-append (asked v.asks cs) (all_asked vs cs) l.server.state);
      memory = later.memory;
      same_fds = later.same_fds;
      between = later.between;
      same_closed =
          later.same_closed ∙ ap (λ fs. l.closed ++ fs) keeps.nobody_closed ∙ append-nil l.closed;
    }
