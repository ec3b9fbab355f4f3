-- ===== src/Server/SessionTests.antt =====
-- Rounds of the server with two clients that talk, at concrete inputs.
use unix_tasks.Prelude.{
  Bool, ◌==◌, if◌then◌else◌, inl, inr, ℕ, ◌≡◌, refl, true, false, some, List, [], ◌∷◌, arith, Bytes,
}
use unix_tasks.Prelude.Int.{ℤ, pos, ◌+ℤ◌}
use unix_tasks.Text.Print.{print}
use unix_tasks.Server.Long.{print_long}
use unix_tasks.Server.Client.{Client, free_slot}
use unix_tasks.Server.Chunks.{arrivals}
use unix_tasks.Server.Answers.{total, granted, Summable}
use unix_tasks.Server.Poll.{Revents, Answers, Server, Events, round}
use unix_tasks.Server.Alignment.{reported, nothing}
use unix_tasks.Server.Main.{Life, serve_loop}
use unix_tasks.Server.Serving.{Sends}
use unix_tasks.Server.Promised.{asked, AllBetween, Keeps}
use unix_tasks.Server.Promises.{next, round-Keeps}
use unix_tasks.Server.Sessions.{Visit, turns, all_asked, Waits, serve_loop-Waits}
use unix_tasks.Server.Tests.{codes, walk, busy, short_sends}

-- Of two clients one sends numbers, in pieces, and the other nothing; what is queued goes out.
abbrev walk_parts : List Bytes
walk_parts = codes "10\n-" ∷ codes "3\n99999" ∷ codes "99999\n" ∷ []

abbrev parts_of : Bool → List Bytes
parts_of talks = if talks then walk_parts else []

abbrev talk : ℕ → Answers
talk fd = record { recvs = arrivals (parts_of (fd == 5)); sends = short_sends }

abbrev happening : ℕ → Revents
happening fd = record nothing { readable = fd == 5; writable = true }

abbrev walks : ℕ → List ℤ
walks fd = if fd == 5 then walk else []

talk-Sends_if :
    (fd : ℕ) (talks : Bool) → (fd == 5) ≡ talks → Sends (walks fd) (happening fd) (talk fd)
unfolding print_long print
talk-Sends_if fd true e = record {
  parts = walk_parts;
  whole = rw e refl;
  sized =
      ((omega arith, omega arith), ((omega arith, omega arith), ((omega arith, omega arith), tt)));
  arriving = rw e refl;
  no_send_error = tt;
  no_error = refl;
  ready = inl e;
}
talk-Sends_if fd false e = record {
  parts = [];
  whole = rw e refl;
  sized = tt;
  arriving = rw e refl;
  no_send_error = tt;
  no_error = refl;
  ready = inr (record { no_numbers = rw e refl; unreadable = e; still_open = refl });
}

talk-Sends : (fd : ℕ) → Sends (walks fd) (happening fd) (talk fd)
talk-Sends fd = talk-Sends_if fd (fd == 5) refl

abbrev two_clients : List Client
two_clients = busy ∷ free_slot ∷ record free_slot { fd = some 7 } ∷ []

two_clients-AllBetween : AllBetween two_clients
two_clients-AllBetween = (
  record { no_input = refl; offset = omega arith },
  (
    record { no_input = refl; offset = omega arith },
    (record { no_input = refl; offset = omega arith }, tt),
  ),
)

abbrev serving : Server
serving = record {
  clients = two_clients;
  state = pos 0;
  allocs = granted (asked walks two_clients) [];
  g_stop = false;
}

abbrev both_talk : Events
both_talk = record {
  listening = false;
  revents = reported happening two_clients;
  stale = nothing;
  accepts = [];
  answers = talk;
}

serving-Summable : Summable (pos 0) (asked walks two_clients)
unfolding ◌+ℤ◌
serving-Summable = ((omega arith, refl), ((omega arith, refl), ((omega arith, refl), tt)))

round-Keeps_example :
    Keeps walks (pos 0) [] two_clients (round serving both_talk).1
    × ((round serving both_talk).0 ≡ next serving walks [] (round serving both_talk).1)
round-Keeps_example =
    round-Keeps serving both_talk walks happening [] refl refl talk-Sends refl
      two_clients-AllBetween serving-Summable

abbrev visits : List Visit
visits = record { asks = walks; happens = happening; kernel = talk } ∷ []

abbrev serving_life : Life
serving_life = record { server = serving; accepted = []; closed = [] }

serve_loop-Waits_example :
    Waits
      (total (pos 0) (all_asked visits two_clients))
      []
      two_clients
      serving_life
      (serve_loop (turns two_clients visits) serving_life)
serve_loop-Waits_example =
    serve_loop-Waits visits two_clients serving_life [] (talk-Sends, tt) refl two_clients-AllBetween
      refl refl serving-Summable
