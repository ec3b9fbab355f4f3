-- ===== src/Server/Tests.antt =====
-- Runs of the server, and its theorems at concrete inputs.
use Prim.Native.String.{String}
use Prim.Native.Char.{code}
use unix_tasks.Prelude.{
  length, ◌==◌, ℕ, ◌+◌, ◌≡◌, refl, true, false, some, List, [], ◌∷◌, ◌++◌, arith, Bytes,
}
use unix_tasks.Prelude.Int.{ℤ, pos, negsuc, ◌+ℤ◌}
use unix_tasks.Text.Digits.{digit_run, value_onto}
use unix_tasks.Text.Print.{print}
use unix_tasks.Text.Number.{scan, c_string}
use unix_tasks.Server.Long.{strtol, add_long, print_long}
use unix_tasks.Server.Lines.{
  Session, proceeds, rejected, find_newline, strip_cr, queue_response, add_delta, add_number,
  handle_line, after_line, at_newline, parse_loop, parse_and_queue_lines,
}
use unix_tasks.Server.Client.{
  Client, free_slot, pending, SendReply, takes, would_block, receive, flush_client_output,
}
use unix_tasks.Server.Chunks.{Unfinished, arrivals, joined, as_received, receive-joined}
use unix_tasks.Server.Answers.{text, total, answers, granted, Summable, parse-text}
use unix_tasks.Server.Flush.{flush-pending}
use unix_tasks.Server.Poll.{
  accept_loop, seat, admit, serve_slot, serve, after_receive, flush_if, finish, Round, serve_all,
  Revents, Answers, connects, no_more, Server, Events, round,
}
use unix_tasks.Server.Slots.{held, counted, brought, round-held}
use unix_tasks.Server.Alignment.{reported, serve_own, round-own, nothing}
use unix_tasks.Text.Strings.{fgets, before_line_end, has_slash}
use unix_tasks.Server.SetUp.{
  with_log, with_socket, after_bind, read_socket_name, nothing_held, StartAnswers, gives_up,
  with_name, start_server,
}
use unix_tasks.Server.Starting.{StartsClean, start_server-StartsClean}
use unix_tasks.Server.Shifting.{Shifts, round-Shifts}
use unix_tasks.Server.Whole.{returns, main}
use unix_tasks.Server.Ending.{EndsClean, main-EndsClean}
use unix_tasks.Server.Main.{
  pass, max_clients, free_slots, Turn, polled, interrupted, serve_loop, first_life, run_server,
}
use unix_tasks.Server.Closing.{AllClosed, run_server-AllClosed}
use unix_tasks.Server.Rounds.{RunInBounds, serve_loop-InBounds}

abbrev pub codes : String → Bytes
codes String.[] = []
codes (String.◌∷◌ c s) = code c ∷ codes s

abbrev fresh : Session
fresh = record { state = pos 0; out = []; allocs = true ∷ true ∷ true ∷ [] }

sums :
    parse_and_queue_lines (codes "10\r\n-3\n +4\n5") fresh
    ≡ proceeds (codes "5") (record { state = pos 11; out = codes "10\n7\n11\n"; allocs = [] })
unfolding parse_and_queue_lines parse_loop at_newline find_newline handle_line add_number add_delta
    queue_response after_line strip_cr c_string strtol scan digit_run value_onto add_long ◌+ℤ◌
    print_long print
sums = refl

-- A line of more than ten bytes, and a line that is no number.
refused_lines :
    (parse_and_queue_lines (codes "12345678901\n") fresh ≡ rejected fresh)
    × (parse_and_queue_lines (codes "1x\n") fresh ≡ rejected fresh)
    × (parse_and_queue_lines (codes "\n") fresh ≡ rejected fresh)
unfolding parse_and_queue_lines parse_loop at_newline find_newline handle_line add_number after_line
    strip_cr c_string strtol scan digit_run value_onto
refused_lines = (refl, refl, refl)

abbrev slow : List Bytes
slow = codes "1" ∷ codes "2\n3" ∷ codes "\n" ∷ []

begun : Unfinished (codes "4")
unfolding find_newline
begun = record { no_newline = refl; short = omega arith }

receive-joined_example :
    receive (codes "4") fresh (arrivals slow)
    ≡ as_received (parse_and_queue_lines (codes "4" ++ joined slow) fresh)
receive-joined_example =
    receive-joined slow (codes "4") fresh begun
      ((omega arith, omega arith), ((omega arith, omega arith), ((omega arith, omega arith), tt)))

abbrev pub walk : List ℤ
walk = pos 10 ∷ negsuc 2 ∷ pos 9999999999 ∷ []

walk-Summable : Summable (pos 0) walk
unfolding ◌+ℤ◌
walk-Summable = ((omega arith, refl), ((omega arith, refl), ((omega arith, refl), tt)))

parse-text_example :
    parse_and_queue_lines (text walk) (record { state = pos 0; out = []; allocs = granted walk [] })
    ≡ proceeds []
        (record { state = total (pos 0) walk; out = [] ++ answers (pos 0) walk; allocs = [] })
parse-text_example = parse-text walk (pos 0) [] [] walk-Summable

abbrev pub busy : Client
busy = record { fd = some 5; inbuf = []; outbuf = codes "10\n7\n"; out_off = 1 }

abbrev pub short_sends : List SendReply
short_sends = takes 1 ∷ would_block ∷ []

flush_stops : (flush_client_output busy short_sends).sent ≡ codes "0\n"
unfolding flush_client_output
flush_stops = refl

flush-pending_example :
    (flush_client_output busy short_sends).sent
      ++ pending (flush_client_output busy short_sends).client
    ≡ pending busy
flush-pending_example = flush-pending short_sends busy

abbrev silent : ℕ → Answers
silent fd = record { recvs = []; sends = [] }

abbrev front : Client
front = record free_slot { fd = some 3 }

-- As many slots as the server has, one of the first three free.
abbrev slots : List Client
slots = front ∷ free_slot ∷ busy ∷ free_slots 1021

slots-max_clients : length slots ≡ max_clients
slots-max_clients = refl

abbrev start : Server
start = record { clients = slots; state = pos 0; allocs = []; g_stop = false }

-- The connection of `busy` breaks, and a new connection comes.
abbrev broken_5 : ℕ → Revents
broken_5 fd = record nothing { error = fd == 5 }

abbrev broken_and_new : Events
broken_and_new = record {
  listening = true;
  revents = reported broken_5 slots;
  stale = record nothing { writable = true };
  accepts = connects 9 true ∷ no_more ∷ [];
  answers = λ fd. record { recvs = []; sends = short_sends };
}

round-held_example :
    held 9 (round start broken_and_new).0.clients + counted 9 (round start broken_and_new).1.closed
    ≡ held 9 start.clients + brought 9 (connects 9 true ∷ no_more ∷ [])
round-held_example = round-held 9 start broken_and_new

abbrev writable_5 : ℕ → Revents
writable_5 fd = record nothing { writable = true }

abbrev calm : Events
calm = record {
  listening = false;
  revents = reported writable_5 start.clients;
  stale = nothing;
  accepts = [];
  answers = λ fd. record { recvs = []; sends = short_sends };
}

round-own_example :
    ((round start calm).0.clients
      ≡ (serve_own calm.answers writable_5 start.state start.allocs start.clients).clients)
    × ((round start calm).0.state
        ≡ (serve_own calm.answers writable_5 start.state start.allocs start.clients).state)
round-own_example = round-own start calm writable_5 refl refl

abbrev front_served : Round
front_served = serve_own broken_and_new.answers broken_5 (pos 0) [] (front ∷ [])

round-Shifts_example :
    Shifts 9 front_served
      (serve_all broken_and_new.answers front_served.state front_served.allocs broken_and_new.stale
        (busy ∷ free_slots 1021)
        (reported broken_5 (free_slots 1021)))
      (round start broken_and_new).0.clients
      (round start broken_and_new).1.closed
round-Shifts_example =
    round-Shifts start broken_and_new broken_5 5 9 (front ∷ []) free_slot busy (free_slots 1021)
      refl ((3, refl), tt) refl refl refl refl refl refl

-- The file `config` holds a slash.
abbrev bad_name : StartAnswers
bad_name = record {
  memory_given = true;
  config = some (codes "a/b\n");
  log_opened = true;
  socket_given = true;
  flags_read = true;
  flags_set = true;
  bound = false;
  listens = true;
}

start_server-StartsClean_example :
    StartsClean (start_server (record bad_name { config = some (codes "bot\n") }))
start_server-StartsClean_example =
    start_server-StartsClean (record bad_name { config = some (codes "bot\n") })

refuses-slash : start_server bad_name ≡ gives_up nothing_held
unfolding start_server with_name read_socket_name fgets before_line_end has_slash
refuses-slash = refl

-- Two connections come; one is served, one hangs up, `poll` is interrupted, and a signal comes.
abbrev arrives_two : Events
arrives_two = record {
  listening = true;
  revents = [];
  stale = nothing;
  accepts = connects 5 true ∷ connects 6 true ∷ no_more ∷ [];
  answers = silent;
}

abbrev life : List Turn
life =
    record { signalled = false; reply = polled arrives_two }
    ∷ record { signalled = false; reply = interrupted }
    ∷ record { signalled = true; reply = interrupted }
    ∷ []

run_server-AllClosed_example : AllClosed 5 (run_server life [])
run_server-AllClosed_example = run_server-AllClosed 5 life []

serve_loop-InBounds_example : RunInBounds (serve_loop life (first_life []))
serve_loop-InBounds_example = serve_loop-InBounds life []

abbrev good_start : StartAnswers
good_start = record bad_name { config = some (codes "bot\n"); bound = true }

main-EndsClean_example : EndsClean 5 (main good_start life [])
main-EndsClean_example = main-EndsClean 5 good_start life []

-- The program gets to its `return 0`.
good_start-returns : (elim (main good_start life []) [ returns l h ↦ true | _ ↦ false ]) ≡ true
unfolding main start_server with_name with_log with_socket after_bind read_socket_name fgets
    before_line_end has_slash run_server serve_loop pass round accept_loop seat admit serve_all
    serve_slot serve after_receive flush_if finish flush_client_output
good_start-returns = refl
