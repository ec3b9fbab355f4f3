-- ===== src/BotClient/Tests.antt =====
-- Runs of the client, alone and with the server, and the theorems at concrete inputs.
use unix_tasks.Prelude.{◌+◌, ◌≡◌, refl, true, some, List, [], ◌∷◌, ◌++◌, arith, length, Bytes, suc}
use unix_tasks.Prelude.Int.{ℤ, pos, negsuc, ◌+ℤ◌}
use unix_tasks.Kernel.{WriteReply, takes, takes_none}
use unix_tasks.Text.Print.{print}
use unix_tasks.Text.Strings.{fgets, before_line_end, has_slash}
use unix_tasks.Server.Long.{print_long}
use unix_tasks.Server.Lines.{Session}
use unix_tasks.Server.Answers.{text, total, answers, Summable, parse-text}
use unix_tasks.Server.SetUp.{
  Held, StartAnswers, Start, listening, after_bind, with_socket, with_log, with_name, start_server,
}
use unix_tasks.Server.SetUp
use unix_tasks.BotClient.Address.{connected, connect_socket}
use unix_tasks.BotClient.Wire.{Arrival, arrives, interrupted, would_block, read_line_fd}
use unix_tasks.BotClient.Stream.{Connected, GivesLine, read_line_fd-GivesLine}
use unix_tasks.BotClient.Main.{Chat, exits, waiting, input_lines, chat}
use unix_tasks.BotClient.InputLines.{line, lines}
use unix_tasks.BotClient.Dialogue.{Linked, chat-parse_and_queue_lines}
use unix_tasks.BotClient.Asking.{chat-asks_first}
use unix_tasks.BotClient.Meeting.{connect_socket-start_server}

-- `7\n8` and then `9\n`, where `9` is the beginning of the next line.
abbrev in_pieces : List Arrival
in_pieces =
    arrives (b'7' ∷ []) ∷ interrupted ∷ arrives (b'8' ∷ b'\n' ∷ b'9' ∷ []) ∷ would_block ∷ []

in_pieces-Connected : Connected in_pieces
in_pieces-Connected = ((omega arith, omega arith), ((omega arith, omega arith), tt))

read_line_fd-GivesLine_example :
    GivesLine (read_line_fd 128 (b'-' ∷ []) in_pieces) (b'-' ∷ b'7' ∷ b'8' ∷ b'\n' ∷ []) (b'9' ∷ [])
read_line_fd-GivesLine_example =
    read_line_fd-GivesLine 128 (b'-' ∷ []) in_pieces (b'-' ∷ b'7' ∷ b'8' ∷ []) (b'9' ∷ [])
      (refl, (refl, (refl, tt))) in_pieces-Connected (omega arith) refl

abbrev two : List ℤ
two = pos 10 ∷ negsuc 2 ∷ []

two-Summable : Summable (pos 0) two
unfolding ◌+ℤ◌
two-Summable = ((omega arith, refl), ((omega arith, refl), tt))

-- The socket takes the six bytes in four calls; `10\n7\n` comes in two pieces.
abbrev linked : Chat
linked = record {
  inbuf = [];
  arrivals = arrives (b'1' ∷ b'0' ∷ b'\n' ∷ b'7' ∷ []) ∷ interrupted ∷ arrives (b'\n' ∷ []) ∷ [];
  writes =
      takes 0
      ∷ takes_none
      ∷ takes 5
      ∷ WriteReply.interrupted
      ∷ takes 0
      ∷ takes 0
      ∷ takes 0
      ∷ takes 5
      ∷ takes 5
      ∷ [];
  prints = [];
  sent = [];
  printed = [];
}

abbrev after_two : Session
after_two = record { state = total (pos 0) two; out = [] ++ answers (pos 0) two; allocs = [] }

linked-Linked : Linked linked (length (text two)) after_two.out
unfolding print_long print ◌+ℤ◌
linked-Linked = record {
  connected = ((omega arith, omega arith), ((omega arith, omega arith), tt));
  to_come = refl;
  willing = tt;
  enough = omega arith;
  stdout_open = refl;
}

chat-parse_and_queue_lines_example :
    (w' : Chat) × (chat (input_lines (suc (length (text two))) (text two)) linked ≡ exits 0 w')
    × (w'.sent ≡ [] ++ text two)
    × (w'.printed ≡ [] ++ after_two.out)
chat-parse_and_queue_lines_example =
    chat-parse_and_queue_lines two (pos 0) [] linked after_two two-Summable
      (parse-text two (pos 0) [] [] two-Summable) linked-Linked

-- Only the first answer comes.
abbrev half_linked : Chat
half_linked = record linked { arrivals = arrives (b'1' ∷ b'0' ∷ b'\n' ∷ []) ∷ [] }

half_linked-Linked :
    Linked half_linked
      (length (text (pos 10 ∷ [])) + length (line (negsuc 2)))
      (answers (pos 0) (pos 10 ∷ []))
unfolding print_long print ◌+ℤ◌
half_linked-Linked = record {
  connected = ((omega arith, omega arith), tt);
  to_come = refl;
  willing = tt;
  enough = omega arith;
  stdout_open = refl;
}

chat-asks_first_example :
    (w' : Chat) × (chat (lines (pos 10 ∷ []) ++ lines (negsuc 2 ∷ pos 4 ∷ [])) half_linked
      ≡ waiting w')
    × (w'.sent ≡ [] ++ text (pos 10 ∷ negsuc 2 ∷ []))
    × (w'.printed ≡ [] ++ answers (pos 0) (pos 10 ∷ []))
chat-asks_first_example =
    chat-asks_first (pos 10 ∷ []) (negsuc 2) (pos 4 ∷ []) (pos 0) half_linked (two-Summable.0, tt)
      half_linked-Linked

-- The file `config` holds `bot\n`.
abbrev all_given : StartAnswers
all_given = record {
  memory_given = true;
  config = some (b'b' ∷ b'o' ∷ b't' ∷ b'\n' ∷ []);
  log_opened = true;
  socket_given = true;
  flags_read = true;
  flags_set = true;
  bound = true;
  listens = true;
}

abbrev bot_path : Bytes
bot_path = b'/' ∷ b't' ∷ b'm' ∷ b'p' ∷ b'/' ∷ b'b' ∷ b'o' ∷ b't' ∷ []

abbrev all_held : Held
all_held = record { memory = true; log = true; socket = true; socket_file = true }

listens-bot : start_server all_given ≡ listening bot_path all_held
unfolding start_server with_name with_log with_socket after_bind SetUp.read_socket_name fgets
    before_line_end has_slash
listens-bot = refl

connect_socket-start_server_example : connect_socket all_given.config true true ≡ connected bot_path
connect_socket-start_server_example =
    connect_socket-start_server all_given bot_path all_held listens-bot
