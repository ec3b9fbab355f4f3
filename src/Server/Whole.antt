-- ===== src/Server/Whole.antt =====
-- `main` of task4-brownian-bot/server.c, from its set-up to what it returns.
use unix_tasks.Prelude.{Bool, false, List}
use unix_tasks.Server.SetUp.{
  Held, close_socket, close_log, unlink_socket, StartAnswers, Start, listening, gives_up,
  start_server,
}
use unix_tasks.Server.Main.{Turn, Life, Running, leaves, goes_on, undefined_sum, run_server}

-- `free(clients)`
abbrev pub free_memory : Held → Held
free_memory h = record h { memory = false }

-- What follows `close_client` of every slot.
unfoldable pub release : Held → Held
release h = free_memory (close_log (unlink_socket (close_socket h)))

-- How the program stands, with what it holds besides its connections: `return 1` from the set-up;
-- in its loop; in undefined behaviour, when the sum overflows; or `return 0`.
pub data Program : Type 0 where
  refuses : Held → Program
  serves : Life → Held → Program
  overflows : Life → Held → Program
  returns : Life → Held → Program

abbrev pub after_run : Held → Running → Program
after_run h (leaves l) = returns l (release h)
after_run h (goes_on l) = serves l h
after_run h (undefined_sum l) = overflows l h

abbrev pub after_start : List Turn → List Bool → Start → Program
after_start ts allocs (gives_up h) = refuses h
after_start ts allocs (listening path h) = after_run h (run_server ts allocs)

unfoldable pub main : StartAnswers → List Turn → List Bool → Program
main a ts allocs = after_start ts allocs (start_server a)
