-- ===== src/Server/Ending.antt =====
-- What the server has released when it ends, on every way out of `main`.
use unix_tasks.Prelude.{ℕ, ◌≡◌, refl, true, false, Bool, List}
use unix_tasks.Server.Slots.{held, counted}
use unix_tasks.Server.SetUp.{
  Held, nothing_held, StartAnswers, Start, listening, gives_up, start_server,
}
use unix_tasks.Server.Starting.{StartsClean, start_server-StartsClean}
use unix_tasks.Server.Main.{Turn, Running, leaves, goes_on, undefined_sum, run_server}
use unix_tasks.Server.Closing.{Balanced, AllClosed, run_server-AllClosed}
use unix_tasks.Server.Whole.{
  Program, refuses, serves, overflows, returns, release, after_run, after_start, main,
}

-- The memory of the slots, the log, the socket and its file.
abbrev pub all_held : Held
all_held = record { memory = true; log = true; socket = true; socket_file = true }

-- What is held on each way, and how often the descriptor `k` was accepted, is held and was closed.
abbrev pub EndsClean : ℕ → Program → Type 0
EndsClean k (refuses h) = (h.log ≡ false) × (h.socket ≡ false) × (h.socket_file ≡ false)
EndsClean k (serves l h) = Balanced k l × (h ≡ all_held)
EndsClean k (overflows l h) = Balanced k l × (h ≡ all_held)
EndsClean k (returns l h) =
    (h ≡ nothing_held) × (held k l.server.clients ≡ 0) × (counted k l.closed ≡ counted k l.accepted)

after_run-EndsClean :
    (k : ℕ) (h : Held) (r : Running) → h ≡ all_held → AllClosed k r → EndsClean k (after_run h r)
unfolding release
after_run-EndsClean k h (leaves l) e c = (refl, c.0, c.1)
after_run-EndsClean k h (goes_on l) e c = (c, e)
after_run-EndsClean k h (undefined_sum l) e c = (c, e)

after_start-EndsClean :
    (k : ℕ) (ts : List Turn) (allocs : List Bool) (s : Start)
    → StartsClean s
    → EndsClean k (after_start ts allocs s)
after_start-EndsClean k ts allocs (gives_up h) c = c
after_start-EndsClean k ts allocs (listening path h) (p, e) =
    after_run-EndsClean k h (run_server ts allocs) e (run_server-AllClosed k ts allocs)

-- On every way through the server's `main`, whatever the C library and the kernel answer: when it
-- returns 1, the log, the socket and the file of the socket are released; while it is in its loop it
-- holds them and its memory, and each descriptor that `accept` gave is held in a slot or closed as
-- often as it was given; when it returns 0, the memory, the log, the socket and its file are
-- released, no slot holds a descriptor, and each was closed exactly as often as `accept` gave it.
pub main-EndsClean :
    (k : ℕ) (a : StartAnswers) (ts : List Turn) (allocs : List Bool)
    → EndsClean k (main a ts allocs)
unfolding main
main-EndsClean k a ts allocs =
    after_start-EndsClean k ts allocs (start_server a) (start_server-StartsClean a)
