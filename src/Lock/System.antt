-- ===== src/Lock/System.antt =====
-- Any number of lock programs on one lock file, in any interleaving.
use unix_tasks.Prelude.{ℕ, false, List, [], ◌∷◌, ◌==◌, if◌then◌else◌, none}
use unix_tasks.Lock.Worker.{Shared, Proc, looping, Event, react}

-- A process that never acts stays before its first test.
pub record System : Type 0 where
  pub shared : Shared
  pub proc : ℕ → Proc

abbrev pub set_proc : (ℕ → Proc) → ℕ → Proc → ℕ → Proc
set_proc f i p j = if i == j then p else f j

-- An event of the process with index `i`; `pid` gives the process numbers.
unfoldable pub act : (ℕ → ℕ) → ℕ → Event → System → System
act pid i e s =
    let (sh, p) = react (pid i) e s.shared (s.proc i) in
    record { shared = sh; proc = set_proc s.proc i p }

unfoldable pub run : (ℕ → ℕ) → List (ℕ × Event) → System → System
run pid [] s = s
run pid ((i, e) ∷ es) s = run pid es (act pid i e s)

-- No lock file, and every process at its first test, `stop_flag` and `locks` at 0.
abbrev pub initial : System
initial = record {
  shared = record { entry = none; inodes = 0; content = λ _. []; stats = [] };
  proc = λ _. record { point = looping; stop_flag = false; locks = 0 };
}
