-- ===== src/Server/SetUp.antt =====
-- How the server starts: `read_socket_name`, `set_nonblocking`, and `main` up to its loop.
use unix_tasks.Prelude.{
  ℕ, ◌-◌, Bool, true, false, not, ◌&&◌, Option, none, some, [], ◌∷◌, ◌++◌, ◌==◌, leb, length, Bytes,
  if◌then◌else◌,
}
use unix_tasks.Text.Strings.{fgets, before_line_end, has_slash}

-- `sizeof(sock_name)`
abbrev pub name_cap : ℕ
name_cap = 108

-- `sizeof(sock_path)`
abbrev pub path_cap : ℕ
path_cap = 108

abbrev pub tmp_prefix : Bytes
tmp_prefix = b'/' ∷ b't' ∷ b'm' ∷ b'p' ∷ b'/' ∷ []

-- The content of the file `config`, or `none` when it cannot be opened.
unfoldable pub read_socket_name : ℕ → Option Bytes → Option Bytes
read_socket_name cap none = none
read_socket_name cap (some contents) =
    let stored = fgets (cap - 1) contents in
    let name = before_line_end stored in
    if length stored == 0
    then none
    else if length name == 0
    then none
    else if has_slash name
    then none
    else some name

-- `fcntl` with F_GETFL, then with F_SETFL.
abbrev pub set_nonblocking : Bool → Bool → Bool
set_nonblocking flags_read flags_set = flags_read && flags_set

-- What the process holds: the memory of the slots, the log, the socket, and its file.
pub record Held : Type 0 where
  pub memory : Bool
  pub log : Bool
  pub socket : Bool
  pub socket_file : Bool

abbrev pub nothing_held : Held
nothing_held = record { memory = false; log = false; socket = false; socket_file = false }

-- What the C library and the kernel answer, in the order of the calls.
pub record StartAnswers : Type 0 where
  pub memory_given : Bool
  pub config : Option Bytes
  pub log_opened : Bool
  pub socket_given : Bool
  pub flags_read : Bool
  pub flags_set : Bool
  pub bound : Bool
  pub listens : Bool

-- The server listens on the path, or `main` returns 1; with what is held then.
pub data Start : Type 0 where
  listening : Bytes → Held → Start
  gives_up : Held → Start

-- `close(listen_fd)`, `fclose(logf)` and `unlink(sock_path)`.
abbrev pub close_socket : Held → Held
close_socket h = record h { socket = false }

abbrev pub close_log : Held → Held
close_log h = record h { log = false }

abbrev pub unlink_socket : Held → Held
unlink_socket h = record h { socket_file = false }

unfoldable pub after_bind : StartAnswers → Bytes → Held → Start
after_bind a path h =
    if a.listens then listening path h else gives_up (close_log (unlink_socket (close_socket h)))

-- The file at the path is unlinked before `bind` makes it.
unfoldable pub with_socket : StartAnswers → Bytes → Held → Start
with_socket a path h =
    if not (set_nonblocking a.flags_read a.flags_set)
    then gives_up (close_log (close_socket h))
    else if not a.bound
    then gives_up (close_log (close_socket (unlink_socket h)))
    else after_bind a path (record (unlink_socket h) { socket_file = true })

unfoldable pub with_log : StartAnswers → Bytes → Held → Start
with_log a path h =
    if a.socket_given
    then with_socket a path (record h { socket = true })
    else gives_up (close_log h)

unfoldable pub with_name : StartAnswers → Option Bytes → Held → Start
with_name a none h = gives_up (record h { memory = false })
with_name a (some name) h =
    let path = tmp_prefix ++ name in
    if leb path_cap (length path)
    then gives_up h
    else if a.log_opened
    then with_log a path (record h { log = true })
    else gives_up h

unfoldable pub start_server : StartAnswers → Start
start_server a =
    if a.memory_given
    then with_name a (read_socket_name name_cap a.config) (record nothing_held { memory = true })
    else gives_up nothing_held
