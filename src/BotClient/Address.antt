-- ===== src/BotClient/Address.antt =====
-- Where the client connects: `read_socket_name` and `connect_socket` of task4-brownian-bot/client.c.
use unix_tasks.Prelude.{
  ℕ, ◌-◌, Bool, ◌||◌, Option, none, some, ◌∷◌, [], ◌++◌, ◌==◌, leb, length, Bytes, if◌then◌else◌,
}
use unix_tasks.Text.Strings.{fgets, before_line_end, has_slash}

abbrev pub sock_name_cap : ℕ
sock_name_cap = 108

-- `sizeof(sun_path)`
abbrev pub sock_path_cap : ℕ
sock_path_cap = 108

abbrev pub tmp_dir : Bytes
tmp_dir = b'/' ∷ b't' ∷ b'm' ∷ b'p' ∷ b'/' ∷ []

-- The content of the file `config`, or `none` when it cannot be opened.
unfoldable pub read_socket_name : ℕ → Option Bytes → Option Bytes
read_socket_name cap none = none
read_socket_name cap (some contents) =
    let stored = fgets (cap - 1) contents in
    let name = before_line_end stored in
    if length stored == 0
    then none
    else if length name == 0 || has_slash name
    then none
    else some name

-- `snprintf(sock_path, sizeof(sock_path), "/tmp/%s", sock_name)`
unfoldable pub socket_path : Option Bytes → Option Bytes
socket_path none = none
socket_path (some name) =
    let path = tmp_dir ++ name in if leb sock_path_cap (length path) then none else some path

-- A descriptor on the path, or -1 with the socket closed if there was one.
pub data Connection : Type 0 where
  connected : Bytes → Connection
  refused : Connection

unfoldable pub connect_socket : Option Bytes → Bool → Bool → Connection
connect_socket config socket_given accepted =
    elim (socket_path (read_socket_name sock_name_cap config)) [
      | none ↦ refused
      | some path ↦ if socket_given then (if accepted then connected path else refused) else refused
    ]
