-- ===== src/BotClient/Meeting.antt =====
-- The client connects to the file on which the server listens.
use unix_tasks.Prelude.{
  ℕ, ◌≡◌, refl, subst, true, not, ◌&&◌, Option, none, some, ◌++◌, leb, length, Bytes, arith,
  if_both, Bool-cases, inl, inr,
}
use unix_tasks.Server.SetUp
use unix_tasks.Server.SetUp.{
  Held, StartAnswers, Start, listening, gives_up, after_bind, with_socket, with_log, with_name,
  start_server, nothing_held,
}
use unix_tasks.BotClient.Address.{
  sock_name_cap, read_socket_name, socket_path, connected, connect_socket,
}

-- The server listens on this path, if it listens at all.
abbrev pub ListensOn : Option Bytes → Start → Type 0
ListensOn o (listening path h) = o ≡ some path
ListensOn o (gives_up h) = Unit

-- The two programs read the same name.
read_socket_name_same :
    (cap : ℕ) (config : Option Bytes)
    → SetUp.read_socket_name cap config ≡ read_socket_name cap config
unfolding SetUp.read_socket_name read_socket_name
read_socket_name_same cap none = refl
read_socket_name_same cap (some contents) = ground arith

after_bind-ListensOn :
    (a : StartAnswers) (path : Bytes) (h : Held) → ListensOn (some path) (after_bind a path h)
unfolding after_bind
after_bind-ListensOn a path h = if_both (ListensOn (some path)) a.listens refl tt

with_log-ListensOn :
    (a : StartAnswers) (path : Bytes) (h : Held) → ListensOn (some path) (with_log a path h)
unfolding with_log with_socket
with_log-ListensOn a path h =
    if_both (ListensOn (some path)) a.socket_given
      (if_both (ListensOn (some path)) (not (a.flags_read && a.flags_set)) tt
        (if_both (ListensOn (some path)) (not a.bound) tt (after_bind-ListensOn a path _)))
      tt

with_name-ListensOn :
    (a : StartAnswers) (o : Option Bytes) (h : Held) → ListensOn (socket_path o) (with_name a o h)
unfolding with_name socket_path
with_name-ListensOn a none h = tt
with_name-ListensOn a (some name) h =
    let path = SetUp.tmp_prefix ++ name in
    elim (Bool-cases (leb SetUp.path_cap (length path))) [
      | inl long ↦ rw long tt
      | inr short ↦
          rw short (if_both (ListensOn (some path)) a.log_opened (with_log-ListensOn a path _) tt)
    ]

start_server-ListensOn :
    (a : StartAnswers)
    → ListensOn (socket_path (read_socket_name sock_name_cap a.config)) (start_server a)
unfolding start_server
start_server-ListensOn a =
    if_both (ListensOn (socket_path (read_socket_name sock_name_cap a.config))) a.memory_given
      (subst
        (λ o. ListensOn (socket_path o) (
          with_name a (SetUp.read_socket_name SetUp.name_cap a.config)
            (record nothing_held { memory = true })))
        (read_socket_name_same sock_name_cap a.config)
        (with_name-ListensOn a (SetUp.read_socket_name SetUp.name_cap a.config) _))
      tt

-- When the server listens, a client with the same file `config` finds it: given a socket and a
-- kernel that lets it connect, it is connected to the very path on which the server listens.
pub connect_socket-start_server :
    (a : StartAnswers) (path : Bytes) (h : Held)
    → start_server a ≡ listening path h
    → connect_socket a.config true true ≡ connected path
unfolding connect_socket
connect_socket-start_server a path h e =
    let same =
      subst (ListensOn (socket_path (read_socket_name sock_name_cap a.config))) e
        (start_server-ListensOn a) in
    rw (connect_socket, same) refl
