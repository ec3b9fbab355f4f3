-- ===== src/Server/Starting.antt =====
-- What the server has when it starts, and what it leaves behind when it cannot.
use unix_tasks.Prelude.{
  ℕ, ◌-◌, ◌<◌, ◌≡◌, refl, sym, ap, subst, ◌∙◌, true, false, not, ◌&&◌, Option, none, some, [], ◌∷◌,
  ◌++◌, ◌==◌, leb, length, Bytes, arith, if◌then◌else◌, Bool-cases, inl, inr, if_both,
}
use unix_tasks.Text.Strings.{fgets, before_line_end, has_slash, ends_name}
use unix_tasks.Server.SetUp.{
  name_cap, path_cap, tmp_prefix, read_socket_name, nothing_held, StartAnswers, Start, listening,
  gives_up, after_bind, with_socket, with_log, with_name, start_server,
}

-- The name of a file in a directory, as C reads it: no slash, no NUL, no end of a line.
abbrev pub NameBytes : Bytes → Type 0
NameBytes [] = Unit
NameBytes (c ∷ cs) = (((c == b'/') ≡ false) × (ends_name c ≡ false)) × NameBytes cs

-- A path of a file that stands in `/tmp` itself and that fits `sun_path` with its NUL.
pub record InTmp (path : Bytes) : Type 0 where
  pub name : Bytes
  pub prefixed : path ≡ tmp_prefix ++ name
  pub some_name : 0 < length name
  pub plain : NameBytes name
  pub fits : length path < path_cap

abbrev pub StartsClean : Start → Type 0
StartsClean (listening path h) =
    InTmp path × (h ≡ record { memory = true; log = true; socket = true; socket_file = true })
StartsClean (gives_up h) = (h.log ≡ false) × (h.socket ≡ false) × (h.socket_file ≡ false)

has_slash-cons :
    (c : ℕ) (cs : Bytes)
    → has_slash (c ∷ cs) ≡ false
    → ((c == b'/') ≡ false) × (has_slash cs ≡ false)
unfolding has_slash
has_slash-cons c cs h = ground arith

before_line_end-cons :
    (c : ℕ) (cs : Bytes) → ends_name c ≡ false → before_line_end (c ∷ cs) ≡ c ∷ before_line_end cs
unfolding before_line_end
before_line_end-cons c cs h = rw (before_line_end, h) refl

before_line_end-stop : (c : ℕ) (cs : Bytes) → ends_name c ≡ true → before_line_end (c ∷ cs) ≡ []
unfolding before_line_end
before_line_end-stop c cs h = rw (before_line_end, h) refl

before_line_end-NameBytes :
    (s : Bytes) → has_slash (before_line_end s) ≡ false → NameBytes (before_line_end s)
unfolding before_line_end
before_line_end-NameBytes [] h = tt
before_line_end-NameBytes (c ∷ cs) h = elim (Bool-cases (ends_name c)) [
  | inl ends ↦ subst NameBytes (sym (before_line_end-stop c cs ends)) tt
  | inr goes_on ↦
      let eq = before_line_end-cons c cs goes_on in
      let (no_slash, later) = has_slash-cons c (before_line_end cs) (sym (ap has_slash eq) ∙ h) in
      subst NameBytes (sym eq) ((no_slash, goes_on), before_line_end-NameBytes cs later)
]

accepted :
    (stored found name : Bytes)
    → (if length stored == 0
        then none
        else if length found == 0
        then none
        else if has_slash found
        then none
        else some found)
      ≡ some name
    → (found ≡ name) × (0 < length found) × (has_slash found ≡ false)
accepted stored found name h = ground arith

-- What `read_socket_name` returns is a name.
read_socket_name-NameBytes :
    (cap : ℕ) (config : Option Bytes) (name : Bytes)
    → read_socket_name cap config ≡ some name
    → (0 < length name) × NameBytes name
unfolding read_socket_name
read_socket_name-NameBytes cap none name h = absurd (ground arith)
read_socket_name-NameBytes cap (some contents) name h =
    let found = before_line_end (fgets (cap - 1) contents) in
    let (same, filled, plain) = accepted (fgets (cap - 1) contents) found name h in
    subst (λ n. (0 < length n) × NameBytes n) same
      (filled, before_line_end-NameBytes (fgets (cap - 1) contents) plain)

after_bind-StartsClean :
    (a : StartAnswers) (path : Bytes)
    → InTmp path
    → StartsClean (
        after_bind a path (record { memory = true; log = true; socket = true; socket_file = true }))
unfolding after_bind
after_bind-StartsClean a path p = if_both StartsClean a.listens (p, refl) (refl, refl, refl)

with_socket-StartsClean :
    (a : StartAnswers) (path : Bytes)
    → InTmp path
    → StartsClean (
        with_socket a path
          (record { memory = true; log = true; socket = true; socket_file = false }))
unfolding with_socket
with_socket-StartsClean a path p =
    if_both StartsClean (not (a.flags_read && a.flags_set)) (refl, refl, refl)
      (if_both StartsClean (not a.bound) (refl, refl, refl) (after_bind-StartsClean a path p))

with_log-StartsClean :
    (a : StartAnswers) (path : Bytes)
    → InTmp path
    → StartsClean (
        with_log a path (record { memory = true; log = true; socket = false; socket_file = false }))
unfolding with_log
with_log-StartsClean a path p =
    if_both StartsClean a.socket_given (with_socket-StartsClean a path p) (refl, refl, refl)

with_name-StartsClean :
    (a : StartAnswers) (o : Option Bytes)
    → ((name : Bytes) → o ≡ some name → (0 < length name) × NameBytes name)
    → StartsClean (with_name a o (record nothing_held { memory = true }))
unfolding with_name
with_name-StartsClean a none h = (refl, refl, refl)
with_name-StartsClean a (some name) h =
    let path = tmp_prefix ++ name in
    let (filled, plain) = h name refl in
    elim (Bool-cases (leb path_cap (length path))) [
      | inl long ↦ rw long (refl, refl, refl)
      | inr short ↦ rw short (
          if_both StartsClean a.log_opened
            (with_log-StartsClean a path (record {
              name = name;
              prefixed = refl;
              some_name = filled;
              plain = plain;
              fits = ground arith;
            }))
            (refl, refl, refl))
    ]

-- On every way through the start of `main`: when it returns 1, the log, the socket and the file of
-- the socket are released; when it goes on, it holds all of them and its memory, and it listens on a
-- file that stands in `/tmp` itself, whose path was not cut off, whatever the file `config` holds.
pub start_server-StartsClean : (a : StartAnswers) → StartsClean (start_server a)
unfolding start_server
start_server-StartsClean a =
    if_both StartsClean a.memory_given
      (with_name-StartsClean a _ (read_socket_name-NameBytes name_cap a.config)) (refl, refl, refl)
