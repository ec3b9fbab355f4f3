-- ===== src/Lock/Owner.antt =====
-- What a process that created the lock file knows of it, until it removes it.
use unix_tasks.Prelude.{
  ℕ, suc, ◌-◌, ◌≤◌, ◌<◌, ◌≡◌, ◌≢◌, refl, sym, ap, ◌∙◌, Bool, true, false, [], ◌∷◌, ◌++◌,
  append_assoc, append-nil, arith, length, take, drop, take-append-drop, length-take, length-drop,
  Bytes, Option, none, some, min,
}
use unix_tasks.Lock.Pid.{int_max, pid_line}
use unix_tasks.Lock.Pid.Format.{parse-pid_line, length-pid_line}
use unix_tasks.Lock.Calls.{read_once}
use unix_tasks.Lock.Transfer.{read_once-prefix, read_once-end}
use unix_tasks.Lock.Worker.{
  Shared, Proc, Point, looping, creating, pausing, writing, closing, sleeping, opening, reading,
  draining, checking, unlinking, opening_stats, reporting, closing_stats, exited, failed, verify_ok,
  judge, after_read, after_drain, after_write, after_open, after_report, succeed, try_create,
  try_unlink, update, buffer_size, scratch_size,
}

-- Between the creation of the lock file and its removal.
abbrev pub critical : Point → Bool
critical (writing _ _) = true
critical closing = true
critical sleeping = true
critical opening = true
critical (reading _ _) = true
critical (draining _ _) = true
critical (checking _) = true
critical unlinking = true
critical _ = false

-- The entry is there and its inode holds the line of the process.
pub record Locked (sh : Shared) (self : ℕ) : Type 0 where
  pub inode : ℕ
  pub linked : sh.entry ≡ some inode
  pub holds : sh.content inode ≡ pid_line self

abbrev pub Owns : Shared → ℕ → Point → Type 0
Owns sh self (writing fd left) = (sh.entry ≡ some fd) × (sh.content fd ++ left ≡ pid_line self)
Owns sh self closing = Locked sh self
Owns sh self sleeping = Locked sh self
Owns sh self opening = Locked sh self
Owns sh self (reading fd got) =
    (sh.entry ≡ some fd)
    × (sh.content fd ≡ pid_line self)
    × (take (length got) (pid_line self) ≡ got)
Owns sh self (draining fd got) =
    (sh.entry ≡ some fd) × (sh.content fd ≡ pid_line self) × (pid_line self ≡ got)
Owns sh self (checking got) = Locked sh self × (pid_line self ≡ got)
Owns sh self unlinking = Locked sh self
Owns sh self _ = Unit

-- A number that the kernel gives to a process.
abbrev pub IsPid : ℕ → Type 0
IsPid self = (0 < self) × (self ≤ int_max)

-- The verification of the own line succeeds.
pub judge-pid_line : (self : ℕ) → IsPid self → judge self (pid_line self) ≡ verify_ok
unfolding judge
judge-pid_line self h = ground (arith, parse-pid_line self h.0 h.1)

pid_line-short : (self : ℕ) → IsPid self → length (pid_line self) < buffer_size
pid_line-short self h = omega (arith, length-pid_line self h.1)

try_create-Owns :
    (self : ℕ) (sh : Shared) (p : Proc) (entry : Option ℕ)
    → Owns (try_create self sh p entry).0 self (try_create self sh p entry).1.point
unfolding try_create
try_create-Owns self sh p (some n) = tt
try_create-Owns self sh p none = ground arith

after_write-Owns :
    (self fd : ℕ) (sh : Shared) (left : Bytes)
    → sh.entry ≡ some fd
    → sh.content fd ++ left ≡ pid_line self
    → Owns sh self (after_write fd left)
after_write-Owns self fd sh [] e c = record {
  inode = fd;
  linked = e;
  holds = sym (append-nil (sh.content fd)) ∙ c;
}
after_write-Owns self fd sh (x ∷ left) e c = (e, c)

update_self : (f : ℕ → Bytes) (n : ℕ) {bs : Bytes} → update f n bs n ≡ bs
update_self f n = ground arith

-- `write` appends at the end of the inode, where the descriptor stands.
write-Owns :
    (self fd k : ℕ) (sh : Shared) (left : Bytes)
    → sh.entry ≡ some fd
    → sh.content fd ++ left ≡ pid_line self
    → Owns
        (record sh { content = update sh.content fd (sh.content fd ++ take (suc k) left) })
        self
        (after_write fd (drop (suc k) left))
write-Owns self fd k sh left e c = after_write-Owns self fd _ (drop (suc k) left) e (
    rw (update_self sh.content fd) (
      append_assoc (sh.content fd) _ _
      ∙ ap (λ r. sh.content fd ++ r) (take-append-drop (suc k) left)
      ∙ c))

open-Owns :
    (self : ℕ) (sh : Shared) (p : Proc) (entry : Option ℕ)
    → sh.entry ≡ entry
    → Locked sh self
    → Owns sh self (after_open p entry)
open-Owns self sh p none e o = cc (sym e ∙ o.linked)
open-Owns self sh p (some fd) e o = (e, ground (arith, sym e ∙ o.linked), refl)

after_read-Owns :
    (self fd : ℕ) (sh : Shared) (got chunk : Bytes)
    → sh.entry ≡ some fd
    → sh.content fd ≡ pid_line self
    → take (length (got ++ chunk)) (pid_line self) ≡ got ++ chunk
    → (length chunk ≡ 0 → pid_line self ≡ got)
    → (length (got ++ chunk) ≢ buffer_size)
    → Owns sh self (after_read fd got chunk)
unfolding after_read
after_read-Owns self fd sh got chunk e c pre end room = ground arith

length-prefix : (n : ℕ) (line got : Bytes) → take n line ≡ got → length got ≤ length line
length-prefix n line got pre = omega (arith, ap (length {A = ℕ}) pre, length-take {0} n line)

nil_of_length : (bs : Bytes) → length bs ≡ 0 → bs ≡ []
nil_of_length [] e = refl
nil_of_length (b ∷ bs) e = absurd (omega arith)

read-Owns :
    (self fd k : ℕ) (sh : Shared) (got : Bytes)
    → IsPid self
    → Owns sh self (reading fd got)
    → Owns sh self
        (after_read fd got (read_once k (pid_line self) (length got) (buffer_size - length got)))
read-Owns self fd k sh got h (e, c, pre) =
    let line = pid_line self in
    let n = buffer_size - length got in
    let chunk = read_once k line (length got) n in
    let pre' = read_once-prefix k n line got pre in
    let short = pid_line-short self h in
    let room : 0 < n = omega (arith, length-prefix (length got) line got pre) in
    after_read-Owns self fd sh got chunk e c pre' (read_once-end k n line got pre room)
      (omega (arith, length-prefix (length (got ++ chunk)) line (got ++ chunk) pre'))

-- Nothing is left in the file behind the line.
pub drain_empty :
    (self fd k : ℕ) (sh : Shared) (got : Bytes)
    → Owns sh self (draining fd got)
    → read_once k (sh.content fd) (length got) scratch_size ≡ []
drain_empty self fd k sh got (e, c, whole) = rw c (
    nil_of_length _ (
      omega (
        arith,
        length-take {0} (min (suc k) scratch_size) (drop (length got) (pid_line self)),
        length-drop {0} (length got) (pid_line self),
        ap (length {A = ℕ}) whole,
      )))

drain-Owns :
    (self fd k : ℕ) (sh : Shared) (got : Bytes)
    → Owns sh self (draining fd got)
    → Owns sh self (after_drain got (read_once k (sh.content fd) (length got) scratch_size))
drain-Owns self fd k sh got o =
    rw (drain_empty self fd k sh got o) (record { inode = fd; linked = o.0; holds = o.1 }, o.2)

try_unlink-Owns :
    (self : ℕ) (sh : Shared) (p : Proc) (entry : Option ℕ)
    → Owns (try_unlink sh p entry).0 self (try_unlink sh p entry).1.point
unfolding try_unlink
try_unlink-Owns self sh p none = ground arith
try_unlink-Owns self sh p (some n) = ground arith

report-Owns : (self : ℕ) (sh : Shared) (left : Bytes) → Owns sh self (after_report left)
report-Owns self sh [] = tt
report-Owns self sh (c ∷ cs) = tt

pub succeed-Owns :
    (self : ℕ) (point : Point) (k : ℕ) (sh : Shared) (p : Proc)
    → IsPid self
    → p.point ≡ point
    → Owns sh self point
    → Owns (succeed self point k sh p).0 self (succeed self point k sh p).1.point
unfolding succeed
succeed-Owns self looping k sh p h q o = ground arith
succeed-Owns self creating k sh p h q o = try_create-Owns self sh p sh.entry
succeed-Owns self pausing k sh p h q o = tt
succeed-Owns self (writing fd left) k sh p h q o = write-Owns self fd k sh left o.0 o.1
succeed-Owns self closing k sh p h q o = o
succeed-Owns self sleeping k sh p h q o = o
succeed-Owns self opening k sh p h q o = open-Owns self sh p sh.entry refl o
succeed-Owns self (reading fd got) k sh p h q o = rw (o.1) (read-Owns self fd k sh got h o)
succeed-Owns self (draining fd got) k sh p h q o = drain-Owns self fd k sh got o
succeed-Owns self (checking got) k sh p h q o = rw (← o.1, judge-pid_line self h) (o.0)
succeed-Owns self unlinking k sh p h q o = try_unlink-Owns self sh p sh.entry
succeed-Owns self opening_stats k sh p h q o = tt
succeed-Owns self (reporting left) k sh p h q o = report-Owns self _ (drop (suc k) left)
succeed-Owns self closing_stats k sh p h q o = tt
succeed-Owns self exited k sh p h q o = rw q tt
succeed-Owns self (failed f) k sh p h q o = rw q tt
