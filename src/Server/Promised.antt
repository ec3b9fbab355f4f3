-- ===== src/Server/Promised.antt =====
-- What the clients of a round are promised, and how a slot keeps it.
use unix_tasks.Prelude.{
  ℕ, ◌≡◌, refl, sym, ap, ap₂, ◌∙◌, Bool, true, false, Option, none, some, List, [], ◌∷◌, ◌++◌,
  Bytes,
}
use unix_tasks.Prelude.Int.{ℤ, ◌+ℤ◌}
use unix_tasks.Server.Client.{Client, pending}
use unix_tasks.Server.Answers.{total, answers, granted, Summable}
use unix_tasks.Server.Poll.{Served, Round, serve_first}
use unix_tasks.Server.Serving.{IsBetween, Serves}

-- The numbers of all clients, in the order of the slots, when the one on `fd` sends `asks fd`.
abbrev pub asked : (ℕ → List ℤ) → List Client → List ℤ
asked asks [] = []
asked asks (c ∷ cs) = elim c.fd [ none ↦ asked asks cs | some fd ↦ asks fd ++ asked asks cs ]

-- What each descriptor is owed: what is queued for it, and the sums after each of its numbers.
abbrev pub promised : (ℕ → List ℤ) → ℤ → List Client → List (ℕ × Bytes)
promised asks state [] = []
promised asks state (c ∷ cs) = elim c.fd [
  | none ↦ promised asks state cs
  | some fd ↦ (fd, pending c ++ answers state (asks fd)) ∷ promised asks (total state (asks fd)) cs
]

-- What each descriptor was sent in the round, followed by what is queued for it at its end.
abbrev pub delivered : List Client → List (ℕ × Bytes) → List (ℕ × Bytes)
delivered [] sent = []
delivered (c ∷ cs) [] = []
delivered (c ∷ cs) ((fd, bs) ∷ sent) = elim c.fd [
  | none ↦ delivered cs ((fd, bs) ∷ sent)
  | some _ ↦ (fd, bs ++ pending c) ∷ delivered cs sent
]

abbrev pub AllBetween : List Client → Type 0
AllBetween [] = Unit
AllBetween (c ∷ cs) = IsBetween c × AllBetween cs

-- The descriptors of the slots.
abbrev pub fds : List Client → List (Option ℕ)
fds [] = []
fds (c ∷ cs) = c.fd ∷ fds cs

-- How a round keeps its promises.
pub record Keeps (asks : ℕ → List ℤ) (state : ℤ) (rest : List Bool) (cs : List Client) (r : Round)
    : Type 0 where
  pub sum : r.state ≡ total state (asked asks cs)
  pub memory : r.allocs ≡ rest
  pub nobody_closed : r.closed ≡ []
  pub defined : r.overflow ≡ false
  pub same_fds : fds r.clients ≡ fds cs
  pub streams : delivered r.clients r.sent ≡ promised asks state cs
  pub between : AllBetween r.clients

pub total-append : (ms ns : List ℤ) (state : ℤ) → total state (ms ++ ns) ≡ total (total state ms) ns
total-append [] ns state = refl
total-append (m ∷ ms) ns state = total-append ms ns (state +ℤ m)

pub Summable-append :
    (ms ns : List ℤ) (state : ℤ)
    → Summable state (ms ++ ns)
    → Summable state ms × Summable (total state ms) ns
Summable-append [] ns state v = (tt, v)
Summable-append (m ∷ ms) ns state v =
    let (left, right) = Summable-append ms ns (state +ℤ m) v.1 in ((v.0, left), right)

pub granted-append :
    (ms ns : List ℤ) (rest : List Bool) → granted (ms ++ ns) rest ≡ granted ms (granted ns rest)
granted-append [] ns rest = refl
granted-append (m ∷ ms) ns rest = ap (λ g. true ∷ g) (granted-append ms ns rest)

pub delivered-free :
    (c : Client) (cs : List Client) (sent : List (ℕ × Bytes))
    → c.fd ≡ none
    → delivered (c ∷ cs) sent ≡ delivered cs sent
delivered-free c [] [] e = refl
delivered-free c (d ∷ cs) [] e = refl
delivered-free c cs ((fd, bs) ∷ sent) e = rw e refl

pub delivered-taken :
    (c : Client) (cs : List Client) (fd k : ℕ) (bs : Bytes) (sent : List (ℕ × Bytes))
    → c.fd ≡ some k
    → delivered (c ∷ cs) ((fd, bs) ∷ sent) ≡ (fd, bs ++ pending c) ∷ delivered cs sent
delivered-taken c cs fd k bs sent e = rw e refl

-- A slot with a client in front of the others.
pub serve_first-Keeps :
    (asks : ℕ → List ℤ) (fd : ℕ) (state : ℤ) (rest memory : List Bool) (c : Client)
    (cs : List Client) (now : Served) (r : Round)
    → c.fd ≡ some fd
    → Serves state (asks fd) memory c now
    → Keeps asks (total state (asks fd)) rest cs r
    → Keeps asks state rest (c ∷ cs) (serve_first fd now r)
serve_first-Keeps asks fd state rest memory c cs now r e turn later = record {
  sum = rw e (later.sum ∙ sym (total-append (asks fd) (asked asks cs) state));
  memory = later.memory;
  nobody_closed = rw (turn.stays) later.nobody_closed;
  defined = rw (turn.defined) later.defined;
  same_fds = ap₂ (λ o os. o ∷ os) turn.same_fd later.same_fds;
  streams =
      delivered-taken now.client r.clients fd fd now.sent r.sent (turn.same_fd ∙ e)
      ∙ rw e (ap₂ (λ bs more. (fd, bs) ∷ more) turn.stream later.streams);
  between = (turn.between, later.between);
}

-- An empty slot in front of the others.
pub skip-Keeps :
    (asks : ℕ → List ℤ) (state : ℤ) (rest : List Bool) (c : Client) (cs : List Client) (r : Round)
    → c.fd ≡ none
    → IsBetween c
    → Keeps asks state rest cs r
    → Keeps asks state rest (c ∷ cs) (record r { clients = c ∷ r.clients })
skip-Keeps asks state rest c cs r e b later = record {
  sum = rw e later.sum;
  memory = later.memory;
  nobody_closed = later.nobody_closed;
  defined = later.defined;
  same_fds = ap (λ os. c.fd ∷ os) later.same_fds;
  streams = delivered-free c r.clients r.sent e ∙ rw e later.streams;
  between = (b, later.between);
}

pub asked-free :
    (asks : ℕ → List ℤ) (c : Client) (cs : List Client)
    → c.fd ≡ none
    → asked asks (c ∷ cs) ≡ asked asks cs
asked-free asks c cs e = rw e refl

pub asked-taken :
    (asks : ℕ → List ℤ) (fd : ℕ) (c : Client) (cs : List Client)
    → c.fd ≡ some fd
    → asked asks (c ∷ cs) ≡ asks fd ++ asked asks cs
asked-taken asks fd c cs e = rw e refl
