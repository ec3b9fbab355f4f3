-- ===== src/Server/Shifting.antt =====
-- The poll array when a connection comes in: it is filled before `accept` and read after it.
use unix_tasks.Prelude.{
  ℕ, ◌≡◌, refl, ap, ◌∙◌, Bool, true, false, Option, none, some, List, [], ◌∷◌, ◌++◌,
}
use unix_tasks.Prelude.Int.{ℤ}
use unix_tasks.Server.Client.{Client, free_slot, close_client}
use unix_tasks.Server.Poll.{
  Revents, Answers, admit, is_free, connects, no_more, accept_loop, seat, serve, Round, serve_slot,
  close_if, serve_all, Server, Events, round,
}
use unix_tasks.Server.Alignment.{reported, serve_own, serve_own_slot}

-- Every slot has a descriptor.
abbrev pub AllTaken : List Client → Type 0
AllTaken [] = Unit
AllTaken (c ∷ cs) = ((fd : ℕ) × (c.fd ≡ some fd)) × AllTaken cs

abbrev seated : ℕ → Client
seated cfd = record free_slot { fd = some cfd }

admit-first :
    (cfd : ℕ) (pre : List Client) (d : Client) (rest : List Client)
    → AllTaken pre
    → d.fd ≡ none
    → admit cfd (pre ++ d ∷ rest) ≡ some (pre ++ seated cfd ∷ rest)
unfolding admit
admit-first cfd [] d rest t e = rw e refl
admit-first cfd (c ∷ pre) d rest ((fd, taken), t) e =
    let in_use : is_free c ≡ false = ap (λ o. elim o [ none ↦ true | some _ ↦ false ]) taken in
    rw (in_use, admit-first cfd pre d rest t e) refl

accept_loop-first :
    (cfd : ℕ) (pre : List Client) (d : Client) (rest : List Client)
    → AllTaken pre
    → d.fd ≡ none
    → accept_loop (pre ++ d ∷ rest) (connects cfd true ∷ no_more ∷ [])
      ≡ record { clients = pre ++ seated cfd ∷ rest; closed = []; stop = false }
unfolding accept_loop seat
accept_loop-first cfd pre d rest t e = rw (admit-first cfd pre d rest t e) refl

reported-broken :
    (happens : ℕ → Revents) (pre : List Client) (d c : Client) (rest : List Client) (fd : ℕ)
    → d.fd ≡ none
    → c.fd ≡ some fd
    → reported happens (pre ++ d ∷ c ∷ rest)
      ≡ reported happens pre ++ happens fd ∷ reported happens rest
reported-broken happens [] d c rest fd e f = rw (e, f) refl
reported-broken happens (p ∷ pre) d c rest fd e f =
    elim p.fd
      as (λ o.
        (elim o [
          | none ↦ reported happens (pre ++ d ∷ c ∷ rest)
          | some k ↦ happens k ∷ reported happens (pre ++ d ∷ c ∷ rest)
        ])
        ≡ (elim o [ none ↦ reported happens pre | some k ↦ happens k ∷ reported happens pre ])
          ++ happens fd ∷ reported happens rest) [
            | none ↦ reported-broken happens pre d c rest fd e f
            | some k ↦ ap (λ rs. happens k ∷ rs) (reported-broken happens pre d c rest fd e f)
          ]

close_if-append : (o : Option ℕ) (xs ys : List ℕ) → close_if o (xs ++ ys) ≡ close_if o xs ++ ys
close_if-append none xs ys = refl
close_if-append (some fd) xs ys = refl

-- The slots in front of the new connection, served with their own events; then the new connection,
-- which is closed; then the later slots, served as `later` says.
pub record Shifts (cfd : ℕ) (own later : Round) (clients : List Client) (closed : List ℕ)
    : Type 0 where
  pub slots : clients ≡ own.clients ++ free_slot ∷ later.clients
  pub descriptors : closed ≡ own.closed ++ cfd ∷ later.closed

module _ (answers : ℕ → Answers) (happens : ℕ → Revents) (stale : Revents) (cfd : ℕ)
    (cs : List Client) (broken : Revents) (error : broken.error ≡ true) (rs : List Revents) where
  abbrev later_round : Round → Round
  later_round own = serve_all answers own.state own.allocs stale cs rs

  serve_all-Shifts :
      (pre : List Client) (state : ℤ) (allocs : List Bool)
      → Shifts cfd
          (serve_own answers happens state allocs pre)
          (later_round (serve_own answers happens state allocs pre))
          (serve_all answers state allocs stale
            (pre ++ seated cfd ∷ cs)
            (reported happens pre ++ broken ∷ rs)).clients
          (serve_all answers state allocs stale
            (pre ++ seated cfd ∷ cs)
            (reported happens pre ++ broken ∷ rs)).closed
  unfolding serve_all serve_slot serve serve_own serve_own_slot close_client
  serve_all-Shifts [] state allocs = record { slots = rw error refl; descriptors = rw error refl }
  serve_all-Shifts (p ∷ pre) state allocs =
      let own = λ (o : Option ℕ).
        serve_own_slot answers happens state allocs o p
          (λ state' allocs'. serve_own answers happens state' allocs' pre) in
      let all = λ (o : Option ℕ).
        serve_slot answers state allocs stale o p
          ((elim o [ none ↦ reported happens pre | some k ↦ happens k ∷ reported happens pre ])
            ++ broken ∷ rs)
          (λ state' allocs' rs'.
            serve_all answers state' allocs' stale (pre ++ seated cfd ∷ cs) rs') in
      elim p.fd as (λ o. Shifts cfd (own o) (later_round (own o)) (all o).clients (all o).closed) [
        | none ↦
            let later = serve_all-Shifts pre state allocs in
            record { slots = ap (λ ds. p ∷ ds) later.slots; descriptors = later.descriptors }
        | some k ↦
            let now = serve state allocs p (happens k) (answers k) in
            let later = serve_all-Shifts pre now.state now.allocs in
            record {
              slots = ap (λ ds. now.client ∷ ds) later.slots;
              descriptors =
                  ap (close_if now.closed) later.descriptors ∙ close_if-append now.closed _ _;
            }
      ]

-- While `poll` waits the connection of a client breaks, whose slot is the one behind the first free
-- slot, and one new connection comes, which `set_nonblocking` accepts. The array is filled before
-- `accept` and read after it, so the error that `poll` reported for that client falls to the new
-- connection: the new connection is closed, and its slot is free again. That client and the clients
-- behind it are served, each with the events of the next one, and the last with what the array held
-- before. The clients in front of the free slot are served with their own events. This holds for any
-- number of slots, whatever they hold behind that client, and whatever the array held.
pub round-Shifts :
    (srv : Server) (ev : Events) (happens : ℕ → Revents) (fd cfd : ℕ) (pre : List Client)
    (d c : Client) (rest : List Client)
    → srv.clients ≡ pre ++ d ∷ c ∷ rest
    → AllTaken pre
    → d.fd ≡ none
    → c.fd ≡ some fd
    → (happens fd).error ≡ true
    → ev.listening ≡ true
    → ev.accepts ≡ connects cfd true ∷ no_more ∷ []
    → ev.revents ≡ reported happens srv.clients
    → Shifts cfd
        (serve_own ev.answers happens srv.state srv.allocs pre)
        (serve_all ev.answers
          (serve_own ev.answers happens srv.state srv.allocs pre).state
          (serve_own ev.answers happens srv.state srv.allocs pre).allocs
          ev.stale
          (c ∷ rest)
          (reported happens rest))
        (round srv ev).0.clients
        (round srv ev).1.closed
unfolding round
round-Shifts srv ev happens fd cfd pre d c rest slots t e f error waiting comes polled =
    let seats =
      ap (λ cs. accept_loop cs ev.accepts) slots
      ∙ ap (accept_loop (pre ++ d ∷ c ∷ rest)) comes
      ∙ accept_loop-first cfd pre d (c ∷ rest) t e in
    let entries =
      polled ∙ ap (reported happens) slots ∙ reported-broken happens pre d c rest fd e f in
    rw (waiting, seats, entries)
      (serve_all-Shifts ev.answers happens ev.stale cfd (c ∷ rest) (happens fd) error
        (reported happens rest) pre srv.state srv.allocs)
