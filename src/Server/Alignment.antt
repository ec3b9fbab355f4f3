-- ===== src/Server/Alignment.antt =====
-- Which entry of the poll array each client is served with.
use unix_tasks.Prelude.{
  ℕ, ◌≡◌, refl, ap, ◌∙◌, Bool, false, Option, none, some, List, [], ◌∷◌, arith,
}
use unix_tasks.Prelude.Int.{ℤ}
use unix_tasks.Server.Client.{Client}
use unix_tasks.Server.Poll.{
  Revents, Answers, serve, Round, serve_first, serve_slot, serve_all, Server, Events, round,
}

-- The entries that `poll` fills in for the slots, when the events of a descriptor are `happens fd`.
abbrev pub reported : (ℕ → Revents) → List Client → List Revents
reported happens [] = []
reported happens (c ∷ cs) = elim c.fd [
  | none ↦ reported happens cs
  | some fd ↦ happens fd ∷ reported happens cs
]

-- The service as it is meant: each client with the events of its own descriptor.
unfoldable pub serve_own_slot :
    (ℕ → Answers)
    → (ℕ → Revents)
    → ℤ
    → List Bool
    → Option ℕ
    → Client
    → (ℤ → List Bool → Round)
    → Round
serve_own_slot answers happens state allocs none c next =
    let r = next state allocs in record r { clients = c ∷ r.clients }
serve_own_slot answers happens state allocs (some fd) c next =
    let now = serve state allocs c (happens fd) (answers fd) in
    serve_first fd now (next now.state now.allocs)

unfoldable pub serve_own : (ℕ → Answers) → (ℕ → Revents) → ℤ → List Bool → List Client → Round
unfolding serve_own_slot
serve_own answers happens state allocs [] = record {
  clients = [];
  state = state;
  allocs = allocs;
  sent = [];
  closed = [];
  overflow = false;
}
serve_own answers happens state allocs (c ∷ cs) =
    serve_own_slot answers happens state allocs c.fd c
      (λ state' allocs'. serve_own answers happens state' allocs' cs)

entries : (ℕ → Revents) → Option ℕ → List Revents → List Revents
entries happens none rs = rs
entries happens (some fd) rs = happens fd ∷ rs

serve_slot-own :
    (answers : ℕ → Answers) (happens : ℕ → Revents) (state : ℤ) (allocs : List Bool)
    (stale : Revents) (o : Option ℕ) (c : Client) (rs : List Revents)
    (next : ℤ → List Bool → List Revents → Round) (own : ℤ → List Bool → Round)
    → ((state' : ℤ) (allocs' : List Bool) → next state' allocs' rs ≡ own state' allocs')
    → serve_slot answers state allocs stale o c (entries happens o rs) next
      ≡ serve_own_slot answers happens state allocs o c own
unfolding serve_slot serve_own_slot entries
serve_slot-own answers happens state allocs stale none c rs next own h =
    ap (λ (r : Round). record r { clients = c ∷ r.clients }) (h state allocs)
serve_slot-own answers happens state allocs stale (some fd) c rs next own h =
    let now = serve state allocs c (happens fd) (answers fd) in
    ap (serve_first fd now) (h now.state now.allocs)

reported-entries :
    (happens : ℕ → Revents) (c : Client) (cs : List Client)
    → reported happens (c ∷ cs) ≡ entries happens c.fd (reported happens cs)
unfolding entries
reported-entries happens c cs = ground arith

pub serve_all-own :
    (answers : ℕ → Answers) (happens : ℕ → Revents) (cs : List Client) (state : ℤ)
    (allocs : List Bool) (stale : Revents)
    → serve_all answers state allocs stale cs (reported happens cs)
      ≡ serve_own answers happens state allocs cs
unfolding serve_all serve_own
serve_all-own answers happens [] state allocs stale = refl
serve_all-own answers happens (c ∷ cs) state allocs stale =
    ap
      (λ rs.
        serve_slot answers state allocs stale c.fd c rs
          (λ state' allocs' rs'. serve_all answers state' allocs' stale cs rs'))
      (reported-entries happens c cs)
    ∙ serve_slot-own answers happens state allocs stale c.fd c (reported happens cs) _ _
        (λ state' allocs'. serve_all-own answers happens cs state' allocs' stale)

-- In a round in which no connection is waiting, every client is served with the events of its own
-- descriptor, whatever the rest of the array holds.
pub round-own :
    (srv : Server) (ev : Events) (happens : ℕ → Revents)
    → ev.listening ≡ false
    → ev.revents ≡ reported happens srv.clients
    → ((round srv ev).0.clients
        ≡ (serve_own ev.answers happens srv.state srv.allocs srv.clients).clients)
      × ((round srv ev).0.state
          ≡ (serve_own ev.answers happens srv.state srv.allocs srv.clients).state)
unfolding round
round-own srv ev happens quiet rs =
    let same = serve_all-own ev.answers happens srv.clients srv.state srv.allocs ev.stale in
    rw (quiet, rs) (ap (λ (r : Round). r.clients) same, ap (λ (r : Round). r.state) same)

abbrev pub nothing : Revents
nothing = record { error = false; hup = false; readable = false; writable = false }
