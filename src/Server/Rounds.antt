-- ===== src/Server/Rounds.antt =====
-- The bounds of the server's arrays over its rounds and its whole life.
use unix_tasks.Prelude.{
  ℕ, zero, suc, ◌+◌, ◌≤◌, ◌≡◌, refl, subst, ◌∙◌, Bool, true, false, ◌||◌, Option, none, some, List,
  [], ◌∷◌, arith, length, if_both,
}
use unix_tasks.Prelude.Int.{ℤ}
use unix_tasks.Server.Client.{Client, free_slot}
use unix_tasks.Server.Poll.{
  Revents, Answers, is_free, poll_set, admit, AcceptReply, connects, no_more, accept_failed,
  Accepted, accept_loop, seat, serve, next_revents, later_revents, Round, serve_all, serve_slot,
  Server, Events, round,
}
use unix_tasks.Server.Bounds.{IsValid, AllValid, empty-Unfinished, serve-IsValid}
use unix_tasks.Server.Main.{
  max_clients, free_slots, PollReply, polled, interrupted, poll_failed, Turn, Life, Running, leaves,
  goes_on, undefined_sum, pass, serve_loop, first_life,
}

-- So many slots, with a valid client in each.
abbrev pub Slots : ℕ → List Client → Type 0
Slots n cs = (length cs ≡ n) × AllValid cs

free_slot-IsValid : (fd : Option ℕ) → IsValid (record free_slot { fd = fd })
free_slot-IsValid fd = record { input = empty-Unfinished; offset = omega arith }

abbrev AdmitSlots : ℕ → Option (List Client) → Type 0
AdmitSlots n none = Unit
AdmitSlots n (some ds) = Slots n ds

slot-AdmitSlots :
    (n : ℕ) (c : Client) (o : Option (List Client))
    → IsValid c
    → AdmitSlots n o
    → AdmitSlots (suc n) (elim o [ none ↦ none | some ds ↦ some (c ∷ ds) ])
slot-AdmitSlots n c none v h = tt
slot-AdmitSlots n c (some ds) v (size, vs) = (omega (arith, size), (v, vs))

admit-AdmitSlots :
    (cfd : ℕ) (cs : List Client) → AllValid cs → AdmitSlots (length cs) (admit cfd cs)
unfolding admit
admit-AdmitSlots cfd [] v = tt
admit-AdmitSlots cfd (c ∷ cs) (v, vs) =
    if_both (AdmitSlots (suc (length cs))) (is_free c) (refl, (free_slot-IsValid (some cfd), vs))
      (slot-AdmitSlots (length cs) c _ v (admit-AdmitSlots cfd cs vs))

admit-Slots : (cfd n : ℕ) (cs ds : List Client) → admit cfd cs ≡ some ds → Slots n cs → Slots n ds
admit-Slots cfd n cs ds e (size, v) =
    let (size', v') = subst (AdmitSlots (length cs)) e (admit-AdmitSlots cfd cs v) in
    (size' ∙ size, v')

seat-Slots :
    (cfd n : ℕ) (cs : List Client) (o : Option (List Client)) (next : List Client → Accepted)
    → admit cfd cs ≡ o
    → Slots n cs
    → ((ds : List Client) → Slots n ds → Slots n (next ds).clients)
    → Slots n (seat cfd cs o next).clients
unfolding seat
seat-Slots cfd n cs none next e h k = k cs h
seat-Slots cfd n cs (some ds) next e h k = k ds (admit-Slots cfd n cs ds e h)

accept_loop-Slots :
    (n : ℕ) (rs : List AcceptReply) (cs : List Client)
    → Slots n cs
    → Slots n (accept_loop cs rs).clients
unfolding accept_loop
accept_loop-Slots n [] cs h = h
accept_loop-Slots n (no_more ∷ rs) cs h = h
accept_loop-Slots n (accept_failed ∷ rs) cs h = h
accept_loop-Slots n (connects cfd false ∷ rs) cs h = accept_loop-Slots n rs cs h
accept_loop-Slots n (connects cfd true ∷ rs) cs h =
    seat-Slots cfd n cs (admit cfd cs) _ refl h (λ ds. accept_loop-Slots n rs ds)

serve_slot-Slots :
    (n : ℕ) (answers : ℕ → Answers) (state : ℤ) (allocs : List Bool) (stale : Revents)
    (o : Option ℕ) (c : Client) (rs : List Revents) (next : ℤ → List Bool → List Revents → Round)
    → IsValid c
    → ((state' : ℤ) (allocs' : List Bool) (rs' : List Revents)
        → Slots n (next state' allocs' rs').clients)
    → Slots (suc n) (serve_slot answers state allocs stale o c rs next).clients
unfolding serve_slot
serve_slot-Slots n answers state allocs stale none c rs next v h =
    let (size, all) = h state allocs rs in (omega (arith, size), (v, all))
serve_slot-Slots n answers state allocs stale (some fd) c rs next v h =
    let now = serve state allocs c (next_revents rs stale) (answers fd) in
    let (size, all) = h now.state now.allocs (later_revents rs) in
    (
      omega (arith, size),
      (serve-IsValid state allocs c (next_revents rs stale) (answers fd) v, all),
    )

serve_all-Slots :
    (answers : ℕ → Answers) (cs : List Client) (state : ℤ) (allocs : List Bool) (stale : Revents)
    (rs : List Revents)
    → AllValid cs
    → Slots (length cs) (serve_all answers state allocs stale cs rs).clients
unfolding serve_all
serve_all-Slots answers [] state allocs stale rs v = (refl, tt)
serve_all-Slots answers (c ∷ cs) state allocs stale rs (v, vs) =
    serve_slot-Slots (length cs) answers state allocs stale c.fd c rs _ v
      (λ state' allocs' rs'. serve_all-Slots answers cs state' allocs' stale rs' vs)

round-Slots :
    (n : ℕ) (srv : Server) (ev : Events) → Slots n srv.clients → Slots n (round srv ev).0.clients
unfolding round
round-Slots n srv ev h =
    let (size, v) =
      if_both (λ (a : Accepted). Slots n a.clients) ev.listening
        (accept_loop-Slots n ev.accepts srv.clients h) h in
    let (size', v') = serve_all-Slots ev.answers _ srv.state srv.allocs ev.stale ev.revents v in
    (size' ∙ size, v')

-- Behind the entry of the listening socket the poll set has one for each slot at most.
length-poll_set : (cs : List Client) → length (poll_set cs) ≤ length cs
unfolding poll_set
length-poll_set [] = omega arith
length-poll_set (c ∷ cs) = ground (arith, length-poll_set cs)

-- The arrays of `main` as they are when the loop starts a pass, or is left.
pub record InBounds (cs : List Client) : Type 0 where
  pub slots : length cs ≡ max_clients
  pub poll_entries : length (poll_set cs) + 1 ≤ max_clients + 1
  pub clients : AllValid cs

abbrev pub RunInBounds : Running → Type 0
RunInBounds (leaves l) = InBounds l.server.clients
RunInBounds (goes_on l) = InBounds l.server.clients
RunInBounds (undefined_sum l) = Unit

Slots-InBounds : (cs : List Client) → Slots max_clients cs → InBounds cs
Slots-InBounds cs (size, v) = record {
  slots = size;
  poll_entries = omega (arith, size, length-poll_set cs);
  clients = v;
}

pass-RunInBounds :
    (p : PollReply) (l : Life) (next : Life → Running)
    → Slots max_clients l.server.clients
    → ((l' : Life) → Slots max_clients l'.server.clients → RunInBounds (next l'))
    → RunInBounds (pass p l next)
unfolding pass
pass-RunInBounds poll_failed l next h n = Slots-InBounds l.server.clients h
pass-RunInBounds interrupted l next h n = n l h
pass-RunInBounds (polled ev) l next h n =
    if_both RunInBounds (round l.server ev).1.overflow tt
      (n _ (round-Slots max_clients l.server ev h))

serve_loop-RunInBounds :
    (ts : List Turn) (l : Life) → Slots max_clients l.server.clients → RunInBounds (serve_loop ts l)
unfolding serve_loop
serve_loop-RunInBounds [] l h = Slots-InBounds l.server.clients h
serve_loop-RunInBounds (t ∷ ts) l h =
    if_both RunInBounds (l.server.g_stop || t.signalled) (Slots-InBounds l.server.clients h)
      (pass-RunInBounds t.reply _ _ h (λ l'. serve_loop-RunInBounds ts l'))

free_slots-Slots : (n : ℕ) → Slots n (free_slots n)
free_slots-Slots zero = (refl, tt)
free_slots-Slots (suc n) =
    let (size, v) = free_slots-Slots n in (omega (arith, size), (free_slot-IsValid none, v))

-- Through any number of rounds the server has MAX_CLIENTS slots; its poll set fits the array of
-- MAX_CLIENTS + 1 entries; every client keeps an unfinished line of at most MAX_LINE_LEN bytes in its
-- input buffer, which holds CLIENT_IN_CAP; and every offset into an output buffer stands inside it.
pub serve_loop-InBounds :
    (ts : List Turn) (allocs : List Bool) → RunInBounds (serve_loop ts (first_life allocs))
serve_loop-InBounds ts allocs =
    serve_loop-RunInBounds ts (first_life allocs) (free_slots-Slots max_clients)
