-- ===== src/BotClient/Sending.antt =====
-- `write_all` sends its whole buffer.
use unix_tasks.Prelude.{
  ℕ, suc, ◌+◌, ◌≡◌, refl, ap, ◌≤◌, ◌∙◌, List, [], ◌∷◌, ◌++◌, arith, length, take, drop, length-drop,
  take-append-drop, Bytes,
}
use unix_tasks.Kernel.{WriteReply, takes, takes_none, done}
use unix_tasks.BotClient.Wire.{write_all}

-- No call fails; some may be interrupted, or take nothing.
abbrev pub Willing : List WriteReply → Type 0
Willing [] = Unit
Willing (WriteReply.failed e ∷ rs) = ⊥
Willing (takes k ∷ rs) = Willing rs
Willing (takes_none ∷ rs) = Willing rs
Willing (WriteReply.interrupted ∷ rs) = Willing rs

-- How many calls take something.
abbrev pub takes_in : List WriteReply → ℕ
takes_in [] = 0
takes_in (takes k ∷ rs) = suc (takes_in rs)
takes_in (takes_none ∷ rs) = takes_in rs
takes_in (WriteReply.interrupted ∷ rs) = takes_in rs
takes_in (WriteReply.failed e ∷ rs) = takes_in rs

pub write_all-whole :
    (rs : List WriteReply) (buf : Bytes) (more : ℕ)
    → Willing rs
    → length buf + more ≤ takes_in rs
    → ((write_all buf rs).sent ≡ buf)
      × ((write_all buf rs).status ≡ done)
      × Willing (write_all buf rs).later
      × (more ≤ takes_in (write_all buf rs).later)
unfolding write_all
write_all-whole rs [] more p h = (refl, refl, p, omega arith)
write_all-whole [] (c ∷ cs) more p h = absurd (omega arith)
write_all-whole (takes_none ∷ rs) (c ∷ cs) more p h = write_all-whole rs (c ∷ cs) more p h
write_all-whole (WriteReply.interrupted ∷ rs) (c ∷ cs) more p h =
    write_all-whole rs (c ∷ cs) more p h
write_all-whole (WriteReply.failed e ∷ rs) (c ∷ cs) more p h = absurd p
write_all-whole (takes k ∷ rs) (c ∷ cs) more p h =
    let (sent, ended, p', h') =
      write_all-whole rs (drop k cs) more p (omega (arith, length-drop {0} k cs)) in
    (ap (λ r. c ∷ take k cs ++ r) sent ∙ ap (◌∷◌ c) (take-append-drop k cs), ended, p', h')
