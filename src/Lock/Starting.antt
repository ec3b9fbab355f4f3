-- ===== src/Lock/Starting.antt =====
-- What the options and the operand make of the lock program.
use unix_tasks.Prelude.{
  ℕ, ◌+◌, ◌*◌, ◌%◌, ◌≤◌, ◌<◌, ◌≡◌, refl, sym, ap, subst, ◌∙◌, Bool, Option, none, some, List, [],
  ◌∷◌, ◌++◌, arith, ltb, leb, length, Bytes, bind-some, Bool-cases, inl, inr,
}
use unix_tasks.Text.Number.{strtoul}
use unix_tasks.Lock.Calls.{u32, usleep_arg}
use unix_tasks.Lock.Transfer.{usleep_arg-exact}
use unix_tasks.Lock.Start.{
  GetOpt, opt_s, opt_d, opt_unknown, Settings, default_settings, max_delay_ms, set_delay,
  parse_options, path_max, lock_suffix, build_lock_path, Ready, with_operands, start,
}

-- The arguments of `-d` are numbers from 0 to 1000000, and there is no unknown option.
abbrev pub Accepted : List GetOpt → Type 0
Accepted [] = Unit
Accepted (opt_s path ∷ opts) = Accepted opts
Accepted (opt_d arg ∷ opts) =
    ((v : ℕ) × (strtoul arg ≡ some v) × (v ≤ max_delay_ms)) × Accepted opts
Accepted (opt_unknown ∷ opts) = ⊥

-- The last `-d` counts, and the last `-s`.
abbrev pub last_delay : ℕ → List GetOpt → ℕ
last_delay d [] = d
last_delay d (opt_d arg ∷ opts) = last_delay (elim (strtoul arg) [ none ↦ d | some v ↦ v ]) opts
last_delay d (opt_s path ∷ opts) = last_delay d opts
last_delay d (opt_unknown ∷ opts) = last_delay d opts

abbrev pub last_path : Bytes → List GetOpt → Bytes
last_path p [] = p
last_path p (opt_s path ∷ opts) = last_path path opts
last_path p (opt_d arg ∷ opts) = last_path p opts
last_path p (opt_unknown ∷ opts) = last_path p opts

set_delay-some :
    (o : Option ℕ) (s s' : Settings)
    → set_delay o s ≡ some s'
    → (v : ℕ) × (o ≡ some v) × (v ≤ max_delay_ms) × (some (record s { delay_ms = v }) ≡ some s')
set_delay-some none s s' h = absurd (ground arith)
set_delay-some (some v) s s' h = elim (Bool-cases (ltb max_delay_ms v)) [
  | inl long ↦ absurd (ground arith)
  | inr short ↦
      let word : u32 v ≡ v = ground arith in
      (v, refl, ground arith, ap (λ d. some (record s { delay_ms = d })) (sym word) ∙ ground arith)
]

some-Settings :
    (s s' : Settings)
    → some s ≡ some s'
    → (s.delay_ms ≡ s'.delay_ms) × (s.stats_path ≡ s'.stats_path)
some-Settings s s' e = (
  ap (λ (o : Option Settings). elim o [ none ↦ 0 | some x ↦ x.delay_ms ]) e,
  ap (λ (o : Option Settings). elim o [ none ↦ [] | some x ↦ x.stats_path ]) e,
)

parse_options-some :
    (opts : List GetOpt) (s s' : Settings)
    → parse_options s opts ≡ some s'
    → s.delay_ms ≤ max_delay_ms
    → Accepted opts
      × (s'.delay_ms ≡ last_delay s.delay_ms opts)
      × (s'.stats_path ≡ last_path s.stats_path opts)
      × (s'.delay_ms ≤ max_delay_ms)
unfolding parse_options
parse_options-some [] s s' h d =
    let (delay, path) = some-Settings s s' h in (tt, sym delay, sym path, omega (arith, delay))
parse_options-some (opt_s path ∷ opts) s s' h d =
    parse_options-some opts (record s { stats_path = path }) s' h d
parse_options-some (opt_unknown ∷ opts) s s' h d = absurd (ground arith)
parse_options-some (opt_d arg ∷ opts) s s' h d =
    let (t, set, later) = bind-some (set_delay (strtoul arg) s) _ s' h in
    let (v, read, small, next) = set_delay-some (strtoul arg) s t set in
    let (delay, path) = some-Settings _ t next in
    let (ok, delay', path', low) = parse_options-some opts t s' later (omega (arith, delay)) in
    (
      ((v, read, small), ok),
      delay'
          ∙ ap (λ n. last_delay n opts) (sym delay)
          ∙ ap (λ (o : Option ℕ). last_delay (elim o [ none ↦ s.delay_ms | some n ↦ n ]) opts)
              (sym read),
      path' ∙ ap (λ p. last_path p opts) (sym path),
      low,
    )

with_operands-some :
    (s : Settings) (operands : List Bytes) (installed : Bool) (r : Ready)
    → with_operands s operands installed ≡ some r
    → (some s ≡ some r.settings)
      × ((myfile : Bytes) × (operands ≡ myfile ∷ [])
          × (r.lckpath ≡ myfile ++ lock_suffix)
          × (length r.lckpath < path_max))
unfolding with_operands build_lock_path
with_operands-some s [] installed r h = absurd (ground arith)
with_operands-some s (myfile ∷ more ∷ rest) installed r h = absurd (ground arith)
with_operands-some s (myfile ∷ []) installed r h =
    elim (Bool-cases (leb path_max (length (myfile ++ lock_suffix)))) [
      | inl long ↦ absurd (ground arith)
      | inr short ↦ elim (Bool-cases installed) [
        | inr failed ↦ absurd (ground arith)
        | inl ok ↦
            let path : myfile ++ lock_suffix ≡ r.lckpath = ground arith in
            let fits : length (myfile ++ lock_suffix) < path_max = ground arith in
            (ground arith, (myfile, refl, sym path, subst (λ q. length q < path_max) path fits))
      ]
    ]

-- When the program gets to its loop, every argument of `-d` was a number up to 1000000 and there was
-- no other option than `-s`; it works with the last `-d` and the last `-s`, or 100 ms and
-- `stats.txt`; there was one operand, and the path of the lock file is that operand with `.lck`, not
-- cut off; and the naps of every process are as long as they are meant to be, without wrapping round.
pub start-some :
    (opts : List GetOpt) (operands : List Bytes) (installed : Bool) (r : Ready)
    → start opts operands installed ≡ some r
    → Accepted opts
      × (r.settings.delay_ms ≡ last_delay 100 opts)
      × (r.settings.stats_path ≡ last_path default_settings.stats_path opts)
      × ((myfile : Bytes) × (operands ≡ myfile ∷ [])
          × (r.lckpath ≡ myfile ++ lock_suffix)
          × (length r.lckpath < path_max))
      × ((self : ℕ)
          → usleep_arg r.settings.delay_ms self ≡ (r.settings.delay_ms + self % 17) * 1000)
unfolding start
start-some opts operands installed r h =
    let (s, parsed, later) = bind-some (parse_options default_settings opts) _ r h in
    let (ok, delay, path, low) = parse_options-some opts default_settings s parsed (omega arith) in
    let (same, lock_path) = with_operands-some s operands installed r later in
    let (delay', path') = some-Settings s r.settings same in
    (
      ok,
      sym delay' ∙ delay,
      sym path' ∙ path,
      lock_path,
      λ self. usleep_arg-exact r.settings.delay_ms self (omega (arith, low, delay')),
    )
