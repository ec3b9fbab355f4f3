-- ===== src/Myinit/Nap.antt =====
-- The nap between two passes of the supervisor: `short_sleep_poll` of task3-myinit/myinit.c.
use unix_tasks.Prelude.{ℕ, ◌+◌, ◌≡◌, Bool, true, false, List, [], ◌∷◌, arith}

-- POLL_NS
abbrev pub poll_ns : ℕ
poll_ns = 100000000

-- An answer of `nanosleep`: 0; EINTR, with the time slept, the `rem` that it writes, and whether a
-- handler has set a flag; or another error.
pub data NapReply : Type 0 where
  elapsed : NapReply
  woken : ℕ → ℕ → Bool → NapReply
  failed : NapReply

-- The time slept and the time that was left, when it has returned or sleeps still.
pub data Nap : Type 0 where
  returns : ℕ → ℕ → Nap
  sleeps : ℕ → ℕ → Nap

abbrev pub after_sleep : ℕ → Nap → Nap
after_sleep slept (returns n left) = returns (slept + n) left
after_sleep slept (sleeps n left) = sleeps (slept + n) left

-- `for (;;)`, with `req` and whether one of the flags is set.
unfoldable pub nap_from : ℕ → Bool → List NapReply → Nap
nap_from req true rs = returns 0 req
nap_from req false [] = sleeps 0 req
nap_from req false (elapsed ∷ rs) = returns req 0
nap_from req false (woken slept rem flagged ∷ rs) = after_sleep slept (nap_from rem flagged rs)
nap_from req false (failed ∷ rs) = returns 0 req

unfoldable pub short_sleep_poll : Bool → List NapReply → Nap
short_sleep_poll flagged rs = nap_from poll_ns flagged rs

-- As POSIX says of EINTR: `rem` is what the time slept leaves of the time asked for.
abbrev pub TellsRest : ℕ → List NapReply → Type 0
TellsRest req [] = Unit
TellsRest req (elapsed ∷ rs) = Unit
TellsRest req (failed ∷ rs) = Unit
TellsRest req (woken slept rem flagged ∷ rs) = (slept + rem ≡ req) × TellsRest rem rs

abbrev pub AddsUp : ℕ → Nap → Type 0
AddsUp req (returns n left) = n + left ≡ req
AddsUp req (sleeps n left) = n + left ≡ req

after_sleep-AddsUp :
    (slept rem req : ℕ) (nap : Nap)
    → slept + rem ≡ req
    → AddsUp rem nap
    → AddsUp req (after_sleep slept nap)
after_sleep-AddsUp slept rem req (returns n left) h k = omega (arith, h, k)
after_sleep-AddsUp slept rem req (sleeps n left) h k = omega (arith, h, k)

nap_from-AddsUp :
    (req : ℕ) (flagged : Bool) (rs : List NapReply)
    → TellsRest req rs
    → AddsUp req (nap_from req flagged rs)
unfolding nap_from
nap_from-AddsUp req true rs h = omega arith
nap_from-AddsUp req false [] h = omega arith
nap_from-AddsUp req false (elapsed ∷ rs) h = omega arith
nap_from-AddsUp req false (failed ∷ rs) h = omega arith
nap_from-AddsUp req false (woken slept rem flagged ∷ rs) h =
    after_sleep-AddsUp slept rem req (nap_from rem flagged rs) h.0
      (nap_from-AddsUp rem flagged rs h.1)

-- However often a nap is interrupted, the time slept and the time left make POLL_NS: it goes on with
-- what is left and never starts again from the beginning; given that `nanosleep` tells the rest.
pub short_sleep_poll-AddsUp :
    (flagged : Bool) (rs : List NapReply)
    → TellsRest poll_ns rs
    → AddsUp poll_ns (short_sleep_poll flagged rs)
unfolding short_sleep_poll
short_sleep_poll-AddsUp flagged rs h = nap_from-AddsUp poll_ns flagged rs h
