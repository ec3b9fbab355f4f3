-- ===== src/BotClient/Stream.antt =====
-- The client reads the bytes of the connection line by line, whatever the pieces in which they come.
use unix_tasks.Prelude.{
  ℕ, zero, suc, ◌+◌, ◌-◌, ◌≤◌, ◌<◌, ◌≡◌, refl, sym, ap, subst, ◌∙◌, false, List, [], ◌∷◌, ◌++◌,
  append-nil, append_assoc, arith, ◌==◌, length, length-append, drop, take-all, get_or, Bytes, ◌⊎◌,
  inl, inr,
}
use unix_tasks.BotClient.Wire.{
  response_buf_cap, Arrival, arrives, interrupted, would_block, failed, line, wants, take_buffered,
  LineRead, returns, after_taken, read_more, read_line_fd,
}

-- All the bytes that arrive.
abbrev pub joined : List Arrival → Bytes
joined [] = []
joined (arrives bs ∷ rs) = bs ++ joined rs
joined (interrupted ∷ rs) = joined rs
joined (would_block ∷ rs) = joined rs
joined (failed e ∷ rs) = joined rs

-- The connection holds: no error, no end, and no piece that one `read` could not take.
abbrev pub Connected : List Arrival → Type 0
Connected [] = Unit
Connected (arrives bs ∷ rs) = ((0 < length bs) × (length bs ≤ response_buf_cap)) × Connected rs
Connected (interrupted ∷ rs) = Connected rs
Connected (would_block ∷ rs) = Connected rs
Connected (failed e ∷ rs) = ⊥

abbrev pub NoNewline : Bytes → Type 0
NoNewline [] = Unit
NoNewline (c ∷ cs) = ((c == b'\n') ≡ false) × NoNewline cs

-- The buffered bytes hold the line's end, or they are a part of the line.
abbrev SplitsLine : Bytes → Bytes → Bytes → ℕ → Bytes → Bytes → Type 0
SplitsLine inbuf later l room buf rest =
    ((inbuf' : Bytes) × (take_buffered room buf inbuf ≡ line (buf ++ (l ++ b'\n' ∷ [])) inbuf')
      × (inbuf' ++ later ≡ rest))
    ⊎ ((l' : Bytes) × (room' : ℕ) × (take_buffered room buf inbuf ≡ wants room' (buf ++ inbuf))
        × (l ≡ inbuf ++ l')
        × (later ≡ l' ++ b'\n' ∷ rest)
        × (length l' < room'))

take_buffered-SplitsLine :
    (inbuf later l : Bytes) (room : ℕ) (buf rest : Bytes)
    → NoNewline l
    → length l < room
    → inbuf ++ later ≡ l ++ b'\n' ∷ rest
    → SplitsLine inbuf later l room buf rest
unfolding take_buffered
take_buffered-SplitsLine inbuf later l zero buf rest p h e = absurd (omega arith)
take_buffered-SplitsLine [] later l (suc room) buf rest p h e =
    inr (l, suc room, ap (wants (suc room)) (sym (append-nil buf)), refl, e, h)
take_buffered-SplitsLine (c ∷ cs) later [] (suc room) buf rest p h e =
    let newline : c ≡ b'\n' = ap (λ b. get_or b 0 0) e in inl (cs, rw newline refl, ap (drop 1) e)
take_buffered-SplitsLine (c ∷ cs) later (d ∷ l) (suc room) buf rest (other, p) h e =
    let same : c ≡ d = ap (λ b. get_or b 0 0) e in
    let tail : cs ++ later ≡ l ++ b'\n' ∷ rest = ap (drop 1) e in
    let plain = rw (sym same) at other in
    let step : take_buffered (suc room) buf (c ∷ cs) ≡ take_buffered room (buf ++ c ∷ []) cs =
      rw plain refl in
    elim (take_buffered-SplitsLine cs later l room (buf ++ c ∷ []) rest p (omega arith) tail) [
      | inl (inbuf', found, behind) ↦ inl (
        inbuf',
        step
            ∙ found
            ∙ ap (λ b. line b inbuf')
                (append_assoc buf (c ∷ []) (l ++ b'\n' ∷ [])
                  ∙ ap (λ x. buf ++ x ∷ (l ++ b'\n' ∷ [])) same),
        behind,
      )
      | inr (l', room', more, split, behind, fits) ↦ inr (
        l',
        room',
        step ∙ more ∙ ap (wants room') (append_assoc buf (c ∷ []) cs),
        ap (λ x. x ∷ l) (sym same) ∙ ap (◌∷◌ c) split,
        behind,
        fits,
      )
    ]

NoNewline-behind : (a b : Bytes) → NoNewline (a ++ b) → NoNewline b
NoNewline-behind [] b p = p
NoNewline-behind (c ∷ cs) b (other, p) = NoNewline-behind cs b p

-- What a call has read, and what it has left for the next one.
abbrev pub GivesLine : LineRead → Bytes → Bytes → Type 0
GivesLine r l rest =
    (inbuf : Bytes) × (rs : List Arrival) × (r ≡ returns l inbuf rs)
    × (inbuf ++ joined rs ≡ rest)
    × Connected rs

nonempty : (bs : Bytes) → 0 < length bs → (length bs == 0) ≡ false
nonempty bs h = ground arith

after_taken-GivesLine :
    (inbuf l : Bytes) (rs : List Arrival) (room : ℕ) (buf rest : Bytes)
    (next : ℕ → Bytes → LineRead)
    → Connected rs
    → SplitsLine inbuf (joined rs) l room buf rest
    → ((l' : Bytes) (room' : ℕ)
        → l ≡ inbuf ++ l'
        → joined rs ≡ l' ++ b'\n' ∷ rest
        → length l' < room'
        → GivesLine (next room' (buf ++ inbuf)) (buf ++ inbuf ++ (l' ++ b'\n' ∷ [])) rest)
    → GivesLine (after_taken (take_buffered room buf inbuf) rs next) (buf ++ (l ++ b'\n' ∷ [])) rest
unfolding after_taken
after_taken-GivesLine inbuf l rs room buf rest next c (inl (inbuf', found, behind)) h =
    (inbuf', rs, rw found refl, behind, c)
after_taken-GivesLine inbuf l rs room buf rest next c (inr (l', room', more, split, behind, fits))
      h =
    let regroup : buf ++ inbuf ++ (l' ++ b'\n' ∷ []) ≡ buf ++ (l ++ b'\n' ∷ []) =
      append_assoc buf inbuf (l' ++ b'\n' ∷ [])
      ∙ ap (λ b. buf ++ b)
          (sym (append_assoc inbuf l' (b'\n' ∷ [])) ∙ ap (λ b. b ++ b'\n' ∷ []) (sym split)) in
    rw more (
      subst (λ t. GivesLine (next room' (buf ++ inbuf)) t rest) regroup
        (h l' room' split behind fits))

read_more-GivesLine :
    (rs : List Arrival) (l : Bytes) (room : ℕ) (buf rest : Bytes)
    → NoNewline l
    → Connected rs
    → length l < room
    → joined rs ≡ l ++ b'\n' ∷ rest
    → GivesLine (read_more rs room buf) (buf ++ (l ++ b'\n' ∷ [])) rest
unfolding read_more
read_more-GivesLine [] l room buf rest p c h e =
    absurd (omega (arith, ap (length {A = ℕ}) e, length-append {0} l (b'\n' ∷ rest)))
read_more-GivesLine (interrupted ∷ rs) l room buf rest p c h e =
    read_more-GivesLine rs l room buf rest p c h e
read_more-GivesLine (would_block ∷ rs) l room buf rest p c h e =
    read_more-GivesLine rs l room buf rest p c h e
read_more-GivesLine (failed x ∷ rs) l room buf rest p c h e = absurd c
read_more-GivesLine (arrives bs ∷ rs) l room buf rest p ((some_bytes, fits), c) h e =
    rw (take-all response_buf_cap bs fits, nonempty bs some_bytes)
      (after_taken-GivesLine bs l rs room buf rest _ c
        (take_buffered-SplitsLine bs (joined rs) l room buf rest p h e)
        (λ l' room' split behind room_left.
          read_more-GivesLine rs l' room' (buf ++ bs) rest
            (NoNewline-behind bs l' (subst NoNewline split p)) c room_left behind))

-- Whatever the pieces in which the bytes come, and whatever interruptions there are: while the
-- connection holds and a line that fits the buffer has come, `read_line_fd` returns that line with
-- its newline, and what stays in its buffer, followed by what is still to come, is exactly the rest
-- of the stream. So no byte is lost, and none is read twice, between one call and the next.
pub read_line_fd-GivesLine :
    (cap : ℕ) (inbuf : Bytes) (rs : List Arrival) (l rest : Bytes)
    → NoNewline l
    → Connected rs
    → length l + 1 < cap
    → inbuf ++ joined rs ≡ l ++ b'\n' ∷ rest
    → GivesLine (read_line_fd cap inbuf rs) (l ++ b'\n' ∷ []) rest
unfolding read_line_fd
read_line_fd-GivesLine cap inbuf rs l rest p c h e =
    after_taken-GivesLine inbuf l rs (cap - 1) [] rest _ c
      (take_buffered-SplitsLine inbuf (joined rs) l (cap - 1) [] rest p (omega arith) e)
      (λ l' room' split behind fits.
        read_more-GivesLine rs l' room' inbuf rest
          (NoNewline-behind inbuf l' (subst NoNewline split p)) c fits behind)
