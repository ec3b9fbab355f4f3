-- ===== src/Server/Split.antt =====
-- The server does not see how its input was cut into pieces: lines are handled alike whether they
-- arrive at once or byte by byte.
use unix_tasks.Prelude.{
  ℕ, zero, suc, ◌+◌, ◌≤◌, ◌<◌, ◌≡◌, refl, sym, ap, ◌∙◌, true, false, Option, none, some, [], ◌∷◌,
  ◌++◌, arith, ◌==◌, ltb, ltb→lt, lt→ltb, length, length-append, length-drop, take, drop, Bytes,
  if◌then◌else◌, Bool-cases, Option-cases, inl, inr, ◌⊎◌,
}
use unix_tasks.Server.Lines.{
  Session, Parsed, proceeds, rejected, undefined, LineEnd, answered, refused, overflowed,
  max_line_len, find_newline, handle_line, after_line, at_newline, parse_loop,
}

-- A pass is followed by another on what it left and the bytes that came later.
abbrev pub then_more : Parsed → (Bytes → Session → Parsed) → Parsed
then_more (proceeds rest s) next = next rest s
then_more (rejected s) next = rejected s
then_more (undefined s) next = undefined s

find_newline-zero : (c : ℕ) (cs : Bytes) → find_newline (c ∷ cs) ≡ some 0 → (c == b'\n') ≡ true
unfolding find_newline
find_newline-zero c cs e = ground arith

find_newline-suc :
    (c : ℕ) (cs : Bytes) (n : ℕ)
    → find_newline (c ∷ cs) ≡ some (suc n)
    → ((c == b'\n') ≡ false) × (find_newline cs ≡ some n)
unfolding find_newline
find_newline-suc c cs n e = ground arith

find_newline-none :
    (c : ℕ) (cs : Bytes)
    → find_newline (c ∷ cs) ≡ none
    → ((c == b'\n') ≡ false) × (find_newline cs ≡ none)
unfolding find_newline
find_newline-none c cs e = ground arith

-- A newline that is there already is found again when more bytes have come.
find_newline-append_some :
    (a b : Bytes) (n : ℕ)
    → find_newline a ≡ some n
    → (find_newline (a ++ b) ≡ some n)
      × (n < length a)
      × (take n (a ++ b) ≡ take n a)
      × (drop (suc n) (a ++ b) ≡ drop (suc n) a ++ b)
unfolding find_newline
find_newline-append_some [] b n e = cc
find_newline-append_some (c ∷ cs) b zero e =
    (rw (find_newline-zero c cs e), omega arith, refl, refl)
find_newline-append_some (c ∷ cs) b (suc n) e =
    let (other, later) = find_newline-suc c cs n e in
    let (found, within, front, back) = find_newline-append_some cs b n later in
    (rw (other, found), omega arith, ap (◌∷◌ c) front, back)

-- One that is not there can only come behind them.
find_newline-append_none :
    (a b : Bytes)
    → find_newline a ≡ none
    → (find_newline (a ++ b) ≡ none) ⊎ ((n : ℕ) × (find_newline (a ++ b) ≡ some n) × (length a ≤ n))
unfolding find_newline
find_newline-append_none [] b e = elim (Option-cases (find_newline b)) [
  | inl missing ↦ inl missing
  | inr (n, found) ↦ inr (n, found, omega arith)
]
find_newline-append_none (c ∷ cs) b e =
    let (other, later) = find_newline-none c cs e in
    elim (find_newline-append_none cs b later) [
      | inl missing ↦ inl (rw (other, missing))
      | inr (n, found, behind) ↦ inr (suc n, rw (other, found), omega arith)
    ]

after_line-ext :
    (r : LineEnd) (f g : Session → Parsed)
    → ((s : Session) → f s ≡ g s)
    → after_line r f ≡ after_line r g
unfolding after_line
after_line-ext (answered s) f g h = h s
after_line-ext (refused s) f g h = refl
after_line-ext (overflowed s) f g h = refl

then_more-after_line :
    (r : LineEnd) (f : Session → Parsed) (next : Bytes → Session → Parsed)
    → then_more (after_line r f) next ≡ after_line r (λ s. then_more (f s) next)
unfolding after_line
then_more-after_line (answered s) f next = refl
then_more-after_line (refused s) f next = refl
then_more-after_line (overflowed s) f next = refl

at_newline-ext :
    (rest : Bytes) (s : Session) (o : Option ℕ) (f g : Bytes → Session → Parsed)
    → ((n : ℕ) (t : Session) → f (drop (suc n) rest) t ≡ g (drop (suc n) rest) t)
    → at_newline rest s o f ≡ at_newline rest s o g
unfolding at_newline
at_newline-ext rest s none f g h = refl
at_newline-ext rest s (some n) f g h =
    ap (λ r. if ltb max_line_len n then rejected s else r)
      (after_line-ext (handle_line s (take n rest)) _ _ (h n))

-- With enough fuel the result does not depend on it.
pub parse_loop-fuel :
    (f g : ℕ) (rest : Bytes) (s : Session)
    → length rest < f
    → length rest < g
    → parse_loop f rest s ≡ parse_loop g rest s
unfolding parse_loop
parse_loop-fuel zero g rest s h k = absurd (omega arith)
parse_loop-fuel (suc f) zero rest s h k = absurd (omega arith)
parse_loop-fuel (suc f) (suc g) [] s h k = refl
parse_loop-fuel (suc f) (suc g) (c ∷ cs) s h k =
    at_newline-ext (c ∷ cs) s (find_newline (c ∷ cs)) (λ rest t. parse_loop f rest t)
      (λ rest t. parse_loop g rest t)
      (λ n t.
        parse_loop-fuel f g (drop n cs) t (omega (arith, length-drop {0} n cs))
          (omega (arith, length-drop {0} n cs)))

-- A line that is too long already stays so.
long-append :
    (a b : Bytes) (s : Session) (next : Bytes → Session → Parsed)
    → find_newline a ≡ none
    → max_line_len < length a
    → at_newline (a ++ b) s (find_newline (a ++ b)) next ≡ rejected s
unfolding at_newline
long-append a b s next e long = elim (find_newline-append_none a b e) [
  | inl missing ↦
      rw missing (rw (lt→ltb max_line_len (length (a ++ b)) (omega (arith, length-append {0} a b))))
  | inr (n, found, behind) ↦ rw found (rw (lt→ltb max_line_len n (omega arith)))
]

-- A complete line is handled in the same way with more bytes behind it.
line-append :
    (a b : Bytes) (s : Session) (n : ℕ) (f h next : Bytes → Session → Parsed)
    → take n (a ++ b) ≡ take n a
    → drop (suc n) (a ++ b) ≡ drop (suc n) a ++ b
    → ((t : Session) → f (drop (suc n) a ++ b) t ≡ then_more (h (drop (suc n) a) t) next)
    → at_newline (a ++ b) s (some n) f ≡ then_more (at_newline a s (some n) h) next
unfolding at_newline
line-append a b s n f h next front back same = elim (Bool-cases (ltb max_line_len n)) [
  | inl long ↦ rw long
  | inr short ↦
      rw (short, front, back)
        (after_line-ext (handle_line s (take n a)) _ _ same
          ∙ sym (then_more-after_line (handle_line s (take n a)) _ next))
]

pub parse_loop-append :
    (f h g : ℕ) (a b : Bytes) (s : Session)
    → length a + length b < f
    → length a < h
    → length a + length b < g
    → parse_loop f (a ++ b) s ≡ then_more (parse_loop h a s) (λ rest t. parse_loop g (rest ++ b) t)
unfolding parse_loop
parse_loop-append zero h g a b s p q r = absurd (omega arith)
parse_loop-append (suc f) zero g a b s p q r = absurd (omega arith)
parse_loop-append (suc f) (suc h) g [] b s p q r =
    parse_loop-fuel (suc f) g b s (omega arith) (omega arith)
parse_loop-append (suc f) (suc h) g (c ∷ cs) b s p q r =
    let a = c ∷ cs in
    let size = length-append {0} a b in
    elim (Option-cases (find_newline a)) [
      | inl missing ↦ elim (Bool-cases (ltb max_line_len (length a))) [
        | inl long ↦
            long-append a b s _ missing (ltb→lt _ _ long)
            ∙ rw missing (unfold at_newline in rw long refl)
        | inr short ↦
            parse_loop-fuel (suc f) g (a ++ b) s (omega arith) (omega arith)
            ∙ rw missing (unfold at_newline in rw short refl)
      ]
      | inr (n, found) ↦
          let (again, within, front, back) = find_newline-append_some a b n found in
          let shorter = length-drop {0} (suc n) a in
          rw (again, found)
            (line-append a b s n _ _ _ front back (λ t.
              parse_loop-append f h g (drop n cs) b t (omega arith) (omega arith) (omega arith)))
    ]
