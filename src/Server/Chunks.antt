-- ===== src/Server/Chunks.antt =====
-- A client's numbers may come in any pieces: the sum, the answers and the verdict are the same.
use unix_tasks.Prelude.{
  ℕ, zero, suc, ◌+◌, ◌≤◌, ◌<◌, ◌≡◌, refl, sym, ap, ◌∙◌, Option, none, some, List, [], ◌∷◌, ◌++◌,
  append-nil, append_assoc, arith, ltb, length, length-append, length-drop, take, drop, take-all,
  Bytes, Bool-cases, inl, inr, ◌⊎◌,
}
use unix_tasks.Server.Lines.{
  Session, Parsed, proceeds, rejected, undefined, LineEnd, answered, refused, overflowed,
  max_line_len, find_newline, handle_line, after_line, at_newline, parse_loop,
  parse_and_queue_lines,
}
use unix_tasks.Server.Split.{then_more, parse_loop-append, parse_loop-fuel}
use unix_tasks.Server.Client.{
  read_chunk, RecvReply, arrives, Received, drained, dies, undefined_sum, after_parse, receive,
}

after_line-proceeds :
    (r : LineEnd) (next : Session → Parsed) {rest : Bytes} {t : Session}
    → after_line r next ≡ proceeds rest t
    → (u : Session) × (next u ≡ proceeds rest t)
unfolding after_line
after_line-proceeds (answered s) next e = (s, e)
after_line-proceeds (refused s) next e = cc
after_line-proceeds (overflowed s) next e = cc

-- A pass that goes on has stopped at an unfinished line, or gone through a complete one.
at_newline-proceeds :
    (a : Bytes) (s : Session) (o : Option ℕ) (next : Bytes → Session → Parsed)
    → {rest : Bytes} {t : Session} → at_newline a s o next ≡ proceeds rest t
    → ((o ≡ none) × (rest ≡ a) × (length a ≤ max_line_len))
      ⊎ ((n : ℕ) × (u : Session) × (o ≡ some n) × (next (drop (suc n) a) u ≡ proceeds rest t))
unfolding at_newline
at_newline-proceeds a s none next e = inl (ground arith)
at_newline-proceeds a s (some n) next e = elim (Bool-cases (ltb max_line_len n)) [
  | inl long ↦ cc (rw long at e)
  | inr short ↦
      let (u, f) = after_line-proceeds (handle_line s (take n a)) _ (rw short at e) in
      inr (n, u, refl, f)
]

-- The bytes that a pass leaves are an unfinished line within the limit.
pub record Unfinished (rest : Bytes) : Type 0 where
  pub no_newline : find_newline rest ≡ none
  pub short : length rest ≤ max_line_len

Unfinished-whole :
    (rest a : Bytes) → rest ≡ a → find_newline a ≡ none → length a ≤ max_line_len → Unfinished rest
Unfinished-whole rest a e missing short = rw e (record { no_newline = missing; short = short })

parse_loop-Unfinished :
    (f : ℕ) (a : Bytes) (s : Session) (rest : Bytes) (t : Session)
    → length a < f
    → parse_loop f a s ≡ proceeds rest t
    → Unfinished rest
unfolding parse_loop
parse_loop-Unfinished zero a s rest t h e = absurd (omega arith)
parse_loop-Unfinished (suc f) [] s rest t h e =
    Unfinished-whole rest [] (ground arith) (unfold find_newline in refl) (omega arith)
parse_loop-Unfinished (suc f) (c ∷ cs) s rest t h e = elim (at_newline-proceeds (c ∷ cs) s _ _ e) [
  | inl (missing, whole, short) ↦ Unfinished-whole rest (c ∷ cs) whole missing short
  | inr (n, u, found, later) ↦
      parse_loop-Unfinished f (drop n cs) u rest t (omega (arith, length-drop {0} n cs)) later
]

pub parse-Unfinished :
    (a : Bytes) (s : Session) (rest : Bytes) (t : Session)
    → parse_and_queue_lines a s ≡ proceeds rest t
    → Unfinished rest
unfolding parse_and_queue_lines
parse-Unfinished a s rest t e = parse_loop-Unfinished (suc (length a)) a s rest t (omega arith) e

-- An unfinished line is left as it is.
pub parse-idle : (a : Bytes) (s : Session) → Unfinished a → parse_and_queue_lines a s ≡ proceeds a s
unfolding parse_and_queue_lines parse_loop at_newline
parse-idle [] s v = refl
parse-idle (c ∷ cs) s v = rw (v.no_newline) (ground (arith, v.short))

then_more-ext :
    (r : Parsed) (f g : Bytes → Session → Parsed)
    → ((rest : Bytes) (t : Session) → r ≡ proceeds rest t → f rest t ≡ g rest t)
    → then_more r f ≡ then_more r g
then_more-ext (proceeds rest t) f g h = h rest t refl
then_more-ext (rejected t) f g h = refl
then_more-ext (undefined t) f g h = refl

-- A pass over bytes that came in two pieces is a pass over the first, and one over what that left
-- with the second behind it.
pub parse-append :
    (a b : Bytes) (s : Session)
    → parse_and_queue_lines (a ++ b) s
      ≡ then_more (parse_and_queue_lines a s) (λ rest t. parse_and_queue_lines (rest ++ b) t)
unfolding parse_and_queue_lines
parse-append a b s =
    let size = length-append {0} a b in
    let g = suc (length a + length b + max_line_len) in
    parse_loop-append (suc (length (a ++ b))) (suc (length a)) g a b s (omega arith) (omega arith)
      (omega arith)
    ∙ then_more-ext (parse_loop (suc (length a)) a s) _ _ (λ rest t e.
      let v = parse_loop-Unfinished (suc (length a)) a s rest t (omega arith) e in
      let short = v.short in
      parse_loop-fuel g (suc (length (rest ++ b))) (rest ++ b) t
        (omega (arith, length-append {0} rest b)) (omega arith))

-- The pieces in which bytes arrive, one for each `recv`.
abbrev pub arrivals : List Bytes → List RecvReply
arrivals [] = []
arrivals (bs ∷ rest) = arrives bs ∷ arrivals rest

abbrev pub joined : List Bytes → Bytes
joined [] = []
joined (bs ∷ rest) = bs ++ joined rest

-- None is empty or longer than a `recv` takes.
abbrev pub Pieces : List Bytes → Type 0
Pieces [] = Unit
Pieces (bs ∷ rest) = ((0 < length bs) × (length bs ≤ read_chunk)) × Pieces rest

-- The loop ended as this pass did.
abbrev pub as_received : Parsed → Received
as_received (proceeds rest t) = drained rest t
as_received (rejected t) = dies t
as_received (undefined t) = undefined_sum t

after_parse-then_more :
    (r : Parsed) (next : Bytes → Session → Received) (more : Bytes → Session → Parsed)
    → ((rest : Bytes) (t : Session) → r ≡ proceeds rest t → next rest t ≡ as_received (more rest t))
    → after_parse r next ≡ as_received (then_more r more)
unfolding after_parse
after_parse-then_more (proceeds rest t) next more h = h rest t refl
after_parse-then_more (rejected t) next more h = refl
after_parse-then_more (undefined t) next more h = refl

receive-arrives :
    (inbuf bs : Bytes) (s : Session) (rs : List RecvReply)
    → length inbuf ≤ max_line_len
    → 0 < length bs
    → length bs ≤ read_chunk
    → receive inbuf s (arrives bs ∷ rs)
      ≡ after_parse (parse_and_queue_lines (inbuf ++ bs) s) (λ rest t. receive rest t rs)
unfolding receive
receive-arrives inbuf bs s rs short some_read fits = rw (take-all read_chunk bs fits) (ground arith)

-- Whatever the pieces in which a client's bytes arrive, the sum, the answers, the memory used and
-- the verdict are those of one pass over the bytes joined together. So the server serves a slow
-- client as it serves a fast one, and the bound of its buffer is never the reason to drop it.
pub receive-joined :
    (pieces : List Bytes) (inbuf : Bytes) (s : Session)
    → Unfinished inbuf
    → Pieces pieces
    → receive inbuf s (arrivals pieces)
      ≡ as_received (parse_and_queue_lines (inbuf ++ joined pieces) s)
receive-joined [] inbuf s v h = unfold receive in rw append-nil (rw (parse-idle inbuf s v) refl)
receive-joined (bs ∷ rest) inbuf s v h =
    receive-arrives inbuf bs s (arrivals rest) v.short h.0.0 h.0.1
    ∙ after_parse-then_more (parse_and_queue_lines (inbuf ++ bs) s) _ _
        (λ left t e. receive-joined rest left t (parse-Unfinished (inbuf ++ bs) s left t e) h.1)
    ∙ ap as_received (sym (parse-append (inbuf ++ bs) (joined rest) s))
    ∙ ap (λ a. as_received (parse_and_queue_lines a s)) (append_assoc inbuf bs (joined rest))
