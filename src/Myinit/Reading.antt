-- ===== src/Myinit/Reading.antt =====
-- The parser gets the whole file, and what was in the memory of its buffer does not matter then.
use unix_tasks.Prelude.{
  ℕ, suc, ◌-◌, ◌≤◌, ◌≡◌, refl, sym, ap, ◌∙◌, true, false, List, [], ◌∷◌, ◌++◌, arith, tests, ltb,
  ◌==◌, length, take, drop, min, Bytes, Bool-cases, inl, inr, length-append, length-drop,
  append_assoc, append-nil, take-all, drop-append_length, take-append-drop, lt→ltb,
}
use unix_tasks.Kernel.{ReadReply, gives, interrupted, failed, NoReadError, reads_in}
use unix_tasks.Myinit.Config.{Config, parse_buffer, push_lines, lines_onto}
use unix_tasks.Myinit.Files.{filled, read_contents}

take-min : (n : ℕ) (xs : Bytes) → take (min n (length xs)) xs ≡ take n xs
take-min n xs = elim (Bool-cases (ltb n (length xs))) [
  | inl less ↦ let e : min n (length xs) ≡ n = omega (tests, less) in rw e refl
  | inr more ↦
      let e : min n (length xs) ≡ length xs = ground arith in
      rw e (take-all (length xs) xs (omega arith) ∙ sym (take-all n xs (ground arith)))
]

-- One `read` takes the next bytes.
chunk_lem :
    (k : ℕ) (got rest all : Bytes)
    → all ≡ got ++ rest
    → take (min (suc k) (length all - length got)) (drop (length got) all) ≡ take (suc k) rest
chunk_lem k got rest all e =
    let size : length all - length got ≡ length rest =
      omega (arith, length-append {0} got rest, ap (length {A = ℕ}) e) in
    rw (size, e) (rw (drop-append_length got rest) (take-min (suc k) rest))

at_end : (got all : Bytes) → all ≡ got ++ [] → ltb (length got) (length all) ≡ false
at_end got all e =
    let size : length all ≡ length got = ap length (e ∙ append-nil got) in ground arith

before_end :
    (got : Bytes) (c : ℕ) (cs all : Bytes)
    → all ≡ got ++ c ∷ cs
    → ltb (length got) (length all) ≡ true
before_end got c cs all e =
    lt→ltb _ _ (omega (arith, length-append {0} got (c ∷ cs), ap (length {A = ℕ}) e))

chunk-nonempty : (k c : ℕ) (cs : Bytes) → (length (take (suc k) (c ∷ cs)) == 0) ≡ false
chunk-nonempty k c cs = ground arith

-- With as many answers as there are bytes the loop ends, and it has them all.
pub read_contents-all :
    (rs : List ReadReply) (got rest all : Bytes)
    → all ≡ got ++ rest
    → NoReadError rs
    → length rest ≤ reads_in rs
    → read_contents (length all) all got rs ≡ filled all
unfolding read_contents
read_contents-all [] got [] all e p h = rw (at_end got all e) (ap filled (sym (e ∙ append-nil got)))
read_contents-all [] got (c ∷ cs) all e p h = absurd (omega arith)
read_contents-all (gives k ∷ rs) got [] all e p h =
    rw (at_end got all e) (ap filled (sym (e ∙ append-nil got)))
read_contents-all (interrupted ∷ rs) got [] all e p h =
    rw (at_end got all e) (ap filled (sym (e ∙ append-nil got)))
read_contents-all (failed x ∷ rs) got [] all e p h = absurd p
read_contents-all (failed x ∷ rs) got (c ∷ cs) all e p h = absurd p
read_contents-all (interrupted ∷ rs) got (c ∷ cs) all e p h =
    rw (before_end got c cs all e) (read_contents-all rs got (c ∷ cs) all e p h)
read_contents-all (gives k ∷ rs) got (c ∷ cs) all e p h =
    rw (before_end got c cs all e, chunk_lem k got (c ∷ cs) all e, chunk-nonempty k c cs)
      (read_contents-all rs (got ++ c ∷ take k cs) (drop k cs) all
        (e
          ∙ ap (λ r. got ++ c ∷ r) (sym (take-append-drop k cs))
          ∙ sym (append_assoc got (c ∷ take k cs) (drop k cs)))
        p (omega (arith, length-drop {0} k cs)))

take-suc-length :
    (xs : Bytes) (y : ℕ) (ys : Bytes) → take (suc (length xs)) (xs ++ y ∷ ys) ≡ xs ++ y ∷ []
take-suc-length [] y ys = refl
take-suc-length (x ∷ xs) y ys = ap (◌∷◌ x) (take-suc-length xs y ys)

-- Bytes of the buffer behind the NUL are not looked at when the file was read to its end.
pub parse_buffer-whole :
    (cfg : Config) (contents garbage : Bytes)
    → parse_buffer cfg (length contents) contents garbage
      ≡ push_lines cfg (lines_onto [] (contents ++ 0 ∷ []))
unfolding parse_buffer
parse_buffer-whole cfg contents garbage =
    ap (λ b. push_lines cfg (lines_onto [] b)) (take-suc-length contents 0 garbage)
