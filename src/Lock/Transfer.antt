-- ===== src/Lock/Transfer.antt =====
-- What the loops of `write` and `read` transfer.
use unix_tasks.Prelude.{
  ℕ, suc, ◌+◌, ◌-◌, ◌*◌, ◌%◌, ◌≤◌, ◌<◌, ◌≡◌, refl, sym, ap, ◌∙◌, false, List, [], ◌∷◌, ◌++◌,
  append_assoc, arith, ltb, ltb→lt, ◌==◌, length, length-append, take, drop, take-append-drop,
  take-add, take-all, length-take, length-drop, min, Bytes, Bool-cases, inl, inr, true,
}
use unix_tasks.Kernel.{
  ReadReply, gives, WriteReply, takes, takes_none, done, NoWriteError, writes_in,
}
use unix_tasks.Lock.Start.{max_delay_ms}
use unix_tasks.Lock.Calls.{write_full, read_once, read_full, usleep_arg}

-- `write_full` hands the kernel a beginning of the buffer; all of it when it returns its length.
pub write_full-prefix :
    (buf : Bytes) (rs : List WriteReply)
    → (left : Bytes) × ((write_full buf rs).sent ++ left ≡ buf)
      × ((write_full buf rs).status ≡ done → left ≡ [])
unfolding write_full
write_full-prefix [] rs = ([], refl, λ e. refl)
write_full-prefix (c ∷ cs) [] = (c ∷ cs, refl, λ e. cc)
write_full-prefix (c ∷ cs) (takes k ∷ rs) =
    let (left, split, all) = write_full-prefix (drop (suc k) (c ∷ cs)) rs in
    (
      left,
      ap (◌∷◌ c) (
          append_assoc (take k cs) _ left ∙ ap (λ r. take k cs ++ r) split ∙ take-append-drop k cs),
      all,
    )
write_full-prefix (c ∷ cs) (takes_none ∷ rs) = (c ∷ cs, refl, λ e. cc)
write_full-prefix (c ∷ cs) (WriteReply.interrupted ∷ rs) = write_full-prefix (c ∷ cs) rs
write_full-prefix (c ∷ cs) (WriteReply.failed e ∷ rs) = (c ∷ cs, refl, λ e. cc)

-- If the answers hold no error and are as many as the bytes, `write_full` sends them all.
pub write_full-done :
    (buf : Bytes) (rs : List WriteReply)
    → NoWriteError rs
    → length buf ≤ writes_in rs
    → (write_full buf rs).status ≡ done
unfolding write_full
write_full-done [] rs c h = refl
write_full-done (x ∷ xs) [] c h = absurd (omega arith)
write_full-done (x ∷ xs) (takes k ∷ rs) c h =
    write_full-done (drop k xs) rs c (omega (arith, length-drop {0} k xs))
write_full-done (x ∷ xs) (takes_none ∷ rs) c h = absurd c
write_full-done (x ∷ xs) (WriteReply.interrupted ∷ rs) c h = write_full-done (x ∷ xs) rs c h
write_full-done (x ∷ xs) (WriteReply.failed e ∷ rs) c h = absurd c

-- A read behind a prefix of the line gives more of the line.
pub read_once-prefix :
    (k n : ℕ) (line got : Bytes)
    → take (length got) line ≡ got
    → take (length (got ++ read_once k line (length got) n)) line
      ≡ got ++ read_once k line (length got) n
read_once-prefix k n line got h =
    let chunk = read_once k line (length got) n in
    rw (length-append {0} got chunk)
      (sym (take-add (length got) (min (suc k) n) line) ∙ ap (λ r. r ++ chunk) h)

-- An empty read with room in the buffer is the end of the line.
pub read_once-end :
    (k n : ℕ) (line got : Bytes)
    → take (length got) line ≡ got
    → 0 < n
    → length (read_once k line (length got) n) ≡ 0
    → line ≡ got
read_once-end k n line got pre room e =
    let drained : length line ≤ length got = omega (
      arith,
      length-take {0} (min (suc k) n) (drop (length got) line),
      length-drop {0} (length got) line,
    ) in
    sym (take-all (length got) line drained) ∙ pre

full-take :
    (content : Bytes) (count : ℕ) (got : Bytes)
    → take (length got) content ≡ got
    → length got ≤ count
    → ltb (length got) count ≡ false
    → got ≡ take count content
full-take content count got pre room full =
    let e : length got ≡ count = ground arith in rw (← e) (sym pre)

end-take :
    (content : Bytes) (count k : ℕ) (got : Bytes)
    → take (length got) content ≡ got
    → length got < count
    → (length (read_once k content (length got) (count - length got)) == 0) ≡ true
    → got ≡ take count content
end-take content count k got pre room e =
    let whole = read_once-end k (count - length got) content got pre (omega arith) (ground arith) in
    sym whole ∙ sym (take-all count content (omega (arith, ap (length {A = ℕ}) whole)))

-- A read loop that is done has the first `count` bytes of the file, or all of a shorter one.
pub read_full-take :
    (rs : List ReadReply) (content : Bytes) (count : ℕ) (got : Bytes)
    → take (length got) content ≡ got
    → length got ≤ count
    → (read_full content count got rs).status ≡ done
    → (read_full content count got rs).received ≡ take count content
unfolding read_full
read_full-take [] content count got pre room e = elim (Bool-cases (ltb (length got) count)) [
  | inl more ↦ cc (rw more at e)
  | inr full ↦ full-take content count got pre room full
]
read_full-take (gives k ∷ rs) content count got pre room e =
    elim (Bool-cases (ltb (length got) count)) [
      | inl more ↦
          elim (Bool-cases (length (read_once k content (length got) (count - length got)) == 0)) [
            | inl eof ↦ rw (more, eof) (end-take content count k got pre (ltb→lt _ _ more) eof)
            | inr some_read ↦
                let chunk = read_once k content (length got) (count - length got) in
                rw (more, some_read)
                  (read_full-take rs content count (got ++ chunk)
                    (read_once-prefix k (count - length got) content got pre)
                    (omega (
                      arith,
                      length-append {0} got chunk,
                      length-take {0} (min (suc k) (count - length got))
                          (drop (length got) content),
                    ))
                    (rw (more, some_read) at e))
          ]
      | inr full ↦ rw full (full-take content count got pre room full)
    ]
read_full-take (ReadReply.interrupted ∷ rs) content count got pre room e =
    elim (Bool-cases (ltb (length got) count)) [
      | inl more ↦ rw more (read_full-take rs content count got pre room (rw more at e))
      | inr full ↦ rw full (full-take content count got pre room full)
    ]
read_full-take (ReadReply.failed x ∷ rs) content count got pre room e =
    elim (Bool-cases (ltb (length got) count)) [
      | inl more ↦ cc (rw more at e)
      | inr full ↦ full-take content count got pre room full
    ]

-- The argument of `usleep` does not wrap round for the delays that `-d` accepts.
pub usleep_arg-exact :
    (delay_ms self : ℕ)
    → delay_ms ≤ max_delay_ms
    → usleep_arg delay_ms self ≡ (delay_ms + self % 17) * 1000
unfolding usleep_arg
usleep_arg-exact delay_ms self h = omega arith
