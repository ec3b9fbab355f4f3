-- ===== src/Server/Flush.antt =====
-- What goes out over a socket is the queue of the client, in order.
use unix_tasks.Prelude.{
  ℕ, zero, suc, ◌+◌, ◌≡◌, refl, sym, ap, ◌∙◌, List, [], ◌∷◌, ◌++◌, append_assoc, arith, ◌==◌, ltb,
  length, take, drop, take-append-drop, drop-all, Bytes, Bool-cases, inl, inr,
}
use unix_tasks.Server.Client.{
  Client, pending, SendReply, takes, takes_none, would_block, broken, flush_end,
  flush_client_output,
}

drop-nil : (n : ℕ) → drop {A = ℕ} n [] ≡ []
drop-nil zero = refl
drop-nil (suc n) = refl

drop-add : (m n : ℕ) (xs : Bytes) → drop (m + n) xs ≡ drop n (drop m xs)
drop-add zero n xs = ap (λ k. drop k xs) (omega arith)
drop-add (suc m) n [] = drop-nil (suc m + n) ∙ sym (drop-nil n)
drop-add (suc m) n (x ∷ xs) =
    let e : suc m + n ≡ suc (m + n) = omega arith in rw e (drop-add m n xs)

drop-length-take : (n : ℕ) (xs : Bytes) → drop (length (take n xs)) xs ≡ drop n xs
drop-length-take zero xs = refl
drop-length-take (suc n) [] = refl
drop-length-take (suc n) (x ∷ xs) = drop-length-take n xs

flush_end-pending : (c : Client) → pending (flush_end c) ≡ pending c
unfolding flush_end
flush_end-pending c = elim (Bool-cases (c.out_off == length c.outbuf)) [
  | inl all ↦ rw all (sym (drop-all c.out_off c.outbuf (ground arith)))
  | inr some_left ↦ rw some_left
]

-- Taking bytes off the queue moves the offset over them.
take-pending :
    (c : Client) (k : ℕ)
    → take (suc k) (pending c) ++ drop (c.out_off + length (take (suc k) (pending c))) c.outbuf
      ≡ pending c
take-pending c k =
    rw (drop-add c.out_off)
      (rw (drop-length-take (suc k) (pending c)) (take-append-drop (suc k) (pending c)))

-- What `flush_client_output` sent, followed by what is still queued, is what was queued: nothing is
-- lost, repeated or reordered, on short writes and on errors too.
pub flush-pending :
    (rs : List SendReply) (c : Client)
    → (flush_client_output c rs).sent ++ pending (flush_client_output c rs).client ≡ pending c
unfolding flush_client_output
flush-pending [] c = elim (Bool-cases (ltb c.out_off (length c.outbuf))) [
  | inl more ↦ rw more refl
  | inr over ↦ rw over (flush_end-pending c)
]
flush-pending (takes k ∷ rs) c = elim (Bool-cases (ltb c.out_off (length c.outbuf))) [
  | inl more ↦
      let now = take (suc k) (pending c) in
      let c' = record c { out_off = c.out_off + length now } in
      rw more (append_assoc now _ _ ∙ ap (λ r. now ++ r) (flush-pending rs c') ∙ take-pending c k)
  | inr over ↦ rw over (flush_end-pending c)
]
flush-pending (would_block ∷ rs) c = elim (Bool-cases (ltb c.out_off (length c.outbuf))) [
  | inl more ↦ rw more refl
  | inr over ↦ rw over (flush_end-pending c)
]
flush-pending (takes_none ∷ rs) c = elim (Bool-cases (ltb c.out_off (length c.outbuf))) [
  | inl more ↦ rw more refl
  | inr over ↦ rw over (flush_end-pending c)
]
flush-pending (broken ∷ rs) c = elim (Bool-cases (ltb c.out_off (length c.outbuf))) [
  | inl more ↦ rw more refl
  | inr over ↦ rw over (flush_end-pending c)
]
