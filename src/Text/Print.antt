-- ===== src/Text/Print.antt =====
-- The decimal print of a number, as `%jd`, `%d` and `%ld` write one that is not negative.
use unix_tasks.Prelude.{
  ℕ, zero, suc, ◌+◌, ◌/◌, ◌%◌, ◌^◌, ◌≤◌, ◌<◌, ◌≡◌, ◌≢◌, [], ◌∷◌, arith, ltb, if◌then◌else◌, ap, ◌∙◌,
  length, Bytes, Bool-cases, inl, inr, ltb→lt, lt→ltb,
}
use native.Mathlib.Nat.{pow-suc}
use unix_tasks.Text.Digits.{Digits, value_onto, value}

-- The last digit stands in front of `acc`; `fuel` above the number is enough.
print_onto : ℕ → ℕ → Bytes → Bytes
print_onto zero n acc = acc
print_onto (suc fuel) n acc =
    let more = print_onto fuel (n / 10) ((n % 10 + b'0') ∷ acc) in
    if ltb n 10 then (n % 10 + b'0') ∷ acc else more

unfoldable pub print : ℕ → Bytes
unfolding print_onto
print n = print_onto (suc n) n []

value_onto-print_onto :
    (fuel n : ℕ) (acc : Bytes) → n < fuel → value_onto 0 (print_onto fuel n acc) ≡ value_onto n acc
unfolding print_onto value_onto
value_onto-print_onto zero n acc h = elim h [ ]
value_onto-print_onto (suc fuel) n acc h = elim (Bool-cases (ltb n 10)) [
  | inl small ↦ rw small (ap (λ k. value_onto k acc) (omega (arith, ltb→lt n 10 small)))
  | inr big ↦ rw big (
      value_onto-print_onto fuel (n / 10) _ (ground arith)
      ∙ ap (λ k. value_onto k acc) (omega arith))
]

pub value-print : (n : ℕ) → value (print n) ≡ n
unfolding print value_onto
value-print n = value_onto-print_onto (suc n) n [] (omega arith)

Digits-print_onto : (fuel n : ℕ) (acc : Bytes) → Digits acc → Digits (print_onto fuel n acc)
unfolding print_onto
Digits-print_onto zero n acc d = d
Digits-print_onto (suc fuel) n acc d = elim (Bool-cases (ltb n 10)) [
  | inl small ↦ rw small (ground arith, d)
  | inr big ↦ rw big (Digits-print_onto fuel (n / 10) _ (ground arith, d))
]

pub Digits-print : (n : ℕ) → Digits (print n)
unfolding print
Digits-print n = Digits-print_onto (suc n) n [] tt

tenth : (k n : ℕ) → n < 10 ^ suc (suc k) → n / 10 < 10 ^ suc k
tenth k n h = omega (arith, pow-suc 10 (suc k))

length-print_onto :
    (k fuel n : ℕ) (acc : Bytes)
    → n < 10 ^ suc k
    → length (print_onto fuel n acc) ≤ suc k + length acc
unfolding print_onto
length-print_onto k zero n acc h = omega arith
length-print_onto zero (suc fuel) n acc h = rw (lt→ltb n 10 h) (omega arith)
length-print_onto (suc k) (suc fuel) n acc h = elim (Bool-cases (ltb n 10)) [
  | inl small ↦ rw small (omega arith)
  | inr big ↦
      rw big
        (omega (arith, length-print_onto k fuel (n / 10) ((n % 10 + b'0') ∷ acc) (tenth k n h)))
]

-- A number below 10^(k+1) prints in at most k+1 bytes.
pub length-print : (k n : ℕ) → n < 10 ^ suc k → length (print n) ≤ suc k
unfolding print
length-print k n h = omega (arith, length-print_onto k (suc n) n [] h)

pub print-ne-nil : (n : ℕ) → print n ≢ []
unfolding print value_onto
print-ne-nil zero e = cc
print-ne-nil (suc n) e = omega (arith, value-print (suc n), ap (value_onto 0) e)
