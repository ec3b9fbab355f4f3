-- ===== src/Text/Digits.antt =====
-- Runs of ASCII digits and the number that they spell.
use unix_tasks.Prelude.{
  ℕ, suc, ◌+◌, ◌-◌, ◌*◌, ◌≤◌, ◌≡◌, refl, Bool, true, false, ◌&&◌, [], ◌∷◌, ◌++◌, arith, leb,
  if◌then◌else◌, length, Bytes, take, drop, Bool-cases, inl, inr,
}

abbrev pub is_digit : ℕ → Bool
is_digit c = leb b'0' c && leb c b'9'

-- Every byte is a digit.
abbrev pub Digits : Bytes → Type 0
Digits [] = Unit
Digits (c ∷ cs) = (is_digit c ≡ true) × Digits cs

-- The number that digits spell, after a number `acc` already read.
unfoldable pub value_onto : ℕ → Bytes → ℕ
value_onto acc [] = acc
value_onto acc (c ∷ cs) = value_onto (acc * 10 + (c - b'0')) cs

abbrev pub value : Bytes → ℕ
value = value_onto 0

pub le-value_onto : (acc : ℕ) (cs : Bytes) → acc ≤ value_onto acc cs
unfolding value_onto
le-value_onto acc [] = omega arith
le-value_onto acc (c ∷ cs) = omega (arith, le-value_onto (acc * 10 + (c - b'0')) cs)

-- How many digits the bytes begin with.
unfoldable pub digit_run : Bytes → ℕ
digit_run [] = 0
digit_run (c ∷ cs) = if is_digit c then suc (digit_run cs) else 0

-- What follows a run of digits is no digit.
abbrev pub NoDigitFirst : Bytes → Type 0
NoDigitFirst [] = Unit
NoDigitFirst (c ∷ cs) = is_digit c ≡ false

pub digit_run-append :
    (ds rest : Bytes) → Digits ds → NoDigitFirst rest → digit_run (ds ++ rest) ≡ length ds
unfolding digit_run
digit_run-append [] [] d n = refl
digit_run-append [] (c ∷ cs) d n = ground arith
digit_run-append (c ∷ ds) rest d n = ground (arith, digit_run-append ds rest d.1 n)

pub digit_run-le : (cs : Bytes) → digit_run cs ≤ length cs
unfolding digit_run
digit_run-le [] = omega arith
digit_run-le (c ∷ cs) = ground (arith, digit_run-le cs)

pub take-digit_run : (cs : Bytes) → Digits (take (digit_run cs) cs)
unfolding digit_run
take-digit_run [] = tt
take-digit_run (c ∷ cs) = elim (Bool-cases (is_digit c)) [
  | inl h ↦ rw h (h, take-digit_run cs)
  | inr h ↦ rw h tt
]

pub drop-digit_run : (cs : Bytes) → NoDigitFirst (drop (digit_run cs) cs)
unfolding digit_run
drop-digit_run [] = tt
drop-digit_run (c ∷ cs) = elim (Bool-cases (is_digit c)) [
  | inl h ↦ rw h (drop-digit_run cs)
  | inr h ↦ rw h h
]
