-- ===== src/PidFile/Decimal.antt =====
-- A number that was written is the number that is read.
use shadyurl.Common.{
  ℕ, zero, suc, ◌+◌, ◌-◌, ◌*◌, ◌/◌, ◌%◌, ◌≤◌, ◌<◌, ◌≡◌, ap, ◌∙◌, [], ◌∷◌, ◌++◌, Bytes, ltb, arith,
  Bool-cases, inl, inr, All, All-append,
}
use shadyurl.PidFile.{
  ℤ, pos, int_max, digits_value, positive, number, read_int, decimal_from, decimal,
}

abbrev IsDigit : ℕ → Type 0
IsDigit c = (48 ≤ c) × (c ≤ 57)

digits_value-append :
    (value c : ℕ) (s : Bytes)
    → All IsDigit s
    → IsDigit c
    → digits_value value (s ++ c ∷ []) ≡ digits_value value s * 10 + (c - 48)
unfolding digits_value
digits_value-append value c [] h d = ground arith
digits_value-append value c (x ∷ s) (e, h) d =
    ground (arith, digits_value-append (value * 10 + (x - 48)) c s h d)

decimal_from-IsDigit : (fuel n : ℕ) → All IsDigit (decimal_from fuel n)
unfolding decimal_from
decimal_from-IsDigit zero n = tt
decimal_from-IsDigit (suc fuel) n = elim (Bool-cases (ltb n 10)) [
  | inl e ↦ rw e (ground (arith, e), tt)
  | inr e ↦ rw e (
      All-append IsDigit (decimal_from fuel (n / 10)) ((48 + n % 10) ∷ [])
        (decimal_from-IsDigit fuel (n / 10)) (omega arith, tt))
]

digits_value-decimal : (fuel n : ℕ) → n < fuel → digits_value 0 (decimal_from fuel n) ≡ n
unfolding decimal_from digits_value
digits_value-decimal zero n h = absurd (omega arith)
digits_value-decimal (suc fuel) n h = elim (Bool-cases (ltb n 10)) [
  | inl e ↦ rw e (ground (arith, e))
  | inr e ↦ rw e (
      digits_value-append 0 (48 + n % 10) (decimal_from fuel (n / 10))
        (decimal_from-IsDigit fuel (n / 10)) (omega arith)
      ∙ ground (arith, e, digits_value-decimal fuel (n / 10)))
]

-- What is written begins with a digit.
abbrev Leads : Bytes → Type 0
Leads [] = ⊥
Leads (c ∷ s) = IsDigit c

Leads-append : (s t : Bytes) → Leads s → Leads (s ++ t)
Leads-append [] t h = absurd h
Leads-append (c ∷ s) t h = h

decimal_from-Leads : (fuel n : ℕ) → n < fuel → Leads (decimal_from fuel n)
unfolding decimal_from
decimal_from-Leads zero n h = absurd (omega arith)
decimal_from-Leads (suc fuel) n h = elim (Bool-cases (ltb n 10)) [
  | inl e ↦ rw e (ground (arith, e))
  | inr e ↦ rw e (
      Leads-append (decimal_from fuel (n / 10)) ((48 + n % 10) ∷ [])
        (decimal_from-Leads fuel (n / 10) (ground (arith, e))))
]

read_int-Leads :
    (before : ℤ) (s : Bytes) → Leads s → read_int before s ≡ positive (digits_value 0 s)
unfolding read_int number
read_int-Leads before [] h = absurd h
read_int-Leads before (c ∷ s) h = ground arith

-- A number in the range of `int` that was written is read back, whatever the variable held.
pub read_int-decimal : (before : ℤ) (n : ℕ) → n ≤ int_max → read_int before (decimal n) ≡ pos n
unfolding decimal
read_int-decimal before n h =
    read_int-Leads before (decimal_from (suc n) n) (decimal_from-Leads (suc n) n (omega arith))
    ∙ ap positive (digits_value-decimal (suc n) n (omega arith))
    ∙ ground arith
