-- ===== src/PidFile.antt =====
-- src/daemon.cpp: the number in the PID file, as `std::ostream << int` writes it and
-- `std::istream >> int` reads it.
pub mod Decimal
use shadyurl.Common.{
  ℕ, zero, suc, ◌+◌, ◌-◌, ◌*◌, ◌/◌, ◌%◌, ◌^◌, ◌≡◌, Bool, true, false, ◌&&◌, List, [], ◌∷◌, ◌++◌,
  Bytes, ◌==◌, leb, ltb, if◌then◌else◌, is_space,
}

-- `int`; `negsuc n` is -(n + 1).
pub data ℤ : Type 0 where
  pos : ℕ → ℤ
  negsuc : ℕ → ℤ

abbrev pub int_max : ℕ
int_max = 2 ^ 31 - 1

abbrev pub is_decimal : ℕ → Bool
is_decimal c = leb b'0' c && leb c b'9'

-- The value of the digits in front, onto a value read before.
unfoldable pub digits_value : ℕ → Bytes → ℕ
digits_value value [] = value
digits_value value (c ∷ s) =
    let later = digits_value (value * 10 + (c - b'0')) s in if is_decimal c then later else value

-- A value out of range becomes the nearest one in range.
abbrev pub positive : ℕ → ℤ
positive n = pos (if ltb int_max n then int_max else n)

abbrev pub negative : ℕ → ℤ
negative zero = pos 0
negative (suc n) = negsuc (if ltb int_max n then int_max else n)

-- Behind the blanks: a sign, if there is one, and digits; no digit is read as 0.
unfoldable pub number : ℕ → Bytes → ℤ
unfolding digits_value
number c s =
    if c == b'-'
    then negative (digits_value 0 s)
    else if c == b'+'
    then positive (digits_value 0 s)
    else positive (digits_value 0 (c ∷ s))

-- `pid_file >> pid`: where there is nothing but blanks, `pid` keeps the value that it had.
unfoldable pub read_int : ℤ → Bytes → ℤ
unfolding number
read_int before [] = before
read_int before (c ∷ s) = let later = read_int before s in if is_space c then later else number c s

-- The decimal digits, the last one first cut off; the fuel bounds their number.
unfoldable pub decimal_from : ℕ → ℕ → Bytes
decimal_from zero n = []
decimal_from (suc fuel) n =
    let front = decimal_from fuel (n / 10) in
    if ltb n 10 then (b'0' + n) ∷ [] else front ++ (b'0' + n % 10) ∷ []

-- `pid_file << pid` for a number that is not negative.
unfoldable pub decimal : ℕ → Bytes
unfolding decimal_from
decimal n = decimal_from (suc n) n
