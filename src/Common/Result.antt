-- ===== src/Common/Result.antt =====
-- Calls that may throw.
use shadyurl.Common.Strings.{Bytes}

pub data Exception : Type 0 where
  length_error : Bytes → Exception
  system_error : Exception

pub data Result {ℓ} (A : Type ℓ) : Type ℓ where
  ok : A → Result A
  thrown : Exception → Result A

infixl 5 ◌>>=◌
abbrev pub ◌>>=◌ {ℓ κ} : {A : Type ℓ} {B : Type κ} → Result A → (A → Result B) → Result B
ok a >>= f = f a
thrown e >>= f = thrown e
