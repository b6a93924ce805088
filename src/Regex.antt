-- ===== src/Regex.antt =====
-- The part of `std::regex` (ECMAScript) that the routing table uses. Every expression of the table
-- is anchored by `^` and `$`, so a search succeeds exactly when the whole text matches; the matcher
-- takes one byte at a time and goes on with what the rest has to match.
pub mod Language
use shadyurl.Common.{ℕ, Bool, true, false, not, ◌&&◌, ◌||◌, [], ◌∷◌, Bytes, ◌==◌, if◌then◌else◌}

pub data Regex : Type 0 where
  fail eps any : Regex
  chr : ℕ → Regex
  not_chr : ℕ → Regex
  seq : Regex → Regex → Regex
  alt : Regex → Regex → Regex
  star : Regex → Regex

-- `.` matches every byte but a line terminator.
abbrev pub is_any : ℕ → Bool
is_any c = not (c == 10 || c == 13)

unfoldable pub nullable : Regex → Bool
nullable fail = false
nullable eps = true
nullable any = false
nullable (chr c) = false
nullable (not_chr c) = false
nullable (seq r q) = nullable r && nullable q
nullable (alt r q) = nullable r || nullable q
nullable (star r) = true

-- What is left to match behind the byte `c`.
unfoldable pub deriv : ℕ → Regex → Regex
deriv c fail = fail
deriv c eps = fail
deriv c any = if is_any c then eps else fail
deriv c (chr d) = if c == d then eps else fail
deriv c (not_chr d) = if c == d then fail else eps
deriv c (seq r q) =
    let r' = deriv c r in let q' = deriv c q in if nullable r then alt (seq r' q) q' else seq r' q
deriv c (alt r q) = alt (deriv c r) (deriv c q)
deriv c (star r) = seq (deriv c r) (star r)

unfoldable pub full_match : Regex → Bytes → Bool
unfolding nullable deriv
full_match r [] = nullable r
full_match r (c ∷ s) = full_match (deriv c r) s
