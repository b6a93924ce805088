-- ===== src/ParseQs.antt =====
-- src/parseqs.cpp: query strings and form bodies. `boost::split` is the parameter of Boost.antt;
-- a `char` is its byte value.
pub mod Unquote
pub mod Query
pub mod Limits
use Prim.Native.Nat.{bit_or}
use shadyurl.Common.{
  ℕ, zero, suc, ◌+◌, ◌-◌, ◌*◌, ◌%◌, ◌^◌, Bool, true, false, not, ◌&&◌, ◌||◌, Option, none, some,
  List, [], ◌∷◌, ◌++◌, Bytes, codes, ◌==◌, leb, ltb, if◌then◌else◌, get_or, take, drop, empty, find,
  count, Dict, insert,
}
use shadyurl.Common.Result.{Result, ok, thrown, length_error}
use shadyurl.Boost.{StringAlgo, to_lower}

abbrev pub is_digit : ℕ → Bool
is_digit c = leb b'0' c && leb c b'9'

unfoldable pub is_hex : ℕ → Bool
is_hex c = is_digit c || ((leb b'a' c && leb c b'f') || (leb b'A' c && leb c b'F'))

-- The result is a `char`.
unfoldable pub from_hex : ℕ → ℕ
from_hex c = if is_digit c then c - b'0' else (to_lower c + 256 - b'a' + 10) % 256

-- `str.substr(0, pos)` and `str.substr(pos + 1)` around the first '='.
unfoldable pub split_by_eq : Bytes → Bytes × Bytes
split_by_eq str = elim (find b'=' str) [
  | some zero ↦ ([], str)
  | none ↦ (str, [])
  | some (suc p) ↦ (take (suc p) str, drop (suc (suc p)) str)
]

-- `i[n]` where `rest` stands behind `*i`. The text ends with the NUL of the `std::string` that it
-- is a view of.
abbrev pub at : Bytes → ℕ → ℕ
at rest n = get_or rest n 0

-- `i[1] && i[2]`
abbrev pub has_two : Bytes → Bool
has_two rest = not (at rest 0 == 0) && not (at rest 1 == 0)

-- `from_hex(i[1]) << 4 | from_hex(i[2])`, as a `char`.
unfoldable pub hex_pair : ℕ → ℕ → ℕ
unfolding from_hex
hex_pair a b = bit_or (from_hex a * 2 ^ 4) (from_hex b) % 256

-- What one round of the loop writes, at the byte `c` before `rest`.
unfoldable pub unquoted : ℕ → Bytes → Bytes
unfolding is_hex hex_pair
unquoted c rest =
    if c == b'%'
    then (if has_two rest
        then (if is_hex (at rest 0) && is_hex (at rest 1)
            then hex_pair (at rest 0) (at rest 1) ∷ []
            else [])
        else [])
    else if c == b'+'
    then b' ' ∷ []
    else c ∷ []

-- How many bytes more than one the round advances by.
unfoldable pub skipped : ℕ → Bytes → ℕ
skipped c rest = if c == b'%' then (if has_two rest then 2 else 0) else 0

-- The loop: the first argument counts the bytes that `i += 2` has left to pass over.
unfoldable pub unquote_from : ℕ → Bytes → Bytes
unfolding unquoted skipped
unquote_from k [] = []
unquote_from zero (c ∷ rest) = unquoted c rest ++ unquote_from (skipped c rest) rest
unquote_from (suc k) (c ∷ rest) = unquote_from k rest

unfoldable pub unquote : Bytes → Bytes
unfolding unquote_from
unquote str = unquote_from 0 str

-- The body of the loop over the parts of a query.
unfoldable pub store : Bytes → Dict Bytes → Dict Bytes
unfolding split_by_eq unquote insert
store kv qsm =
    if empty kv then qsm else (let (k, v) = split_by_eq kv in insert (unquote k) (unquote v) qsm)

unfoldable pub store_all : List Bytes → Dict Bytes → Dict Bytes
store_all [] qsm = qsm
store_all (kv ∷ qsv) qsm = store_all qsv (store kv qsm)

module _ (b : StringAlgo) where
  unfoldable pub parse_qsl : Bytes → ℕ → Result (Dict Bytes)
  parse_qsl qs maxparams =
      if ltb maxparams (count b'&' qs)
      then thrown (length_error (codes "maxparams exceeded"))
      else ok (store_all (b.split b'&' qs) [])

-- The default of `maxparams` in include/parseqs.hpp.
abbrev pub default_maxparams : ℕ
default_maxparams = 1000
