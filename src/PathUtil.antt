-- ===== src/PathUtil.antt =====
-- src/path.cpp, as it is built where BOOST_MSVC is not defined.
pub mod Confined
pub mod Read
use shadyurl.Common.{
  ℕ, suc, ◌-◌, Bool, true, false, Option, none, some, List, [], ◌∷◌, ◌++◌, Bytes, ◌==◌,
  if◌then◌else◌, length, take, drop, c_str,
}
use shadyurl.Mime.{MimeTypeMap, find_filename}

-- `rfind(c)`: the last position that holds the byte.
unfoldable pub rfind : ℕ → Bytes → Option ℕ
rfind c [] = none
rfind c (x ∷ s) = elim (rfind c s) [
  | some i ↦ some (suc i)
  | none ↦ if x == c then some 0 else none
]

-- `filename.data()` runs to the NUL that ends the path.
unfoldable pub get_mime_type : Bytes → MimeTypeMap → Bytes
unfolding rfind c_str find_filename
get_mime_type path mtm =
    find_filename mtm (c_str (elim (rfind b'/' path) [ none ↦ path | some pos ↦ drop pos path ]))

abbrev pub back : Bytes → ℕ
back [] = 0
back (c ∷ []) = c
back (c ∷ d ∷ s) = back (d ∷ s)

-- `if(result.back() == '/') result.resize(result.size() - 1);`
abbrev pub without_slash : Bytes → Bytes
without_slash base = if back base == b'/' then take (length base - 1) base else base

unfoldable pub path_cat : Bytes → Bytes → Bytes
path_cat [] path = path
path_cat (c ∷ base) path = without_slash (c ∷ base) ++ path
