-- ===== src/Common/Strings.antt =====
-- Byte strings: `std::string` and `std::string_view` as lists of byte values, with the operations
-- of the standard library that the program uses.
use Prim.Native.Nat.{ℕ, suc}
use Prim.Native.Char.{code}
use Prim.Native.String.{String}
use mathlib.Core.Path.{◌≡◌, refl}
use mathlib.Core.Logic.{◌≢◌, ◌↔◌}
use mathlib.Core.Bool.{Bool, true, false, ◌&&◌, ◌||◌}
use mathlib.Core.Option.{Option, none, some}
use mathlib.Core.List.{List, [], ◌∷◌, ◌++◌}
use native.Mathlib.Omega.{arith}
use shadyurl.Common.Tests.{◌==◌, leb, if◌then◌else◌}
use shadyurl.Common.Lists.{length, All}

abbrev pub Bytes : Type 0
Bytes = List ℕ

-- The bytes of an ASCII literal.
abbrev pub codes : String → Bytes
codes String.[] = []
codes (String.◌∷◌ c s) = code c ∷ codes s

abbrev pub Lacks : ℕ → Bytes → Type 0
Lacks b = All (λ c. c ≢ b)

-- `operator==` of `std::string`.
unfoldable pub bytes_eq : Bytes → Bytes → Bool
bytes_eq [] [] = true
bytes_eq [] (_ ∷ _) = false
bytes_eq (_ ∷ _) [] = false
bytes_eq (a ∷ s) (b ∷ t) = a == b && bytes_eq s t

pub bytes_eq→eq : (s t : Bytes) → bytes_eq s t ≡ true → s ≡ t
unfolding bytes_eq
bytes_eq→eq [] [] h = refl
bytes_eq→eq [] (_ ∷ _) h = cc
bytes_eq→eq (_ ∷ _) [] h = cc
bytes_eq→eq (a ∷ s) (b ∷ t) h = ground (arith, bytes_eq→eq s t)

pub bytes_eq_refl : (s : Bytes) → bytes_eq s s ≡ true
unfolding bytes_eq
bytes_eq_refl [] = refl
bytes_eq_refl (a ∷ s) = ground (arith, bytes_eq_refl s)

pub bytes_eq_iff : (s t : Bytes) → (bytes_eq s t ≡ true) ↔ (s ≡ t)
bytes_eq_iff s t = (bytes_eq→eq s t, λ e. rw e (bytes_eq_refl t))

-- `empty()`.
abbrev pub empty : Bytes → Bool
empty [] = true
empty (_ ∷ _) = false

-- `find(c)`: the first position that holds the byte; `none` is `npos`.
unfoldable pub find : ℕ → Bytes → Option ℕ
find c [] = none
find c (x ∷ s) =
    let later : Option ℕ = elim (find c s) [ none ↦ none | some i ↦ some (suc i) ] in
    if x == c then some 0 else later

pub find_of_Lacks : (c : ℕ) (s : Bytes) → Lacks c s → find c s ≡ none
unfolding find
find_of_Lacks c [] h = refl
find_of_Lacks c (x ∷ s) h = ground (arith, find_of_Lacks c s)

pub find_first : (c : ℕ) (s t : Bytes) → Lacks c s → find c (s ++ c ∷ t) ≡ some (length s)
unfolding find
find_first c [] t h = ground arith
find_first c (x ∷ s) t h = ground (arith, find_first c s t)

-- `starts_with(prefix)`.
unfoldable pub starts_with : Bytes → Bytes → Bool
starts_with s [] = true
starts_with [] (_ ∷ _) = false
starts_with (x ∷ s) (p ∷ ps) = x == p && starts_with s ps

pub starts_with-append : (p s : Bytes) → starts_with (p ++ s) p ≡ true
unfolding starts_with
starts_with-append [] [] = refl
starts_with-append [] (x ∷ s) = refl
starts_with-append (x ∷ p) s = ground (arith, starts_with-append p s)

-- `find(pattern) != npos`.
unfoldable pub contains : Bytes → Bytes → Bool
unfolding starts_with
contains [] p = starts_with [] p
contains (x ∷ s) p = starts_with (x ∷ s) p || contains s p

-- `std::count`.
unfoldable pub count : ℕ → Bytes → ℕ
count c [] = 0
count c (x ∷ s) = let rest = count c s in if x == c then suc rest else rest

-- The bytes that a C string pointer to the text shows: those before the first NUL.
unfoldable pub c_str : Bytes → Bytes
c_str [] = []
c_str (x ∷ s) = let rest = c_str s in if x == 0 then [] else x ∷ rest

pub Lacks-append_inv : (b : ℕ) (s t : Bytes) → Lacks b (s ++ t) → Lacks b s × Lacks b t
Lacks-append_inv b [] t h = (tt, h)
Lacks-append_inv b (c ∷ s) t h = let (hs, ht) = Lacks-append_inv b s t h.1 in ((h.0, hs), ht)

pub c_str_of_Lacks : (s : Bytes) → Lacks 0 s → c_str s ≡ s
unfolding c_str
c_str_of_Lacks [] h = refl
c_str_of_Lacks (x ∷ s) h = ground (arith, c_str_of_Lacks s)

pub c_str-append : (s t : Bytes) → Lacks 0 s → c_str (s ++ t) ≡ s ++ c_str t
unfolding c_str
c_str-append [] t h = refl
c_str-append (x ∷ s) t h = ground (arith, c_str-append s t)

-- `std::isspace` in the "C" locale.
abbrev pub is_space : ℕ → Bool
is_space c = c == 32 || (leb 9 c && leb c 13)
