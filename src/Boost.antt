-- ===== src/Boost.antt =====
-- What the program takes from Boost.StringAlgo (`boost::split`, `trim_left`, `trim_right`,
-- `algorithm::join`, `iequals`), which is not in the repository: a parameter with the documented
-- behaviour, and what follows from that behaviour alone.
pub mod Split
pub mod Trim
pub mod Reference
use shadyurl.Common.{
  ℕ, ◌≡◌, ◌≢◌, ◌↔◌, Bool, true, false, ◌&&◌, List, [], ◌∷◌, ◌++◌, Bytes, All, Lacks, is_space, leb,
  ◌+◌, if◌then◌else◌,
}

abbrev pub IsBlank : Bytes → Type 0
IsBlank = All (λ c. is_space c ≡ true)

abbrev pub starts_blank : Bytes → Bool
starts_blank [] = false
starts_blank (c ∷ _) = is_space c

-- The parts with a delimiter between each two.
abbrev pub joined : Bytes → List Bytes → Bytes
joined d [] = []
joined d (p ∷ []) = p
joined d (p ∷ q ∷ ps) = p ++ (d ++ joined d (q ∷ ps))

-- `std::tolower` in the "C" locale.
abbrev pub to_lower : ℕ → ℕ
to_lower c = if leb b'A' c && leb c b'Z' then c + 32 else c

abbrev pub lower : Bytes → Bytes
lower [] = []
lower (c ∷ s) = to_lower c ∷ lower s

pub record StringAlgo : Type 0 where
  -- `split(out, s, is_any_of(d))`, with adjacent delimiters not compressed
  pub split : ℕ → Bytes → List Bytes
  pub split_joined : (d : ℕ) (s : Bytes) → joined (d ∷ []) (split d s) ≡ s
  pub split_lacks : (d : ℕ) (s : Bytes) → All (Lacks d) (split d s)
  pub split_some : (d : ℕ) (s : Bytes) → split d s ≢ []
  pub trim_left : Bytes → Bytes
  pub trim_left_cut : (s : Bytes) → (pre : Bytes) × IsBlank pre × (s ≡ pre ++ trim_left s)
  pub trim_left_head : (s : Bytes) → starts_blank (trim_left s) ≡ false
  pub trim_right : Bytes → Bytes
  pub trim_right_cut : (s : Bytes) → (post : Bytes) × IsBlank post × (s ≡ trim_right s ++ post)
  pub join : List Bytes → Bytes → Bytes
  pub join_joined : (ps : List Bytes) (sep : Bytes) → join ps sep ≡ joined sep ps
  pub iequals : Bytes → Bytes → Bool
  pub iequals_iff : (a b : Bytes) → (iequals a b ≡ true) ↔ (lower a ≡ lower b)
