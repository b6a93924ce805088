-- ===== src/Boost/Split.antt =====
-- The documented laws of `boost::split` leave one function: the one that cuts at each delimiter.
use shadyurl.Common.{
  ℕ, ◌+◌, ◌≡◌, ◌≢◌, refl, sym, ap, ◌∙◌, List, [], ◌∷◌, ◌++◌, Bytes, All, Lacks, ◌==◌, if◌then◌else◌,
  count, length, arith,
}
use shadyurl.Boost.{StringAlgo, joined}

abbrev pub cons_head : ℕ → List Bytes → List Bytes
cons_head c [] = (c ∷ []) ∷ []
cons_head c (p ∷ ps) = (c ∷ p) ∷ ps

unfoldable pub split_on : ℕ → Bytes → List Bytes
split_on d [] = [] ∷ []
split_on d (c ∷ s) = let rest = split_on d s in if c == d then [] ∷ rest else cons_head c rest

pub split_on_of_Lacks : (d : ℕ) (p : Bytes) → Lacks d p → split_on d p ≡ p ∷ []
unfolding split_on
split_on_of_Lacks d [] h = refl
split_on_of_Lacks d (c ∷ p) h = ground (arith, split_on_of_Lacks d p)

pub split_on-append : (d : ℕ) (p s : Bytes) → Lacks d p → split_on d (p ++ d ∷ s) ≡ p ∷ split_on d s
unfolding split_on
split_on-append d [] s h = ground arith
split_on-append d (c ∷ p) s h = ground (arith, split_on-append d p s)

pub split_on-joined :
    (d : ℕ) (ps : List Bytes) → ps ≢ [] → All (Lacks d) ps → split_on d (joined (d ∷ []) ps) ≡ ps
split_on-joined d [] h k = absurd (h refl)
split_on-joined d (p ∷ []) h k = split_on_of_Lacks d p k.0
split_on-joined d (p ∷ q ∷ ps) h k =
    split_on-append d p (joined (d ∷ []) (q ∷ ps)) k.0
    ∙ ap (◌∷◌ p) (split_on-joined d (q ∷ ps) (cc) k.1)

length-cons_head : (c : ℕ) (ps : List Bytes) → ps ≢ [] → length (cons_head c ps) ≡ length ps
length-cons_head c [] h = absurd (h refl)
length-cons_head c (p ∷ ps) h = refl

cons_head-ne-nil : (c : ℕ) (ps : List Bytes) → cons_head c ps ≢ []
cons_head-ne-nil c [] = cc
cons_head-ne-nil c (p ∷ ps) = cc

pub split_on-ne-nil : (d : ℕ) (s : Bytes) → split_on d s ≢ []
unfolding split_on
split_on-ne-nil d [] = cc
split_on-ne-nil d (c ∷ s) = ground (arith, cons_head-ne-nil c (split_on d s))

-- One part more than there are delimiters.
pub length-split_on : (d : ℕ) (s : Bytes) → length (split_on d s) ≡ count d s + 1
unfolding split_on count
length-split_on d [] = refl
length-split_on d (c ∷ s) =
    ground (arith, length-split_on d s, length-cons_head c (split_on d s) (split_on-ne-nil d s))

module _ (b : StringAlgo) where
  pub split-split_on : (d : ℕ) (s : Bytes) → b.split d s ≡ split_on d s
  split-split_on d s =
      sym (split_on-joined d (b.split d s) (b.split_some d s) (b.split_lacks d s))
      ∙ ap (split_on d) (b.split_joined d s)
