-- ===== src/Boost/Reference.antt =====
-- An implementation of the parameter, which shows that its laws can hold together.
use shadyurl.Common.{
  ℕ, ◌≡◌, ◌≢◌, refl, ap, false, List, [], ◌∷◌, ◌++◌, Bytes, All, Lacks, is_space, if◌then◌else◌,
  arith, bytes_eq, bytes_eq_iff, ◌==◌, Bool-cases, inl, inr,
}
use shadyurl.Boost.{StringAlgo, IsBlank, starts_blank, joined, lower}
use shadyurl.Boost.Split.{split_on, split_on-ne-nil, cons_head}
use shadyurl.Boost.Trim.{drop_blanks}

joined-cons_head :
    (d c : ℕ) (ps : List Bytes) → joined (d ∷ []) (cons_head c ps) ≡ c ∷ joined (d ∷ []) ps
joined-cons_head d c [] = refl
joined-cons_head d c (p ∷ []) = refl
joined-cons_head d c (p ∷ q ∷ ps) = refl

joined-nil_head :
    (d : ℕ) (ps : List Bytes) → ps ≢ [] → joined (d ∷ []) ([] ∷ ps) ≡ d ∷ joined (d ∷ []) ps
joined-nil_head d [] h = absurd (h refl)
joined-nil_head d (p ∷ ps) h = refl

pub joined-split_on : (d : ℕ) (s : Bytes) → joined (d ∷ []) (split_on d s) ≡ s
unfolding split_on
joined-split_on d [] = refl
joined-split_on d (c ∷ s) = ground (
  arith,
  joined-split_on d s,
  joined-cons_head d c (split_on d s),
  joined-nil_head d (split_on d s) (split_on-ne-nil d s),
)

cons_head-Lacks :
    (d c : ℕ) (ps : List Bytes)
    → (c == d) ≡ false
    → All (Lacks d) ps
    → All (Lacks d) (cons_head c ps)
cons_head-Lacks d c [] e h = ground arith
cons_head-Lacks d c (p ∷ ps) e h = ground arith

pub split_on-Lacks : (d : ℕ) (s : Bytes) → All (Lacks d) (split_on d s)
unfolding split_on
split_on-Lacks d [] = (tt, tt)
split_on-Lacks d (c ∷ s) = elim (Bool-cases (c == d)) [
  | inl e ↦ rw e (tt, split_on-Lacks d s)
  | inr e ↦ rw e (cons_head-Lacks d c (split_on d s) e (split_on-Lacks d s))
]

pub drop_blanks_cut : (s : Bytes) → (pre : Bytes) × IsBlank pre × (s ≡ pre ++ drop_blanks s)
unfolding drop_blanks
drop_blanks_cut [] = ([], tt, refl)
drop_blanks_cut (c ∷ s) = elim (Bool-cases (is_space c)) [
  | inl e ↦ let (pre, blank, cut) = drop_blanks_cut s in rw e (c ∷ pre, (e, blank), ap (◌∷◌ c) cut)
  | inr e ↦ rw e ([], tt, refl)
]

pub drop_blanks_head : (s : Bytes) → starts_blank (drop_blanks s) ≡ false
unfolding drop_blanks
drop_blanks_head [] = refl
drop_blanks_head (c ∷ s) = ground (arith, drop_blanks_head s)

-- Keeps what stands before the trailing blanks.
pub keep_unless_blank : ℕ → Bytes → Bytes
keep_unless_blank c [] = if is_space c then [] else c ∷ []
keep_unless_blank c (x ∷ s) = c ∷ x ∷ s

unfoldable pub drop_blanks_end : Bytes → Bytes
unfolding keep_unless_blank
drop_blanks_end [] = []
drop_blanks_end (c ∷ s) = keep_unless_blank c (drop_blanks_end s)

keep_unless_blank_cut :
    (c : ℕ) (s t : Bytes)
    → ((post : Bytes) × IsBlank post × (s ≡ t ++ post))
    → (post : Bytes) × IsBlank post × (c ∷ s ≡ keep_unless_blank c t ++ post)
unfolding keep_unless_blank
keep_unless_blank_cut c s [] (post, blank, cut) = elim (Bool-cases (is_space c)) [
  | inl e ↦ rw e (c ∷ post, (e, blank), ap (◌∷◌ c) cut)
  | inr e ↦ rw e (post, blank, ap (◌∷◌ c) cut)
]
keep_unless_blank_cut c s (x ∷ t) (post, blank, cut) = (post, blank, ap (◌∷◌ c) cut)

pub drop_blanks_end_cut :
    (s : Bytes) → (post : Bytes) × IsBlank post × (s ≡ drop_blanks_end s ++ post)
unfolding drop_blanks_end
drop_blanks_end_cut [] = ([], tt, refl)
drop_blanks_end_cut (c ∷ s) = keep_unless_blank_cut c s (drop_blanks_end s) (drop_blanks_end_cut s)

abbrev pub reference : StringAlgo
reference = record {
  split = split_on;
  split_joined = joined-split_on;
  split_lacks = split_on-Lacks;
  split_some = split_on-ne-nil;
  trim_left = drop_blanks;
  trim_left_cut = drop_blanks_cut;
  trim_left_head = drop_blanks_head;
  trim_right = drop_blanks_end;
  trim_right_cut = drop_blanks_end_cut;
  join = λ ps sep. joined sep ps;
  join_joined = λ ps sep. refl;
  iequals = λ a b. bytes_eq (lower a) (lower b);
  iequals_iff = λ a b. bytes_eq_iff (lower a) (lower b);
}
