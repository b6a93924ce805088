-- ===== src/Regex/Language.antt =====
-- The language of a regular expression, and that the matcher decides it.
use shadyurl.Common.{
  ℕ, ◌≡◌, ◌≢◌, ◌⊎◌, ◌↔◌, inl, inr, refl, sym, ap, true, false, [], ◌∷◌, ◌++◌, Bytes, ◌==◌,
  if◌then◌else◌, arith, Bool-cases,
}
use shadyurl.Regex.{
  Regex, fail, eps, any, chr, not_chr, seq, alt, star, is_any, nullable, deriv, full_match,
}

-- Any number of pieces that satisfy `P`, none of them empty.
pub data Star (P : Bytes → Type 0) : Bytes → Type 0 where
  done : Star P []
  more : {s : Bytes} (c : ℕ) (u v : Bytes) → s ≡ c ∷ (u ++ v) → P (c ∷ u) → Star P v → Star P s

abbrev pub Matches : Regex → Bytes → Type 0
Matches fail s = ⊥
Matches eps s = s ≡ []
Matches any s = (c : ℕ) × (s ≡ c ∷ []) × (is_any c ≡ true)
Matches (chr d) s = s ≡ d ∷ []
Matches (not_chr d) s = (c : ℕ) × (s ≡ c ∷ []) × (c ≢ d)
Matches (seq r q) s = (u : Bytes) × (v : Bytes) × (s ≡ u ++ v) × Matches r u × Matches q v
Matches (alt r q) s = Matches r s ⊎ Matches q s
Matches (star r) s = Star (Matches r) s

nil-append_inv : (u v : Bytes) → [] ≡ u ++ v → (u ≡ []) × (v ≡ [])
nil-append_inv [] v e = (refl, sym e)
nil-append_inv (c ∷ u) v e = cc

nullable-Matches : (r : Regex) → nullable r ≡ true → Matches r []
unfolding nullable
nullable-Matches fail h = cc
nullable-Matches eps h = refl
nullable-Matches any h = cc
nullable-Matches (chr c) h = cc
nullable-Matches (not_chr c) h = cc
nullable-Matches (seq r q) h =
    ([], [], refl, nullable-Matches r (ground arith), nullable-Matches q (ground arith))
nullable-Matches (alt r q) h = elim (Bool-cases (nullable r)) [
  | inl e ↦ inl (nullable-Matches r e)
  | inr e ↦ inr (nullable-Matches q (rw e at h))
]
nullable-Matches (star r) h = done

Matches-nullable : (r : Regex) → Matches r [] → nullable r ≡ true
unfolding nullable
Matches-nullable fail h = absurd h
Matches-nullable eps h = refl
Matches-nullable any (c, e, h) = cc
Matches-nullable (chr c) h = cc
Matches-nullable (not_chr d) (c, e, h) = cc
Matches-nullable (seq r q) (u, v, e, h, k) =
    let (eu, ev) = nil-append_inv u v e in
    rw (Matches-nullable r (rw eu at h), Matches-nullable q (rw ev at k))
Matches-nullable (alt r q) (inl h) = rw (Matches-nullable r h)
Matches-nullable (alt r q) (inr h) = ground (arith, Matches-nullable q h)
Matches-nullable (star r) h = refl

module _ (c : ℕ) (r q : Regex) (s : Bytes) where
  seq_first :
      ((u : Bytes) → Matches (deriv c r) u → Matches r (c ∷ u))
      → Matches (seq (deriv c r) q) s
      → Matches (seq r q) (c ∷ s)
  seq_first step (u, v, e, m, n) = (c ∷ u, v, ap (◌∷◌ c) e, step u m, n)

  seq_either :
      nullable r ≡ true
      → ((u : Bytes) → Matches (deriv c r) u → Matches r (c ∷ u))
      → (Matches (deriv c q) s → Matches q (c ∷ s))
      → Matches (alt (seq (deriv c r) q) (deriv c q)) s
      → Matches (seq r q) (c ∷ s)
  seq_either e step step_q (inl m) = seq_first step m
  seq_either e step step_q (inr m) = ([], c ∷ s, refl, nullable-Matches r e, step_q m)

deriv-Matches : (c : ℕ) (r : Regex) (s : Bytes) → Matches (deriv c r) s → Matches r (c ∷ s)
unfolding deriv
deriv-Matches c fail s h = absurd h
deriv-Matches c eps s h = absurd h
deriv-Matches c any s h = elim (Bool-cases (is_any c)) [
  | inl e ↦ (c, ap (◌∷◌ c) (rw e at h), e)
  | inr e ↦ absurd (rw e at h)
]
deriv-Matches c (chr d) s h = elim (Bool-cases (c == d)) [
  | inl e ↦ let s_nil : s ≡ [] = (rw e at h) in let c_d : c ≡ d = ground arith in cc
  | inr e ↦ absurd (rw e at h)
]
deriv-Matches c (not_chr d) s h = elim (Bool-cases (c == d)) [
  | inl e ↦ absurd (rw e at h)
  | inr e ↦ (c, ap (◌∷◌ c) (rw e at h), ground arith)
]
deriv-Matches c (seq r q) s h = elim (Bool-cases (nullable r)) [
  | inl e ↦ seq_either c r q s e (deriv-Matches c r) (deriv-Matches c q s) (rw e at h)
  | inr e ↦ seq_first c r q s (deriv-Matches c r) (rw e at h)
]
deriv-Matches c (alt r q) s (inl h) = inl (deriv-Matches c r s h)
deriv-Matches c (alt r q) s (inr h) = inr (deriv-Matches c q s h)
deriv-Matches c (star r) s (u, v, e, m, n) = more c u v (ap (◌∷◌ c) e) (deriv-Matches c r u m) n

cons-append_inv :
    (c : ℕ) (s u v : Bytes)
    → c ∷ s ≡ u ++ v
    → ((u ≡ []) × (v ≡ c ∷ s)) ⊎ ((w : Bytes) × (u ≡ c ∷ w) × (s ≡ w ++ v))
cons-append_inv c s [] v e = inl (refl, sym e)
cons-append_inv c s (d ∷ u) v e = inr (u, cc, cc)

Star-inv :
    {P : Bytes → Type 0} (c : ℕ) (s : Bytes)
    → Star P (c ∷ s)
    → (u : Bytes) × (v : Bytes) × (s ≡ u ++ v) × P (c ∷ u) × Star P v
Star-inv {P} c s (more d u v e m n) = let same : d ≡ c = cc in (u, v, (cc), rw same at m, n)

seq_step :
    (c : ℕ) (r q : Regex) (s : Bytes)
    → Matches (seq (deriv c r) q) s
    → Matches (if nullable r then alt (seq (deriv c r) q) (deriv c q) else seq (deriv c r) q) s
seq_step c r q s h = elim (Bool-cases (nullable r)) [ inl e ↦ rw e (inl h) | inr e ↦ rw e h ]

Matches-deriv : (c : ℕ) (r : Regex) (s : Bytes) → Matches r (c ∷ s) → Matches (deriv c r) s
unfolding deriv
Matches-deriv c fail s h = absurd h
Matches-deriv c eps s h = cc
Matches-deriv c any s (d, e, h) = ground arith
Matches-deriv c (chr d) s h = ground arith
Matches-deriv c (not_chr d) s (x, e, h) = ground arith
Matches-deriv c (seq r q) s (u, v, e, m, n) = elim (cons-append_inv c s u v e) [
  | inl (eu, ev) ↦ rw (Matches-nullable r (rw eu at m)) (inr (Matches-deriv c q s (rw ev at n)))
  | inr (w, eu, es) ↦ seq_step c r q s (w, v, es, Matches-deriv c r w (rw eu at m), n)
]
Matches-deriv c (alt r q) s (inl h) = inl (Matches-deriv c r s h)
Matches-deriv c (alt r q) s (inr h) = inr (Matches-deriv c q s h)
Matches-deriv c (star r) s h =
    let (u, v, e, m, n) = Star-inv c s h in (u, v, e, Matches-deriv c r u m, n)

-- The matcher accepts exactly the texts of the language.
pub full_match_iff : (r : Regex) (s : Bytes) → (full_match r s ≡ true) ↔ Matches r s
unfolding full_match
full_match_iff r [] = (nullable-Matches r, Matches-nullable r)
full_match_iff r (c ∷ s) =
    let (to, from) = full_match_iff (deriv c r) s in
    (λ h. deriv-Matches c r s (to h), λ h. from (Matches-deriv c r s h))

pub full_match_of_not : (r : Regex) (s : Bytes) → ¬ Matches r s → full_match r s ≡ false
full_match_of_not r s h = elim (Bool-cases (full_match r s)) [
  | inl e ↦ absurd (h ((full_match_iff r s).0 e))
  | inr e ↦ e
]
