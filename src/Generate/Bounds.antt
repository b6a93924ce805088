-- ===== src/Generate/Bounds.antt =====
-- The loops of the generator end, and what they produce.
use shadyurl.Common.{
  ℕ, zero, suc, ◌+◌, ◌-◌, ◌≤◌, ◌<◌, ◌≡◌, ◌≢◌, refl, ap, Bool, true, false, not, ◌&&◌, ◌||◌, String,
  List, [], ◌∷◌, ◌++◌, Bytes, codes, ◌==◌, ltb, leb, get_or, length, length-append, All, All-append,
  All-get_or, arith, empty,
}
use shadyurl.Boost.{StringAlgo, joined}
use shadyurl.Generate.{
  word, randstr_from, generate_randstr, wants_random, next_part, parts, last_parts,
  generate_random_filename,
}
use shadyurl.Generate.Entropy.{
  Random, draw, Produces, Produces-draw, Produces-pure, Produces-bind, Produces-if,
}
use shadyurl.Generate.Words.{nsfw, ext, charlist}

-- A letter, a digit, '-' or '_'.
abbrev pub is_name : ℕ → Bool
is_name c =
    (leb b'a' c && leb c b'z')
    || ((leb b'A' c && leb c b'Z') || ((leb b'0' c && leb c b'9') || (c == b'-' || c == b'_')))

abbrev pub IsName : Bytes → Type 0
IsName = All (λ c. is_name c ≡ true)

abbrev pub all {ℓ} : {A : Type ℓ} → (A → Bool) → List A → Bool
all p [] = true
all p (x ∷ xs) = p x && all p xs

pub all-All {ℓ} :
    {A : Type ℓ} (p : A → Bool) (xs : List A) → all p xs ≡ true → All (λ x. p x ≡ true) xs
all-All p [] h = tt
all-All p (x ∷ xs) h = (ground arith, all-All p xs (ground arith))

-- One part between the dashes.
abbrev pub IsPart : Bytes → Type 0
IsPart s = IsName s × (s ≢ [])

charlist-IsName : IsName charlist
charlist-IsName = all-All is_name charlist refl

abbrev is_part : String → Bool
is_part s = all is_name (codes s) && not (empty (codes s))

nsfw-part : (k : ℕ) → k ≤ length nsfw - 1 → is_part (get_or nsfw k "") ≡ true
nsfw-part k h =
    All-get_or (λ s. is_part s ≡ true) nsfw k "" (all-All is_part nsfw refl) (omega arith)

word-IsPart : (k : ℕ) → k ≤ length nsfw - 1 → IsPart (word nsfw k)
word-IsPart k h =
    let s = codes (get_or nsfw k "") in
    (all-All is_name s (ground (arith, nsfw-part k h)), ground (arith, nsfw-part k h))

ne_nil : (s : Bytes) → 6 ≤ length s → s ≢ []
ne_nil [] h = absurd (omega arith)
ne_nil (x ∷ s) h = cc

module _ (r : Random) where
  abbrev Sized : ℕ → Bytes → Type 0
  Sized i s = (6 ≤ length s + i) × (length s + i ≤ 15) × IsName s

  randstr_from-Sized :
      (fuel i : ℕ) → i + fuel ≡ 16 → i ≤ 15 → Produces r (Sized i) (randstr_from r fuel i)
  unfolding randstr_from
  randstr_from-Sized zero i e h = absurd (omega arith)
  randstr_from-Sized (suc fuel) i e h =
      Produces-bind r (draw r 6 15) _ (Produces-draw r 6 15 (omega arith)) λ bound range.
        Produces-if r (ltb i bound) _ _
          (λ more. Produces-bind r (draw r 0 63) _ (Produces-draw r 0 63 (omega arith)) λ k k_range.
            Produces-bind r (randstr_from r fuel (i + 1)) _
              (randstr_from-Sized fuel (i + 1) (omega arith) (ground arith))
              λ s sized. Produces-pure r (get_or charlist k 0 ∷ s) (
                omega arith,
                omega arith,
                (
                  All-get_or (λ c. is_name c ≡ true) charlist k 0 charlist-IsName (omega arith),
                  sized.2,
                ),
              ))
          (λ done. Produces-pure r [] (ground arith, omega arith, tt))

  -- A random string has 6 to 15 characters of the alphabet, and the sixteen rounds are enough.
  pub generate_randstr_bounds :
      Produces r (λ s. (6 ≤ length s) × (length s ≤ 15) × IsName s) (generate_randstr r)
  unfolding generate_randstr
  generate_randstr_bounds = record {
    at = λ st.
        let (s, st', e, sized) = (randstr_from-Sized 16 0 (omega arith) (omega arith)).at st in
        (s, st', e, (omega arith, omega arith, sized.2));
  }

  randstr-IsPart : Produces r IsPart (generate_randstr r)
  randstr-IsPart = record {
    at = λ st.
        let (s, st', e, p) = generate_randstr_bounds.at st in (s, st', e, (p.2, ne_nil s p.0));
  }

  wants_random_lem : (n : ℕ) → Produces r (λ b. b ≡ true → n < 3) (wants_random r n)
  unfolding wants_random
  wants_random_lem n =
      Produces-if r (ltb n 3) _ _
        (λ h.
          Produces-bind r (draw r 0 4) _ (Produces-draw r 0 4 (omega arith))
            λ d _. Produces-pure r (d == 0) (λ _. ground arith))
        (λ h. Produces-pure r false (λ e. cc))

  -- A part that is a name, and at most three that are random.
  next_part_lem :
      (n : ℕ) → n ≤ 3 → Produces r (λ o. IsPart o.0 × (n ≤ o.1) × (o.1 ≤ 3)) (next_part r n)
  unfolding next_part
  next_part_lem n h = Produces-bind r (wants_random r n) _ (wants_random_lem n) λ random few.
      Produces-if r random _ _
        (λ e.
          Produces-bind r (generate_randstr r) _ randstr-IsPart λ s part.
            Produces-pure r (s, n + 1) (part, omega arith, (let k = few e in omega arith)))
        (λ e.
          Produces-bind r (draw r 0 (length nsfw - 1)) _ (Produces-draw r 0 169 (omega arith))
            λ k range. Produces-pure r (word nsfw k, n) (word-IsPart k range.1, omega arith, h))

  abbrev PartsOf : ℕ → List Bytes × ℕ → Type 0
  PartsOf rounds o = (length o.0 ≡ rounds) × (All IsPart o.0) × (o.1 ≤ 3)

  parts_lem : (rounds n : ℕ) → n ≤ 3 → Produces r (PartsOf rounds) (parts r rounds n)
  unfolding parts
  parts_lem zero n h = Produces-pure r ([], n) (refl, tt, h)
  parts_lem (suc rounds) n h = Produces-bind r (next_part r n) _ (next_part_lem n h) λ first p.
      Produces-bind r (parts r rounds first.1) _ (parts_lem rounds first.1 p.2)
        λ others q. Produces-pure r (first.0 ∷ others.0, others.1) (ap suc q.0, (p.0, q.1), q.2)

  last_parts_lem : (n : ℕ) → Produces r (λ ps. (length ps ≤ 1) × All IsPart ps) (last_parts r n)
  unfolding last_parts
  last_parts_lem n =
      Produces-if r (n == 0) _ _
        (λ _.
          Produces-bind r (generate_randstr r) _ randstr-IsPart
            λ s p. Produces-pure r (s ∷ []) (omega arith, (p, tt)))
        (λ _. Produces-pure r [] (omega arith, tt))

-- A generated name: five to nine parts with dashes between them, and an extension of the list.
pub record IsToken (token : Bytes) : Type 0 where
  pub stem : List Bytes
  pub index : ℕ
  pub spelled : token ≡ joined (codes "-") stem ++ word ext index
  pub names : All IsPart stem
  pub enough : 5 ≤ length stem
  pub few : length stem ≤ 9
  pub listed : index < length ext

module _ (r : Random) (b : StringAlgo) where
  -- From every state of the generator the name is produced, and it has that form.
  pub generate_random_filename-IsToken : Produces r IsToken (generate_random_filename r b)
  unfolding generate_random_filename
  generate_random_filename-IsToken =
      Produces-bind r (draw r 5 8) _ (Produces-draw r 5 8 (omega arith)) λ len range.
        Produces-bind r (parts r len 0) _ (parts_lem r len 0 (omega arith)) λ out p.
          Produces-bind r (last_parts r out.1) _ (last_parts_lem r out.1) λ more q.
            Produces-bind r (draw r 0 (length ext - 1)) _ (Produces-draw r 0 19 (omega arith))
              λ e e_range.
                Produces-pure r (b.join (out.0 ++ more) (codes "-") ++ word ext e) (record {
                  stem = out.0 ++ more;
                  index = e;
                  spelled = ap (λ s. s ++ word ext e) (b.join_joined (out.0 ++ more) (codes "-"));
                  names = All-append IsPart out.0 more p.1 q.1;
                  enough = omega (arith, length-append out.0 more, p.0);
                  few = omega (arith, length-append out.0 more, p.0);
                  listed = omega arith;
                })
