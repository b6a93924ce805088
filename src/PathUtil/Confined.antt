-- ===== src/PathUtil/Confined.antt =====
-- A path that is opened stays below the document root, and a MIME type depends on the file name.
use shadyurl.Common.{
  ℕ, ◌-◌, ◌≡◌, ◌≢◌, ◌⊎◌, inl, inr, refl, sym, ap, ◌∙◌, true, false, none, some, List, [], ◌∷◌, ◌++◌,
  Bytes, codes, ◌==◌, arith, Bool-cases, All, Lacks, length, take, drop-length-append, contains,
  starts_with, c_str_of_Lacks, find,
}
use shadyurl.Boost.Split.{split_on, cons_head}
use shadyurl.Mime.{MimeTypeMap, find_filename}
use shadyurl.PathUtil.{rfind, get_mime_type, back, without_slash, path_cat}
use shadyurl.Routes.{illegal}

abbrev head_of : List Bytes → Bytes
head_of [] = []
head_of (p ∷ ps) = p

-- The first part begins as the text does.
head_dot :
    (d : ℕ) (s : Bytes)
    → starts_with (head_of (split_on d s)) (codes ".") ≡ true
    → starts_with s (codes ".") ≡ true
unfolding starts_with split_on
head_dot d [] h = cc
head_dot d (c ∷ s) h = elim (Bool-cases (c == d)) [
  | inl e ↦ let k = rw e at h in cc
  | inr e ↦ first (split_on d s) (rw e at h)
]
  where
    first :
        (ps : List Bytes)
        → starts_with (head_of (cons_head c ps)) (codes ".") ≡ true
        → starts_with (c ∷ s) (codes ".") ≡ true
    first [] k = ground arith
    first (p ∷ ps) k = ground arith

abbrev NoDots : Bytes → Type 0
NoDots p = contains p (codes "..") ≡ false

cons_head-NoDots :
    (c : ℕ) (s : Bytes) (ps : List Bytes)
    → contains (c ∷ s) (codes "..") ≡ false
    → (starts_with (head_of ps) (codes ".") ≡ true → starts_with s (codes ".") ≡ true)
    → All NoDots ps
    → All NoDots (cons_head c ps)
unfolding contains starts_with
cons_head-NoDots c s [] h k a = ground arith
cons_head-NoDots c [] (p ∷ ps) h k a = ground arith
cons_head-NoDots c (x ∷ s) ([] ∷ ps) h k a = ground arith
cons_head-NoDots c (x ∷ s) ((y ∷ p) ∷ ps) h k a = ground arith

parts-NoDots : (d : ℕ) (s : Bytes) → contains s (codes "..") ≡ false → All NoDots (split_on d s)
unfolding split_on contains
parts-NoDots d [] h = (h, tt)
parts-NoDots d (c ∷ s) h =
    let ih = parts-NoDots d s (ground arith) in
    elim (Bool-cases (c == d)) [
      | inl e ↦ rw e (unfold starts_with in refl, ih)
      | inr e ↦ rw e (cons_head-NoDots c s (split_on d s) h (head_dot d s) ih)
    ]

All-map {ℓ κ} :
    {A : Type ℓ} (P Q : A → Type κ) (xs : List A) → ((a : A) → P a → Q a) → All P xs → All Q xs
All-map P Q [] f h = tt
All-map P Q (x ∷ xs) f h = (f x h.0, All-map P Q xs f h.1)

dots_NoDots : (p : Bytes) → NoDots p → p ≢ codes ".."
unfolding contains starts_with
dots_NoDots p h e = let k = rw e at h in cc

take-back : (c : ℕ) (s : Bytes) → take (length s) (c ∷ s) ++ back (c ∷ s) ∷ [] ≡ c ∷ s
take-back c [] = refl
take-back c (d ∷ s) = ap (◌∷◌ c) (take-back d s)

pub without_slash_lem :
    (c : ℕ) (s : Bytes)
    → (c ∷ s ≡ without_slash (c ∷ s)) ⊎ (c ∷ s ≡ without_slash (c ∷ s) ++ codes "/")
without_slash_lem c s =
    let n : length (c ∷ s) - 1 ≡ length s = omega arith in
    elim (Bool-cases (back (c ∷ s) == b'/')) [
      | inl e ↦
          let slash : back (c ∷ s) ≡ b'/' = ground arith in
          rw (e, n) (inr (sym (take-back c s) ∙ ap (λ x. take (length s) (c ∷ s) ++ x ∷ []) slash))
      | inr e ↦ rw e (inl refl)
    ]

-- A text without ".." has no such part between slashes.
pub parts_confined :
    (s : Bytes)
    → contains s (codes "..") ≡ false
    → All (λ part. part ≢ codes "..") (split_on b'/' s)
parts_confined s h =
    All-map NoDots (λ part. part ≢ codes "..") (split_on b'/' s) dots_NoDots (parts-NoDots b'/' s h)

-- The path of a legal request target is the document root, less a '/' at its end, followed by the
-- target, of whose parts between slashes none is "..".
pub path_cat_confined :
    (base target : Bytes)
    → base ≢ []
    → illegal target ≡ false
    → (stem : Bytes) × (path_cat base target ≡ stem ++ target)
      × ((base ≡ stem) ⊎ (base ≡ stem ++ codes "/"))
      × All (λ part. part ≢ codes "..") (split_on b'/' target)
unfolding path_cat illegal
path_cat_confined [] target h l = absurd (h refl)
path_cat_confined (c ∷ base) [] h l = cc
path_cat_confined (c ∷ base) (x ∷ target) h l = (
  without_slash (c ∷ base),
  refl,
  without_slash_lem c base,
  parts_confined (x ∷ target) (ground arith),
)

rfind_of_Lacks : (c : ℕ) (s : Bytes) → Lacks c s → rfind c s ≡ none
unfolding rfind
rfind_of_Lacks c [] h = refl
rfind_of_Lacks c (x ∷ s) h = ground (arith, rfind_of_Lacks c s)

rfind_last : (c : ℕ) (s t : Bytes) → Lacks c t → rfind c (s ++ c ∷ t) ≡ some (length s)
unfolding rfind
rfind_last c [] t h = ground (arith, rfind_of_Lacks c t)
rfind_last c (x ∷ s) t h = ground (arith, rfind_last c s t)

find_filename_slash :
    (m : MimeTypeMap) (name : Bytes) → find_filename m (b'/' ∷ name) ≡ find_filename m name
unfolding find_filename find
find_filename_slash m name = ground arith

-- The MIME type of a path is that of its last component, if no NUL stands in it.
pub get_mime_type_last :
    (m : MimeTypeMap) (dir name : Bytes)
    → Lacks b'/' name
    → Lacks 0 name
    → get_mime_type (dir ++ b'/' ∷ name) m ≡ find_filename m name
unfolding get_mime_type
get_mime_type_last m dir name h k = ground (
  arith,
  rfind_last b'/' dir name h,
  drop-length-append dir (b'/' ∷ name),
  c_str_of_Lacks (b'/' ∷ name) ((omega arith), k),
  find_filename_slash m name,
)
