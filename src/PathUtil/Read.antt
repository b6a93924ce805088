-- ===== src/PathUtil/Read.antt =====
-- The paths of the files that the handlers read for a request: `path_cat` of the document root and the
-- target, cut at a NUL for the file of `handle_file`, with the name of an index for a template.
use shadyurl.Common.{
  append_assoc, ℕ, ◌≡◌, ◌≢◌, ◌⊎◌, inl, inr, refl, sym, false, [], ◌∷◌, ◌++◌, Bytes, codes, ◌==◌,
  arith, Bool-cases, All, Lacks, Lacks-append_inv, contains, starts_with, c_str, c_str-append,
  if◌then◌else◌,
}
use mathlib.Core.Path.{subst}
use shadyurl.Boost.Split.{split_on}
use shadyurl.PathUtil.{back, without_slash, path_cat}
use shadyurl.PathUtil.Confined.{without_slash_lem, parts_confined}
use shadyurl.Routes.{illegal}

-- A path below a root: the root, less a '/' at its end, a '/', and names with no ".." among them.
abbrev pub IsBelow : Bytes → Bytes → Type 0
IsBelow root path =
    (stem : Bytes) × (more : Bytes) × (path ≡ stem ++ b'/' ∷ more)
    × ((root ≡ stem) ⊎ (root ≡ stem ++ codes "/"))
    × All (λ part. part ≢ codes "..") (split_on b'/' more)

c_str_dot :
    (s : Bytes) → starts_with s (codes ".") ≡ false → starts_with (c_str s) (codes ".") ≡ false
unfolding c_str starts_with
c_str_dot [] h = refl
c_str_dot (x ∷ s) h = ground arith

contains-c_str :
    (s : Bytes) → contains s (codes "..") ≡ false → contains (c_str s) (codes "..") ≡ false
unfolding contains c_str starts_with
contains-c_str [] h = refl
contains-c_str (x ∷ s) h = ground (arith, contains-c_str s, c_str_dot s)

-- A legal target is '/' and parts that are not "..".
more_confined :
    (c : ℕ) (more : Bytes)
    → contains (c ∷ more) (codes "..") ≡ false
    → All (λ part. part ≢ codes "..") (split_on b'/' more)
unfolding contains
more_confined c more h = parts_confined more (ground arith)

contains-index :
    (c : ℕ) (s : Bytes)
    → contains (c ∷ s) (codes "..") ≡ false
    → back (c ∷ s) ≡ b'/'
    → contains ((c ∷ s) ++ codes "index.html") (codes "..") ≡ false
unfolding contains starts_with
contains-index c [] h k = rw k refl
contains-index c (d ∷ s) h k = ground (arith, contains-index d s)

stem-Lacks :
    (root stem : Bytes) → (root ≡ stem) ⊎ (root ≡ stem ++ codes "/") → Lacks 0 root → Lacks 0 stem
stem-Lacks root stem (inl e) h = subst (Lacks 0) e h
stem-Lacks root stem (inr e) h = (Lacks-append_inv 0 stem (codes "/") (subst (Lacks 0) e h)).0

module _ (c : ℕ) (base : Bytes) where
  abbrev root : Bytes
  root = c ∷ base

  IsBelow-append :
      (more : Bytes)
      → contains (b'/' ∷ more) (codes "..") ≡ false
      → IsBelow root (without_slash root ++ b'/' ∷ more)
  IsBelow-append more h =
      (without_slash root, more, refl, without_slash_lem c base, more_confined b'/' more h)

  IsBelow-c_str :
      (more : Bytes)
      → Lacks 0 root
      → contains (b'/' ∷ more) (codes "..") ≡ false
      → IsBelow root (c_str (without_slash root ++ b'/' ∷ more))
  unfolding c_str
  IsBelow-c_str more nul h =
      let clean = stem-Lacks root (without_slash root) (without_slash_lem c base) nul in
      (
        without_slash root,
        c_str more,
        c_str-append (without_slash root) (b'/' ∷ more) clean,
        without_slash_lem c base,
        more_confined b'/' (c_str more) (contains-c_str (b'/' ∷ more) h),
      )

  IsBelow-index :
      (target : Bytes)
      → contains (b'/' ∷ target) (codes "..") ≡ false
      → back (b'/' ∷ target) ≡ b'/'
      → IsBelow root ((without_slash root ++ b'/' ∷ target) ++ codes "index.html")
  IsBelow-index target h k = (
    without_slash root,
    target ++ codes "index.html",
    append_assoc (without_slash root) (b'/' ∷ target) (codes "index.html"),
    without_slash_lem c base,
    more_confined b'/' (target ++ codes "index.html") (contains-index b'/' target h k),
  )

-- A legal target begins with '/'.
legal_slash : (x : ℕ) (target : Bytes) → illegal (x ∷ target) ≡ false → b'/' ≡ x
unfolding illegal
legal_slash x target legal = ground arith

-- For a legal target `handle_file` opens a file below the document root.
pub file-IsBelow :
    (root target : Bytes)
    → root ≢ []
    → Lacks 0 root
    → illegal target ≡ false
    → IsBelow root (c_str (path_cat root target))
unfolding path_cat illegal
file-IsBelow [] target h nul legal = absurd (h refl)
file-IsBelow (c ∷ base) [] h nul legal = cc
file-IsBelow (c ∷ base) (x ∷ target) h nul legal =
    subst (λ y. IsBelow (c ∷ base) (c_str (without_slash (c ∷ base) ++ y ∷ target)))
      (legal_slash x target legal)
      (IsBelow-c_str c base target nul (
        subst (λ y. contains (y ∷ target) (codes "..") ≡ false) (sym (legal_slash x target legal))
          (ground arith)))

slash_template :
    (c : ℕ) (base target : Bytes)
    → contains (b'/' ∷ target) (codes "..") ≡ false
    → IsBelow (c ∷ base) (
        let path = without_slash (c ∷ base) ++ b'/' ∷ target in
        if back (b'/' ∷ target) == b'/' then path ++ codes "index.html" else path)
slash_template c base target h = elim (Bool-cases (back (b'/' ∷ target) == b'/')) [
  | inl e ↦ rw e (IsBelow-index c base target h (ground arith))
  | inr e ↦ rw e (IsBelow-append c base target h)
]

-- For a legal target the template engine reads a file below the document root.
pub template-IsBelow :
    (root target : Bytes)
    → root ≢ []
    → illegal target ≡ false
    → IsBelow root (
        let path = path_cat root target in
        if back target == b'/' then path ++ codes "index.html" else path)
unfolding path_cat illegal
template-IsBelow [] target h legal = absurd (h refl)
template-IsBelow (c ∷ base) [] h legal = cc
template-IsBelow (c ∷ base) (x ∷ target) h legal =
    let slash = legal_slash x target legal in
    subst
      (λ y. IsBelow (c ∷ base) (
        let path = without_slash (c ∷ base) ++ y ∷ target in
        if back (y ∷ target) == b'/' then path ++ codes "index.html" else path))
      slash
      (slash_template c base target
        (subst (λ y. contains (y ∷ target) (codes "..") ≡ false) (sym slash) (ground arith)))
