-- ===== src/Routes/Tokens.antt =====
-- A generated token, asked for as a path, reaches `handle_get_url`.
use shadyurl.Common.{
  Lacks-append_inv, ℕ, ◌≤◌, ◌<◌, ◌≡◌, ◌≢◌, inl, inr, refl, sym, ap, ◌∙◌, Bool, true, false, not,
  ◌&&◌, Option, none, some, List, [], ◌∷◌, ◌++◌, Bytes, codes, ◌==◌, arith, All, All-append,
  All-get_or, Lacks, length, contains, starts_with,
}
use mathlib.Core.Path.{subst}
use shadyurl.Boost.{joined}
use shadyurl.Generate.{word}
use shadyurl.Generate.Words.{ext}
use shadyurl.Generate.Bounds.{is_name, IsName, IsPart, all, all-All, IsToken}
use shadyurl.Routes.{
  Handler, handle_file, handle_post, handle_get_template, handle_get_url, routes, select, illegal,
}
use shadyurl.Routes.Table.{IsAsset, IsPage, Chosen, select-Chosen}

abbrev last_of : Bytes → ℕ
last_of [] = 0
last_of (c ∷ []) = c
last_of (c ∷ d ∷ s) = last_of (d ∷ s)

last_of-append : (a : Bytes) (c : ℕ) (s : Bytes) → last_of (a ++ c ∷ s) ≡ last_of (c ∷ s)
last_of-append [] c s = refl
last_of-append (x ∷ []) c s = refl
last_of-append (x ∷ y ∷ a) c s = last_of-append (y ∷ a) c s

IsName-Lacks : (b : ℕ) (s : Bytes) → is_name b ≡ false → IsName s → Lacks b s
IsName-Lacks b [] e h = tt
IsName-Lacks b (c ∷ s) e h = ((λ same. ground arith), IsName-Lacks b s e h.1)

joined-IsName : (ps : List Bytes) → All IsPart ps → IsName (joined (codes "-") ps)
joined-IsName [] h = tt
joined-IsName (p ∷ []) h = h.0.0
joined-IsName (p ∷ q ∷ ps) h =
    All-append _ p (codes "-" ++ joined (codes "-") (q ∷ ps)) h.0.0
      (refl, joined-IsName (q ∷ ps) h.1)

joined-dash : (ps : List Bytes) → 2 ≤ length ps → ¬ Lacks b'-' (joined (codes "-") ps)
joined-dash [] h l = absurd (omega arith)
joined-dash (p ∷ []) h l = absurd (omega arith)
joined-dash (p ∷ q ∷ ps) h l =
    (Lacks-append_inv b'-' p (codes "-" ++ joined (codes "-") (q ∷ ps)) l).1.0 refl

-- A dot, then letters and digits of which the last is no 'l'.
abbrev is_ext : Bytes → Bool
is_ext [] = false
is_ext (c ∷ s) = c == b'.' && (all is_name s && not (last_of (c ∷ s) == b'l'))

ext-table : all (λ s. is_ext (codes s)) ext ≡ true
ext-table = refl

word-is_ext : (i : ℕ) → i < length ext → is_ext (word ext i) ≡ true
word-is_ext i h =
    All-get_or (λ s. is_ext (codes s) ≡ true) ext i ""
      (all-All (λ s. is_ext (codes s)) ext ext-table) h

-- What matters of a token here.
record Shape (t : Bytes) : Type 0 where
  stem : Bytes
  tail : Bytes
  split : t ≡ stem ++ b'.' ∷ tail
  stem_name : IsName stem
  tail_name : IsName tail
  dashed : ¬ Lacks b'-' stem
  ends : last_of (b'.' ∷ tail) ≢ b'l'

is_ext_inv :
    (s : Bytes)
    → is_ext s ≡ true
    → (tail : Bytes) × (s ≡ b'.' ∷ tail) × IsName tail × (last_of (b'.' ∷ tail) ≢ b'l')
is_ext_inv [] h = cc
is_ext_inv (c ∷ s) h =
    let dot : c ≡ b'.' = ground arith in
    let h' : is_ext (b'.' ∷ s) ≡ true = subst (λ x. is_ext (x ∷ s) ≡ true) dot h in
    (s, ap (λ x. x ∷ s) dot, all-All is_name s (ground arith), λ e. ground arith)

module _ {t : Bytes} (token : IsToken t) where
  IsToken-Shape : Shape t
  IsToken-Shape =
      let (tail, e, name, ends) =
        is_ext_inv (word ext token.index) (word-is_ext token.index token.listed) in
      record {
        stem = joined (codes "-") token.stem;
        tail = tail;
        split = token.spelled ∙ ap (λ x. joined (codes "-") token.stem ++ x) e;
        stem_name = joined-IsName token.stem token.names;
        tail_name = name;
        dashed = joined-dash token.stem (let k = token.enough in omega arith);
        ends = ends;
      }

  token-Lacks : (b : ℕ) → is_name b ≡ false → b ≢ b'.' → Lacks b t
  token-Lacks b e ne =
      let s = IsToken-Shape in
      rw s.split (
        All-append _ s.stem (b'.' ∷ s.tail) (IsName-Lacks b s.stem e s.stem_name)
          ((λ h. ne (sym h)), IsName-Lacks b s.tail e s.tail_name))

  token-dash : ¬ Lacks b'-' t
  token-dash l =
      let s = IsToken-Shape in
      s.dashed (Lacks-append_inv b'-' s.stem (b'.' ∷ s.tail) (rw s.split at l)).0

  token-not-IsAsset : ¬ IsAsset t
  token-not-IsAsset (inl (w, e, _)) =
      (rw e at (token-Lacks b'/' refl (omega arith))).1.1.1.1.1.1.0 refl
  token-not-IsAsset (inr (inl e)) = token-dash (rw e (omega arith))
  token-not-IsAsset (inr (inr e)) = token-dash (rw e (omega arith))

  token-not-IsPage : ¬ IsPage t
  token-not-IsPage (w, e, _) =
      let s = IsToken-Shape in
      s.ends (
        sym (last_of-append s.stem b'.' s.tail)
        ∙ ap last_of (sym s.split ∙ e)
        ∙ last_of-append w b'.' (codes "html"))

  token-ne-nil : t ≢ []
  token-ne-nil e = token-dash (rw e tt)

  pick : (o : Option Handler) → Chosen o t → o ≡ some handle_get_url
  pick (some handle_file) h = absurd (token-not-IsAsset h)
  pick (some handle_post) h = absurd (token-dash (rw h (omega arith)))
  pick (some handle_get_template) (_, _, inl h) = absurd (token-not-IsPage h)
  pick (some handle_get_template) (_, _, inr h) = absurd (token-ne-nil h)
  pick (some handle_get_url) h = refl
  pick none h = absurd (h.3 (token-Lacks b'/' refl (omega arith)))

-- No two dots in a row, where only one dot is.
no_dots : (s : Bytes) → Lacks b'.' s → contains s (codes "..") ≡ false
unfolding contains starts_with
no_dots [] h = refl
no_dots (c ∷ s) h = ground (arith, no_dots s h.1)

after_dot : (s : Bytes) → Lacks b'.' s → contains (b'.' ∷ s) (codes "..") ≡ false
unfolding contains starts_with
after_dot [] h = refl
after_dot (c ∷ s) h = ground (arith, no_dots (c ∷ s) h)

one_dot :
    (s t : Bytes) → Lacks b'.' s → Lacks b'.' t → contains (s ++ b'.' ∷ t) (codes "..") ≡ false
unfolding contains starts_with
one_dot [] t h k = after_dot t k
one_dot (c ∷ s) t h k = ground (arith, one_dot s t h.1 k)

-- A generated token is a legal request target behind a '/', the table picks `handle_get_url` for
-- it, and it holds no NUL.
pub token-route :
    (t : Bytes)
    → IsToken t
    → (illegal (b'/' ∷ t) ≡ false) × (select routes (b'/' ∷ t) ≡ some handle_get_url) × Lacks 0 t
unfolding illegal contains starts_with
token-route t token =
    let s = IsToken-Shape token in
    (
      ap (λ x. contains x (codes "..")) s.split
          ∙ one_dot s.stem s.tail (IsName-Lacks b'.' s.stem refl s.stem_name)
              (IsName-Lacks b'.' s.tail refl s.tail_name),
      pick token (select routes (b'/' ∷ t)) (select-Chosen t),
      token-Lacks token 0 refl (omega arith),
    )
