-- ===== src/Boost/Trim.antt =====
-- The documented laws of `trim_left` leave one function: the one that drops the leading blanks.
use shadyurl.Common.{◌≡◌, refl, sym, ap, ◌∙◌, false, [], ◌∷◌, ◌++◌, Bytes, is_space, if◌then◌else◌}
use shadyurl.Boost.{StringAlgo, IsBlank, starts_blank}

unfoldable pub drop_blanks : Bytes → Bytes
drop_blanks [] = []
drop_blanks (c ∷ s) = let rest = drop_blanks s in if is_space c then rest else c ∷ s

pub drop_blanks_of_head : (s : Bytes) → starts_blank s ≡ false → drop_blanks s ≡ s
unfolding drop_blanks
drop_blanks_of_head [] h = refl
drop_blanks_of_head (c ∷ s) h = rw h

pub drop_blanks-append : (p s : Bytes) → IsBlank p → drop_blanks (p ++ s) ≡ drop_blanks s
unfolding drop_blanks
drop_blanks-append [] s h = refl
drop_blanks-append (c ∷ p) s h = rw h.0 (drop_blanks-append p s h.1)

module _ (b : StringAlgo) where
  pub trim_left-drop_blanks : (s : Bytes) → b.trim_left s ≡ drop_blanks s
  trim_left-drop_blanks s =
      let (pre, blank, cut) = b.trim_left_cut s in
      sym (
        ap drop_blanks cut
        ∙ drop_blanks-append pre (b.trim_left s) blank
        ∙ drop_blanks_of_head (b.trim_left s) (b.trim_left_head s))
