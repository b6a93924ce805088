-- ===== src/Routes/Table.antt =====
-- Which function the table picks for a target, said without regular expressions.
use shadyurl.Common.{
  ℕ, ◌≡◌, ◌≢◌, ◌⊎◌, ◌↔◌, inl, inr, refl, ap, ◌∙◌, true, false, Option, none, some, List, [], ◌∷◌,
  ◌++◌, Bytes, codes, Bool-cases, All, Lacks,
}
use shadyurl.Regex.{Regex, eps, any, chr, not_chr, seq, alt, star, is_any, full_match}
use shadyurl.Regex.Language.{Matches, Star, done, more, full_match_iff}
use shadyurl.Routes.{
  Handler, handle_file, handle_post, handle_get_template, handle_get_url, lit, file_re, post_re,
  root_re, template_re, url_re, routes, select,
}

-- A text with no line terminator.
abbrev pub IsLine : Bytes → Type 0
IsLine = All (λ c. is_any c ≡ true)

Matches-lit : (p s : Bytes) → Matches (lit p) s ↔ (s ≡ p)
Matches-lit [] s = (λ e. e, λ e. e)
Matches-lit (c ∷ p) s = (
  λ (u, v, e, eu, m). let ev = (Matches-lit p v).0 m in cc,
  λ e. (c ∷ [], p, e, refl, (Matches-lit p p).1 refl),
)

Star-IsLine : {s : Bytes} → Star (Matches any) s → IsLine s
Star-IsLine done = tt
Star-IsLine (more d [] v e (x, ex, ok) n) =
    let same : x ≡ d = cc in rw e (rw same at ok, Star-IsLine n)
Star-IsLine (more d (y ∷ u) v e (x, ex, ok) n) = cc

Star-Lacks : {b : ℕ} {s : Bytes} → Star (Matches (not_chr b)) s → Lacks b s
Star-Lacks done = tt
Star-Lacks {b} (more d [] v e (x, ex, ok) n) =
    let same : x ≡ d = cc in rw e (rw same at ok, Star-Lacks n)
Star-Lacks (more d (y ∷ u) v e (x, ex, ok) n) = cc

Lacks-Star : (b : ℕ) (s : Bytes) → Lacks b s → Star (Matches (not_chr b)) s
Lacks-Star b [] h = done
Lacks-Star b (c ∷ s) h = more c [] s refl (c, refl, h.0) (Lacks-Star b s h.1)

IsLine-Star : (s : Bytes) → IsLine s → Star (Matches any) s
IsLine-Star [] h = done
IsLine-Star (c ∷ s) h = more c [] s refl (c, refl, h.0) (IsLine-Star s h.1)

Matches-slash : (r : Regex) (u : Bytes) → Matches (seq (chr b'/') r) (b'/' ∷ u) ↔ Matches r u
Matches-slash r u = (λ (x, v, e, ex, m). to x v e ex m, λ m. (b'/' ∷ [], u, refl, refl, m))
  where
    to : (x v : Bytes) → b'/' ∷ u ≡ x ++ v → x ≡ b'/' ∷ [] → Matches r v → Matches r u
    to [] v e ex m = cc
    to (c ∷ []) v e ex m = let same : v ≡ u = cc in rw same at m
    to (c ∷ d ∷ x) v e ex m = cc

abbrev file_tail : Regex
file_tail =
    alt (seq (lit (codes "assets/")) (star any))
      (alt (lit (codes "favicon.ico")) (lit (codes "robots.txt")))

abbrev template_tail : Regex
template_tail = alt (seq (star any) (lit (codes ".html"))) eps

abbrev url_tail : Regex
url_tail = seq (not_chr b'/') (star (not_chr b'/'))

-- The files that are served from the disk.
abbrev pub IsAsset : Bytes → Type 0
IsAsset u =
    ((w : Bytes) × (u ≡ codes "assets/" ++ w) × IsLine w)
    ⊎ ((u ≡ codes "favicon.ico") ⊎ (u ≡ codes "robots.txt"))

abbrev pub IsPage : Bytes → Type 0
IsPage u = (w : Bytes) × (u ≡ w ++ codes ".html") × IsLine w

file_lem : (u : Bytes) → Matches file_re (b'/' ∷ u) ↔ IsAsset u
file_lem u =
    (λ m. to ((Matches-slash file_tail u).0 m), λ a. (Matches-slash file_tail u).1 (from a))
  where
    to : Matches file_tail u → IsAsset u
    to (inl (x, v, e, m, n)) =
        inl (v, e ∙ ap (λ y. y ++ v) ((Matches-lit (codes "assets/") x).0 m), Star-IsLine n)
    to (inr (inl m)) = inr (inl ((Matches-lit (codes "favicon.ico") u).0 m))
    to (inr (inr m)) = inr (inr ((Matches-lit (codes "robots.txt") u).0 m))

    from : IsAsset u → Matches file_tail u
    from (inl (w, e, l)) =
        inl (codes "assets/", w, e, (Matches-lit (codes "assets/") _).1 refl, IsLine-Star w l)
    from (inr (inl e)) = inr (inl ((Matches-lit (codes "favicon.ico") u).1 e))
    from (inr (inr e)) = inr (inr ((Matches-lit (codes "robots.txt") u).1 e))

post_lem : (u : Bytes) → Matches post_re (b'/' ∷ u) ↔ (u ≡ codes "post.html")
post_lem u = (
  λ m. (Matches-lit (codes "post.html") u).0 ((Matches-slash (lit (codes "post.html")) u).0 m),
  λ e. (Matches-slash (lit (codes "post.html")) u).1 ((Matches-lit (codes "post.html") u).1 e),
)

root_lem : (u : Bytes) → Matches root_re (b'/' ∷ u) ↔ (u ≡ [])
root_lem u = (λ m. cc, λ e. ap (◌∷◌ b'/') e)

template_lem : (u : Bytes) → Matches template_re (b'/' ∷ u) ↔ (IsPage u ⊎ (u ≡ []))
template_lem u =
    (λ m. to ((Matches-slash template_tail u).0 m), λ a. (Matches-slash template_tail u).1 (from a))
  where
    to : Matches template_tail u → IsPage u ⊎ (u ≡ [])
    to (inl (x, v, e, m, n)) =
        inl (x, e ∙ ap (λ y. x ++ y) ((Matches-lit (codes ".html") v).0 n), Star-IsLine m)
    to (inr e) = inr e

    from : IsPage u ⊎ (u ≡ []) → Matches template_tail u
    from (inl (w, e, l)) =
        inl (w, codes ".html", e, IsLine-Star w l, (Matches-lit (codes ".html") _).1 refl)
    from (inr e) = inr e

url_lem : (u : Bytes) → Matches url_re (b'/' ∷ u) ↔ ((u ≢ []) × Lacks b'/' u)
url_lem u = (
  λ m. to u ((Matches-slash url_tail u).0 m),
  λ (n, l). (Matches-slash url_tail u).1 (from u n l),
)
  where
    to : (s : Bytes) → Matches url_tail s → (s ≢ []) × Lacks b'/' s
    to s ([], v, e, (c, ex, ne), n) = cc
    to s (d ∷ [], v, e, (c, ex, ne), n) =
        let same : c ≡ d = cc in rw e ((λ h. cc), (rw same at ne, Star-Lacks n))
    to s (d ∷ y ∷ x, v, e, (c, ex, ne), n) = cc

    from : (s : Bytes) → s ≢ [] → Lacks b'/' s → Matches url_tail s
    from [] n l = absurd (n refl)
    from (c ∷ s) n l = (c ∷ [], s, refl, (c, refl, l.0), Lacks-Star b'/' s l.1)

-- What a choice says of the target behind its first '/'. The five cases exclude one another.
abbrev pub Chosen : Option Handler → Bytes → Type 0
Chosen (some handle_file) u = IsAsset u
Chosen (some handle_post) u = u ≡ codes "post.html"
Chosen (some handle_get_template) u =
    (¬ IsAsset u) × (u ≢ codes "post.html") × (IsPage u ⊎ (u ≡ []))
Chosen (some handle_get_url) u = (¬ IsAsset u) × (¬ IsPage u) × (u ≢ []) × Lacks b'/' u
Chosen none u = (¬ IsAsset u) × (u ≢ []) × (¬ IsPage u) × (¬ Lacks b'/' u)

not_matched : (r : Regex) (s : Bytes) → full_match r s ≡ false → ¬ Matches r s
not_matched r s e m = let h = (full_match_iff r s).1 m in cc

module _ (u : Bytes) where
  abbrev rest : List (Regex × Handler) → Option Handler
  rest later = select later (b'/' ∷ u)

  not-IsAsset : full_match file_re (b'/' ∷ u) ≡ false → ¬ IsAsset u
  not-IsAsset e a = not_matched file_re (b'/' ∷ u) e ((file_lem u).1 a)

  not_post : full_match post_re (b'/' ∷ u) ≡ false → u ≢ codes "post.html"
  not_post e a = not_matched post_re (b'/' ∷ u) e ((post_lem u).1 a)

  not-IsPage : full_match template_re (b'/' ∷ u) ≡ false → (¬ IsPage u) × (u ≢ [])
  not-IsPage e = (
    λ a. not_matched template_re (b'/' ∷ u) e ((template_lem u).1 (inl a)),
    λ a. not_matched template_re (b'/' ∷ u) e ((template_lem u).1 (inr a)),
  )

  template_or_url :
      (¬ IsAsset u)
      → (u ≢ codes "post.html")
      → Chosen (rest ((template_re, handle_get_template) ∷ (url_re, handle_get_url) ∷ [])) u
  unfolding select
  template_or_url na np = elim (Bool-cases (full_match template_re (b'/' ∷ u))) [
    | inl e ↦ rw e (na, np, (template_lem u).0 ((full_match_iff template_re (b'/' ∷ u)).0 e))
    | inr e ↦ rw e (elim (Bool-cases (full_match url_re (b'/' ∷ u))) [
      | inl k ↦ rw k (
        na,
        (not-IsPage e).0,
        ((url_lem u).0 ((full_match_iff url_re (b'/' ∷ u)).0 k)).0,
        ((url_lem u).0 ((full_match_iff url_re (b'/' ∷ u)).0 k)).1,
      )
      | inr k ↦ rw k (
        na,
        (not-IsPage e).1,
        (not-IsPage e).0,
        λ l. not_matched url_re (b'/' ∷ u) k ((url_lem u).1 ((not-IsPage e).1, l)),
      )
    ])
  ]

  -- For every target that begins with '/', the table picks `handle_file` exactly for the assets,
  -- the icon and robots.txt, `handle_post` exactly for /post.html, `handle_get_template` for the root
  -- and for every other page that ends in .html, `handle_get_url` for what is left with no further
  -- '/', and nothing for the rest.
  pub select-Chosen : Chosen (select routes (b'/' ∷ u)) u
  unfolding select
  select-Chosen = elim (Bool-cases (full_match file_re (b'/' ∷ u))) [
    | inl e ↦ rw e ((file_lem u).0 ((full_match_iff file_re (b'/' ∷ u)).0 e))
    | inr e ↦ rw e (elim (Bool-cases (full_match post_re (b'/' ∷ u))) [
      | inl k ↦ rw k ((post_lem u).0 ((full_match_iff post_re (b'/' ∷ u)).0 k))
      | inr k ↦ rw k (elim (Bool-cases (full_match root_re (b'/' ∷ u))) [
        | inl n ↦ rw n (
          not-IsAsset e,
          not_post k,
          inr ((root_lem u).0 ((full_match_iff root_re (b'/' ∷ u)).0 n)),
        )
        | inr n ↦ rw n (template_or_url (not-IsAsset e) (not_post k))
      ])
    ])
  ]
