-- ===== src/Routes.antt =====
-- The routing table of `request::handle_request` (include/request.hpp).
pub mod Table
pub mod Tokens
use shadyurl.Common.{
  ℕ, Bool, true, false, not, ◌&&◌, ◌||◌, Option, none, some, List, [], ◌∷◌, ◌++◌, Bytes, codes,
  ◌==◌, if◌then◌else◌, contains,
}
use shadyurl.Regex.{Regex, chr, not_chr, any, eps, seq, alt, star, full_match}

-- The functions that the table names.
pub data Handler : Type 0 where
  handle_file handle_post handle_get_template handle_get_url : Handler

abbrev pub lit : Bytes → Regex
lit [] = eps
lit (c ∷ s) = seq (chr c) (lit s)

-- `^/(assets/.*|favicon\.ico|robots\.txt)$`
abbrev pub file_re : Regex
file_re = seq (chr b'/') (
    alt (seq (lit (codes "assets/")) (star any))
      (alt (lit (codes "favicon.ico")) (lit (codes "robots.txt"))))

-- `^/post\.html$`
abbrev pub post_re : Regex
post_re = seq (chr b'/') (lit (codes "post.html"))

-- `^/$`
abbrev pub root_re : Regex
root_re = chr b'/'

-- `^/(.*\.html)?$`
abbrev pub template_re : Regex
template_re = seq (chr b'/') (alt (seq (star any) (lit (codes ".html"))) eps)

-- `^/[^/]+$`
abbrev pub url_re : Regex
url_re = seq (chr b'/') (seq (not_chr b'/') (star (not_chr b'/')))

abbrev pub routes : List (Regex × Handler)
routes =
    (file_re, handle_file)
    ∷ (post_re, handle_post)
    ∷ (root_re, handle_get_template)
    ∷ (template_re, handle_get_template)
    ∷ (url_re, handle_get_url)
    ∷ []

-- The loop over the table: the first expression that matches.
unfoldable pub select : List (Regex × Handler) → Bytes → Option Handler
select [] target = none
select ((re, fn) ∷ more) target = if full_match re target then some fn else select more target

-- The guard: the target is not empty, begins with '/' and does not contain "..".
unfoldable pub illegal : Bytes → Bool
unfolding contains
illegal [] = true
illegal (c ∷ s) = not (c == b'/') || contains (c ∷ s) (codes "..")
