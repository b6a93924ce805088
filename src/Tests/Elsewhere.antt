-- ===== src/Tests/Elsewhere.antt =====
-- A server in whose file system the files outside of the document root are others.
use shadyurl.Common.{
  ◌≡◌, ◌⊎◌, inl, inr, refl, ap, ◌∙◌, false, Option, [], ◌∷◌, ◌++◌, Bytes, codes, starts_with,
  if◌then◌else◌, arith,
}
use shadyurl.PathUtil.Read.{IsBelow}
use shadyurl.Handlers.{handle_request}
use shadyurl.Handlers.Effects.{World, FileOpen, opened, Rendered, page}
use shadyurl.Handlers.Confined.{
  with_files, same_world, same_outcome, SameFiles, SamePages, handle_request-same_outcome,
}
use shadyurl.Tests.Setup.{env, state}
use shadyurl.Tests.Files.{style}

-- Absolute paths lead to a file of another size, and to another page.
abbrev size_of : Bytes → FileOpen
size_of path = if starts_with path (codes "/") then opened 7 else opened 5

abbrev page_of : Bytes → Bytes → Option (Bytes × Bytes) → Rendered
page_of path host given =
    page (if starts_with path (codes "/") then codes "other" else codes "done")

stem_dot :
    (stem more : Bytes)
    → (codes "." ≡ stem) ⊎ (codes "." ≡ stem ++ codes "/")
    → starts_with (stem ++ more) (codes "/") ≡ false
unfolding starts_with
stem_dot [] more (inl e) = cc
stem_dot [] more (inr e) = ground arith
stem_dot (c ∷ stem) more (inl e) = ground arith
stem_dot (c ∷ stem) more (inr e) = ground arith

relative : (path : Bytes) → IsBelow (codes ".") path → starts_with path (codes "/") ≡ false
relative path below =
    ap (λ p. starts_with p (codes "/")) below.2 ∙ stem_dot below.0 (b'/' ∷ below.1) below.3

files : SameFiles env size_of page_of state style
files path below = rw (relative path below) refl

pages : SamePages env size_of page_of state style
pages path host given below = rw (relative path below) refl

elsewhere : World (with_files size_of page_of env)
elsewhere = record { db = []; rng = 0 }

handle_request-same_outcome_example :
    same_outcome env size_of page_of
      (handle_request (with_files size_of page_of env) state style elsewhere)
    ≡ handle_request env state style (same_world env size_of page_of elsewhere)
handle_request-same_outcome_example =
    handle_request-same_outcome env size_of page_of state style elsewhere (cc) (omega arith) files
      pages
