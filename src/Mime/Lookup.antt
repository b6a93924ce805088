-- ===== src/Mime/Lookup.antt =====
-- Which entry of the table a file name finds.
use shadyurl.Common.{
  ◌<◌, ◌≡◌, inl, inr, refl, sym, ap, ◌∙◌, none, some, [], ◌∷◌, ◌++◌, Bytes, ◌==◌, arith, Bool-cases,
  length, find, lookup,
}
use shadyurl.Mime.{MimeTypeMap, find_extension, find_filename}

module _ (m : MimeTypeMap) where
  find_filename-find_extension : (f : Bytes) → find_filename m f ≡ find_extension m f
  unfolding find_filename find
  find_filename-find_extension [] = refl
  find_filename-find_extension (c ∷ f) = ground (arith, find_filename-find_extension f)

  longest :
      (a e v : Bytes)
      → lookup e m.mimetypes ≡ some v
      → ((a' e' : Bytes)
          → a' ++ b'.' ∷ e' ≡ a ++ b'.' ∷ e
          → length a' < length a
          → lookup e' m.mimetypes ≡ none)
      → find_extension m (a ++ b'.' ∷ e) ≡ v
  unfolding find_extension
  longest [] e v h k = ground arith
  longest (c ∷ a) e v h k =
      let ih = longest a e v h (λ a' e' q l. k (c ∷ a') e' (ap (◌∷◌ c) q) (omega arith)) in
      elim (Bool-cases (c == b'.')) [
        | inl d ↦
            let dot : c ≡ b'.' = ground arith in
            let missing =
              k [] (a ++ b'.' ∷ e) (ap (λ x. x ∷ (a ++ b'.' ∷ e)) (sym dot)) (omega arith) in
            rw (d, missing) ih
        | inr d ↦ rw d ih
      ]

  absent :
      (f : Bytes)
      → ((a e : Bytes) → f ≡ a ++ b'.' ∷ e → lookup e m.mimetypes ≡ none)
      → find_extension m f ≡ m.default_mimetype
  unfolding find_extension
  absent [] k = refl
  absent (c ∷ f) k =
      let ih = absent f (λ a e q. k (c ∷ a) e (ap (◌∷◌ c) q)) in
      elim (Bool-cases (c == b'.')) [
        | inl d ↦
            let dot : c ≡ b'.' = ground arith in
            let missing = k [] f (ap (λ x. x ∷ f) dot) in rw (d, missing) ih
        | inr d ↦ rw d ih
      ]

  -- Of the texts behind a dot of the file name, the longest one that the table has gives the type.
  pub find_filename_longest :
      (a e v : Bytes)
      → lookup e m.mimetypes ≡ some v
      → ((a' e' : Bytes)
          → a' ++ b'.' ∷ e' ≡ a ++ b'.' ∷ e
          → length a' < length a
          → lookup e' m.mimetypes ≡ none)
      → find_filename m (a ++ b'.' ∷ e) ≡ v
  find_filename_longest a e v h k = find_filename-find_extension (a ++ b'.' ∷ e) ∙ longest a e v h k

  -- Where the table has none of the texts behind a dot, the type is the default.
  pub find_filename_default :
      (f : Bytes)
      → ((a e : Bytes) → f ≡ a ++ b'.' ∷ e → lookup e m.mimetypes ≡ none)
      → find_filename m f ≡ m.default_mimetype
  find_filename_default f k = find_filename-find_extension f ∙ absent f k
