-- ===== src/Mime.antt =====
-- src/mime.cpp and include/mime.hpp: the table of MIME types.
pub mod Lookup
pub mod Format
use shadyurl.Common.{
  ℕ, ◌+◌, Bool, true, false, Option, none, some, List, [], ◌∷◌, ◌++◌, Bytes, codes, ◌==◌,
  if◌then◌else◌, drop, find, Dict, lookup, insert, is_space,
}
use shadyurl.Common.Result.{Result, ok, thrown, system_error}

pub record MimeTypeMap : Type 0 where
  pub mimetypes : Dict Bytes
  pub mimetypes_file : Bytes
  pub default_mimetype : Bytes

module _ (mtm : MimeTypeMap) where
  -- The loop of `find_extension`: everything up to the next dot is erased, and what is left is
  -- looked up; a text with no dot left ends it.
  unfoldable pub find_extension : Bytes → Bytes
  find_extension [] = mtm.default_mimetype
  find_extension (c ∷ extension) =
      let later = find_extension extension in
      let found : Bytes = elim (lookup extension mtm.mimetypes) [
        | some type ↦ type
        | none ↦ later
      ] in
      if c == b'.' then found else later

  unfoldable pub find_filename : Bytes → Bytes
  unfolding find_extension
  find_filename filename = elim (find b'.' filename) [
    | none ↦ mtm.default_mimetype
    | some pos ↦ find_extension (drop pos filename)
  ]

-- `ss >> word`: blanks are passed over, and the word ends before the next one.
unfoldable pub skip_blanks : Bytes → Bytes
skip_blanks [] = []
skip_blanks (c ∷ s) = let later = skip_blanks s in if is_space c then later else c ∷ s

unfoldable pub take_word : Bytes → Bytes × Bytes
take_word [] = ([], [])
take_word (c ∷ s) =
    let (w, later) = take_word s in if is_space c then ([], c ∷ s) else (c ∷ w, later)

-- The body of the loop over the lines.
unfoldable pub add_line : Bytes → Dict Bytes → Dict Bytes
unfolding skip_blanks take_word insert
add_line line m =
    let (extension, later) = take_word (skip_blanks line) in
    let (type, _) = take_word (skip_blanks later) in insert extension type m

-- What `std::getline` reads: the first argument is the line read so far, if one is begun.
unfoldable pub add_lines : Option Bytes → Bytes → Dict Bytes → Dict Bytes
unfolding add_line
add_lines none [] m = m
add_lines (some line) [] m = add_line line m
add_lines none (c ∷ s) m =
    let ended = add_lines none s (add_line [] m) in
    let longer = add_lines (some (c ∷ [])) s m in if c == b'\n' then ended else longer
add_lines (some line) (c ∷ s) m =
    let ended = add_lines none s (add_line line m) in
    let longer = add_lines (some (line ++ c ∷ [])) s m in if c == b'\n' then ended else longer

-- What reading the file gives: it cannot be opened, or its bytes and whether the stream went bad.
pub data FileText : Type 0 where
  not_open : FileText
  text : Bytes → Bool → FileText

-- The constructor.
unfoldable pub make_mime_type_map : (Bytes → FileText) → Bytes → Bytes → Result MimeTypeMap
unfolding add_lines
make_mime_type_map read mimetypes_file default_mimetype = elim (read mimetypes_file) [
  | not_open ↦ thrown system_error
  | text s bad ↦
      if bad
      then thrown system_error
      else ok (record {
        mimetypes = add_lines none s [];
        mimetypes_file = mimetypes_file;
        default_mimetype = default_mimetype;
      })
]
