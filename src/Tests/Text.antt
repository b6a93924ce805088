-- ===== src/Tests/Text.antt =====
-- Forms, paths, headers and MIME types.
use shadyurl.Common.{
  find, ℕ, ◌<◌, ◌≡◌, refl, Bool, true, not, ◌||◌, ◌==◌, none, some, List, [], ◌∷◌, ◌++◌, Bytes,
  codes, arith, lookup, length, All, bytes_eq,
}
use shadyurl.Boost.Reference.{reference}
use shadyurl.ParseQs.{split_by_eq}
use shadyurl.ParseQs.Unquote.{IsQuoted, end_of_text, as_itself}
use shadyurl.Mime.{find_filename}
use shadyurl.Mime.Lookup.{find_filename_longest}
use shadyurl.Multipart.{HeaderParams, params, string, parse_header_value, ingest, new_data}
use shadyurl.Multipart.Values.{quoted_param, parse_header_value-quoted}
use shadyurl.Multipart.Sections.{Part, form_events, parsed_parts, ingest-form_events}
use shadyurl.Tests.Setup.{table}

-- A byte that may stand for itself, and a text of such bytes.
abbrev is_plain : ℕ → Bool
is_plain c = not (c == b'%' || c == b'+' || (c == b'&' || c == b'='))

pub plain_byte : {s q : Bytes} (c : ℕ) → is_plain c ≡ true → IsQuoted s q → IsQuoted (c ∷ s) (c ∷ q)
plain_byte c e h = as_itself c (ground arith) (ground arith) (ground arith) (ground arith) h

pub plain_text : (s : Bytes) → All (λ c. is_plain c ≡ true) s → IsQuoted s s
plain_text [] h = end_of_text
plain_text (c ∷ s) h = plain_byte c h.0 (plain_text s h.1)

-- A binding with no key keeps its '='.
split_by_eq_no_key : split_by_eq (codes "=v") ≡ ([], codes "=v")
unfolding split_by_eq find
split_by_eq_no_key = refl

tar : lookup (codes "tar.gz") table.mimetypes ≡ some (codes "application/x-tgz")
unfolding lookup bytes_eq
tar = refl

none_before :
    (a' e' : Bytes)
    → a' ++ b'.' ∷ e' ≡ codes "a" ++ b'.' ∷ codes "tar.gz"
    → length a' < length (codes "a")
    → lookup e' table.mimetypes ≡ none
none_before [] e' q l = cc
none_before (x ∷ a') e' q l = absurd (omega arith)

find_filename_longest_example : find_filename table (codes "a.tar.gz") ≡ codes "application/x-tgz"
find_filename_longest_example =
    find_filename_longest table (codes "a") (codes "tar.gz") (codes "application/x-tgz") tar
      none_before

parse_header_value-quoted_example :
    (m : HeaderParams) × (parse_header_value reference
        (codes "form-data" ++ b';' ∷ b' ' ∷ quoted_param (codes "name") (codes "a\"b"))
      ≡ params m)
    × (lookup (codes "name") m ≡ some (string (codes "a\"b")))
parse_header_value-quoted_example =
    parse_header_value-quoted reference (codes "form-data") (codes "name") (codes "a\"b")
      (omega arith) refl (omega arith) (omega arith) refl (omega arith)

abbrev form : List Part
form = record { fields = (codes "A", codes "b") ∷ []; content = codes "x" } ∷ []

ingest-form_events_example :
    (ingest reference (form_events form) new_data).sections ≡ parsed_parts reference form
ingest-form_events_example = ingest-form_events reference form
