-- ===== src/Handlers/Extraction.antt =====
-- Which URL `handle_post` takes from a form, in either of its two encodings.
use shadyurl.Common.{
  ℕ, ◌≤◌, ◌≡◌, refl, true, false, Option, none, some, List, [], ◌∷◌, ◌++◌, Bytes, codes,
  if◌then◌else◌, All, Lacks, length, lookup, insert, lookup-insert, bytes_eq, bytes_eq_iff,
  bytes_eq_refl, c_str, starts_with, arith,
}
use shadyurl.Common.Result.{ok}
use shadyurl.ParseQs.{default_maxparams}
use shadyurl.ParseQs.Query.{IsBinding, IsForm, last_value, parse_qsl_form}
use shadyurl.Multipart.{string, HeaderParams, Header, params, parse_header_value}
use shadyurl.Multipart.Values.{quoted_param, parse_header_value-quoted}
use shadyurl.Multipart.Sections.{Part, form_events, parsed_parts, ingest-form_events}
use shadyurl.Handlers.Effects.{Env}
use shadyurl.Handlers.Form.{
  Extracted, unless_empty, refused, url, header_at, is_url_section, find_url, extract_multipart,
  extract_url,
}

-- What a URL-encoded form gives: its last binding of "url".
abbrev pub form_url : Option Bytes → Extracted
form_url none = refused (codes "No URL parameter passed")
form_url (some u) = url u

-- A field of a multipart form, as a browser sends it.
abbrev pub field_part : Bytes × Bytes → Part
field_part (k, v) = record {
  fields =
      (
        codes "Content-Disposition",
        codes "form-data" ++ b';' ∷ b' ' ∷ quoted_param (codes "name") k,
      )
      ∷ [];
  content = v;
}

abbrev pub field_parts : List (Bytes × Bytes) → List Part
field_parts [] = []
field_parts (p ∷ ps) = field_part p ∷ field_parts ps

-- The first field of the name "url".
abbrev pub first_url : List (Bytes × Bytes) → Bytes
first_url [] = []
first_url ((k, v) ∷ ps) = if bytes_eq k (codes "url") then v else first_url ps

-- What a multipart form gives: an empty URL is taken for none.
abbrev pub multipart_url : Bytes → Extracted
multipart_url [] = refused (codes "No URL specified")
multipart_url (c ∷ s) = url (c ∷ s)

abbrev pub IsName : Bytes × Bytes → Type 0
IsName (k, v) = Lacks b';' k

unless_empty_lem : (u : Bytes) → unless_empty u ≡ multipart_url u
unless_empty_lem [] = refl
unless_empty_lem (c ∷ s) = refl

not_multipart :
    starts_with (codes "application/x-www-form-urlencoded") (codes "multipart/form-data") ≡ false
unfolding starts_with
not_multipart = refl

pub other_type :
    (content_type : Bytes)
    → starts_with content_type (codes "multipart/form-data") ≡ true
    → bytes_eq content_type (codes "application/x-www-form-urlencoded") ≡ false
other_type content_type multi =
    ground
      (arith, bytes_eq_iff content_type (codes "application/x-www-form-urlencoded"), not_multipart)

module _ (env : Env) where
  -- From a URL-encoded form with keys that are not empty, of at most 1001 bindings, the last binding of
  -- "url" is taken; without one the form is refused. Every byte may be encoded in its own way: as '%'
  -- and two digits, each in either case, a space as '+', and all but '%', '+', '&' and '=' as itself.
  pub extract_url_form :
      (ps : List (Bytes × Bytes)) (body : Bytes)
      → IsForm ps body
      → All IsBinding ps
      → length ps ≤ 1001
      → extract_url env (codes "application/x-www-form-urlencoded") body
        ≡ ok (form_url (last_value (codes "url") ps))
  unfolding extract_url
  extract_url_form ps body form h fits =
      let (m, parsed, found) =
        parse_qsl_form env.algo default_maxparams ps body form h (omega arith) in
      ground (
        arith,
        parsed,
        found (codes "url"),
        bytes_eq_refl (codes "application/x-www-form-urlencoded"),
      )

  -- The header of a field.
  abbrev disposition : Bytes → Header
  disposition k =
      parse_header_value env.algo (codes "form-data" ++ b';' ∷ b' ' ∷ quoted_param (codes "name") k)

  disposition-is_url :
      (k : Bytes) → Lacks b';' k → is_url_section (disposition k) ≡ bytes_eq k (codes "url")
  unfolding is_url_section
  disposition-is_url k l =
      let (m, parsed, found) =
        parse_header_value-quoted env.algo (codes "form-data") (codes "name") k (omega arith) refl
          (omega arith) (omega arith) refl l in
      ground (arith, parsed, found)

  header_at-field :
      (k : Bytes)
      → header_at
          (codes "Content-Disposition")
          (insert (codes "Content-Disposition") (disposition k) [])
        ≡ disposition k
  header_at-field k = ground (
    arith,
    lookup-insert (codes "Content-Disposition") (codes "Content-Disposition") (disposition k) [],
    bytes_eq_refl (codes "Content-Disposition"),
  )

  find_url-fields :
      (ps : List (Bytes × Bytes))
      → All IsName ps
      → find_url (parsed_parts env.algo (field_parts ps)) ≡ first_url ps
  unfolding find_url
  find_url-fields [] h = refl
  find_url-fields ((k, v) ∷ ps) (l, h) =
      rw (header_at-field k, disposition-is_url k l, find_url-fields ps h) refl

  -- From a multipart form whose content type has a boundary and whose fields have names with no ';',
  -- where the parser hands over the fields whole, the first field of the name "url" is taken; without
  -- one, or where it is empty, the form is refused.
  pub extract_url-fields :
      (content_type body boundary : Bytes) (c : ℕ) (m : HeaderParams) (ps : List (Bytes × Bytes))
      → starts_with content_type (codes "multipart/form-data") ≡ true
      → parse_header_value env.algo content_type ≡ params m
      → lookup (codes "boundary") m ≡ some (string (c ∷ boundary))
      → env.parser_execute (c_str (c ∷ boundary)) (env.algo.trim_right body)
        ≡ form_events (field_parts ps)
      → All IsName ps
      → extract_url env content_type body ≡ ok (multipart_url (first_url ps))
  unfolding extract_url extract_multipart
  extract_url-fields content_type body boundary c m ps multi parsed found called h =
      let sections = ingest-form_events env.algo (field_parts ps) in
      let u = find_url-fields ps h in
      ground (
        arith,
        other_type content_type multi,
        parsed,
        found,
        called,
        sections,
        u,
        unless_empty_lem (first_url ps),
      )
