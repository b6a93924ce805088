-- ===== src/Tests/Forms.antt =====
-- A URL from a form in each of its encodings.
use shadyurl.Common.{
  ◌≡◌, refl, true, false, some, Bytes, List, [], ◌∷◌, ◌++◌, codes, arith, starts_with, lookup,
}
use shadyurl.Common.Result.{ok}
use shadyurl.Boost.Reference.{reference}
use shadyurl.ParseQs.Unquote.{hex_digit, as_digits, as_plus, end_of_text}
use shadyurl.ParseQs.Query.{IsForm, encoded_as, end_of_form, last_value}
use shadyurl.Multipart.{HeaderParams, params, string, parse_header_value}
use shadyurl.Multipart.Values.{quoted_param, parse_header_value-quoted}
use shadyurl.Multipart.Sections.{form_events}
use shadyurl.Handlers.Effects.{Env}
use shadyurl.Handlers.Form.{Extracted, extract_url}
use shadyurl.Handlers.Variants.{read_multipart, read_multipart-extract_url}
use shadyurl.Handlers.Extraction.{
  form_url, field_parts, multipart_url, first_url, extract_url_form, extract_url-fields,
}
use shadyurl.Tests.Setup.{env}
use shadyurl.Tests.Text.{plain_byte, plain_text}

abbrev bindings : List (Bytes × Bytes)
bindings = (codes "url", codes "x") ∷ (codes "url", codes "y&z  /~") ∷ []

-- The second value is encoded in several ways.
bindings-IsForm : IsForm bindings (codes "url=x&%75rl=y%26z+%20%2f%7E")
unfolding hex_digit
bindings-IsForm =
    let rl = plain_text (codes "rl") (refl, (refl, tt)) in
    let slash =
      as_digits b'/' true false (omega arith)
        (as_digits b'~' true true (omega arith) end_of_text) in
    let blanks = as_plus (as_digits b' ' true true (omega arith) slash) in
    let amp = as_digits b'&' false true (omega arith) (plain_byte b'z' refl blanks) in
    (
      codes "url=x" ∷ codes "%75rl=y%26z+%20%2f%7E" ∷ [],
      encoded_as (plain_text (codes "url") (refl, (refl, (refl, tt))))
          (plain_text (codes "x") (refl, tt))
          (encoded_as (as_digits b'u' true true (omega arith) rl) (plain_byte b'y' refl amp)
            end_of_form),
      refl,
    )

extract_url_form_example :
    extract_url env
      (codes "application/x-www-form-urlencoded")
      (codes "url=x&%75rl=y%26z+%20%2f%7E")
    ≡ ok (form_url (last_value (codes "url") bindings))
extract_url_form_example =
    extract_url_form env bindings (codes "url=x&%75rl=y%26z+%20%2f%7E") bindings-IsForm
      ((λ e. cc), ((λ e. cc), tt)) (omega arith)

abbrev fields : List (Bytes × Bytes)
fields = (codes "lang", codes "en") ∷ (codes "url", codes "http://a") ∷ []

-- The parser hands over the two fields.
abbrev form_env : Env
form_env = record env { parser_execute = λ boundary body. form_events (field_parts fields) }

abbrev form_type : Bytes
form_type = codes "multipart/form-data" ++ b';' ∷ b' ' ∷ quoted_param (codes "boundary") (codes "x")

form_type-multipart : starts_with form_type (codes "multipart/form-data") ≡ true
unfolding starts_with
form_type-multipart = refl

typed :
    (m : HeaderParams) × (parse_header_value reference form_type ≡ params m)
    × (lookup (codes "boundary") m ≡ some (string (codes "x")))
typed =
    parse_header_value-quoted reference (codes "multipart/form-data") (codes "boundary") (codes "x")
      (omega arith) refl (omega arith) (omega arith) refl (omega arith)

extract_url-fields_example :
    extract_url form_env form_type [] ≡ ok (multipart_url (first_url fields))
extract_url-fields_example =
    extract_url-fields form_env form_type [] [] b'x' typed.0 fields form_type-multipart typed.1
      typed.2 refl (omega arith, (omega arith, tt))

read_multipart-extract_url_example :
    (found : Extracted) × (read_multipart form_env form_type [] ≡ some found)
    × (extract_url form_env form_type [] ≡ ok found)
read_multipart-extract_url_example =
    read_multipart-extract_url form_env form_type [] form_type-multipart
