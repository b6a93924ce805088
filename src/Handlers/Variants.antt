-- ===== src/Handlers/Variants.antt =====
-- The variants that `handle_post` reads from a multipart form, by the calls of `std::get` that the code
-- makes: each throws `std::bad_variant_access`, here `none`, where the other alternative is held.
use shadyurl.Common.{
  ◌≡◌, refl, Bool, true, false, Option, none, some, List, [], ◌∷◌, Bytes, codes, c_str, bytes_eq,
  starts_with, if◌then◌else◌, arith,
}
use shadyurl.Common.Result.{ok}
use shadyurl.Multipart.{
  ParamValue, monostate, string, HeaderParams, Header, plain, params, MultiPartSection,
  parse_header_value, new_data, ingest,
}
use shadyurl.Handlers.Effects.{Env}
use shadyurl.Handlers.Form.{
  Extracted, refused, param_of, header_at, is_url_section, find_url, unless_empty,
  extract_multipart, multipart_boundary, extract_url,
}
use shadyurl.Handlers.Extraction.{other_type}

-- `std::holds_alternative` and `std::get`.
abbrev pub holds_string : Header → Bool
holds_string (plain s) = true
holds_string (params m) = false

abbrev pub get_params : Header → Option HeaderParams
get_params (plain s) = none
get_params (params m) = some m

abbrev pub holds_monostate : ParamValue → Bool
holds_monostate monostate = true
holds_monostate (string s) = false

abbrev pub get_string : ParamValue → Option Bytes
get_string monostate = none
get_string (string s) = some s

infixl 5 ◌>>=◌
abbrev ◌>>=◌ : {A B : Type 0} → Option A → (A → Option B) → Option B
none >>= f = none
some a >>= f = f a

-- The body of the loop over the sections, with the rest of the loop.
unfoldable pub section_url : MultiPartSection → Option Bytes → Option Bytes
section_url elem later =
    let cd = header_at (codes "Content-Disposition") elem.headers in
    if holds_string cd
    then later
    else (get_params cd >>= λ cdmap.
        if holds_monostate (param_of (codes "name") cdmap)
        then later
        else (get_string (param_of (codes "name") cdmap) >>= λ name.
            if bytes_eq name (codes "url") then some elem.body else later))

unfoldable pub sections_url : List MultiPartSection → Option Bytes
unfolding section_url
sections_url [] = some []
sections_url (elem ∷ form_data) = section_url elem (sections_url form_data)

module _ (env : Env) where
  -- Behind the choice of the boundary.
  unfoldable pub read_form : Bytes → Bytes → Option Extracted
  unfolding sections_url
  read_form [] body = some (refused (codes "Bad request"))
  read_form (c ∷ boundary) body =
      let events = env.parser_execute (c_str (c ∷ boundary)) (env.algo.trim_right body) in
      sections_url (ingest env.algo events new_data).sections >>= λ u. some (unless_empty u)

  -- The branch of `handle_post` for a multipart form.
  unfoldable pub read_multipart : Bytes → Bytes → Option Extracted
  unfolding read_form
  read_multipart content_type body =
      let hv = parse_header_value env.algo content_type in
      if holds_string hv
      then some (refused (codes "Bad request"))
      else (get_params hv >>= λ hvmap.
          if holds_monostate (param_of (codes "boundary") hvmap)
          then some (refused (codes "Bad request"))
          else (get_string (param_of (codes "boundary") hvmap) >>= λ boundary.
              read_form boundary body))

section_url_lem :
    (elem : MultiPartSection) (later : Bytes)
    → section_url elem (some later)
      ≡ some (
          if is_url_section (header_at (codes "Content-Disposition") elem.headers)
          then elem.body
          else later)
unfolding section_url is_url_section
section_url_lem elem later = ground arith

sections_url_lem : (form : List MultiPartSection) → sections_url form ≡ some (find_url form)
unfolding sections_url find_url
sections_url_lem [] = refl
sections_url_lem (elem ∷ form) = rw (sections_url_lem form) (section_url_lem elem (find_url form))

module _ (env : Env) where
  read_form_lem :
      (boundary body : Bytes)
      → read_form env boundary body ≡ some (extract_multipart env (string boundary) body)
  unfolding read_form extract_multipart
  read_form_lem [] body = refl
  read_form_lem (c ∷ boundary) body =
      let events = env.parser_execute (c_str (c ∷ boundary)) (env.algo.trim_right body) in
      rw (sections_url_lem (ingest env.algo events new_data).sections) refl

  boundary_lem :
      (v : ParamValue) (body : Bytes)
      → (if holds_monostate v
          then some (refused (codes "Bad request"))
          else (get_string v >>= λ boundary. read_form env boundary body))
        ≡ some (extract_multipart env v body)
  unfolding extract_multipart
  boundary_lem monostate body = refl
  boundary_lem (string boundary) body = read_form_lem boundary body

  header_lem :
      (hv : Header) (body : Bytes)
      → (if holds_string hv
          then some (refused (codes "Bad request"))
          else (get_params hv >>= λ hvmap.
              if holds_monostate (param_of (codes "boundary") hvmap)
              then some (refused (codes "Bad request"))
              else (get_string (param_of (codes "boundary") hvmap) >>= λ boundary.
                  read_form env boundary body)))
        ≡ some (multipart_boundary env hv body)
  header_lem (plain s) body = refl
  header_lem (params hvmap) body = boundary_lem (param_of (codes "boundary") hvmap) body

  -- For a multipart form, whatever its headers are, no `std::get` of `handle_post` meets the other
  -- alternative: the branch ends with no `std::bad_variant_access`, by what `handle_post` goes on with.
  pub read_multipart-extract_url :
      (content_type body : Bytes)
      → starts_with content_type (codes "multipart/form-data") ≡ true
      → (found : Extracted) × (read_multipart env content_type body ≡ some found)
        × (extract_url env content_type body ≡ ok found)
  unfolding read_multipart extract_url
  read_multipart-extract_url content_type body multi = (
    multipart_boundary env (parse_header_value env.algo content_type) body,
    header_lem (parse_header_value env.algo content_type) body,
    ground (arith, multi, other_type content_type multi),
  )
