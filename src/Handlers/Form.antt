-- ===== src/Handlers/Form.antt =====
-- The part of `handle_post` that finds the URL in the body.
use shadyurl.Common.{
  Bool, false, Option, none, some, List, [], ◌∷◌, ◌++◌, Bytes, codes, if◌then◌else◌, c_str,
  starts_with, bytes_eq, Dict, lookup,
}
use shadyurl.Common.Result.{Result, ok, ◌>>=◌}
use shadyurl.ParseQs.{parse_qsl, default_maxparams}
use shadyurl.Multipart.{
  ParamValue, monostate, string, HeaderParams, Header, plain, params, MultiPartSection,
  parse_header_value, new_data, ingest,
}
use shadyurl.Handlers.Effects.{Env}

pub data Extracted : Type 0 where
  -- the reason of a bad request
  refused : Bytes → Extracted
  url : Bytes → Extracted

-- `map[key]` of parameters: a missing key is added with the first alternative.
abbrev pub param_of : Bytes → HeaderParams → ParamValue
param_of k m = elim (lookup k m) [ none ↦ monostate | some v ↦ v ]

-- `h["Content-Disposition"]` of headers: a missing one is an empty string.
abbrev pub header_at : Bytes → Dict Header → Header
header_at k h = elim (lookup k h) [ none ↦ plain [] | some v ↦ v ]

abbrev named_url : ParamValue → Bool
named_url monostate = false
named_url (string name) = bytes_eq name (codes "url")

-- Whether the loop stops at this section.
unfoldable pub is_url_section : Header → Bool
unfolding bytes_eq lookup
is_url_section (plain s) = false
is_url_section (params cdmap) = named_url (param_of (codes "name") cdmap)

-- The loop over the sections: `url` stays empty where none is found.
unfoldable pub find_url : List MultiPartSection → Bytes
unfolding is_url_section
find_url [] = []
find_url (elem ∷ form_data) =
    let later = find_url form_data in
    if is_url_section (header_at (codes "Content-Disposition") elem.headers)
    then elem.body
    else later

abbrev pub unless_empty : Bytes → Extracted
unless_empty [] = refused (codes "No URL specified")
unless_empty (c ∷ s) = url (c ∷ s)

module _ (env : Env) where
  unfoldable pub extract_multipart : ParamValue → Bytes → Extracted
  unfolding find_url ingest
  extract_multipart monostate body = refused (codes "Bad request")
  extract_multipart (string []) body = refused (codes "Bad request")
  extract_multipart (string (c ∷ boundary)) body =
      let events = env.parser_execute (c_str (c ∷ boundary)) (env.algo.trim_right body) in
      unless_empty (find_url (ingest env.algo events new_data).sections)

  abbrev pub multipart_boundary : Header → Bytes → Extracted
  multipart_boundary (plain s) body = refused (codes "Bad request")
  multipart_boundary (params hvmap) body =
      extract_multipart (param_of (codes "boundary") hvmap) body

  abbrev qsl_url : Option Bytes → Extracted
  qsl_url none = refused (codes "No URL parameter passed")
  qsl_url (some u) = url u

  unfoldable pub extract_url : Bytes → Bytes → Result Extracted
  extract_url content_type body =
      if bytes_eq content_type (codes "application/x-www-form-urlencoded")
      then (parse_qsl env.algo body default_maxparams >>= λ qsm.
          ok (qsl_url (lookup (codes "url") qsm)))
      else if starts_with content_type (codes "multipart/form-data")
      then ok (multipart_boundary (parse_header_value env.algo content_type) body)
      else ok (refused (codes "Bad content type " ++ content_type))
