-- ===== src/Multipart.antt =====
-- src/multipart_wrapper.cpp and its header: header values, and the callbacks that collect the parts
-- of a form. The parser that calls them is not in the repository: its calls are a list of events.
pub mod Values
pub mod Sections
use shadyurl.Common.{
  ℕ, zero, suc, ◌+◌, Bool, true, false, Option, none, some, List, [], ◌∷◌, ◌++◌, Bytes, codes, ◌==◌,
  if◌then◌else◌, get_or, take, drop, find, Dict, lookup, insert,
}
use shadyurl.Boost.{StringAlgo}

-- `std::variant<std::monostate, std::string>`
pub data ParamValue : Type 0 where
  monostate : ParamValue
  string : Bytes → ParamValue

abbrev pub HeaderParams : Type 0
HeaderParams = Dict ParamValue

-- `std::variant<std::string, header_params_type>`
pub data Header : Type 0 where
  plain : Bytes → Header
  params : HeaderParams → Header

-- The characters that `ss >> std::quoted(v)` reads behind the opening quote: up to the next quote
-- that no backslash precedes, or to the end.
unfoldable pub quoted_from : Bool → Bytes → Bytes
quoted_from escaped [] = []
quoted_from true (c ∷ s) = c ∷ quoted_from false s
quoted_from false (c ∷ s) =
    let after_escape = quoted_from true s in
    let copied = c ∷ quoted_from false s in
    if c == b'\\' then after_escape else if c == b'"' then [] else copied

-- `if(v[0] == '"') … ss >> std::quoted(v);`
unfoldable pub param_value : Bytes → Bytes
unfolding quoted_from
param_value [] = []
param_value (c ∷ s) = if c == b'"' then quoted_from false s else c ∷ s

-- The body of the loop over the tokens, behind `trim_left`.
unfoldable pub store_param : Bytes → HeaderParams → HeaderParams
unfolding param_value find insert
store_param token m = elim (find b'=' token) [
  | some pos ↦ insert (take pos token) (string (param_value (drop (suc pos) token))) m
  | none ↦ insert token monostate m
]

module _ (b : StringAlgo) where
  unfoldable pub store_params : List Bytes → HeaderParams → HeaderParams
  store_params [] m = m
  store_params (token ∷ tokens) m = store_params tokens (store_param (b.trim_left token) m)

  -- `if(data.empty()) return std::string{}; else return data;`
  abbrev pub header_of : HeaderParams → Header
  header_of [] = plain []
  header_of (p ∷ m) = params (p ∷ m)

  unfoldable pub parse_header_value : Bytes → Header
  parse_header_value header = header_of (store_params (b.split b';' header) [])

pub record MultiPartSection : Type 0 where
  pub headers : Dict Header
  pub body : Bytes

-- The calls of the parser.
pub data Event : Type 0 where
  header_field header_value part_data : Bytes → Event

pub record MultiPartData : Type 0 where
  pub sections : List MultiPartSection
  pub cur_header_vals : Dict Header
  pub cur_header_name : Bytes

abbrev pub new_data : MultiPartData
new_data = record { sections = []; cur_header_vals = []; cur_header_name = [] }

unfoldable pub read_header_name : Bytes → MultiPartData → MultiPartData
read_header_name at mp = record mp { cur_header_name = at }

unfoldable pub read_body : Bytes → MultiPartData → MultiPartData
read_body at mp = record mp {
  sections = mp.sections ++ record { headers = mp.cur_header_vals; body = at } ∷ [];
  cur_header_vals = [];
}

module _ (b : StringAlgo) where
  unfoldable pub read_header_value : Bytes → MultiPartData → MultiPartData
  unfolding insert
  read_header_value at mp = record mp {
    cur_header_vals = insert mp.cur_header_name (parse_header_value b at) mp.cur_header_vals;
  }

  unfoldable pub on_event : Event → MultiPartData → MultiPartData
  unfolding read_header_name read_header_value read_body
  on_event (header_field at) mp = read_header_name at mp
  on_event (header_value at) mp = read_header_value at mp
  on_event (part_data at) mp = read_body at mp

  -- `ingest`: the parser makes its calls in order.
  unfoldable pub ingest : List Event → MultiPartData → MultiPartData
  ingest [] mp = mp
  ingest (e ∷ events) mp = ingest events (on_event e mp)
