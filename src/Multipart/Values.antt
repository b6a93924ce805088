-- ===== src/Multipart/Values.antt =====
-- What `parse_header_value` makes of a header.
use shadyurl.Common.{
  ℕ, suc, ◌≡◌, ◌≢◌, refl, ap, ◌∙◌, false, ◌||◌, some, List, [], ◌∷◌, ◌++◌, Bytes, ◌==◌,
  if◌then◌else◌, arith, Option-cases, inl, inr, All-append, Lacks, take, drop, take-length-append,
  find, find_first, Dict, lookup, insert, lookup-insert, bytes_eq_refl, is_space,
}
use shadyurl.Boost.{StringAlgo, starts_blank}
use shadyurl.Boost.Split.{split_on-append, split_on_of_Lacks, split-split_on}
use shadyurl.Boost.Trim.{drop_blanks, drop_blanks_of_head, trim_left-drop_blanks}
use shadyurl.ParseQs.Query.{drop_past}
use shadyurl.Multipart.{
  monostate, string, HeaderParams, plain, params, quoted_from, param_value, store_param,
  store_params, header_of, parse_header_value,
}

-- A text between quotes, with a backslash before each quote and each backslash.
pub escape : Bytes → Bytes
escape [] = []
escape (c ∷ s) =
    let later = escape s in if c == b'"' || c == b'\\' then b'\\' ∷ c ∷ later else c ∷ later

quoted_from-escape : (v rest : Bytes) → quoted_from false (escape v ++ b'"' ∷ rest) ≡ v
unfolding quoted_from escape
quoted_from-escape [] rest = refl
quoted_from-escape (c ∷ v) rest = ground (arith, quoted_from-escape v rest)

escape-Lacks : (b : ℕ) (v : Bytes) → b ≢ b'\\' → Lacks b v → Lacks b (escape v)
unfolding escape
escape-Lacks b [] n h = tt
escape-Lacks b (c ∷ v) n h = ground (arith, escape-Lacks b v n)

-- A name and its value between quotes.
abbrev pub quoted_param : Bytes → Bytes → Bytes
quoted_param k v = k ++ b'=' ∷ b'"' ∷ (escape v ++ b'"' ∷ [])

store_param-quoted :
    (k v : Bytes) (m : HeaderParams)
    → Lacks b'=' k
    → store_param (quoted_param k v) m ≡ insert k (string v) m
unfolding store_param param_value
store_param-quoted k v m h =
    let tail = b'"' ∷ (escape v ++ b'"' ∷ []) in
    ground (
      arith,
      find_first b'=' k tail h,
      take-length-append k (b'=' ∷ tail),
      drop_past k b'=' tail,
      quoted_from-escape v [],
    )

insert-ne-nil : {V : Type 0} (k : Bytes) (v : V) (m : Dict V) → insert k v m ≢ []
unfolding insert
insert-ne-nil k v [] = cc
insert-ne-nil k v ((j, w) ∷ m) = ground arith

header_of-params : (b : StringAlgo) (m : HeaderParams) → m ≢ [] → header_of b m ≡ params m
header_of-params b [] h = absurd (h refl)
header_of-params b (p ∷ m) h = refl

trim_of_head : (b : StringAlgo) (s : Bytes) → starts_blank s ≡ false → b.trim_left s ≡ s
trim_of_head b s h = trim_left-drop_blanks b s ∙ drop_blanks_of_head s h

trim_one_blank : (b : StringAlgo) (s : Bytes) → starts_blank s ≡ false → b.trim_left (b' ' ∷ s) ≡ s
unfolding drop_blanks
trim_one_blank b s h = trim_left-drop_blanks b (b' ' ∷ s) ∙ drop_blanks_of_head s h

head_append :
    (k : Bytes) (c : ℕ) (t : Bytes)
    → starts_blank k ≡ false
    → is_space c ≡ false
    → starts_blank (k ++ c ∷ t) ≡ false
head_append [] c t h e = e
head_append (x ∷ k) c t h e = h

stored_lem :
    (b : StringAlgo) (type token : Bytes) (m : HeaderParams)
    → b.trim_left type ≡ type
    → b.trim_left (b' ' ∷ token) ≡ token
    → store_param token (store_param type []) ≡ m
    → store_params b (type ∷ (b' ' ∷ token) ∷ []) [] ≡ m
unfolding store_params
stored_lem b type token m et ek es =
    ap (λ x. store_param (b.trim_left (b' ' ∷ token)) (store_param x [])) et
    ∙ ap (λ x. store_param x (store_param type [])) ek
    ∙ es

store_param-ne-nil : (token : Bytes) (m : HeaderParams) → store_param token m ≢ []
unfolding store_param
store_param-ne-nil token m = elim (Option-cases (find b'=' token)) [
  | inl e ↦ rw (e, store_param) (insert-ne-nil token monostate m)
  | inr (pos, e) ↦
      rw (e, store_param)
        (insert-ne-nil (take pos token) (string (param_value (drop (suc pos) token))) m)
]

store_params-ne-nil :
    (b : StringAlgo) (tokens : List Bytes) (m : HeaderParams)
    → m ≢ []
    → store_params b tokens m ≢ []
unfolding store_params
store_params-ne-nil b [] m h = h
store_params-ne-nil b (t ∷ tokens) m h =
    store_params-ne-nil b tokens (store_param (b.trim_left t) m)
      (store_param-ne-nil (b.trim_left t) m)

tokens-ne-plain :
    (b : StringAlgo) (tokens : List Bytes) (s : Bytes)
    → tokens ≢ []
    → header_of b (store_params b tokens []) ≢ plain s
unfolding store_params
tokens-ne-plain b [] s h = absurd (h refl)
tokens-ne-plain b (t ∷ tokens) s h =
    let m = store_params b tokens (store_param (b.trim_left t) []) in
    let e = header_of-params b m (
      store_params-ne-nil b tokens (store_param (b.trim_left t) [])
        (store_param-ne-nil (b.trim_left t) [])) in
    λ k. cc e

module _ (b : StringAlgo) where
  -- A header `type; name="value"`, whose type and name hold no ';' or '=' and begin with no blank, and
  -- whose value holds no ';', is parsed to parameters in which the name has that value: quotes and
  -- backslashes in the value, escaped by a backslash, are read back.
  pub parse_header_value-quoted :
      (type k v : Bytes)
      → Lacks b';' type
      → starts_blank type ≡ false
      → Lacks b';' k
      → Lacks b'=' k
      → starts_blank k ≡ false
      → Lacks b';' v
      → (m : HeaderParams) × (parse_header_value b (type ++ b';' ∷ b' ' ∷ quoted_param k v)
          ≡ params m)
        × (lookup k m ≡ some (string v))
  unfolding parse_header_value
  parse_header_value-quoted type k v ht bt hk ek bk hv =
      let m0 = store_param type [] in
      let m1 = insert k (string v) m0 in
      let token = quoted_param k v in
      let lacks : Lacks b';' (b' ' ∷ token) = (
        (omega arith),
        All-append _ k (b'=' ∷ b'"' ∷ (escape v ++ b'"' ∷ [])) hk (
          (omega arith),
          (
            (omega arith),
            All-append _ (escape v) (b'"' ∷ []) (escape-Lacks b';' v (omega arith) hv)
                ((omega arith), tt),
          ),
        ),
      ) in
      let cut : b.split b';' (type ++ b';' ∷ b' ' ∷ token) ≡ type ∷ (b' ' ∷ token) ∷ [] =
        split-split_on b b';' (type ++ b';' ∷ b' ' ∷ token)
        ∙ split_on-append b';' type (b' ' ∷ token) ht
        ∙ ap (◌∷◌ type) (split_on_of_Lacks b';' (b' ' ∷ token) lacks) in
      let stored : store_params b (type ∷ (b' ' ∷ token) ∷ []) [] ≡ m1 =
        stored_lem b type token m1 (trim_of_head b type bt)
          (trim_one_blank b token (head_append k b'=' _ bk refl)) (store_param-quoted k v m0 ek) in
      (
        m1,
        ap (λ ts. header_of b (store_params b ts [])) cut
            ∙ ap (header_of b) stored
            ∙ header_of-params b m1 (insert-ne-nil k (string v) m0),
        lookup-insert k k (string v) m0 ∙ rw (bytes_eq_refl k) refl,
      )

  -- No header is parsed to a plain string: the tests for that alternative in `handle_post` never
  -- succeed on a parsed header.
  pub parse_header_value-ne-plain : (h s : Bytes) → parse_header_value b h ≢ plain s
  unfolding parse_header_value
  parse_header_value-ne-plain h s = tokens-ne-plain b (b.split b';' h) s (b.split_some b';' h)
