-- ===== src/ParseQs/Query.antt =====
-- `parse_qsl` reads back the form that a list of bindings is encoded to.
use shadyurl.Common.{
  ℕ, suc, ◌+◌, ◌-◌, ◌/◌, ◌%◌, ◌≤◌, ◌≡◌, ◌≢◌, refl, sym, ap, ◌∙◌, Bool, false, Option, none, some,
  List, [], ◌∷◌, ◌++◌, Bytes, if◌then◌else◌, All, All-append, length, arith, Lacks, find_first,
  drop, take-length-append, Dict, lookup, insert, lookup-insert, bytes_eq, count, empty,
}
use shadyurl.Common.Result.{ok}
use shadyurl.Boost.{StringAlgo, joined}
use shadyurl.Boost.Split.{split_on, split_on-joined, length-split_on, split-split_on}
use shadyurl.ParseQs.{split_by_eq, store, store_all, parse_qsl}
use shadyurl.ParseQs.Unquote.{
  hex_digit, IsQuoted, end_of_text, as_itself, as_plus, as_digits, unquote_quoted,
}

pub drop_past : (k : Bytes) (c : ℕ) (v : Bytes) → drop (suc (length k)) (k ++ c ∷ v) ≡ v
drop_past [] c v = refl
drop_past (x ∷ k) c v = drop_past k c v

append-ne-nil : (s : Bytes) (c : ℕ) (t : Bytes) → empty (s ++ c ∷ t) ≡ false
append-ne-nil [] c t = refl
append-ne-nil (x ∷ s) c t = refl

-- A key that is not empty and a value, with the first '=' between them.
pub split_by_eq_pair : (k v : Bytes) → k ≢ [] → Lacks b'=' k → split_by_eq (k ++ b'=' ∷ v) ≡ (k, v)
unfolding split_by_eq
split_by_eq_pair [] v h _ = absurd (h refl)
split_by_eq_pair (x ∷ k) v h l = ground (
  arith,
  find_first b'=' (x ∷ k) v l,
  take-length-append (x ∷ k) (b'=' ∷ v),
  drop_past (x ∷ k) b'=' v,
)

-- The bindings of a form, each as `key=value` with both encoded.
pub data AreEncoded : List (Bytes × Bytes) → List Bytes → Type 0 where
  end_of_form : AreEncoded [] []
  encoded_as :
      {k v qk qv : Bytes} {ps : List (Bytes × Bytes)} {qs : List Bytes}
      → IsQuoted k qk
      → IsQuoted v qv
      → AreEncoded ps qs
      → AreEncoded ((k, v) ∷ ps) ((qk ++ b'=' ∷ qv) ∷ qs)

-- A form with the bindings: each encoded, with '&' between them.
abbrev pub IsForm : List (Bytes × Bytes) → Bytes → Type 0
IsForm ps body = (qs : List Bytes) × AreEncoded ps qs × (body ≡ joined (b'&' ∷ []) qs)

hex_digit-ne : (upper : Bool) (n : ℕ) → (hex_digit upper n ≢ b'&') × (hex_digit upper n ≢ b'=')
unfolding hex_digit
hex_digit-ne upper n = ground arith

quoted-Lacks : {s q : Bytes} → IsQuoted s q → Lacks b'&' q × Lacks b'=' q
quoted-Lacks end_of_text = (tt, tt)
quoted-Lacks (as_itself c percent plus amp eq h) =
    let (l, m) = quoted-Lacks h in ((amp, l), (eq, m))
quoted-Lacks (as_plus h) = let (l, m) = quoted-Lacks h in ((omega arith, l), (omega arith, m))
quoted-Lacks (as_digits c first_upper second_upper byte h) =
    let (l, m) = quoted-Lacks h in
    let (amp1, eq1) = hex_digit-ne first_upper (c / 16) in
    let (amp2, eq2) = hex_digit-ne second_upper (c % 16) in
    ((omega arith, (amp1, (amp2, l))), (omega arith, (eq1, (eq2, m))))

quoted-ne-nil : {s q : Bytes} → IsQuoted s q → s ≢ [] → q ≢ []
quoted-ne-nil end_of_text ne = ne
quoted-ne-nil (as_itself c percent plus amp eq h) ne = cc
quoted-ne-nil (as_plus h) ne = cc
quoted-ne-nil (as_digits c first_upper second_upper byte h) ne = cc

-- What the form says of a key: its last binding.
abbrev pub last_value : Bytes → List (Bytes × Bytes) → Option Bytes
last_value k [] = none
last_value k ((j, v) ∷ ps) = elim (last_value k ps) [
  | some w ↦ some w
  | none ↦ if bytes_eq j k then some v else none
]

abbrev or_lookup : Option Bytes → Bytes → Dict Bytes → Option Bytes
or_lookup (some w) k m = some w
or_lookup none k m = lookup k m

or_lookup-insert :
    (o : Option Bytes) (j k v : Bytes) (m : Dict Bytes)
    → or_lookup o k (insert j v m)
      ≡ or_lookup (elim o [ some w ↦ some w | none ↦ if bytes_eq j k then some v else none ]) k m
or_lookup-insert (some w) j k v m = refl
or_lookup-insert none j k v m = ground (arith, lookup-insert j k v m)

or_lookup-nil : (o : Option Bytes) (k : Bytes) → or_lookup o k [] ≡ o
unfolding lookup
or_lookup-nil (some w) k = refl
or_lookup-nil none k = refl

-- A key that is not empty.
abbrev pub IsBinding : Bytes × Bytes → Type 0
IsBinding (k, v) = k ≢ []

store_encoded :
    {k v qk qv : Bytes} (m : Dict Bytes)
    → IsQuoted k qk
    → IsQuoted v qv
    → k ≢ []
    → store (qk ++ b'=' ∷ qv) m ≡ insert k v m
unfolding store
store_encoded {k} {v} {qk} {qv} m hk hv ne =
    let (_, no_eq) = quoted-Lacks hk in
    ground (
      arith,
      split_by_eq_pair qk qv (quoted-ne-nil hk ne) no_eq,
      unquote_quoted hk,
      unquote_quoted hv,
      append-ne-nil qk b'=' qv,
    )

lookup-store_all :
    {ps : List (Bytes × Bytes)} {qs : List Bytes} (k : Bytes) (m : Dict Bytes)
    → AreEncoded ps qs
    → All IsBinding ps
    → lookup k (store_all qs m) ≡ or_lookup (last_value k ps) k m
unfolding store_all
lookup-store_all k m end_of_form h = refl
lookup-store_all k m (encoded_as {k = j} {v = v} {ps = ps} {qs = qs} hk hv rest) h =
    ap (λ n. lookup k (store_all qs n)) (store_encoded m hk hv h.0)
    ∙ lookup-store_all k (insert j v m) rest h.1
    ∙ or_lookup-insert (last_value k ps) j k v m

encoded-Lacks :
    {ps : List (Bytes × Bytes)} {qs : List Bytes} → AreEncoded ps qs → All (Lacks b'&') qs
encoded-Lacks end_of_form = tt
encoded-Lacks (encoded_as {qk = qk} {qv = qv} hk hv rest) = (
  All-append _ qk (b'=' ∷ qv) (quoted-Lacks hk).0 (omega arith, (quoted-Lacks hv).0),
  encoded-Lacks rest,
)

length-encoded :
    {ps : List (Bytes × Bytes)} {qs : List Bytes} → AreEncoded ps qs → length qs ≡ length ps
length-encoded end_of_form = refl
length-encoded (encoded_as hk hv rest) = ap suc (length-encoded rest)

cons-ne-nil : (q : Bytes) (qs : List Bytes) → q ∷ qs ≢ []
cons-ne-nil q qs e = cc

-- How many '&' there are between texts that have none.
count-joined :
    (qs : List Bytes) → All (Lacks b'&') qs → count b'&' (joined (b'&' ∷ []) qs) ≤ length qs - 1
count-joined [] h = unfold count in omega arith
count-joined (q ∷ qs) h = omega (
  arith,
  sym (length-split_on b'&' (joined (b'&' ∷ []) (q ∷ qs)))
      ∙ ap length (split_on-joined b'&' (q ∷ qs) (cons-ne-nil q qs) h),
)

store_all-joined :
    (b : StringAlgo) {ps : List (Bytes × Bytes)} {qs : List Bytes} (k : Bytes)
    → AreEncoded ps qs
    → All IsBinding ps
    → lookup k (store_all (b.split b'&' (joined (b'&' ∷ []) qs)) []) ≡ last_value k ps
store_all-joined b k end_of_form h =
    rw (split-split_on b) (unfold split_on store_all store lookup in refl)
store_all-joined b k (encoded_as {qk = qk} {qv = qv} {ps = ps} {qs = qs} hk hv rest) h =
    let all = encoded_as hk hv rest in
    rw
      (
        split-split_on b,
        split_on-joined b'&' ((qk ++ b'=' ∷ qv) ∷ qs) (cons-ne-nil (qk ++ b'=' ∷ qv) qs)
            (encoded-Lacks all),
      )
      (lookup-store_all k [] all h ∙ or_lookup-nil _ k)

-- A form whose keys are not empty, each byte encoded in any of the ways of `IsQuoted`, is read back:
-- with no more bindings than `maxparams + 1`, `parse_qsl` returns a map that gives each key its last
-- value.
pub parse_qsl_form :
    (b : StringAlgo) (maxparams : ℕ) (ps : List (Bytes × Bytes)) (body : Bytes)
    → IsForm ps body
    → All IsBinding ps
    → length ps ≤ maxparams + 1
    → (m : Dict Bytes) × (parse_qsl b body maxparams ≡ ok m)
      × ((k : Bytes) → lookup k m ≡ last_value k ps)
unfolding parse_qsl
parse_qsl_form b maxparams ps body (qs, enc, whole) h fits = (
  store_all (b.split b'&' body) [],
  ground (arith, whole, count-joined qs (encoded-Lacks enc), length-encoded enc),
  λ k. rw whole (store_all-joined b k enc h),
)
