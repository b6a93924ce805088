-- ===== src/ParseQs/Limits.antt =====
-- The limit on the number of parameters.
use shadyurl.Common.{
  ℕ, ◌+◌, ◌≤◌, ◌<◌, ◌≡◌, refl, ◌⊎◌, inl, inr, Bool-cases, List, [], ◌∷◌, Bytes, codes, ltb, length,
  arith, Dict, insert, count,
}
use shadyurl.Common.Result.{ok, thrown, length_error}
use shadyurl.Boost.{StringAlgo}
use shadyurl.Boost.Split.{split_on, length-split_on, split-split_on}
use shadyurl.ParseQs.{store, store_all, parse_qsl, split_by_eq, unquote}

length-insert : (k v : Bytes) (m : Dict Bytes) → length (insert k v m) ≤ length m + 1
unfolding insert
length-insert k v [] = omega arith
length-insert k v ((j, w) ∷ m) = ground (arith, length-insert k v m)

length-store : (kv : Bytes) (m : Dict Bytes) → length (store kv m) ≤ length m + 1
unfolding store
length-store [] m = omega arith
length-store (c ∷ kv) m =
    length-insert (unquote (split_by_eq (c ∷ kv)).0) (unquote (split_by_eq (c ∷ kv)).1) m

length-store_all :
    (qsv : List Bytes) (m : Dict Bytes) → length (store_all qsv m) ≤ length m + length qsv
unfolding store_all
length-store_all [] m = omega arith
length-store_all (kv ∷ qsv) m = omega (arith, length-store_all qsv (store kv m), length-store kv m)

module _ (b : StringAlgo) (qs : Bytes) (maxparams : ℕ) where
  stored_bound : length (store_all (b.split b'&' qs) []) ≤ count b'&' qs + 1
  stored_bound =
      rw (split-split_on b b'&' qs)
        (omega (arith, length-store_all (split_on b'&' qs) [], length-split_on b'&' qs))

  -- `parse_qsl` throws `length_error` where the query holds more than `maxparams` '&'; everywhere else
  -- it returns, and the map has at most `maxparams + 1` entries.
  pub parse_qsl_limit :
      ((maxparams < count b'&' qs)
        × (parse_qsl b qs maxparams ≡ thrown (length_error (codes "maxparams exceeded"))))
      ⊎ ((count b'&' qs ≤ maxparams)
          × ((m : Dict Bytes) × (parse_qsl b qs maxparams ≡ ok m) × (length m ≤ maxparams + 1)))
  unfolding parse_qsl
  parse_qsl_limit = elim (Bool-cases (ltb maxparams (count b'&' qs))) [
    | inl e ↦ inl (ground arith, rw e refl)
    | inr e ↦
        inr
          (ground arith, (store_all (b.split b'&' qs) [], rw e refl, ground (arith, stored_bound)))
  ]
