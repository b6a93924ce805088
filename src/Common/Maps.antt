-- ===== src/Common/Maps.antt =====
-- `std::map` and `std::unordered_map` keyed by strings: an association list, read by `find` and
-- written by `map[k] = v`. The program never iterates over one, so the order is not observed.
use mathlib.Core.Path.{◌≡◌, refl}
use mathlib.Core.Option.{Option, none, some}
use mathlib.Core.List.{List, [], ◌∷◌}
use native.Mathlib.Omega.{arith}
use shadyurl.Common.Tests.{if◌then◌else◌}
use shadyurl.Common.Strings.{Bytes, bytes_eq, bytes_eq_iff}

abbrev pub Dict {ℓ} : Type ℓ → Type ℓ
Dict V = List (Bytes × V)

module _ {ℓ} {V : Type ℓ} where
  -- `find(key)`
  unfoldable pub lookup : Bytes → Dict V → Option V
  lookup key [] = none
  lookup key ((name, value) ∷ others) = if bytes_eq name key then some value else lookup key others

  -- `map[key] = value`
  unfoldable pub insert : Bytes → V → Dict V → Dict V
  insert key value [] = (key, value) ∷ []
  insert key value ((name, old) ∷ others) =
      let kept = insert key value others in
      if bytes_eq name key then (key, value) ∷ others else (name, old) ∷ kept

  pub lookup-insert :
      (written key : Bytes) (value : V) (entries : Dict V)
      → lookup key (insert written value entries)
        ≡ (if bytes_eq written key then some value else lookup key entries)
  unfolding lookup insert
  lookup-insert written key value [] = refl
  lookup-insert written key value ((name, old) ∷ others) = ground (
    arith,
    lookup-insert written key value others,
    bytes_eq_iff name written,
    bytes_eq_iff written key,
    bytes_eq_iff name key,
  )
