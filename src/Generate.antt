-- ===== src/Generate.antt =====
-- src/generate.cpp: the random file name that becomes the token of a URL.
pub mod Words
pub mod Entropy
pub mod Bounds
use shadyurl.Common.{
  ℕ, zero, suc, ◌+◌, ◌-◌, Bool, true, false, String, Option, none, some, List, [], ◌∷◌, ◌++◌, Bytes,
  codes, ◌==◌, ltb, if◌then◌else◌, get_or, length,
}
use shadyurl.Boost.{StringAlgo}
use Entropy.{Random, Draws, draw, pure, bind}
use Words.{nsfw, ext, charlist}

-- `array[i]` of an array of C strings.
abbrev pub word : List String → ℕ → Bytes
word xs i = codes (get_or xs i "")

module _ (r : Random) where
  infixl 5 ◌>>=◌
  abbrev ◌>>=◌ : {A B : Type 0} → Draws r A → (A → Draws r B) → Draws r B
  m >>= f = bind r m f

  -- The loop of `generate_randstr`: its bound is drawn anew before each round.
  unfoldable pub randstr_from : ℕ → ℕ → Draws r Bytes
  randstr_from zero i = λ st. none
  randstr_from (suc fuel) i = do
    bound ← draw r 6 15
    if ltb i bound
        then (do
          k ← draw r 0 (length charlist - 1)
          s ← randstr_from fuel (i + 1)
          pure r (get_or charlist k 0 ∷ s))
        else pure r []

  -- The loop ends in the sixteenth round at the latest.
  unfoldable pub generate_randstr : Draws r Bytes
  generate_randstr = randstr_from 16 0

  -- `random_insert_count < 3 && dist_insert_random(mt) == 0`
  unfoldable pub wants_random : ℕ → Draws r Bool
  wants_random inserted =
      if ltb inserted 3 then (do d ← draw r 0 4; pure r (d == 0)) else pure r false

  -- One round of the loop: the part that is pushed and the new `random_insert_count`.
  unfoldable pub next_part : ℕ → Draws r (Bytes × ℕ)
  next_part inserted = do
    random ← wants_random inserted
    if random
        then (do s ← generate_randstr; pure r (s, inserted + 1))
        else (do k ← draw r 0 (length nsfw - 1); pure r (word nsfw k, inserted))

  -- The loop over `len` rounds: the parts in order and the final `random_insert_count`.
  unfoldable pub parts : ℕ → ℕ → Draws r (List Bytes × ℕ)
  parts zero inserted = pure r ([], inserted)
  parts (suc rounds) inserted = do
    first ← next_part inserted
    others ← parts rounds first.1
    pure r (first.0 ∷ others.0, others.1)

  -- What is pushed after the loop: a random part, if the loop pushed none.
  unfoldable pub last_parts : ℕ → Draws r (List Bytes)
  last_parts inserted =
      if inserted == 0 then (do s ← generate_randstr; pure r (s ∷ [])) else pure r []

  unfoldable pub generate_random_filename : StringAlgo → Draws r Bytes
  generate_random_filename b = do
    len ← draw r 5 8
    out ← parts len 0
    more ← last_parts out.1
    e ← draw r 0 (length ext - 1)
    pure r (b.join (out.0 ++ more) (codes "-") ++ word ext e)
