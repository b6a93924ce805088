-- ===== src/Generate/Entropy.antt =====
-- `std::mt19937` and `std::uniform_int_distribution` as the program uses them: draws from a range,
-- from a state that the seed determines. The draws are a parameter; what is known of one is the
-- range that the standard promises.
use shadyurl.Common.{ℕ, ◌≤◌, ◌≡◌, refl, Bool, true, false, if◌then◌else◌, Option, none, some}

pub record Random : Type 1 where
  pub State : Type 0
  -- `uniform_int_distribution(lo, hi)(mt)`
  pub uniform : ℕ → ℕ → State → ℕ × State
  pub uniform_range :
      (lo hi : ℕ) (st : State) → lo ≤ hi → (lo ≤ (uniform lo hi st).0) × ((uniform lo hi st).0 ≤ hi)

module _ (r : Random) where
  open r use {State, uniform, uniform_range}

  -- A computation that draws; `none` means that the fuel of a loop ran out.
  abbrev pub Draws : Type 0 → Type 0
  Draws A = State → Option (A × State)

  -- Whatever the state, the computation returns, and what it returns satisfies `P`.
  pub record Produces {A : Type 0} (P : A → Type 0) (m : Draws A) : Type 0 where
    pub at : (st : State) → (a : A) × (st' : State) × (m st ≡ some (a, st')) × P a

  unfoldable pub draw : ℕ → ℕ → Draws ℕ
  draw lo hi st = some (uniform lo hi st)

  unfoldable pub pure : {A : Type 0} → A → Draws A
  pure a st = some (a, st)

  -- Opening this opens `draw` and `pure` too.
  unfoldable pub bind : {A B : Type 0} → Draws A → (A → Draws B) → Draws B
  unfolding draw pure
  bind m f st = elim (m st) [ none ↦ none | some (a, st') ↦ f a st' ]

  pub Produces-draw : (lo hi : ℕ) → lo ≤ hi → Produces (λ n. (lo ≤ n) × (n ≤ hi)) (draw lo hi)
  unfolding draw
  Produces-draw lo hi h = record {
    at = λ st. ((uniform lo hi st).0, (uniform lo hi st).1, refl, uniform_range lo hi st h);
  }

  pub Produces-pure : {A : Type 0} {P : A → Type 0} (a : A) → P a → Produces P (pure a)
  unfolding pure
  Produces-pure a h = record { at = λ st. (a, st, refl, h) }

  pub Produces-bind :
      {A B : Type 0} {P : A → Type 0} {Q : B → Type 0} (m : Draws A) (f : A → Draws B)
      → Produces P m
      → ((a : A) → P a → Produces Q (f a))
      → Produces Q (bind m f)
  unfolding bind
  Produces-bind m f hm hf = record {
    at = λ st.
        let (a, st', e, p) = hm.at st in
        let (b, st'', e', q) = (hf a p).at st' in (b, st'', rw (e, bind) e', q);
  }

  pub Produces-if :
      {A : Type 0} {P : A → Type 0} (t : Bool) (m n : Draws A)
      → (t ≡ true → Produces P m)
      → (t ≡ false → Produces P n)
      → Produces P (if t then m else n)
  Produces-if true m n hm hn = hm refl
  Produces-if false m n hm hn = hn refl
