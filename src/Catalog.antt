-- ===== src/Catalog.antt =====
-- src/catalog.rs: counts of the values of header byte 0.
use grainstore.Base.{
  ℕ, suc, ◌+◌, ◌≡◌, refl, List, [], ◌∷◌, Option, none, some, ◌==◌, if◌then◌else◌, foldl, length,
  arith,
}
use grainstore.Planner.{Float64}

pub record CatState : Type 0 where
  pub total : ℕ
  pub by_value : ℕ → ℕ

abbrev pub new : CatState
new = record { total = 0; by_value = λ _. 0 }

unfoldable pub observe : CatState → ℕ → CatState
observe s value = record {
  total = s.total + 1;
  by_value = λ v. if v == value then s.by_value v + 1 else s.by_value v;
}

-- The two counts whose quotient is the estimate, or none when nothing was observed.
unfoldable pub counts : CatState → ℕ → Option (ℕ × ℕ)
counts s value = if s.total == 0 then none else some (s.by_value value, s.total)

module _ (f : Float64) where
  open f use {Real, lit, div}

  share : Option (ℕ × ℕ) → Option Real
  share none = none
  share (some (count, total)) = some (div (lit count 1) (lit total 1))

  -- A count as an `f64` is the literal of it.
  unfoldable pub selectivity : CatState → ℕ → Option Real
  unfolding share counts
  selectivity s value = share (counts s value)

-- How often `value` stands in the list.
pub count : ℕ → List ℕ → ℕ
count value [] = 0
count value (v ∷ vs) = if value == v then suc (count value vs) else count value vs

observe_from :
    (s : CatState) (vs : List ℕ) (value : ℕ)
    → ((foldl observe s vs).total ≡ s.total + length vs)
      × ((foldl observe s vs).by_value value ≡ s.by_value value + count value vs)
unfolding observe count
observe_from s [] value = omega arith
observe_from s (v ∷ vs) value = ground (arith, observe_from (observe s v) vs value)

counts-observe :
    (v : ℕ) (vs : List ℕ) (value : ℕ)
    → counts (foldl observe new (v ∷ vs)) value ≡ some (count value (v ∷ vs), length (v ∷ vs))
unfolding counts
counts-observe v vs value = ground (arith, observe_from new (v ∷ vs) value)

-- After any observations the estimate of a value is its exact count over their number, and there is
-- none only before the first.
pub selectivity-observe :
    (f : Float64) (v : ℕ) (vs : List ℕ) (value : ℕ)
    → (selectivity f (foldl observe new (v ∷ vs)) value
        ≡ some (f.div (f.lit (count value (v ∷ vs)) 1) (f.lit (length (v ∷ vs)) 1)))
      × (selectivity f new value ≡ none)
unfolding selectivity
selectivity-observe f v vs value = (rw (counts-observe v vs value) refl, refl)
