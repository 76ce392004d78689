-- ===== src/Sort.antt =====
-- `sort_by` and `truncate` of the standard library: a stable sort by a comparison.
pub mod Laws
pub mod Nearest
use grainstore.Base.{ℕ, List, [], ◌∷◌, Ordering, lt, eq, gt, take}

module _ {ℓ} {A : Type ℓ} (cmp : A → A → Ordering) where
  -- `x` goes before the first element that is not below it.
  unfoldable pub insert_by : A → List A → List A
  insert_by x [] = x ∷ []
  insert_by x (y ∷ ys) =
      let rest = insert_by x ys in elim (cmp y x) [ lt ↦ y ∷ rest | _ ↦ x ∷ y ∷ ys ]

  unfoldable pub sort_by : List A → List A
  unfolding insert_by
  sort_by [] = []
  sort_by (x ∷ xs) = insert_by x (sort_by xs)
