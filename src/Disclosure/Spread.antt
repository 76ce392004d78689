-- ===== src/Disclosure/Spread.antt =====
-- src/disclosure.rs: the distances and the sharpness of a summary.
use grainstore.Base.{
  ℕ, zero, suc, ◌-◌, ◌/◌, ◌<◌, ◌≤◌, ◌≡◌, refl, ap, ◌∙◌, ◌⊎◌, inl, inr, List, [], ◌∷◌, All, All-perm,
  All-of_map, get_or, length, map, true, false, arith, Bool-cases,
}
use grainstore.Disclosure.{distances, clamp_unit, sharpness_of, build_summary}
use grainstore.Float.{Float32, is_nan, value_rank, cmp_or_equal, max32}
use grainstore.Query.{Ranked}
use grainstore.Sort.Laws.{IsSorted, Agrees, sort_by-perm, sort_by-IsSorted}
use grainstore.Sort.Nearest.{length-perm}
use mathlib.Core.List.{Perm}
use native.Mathlib.Bridge.{le_prop}

abbrev Number : ℕ → Type 0
Number x = is_nan x ≡ false

cmp_or_equal-Agrees : Agrees cmp_or_equal value_rank Number
unfolding cmp_or_equal
cmp_or_equal-Agrees x y hx hy = rw (hx, hy) (ground arith)

All-get_or : (P : ℕ → Type 0) (d : List ℕ) (i : ℕ) → i < length d → All P d → P (get_or 0 d i)
All-get_or P [] i h all = absurd (omega arith)
All-get_or P (x ∷ d) zero h all = all.0
All-get_or P (x ∷ d) (suc i) h all = All-get_or P d i (omega arith) all.1

-- In a sorted list a later element has no smaller rank.
IsSorted-get_or :
    (d : List ℕ) (i j : ℕ)
    → IsSorted value_rank d
    → i ≤ j
    → j < length d
    → value_rank (get_or 0 d i) ≤ value_rank (get_or 0 d j)
IsSorted-get_or [] i j s h b = absurd (omega arith)
IsSorted-get_or (x ∷ d) zero zero s h b = omega arith
IsSorted-get_or (x ∷ d) zero (suc j) s h b =
    All-get_or (λ y. value_rank x ≤ value_rank y) d j (omega arith) s.0
IsSorted-get_or (x ∷ d) (suc i) zero s h b = absurd (omega arith)
IsSorted-get_or (x ∷ d) (suc i) (suc j) s h b =
    IsSorted-get_or d i j s.1 (omega arith) (omega arith)

-- What holds at every index holds of all.
All-of_get_or :
    (P : ℕ → Type 0) (d : List ℕ) → ((i : ℕ) → i < length d → P (get_or 0 d i)) → All P d
All-of_get_or P [] h = tt
All-of_get_or P (x ∷ d) h = (h 0 (omega arith), All-of_get_or P d (λ i b. h (suc i) (omega arith)))

module _ (d : List ℕ) (s : IsSorted value_rank d) where
  abbrev Between : ℕ → Type 0
  Between x =
      (value_rank (get_or 0 d 0) ≤ value_rank x)
      × (value_rank x ≤ value_rank (get_or 0 d (length d - 1)))

  All-Between : All Between d
  All-Between = All-of_get_or Between d λ i b. (
    IsSorted-get_or d 0 i s (omega arith) b,
    IsSorted-get_or d i (length d - 1) s (omega arith) (omega arith),
  )

  median-Between : 0 < length d → Between (get_or 0 d (length d / 2))
  median-Between some = All-get_or Between d (length d / 2) (omega arith) All-Between

All-of_distances :
    (ranked : List Ranked)
    → All (λ r. is_nan r.dist ≡ false) ranked
    → All Number (map (λ (r : Ranked). r.dist) ranked)
All-of_distances [] h = tt
All-of_distances (r ∷ ranked) h = (h.0, All-of_distances ranked h.1)

distances-perm :
    (ranked : List Ranked) → Perm (distances ranked) (map (λ (r : Ranked). r.dist) ranked)
unfolding distances
distances-perm ranked = sort_by-perm cmp_or_equal (map (λ (r : Ranked). r.dist) ranked)

length-distances : (ranked : List Ranked) → length (distances ranked) ≡ length ranked
length-distances ranked = length-perm (distances-perm ranked) ∙ mapped ranked
  where
    mapped : (rows : List Ranked) → length (map (λ (r : Ranked). r.dist) rows) ≡ length rows
    mapped [] = refl
    mapped (r ∷ rows) = ap (λ (n : ℕ). suc n) (mapped rows)

distances-IsSorted :
    (ranked : List Ranked)
    → All (λ r. is_nan r.dist ≡ false) ranked
    → IsSorted value_rank (distances ranked)
unfolding distances
distances-IsSorted ranked h =
    sort_by-IsSorted cmp_or_equal value_rank Number cmp_or_equal-Agrees
      (map (λ (r : Ranked). r.dist) ranked) (All-of_distances ranked h)

clamp_unit_bounds :
    (x : ℕ)
    → (is_nan (clamp_unit x) ≡ true)
      ⊎ ((value_rank 0 ≤ value_rank (clamp_unit x))
          × (value_rank (clamp_unit x) ≤ value_rank 0x3f800000))
unfolding clamp_unit
clamp_unit_bounds x = elim (Bool-cases (is_nan x)) [
  | inl nan ↦ inl (ground arith)
  | inr number ↦ inr (ground arith)
]

sharpness_of_bounds :
    (f : Float32) (spread : ℕ) (ranked : List Ranked)
    → (is_nan (sharpness_of f spread ranked) ≡ true)
      ⊎ ((value_rank 0 ≤ value_rank (sharpness_of f spread ranked))
          × (value_rank (sharpness_of f spread ranked) ≤ value_rank 0x3f800000))
unfolding sharpness_of
sharpness_of_bounds f spread [] = inr (omega arith)
sharpness_of_bounds f spread (a ∷ []) = inr (omega arith)
sharpness_of_bounds f spread (a ∷ b ∷ rest) =
    clamp_unit_bounds (f.div (f.sub b.dist a.dist) (max32 spread 0x358637bd))

-- Where no distance is a NaN, the distance of every row of the result lies between the smallest and the
-- largest one of its summary, and if there is a row the median does too; the sharpness lies between 0 and
-- 1, unless the arithmetic makes a NaN of it.
pub build_summary_bounds :
    (f : Float32) (ranked : List Ranked) (reps : ℕ)
    → All (λ r. is_nan r.dist ≡ false) ranked
    → let s = build_summary f ranked reps in
      All
        (λ r.
          (value_rank s.dist_min ≤ value_rank r.dist) × (value_rank r.dist ≤ value_rank s.dist_max))
        ranked
      × (0 < length ranked
          → (value_rank s.dist_min ≤ value_rank s.dist_median)
            × (value_rank s.dist_median ≤ value_rank s.dist_max))
      × ((is_nan s.sharpness ≡ true)
          ⊎ ((value_rank 0 ≤ value_rank s.sharpness)
              × (value_rank s.sharpness ≤ value_rank 0x3f800000)))
unfolding build_summary
build_summary_bounds f ranked reps h =
    let d = distances ranked in
    let sorted = distances-IsSorted ranked h in
    let perm = distances-perm ranked in
    let sizes = length-distances ranked in
    (
      All-of_map (Between d sorted) (λ (r : Ranked). r.dist) ranked
          (All-perm (Between d sorted) (λ x a b i. (le_prop a.0 b.0 i, le_prop a.1 b.1 i)) perm
            (All-Between d sorted)),
      λ some. median-Between d sorted (omega (arith, sizes)),
      sharpness_of_bounds f (f.sub (get_or 0 d (length d - 1)) (get_or 0 d 0)) ranked,
    )
