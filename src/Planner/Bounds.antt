-- ===== src/Planner/Bounds.antt =====
-- The ranges of the planner's parameters, for any floats: also a NaN cannot lead out of them.
use grainstore.Base.{ℕ, ◌*◌, ◌^◌, ◌≤◌, ◌<◌, max, min, arith}
use native.Mathlib.Nat.{le-mul_of_pos_right, mul-le-mul_left}
use grainstore.Planner.{Float64, Plan, plan, ef_for}
use grainstore.Query.{saturating_mul}

-- A plan whose parameters are in range for a query of `k` results.
pub record IsInRange (f : Float64) (k : ℕ) (p : Plan f) : Type 0 where
  pub over_fetch_low : 1 ≤ p.over_fetch
  pub over_fetch_high : p.over_fetch ≤ 4096
  pub ef_low : 64 ≤ p.ef
  pub ef_high : p.ef ≤ 256
  pub candidates_low : k ≤ p.est_candidates
  pub candidates_high : p.est_candidates ≤ k * 4096
  pub candidates_fit : p.est_candidates < 2 ^ 64

ef_for-range : (f : Float64) (t : f.Real) → (64 ≤ ef_for f t) × (ef_for f t ≤ 256)
unfolding ef_for
ef_for-range f t = ground arith

over_fetch_range : (n : ℕ) → (1 ≤ min (max n 1) 4096) × (min (max n 1) 4096 ≤ 4096)
over_fetch_range n = ground arith

saturating_mul-range :
    (k n : ℕ)
    → k < 2 ^ 64
    → 1 ≤ n
    → n ≤ 4096
    → (k ≤ saturating_mul k n) × ((saturating_mul k n ≤ k * 4096) × (saturating_mul k n < 2 ^ 64))
unfolding saturating_mul
saturating_mul-range k n fits low high =
    let least : (k ≤ k * n) = le-mul_of_pos_right k low in
    let most : (k * n ≤ k * 4096) = mul-le-mul_left k high in ground arith

-- Whatever the selectivity and the target, a plan fetches between 1 and 4096 candidates per result,
-- with a beam of 64 to 256, and its candidate budget is at least `k` and does not wrap around, for a
-- `k` that is a `usize`.
pub plan-IsInRange :
    (f : Float64) (selectivity : f.Real) (k : ℕ) (target_recall : f.Real)
    → k < 2 ^ 64
    → IsInRange f k (plan f selectivity k target_recall)
unfolding plan
plan-IsInRange f selectivity k target_recall fits =
    let fetch = over_fetch_range _ in
    let budget = saturating_mul-range k _ fits fetch.0 fetch.1 in
    let ef = ef_for-range f target_recall in
    record {
      over_fetch_low = fetch.0;
      over_fetch_high = fetch.1;
      ef_low = ef.0;
      ef_high = ef.1;
      candidates_low = budget.0;
      candidates_high = budget.1.0;
      candidates_fit = budget.1.1;
    }
