-- ===== src/Planner.antt =====
-- src/planner.rs: filters, and the choice of `over_fetch` and `ef`. The `f64` operations that it uses
-- are a parameter.
pub mod Bounds
use grainstore.Base.{
  ℕ, ◌+◌, ◌^◌, List, [], ◌∷◌, Option, none, some, Bool, true, false, get_elem?, ◌==◌, max, min,
  if◌then◌else◌,
}
use grainstore.Model.{Grain, Val, bytes, tombstone}
use grainstore.Query.{saturating_mul}

pub data Filter : Type 0 where
  any : Filter
  header_byte_eq : ℕ → ℕ → Filter

byte_is : ℕ → Option ℕ → Bool
byte_is value none = false
byte_is value (some b) = b == value

eval_val : Filter → Val → Bool
unfolding byte_is
eval_val any val = true
eval_val (header_byte_eq offset value) (bytes b) = byte_is value (get_elem? b offset)
eval_val (header_byte_eq offset value) tombstone = false

-- Filter::eval
unfoldable pub eval : Filter → Grain → Bool
unfolding eval_val
eval f g = eval_val f g.val

-- What is used of `f64`: `lit n d` is the literal n / d, `lt a b` and `le a b` are the tests `a < b` and
-- `a <= b`, and `ceil a` is `a.ceil() as usize`.
pub record Float64 : Type 1 where
  pub Real : Type 0
  pub lit : ℕ → ℕ → Real
  pub lt : Real → Real → Bool
  pub le : Real → Real → Bool
  pub div : Real → Real → Real
  pub ceil : Real → ℕ

module _ (f : Float64) where
  open f use {Real, lit, lt, le, div, ceil}

  pub record Plan : Type 0 where
    pub over_fetch : ℕ
    pub ef : ℕ
    pub est_selectivity : Real
    pub est_candidates : ℕ

  -- `x.clamp(lo, hi)`; a NaN stays as it is
  unfoldable pub clamp : Real → Real → Real → Real
  clamp x lo hi = let y = if lt x lo then lo else x in if lt hi y then hi else y

  unfoldable pub margin_for : Real → Real
  margin_for t =
      if le (lit 99 100) t
      then lit 12 1
      else if le (lit 95 100) t
      then lit 7 1
      else if le (lit 90 100) t
      then lit 45 10
      else if le (lit 80 100) t
      then lit 25 10
      else lit 15 10

  unfoldable pub ef_for : Real → ℕ
  ef_for t =
      if le (lit 99 100) t
      then 256
      else if le (lit 95 100) t
      then 192
      else if le (lit 90 100) t
      then 128
      else 64

  unfoldable pub plan : Real → ℕ → Real → Plan
  unfolding clamp margin_for ef_for
  plan selectivity k target_recall =
      let sel = clamp selectivity (lit 1 10000) (lit 1 1) in
      let over_fetch = min (max (ceil (div (margin_for target_recall) sel)) 1) 4096 in
      record {
        over_fetch = over_fetch;
        ef = ef_for target_recall;
        est_selectivity = sel;
        est_candidates = saturating_mul k over_fetch;
      }
