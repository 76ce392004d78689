-- ===== src/Disclosure.antt =====
-- src/disclosure.rs: token costs, the summary of a ranked result, and the cache of pinned results. The
-- arithmetic of `f32` is a parameter.
pub mod Cache
pub mod Spread
use grainstore.Base.{
  ℕ, zero, suc, ◌+◌, ◌/◌, ◌-◌, max, min, List, [], ◌∷◌, ◌++◌, Option, none, some, length, drop, ltb,
  map, get_or, ◌==◌, if◌then◌else◌,
}
use grainstore.Model.{Grain, Val, bytes, tombstone}
use grainstore.Float.{Float32, cmp_or_equal, lt32, max32}
use grainstore.Query.{Ranked}
use grainstore.Sort.{sort_by}

payload : Val → ℕ
payload (bytes b) = length b
payload tombstone = 0

unfoldable pub grain_tokens : Grain → ℕ
unfolding payload
grain_tokens g = payload g.val / 4 + 8

-- The sum over the rows: `est_full_tokens` of a summary, and the cost of a governed query.
unfoldable pub total_tokens : List Ranked → ℕ
unfolding grain_tokens
total_tokens [] = 0
total_tokens (r ∷ rows) = grain_tokens r.grain + total_tokens rows

-- The loop over `i`: the first row of each band. Each round drops at least one row.
representatives_loop : ℕ → ℕ → List Ranked → List Ranked
representatives_loop zero band_size rows = []
representatives_loop (suc fuel) band_size [] = []
representatives_loop (suc fuel) band_size (r ∷ rows) =
    r ∷ representatives_loop fuel band_size (drop band_size (r ∷ rows))

unfoldable pub representatives_of : List Ranked → ℕ → List Ranked
unfolding representatives_loop
representatives_of ranked reps =
    let total = length ranked in
    let bands = min (max reps 1) total in
    let band_size = (total + (bands - 1)) / bands in
    if total == 0 then [] else representatives_loop total band_size ranked

-- A compact summary of a result. Distances and the sharpness are `f32` bit patterns.
pub record Summary : Type 0 where
  pub total_matches : ℕ
  pub representatives : List Ranked
  pub dist_min : ℕ
  pub dist_median : ℕ
  pub dist_max : ℕ
  pub sharpness : ℕ
  pub est_full_tokens : ℕ

-- The payload of a stage.
pub data Payload : Type 0 where
  summary : Summary → Payload
  full : List Ranked → Payload

-- `x.clamp(0.0, 1.0)`
unfoldable pub clamp_unit : ℕ → ℕ
clamp_unit x = if lt32 x 0 then 0 else if lt32 0x3f800000 x then 0x3f800000 else x

unfoldable pub distances : List Ranked → List ℕ
distances ranked = sort_by cmp_or_equal (map (λ r. r.dist) ranked)

-- The gap of the first two rows over the spread, of 1e-6 at least.
unfoldable pub sharpness_of : Float32 → ℕ → List Ranked → ℕ
unfolding clamp_unit
sharpness_of f spread (a ∷ b ∷ rest) =
    clamp_unit (f.div (f.sub b.dist a.dist) (max32 spread 0x358637bd))
sharpness_of f spread _ = 0x3f800000

-- Of no rows all distances are 0.0.
unfoldable pub build_summary : Float32 → List Ranked → ℕ → Summary
unfolding representatives_of distances sharpness_of total_tokens
build_summary f ranked reps =
    let d = distances ranked in
    let nearest = get_or 0 d 0 in
    let farthest = get_or 0 d (length d - 1) in
    record {
      total_matches = length ranked;
      representatives = representatives_of ranked reps;
      dist_min = nearest;
      dist_median = get_or 0 d (length d / 2);
      dist_max = farthest;
      sharpness = sharpness_of f (f.sub farthest nearest) ranked;
      est_full_tokens = total_tokens ranked;
    }

unfoldable pub summary_tokens : Summary → ℕ
unfolding total_tokens
summary_tokens s = total_tokens s.representatives + 16

pub record Continuation : Type 0 where
  pub ranked : List Ranked
  pub full_tokens : ℕ

-- `BTreeMap<u64, Continuation>`: the entries by increasing key
pub record ContinuationCache : Type 0 where
  pub entries : List (ℕ × Continuation)
  pub next : ℕ
  pub cap : ℕ

unfoldable pub new : ℕ → ContinuationCache
new cap = record { entries = []; next = 1; cap = max cap 1 }

-- `m.insert(id, c)`
unfoldable pub insert_entry : ℕ → Continuation → List (ℕ × Continuation) → List (ℕ × Continuation)
insert_entry id c [] = (id, c) ∷ []
insert_entry id c ((j, d) ∷ rest) =
    let later = insert_entry id c rest in
    if ltb id j then (id, c) ∷ (j, d) ∷ rest else if id == j then (id, c) ∷ rest else (j, d) ∷ later

-- `m.get(&id)`
unfoldable pub get_entry : ℕ → List (ℕ × Continuation) → Option Continuation
get_entry id [] = none
get_entry id ((j, d) ∷ rest) = if id == j then some d else get_entry id rest

-- The `while` loop: the smallest key goes until at most `cap` are left.
unfoldable pub evict : ℕ → List (ℕ × Continuation) → List (ℕ × Continuation)
evict cap [] = []
evict cap ((j, d) ∷ rest) =
    let later = evict cap rest in if ltb cap (suc (length rest)) then later else (j, d) ∷ rest

unfoldable pub store : ContinuationCache → List Ranked → ℕ → ContinuationCache × ℕ
unfolding insert_entry evict
store m ranked full_tokens = (
  record m {
    entries =
        evict m.cap
          (insert_entry m.next (record { ranked = ranked; full_tokens = full_tokens }) m.entries);
    next = m.next + 1;
  },
  m.next,
)

unfoldable pub get_full : ContinuationCache → ℕ → Option Continuation
unfolding get_entry
get_full m handle = get_entry handle m.entries
