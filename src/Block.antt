-- ===== src/Block.antt =====
-- src/block.rs: a block of grains with its descriptor. The arithmetic of `f32` and `f64` is a
-- parameter; coordinates, distances and confidences are `f32` bit patterns.
pub mod Bloom
pub mod Cluster
pub mod Store
pub mod Sketch
pub mod Groups
pub mod Point
pub mod Scan
pub mod Near
pub mod Count
use grainstore.Float.{LogFloat}
use grainstore.Base.{
  ℕ, suc, ◌+◌, ◌-◌, ◌%◌, ◌^◌, max, min, List, [], ◌∷◌, ◌++◌, Option, none, some, Bool, true, false,
  ◌==◌, ◌||◌, if◌then◌else◌, foldl, map, length, replicate, get_or, set, compare, Ordering,
}
use grainstore.Float.{Float32, max32}
use grainstore.Sort.{sort_by}

-- One grain as the builder gets it.
pub record GrainRec : Type 0 where
  pub sid : ℕ
  pub pred : ℕ
  pub cat : ℕ
  pub vector : List ℕ
  pub t_tx : ℕ
  pub conf : ℕ

pub record BlockDescriptor : Type 0 where
  pub centroid : List ℕ
  pub radius : ℕ
  pub preds : List ℕ
  pub conf_hist : List ℕ
  pub t_min : ℕ
  pub t_max : ℕ
  pub sid_bloom : Bloom.Bloom
  pub count : ℕ
  pub cat_counts : List ℕ

-- The descriptor and the columns of the body.
pub record Block : Type 0 where
  pub descriptor : BlockDescriptor
  pub sids : List ℕ
  pub cats : List ℕ
  pub vectors : List (List ℕ)

-- `preds.dedup()`: of equal neighbours the first stays.
dedup_from : ℕ → List ℕ → List ℕ
dedup_from last [] = []
dedup_from last (x ∷ xs) =
    let new = dedup_from x xs in if x == last then dedup_from last xs else x ∷ new

dedup : List ℕ → List ℕ
unfolding dedup_from
dedup [] = []
dedup (x ∷ xs) = x ∷ dedup_from x xs

-- `preds.binary_search(&pred).is_ok()`: on a sorted slice, whether the value is there
has_value : ℕ → List ℕ → Bool
has_value p [] = false
has_value p (x ∷ xs) = x == p || has_value p xs

unfoldable pub has_pred : BlockDescriptor → ℕ → Bool
unfolding has_value
has_pred d pred = has_value pred d.preds

unfoldable pub category_count : BlockDescriptor → ℕ → ℕ
category_count d cat = get_or 0 d.cat_counts cat

-- `counts[i] += 1` on a `u32`
unfoldable pub bump : List ℕ → ℕ → List ℕ
bump counts i = set counts i ((get_or 0 counts i + 1) % 2 ^ 32)

-- `sids.iter().position(|&s| s == sid)`
unfoldable pub position : ℕ → List ℕ → Option ℕ
position sid [] = none
position sid (s ∷ sids) =
    if s == sid then some 0 else elim (position sid sids) [ none ↦ none | some i ↦ some (suc i) ]

-- Block::find
unfoldable pub find : Block → ℕ → Option (ℕ × ℕ)
unfolding position
find b sid = elim (position sid b.sids) [ none ↦ none | some i ↦ some (get_or 0 b.cats i, i) ]

-- What the loop over the records builds up.
pub record Columns : Type 0 where
  pub conf_hist : List ℕ
  pub cat_counts : List ℕ
  pub t_min : ℕ
  pub t_max : ℕ
  pub bloom : Bloom.Bloom
  pub sids : List ℕ
  pub cats : List ℕ
  pub vectors : List (List ℕ)

module _ (f : Float32) where
  -- `*c += *x` over the coordinates that both have
  unfoldable pub add_into : List ℕ → List ℕ → List ℕ
  add_into (c ∷ cs) (x ∷ xs) = f.add c x ∷ add_into cs xs
  add_into cs _ = cs

  squares : List ℕ → List ℕ → List ℕ
  squares (x ∷ xs) (y ∷ ys) = f.mul (f.sub x y) (f.sub x y) ∷ squares xs ys
  squares _ _ = []

  unfoldable pub l2 : List ℕ → List ℕ → ℕ
  unfolding squares
  l2 a b = f.sqrt (f.sum (squares a b))

  -- Every distance is taken from the query to a point of the block.
  unfoldable pub min_possible_dist : BlockDescriptor → List ℕ → ℕ
  unfolding l2
  min_possible_dist d q = max32 (f.sub (l2 q d.centroid) d.radius) 0

  unfoldable pub centroid_of : List GrainRec → List ℕ → List ℕ
  unfolding add_into
  centroid_of recs zeros =
      map (λ c. f.div c (f.of_nat (length recs))) (foldl (λ c r. add_into c r.vector) zeros recs)

  unfoldable pub radius_of : List GrainRec → List ℕ → ℕ
  unfolding l2
  radius_of recs centroid = foldl (λ m r. max32 m (l2 r.vector centroid)) 0 recs

  -- The body of the loop over the records; `8.0` has the bit pattern 0x41000000.
  unfoldable pub add_rec : Columns → GrainRec → Columns
  unfolding bump
  add_rec c r = record {
    conf_hist = bump c.conf_hist (min (f.to_nat (f.mul r.conf 0x41000000)) 7);
    cat_counts = bump c.cat_counts r.cat;
    t_min = min c.t_min r.t_tx;
    t_max = max c.t_max r.t_tx;
    bloom = Bloom.insert c.bloom r.sid;
    sids = c.sids ++ (r.sid ∷ []);
    cats = c.cats ++ (r.cat ∷ []);
    vectors = c.vectors ++ (r.vector ∷ []);
  }

  module _ (g : LogFloat) where
    unfoldable pub empty_columns : ℕ → Columns
    empty_columns n = record {
      conf_hist = replicate 8 0;
      cat_counts = replicate 256 0;
      t_min = 2 ^ 64 - 1;
      t_max = 0;
      bloom = Bloom.new g n (g.lit 1 100);
      sids = [];
      cats = [];
      vectors = [];
    }

    columns_of : List GrainRec → Columns
    columns_of recs = foldl add_rec (empty_columns (length recs)) recs

    -- Block::build, for records of which the first is `first`
    unfoldable pub build : GrainRec → List GrainRec → Block
    unfolding columns_of dedup centroid_of radius_of
    build first rest =
        let recs = first ∷ rest in
        let centroid = centroid_of recs (replicate (length first.vector) 0) in
        let c = columns_of recs in
        record {
          descriptor = record {
            centroid = centroid;
            radius = radius_of recs centroid;
            preds = dedup (sort_by compare (map (λ r. r.pred) recs));
            conf_hist = c.conf_hist;
            t_min = c.t_min;
            t_max = c.t_max;
            sid_bloom = c.bloom;
            count = length recs % 2 ^ 32;
            cat_counts = c.cat_counts;
          };
          sids = c.sids;
          cats = c.cats;
          vectors = c.vectors;
        }
