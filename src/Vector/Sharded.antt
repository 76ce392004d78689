-- ===== src/Vector/Sharded.antt =====
-- src/vector/sharded.rs: an index of several shards. The shards' index is a parameter; in the
-- program it is the HNSW graph.
use Prim.Native.Nat.{bit_xor}
use grainstore.Vector.Hnsw
use grainstore.Vector.Hnsw.{HnswConfig, State}
use grainstore.Base.{
  ℕ, zero, suc, ◌+◌, ◌*◌, ◌/◌, ◌%◌, ◌^◌, max, List, [], ◌∷◌, ◌++◌, length, take, Ordering, Option,
  none, some, ◌==◌, ◌||◌, if◌then◌else◌,
}
use grainstore.Base.Panic.{◌>>=◌}
use grainstore.Float.{LogFloat, total_cmp}
use grainstore.Model.{Sid}
use grainstore.Sort.{sort_by}
use grainstore.Vector.{Candidate, VectorIndex, has_capacity}

-- `h ^ (h >> 33)`
abbrev fold_high : ℕ → ℕ
fold_high h = bit_xor h (h / 2 ^ 33)

-- The mix of both halves of the id.
unfoldable pub mix : Sid → ℕ
mix sid =
    let h = fold_high (bit_xor (sid % 2 ^ 64) (sid / 2 ^ 64)) in
    fold_high ((h * 0xff51afd7ed558ccd) % 2 ^ 64)

unfoldable pub shard_of : ℕ → Sid → ℕ
unfolding mix
shard_of shards sid = mix sid % shards

-- The comparison of the merge.
abbrev pub by_total : Candidate → Candidate → Ordering
by_total a b = total_cmp a.dist b.dist

module _ (v : VectorIndex) where
  abbrev pub ShardedIndex : Type 0
  ShardedIndex = List v.Index

  -- A call of one shard, by its number.
  unfoldable pub update_shard : ShardedIndex → ℕ → (v.Index → v.Index) → ShardedIndex
  update_shard [] n f = []
  update_shard (s ∷ shards) zero f = f s ∷ shards
  update_shard (s ∷ shards) (suc n) f = s ∷ update_shard shards n f

  unfoldable pub insert : ShardedIndex → Sid → List ℕ → ShardedIndex
  unfolding update_shard
  insert shards sid vector =
      update_shard shards (shard_of (length shards) sid) (λ s. v.insert s sid vector)

  unfoldable pub remove : ShardedIndex → Sid → ShardedIndex
  unfolding update_shard
  remove shards sid = update_shard shards (shard_of (length shards) sid) (λ s. v.remove s sid)

  -- What the searches of the shards give, joined in their order. A shard's panic is one of the join.
  unfoldable pub gather : ShardedIndex → List ℕ → ℕ → ℕ → Option (List Candidate)
  gather [] query k ef = some []
  gather (s ∷ shards) query k ef = do
    found ← v.search s query k ef
    rest ← gather shards query k ef
    some (found ++ rest)

  -- The room for the candidates of several shards is reserved before the searches are joined; its
  -- size is a product on 64 bits.
  unfoldable pub search_all : ShardedIndex → List ℕ → ℕ → ℕ → Option (List Candidate)
  unfolding gather has_capacity
  search_all shards query k ef =
      if length shards == 1 || has_capacity (k * length shards % 2 ^ 64)
      then gather shards query k ef
      else none

  unfoldable pub search : ShardedIndex → List ℕ → ℕ → ℕ → Option (List Candidate)
  unfolding search_all
  search shards query k ef = do
    all ← search_all shards query k ef
    some (take k (sort_by by_total all))

  unfoldable pub len : ShardedIndex → ℕ
  len [] = 0
  len (s ∷ shards) = v.len s + len shards

-- The seed of shard `i`.
unfoldable pub seed_of : ℕ → ℕ → ℕ
seed_of seed i = bit_xor seed ((i * 0x9E3779B97F4A7C15 % 2 ^ 64 + 1) % 2 ^ 64)

-- The graphs from shard `i` on, of which `left` are still to come.
unfoldable pub shards_from : (g : LogFloat) → HnswConfig → ℕ → ℕ → List (State g.Real)
unfolding seed_of
shards_from g cfg i zero = []
shards_from g cfg i (suc left) =
    Hnsw.new g (record cfg { seed = seed_of cfg.seed i }) ∷ shards_from g cfg (i + 1) left

-- ShardedHnsw::new
unfoldable pub new : (g : LogFloat) → ℕ → HnswConfig → List (State g.Real)
unfolding shards_from
new g shards cfg = shards_from g cfg 0 (max shards 1)
