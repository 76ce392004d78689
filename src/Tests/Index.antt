-- ===== src/Tests/Index.antt =====
-- The index side and its planning, at concrete inputs.
use grainstore.Base.{
  some, ℕ, ltb, leb, ◌+◌, ◌-◌, ◌*◌, ◌/◌, ◌≡◌, ◌≤◌, refl, List, [], ◌∷◌, foldl, length, All, true,
  arith,
}
use grainstore.Error.{ok}
use grainstore.Materializer.{mem, watermark_of, apply}
use grainstore.Materializer.Pool.{
  Pool, Reach, here, dispatches, works, spawn_pooled, dispatch, work,
}
use grainstore.Materializer.Pool.Order.{Reach-covered, Reach-swapped}
use grainstore.Embed.{Embedder}
use grainstore.Cdc.{CdcRecord}
use grainstore.Model.{bytes}
use grainstore.Planner.{Float64}
use grainstore.Query.{MixedQuery, Ranked, near_join_select}
use grainstore.Query.Total.{near_join_select_total}
use grainstore.Durability.Rounds.{hlc-commit_batch}
use grainstore.Tests.Fixtures.{store, log, empty, batch, committed-IsHistory}
use grainstore.Query.Ranking.{IsRow, dist_rank, near_join_select-IsRow}
use grainstore.Cdc
use grainstore.Keys.{grain_key, seek_target, not_u64, grain_prefix, t_tx_from_key}
use grainstore.Bytes.{bytes_cmp, be_bytes, from_be_bytes, starts_with}
use grainstore.Sort.{sort_by}
use grainstore.Kv
use grainstore.Kv.{seek_ge}
use grainstore.Truth.{TruthStore, get, get_at}
use grainstore.Wal.{encode_value, decode_value}
use grainstore.Sort.Laws.{IsNearest, IsSorted}
use grainstore.Vector.Brute
use grainstore.Float.{Float32}
use grainstore.Vector.Brute.{BruteForceIndex}
use grainstore.Vector.Sharded
use grainstore.Vector.Sharded.{ShardedIndex}
use grainstore.Vector.Nearest
use grainstore.Vector.Nearest.{total_dist_rank, Exact, all_contents, sharded-IsNearest}
use mathlib.Core.List.Perm
use grainstore.Vector.{Candidate, VectorIndex}

-- Whole numbers in place of floats.
abbrev pub whole : Float64
whole = record {
  Real = ℕ;
  lit = λ n d. n;
  lt = λ a b. ltb a b;
  le = λ a b. leb a b;
  div = λ a b. a;
  ceil = λ a. a;
}

-- An index that always proposes these candidates.
abbrev pub fixed_index : VectorIndex
fixed_index = record {
  Index = List Candidate;
  insert = λ index sid vec. index;
  remove = λ index sid. index;
  search = λ index query k ef. some index;
  len = λ index. 0;
}

abbrev pub candidates : List Candidate
candidates = record { sid = 7; dist = 5 } ∷ record { sid = 8; dist = 2 } ∷ []

abbrev pub one_grain : TruthStore
one_grain = record {
  committer = record {
    file = [];
    kv = record Kv.new { grains = (grain_key 7 1 1, encode_value 0 (10 ∷ []) 0 0) ∷ [] };
    hlc = 1;
    idem = [];
    healthy = 0;
    cdc = Cdc.new;
  };
  running = true;
}

abbrev question : MixedQuery
question = record { pred = 1; query = []; k = 3; ef = 64; over_fetch = 2 }

abbrev pub answers : List Ranked
answers =
    record {
      grain = record { sid = 7; pred = 1; val = bytes (10 ∷ []); c = 0; t_valid = 0; t_tx = 1 };
      dist = 5;
    }
    ∷ []

found : near_join_select one_grain fixed_index candidates question (λ _. true) ≡ some (ok answers)
unfolding near_join_select get get_at seek_ge bytes_cmp grain_key be_bytes seek_target not_u64
    starts_with grain_prefix decode_value encode_value sort_by from_be_bytes t_tx_from_key
found = refl

near_join_select-IsRow_example :
    (cs : List Candidate) × (some candidates ≡ some cs)
    × (length answers ≤ 3)
    × All (IsRow one_grain 1 (λ _. true) cs) answers
near_join_select-IsRow_example =
    near_join_select-IsRow one_grain fixed_index candidates question (λ _. true) answers found

-- Whole numbers in place of floats.
abbrev whole32 : Float32
whole32 = record {
  add = λ a b. a + b;
  sub = λ a b. a - b;
  mul = λ a b. a * b;
  div = λ a b. a / b;
  sqrt = λ a. a;
  sum = λ xs. foldl (λ a b. a + b) 0 xs;
  of_nat = λ n. n;
  to_nat = λ n. n;
}

abbrev exact : BruteForceIndex
exact = (7, 5 ∷ 1 ∷ []) ∷ (8, 2 ∷ 2 ∷ []) ∷ (9, 9 ∷ 9 ∷ []) ∷ []

abbrev exact_candidates : List Candidate
exact_candidates =
    record { sid = 7; dist = 0 } ∷ record { sid = 8; dist = 0 } ∷ record { sid = 9; dist = 0 } ∷ []

near_join_select_total_example :
    (rows : List Ranked) × (near_join_select store fixed_index candidates question (λ _. true)
      ≡ some (ok rows))
    × IsSorted dist_rank rows
near_join_select_total_example =
    near_join_select_total store log committed-IsHistory
      (omega (arith, hlc-commit_batch empty batch (omega arith))) fixed_index candidates question
      (λ _. true) candidates (omega arith) refl (omega arith, (omega arith, tt)) (refl, (refl, tt))

abbrev one_each : ShardedIndex fixed_index
one_each = (record { sid = 8; dist = 2 } ∷ []) ∷ (record { sid = 7; dist = 5 } ∷ []) ∷ []

one-Exact : (c : Candidate) → Exact fixed_index [] 2 64 (λ s. s) (c ∷ [])
one-Exact c = (
  c ∷ [],
  refl,
  record {
    ordered = (tt, tt);
    count = omega arith;
    left = [];
    parts = Perm.refl (c ∷ []);
    nearest = (tt, tt);
  },
)

sharded-IsNearest_example :
    (best : List Candidate) × (Sharded.search fixed_index one_each [] 2 64 ≡ some best)
    × IsNearest total_dist_rank 2 (all_contents fixed_index [] 2 64 (λ s. s) one_each) best
sharded-IsNearest_example =
    sharded-IsNearest fixed_index [] 2 64 (λ s. s) one_each (one-Exact _, (one-Exact _, tt))
      (omega arith)

-- A value is its vector.
abbrev whole_value : Embedder
whole_value = record { dim = 1; embed = λ b. some b }

abbrev put_at : ℕ → ℕ → CdcRecord
put_at seq x = record { sid = 7; pred = 0; seq = seq; op = 0; val = x ∷ [] }

-- An index that notes the vectors that it is given, the last one first.
abbrev noting_index : VectorIndex
noting_index = record {
  Index = List (List ℕ);
  insert = λ index sid vec. vec ∷ index;
  remove = λ index sid. [] ∷ index;
  search = λ index query k ef. some [];
  len = λ index. length index;
}

-- Two writes of sid 7, to 10 and to 20.
Reach-swapped_example :
    (p : Pool noting_index whole_value) × Reach noting_index whole_value [] 2
      (put_at 1 10 ∷ put_at 2 20 ∷ [])
      (put_at 2 20 ∷ put_at 1 10 ∷ [])
      p
    × (watermark_of p.completion ≡ 2)
    × (p.index ≡ (10 ∷ []) ∷ (20 ∷ []) ∷ [])
unfolding apply Cdc.is_delete
Reach-swapped_example =
    Reach-swapped noting_index whole_value [] (put_at 1 10) (put_at 2 20) refl refl

one_sent : Reach noting_index whole_value [] 2 (put_at 1 10 ∷ []) (put_at 1 10 ∷ []) (
    work noting_index whole_value
      (dispatch noting_index whole_value (spawn_pooled noting_index whole_value [] 2) (put_at 1 10))
      0
      (put_at 1 10)
      [])
unfolding spawn_pooled dispatch
one_sent = works (dispatches here (put_at 1 10)) 0 (put_at 1 10) [] refl

Reach-covered_example :
    let p =
      work noting_index whole_value
        (dispatch noting_index whole_value
          (spawn_pooled noting_index whole_value [] 2)
          (put_at 1 10))
        0
        (put_at 1 10)
        [] in
    (p.index ≡ foldl (apply noting_index whole_value) [] (put_at 1 10 ∷ []))
    × ((s : ℕ) → 1 ≤ s → s ≤ watermark_of p.completion → mem s (1 ∷ []) ≡ true)
    × ((P : CdcRecord → Type 0) → All P (put_at 1 10 ∷ []) → All P (put_at 1 10 ∷ []))
Reach-covered_example = Reach-covered noting_index whole_value one_sent
