-- ===== src/Tests/Graph.antt =====
-- The graph index with two grains, and the witnesses of its theorems.
use grainstore.Base.{
  ℕ, ◌≤◌, ◌≡◌, List, [], ◌∷◌, All, Option, none, some, ap, sym, refl, length, arith, foldl,
}
use mathlib.Core.Option.{some_inj}
use grainstore.Sort.Laws.{IsSorted}
use grainstore.Tests.Blocks.{whole, whole_log}
use grainstore.Vector.{Candidate}
use grainstore.Vector.Hnsw.{State, default_config, new, rand_level, search}
use grainstore.Vector.Hnsw.Layer.{Node}
use grainstore.Vector.Hnsw.Bounded.{IsBounded, insert-IsBounded}
use grainstore.Vector.Hnsw.Degree.{degree}
use grainstore.Vector.Hnsw.Found.{IsEntry, near_first, search_total}
use grainstore.Cdc.{CdcRecord}
use grainstore.Embed.{Embedder}
use grainstore.Materializer.{apply}
use grainstore.Materializer.Graph.{Holds, latest, foldl-apply-Holds}
use grainstore.Vector.Graph.{graph_index}
use grainstore.Vector.Hnsw.Refine.{IsReady, vector_of, new-IsHnsw, insert_total}

abbrev empty : State ℕ
empty = new whole_log default_config

empty-IsReady : IsReady whole whole_log 1 empty
unfolding new rand_level
empty-IsReady = record {
  whole = new-IsHnsw whole_log default_config;
  dims = tt;
  levels = λ rng. omega arith;
}

abbrev one : State ℕ
one = (insert_total whole whole_log 1 empty 7 (1 ∷ []) empty-IsReady refl).0

one-IsReady : IsReady whole whole_log 1 one
one-IsReady = (insert_total whole whole_log 1 empty 7 (1 ∷ []) empty-IsReady refl).2

abbrev two : State ℕ
two = (insert_total whole whole_log 1 one 8 (5 ∷ []) one-IsReady refl).0

two-IsReady : IsReady whole whole_log 1 two
two-IsReady = (insert_total whole whole_log 1 one 8 (5 ∷ []) one-IsReady refl).2

empty-IsBounded : IsBounded empty.cfg empty.nodes
unfolding degree new
empty-IsBounded i level = omega arith

one-IsBounded : IsBounded one.cfg one.nodes
one-IsBounded =
    insert-IsBounded whole whole_log empty one 7 (1 ∷ []) empty-IsBounded
      (insert_total whole whole_log 1 empty 7 (1 ∷ []) empty-IsReady refl).1

insert-IsBounded_example : IsBounded two.cfg two.nodes
insert-IsBounded_example =
    insert-IsBounded whole whole_log one two 8 (5 ∷ []) one-IsBounded
      (insert_total whole whole_log 1 one 8 (5 ∷ []) one-IsReady refl).1

-- The only number of a value that has just one.
abbrev single : List ℕ → Option (List ℕ)
single (x ∷ []) = some (x ∷ [])
single _ = none

abbrev whole_value : Embedder
whole_value = record { dim = 1; embed = single }

one_each : (b vec : List ℕ) → whole_value.embed b ≡ some vec → length vec ≡ 1
one_each (x ∷ []) vec e = ap (λ (v : List ℕ). length v) (sym (some_inj.0 e))
one_each [] vec e = absurd (cc)
one_each (x ∷ y ∷ b) vec e = absurd (cc)

-- Sid 8 is put, and sid 7 deleted.
abbrev changes : List CdcRecord
changes =
    record { sid = 8; pred = 0; seq = 2; op = 0; val = 3 ∷ [] }
    ∷ record { sid = 7; pred = 0; seq = 3; op = 1; val = [] }
    ∷ []

foldl-apply-Holds_example :
    Holds whole_value whole whole_log 1 one_each
      (foldl (apply (graph_index whole whole_log) whole_value) (some one) changes)
      (λ k. latest whole_value (vector_of one k) changes k)
foldl-apply-Holds_example =
    foldl-apply-Holds whole_value whole whole_log 1 one_each one changes one-IsReady

search_total_example :
    (cs : List Candidate) × (search whole two (4 ∷ []) 1 64 ≡ some cs)
    × (length cs ≤ 1)
    × All (IsEntry whole two (4 ∷ [])) cs
    × IsSorted near_first cs
search_total_example =
    search_total whole two (4 ∷ []) 1 1 64 (two-IsReady.whole) (two-IsReady.dims) refl

-- Two nodes that are linked to each other.
abbrev linked_pair : List Node
linked_pair =
    record { sid = 7; vector = 1 ∷ []; links = (1 ∷ []) ∷ [] }
    ∷ record { sid = 8; vector = 5 ∷ []; links = (0 ∷ []) ∷ [] }
    ∷ []
