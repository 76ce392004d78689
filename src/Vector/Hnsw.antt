-- ===== src/Vector/Hnsw.antt =====
-- src/vector/hnsw.rs: the layered proximity graph. A panic is `none`. The arithmetic of `f32` and
-- `f64` is a parameter.
pub mod Layer
pub mod Heap
pub mod Unvisited
pub mod Visits
pub mod Links
pub mod Live
pub mod Refine
pub mod Found
pub mod Degree
pub mod Bounded
use grainstore.Base.{
  ℕ, zero, suc, ◌+◌, ◌-◌, ◌*◌, ◌/◌, ◌%◌, ◌^◌, max, min, List, [], ◌∷◌, ◌++◌, Option, none, some,
  Bool, true, false, ltb, ◌==◌, if◌then◌else◌, length, map, take, get_elem?, set, replicate,
  Ordering,
}
use grainstore.Base.HashMap
use grainstore.Float.{Float32, LogFloat}
use grainstore.Model.{Sid}
use grainstore.Sort.{sort_by}
use grainstore.Vector.{Candidate}
use grainstore.Base.Panic.{◌>>=◌}
use Layer.{Node, DistIdx, by_dist_idx, distance, search_layer, contains}

pub record HnswConfig : Type 0 where
  pub m : ℕ
  pub m0 : ℕ
  pub ef_construction : ℕ
  pub seed : ℕ

abbrev pub default_config : HnswConfig
default_config = record { m = 16; m0 = 32; ef_construction = 200; seed = 0x123456789abcdef0 }

pub record State (Real : Type 0) : Type 0 where
  pub nodes : List Node
  pub deleted : List Bool
  pub sid_to_idx : List (ℕ × ℕ)
  pub entry : Option ℕ
  pub max_level : ℕ
  pub live : ℕ
  pub rng : ℕ
  pub cfg : HnswConfig
  pub ml : Real

-- `v[i]` and `v.len() - n`, or the panic.
abbrev minus : ℕ → ℕ → Option ℕ
minus a b = if ltb a b then none else some (a - b)

-- The state of the generator after one step.
unfoldable pub next_rng : ℕ → ℕ
next_rng rng = (rng * 6364136223846793005 % 2 ^ 64 + 1442695040888963407) % 2 ^ 64

-- State::rand_level, for the generator's next state; `1e-12` is 1 / 10^12. The conversion to `usize`
-- stops at the largest one.
unfoldable pub rand_level : (g : LogFloat) → ℕ → g.Real → ℕ
rand_level g rng ml =
    let unit = g.larger (g.div (g.of_nat (rng / 2 ^ 11)) (g.of_nat (2 ^ 53))) (g.lit 1 (10 ^ 12)) in
    min (g.to_nat (g.floor (g.mul (g.neg (g.ln unit)) ml))) (2 ^ 64 - 1)

-- `vec![Vec::new(); level + 1]`, of 24 bytes each: the sum wraps, and a size beyond 2^63 - 1 bytes is
-- a panic.
unfoldable pub new_links : ℕ → Option (List (List ℕ))
new_links level =
    let n = (level + 1) % 2 ^ 64 in if ltb (n * 24) (2 ^ 63) then some (replicate n []) else none

-- State::link
unfoldable pub link : List Node → ℕ → ℕ → ℕ → Option (List Node)
link nodes a b level = do
  node ← get_elem? nodes a
  some (elim (get_elem? node.links level) [
    | none ↦ nodes
    | some l ↦
        if contains b l
        then nodes
        else set nodes a (record node { links = set node.links level (l ++ (b ∷ [])) })
  ])

unfoldable pub max_degree : HnswConfig → ℕ → ℕ
max_degree cfg level = if level == 0 then cfg.m0 else cfg.m

-- `if let Some(best) = w.first() { ep = best.idx; }`
unfoldable pub first_of : ℕ → List DistIdx → ℕ
first_of ep [] = ep
first_of ep (best ∷ w) = best.idx

module _ (f : Float32) where
  -- The distances of the links.
  unfoldable pub score_all : List Node → List ℕ → List ℕ → Option (List DistIdx)
  score_all nodes vector [] = some []
  score_all nodes vector (n ∷ links) = do
    d ← distance f nodes vector n
    scored ← score_all nodes vector links
    some (record { dist = d; idx = n } ∷ scored)

  -- The links of a node on a level, when there are too many of them.
  unfoldable pub prune_links :
      HnswConfig → List Node → ℕ → ℕ → Node → Option (List ℕ) → Option (List Node)
  unfolding score_all max_degree
  prune_links cfg nodes idx level node none = some nodes
  prune_links cfg nodes idx level node (some l) =
      let kept : Option (List Node) = (do
        scored ← score_all nodes node.vector l
        some (
            set nodes idx (record node {
              links = set node.links level (
                  map (λ (d : DistIdx). d.idx)
                    (take (max_degree cfg level) (sort_by by_dist_idx scored)));
            }))) in
      if ltb (max_degree cfg level) (length l) then kept else some nodes

  -- State::prune
  unfoldable pub prune : HnswConfig → List Node → ℕ → ℕ → Option (List Node)
  unfolding prune_links
  prune cfg nodes idx level = do
    node ← get_elem? nodes idx
    prune_links cfg nodes idx level node (get_elem? node.links level)

  -- The greedy descent through `steps` levels, down to level `low`.
  unfoldable pub descend : List Node → List ℕ → ℕ → ℕ → ℕ → Option ℕ
  unfolding first_of
  descend nodes q low zero ep = some ep
  descend nodes q low (suc steps) ep = do
    w ← search_layer f nodes q (ep ∷ []) 1 (low + steps)
    descend nodes q low steps (first_of ep w)

  -- The loop over the neighbours that the new node gets on a level.
  unfoldable pub link_all : HnswConfig → ℕ → ℕ → List ℕ → List Node → Option (List Node)
  unfolding link prune
  link_all cfg idx level [] nodes = some nodes
  link_all cfg idx level (n ∷ neighbors) nodes = do
    there ← link nodes idx n level
    back ← link there n idx level
    pruned ← prune cfg back n level
    link_all cfg idx level neighbors pruned

  -- The loop over the levels below `levels`, with the entry point.
  unfoldable pub connect : HnswConfig → ℕ → List ℕ → ℕ → ℕ → List Node → Option (List Node)
  unfolding link_all first_of
  connect cfg idx vector zero ep nodes = some nodes
  connect cfg idx vector (suc level) ep nodes = do
    w ← search_layer f nodes vector (ep ∷ []) cfg.ef_construction level
    linked ←
        link_all cfg idx level (map (λ (d : DistIdx). d.idx) (take (max_degree cfg level) w)) nodes
    pruned ← prune cfg linked idx level
    connect cfg idx vector level (first_of ep w) pruned

module _ {Real : Type 0} where
  -- `if !deleted[idx] { deleted[idx] = true; live -= 1 }`
  unfoldable pub soft_delete : State Real → ℕ → Option (State Real)
  soft_delete s idx = do
    gone ← get_elem? s.deleted idx
    let marked =
          minus s.live 1
          >>= (λ live. some (record s { deleted = set s.deleted idx true; live = live })) in
        if gone then some s else marked

  -- What `insert` does about a prior version of the sid.
  unfoldable pub replace : State Real → Sid → Option (State Real)
  unfolding soft_delete
  replace s sid = elim (HashMap.get sid s.sid_to_idx) [
    | none ↦ some s
    | some old ↦ soft_delete s old
  ]

  -- The new node, with a list of links for each of its levels.
  unfoldable pub push_node : State Real → Sid → List ℕ → ℕ → List (List ℕ) → State Real
  push_node s sid vector rng links = record s {
    nodes = s.nodes ++ (record { sid = sid; vector = vector; links = links } ∷ []);
    deleted = s.deleted ++ (false ∷ []);
    sid_to_idx = HashMap.insert sid (length s.nodes) s.sid_to_idx;
    live = s.live + 1;
    rng = rng;
  }

  -- VectorIndex::remove
  unfoldable pub remove : State Real → Sid → Option (State Real)
  unfolding soft_delete
  remove s sid = elim (HashMap.get sid s.sid_to_idx) [
    | none ↦ some s
    | some idx ↦ do
      marked ← soft_delete s idx
      some (record marked { sid_to_idx = HashMap.remove sid marked.sid_to_idx })
  ]

  -- VectorIndex::len
  unfoldable pub len : State Real → ℕ
  len s = s.live

-- Hnsw::new
unfoldable pub new : (g : LogFloat) → HnswConfig → State g.Real
new g cfg = record {
  nodes = [];
  deleted = [];
  sid_to_idx = [];
  entry = none;
  max_level = 0;
  live = 0;
  rng = cfg.seed;
  cfg = cfg;
  ml = g.div (g.lit 1 1) (g.ln (g.of_nat cfg.m));
}

module _ (f : Float32) where
  module _ {Real : Type 0} where
    -- The linking of node `idx`, pushed already with the levels up to `level`, with the entry point.
    unfoldable pub link_from : State Real → ℕ → List ℕ → ℕ → Option ℕ → Option (State Real)
    unfolding descend connect
    link_from s idx vector level none = some (record s { entry = some idx; max_level = level })
    link_from s idx vector level (some entry) = do
      ep ← descend f s.nodes vector (level + 1) (s.max_level - level) entry
      nodes ← connect f s.cfg idx vector (suc (min level s.max_level)) ep s.nodes
      some (
          if ltb s.max_level level
          then record s { nodes = nodes; entry = some idx; max_level = level }
          else record s { nodes = nodes })

    abbrev pub link_node : State Real → ℕ → List ℕ → ℕ → Option (State Real)
    link_node s idx vector level = link_from s idx vector level s.entry

  -- State::insert
  unfoldable pub insert : (g : LogFloat) → State g.Real → Sid → List ℕ → Option (State g.Real)
  unfolding replace next_rng rand_level new_links push_node link_from
  insert g s sid vector = do
    replaced ← replace s sid
    links ← new_links (rand_level g (next_rng replaced.rng) replaced.ml)
    let rng = next_rng replaced.rng in
        let level = rand_level g rng replaced.ml in
        link_node (push_node replaced sid vector rng links) (length replaced.nodes) vector level

  -- The live ones among what the base layer's search found.
  unfoldable pub live_candidates : List Node → List Bool → List DistIdx → Option (List Candidate)
  live_candidates nodes deleted [] = some []
  live_candidates nodes deleted (d ∷ w) = do
    gone ← get_elem? deleted d.idx
    node ← get_elem? nodes d.idx
    rest ← live_candidates nodes deleted w
    some (if gone then rest else record { sid = node.sid; dist = d.dist } ∷ rest)

  -- State::search from the entry point. The candidates are cut to `k` after the filter.
  unfoldable pub search_from :
      {Real : Type 0} → State Real → List ℕ → ℕ → ℕ → Option ℕ → Option (List Candidate)
  unfolding descend live_candidates
  search_from s q k ef none = some []
  search_from s q k ef (some entry) = do
    ep ← descend f s.nodes q 1 s.max_level entry
    w ← search_layer f s.nodes q (ep ∷ []) (max ef k) 0
    live ← live_candidates s.nodes s.deleted w
    some (take k live)

  unfoldable pub search : {Real : Type 0} → State Real → List ℕ → ℕ → ℕ → Option (List Candidate)
  unfolding search_from
  search s q k ef = search_from s q k ef s.entry
