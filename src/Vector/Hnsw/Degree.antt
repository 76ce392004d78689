-- ===== src/Vector/Hnsw/Degree.antt =====
-- src/vector/hnsw.rs: the number of links of a node, and what link and prune do to it.
use mathlib.Core.Option.{some_inj}
use grainstore.Base.{
  ℕ, suc, ◌≤◌, ◌≡◌, ◌≢◌, ◌⊎◌, refl, ap, sym, subst, ◌∙◌, List, [], ◌∷◌, ◌++◌, length, length-take,
  map, take, Option, none, some, ltb, get_elem?, set, lt-of_get_elem?, get_elem?-set_self,
  get_elem?-set_other, arith, tests, Bool-cases, Option-cases, inl, inr,
}
use native.Mathlib.Decide.{ℕ_discrete}
use grainstore.Float.{Float32}
use grainstore.Sort.{sort_by}
use grainstore.Vector.Hnsw.{HnswConfig, link, max_degree, score_all, prune_links, prune}
use grainstore.Vector.Hnsw.Layer.{Node, DistIdx, by_dist_idx, contains, links_at}

-- The number of links that a node has on a level.
unfoldable pub degree : List Node → ℕ → ℕ → ℕ
degree nodes i level = elim (get_elem? nodes i) [
  | none ↦ 0
  | some node ↦ length (links_at node level)
]

-- Nothing but the links of node `a` on `level` is other.
unfoldable pub OnlyAt : List Node → List Node → ℕ → ℕ → Type 0
OnlyAt nodes others a level =
    (i lev : ℕ) → (i ≢ a) ⊎ (lev ≢ level) → degree others i lev ≡ degree nodes i lev

pub degree_of :
    (nodes : List Node) (i level : ℕ) (node : Node)
    → get_elem? nodes i ≡ some node
    → degree nodes i level ≡ length (links_at node level)
unfolding degree
degree_of nodes i level node at = rw (at, degree)

links_at-set_other :
    (node : Node) (level lev : ℕ) (l : List ℕ)
    → lev ≢ level
    → links_at (record node { links = set node.links level l }) lev ≡ links_at node lev
unfolding links_at
links_at-set_other node level lev l other =
    ap (λ (o : Option (List ℕ)). elim o as (λ _. List ℕ) [ none ↦ [] | some neighbors ↦ neighbors ])
      (get_elem?-set_other node.links level lev l (λ e. other (sym e)))

links_at-set_self :
    (node : Node) (level : ℕ) (l old : List ℕ)
    → get_elem? node.links level ≡ some old
    → links_at (record node { links = set node.links level l }) level ≡ l
unfolding links_at
links_at-set_self node level l old there =
    ap (λ (o : Option (List ℕ)). elim o as (λ _. List ℕ) [ none ↦ [] | some neighbors ↦ neighbors ])
      (get_elem?-set_self node.links level l (lt-of_get_elem? node.links level old there))

module _ (nodes : List Node) (a level : ℕ) (node : Node) (l old : List ℕ)
    (at : get_elem? nodes a ≡ some node) (there : get_elem? node.links level ≡ some old) where
  abbrev relinked : List Node
  relinked = set nodes a (record node { links = set node.links level l })

  at_a : get_elem? relinked a ≡ some (record node { links = set node.links level l })
  at_a = get_elem?-set_self nodes a _ (lt-of_get_elem? nodes a node at)

  degree-relinked : degree relinked a level ≡ length l
  degree-relinked =
      degree_of relinked a level _ at_a ∙ ap length (links_at-set_self node level l old there)

  degree_elsewhere : (i lev : ℕ) → i ≢ a → degree relinked i lev ≡ degree nodes i lev
  unfolding degree
  degree_elsewhere i lev apart =
      ap (λ (o : Option Node). elim o as (λ _. ℕ) [ none ↦ 0 | some n ↦ length (links_at n lev) ])
        (get_elem?-set_other nodes a i _ (λ e. apart (sym e)))

  relinked-OnlyAt : OnlyAt nodes relinked a level
  unfolding OnlyAt
  relinked-OnlyAt i lev (inl apart) = degree_elsewhere i lev apart
  relinked-OnlyAt i lev (inr other) = elim (ℕ_discrete i a) [
    | no apart ↦ degree_elsewhere i lev apart
    | yes same ↦ rw same (
        degree_of relinked a lev _ at_a
        ∙ ap length (links_at-set_other node level lev l other)
        ∙ sym (degree_of nodes a lev node at))
  ]

unchanged-OnlyAt :
    (nodes others : List Node) (a level : ℕ) → nodes ≡ others → OnlyAt nodes others a level
unfolding OnlyAt
unchanged-OnlyAt nodes others a level e i lev where_else = ap (λ ns. degree ns i lev) (sym e)

pub link-OnlyAt :
    (nodes others : List Node) (a b level : ℕ)
    → link nodes a b level ≡ some others
    → OnlyAt nodes others a level
unfolding link
link-OnlyAt nodes others a b level e = elim (Option-cases (get_elem? nodes a)) [
  | inl outside ↦ absurd (cc)
  | inr (node, at) ↦ elim (Option-cases (get_elem? node.links level)) [
    | inl absent ↦ unchanged-OnlyAt nodes others a level (cc)
    | inr (l, there) ↦ elim (Bool-cases (contains b l)) [
      | inl known ↦ unchanged-OnlyAt nodes others a level (cc)
      | inr new ↦
          let same : (set nodes a (record node { links = set node.links level (l ++ (b ∷ [])) })
              ≡ others) =
            cc in
          subst (λ (ns : List Node). OnlyAt nodes ns a level) same
            (relinked-OnlyAt nodes a level node (l ++ (b ∷ [])) l at there)
    ]
  ]
]

length-map : (ds : List DistIdx) → length (map (λ d. d.idx) ds) ≡ length ds
length-map [] = refl
length-map (d ∷ ds) = ap (λ (n : ℕ). suc n) (length-map ds)

pub links_at-some :
    (node : Node) (level : ℕ) (l : List ℕ)
    → get_elem? node.links level ≡ some l
    → links_at node level ≡ l
unfolding links_at
links_at-some node level l there = rw (there, links_at)

pub links_at-none :
    (node : Node) (level : ℕ) → get_elem? node.links level ≡ none → links_at node level ≡ []
unfolding links_at
links_at-none node level absent = rw (absent, links_at)

-- What pruning does: the links of the one node on the one level are few enough.
abbrev pub Pruned : HnswConfig → List Node → List Node → ℕ → ℕ → Type 0
Pruned cfg nodes others idx level =
    OnlyAt nodes others idx level × (degree others idx level ≤ max_degree cfg level)

module _ (f : Float32) (cfg : HnswConfig) where
  unpruned :
      (nodes others : List Node) (idx level : ℕ)
      → nodes ≡ others
      → degree nodes idx level ≤ max_degree cfg level
      → Pruned cfg nodes others idx level
  unpruned nodes others idx level e few = (
    unchanged-OnlyAt nodes others idx level e,
    subst (λ (ns : List Node). degree ns idx level ≤ max_degree cfg level) e few,
  )

  prune_links-Pruned :
      (nodes others : List Node) (idx level : ℕ) (node : Node) (o : Option (List ℕ))
      → get_elem? nodes idx ≡ some node
      → get_elem? node.links level ≡ o
      → prune_links f cfg nodes idx level node o ≡ some others
      → Pruned cfg nodes others idx level
  unfolding prune_links
  prune_links-Pruned nodes others idx level node none at absent e =
      unpruned nodes others idx level (some_inj.0 e) (
        omega (
          arith,
          degree_of nodes idx level node at,
          ap (λ (l : List ℕ). length l) (links_at-none node level absent),
        ))
  prune_links-Pruned nodes others idx level node (some l) at there e =
      elim (Bool-cases (ltb (max_degree cfg level) (length l))) [
        | inr few ↦ unpruned nodes others idx level (cc) (
            omega (
              tests,
              few,
              degree_of nodes idx level node at,
              ap (λ (l : List ℕ). length l) (links_at-some node level l there),
            ))
        | inl many ↦ elim (Option-cases (score_all f nodes node.vector l)) [
          | inl outside ↦ absurd (cc)
          | inr (scored, ok_scored) ↦
              let kept = take (max_degree cfg level) (sort_by by_dist_idx scored) in
              let l' = map (λ (d : DistIdx). d.idx) kept in
              let same : (set nodes idx (record node { links = set node.links level l' })
                  ≡ others) =
                cc in
              subst (λ (ns : List Node). Pruned cfg nodes ns idx level) same
                (
                  relinked-OnlyAt nodes idx level node l' l at there,
                  omega (
                    arith,
                    degree-relinked nodes idx level node l' l at there,
                    length-map kept,
                    length-take (max_degree cfg level) (sort_by by_dist_idx scored),
                  ),
                )
        ]
      ]

  pub prune-Pruned :
      (nodes others : List Node) (idx level : ℕ)
      → prune f cfg nodes idx level ≡ some others
      → Pruned cfg nodes others idx level
  unfolding prune
  prune-Pruned nodes others idx level e = elim (Option-cases (get_elem? nodes idx)) [
    | inl outside ↦ absurd (cc)
    | inr (node, at) ↦
        prune_links-Pruned nodes others idx level node (get_elem? node.links level) at refl
          (sym (rw (at, prune)) ∙ e)
  ]
