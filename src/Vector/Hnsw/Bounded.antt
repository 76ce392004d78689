-- ===== src/Vector/Hnsw/Bounded.antt =====
-- src/vector/hnsw.rs: the number of links of each node through an insertion.
use mathlib.Core.Option.{some_inj}
use grainstore.Base.{
  ℕ, zero, suc, ◌+◌, ◌*◌, ◌%◌, ◌^◌, ◌-◌, ◌≤◌, ◌≡◌, ◌≢◌, ◌⊎◌, refl, ap, sym, subst, ◌∙◌, min, List,
  [], ◌∷◌, ◌++◌, length, map, take, replicate, Option, none, some, true, ltb, get_elem?, set,
  get_elem?-append_cases, arith, Bool-cases, Option-cases, inl, inr,
}
use native.Mathlib.Decide.{ℕ_discrete}
use grainstore.Base.HashMap
use grainstore.Base.Panic.{bind_some}
use grainstore.Float.{Float32, LogFloat}
use grainstore.Model.{Sid}
use grainstore.Vector.Hnsw.{
  State, HnswConfig, max_degree, prune, link_all, connect, descend, first_of, replace, soft_delete,
  push_node, link_from, insert, next_rng, rand_level, new_links,
}
use grainstore.Vector.Hnsw.Degree.{
  links_at-some, links_at-none, degree, degree_of, OnlyAt, Pruned, link-OnlyAt, prune-Pruned,
}
use grainstore.Vector.Hnsw.Layer.{Node, DistIdx, links_at, search_layer}

-- No node has too many links on a level.
abbrev pub IsBounded : HnswConfig → List Node → Type 0
IsBounded cfg nodes = (i level : ℕ) → degree nodes i level ≤ max_degree cfg level

-- No node but `a`, and `a` not on another level than `level`.
abbrev IsBoundedBut : HnswConfig → ℕ → ℕ → List Node → Type 0
IsBoundedBut cfg a level nodes =
    (i lev : ℕ) → (i ≢ a) ⊎ (lev ≢ level) → degree nodes i lev ≤ max_degree cfg lev

module _ (cfg : HnswConfig) where
  linked_but :
      (nodes others : List Node) (a level : ℕ)
      → IsBoundedBut cfg a level nodes
      → OnlyAt nodes others a level
      → IsBoundedBut cfg a level others
  unfolding OnlyAt
  linked_but nodes others a level h only i lev elsewhere =
      omega (arith, only i lev elsewhere, h i lev elsewhere)

  -- Bounded elsewhere and pruned there is bounded.
  bounded_there :
      (nodes there others : List Node) (n level i lev : ℕ)
      → degree nodes i lev ≤ max_degree cfg lev ⊎ ((i ≡ n) × (lev ≡ level))
      → OnlyAt nodes there n level
      → Pruned cfg there others n level
      → degree others i lev ≤ max_degree cfg lev
  unfolding OnlyAt
  bounded_there nodes there others n level i lev (inr (same, at)) only (only', few) =
      rw (same, at) few
  bounded_there nodes there others n level i lev (inl h) only (only', few) = elim (ℕ_discrete i n) [
    | no apart ↦ omega (arith, only' i lev (inl apart), only i lev (inl apart))
    | yes same ↦ elim (ℕ_discrete lev level) [
      | no apart ↦ omega (arith, only' i lev (inr apart), only i lev (inr apart))
      | yes at ↦ rw (same, at) few
    ]
  ]

module _ (f : Float32) (cfg : HnswConfig) where
  link_all-IsBoundedBut :
      (idx level : ℕ) (l : List ℕ) (nodes others : List Node)
      → IsBoundedBut cfg idx level nodes
      → link_all f cfg idx level l nodes ≡ some others
      → IsBoundedBut cfg idx level others
  unfolding link_all
  link_all-IsBoundedBut idx level [] nodes others h e =
      subst (IsBoundedBut cfg idx level) (some_inj.0 e) h
  link_all-IsBoundedBut idx level (n ∷ l) nodes others h e =
      let (a, ea, e1) = bind_some _ _ others e in
      let (b, eb, e2) = bind_some _ _ others e1 in
      let (c, ec, e3) = bind_some _ _ others e2 in
      let there = linked_but cfg nodes a idx level h (link-OnlyAt nodes a idx n level ea) in
      link_all-IsBoundedBut idx level l c others
        (λ i lev elsewhere.
          bounded_there cfg a b c n level i lev (inl (there i lev elsewhere))
            (link-OnlyAt a b n idx level eb) (prune-Pruned f cfg b c n level ec))
        e3

  same-OnlyAt : (nodes : List Node) (a level : ℕ) → OnlyAt nodes nodes a level
  unfolding OnlyAt
  same-OnlyAt nodes a level i lev elsewhere = refl

  -- Linking a node on its levels keeps the bound.
  connect-IsBounded :
      (idx : ℕ) (vector : List ℕ) (levels ep : ℕ) (nodes others : List Node)
      → IsBounded cfg nodes
      → connect f cfg idx vector levels ep nodes ≡ some others
      → IsBounded cfg others
  unfolding connect
  connect-IsBounded idx vector zero ep nodes others h e = subst (IsBounded cfg) (some_inj.0 e) h
  connect-IsBounded idx vector (suc level) ep nodes others h e =
      elim (Option-cases (search_layer f nodes vector (ep ∷ []) cfg.ef_construction level)) [
        | inl panics ↦ absurd (cc)
        | inr (w, ew) ↦
            let l = map (λ (d : DistIdx). d.idx) (take (max_degree cfg level) w) in
            elim (Option-cases (link_all f cfg idx level l nodes)) [
              | inl panics ↦ absurd (cc)
              | inr (a, ea) ↦ elim (Option-cases (prune f cfg a idx level)) [
                | inl panics ↦ absurd (cc)
                | inr (b, eb) ↦
                    let but = link_all-IsBoundedBut idx level l nodes a (λ i lev _. h i lev) ea in
                    connect-IsBounded idx vector level (first_of ep w) b others
                      (λ i lev.
                        bounded_there cfg a a b idx level i lev (everywhere a idx level but i lev)
                          (same-OnlyAt a idx level) (prune-Pruned f cfg a b idx level eb))
                      (cc)
              ]
            ]
      ]
    where
      everywhere :
          (ns : List Node) (idx level : ℕ)
          → IsBoundedBut cfg idx level ns
          → (i lev : ℕ) → degree ns i lev ≤ max_degree cfg lev ⊎ ((i ≡ idx) × (lev ≡ level))
      everywhere ns idx level but i lev = elim (ℕ_discrete i idx) [
        | no apart ↦ inl (but i lev (inl apart))
        | yes same ↦ elim (ℕ_discrete lev level) [
          | no apart ↦ inl (but i lev (inr apart))
          | yes at ↦ inr (same, at)
        ]
      ]

replicate_cases :
    (n level : ℕ)
    → (get_elem? {A = List ℕ} (replicate n []) level ≡ none)
      ⊎ (get_elem? {A = List ℕ} (replicate n []) level ≡ some [])
replicate_cases zero level = inl refl
replicate_cases (suc n) zero = inr refl
replicate_cases (suc n) (suc level) = replicate_cases n level

unlinked : (node : Node) (n level : ℕ) → node.links ≡ replicate n [] → links_at node level ≡ []
unlinked node n level e = elim (replicate_cases n level) [
  | inl absent ↦ links_at-none node level (ap (λ ls. get_elem? ls level) e ∙ absent)
  | inr there ↦ links_at-some node level [] (ap (λ ls. get_elem? ls level) e ∙ there)
]

degree_outside :
    (nodes : List Node) (i level : ℕ) → get_elem? nodes i ≡ none → degree nodes i level ≡ 0
unfolding degree
degree_outside nodes i level out = rw (out, degree)

-- A node without links keeps the bound.
append-IsBounded :
    (cfg : HnswConfig) (nodes : List Node) (node : Node) (n : ℕ)
    → node.links ≡ replicate n []
    → IsBounded cfg nodes
    → IsBounded cfg (nodes ++ (node ∷ []))
append-IsBounded cfg nodes node n new h i level =
    elim (Option-cases (get_elem? (nodes ++ (node ∷ [])) i)) [
      | inl out ↦ omega (arith, degree_outside (nodes ++ (node ∷ [])) i level out)
      | inr (x, at) ↦
          let here = degree_of (nodes ++ (node ∷ [])) i level x at in
          elim (get_elem?-append_cases nodes node x i at) [
            | inl before ↦ omega (arith, here, degree_of nodes i level x before, h i level)
            | inr (last, same) ↦ omega (
              arith,
              here,
              ap (λ (l : List ℕ). length l)
                  (unlinked x n level (ap (λ (y : Node). y.links) (sym same) ∙ new)),
            )
          ]
    ]

module _ {Real : Type 0} where
  -- Replacing changes neither the nodes nor the configuration.
  abbrev SameGraph : State Real → State Real → Type 0
  SameGraph s t = (s.nodes ≡ t.nodes) × (s.cfg ≡ t.cfg)

  soft_delete-SameGraph :
      (s s' : State Real) (idx : ℕ) → soft_delete s idx ≡ some s' → SameGraph s s'
  unfolding soft_delete
  soft_delete-SameGraph s s' idx e = elim (Option-cases (get_elem? s.deleted idx)) [
    | inl outside ↦ absurd (cc)
    | inr (gone, at) ↦ elim (Bool-cases gone) [
      | inl dead ↦
          let same : (s ≡ s') = cc in subst (λ (t : State Real). SameGraph s t) same (refl, refl)
      | inr live ↦ elim (Bool-cases (ltb s.live 1)) [
        | inl underflow ↦ absurd (cc)
        | inr enough ↦
            let same : (record s { deleted = set s.deleted idx true; live = s.live - 1 } ≡ s') =
              cc in
            subst (λ (t : State Real). SameGraph s t) same (refl, refl)
      ]
    ]
  ]

  replace-SameGraph : (s s' : State Real) (sid : Sid) → replace s sid ≡ some s' → SameGraph s s'
  unfolding replace
  replace-SameGraph s s' sid e = elim (Option-cases (HashMap.get sid s.sid_to_idx)) [
    | inl absent ↦
        let same : (s ≡ s') = cc in subst (λ (t : State Real). SameGraph s t) same (refl, refl)
    | inr (old, known) ↦ soft_delete-SameGraph s s' old (cc)
  ]

module _ (f : Float32) {Real : Type 0} where
  link_from-IsBounded :
      (s s' : State Real) (idx : ℕ) (vector : List ℕ) (level : ℕ) (entry : Option ℕ)
      → IsBounded s.cfg s.nodes
      → link_from f s idx vector level entry ≡ some s'
      → IsBounded s'.cfg s'.nodes
  unfolding link_from
  link_from-IsBounded s s' idx vector level none h e =
      subst (λ (t : State Real). IsBounded t.cfg t.nodes) (some_inj.0 e) h
  link_from-IsBounded s s' idx vector level (some entry) h e =
      elim (Option-cases (descend f s.nodes vector (level + 1) (s.max_level - level) entry)) [
        | inl panics ↦ absurd (cc)
        | inr (ep, ee) ↦
            elim (Option-cases
              (connect f s.cfg idx vector (suc (min level s.max_level)) ep s.nodes)) [
                | inl panics ↦ absurd (cc)
                | inr (nodes, en) ↦
                    let bounded =
                      connect-IsBounded f s.cfg idx vector (suc (min level s.max_level)) ep s.nodes
                        nodes h en in
                    elim (Bool-cases (ltb s.max_level level)) [
                      | inl higher ↦
                          let same : (record s {
                            nodes = nodes;
                            entry = some idx;
                            max_level = level;
                          }
                              ≡ s') =
                            cc in
                          subst (λ (t : State Real). IsBounded t.cfg t.nodes) same bounded
                      | inr lower ↦
                          let same : (record s { nodes = nodes } ≡ s') = cc in
                          subst (λ (t : State Real). IsBounded t.cfg t.nodes) same bounded
                    ]
              ]
      ]

new_links-replicate :
    (level : ℕ) (links : List (List ℕ))
    → new_links level ≡ some links
    → links ≡ replicate ((level + 1) % 2 ^ 64) []
unfolding new_links
new_links-replicate level links e = elim (Bool-cases (ltb ((level + 1) % 2 ^ 64 * 24) (2 ^ 63))) [
  | inl fits ↦ sym (some_inj.0 (sym (rw fits refl) ∙ e))
  | inr over ↦ absurd (cc)
]

module _ (f : Float32) (g : LogFloat) where
  -- An insertion that succeeds keeps the number of links of every node on every level within the
  -- configuration's maximum for that level.
  pub insert-IsBounded :
      (s s' : State g.Real) (sid : Sid) (vector : List ℕ)
      → IsBounded s.cfg s.nodes
      → insert f g s sid vector ≡ some s'
      → IsBounded s'.cfg s'.nodes
  unfolding insert push_node
  insert-IsBounded s s' sid vector h e = elim (Option-cases (replace s sid)) [
    | inl panics ↦ absurd (cc)
    | inr (s1, e1) ↦
        let (nodes, cfg) = replace-SameGraph s s1 sid e1 in
        let rng = next_rng s1.rng in
        let level = rand_level g rng s1.ml in
        let h1 : IsBounded s1.cfg s1.nodes = rw (← nodes, ← cfg) h in
        elim (Option-cases (new_links level)) [
          | inl panics ↦ absurd (cc)
          | inr (links, drawn) ↦
              let pushed = push_node s1 sid vector rng links in
              link_from-IsBounded f pushed s' (length s1.nodes) vector level pushed.entry
                (append-IsBounded s1.cfg s1.nodes _ ((level + 1) % 2 ^ 64)
                  (new_links-replicate level links drawn) h1)
                (cc)
        ]
  ]
