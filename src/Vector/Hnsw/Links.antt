-- ===== src/Vector/Hnsw/Links.antt =====
-- src/vector/hnsw.rs: link, prune and the loops of insert over them, on nodes whose links are in bounds.
use mathlib.Core.Option.{some_inj}
use grainstore.Base.{
  ℕ, zero, suc, ◌+◌, ◌<◌, ◌≡◌, refl, ap, sym, subst, ◌∙◌, List, [], ◌∷◌, ◌++◌, All, All-append,
  All-take, All-set, All-get_elem?, get_elem?_total, length-set, Option, none, some, ltb, length,
  map, take, set, get_elem?, arith, Bool-cases, Option-cases, inl, inr,
}
use grainstore.Float.{Float32}
use grainstore.Model.{Sid}
use grainstore.Sort.{sort_by}
use grainstore.Sort.Laws.{sort_by-All}
use grainstore.Vector.Hnsw.{
  HnswConfig, link, max_degree, score_all, prune_links, prune, first_of, descend, link_all, connect,
}
use grainstore.Vector.Hnsw.Layer.{Node, DistIdx, by_dist_idx, contains}
use grainstore.Vector.Hnsw.Visits.{
  IsLinked, IsLinkedNode, IsScored, IsReached, IsScored-lt, distance_total, search_layer_total,
}

-- What the nodes are for, their links aside.
abbrev pub stored : List Node → List (Sid × List ℕ)
stored nodes = map (λ node. (node.sid, node.vector)) nodes

-- Other links in bounds on the same nodes.
pub record Relinked (nodes others : List Node) : Type 0 where
  pub same_size : length others ≡ length nodes
  pub linked : IsLinked others
  pub same_stored : stored others ≡ stored nodes

pub Relinked-refl : (nodes : List Node) → IsLinked nodes → Relinked nodes nodes
Relinked-refl nodes h = record { same_size = refl; linked = h; same_stored = refl }

Relinked-trans :
    (nodes others last : List Node)
    → Relinked nodes others
    → Relinked others last
    → Relinked nodes last
Relinked-trans nodes others last h g = record {
  same_size = g.same_size ∙ h.same_size;
  linked = g.linked;
  same_stored = g.same_stored ∙ h.same_stored;
}

stored-set :
    (nodes : List Node) (i : ℕ) (node : Node) (links : List (List ℕ))
    → get_elem? nodes i ≡ some node
    → stored (set nodes i (record node { links = links })) ≡ stored nodes
stored-set [] i node links h = refl
stored-set (x ∷ nodes) zero node links h =
    ap (λ (n : Node). (n.sid, n.vector) ∷ stored nodes) (sym (some_inj.0 h))
stored-set (x ∷ nodes) (suc i) node links h =
    ap (◌∷◌ (x.sid, x.vector)) (stored-set nodes i node links h)

set-Relinked :
    (nodes : List Node) (i : ℕ) (node : Node) (links : List (List ℕ))
    → IsLinked nodes
    → get_elem? nodes i ≡ some node
    → All (All (λ j. j < length nodes)) links
    → Relinked nodes (set nodes i (record node { links = links }))
set-Relinked nodes i node links linked e fits =
    let size = length-set nodes i (record node { links = links }) in
    record {
      same_size = size;
      linked =
          subst (λ (n : ℕ). All (IsLinkedNode n) (set nodes i (record node { links = links })))
            (sym size)
            (All-set (IsLinkedNode (length nodes)) nodes i (record node { links = links }) linked
              fits);
      same_stored = stored-set nodes i node links e;
    }

link_total :
    (nodes : List Node) (a b level : ℕ)
    → IsLinked nodes
    → a < length nodes
    → b < length nodes
    → (others : List Node) × (link nodes a b level ≡ some others) × Relinked nodes others
unfolding link
link_total nodes a b level linked ha hb =
    let (node, e) = get_elem?_total nodes a ha in
    let mine = All-get_elem? (IsLinkedNode (length nodes)) nodes a node linked e in
    elim (Option-cases (get_elem? node.links level)) [
      | inl absent ↦ (nodes, rw (e, link, absent), Relinked-refl nodes linked)
      | inr (l, there) ↦ elim (Bool-cases (contains b l)) [
        | inl known ↦ (nodes, rw (e, link, there, known), Relinked-refl nodes linked)
        | inr new ↦
            let In : ℕ → Type 0 = λ j. j < length nodes in
            let links = set node.links level (l ++ (b ∷ [])) in
            (
              set nodes a (record node { links = links }),
              rw (e, link, there, new),
              set-Relinked nodes a node links linked e (
                  All-set (All In) node.links level (l ++ (b ∷ [])) mine (
                    All-append In l (b ∷ []) (All-get_elem? (All In) node.links level l mine there)
                      (hb, tt))),
            )
      ]
    ]

-- All vectors have one length.
abbrev pub HasDim : ℕ → List Node → Type 0
HasDim dim nodes = All (λ p. length p.1 ≡ dim) (stored nodes)

HasDim-Relinked :
    (dim : ℕ) (nodes others : List Node)
    → HasDim dim nodes
    → Relinked nodes others
    → HasDim dim others
HasDim-Relinked dim nodes others h r = subst (All (λ p. length p.1 ≡ dim)) (sym r.same_stored) h

module _ (f : Float32) (dim : ℕ) where
  pub reaches :
      (q : List ℕ) (nodes rest : List Node)
      → HasDim dim rest
      → length q ≡ dim
      → All (IsReached f nodes q) rest
  reaches q nodes [] h size = tt
  reaches q nodes (node ∷ rest) h size = (omega (arith, h.0), reaches q nodes rest h.1 size)

  score_all_total :
      (nodes : List Node) (vector : List ℕ) (l : List ℕ)
      → All (IsReached f nodes vector) nodes
      → All (λ j. j < length nodes) l
      → (scored : List DistIdx) × (score_all f nodes vector l ≡ some scored)
        × All (IsScored f nodes vector) scored
  unfolding score_all
  score_all_total nodes vector [] reach fits = ([], refl, tt)
  score_all_total nodes vector (n ∷ l) reach fits =
      let (d, e) = distance_total f nodes vector reach n fits.0 in
      let (scored, e', all) = score_all_total nodes vector l reach fits.1 in
      (record { dist = d; idx = n } ∷ scored, rw (e, e') refl, (e, all))

  indices-All :
      (nodes : List Node) (q : List ℕ) (w : List DistIdx)
      → All (IsScored f nodes q) w
      → All (λ j. j < length nodes) (map (λ d. d.idx) w)
  indices-All nodes q [] h = tt
  indices-All nodes q (d ∷ w) h = (IsScored-lt f nodes q d h.0, indices-All nodes q w h.1)

  dim_of :
      (nodes : List Node) (i : ℕ) (node : Node)
      → HasDim dim nodes
      → get_elem? nodes i ≡ some node
      → length node.vector ≡ dim
  dim_of [] i node dims e = absurd (cc)
  dim_of (x ∷ nodes) zero node dims e =
      ap (λ (n : Node). length n.vector) (sym (some_inj.0 e)) ∙ dims.0
  dim_of (x ∷ nodes) (suc i) node dims e = dim_of nodes i node dims.1 e

  prune_links_total :
      (cfg : HnswConfig) (nodes : List Node) (idx level : ℕ) (node : Node) (o : Option (List ℕ))
      → IsLinked nodes
      → HasDim dim nodes
      → get_elem? nodes idx ≡ some node
      → get_elem? node.links level ≡ o
      → (others : List Node) × (prune_links f cfg nodes idx level node o ≡ some others)
        × Relinked nodes others
  unfolding prune_links
  prune_links_total cfg nodes idx level node none linked dims e there =
      (nodes, refl, Relinked-refl nodes linked)
  prune_links_total cfg nodes idx level node (some l) linked dims e there =
      let In : ℕ → Type 0 = λ j. j < length nodes in
      let mine = All-get_elem? (IsLinkedNode (length nodes)) nodes idx node linked e in
      elim (Bool-cases (ltb (max_degree cfg level) (length l))) [
        | inr few ↦ (nodes, rw few, Relinked-refl nodes linked)
        | inl many ↦
            let (scored, e', all) =
              score_all_total nodes node.vector l
                (reaches node.vector nodes nodes dims (dim_of nodes idx node dims e))
                (All-get_elem? (All In) node.links level l mine there) in
            let kept = take (max_degree cfg level) (sort_by by_dist_idx scored) in
            let links = set node.links level (map (λ (d : DistIdx). d.idx) kept) in
            (
              set nodes idx (record node { links = links }),
              rw (many, e'),
              set-Relinked nodes idx node links linked e (
                  All-set (All In) node.links level _ mine (
                    indices-All nodes node.vector kept (
                      All-take (IsScored f nodes node.vector) (max_degree cfg level) _
                        (sort_by-All by_dist_idx (IsScored f nodes node.vector) scored all)))),
            )
      ]

  prune_total :
      (cfg : HnswConfig) (nodes : List Node) (idx level : ℕ)
      → IsLinked nodes
      → HasDim dim nodes
      → idx < length nodes
      → (others : List Node) × (prune f cfg nodes idx level ≡ some others) × Relinked nodes others
  unfolding prune
  prune_total cfg nodes idx level linked dims fits =
      let (node, e) = get_elem?_total nodes idx fits in
      let (others, e', r) =
        prune_links_total cfg nodes idx level node (get_elem? node.links level) linked dims e
          refl in
      (others, rw (e, prune) e', r)

  first_of-lt :
      (nodes : List Node) (q : List ℕ) (ep : ℕ) (w : List DistIdx)
      → ep < length nodes
      → All (IsScored f nodes q) w
      → first_of ep w < length nodes
  unfolding first_of
  first_of-lt nodes q ep [] h all = h
  first_of-lt nodes q ep (best ∷ w) h all = IsScored-lt f nodes q best all.0

  pub descend_total :
      (nodes : List Node) (q : List ℕ) (low steps ep : ℕ)
      → IsLinked nodes
      → HasDim dim nodes
      → length q ≡ dim
      → ep < length nodes
      → (ep' : ℕ) × (descend f nodes q low steps ep ≡ some ep') × (ep' < length nodes)
  unfolding descend
  descend_total nodes q low zero ep linked dims size fits = (ep, refl, fits)
  descend_total nodes q low (suc steps) ep linked dims size fits =
      let (w, e, all, sorted, len) =
        search_layer_total f nodes q (reaches q nodes nodes dims size) (ep ∷ []) 1 (low + steps)
          linked (fits, tt) in
      let (ep', e', fits') =
        descend_total nodes q low steps (first_of ep w) linked dims size
          (first_of-lt nodes q ep w fits all) in
      (ep', rw e e', fits')

  link_all_total :
      (cfg : HnswConfig) (idx level : ℕ) (l : List ℕ) (nodes : List Node)
      → IsLinked nodes
      → HasDim dim nodes
      → idx < length nodes
      → All (λ j. j < length nodes) l
      → (others : List Node) × (link_all f cfg idx level l nodes ≡ some others)
        × Relinked nodes others
  unfolding link_all
  link_all_total cfg idx level [] nodes linked dims fits all =
      (nodes, refl, Relinked-refl nodes linked)
  link_all_total cfg idx level (n ∷ l) nodes linked dims fits all =
      let (a, ea, ra) = link_total nodes idx n level linked fits all.0 in
      let (b, eb, rb) =
        link_total a n idx level ra.linked (omega (arith, ra.same_size, all.0))
          (omega (arith, ra.same_size)) in
      let (c, ec, rc) =
        prune_total cfg b n level rb.linked
          (HasDim-Relinked dim nodes b dims (Relinked-trans nodes a b ra rb))
          (omega (arith, ra.same_size, rb.same_size, all.0)) in
      let so_far = Relinked-trans nodes a c ra (Relinked-trans a b c rb rc) in
      let (d, ed, rd) =
        link_all_total cfg idx level l c rc.linked (HasDim-Relinked dim nodes c dims so_far)
          (omega (arith, so_far.same_size))
          (subst (λ (k : ℕ). All (λ j. j < k) l) (sym so_far.same_size) all.1) in
      (d, rw (ea, eb, ec) ed, Relinked-trans nodes c d so_far rd)

  -- Linking a node on all its levels, from a node that there is, ends without a panic, keeps all links
  -- in bounds, and changes nothing but links.
  pub connect_total :
      (cfg : HnswConfig) (idx : ℕ) (vector : List ℕ) (levels ep : ℕ) (nodes : List Node)
      → IsLinked nodes
      → HasDim dim nodes
      → length vector ≡ dim
      → idx < length nodes
      → ep < length nodes
      → (others : List Node) × (connect f cfg idx vector levels ep nodes ≡ some others)
        × Relinked nodes others
  unfolding connect
  connect_total cfg idx vector zero ep nodes linked dims size fits there =
      (nodes, refl, Relinked-refl nodes linked)
  connect_total cfg idx vector (suc level) ep nodes linked dims size fits there =
      let (w, e, all, sorted, len) =
        search_layer_total f nodes vector (reaches vector nodes nodes dims size) (ep ∷ [])
          cfg.ef_construction level linked (there, tt) in
      let next = first_of ep w in
      let next_fits = first_of-lt nodes vector ep w there all in
      let neighbors = map (λ (d : DistIdx). d.idx) (take (max_degree cfg level) w) in
      let (a, ea, ra) = link_all_total cfg idx level neighbors nodes linked dims fits (
        indices-All nodes vector _
          (All-take (IsScored f nodes vector) (max_degree cfg level) w all)) in
      let (b, eb, rb) =
        prune_total cfg a idx level ra.linked (HasDim-Relinked dim nodes a dims ra)
          (omega (arith, ra.same_size)) in
      let so_far = Relinked-trans nodes a b ra rb in
      let (c, ec, rc) =
        connect_total cfg idx vector level next b rb.linked
          (HasDim-Relinked dim nodes b dims so_far) size (omega (arith, so_far.same_size))
          (omega (arith, so_far.same_size, next_fits)) in
      (c, rw (e, ea, eb) ec, Relinked-trans nodes b c so_far rc)
