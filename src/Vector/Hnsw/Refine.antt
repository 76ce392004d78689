-- ===== src/Vector/Hnsw/Refine.antt =====
-- src/vector/hnsw.rs: the graph as a map from sids to vectors.
use mathlib.Core.Option.{some_inj}
use grainstore.Base.{
  ℕ, suc, ◌+◌, ◌*◌, ◌%◌, ◌^◌, ◌-◌, ◌<◌, ◌≡◌, ◌≢◌, refl, ap, sym, subst, All, All-append, true, ◌∙◌,
  min, List, [], ◌∷◌, ◌++◌, length, length-append, replicate, Option, none, some, false, ltb, ◌==◌,
  ==_refl, if◌then◌else◌, get_elem?, lt-of_get_elem?, get_elem?-append_lt, get_elem?-append_length,
  arith, Bool-cases, Option-cases, inl, inr,
}
use native.Mathlib.Decide.{ℕ_discrete}
use grainstore.Base.HashMap
use grainstore.Base.HashMap.{
  get-insert_self, get-insert_other, get-remove_other, get-insert, get-remove,
}
use grainstore.Float.{Float32, LogFloat}
use grainstore.Model.{Sid}
use grainstore.Vector.Hnsw.{
  State, HnswConfig, new, next_rng, rand_level, new_links, push_node, link_from, insert, remove,
}
use grainstore.Vector.Hnsw.Layer.{Node}
use grainstore.Vector.Hnsw.Links.{
  stored, Relinked, Relinked-refl, HasDim, descend_total, connect_total,
}
use grainstore.Vector.Hnsw.Live.{
  IsHnsw, forget, count_live, marked, soft_delete_total, forget-marked, replace_total,
  push_node-IsHnsw, replicate-In, stored-append, length-stored,
}

vector_at : List (Sid × List ℕ) → Option ℕ → Option (List ℕ)
vector_at xs none = none
vector_at xs (some i) = elim (get_elem? xs i) [ none ↦ none | some p ↦ some p.1 ]

unfoldable pub lookup : List (ℕ × ℕ) → List (Sid × List ℕ) → Sid → Option (List ℕ)
unfolding vector_at
lookup m xs sid = vector_at xs (HashMap.get sid m)

-- The vector that is stored for a sid.
unfoldable pub vector_of : {Real : Type 0} → State Real → Sid → Option (List ℕ)
unfolding lookup
vector_of s sid = lookup s.sid_to_idx (stored s.nodes) sid

pub lookup_known :
    (m : List (ℕ × ℕ)) (xs : List (Sid × List ℕ)) (sid i : ℕ) (p : Sid × List ℕ)
    → HashMap.get sid m ≡ some i
    → get_elem? xs i ≡ some p
    → lookup m xs sid ≡ some p.1
unfolding lookup vector_at
lookup_known m xs sid i p known at = rw (known, vector_at, at)

lookup-insert :
    (m : List (ℕ × ℕ)) (xs : List (Sid × List ℕ)) (sid k : ℕ) (v : List ℕ)
    → ((i : ℕ) → sid ≢ k → HashMap.get k m ≡ some i → i < length xs)
    → lookup (HashMap.insert sid (length xs) m) (xs ++ ((sid, v) ∷ [])) k
      ≡ (if sid == k then some v else lookup m xs k)
lookup-insert m xs sid k v fits = elim (ℕ_discrete sid k) [
  | yes same ↦
      rw (← same, ==_refl sid)
        (lookup_known (HashMap.insert sid (length xs) m) (xs ++ ((sid, v) ∷ [])) sid (length xs)
          (sid, v) (get-insert_self sid (length xs) m) (get_elem?-append_length xs (sid, v)))
  | no other ↦
      let apart : ((sid == k) ≡ false) = ground arith in
      rw apart (
        unfold lookup in
        rw (get-insert_other sid k (length xs) m other) (elim (Option-cases (HashMap.get k m)) [
          | inl absent ↦ rw (absent, vector_at)
          | inr (i, known) ↦
              rw (known, vector_at, get_elem?-append_lt xs ((sid, v) ∷ []) i (fits i other known))
        ]))
]

lookup-remove :
    (m : List (ℕ × ℕ)) (xs : List (Sid × List ℕ)) (sid k : ℕ)
    → lookup (HashMap.remove sid m) xs k ≡ (if sid == k then none else lookup m xs k)
unfolding lookup
lookup-remove m xs sid k =
    rw (get-remove sid k m)
      (elim (Bool-cases (sid == k)) [ inl same ↦ rw same | inr other ↦ rw other ])

gone_already :
    (m : List (ℕ × ℕ)) (xs : List (Sid × List ℕ)) (sid k : ℕ)
    → HashMap.get sid m ≡ none
    → lookup m xs k ≡ (if sid == k then none else lookup m xs k)
unfolding lookup
gone_already m xs sid k absent = elim (ℕ_discrete sid k) [
  | yes same ↦ rw (← same, ==_refl sid, absent, vector_at)
  | no other ↦ ground arith
]

module _ {Real : Type 0} where
  -- Only the map and what the nodes are for decide.
  vector_of_same :
      (s t : State Real) (sid : Sid)
      → s.sid_to_idx ≡ t.sid_to_idx
      → stored s.nodes ≡ stored t.nodes
      → vector_of s sid ≡ vector_of t sid
  unfolding vector_of
  vector_of_same s t sid e e' = λ i. lookup (e i) (e' i) sid

  vector_of-push_node :
      (s : State Real) (sid k : Sid) (vector : List ℕ) (rng : ℕ) (links : List (List ℕ))
      → IsHnsw (forget s sid)
      → vector_of (push_node s sid vector rng links) k
        ≡ (if sid == k then some vector else vector_of s k)
  unfolding push_node vector_of
  vector_of-push_node s sid k vector rng links h =
      rw (stored-append s.nodes, ← length-stored s.nodes)
        (lookup-insert s.sid_to_idx (stored s.nodes) sid k vector (λ i other known.
          lt-of_get_elem? (stored s.nodes) i (k, _)
            (h.known_live k i (get-remove_other sid k s.sid_to_idx other ∙ known)).2))

  relink-IsHnsw :
      (s : State Real) (nodes : List Node) (entry : Option ℕ) (top : ℕ)
      → IsHnsw s
      → Relinked s.nodes nodes
      → ((e : ℕ) → entry ≡ some e → e < length s.nodes)
      → IsHnsw (record s { nodes = nodes; entry = entry; max_level = top })
  relink-IsHnsw s nodes entry top h r fits = record {
    sizes = h.sizes ∙ sym r.same_size;
    linked = r.linked;
    entered = λ e at. omega (arith, r.same_size, fits e at);
    live_known = λ i sid v live at. h.live_known i sid v live (rw r.same_stored at at);
    known_live = λ sid i known.
        let (live, v, at) = h.known_live sid i known in
        (live, v, sym (ap (λ xs. get_elem? xs i) (sym r.same_stored)) ∙ at);
    counted = h.counted;
  }

module _ {Real : Type 0} where
  -- Removing a sid from a whole graph does not panic, leaves it whole, and takes the vector of that sid
  -- out and nothing else.
  pub remove_total :
      (s : State Real) (sid : Sid)
      → IsHnsw s
      → (s' : State Real) × (remove s sid ≡ some s')
        × IsHnsw s'
        × (s'.nodes ≡ s.nodes)
        × (s'.ml ≡ s.ml)
        × ((k : Sid) → vector_of s' k ≡ (if sid == k then none else vector_of s k))
  unfolding remove vector_of
  remove_total s sid h = elim (Option-cases (HashMap.get sid s.sid_to_idx)) [
    | inl absent ↦ (
      s,
      rw (absent, remove),
      h,
      refl,
      refl,
      λ k. gone_already s.sid_to_idx (stored s.nodes) sid k absent,
    )
    | inr (old, known) ↦ (
      forget (marked s old) sid,
      rw (known, remove, soft_delete_total s old h (h.known_live sid old known).0),
      forget-marked s sid old h known,
      refl,
      refl,
      λ k. lookup-remove s.sid_to_idx (stored s.nodes) sid k,
    )
  ]

-- A new graph is whole, and holds nothing.
pub new-IsHnsw : (g : LogFloat) (cfg : HnswConfig) → IsHnsw (new g cfg)
unfolding new count_live HashMap.get
new-IsHnsw g cfg = record {
  sizes = refl;
  linked = tt;
  entered = λ e at. absurd (cc);
  live_known = λ i sid v live at. absurd (cc);
  known_live = λ sid i known. absurd (cc);
  counted = refl;
}

module _ (f : Float32) (dim : ℕ) {Real : Type 0} where
  link_from_total :
      (s : State Real) (idx : ℕ) (vector : List ℕ) (level : ℕ) (entry : Option ℕ)
      → s.entry ≡ entry
      → IsHnsw s
      → HasDim dim s.nodes
      → length vector ≡ dim
      → idx < length s.nodes
      → (s' : State Real) × (link_from f s idx vector level entry ≡ some s')
        × IsHnsw s'
        × (stored s'.nodes ≡ stored s.nodes)
        × (s'.ml ≡ s.ml)
        × ((k : Sid) → vector_of s' k ≡ vector_of s k)
  unfolding link_from
  link_from_total s idx vector level none at h dims size fits =
      let r = Relinked-refl s.nodes h.linked in
      (
        record s { entry = some idx; max_level = level },
        refl,
        relink-IsHnsw s s.nodes (some idx) level h r (λ e same. omega (arith, some_inj.0 same)),
        refl,
        refl,
        λ k. vector_of_same (record s { entry = some idx; max_level = level }) s k refl refl,
      )
  link_from_total s idx vector level (some entry) at h dims size fits =
      let (ep, e, ep_fits) =
        descend_total f dim s.nodes vector (level + 1) (s.max_level - level) entry h.linked dims
          size (h.entered entry at) in
      let (nodes, e', r) =
        connect_total f dim s.cfg idx vector (suc (min level s.max_level)) ep s.nodes h.linked dims
          size fits ep_fits in
      elim (Bool-cases (ltb s.max_level level)) [
        | inl higher ↦ (
          record s { nodes = nodes; entry = some idx; max_level = level },
          rw (e, e', higher),
          relink-IsHnsw s nodes (some idx) level h r (λ i same. omega (arith, some_inj.0 same)),
          r.same_stored,
          refl,
          λ k.
              vector_of_same (record s { nodes = nodes; entry = some idx; max_level = level }) s k
                refl r.same_stored,
        )
        | inr lower ↦ (
          record s { nodes = nodes },
          rw (e, e', lower),
          relink-IsHnsw s nodes s.entry s.max_level h r h.entered,
          r.same_stored,
          refl,
          λ k. vector_of_same (record s { nodes = nodes }) s k refl r.same_stored,
        )
      ]

module _ (f : Float32) (g : LogFloat) (dim : ℕ) where
  -- A whole graph of vectors of one length, whose new nodes have levels of less than 2^63 bytes.
  pub record IsReady (s : State g.Real) : Type 0 where
    pub whole : IsHnsw s
    pub dims : HasDim dim s.nodes
    pub levels : (rng : ℕ) → (rand_level g rng s.ml + 1) * 24 < 2 ^ 63

  new_links-replicate :
      (level : ℕ) → (level + 1) * 24 < 2 ^ 63 → new_links level ≡ some (replicate (level + 1) [])
  unfolding new_links
  new_links-replicate level room =
      let same : ((level + 1) % 2 ^ 64 ≡ level + 1) = omega arith in
      let fits : (ltb ((level + 1) * 24) (2 ^ 63) ≡ true) = ground arith in rw (same, fits) refl

  push_node-HasDim :
      (s : State g.Real) (sid : Sid) (vector : List ℕ) (rng : ℕ) (links : List (List ℕ))
      → HasDim dim s.nodes
      → length vector ≡ dim
      → HasDim dim (push_node s sid vector rng links).nodes
  unfolding push_node
  push_node-HasDim s sid vector rng links dims size =
      let pair : Sid × List ℕ = (sid, vector) in
      rw (stored-append s.nodes) (
        All-append (λ (p : Sid × List ℕ). length p.1 ≡ dim) (stored s.nodes) (pair ∷ []) dims
          (size, tt))

  -- Inserting a vector of the graph's length for a sid into a graph that is ready does not panic,
  -- leaves it ready, and changes the vector of that sid to the new one and no other.
  pub insert_total :
      (s : State g.Real) (sid : Sid) (vector : List ℕ)
      → IsReady s
      → length vector ≡ dim
      → (s' : State g.Real) × (insert f g s sid vector ≡ some s')
        × IsReady s'
        × ((k : Sid) → vector_of s' k ≡ (if sid == k then some vector else vector_of s k))
  unfolding insert push_node
  insert_total s sid vector ready size =
      let (s1, e1, h1, nodes, map, ml) = replace_total s sid ready.whole in
      let rng = next_rng s1.rng in
      let level = rand_level g rng s1.ml in
      let links = replicate (level + 1) [] in
      let drawn : (new_links level ≡ some links) =
        new_links-replicate level
          (subst (λ r. (rand_level g rng r + 1) * 24 < 2 ^ 63) (sym ml) (ready.levels rng)) in
      let pushed = push_node s1 sid vector rng links in
      let dims =
        push_node-HasDim s1 sid vector rng links (subst (HasDim dim) (sym nodes) ready.dims) size in
      let (s', e2, h2, kept, ml', same) =
        link_from_total f dim pushed (length s1.nodes) vector level pushed.entry refl
          (push_node-IsHnsw s1 sid vector rng links (replicate-In (length s1.nodes + 1) (level + 1))
            h1)
          dims size
          (omega (
            arith,
            length-append s1.nodes (record { sid = sid; vector = vector; links = links } ∷ []),
          )) in
      (
        s',
        rw (e1, insert, drawn) e2,
        record {
          whole = h2;
          dims = subst (All (λ p. length p.1 ≡ dim)) (sym kept) dims;
          levels = λ rng'.
              subst (λ r. (rand_level g rng' r + 1) * 24 < 2 ^ 63) (sym (ml' ∙ ml))
                (ready.levels rng');
        },
        λ k.
            same k
            ∙ vector_of-push_node s1 sid k vector rng links h1
            ∙ ap (λ (o : Option (List ℕ)). if sid == k then some vector else o)
                (vector_of_same s1 s k map (ap stored nodes)),
      )
