-- ===== src/Vector/Hnsw/Live.antt =====
-- src/vector/hnsw.rs: the map from sids to nodes, the marks of deleted nodes, and their count.
use mathlib.Core.Option.{some_inj}
use grainstore.Base.{
  ℕ, zero, suc, ◌+◌, ◌-◌, ◌<◌, ◌≡◌, ◌≢◌, refl, ap, sym, subst, ◌∙◌, List, [], ◌∷◌, ◌++◌, All,
  All-append, All-map, length, length-append, length-set, replicate, none, some, Bool, true, false,
  ltb, if◌then◌else◌, get_elem?, set, lt-of_get_elem?, get_elem?-set_self, get_elem?-set_other,
  get_elem?-append_lt, get_elem?-append_length, get_elem?-append_cases, arith, Option-cases, inl,
  inr,
}
use mathlib.Core.List.{map-append}
use grainstore.Base.HashMap
use grainstore.Base.HashMap.{get-insert_self, get-insert_other, get-remove_other, get-remove_cases}
use grainstore.Model.{Sid}
use grainstore.Vector.Hnsw.{State, soft_delete, replace, push_node}
use grainstore.Vector.Hnsw.Layer.{Node}
use grainstore.Vector.Hnsw.Links.{stored}
use grainstore.Vector.Hnsw.Visits.{IsLinked, IsLinkedNode}
use native.Mathlib.Decide.{ℕ_discrete}

unfoldable pub count_live : List Bool → ℕ
count_live [] = 0
count_live (gone ∷ deleted) = if gone then count_live deleted else suc (count_live deleted)

count_live-set :
    (deleted : List Bool) (i : ℕ)
    → get_elem? deleted i ≡ some false
    → count_live deleted ≡ suc (count_live (set deleted i true))
unfolding count_live
count_live-set [] i h = absurd (cc)
count_live-set (gone ∷ deleted) zero h = rw (some_inj.0 h) refl
count_live-set (true ∷ deleted) (suc i) h = count_live-set deleted i h
count_live-set (false ∷ deleted) (suc i) h = ap (λ (n : ℕ). suc n) (count_live-set deleted i h)

count_live-append :
    (deleted : List Bool) → count_live (deleted ++ (false ∷ [])) ≡ suc (count_live deleted)
unfolding count_live
count_live-append [] = refl
count_live-append (true ∷ deleted) = count_live-append deleted
count_live-append (false ∷ deleted) = ap (λ (n : ℕ). suc n) (count_live-append deleted)

pub replicate-In : (n k : ℕ) → All (All (λ j. j < n)) (replicate k [])
replicate-In n zero = tt
replicate-In n (suc k) = (tt, replicate-In n k)

pub stored-append :
    (nodes : List Node) (node : Node)
    → stored (nodes ++ (node ∷ [])) ≡ stored nodes ++ ((node.sid, node.vector) ∷ [])
stored-append nodes node = map-append (λ (n : Node). (n.sid, n.vector)) nodes (node ∷ [])

pub length-stored : (nodes : List Node) → length (stored nodes) ≡ length nodes
length-stored [] = refl
length-stored (node ∷ nodes) = ap (λ (n : ℕ). suc n) (length-stored nodes)

module _ {Real : Type 0} where
  -- The graph is whole, and a sid is mapped to a node just when the node is its, and is not deleted.
  pub record IsHnsw (s : State Real) : Type 0 where
    pub sizes : length s.deleted ≡ length s.nodes
    pub linked : IsLinked s.nodes
    pub entered : (e : ℕ) → s.entry ≡ some e → e < length s.nodes
    pub live_known :
        (i : ℕ) (sid : Sid) (v : List ℕ)
        → get_elem? s.deleted i ≡ some false
        → get_elem? (stored s.nodes) i ≡ some (sid, v)
        → HashMap.get sid s.sid_to_idx ≡ some i
    pub known_live :
        (sid : Sid) (i : ℕ)
        → HashMap.get sid s.sid_to_idx ≡ some i
        → (get_elem? s.deleted i ≡ some false)
          × (v : List ℕ) × (get_elem? (stored s.nodes) i ≡ some (sid, v))
    pub counted : s.live ≡ count_live s.deleted

  -- The state without the sid, its node if it had one marked as deleted.
  abbrev pub forget : State Real → Sid → State Real
  forget s sid = record s { sid_to_idx = HashMap.remove sid s.sid_to_idx }

  forget_absent :
      (s : State Real) (sid : Sid)
      → IsHnsw s
      → HashMap.get sid s.sid_to_idx ≡ none
      → IsHnsw (forget s sid)
  forget_absent s sid h absent = record {
    sizes = h.sizes;
    linked = h.linked;
    entered = h.entered;
    live_known = λ i k v live at.
        get-remove_other sid k s.sid_to_idx (λ same. cc (
          subst (λ (j : ℕ). HashMap.get j s.sid_to_idx ≡ none) same absent,
          h.live_known i k v live at,
        ))
        ∙ h.live_known i k v live at;
    known_live = λ k i e. h.known_live k i (get-remove_cases sid k i s.sid_to_idx e).1;
    counted = h.counted;
  }

  -- The node of a known sid is marked as deleted.
  abbrev pub marked : State Real → ℕ → State Real
  marked s old = record s { deleted = set s.deleted old true; live = s.live - 1 }

  pub soft_delete_total :
      (s : State Real) (old : ℕ)
      → IsHnsw s
      → get_elem? s.deleted old ≡ some false
      → soft_delete s old ≡ some (marked s old)
  unfolding soft_delete
  soft_delete_total s old h live =
      let some_live : (ltb s.live 1 ≡ false) =
        ground (arith, h.counted, count_live-set s.deleted old live) in
      rw (live, soft_delete, some_live)

  pub forget-marked :
      (s : State Real) (sid : Sid) (old : ℕ)
      → IsHnsw s
      → HashMap.get sid s.sid_to_idx ≡ some old
      → IsHnsw (forget (marked s old) sid)
  forget-marked s sid old h known =
      let (live, v, at_old) = h.known_live sid old known in
      record {
        sizes = length-set s.deleted old true ∙ h.sizes;
        linked = h.linked;
        entered = h.entered;
        live_known = λ i k v' live' at_i.
            let apart : (old ≢ i) = λ same.
              cc (
                get_elem?-set_self s.deleted old true (lt-of_get_elem? s.deleted old false live)) in
            let before =
              h.live_known i k v' (sym (get_elem?-set_other s.deleted old i true apart) ∙ live')
                at_i in
            get-remove_other sid k s.sid_to_idx (λ same. apart (cc)) ∙ before;
        known_live = λ k i e.
            let (other, known') = get-remove_cases sid k i s.sid_to_idx e in
            let (live', v', at_i) = h.known_live k i known' in
            let apart : (old ≢ i) = λ same. other (cc) in
            (get_elem?-set_other s.deleted old i true apart ∙ live', v', at_i);
        counted = omega (arith, h.counted, count_live-set s.deleted old live);
      }

  -- What `insert` does first leaves a state that is whole once the sid is forgotten.
  pub replace_total :
      (s : State Real) (sid : Sid)
      → IsHnsw s
      → (s' : State Real) × (replace s sid ≡ some s')
        × IsHnsw (forget s' sid)
        × (s'.nodes ≡ s.nodes)
        × (s'.sid_to_idx ≡ s.sid_to_idx)
        × (s'.ml ≡ s.ml)
  unfolding replace
  replace_total s sid h = elim (Option-cases (HashMap.get sid s.sid_to_idx)) [
    | inl absent ↦ (s, rw (absent, replace), forget_absent s sid h absent, refl, refl, refl)
    | inr (old, known) ↦ (
      marked s old,
      rw (known, replace) (soft_delete_total s old h (h.known_live sid old known).0),
      forget-marked s sid old h known,
      refl,
      refl,
      refl,
    )
  ]

  abbrev one_more : State Real → Sid → List ℕ → List (List ℕ) → List Node
  one_more s sid vector links =
      s.nodes ++ (record { sid = sid; vector = vector; links = links } ∷ [])

  length-one_more :
      (s : State Real) (sid : Sid) (vector : List ℕ) (links : List (List ℕ))
      → length (one_more s sid vector links) ≡ length s.nodes + 1
  length-one_more s sid vector links = length-append s.nodes _

  one_more-IsLinked :
      (s : State Real) (sid : Sid) (vector : List ℕ) (links : List (List ℕ))
      → IsLinked s.nodes
      → All (All (λ j. j < length s.nodes + 1)) links
      → IsLinked (one_more s sid vector links)
  one_more-IsLinked s sid vector links linked fits =
      let size = length-one_more s sid vector links in
      rw size (
        All-append (IsLinkedNode (length s.nodes + 1)) s.nodes _
          (All-map _ _ (λ node. All-map _ _ (λ l. All-map _ _ (λ j lt. omega arith) l) node.links)
            s.nodes linked)
          (fits, tt))

  -- Then the new node is pushed, and the state is whole again.
  pub push_node-IsHnsw :
      (s : State Real) (sid : Sid) (vector : List ℕ) (rng : ℕ) (links : List (List ℕ))
      → All (All (λ j. j < length s.nodes + 1)) links
      → IsHnsw (forget s sid)
      → IsHnsw (push_node s sid vector rng links)
  unfolding push_node
  push_node-IsHnsw s sid vector rng links fits h =
      let size = length-one_more s sid vector links in
      let n = length s.nodes in
      let pair : Sid × List ℕ = (sid, vector) in
      let whole : (stored (one_more s sid vector links) ≡ stored s.nodes ++ (pair ∷ [])) =
        stored-append s.nodes _ in
      record {
        sizes = omega (arith, size, length-append s.deleted (false ∷ []), h.sizes);
        linked = one_more-IsLinked s sid vector links h.linked fits;
        entered = λ e at. omega (arith, size, h.entered e at);
        live_known = λ i k v live at.
            elim (get_elem?-append_cases (stored s.nodes) pair (k, v) i (rw whole at at)) [
              | inl before ↦ known_before i k v live before
              | inr (last, same) ↦
                  rw (← ap (λ (p : Sid × List ℕ). p.0) same, last, length-stored s.nodes)
                    (get-insert_self sid n s.sid_to_idx)
            ];
        known_live = λ k i e. elim (ℕ_discrete sid k) [
          | yes same ↦ newly_live k i e same
          | no other ↦ still_live k i e other
        ];
        counted = omega (arith, h.counted, count_live-append s.deleted);
      }
    where
      known_before :
          (i k : ℕ) (v : List ℕ)
          → get_elem? (s.deleted ++ (false ∷ [])) i ≡ some false
          → get_elem? (stored s.nodes) i ≡ some (k, v)
          → HashMap.get k (HashMap.insert sid (length s.nodes) s.sid_to_idx) ≡ some i
      known_before i k v live at = elim (get_elem?-append_cases s.deleted false false i live) [
        | inr (last, _) ↦ absurd (
            omega (
              arith,
              last,
              h.sizes,
              length-stored s.nodes,
              lt-of_get_elem? (stored s.nodes) i (k, v) at,
            ))
        | inl live' ↦
            let (other, known) =
              get-remove_cases sid k i s.sid_to_idx (h.live_known i k v live' at) in
            get-insert_other sid k (length s.nodes) s.sid_to_idx other ∙ known
      ]

      Live : ℕ → ℕ → Type 0
      Live k i =
          (get_elem? (s.deleted ++ (false ∷ [])) i ≡ some false)
          × (v : List ℕ) × (get_elem? (stored (one_more s sid vector links)) i ≡ some (k, v))

      newly_live :
          (k i : ℕ)
          → HashMap.get k (HashMap.insert sid (length s.nodes) s.sid_to_idx) ≡ some i
          → sid ≡ k
          → Live k i
      newly_live k i e same =
          let place : (length s.nodes ≡ i) = some_inj.0 (
            sym (get-insert_self sid (length s.nodes) s.sid_to_idx)
            ∙ subst
                (λ (j : ℕ).
                  HashMap.get j (HashMap.insert sid (length s.nodes) s.sid_to_idx) ≡ some i)
                (sym same) e) in
          (
            rw (← place, ← h.sizes) (get_elem?-append_length s.deleted false),
            vector,
            rw (← same, ← place, stored-append s.nodes, ← length-stored s.nodes)
                (get_elem?-append_length (stored s.nodes) (sid, vector)),
          )

      still_live :
          (k i : ℕ)
          → HashMap.get k (HashMap.insert sid (length s.nodes) s.sid_to_idx) ≡ some i
          → sid ≢ k
          → Live k i
      still_live k i e other =
          let (live, v, at) = h.known_live k i (
            get-remove_other sid k s.sid_to_idx other
            ∙ sym (get-insert_other sid k (length s.nodes) s.sid_to_idx other)
            ∙ e) in
          (
            get_elem?-append_lt s.deleted (false ∷ []) i (lt-of_get_elem? s.deleted i false live)
                ∙ live,
            v,
            rw (stored-append s.nodes) (
                get_elem?-append_lt (stored s.nodes) ((sid, vector) ∷ []) i
                  (lt-of_get_elem? (stored s.nodes) i (k, v) at)
                ∙ at),
          )
