-- ===== src/Block/Point.antt =====
-- src/block.rs: BlockStore::get over the blocks that are built from some records.
use mathlib.Core.List.{Perm, Mem, mem-cons_self, mem-cons_of_mem, mem-append_left, mem-append_right}
use mathlib.Core.List.Perm
use mathlib.Core.HLevel.{¬_prop}
use grainstore.Float.{LogFloat}
use grainstore.Base.{
  ℕ, suc, ◌+◌, ◌<◌, ◌≡◌, ◌≢◌, ◌⊎◌, refl, List, [], ◌∷◌, ◌++◌, All, All-append, All-map, All-perm,
  Option, none, some, map, get_or, ◌==◌, ==_iff, Bool-cases, inl, inr,
}
use grainstore.Block.{GrainRec, Block, build, position, find}
use grainstore.Block.Bloom.{maybe_contains}
use grainstore.Block.Groups.{members}
use grainstore.Block.Groups
use grainstore.Block.Sketch.{sids-build, cats-build, sid_bloom-build}
use grainstore.Block.Store.{BlockStore, build_groups, build_clustered, get_loop, get}
use grainstore.Float.{Float32}

-- A record that has the sid and the category.
abbrev pub Holds : ℕ → ℕ → List GrainRec → Type 0
Holds sid cat recs = (r : GrainRec) × Mem r recs × (r.sid ≡ sid) × (r.cat ≡ cat)

-- What a lookup says about the records.
abbrev pub Answers : ℕ → List GrainRec → Option ℕ → Type 0
Answers sid recs none = All (λ r. r.sid ≢ sid) recs
Answers sid recs (some cat) = Holds sid cat recs

-- Looking for the place of a sid among the records' sids leads to a record with it, or there is none.
position_cases :
    (sid : ℕ) (recs : List GrainRec)
    → ((position sid (map (λ r. r.sid) recs) ≡ none) × All (λ r. r.sid ≢ sid) recs)
      ⊎ ((i : ℕ) × (position sid (map (λ r. r.sid) recs) ≡ some i)
          × Holds sid (get_or 0 (map (λ r. r.cat) recs) i) recs)
unfolding position
position_cases sid [] = inl (refl, tt)
position_cases sid (r ∷ recs) = elim (Bool-cases (r.sid == sid)) [
  | inl same ↦ inr (0, rw same, (r, mem-cons_self, (==_iff r.sid sid).0 same, refl))
  | inr other ↦ elim (position_cases sid recs) [
    | inl (e, none_has) ↦ inl (rw (other, e), (λ same. cc ((==_iff r.sid sid).1 same), none_has))
    | inr (i, e, (x, m, same, cat)) ↦
        inr (suc i, rw (other, e), (x, mem-cons_of_mem r m, same, cat))
  ]
]

Answers-skip :
    (sid : ℕ) (recs others : List GrainRec) (o : Option ℕ)
    → All (λ r. r.sid ≢ sid) recs
    → Answers sid others o
    → Answers sid (recs ++ others) o
Answers-skip sid recs others none h a = All-append _ recs others h a
Answers-skip sid recs others (some cat) h (r, m, same, e) = (r, mem-append_right recs m, same, e)

module _ (f : Float32) (g : LogFloat) (sid : ℕ) where
  block-Answers :
      (first : GrainRec) (rest : List GrainRec) (others : List GrainRec) (touched : ℕ)
      (blocks : List Block)
      → ((t : ℕ) → Answers sid others (get_loop sid t blocks).0)
      → Answers sid
          ((first ∷ rest) ++ others)
          (get_loop sid touched (build f g first rest ∷ blocks)).0
  unfolding get_loop find
  block-Answers first rest others touched blocks ih =
      let recs = first ∷ rest in
      let b = build f g first rest in
      elim (Bool-cases (maybe_contains b.descriptor.sid_bloom sid)) [
        | inr absent ↦ rw absent (
            Answers-skip sid recs others (get_loop sid touched blocks).0
              (All-map _ _ (λ r h same. cc) recs (sid_bloom-build f g first rest)) (ih touched))
        | inl maybe ↦ elim (position_cases sid recs) [
          | inl (e, none_has) ↦
              rw (maybe, sids-build f g first rest, e)
                (Answers-skip sid recs others (get_loop sid (touched + 1) blocks).0 none_has
                  (ih (touched + 1)))
          | inr (i, e, (r, m, same, cat)) ↦
              rw (maybe, sids-build f g first rest, e, cats-build f g first rest)
                (r, mem-append_left others m, same, cat)
        ]
      ]

  get_loop-Answers :
      (gs : List (List GrainRec)) (touched : ℕ)
      → Answers sid (members gs) (get_loop sid touched (build_groups f g gs)).0
  unfolding get_loop build_groups members
  get_loop-Answers [] touched = tt
  get_loop-Answers ([] ∷ gs) touched = get_loop-Answers gs touched
  get_loop-Answers ((r ∷ rest) ∷ gs) touched =
      block-Answers r rest (members gs) touched (build_groups f g gs) (get_loop-Answers gs)

Answers-perm :
    (sid : ℕ) {recs others : List GrainRec} (o : Option ℕ)
    → Perm recs others
    → Answers sid recs o
    → Answers sid others o
Answers-perm sid none p h = All-perm (λ (r : GrainRec). r.sid ≢ sid) (λ r. ¬_prop) p h
Answers-perm sid (some cat) p (r, m, same, e) = (r, (Perm.mem_iff p).0 m, same, e)

-- A lookup over the blocks that are built from some records returns the category of a record with
-- that sid, and no category only when no record has the sid; the Bloom filters hide none.
pub get-build_clustered :
    (f : Float32) (g : LogFloat) (first : GrainRec) (rest : List GrainRec) (n_blocks iters sid : ℕ)
    → 0 < n_blocks
    → (blocks : BlockStore) × (build_clustered f g (first ∷ rest) n_blocks iters ≡ some blocks)
      × Answers sid (first ∷ rest) (get blocks sid).0
unfolding get
get-build_clustered f g first rest n_blocks iters sid some_block =
    let (gs, e, p) = Groups.build_clustered_total f g first rest n_blocks iters some_block in
    (build_groups f g gs, e, Answers-perm sid _ p (get_loop-Answers f g sid gs 0))
