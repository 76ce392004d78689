-- ===== src/Block/Count.antt =====
-- src/block.rs: BlockStore::count_category over the blocks that are built from some records.
use mathlib.Core.List.{Perm, foldr}
use mathlib.Core.List.Perm
use native.Mathlib.Bridge.{le_prop}
use grainstore.Float.{LogFloat}
use grainstore.Base.{
  ℕ, suc, ◌+◌, ◌^◌, ◌<◌, ◌≡◌, refl, ◌∙◌, sym, List, [], ◌∷◌, ◌++◌, All, All-of_append, All-perm,
  some, map, length, length-append, arith, ◌==◌, if◌then◌else◌, Bool-cases, true, inl, inr,
}
use grainstore.Block.{GrainRec, Block, build, category_count}
use grainstore.Block.Groups.{members}
use grainstore.Block.Groups
use grainstore.Block.Sketch.{count_cat, cats-build, category_count-build}
use grainstore.Block.Store.{
  BlockStore, build_groups, build_clustered, count_in, count_loop, count_category,
}
use grainstore.Float.{Float32}
use grainstore.Sort.Nearest.{length-perm}

count_in-map :
    (cat : ℕ) (recs : List GrainRec) → count_in cat (map (λ r. r.cat) recs) ≡ count_cat cat recs
unfolding count_in count_cat
count_in-map cat [] = refl
count_in-map cat (r ∷ recs) = ground (arith, count_in-map cat recs)

count_cat-append :
    (cat : ℕ) (recs more : List GrainRec)
    → count_cat cat (recs ++ more) ≡ count_cat cat recs + count_cat cat more
unfolding count_cat
count_cat-append cat [] more = omega arith
count_cat-append cat (r ∷ recs) more = ground (arith, count_cat-append cat recs more)

abbrev counted : ℕ → GrainRec → ℕ → ℕ
counted cat r n = if r.cat == cat then suc n else n

count_cat-foldr : (cat : ℕ) (recs : List GrainRec) → count_cat cat recs ≡ foldr (counted cat) 0 recs
unfolding count_cat
count_cat-foldr cat [] = refl
count_cat-foldr cat (r ∷ recs) = ground (arith, count_cat-foldr cat recs)

count_cat-perm :
    (cat : ℕ) {recs others : List GrainRec}
    → Perm recs others
    → count_cat cat recs ≡ count_cat cat others
count_cat-perm cat {recs} {others} p =
    count_cat-foldr cat recs
    ∙ Perm.foldr-eq (hlevel) (counted cat) (λ x y n. ground arith) p 0
    ∙ sym (count_cat-foldr cat others)

-- A block adds its count whether it is gone through or skipped.
count_block :
    (cat total touched : ℕ) (b : Block) (blocks : List Block) (n : ℕ)
    → category_count b.descriptor cat ≡ n
    → count_in cat b.cats ≡ n
    → (rest : ℕ) → ((t u : ℕ) → (count_loop cat t u blocks).0 ≡ t + rest)
    → (count_loop cat total touched (b ∷ blocks)).0 ≡ total + (n + rest)
unfolding count_loop
count_block cat total touched b blocks n stored inside rest ih =
    elim (Bool-cases (category_count b.descriptor cat == 0)) [
      | inl no_such ↦ rw no_such (omega (arith, ih total touched, zero_of no_such))
      | inr some_such ↦
          rw some_such (omega (arith, ih (total + count_in cat b.cats) (touched + 1), inside))
    ]
  where
    zero_of : (category_count b.descriptor cat == 0) ≡ true → n ≡ 0
    zero_of e = ground (arith, stored)

module _ (f : Float32) (g : LogFloat) where
  count_loop-build_groups :
      (cat total touched : ℕ) (gs : List (List GrainRec))
      → All (λ r. r.cat < 256) (members gs)
      → length (members gs) < 2 ^ 32
      → (count_loop cat total touched (build_groups f g gs)).0 ≡ total + count_cat cat (members gs)
  unfolding count_loop build_groups members count_cat
  count_loop-build_groups cat total touched [] fits room = omega arith
  count_loop-build_groups cat total touched ([] ∷ gs) fits room =
      count_loop-build_groups cat total touched gs fits room
  count_loop-build_groups cat total touched ((r ∷ rest) ∷ gs) fits room =
      let (here, there) =
        All-of_append (λ (x : GrainRec). x.cat < 256) (r ∷ rest) (members gs) fits in
      let long = length-append (r ∷ rest) (members gs) in
      let inside : (count_in cat (build f g r rest).cats ≡ count_cat cat (r ∷ rest)) =
        rw (cats-build f g r rest) (count_in-map cat (r ∷ rest)) in
      count_block cat total touched (build f g r rest) (build_groups f g gs)
        (count_cat cat (r ∷ rest)) (category_count-build f g r rest cat here (omega (arith, long)))
        inside (count_cat cat (members gs))
        (λ t u. count_loop-build_groups cat t u gs there (omega (arith, long)))
      ∙ omega (arith, count_cat-append cat (r ∷ rest) (members gs))

  -- Over the blocks that are built from fewer than 2^32 records with categories below 256, the count of
  -- a category is the number of those records that are in it.
  pub count_category-build_clustered :
      (first : GrainRec) (rest : List GrainRec) (n_blocks iters cat : ℕ)
      → 0 < n_blocks
      → All (λ r. r.cat < 256) (first ∷ rest)
      → length (first ∷ rest) < 2 ^ 32
      → (blocks : BlockStore) × (build_clustered f g (first ∷ rest) n_blocks iters ≡ some blocks)
        × ((count_category blocks cat).0 ≡ count_cat cat (first ∷ rest))
  unfolding count_category
  count_category-build_clustered first rest n_blocks iters cat some_block fits room =
      let (gs, e, p) = Groups.build_clustered_total f g first rest n_blocks iters some_block in
      (
        build_groups f g gs,
        e,
        omega (
          arith,
          count_loop-build_groups cat 0 0 gs
              (All-perm (λ (r : GrainRec). r.cat < 256) (λ r. le_prop) (Perm.symm p) fits)
              (omega (arith, length-perm p)),
          count_cat-perm cat p,
        ),
      )
