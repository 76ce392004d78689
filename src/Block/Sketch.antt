-- ===== src/Block/Sketch.antt =====
-- src/block.rs: the columns and the descriptor of a block, beside the records it is built from.
use grainstore.Float.{LogFloat}
use grainstore.Base.{
  ℕ, suc, ◌+◌, ◌%◌, ◌^◌, ◌≤◌, ◌<◌, ◌≡◌, refl, sym, subst, ◌∙◌, List, [], ◌∷◌, ◌++◌, All, All-of_map,
  true, false, ◌==◌, if◌then◌else◌, foldl, map, length, get_or, get_or-set_self, get_or-set_other,
  length-set, append_assoc, append-nil, replicate, length-replicate, get_or-replicate, arith, tests,
  ltb, ==_refl, Bool-cases, inl, inr,
}
use native.Mathlib.Decide.{ℕ_discrete}
use grainstore.Block.{
  GrainRec, Columns, add_rec, empty_columns, build, bump, category_count, radius_of, l2,
}
use grainstore.Block.Bloom
use grainstore.Block.Bloom.{maybe_contains}
use grainstore.Block.Bloom.Laws.{new-IsBloom, maybe_contains-foldl}
use grainstore.Float.{Float32, is_nan, value_rank, max32}

-- How many of the records are in the category.
unfoldable pub count_cat : ℕ → List GrainRec → ℕ
count_cat cat [] = 0
count_cat cat (r ∷ recs) = if r.cat == cat then suc (count_cat cat recs) else count_cat cat recs

pub count_cat-le-length : (cat : ℕ) (recs : List GrainRec) → count_cat cat recs ≤ length recs
unfolding count_cat
count_cat-le-length cat [] = omega arith
count_cat-le-length cat (r ∷ recs) = ground (arith, count_cat-le-length cat recs)

length-bump : (counts : List ℕ) (i : ℕ) → length (bump counts i) ≡ length counts
unfolding bump
length-bump counts i = length-set counts i _

get_or-bump :
    (counts : List ℕ) (i j : ℕ)
    → i < length counts
    → get_or 0 (bump counts i) j
      ≡ (if i == j then (get_or 0 counts j + 1) % 2 ^ 32 else get_or 0 counts j)
unfolding bump
get_or-bump counts i j fits = elim (ℕ_discrete i j) [
  | yes same ↦
      rw (← same, get_or-set_self 0 counts i ((get_or 0 counts i + 1) % 2 ^ 32) fits, ==_refl i)
  | no other ↦
      ground (arith, get_or-set_other 0 counts i j ((get_or 0 counts i + 1) % 2 ^ 32) other)
]

module _ (f : Float32) where
  add_all : Columns → List GrainRec → Columns
  add_all = foldl (add_rec f)

  sids-add_all :
      (c : Columns) (recs : List GrainRec) → (add_all c recs).sids ≡ c.sids ++ map (λ r. r.sid) recs
  unfolding add_all add_rec
  sids-add_all c [] = rw append-nil
  sids-add_all c (r ∷ recs) =
      sids-add_all (add_rec f c r) recs ∙ append_assoc c.sids (r.sid ∷ []) (map (λ r. r.sid) recs)

  cats-add_all :
      (c : Columns) (recs : List GrainRec) → (add_all c recs).cats ≡ c.cats ++ map (λ r. r.cat) recs
  unfolding add_all add_rec
  cats-add_all c [] = rw append-nil
  cats-add_all c (r ∷ recs) =
      cats-add_all (add_rec f c r) recs ∙ append_assoc c.cats (r.cat ∷ []) (map (λ r. r.cat) recs)

  vectors-add_all :
      (c : Columns) (recs : List GrainRec)
      → (add_all c recs).vectors ≡ c.vectors ++ map (λ r. r.vector) recs
  unfolding add_all add_rec
  vectors-add_all c [] = rw append-nil
  vectors-add_all c (r ∷ recs) =
      vectors-add_all (add_rec f c r) recs
      ∙ append_assoc c.vectors (r.vector ∷ []) (map (λ r. r.vector) recs)

  bloom-add_all :
      (c : Columns) (recs : List GrainRec)
      → (add_all c recs).bloom ≡ foldl Bloom.insert c.bloom (map (λ r. r.sid) recs)
  unfolding add_all add_rec
  bloom-add_all c [] = refl
  bloom-add_all c (r ∷ recs) = bloom-add_all (add_rec f c r) recs

  cat_counts-add_all :
      (c : Columns) (recs : List GrainRec) (cat : ℕ)
      → length c.cat_counts ≡ 256
      → All (λ r. r.cat < 256) recs
      → get_or 0 c.cat_counts cat + length recs < 2 ^ 32
      → get_or 0 (add_all c recs).cat_counts cat ≡ get_or 0 c.cat_counts cat + count_cat cat recs
  unfolding add_all add_rec count_cat
  cat_counts-add_all c [] cat size fits room = omega arith
  cat_counts-add_all c (r ∷ recs) cat size fits room =
      let now = get_or-bump c.cat_counts r.cat cat (omega arith) in
      let size' : (length (bump c.cat_counts r.cat) ≡ 256) =
        length-bump c.cat_counts r.cat ∙ size in
      ground (arith, now, cat_counts-add_all (add_rec f c r) recs cat size' fits.1)

  max32_facts :
      (a b : ℕ)
      → is_nan a ≡ false
      → is_nan b ≡ false
      → (is_nan (max32 a b) ≡ false)
        × (value_rank a ≤ value_rank (max32 a b))
        × (value_rank b ≤ value_rank (max32 a b))
  max32_facts a b ha hb = elim (Bool-cases (ltb (value_rank a) (value_rank b))) [
    | inl below ↦ rw (ha, hb, below) (hb, omega (tests, below), omega arith)
    | inr above ↦ rw (ha, hb, above) (ha, omega arith, omega (tests, above))
  ]

  -- The radius reaches every record.
  radius_from :
      (centroid : List ℕ) (recs : List GrainRec) (m : ℕ)
      → is_nan m ≡ false
      → All (λ r. is_nan (l2 f r.vector centroid) ≡ false) recs
      → (value_rank m ≤ value_rank (foldl (λ m r. max32 m (l2 f r.vector centroid)) m recs))
        × All
            (λ r.
              value_rank (l2 f r.vector centroid)
              ≤ value_rank (foldl (λ m r. max32 m (l2 f r.vector centroid)) m recs))
            recs
  radius_from centroid [] m h clean = (omega arith, tt)
  radius_from centroid (r ∷ recs) m h clean =
      let both = max32_facts m (l2 f r.vector centroid) h clean.0 in
      let ih = radius_from centroid recs (max32 m (l2 f r.vector centroid)) both.0 clean.1 in
      (omega (arith, both.1, ih.0), (omega (arith, both.2, ih.0), ih.1))

module _ (f : Float32) (g : LogFloat) (first : GrainRec) (rest : List GrainRec) where
  pub sids-build : (build f g first rest).sids ≡ map (λ r. r.sid) (first ∷ rest)
  unfolding build empty_columns add_all
  sids-build = sids-add_all f (empty_columns f g (length (first ∷ rest))) (first ∷ rest)

  pub cats-build : (build f g first rest).cats ≡ map (λ r. r.cat) (first ∷ rest)
  unfolding build empty_columns add_all
  cats-build = cats-add_all f (empty_columns f g (length (first ∷ rest))) (first ∷ rest)

  pub vectors-build : (build f g first rest).vectors ≡ map (λ r. r.vector) (first ∷ rest)
  unfolding build empty_columns add_all
  vectors-build = vectors-add_all f (empty_columns f g (length (first ∷ rest))) (first ∷ rest)

  abbrev fresh : Bloom.Bloom
  fresh = Bloom.new g (length (first ∷ rest)) (g.lit 1 100)

  bloom-build :
      (build f g first rest).descriptor.sid_bloom
      ≡ foldl Bloom.insert fresh (map (λ r. r.sid) (first ∷ rest))
  unfolding build empty_columns add_all
  bloom-build = bloom-add_all f (empty_columns f g (length (first ∷ rest))) (first ∷ rest)

  -- The filter of a block has all its sids.
  pub sid_bloom-build :
      All
        (λ r. maybe_contains (build f g first rest).descriptor.sid_bloom r.sid ≡ true)
        (first ∷ rest)
  sid_bloom-build =
      subst (λ (b : Bloom.Bloom). All (λ r. maybe_contains b r.sid ≡ true) (first ∷ rest))
        (sym bloom-build)
        (All-of_map
          (λ x.
            maybe_contains (foldl Bloom.insert fresh (map (λ r. r.sid) (first ∷ rest))) x ≡ true)
          (λ (r : GrainRec). r.sid) (first ∷ rest)
          (maybe_contains-foldl fresh (map (λ r. r.sid) (first ∷ rest)) (new-IsBloom g _ _)))

  pub category_count-build :
      (cat : ℕ)
      → All (λ r. r.cat < 256) (first ∷ rest)
      → length (first ∷ rest) < 2 ^ 32
      → category_count (build f g first rest).descriptor cat ≡ count_cat cat (first ∷ rest)
  unfolding build empty_columns add_all category_count
  category_count-build cat fits room =
      let none_yet : (◌≡◌ {A = ℕ} (get_or 0 (replicate 256 0) cat) 0) =
        get_or-replicate 0 256 cat in
      cat_counts-add_all f (empty_columns f g (length (first ∷ rest))) (first ∷ rest) cat
        (length-replicate {A = ℕ} 256 0) fits (omega (arith, none_yet))
      ∙ omega (arith, none_yet)

  pub radius-build :
      All
        (λ r. is_nan (l2 f r.vector (build f g first rest).descriptor.centroid) ≡ false)
        (first ∷ rest)
      → All
          (λ r.
            value_rank (l2 f r.vector (build f g first rest).descriptor.centroid)
            ≤ value_rank (build f g first rest).descriptor.radius)
          (first ∷ rest)
  unfolding build radius_of
  radius-build clean = (radius_from f _ (first ∷ rest) 0 refl clean).1
