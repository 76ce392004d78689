-- ===== src/Kv/Laws.antt =====
-- The in-memory store keeps its entries sorted, and `seek_ge` finds the least key from a target on.
use grainstore.Base.{
  ℕ, ◌≡◌, ◌≢◌, refl, List, [], ◌∷◌, Option, none, some, All, arith, Ordering, lt, eq, gt, ◌⊎◌, inl,
  inr,
}
use grainstore.Bytes.{bytes_cmp}
use grainstore.Bytes.Order.{bytes_cmp_refl, eq_of_bytes_cmp, bytes_cmp_swap, bytes_cmp_trans}
use grainstore.Kv.{ByteMap, MemKv, first, put_grain, seek_ge}
use grainstore.Kv.BTree.{insert, range_from, get}

-- Every key of the map comes after `k`.
abbrev pub Above : List ℕ → ByteMap → Type 0
Above k = All (λ e. bytes_cmp k e.0 ≡ lt)

abbrev pub IsSorted : ByteMap → Type 0
IsSorted [] = Unit
IsSorted ((k, _) ∷ m) = Above k m × IsSorted m

-- The entry with the smaller key; `(k, v)` on a tie.
abbrev pub nearer : List ℕ → List ℕ → Option (List ℕ × List ℕ) → Option (List ℕ × List ℕ)
nearer k v none = some (k, v)
nearer k v (some (j, w)) = elim (bytes_cmp j k) [ lt ↦ some (j, w) | _ ↦ some (k, v) ]

Above-insert :
    (j k v : List ℕ) (m : ByteMap) → bytes_cmp j k ≡ lt → Above j m → Above j (insert k v m)
unfolding insert
Above-insert j k v [] h a = (h, tt)
Above-insert j k v ((i, w) ∷ m) h a = ground (arith, Above-insert j k v m)

Above-trans : (j k : List ℕ) (m : ByteMap) → bytes_cmp j k ≡ lt → Above k m → Above j m
Above-trans j k [] h a = tt
Above-trans j k ((i, w) ∷ m) h a = (bytes_cmp_trans j k i h a.0, Above-trans j k m h a.1)

insert-IsSorted : (k v : List ℕ) (m : ByteMap) → IsSorted m → IsSorted (insert k v m)
unfolding insert
insert-IsSorted k v [] s = (tt, tt)
insert-IsSorted k v ((j, w) ∷ m) s = ground (
  arith,
  bytes_cmp_swap k j,
  eq_of_bytes_cmp k j,
  Above-insert j k v m,
  Above-trans k j m,
  insert-IsSorted k v m,
)

first-range_from-insert :
    (t k v : List ℕ) (m : ByteMap)
    → first (range_from t (insert k v m)) ≡ elim (bytes_cmp k t) [
      | lt ↦ first (range_from t m)
      | _ ↦ nearer k v (first (range_from t m))
    ]
unfolding range_from insert
first-range_from-insert t k v [] = ground arith
first-range_from-insert t k v ((j, w) ∷ m) = ground (
  arith,
  bytes_cmp_swap k j,
  bytes_cmp_swap k t,
  bytes_cmp_swap j t,
  bytes_cmp_trans k j t,
  bytes_cmp_trans t j k,
  bytes_cmp_trans t k j,
  eq_of_bytes_cmp k j,
  eq_of_bytes_cmp k t,
  eq_of_bytes_cmp j t,
  first-range_from-insert t k v m,
)

-- Storing a grain keeps the keys in strictly ascending order, each at most once.
pub put_grain-IsSorted :
    (kv : MemKv) (key value : List ℕ)
    → IsSorted kv.grains
    → IsSorted (put_grain kv key value).grains
unfolding put_grain
put_grain-IsSorted kv key value s = insert-IsSorted key value kv.grains s

-- A seek after a store: the new entry takes part when it does not come before the target.
pub seek_ge-put_grain :
    (kv : MemKv) (target key value : List ℕ)
    → seek_ge (put_grain kv key value) target ≡ elim (bytes_cmp key target) [
      | lt ↦ seek_ge kv target
      | _ ↦ nearer key value (seek_ge kv target)
    ]
unfolding seek_ge put_grain
seek_ge-put_grain kv target key value = first-range_from-insert target key value kv.grains

-- What a seek promises: the entry found is stored, is not before the target, and no stored key
-- lies between; where nothing is found every stored key is before the target.
abbrev pub IsLeast : ByteMap → List ℕ → Option (List ℕ × List ℕ) → Type 0
IsLeast m target none = All (λ e. bytes_cmp e.0 target ≡ lt) m
IsLeast m target (some (k, v)) =
    (get k m ≡ some v)
    × (bytes_cmp k target ≢ lt)
    × All (λ e. (bytes_cmp e.0 target ≡ lt) ⊎ (bytes_cmp k e.0 ≢ gt)) m

All-Above-ne_gt :
    (t k : List ℕ) (m : ByteMap)
    → Above k m
    → All (λ e. (bytes_cmp e.0 t ≡ lt) ⊎ (bytes_cmp k e.0 ≢ gt)) m
All-Above-ne_gt t k [] a = tt
All-Above-ne_gt t k ((j, w) ∷ m) a = (inr (λ e. cc), All-Above-ne_gt t k m a.1)

IsLeast-cons :
    (t j w : List ℕ) (m : ByteMap) (o : Option (List ℕ × List ℕ))
    → bytes_cmp j t ≡ lt
    → IsLeast m t o
    → IsLeast ((j, w) ∷ m) t o
unfolding get
IsLeast-cons t j w m none h l = (h, l)
IsLeast-cons t j w m (some (k, v)) h l = (
  ground (arith, bytes_cmp_swap j k, bytes_cmp_trans k j t, eq_of_bytes_cmp k j),
  l.1,
  (inl h, l.2),
)

head-IsLeast :
    (t j w : List ℕ) (m : ByteMap)
    → bytes_cmp j t ≢ lt
    → Above j m
    → IsLeast ((j, w) ∷ m) t (some (j, w))
unfolding get
head-IsLeast t j w m h a = (
  rw (bytes_cmp_refl j, get),
  h,
  (inr (rw (bytes_cmp_refl j) (λ e. cc)), All-Above-ne_gt t j m a),
)

step-IsLeast :
    (o : Ordering) (t j w : List ℕ) (m : ByteMap)
    → bytes_cmp j t ≡ o
    → Above j m
    → IsLeast m t (first (range_from t m))
    → IsLeast ((j, w) ∷ m) t (first (elim o [ lt ↦ range_from t m | _ ↦ (j, w) ∷ m ]))
step-IsLeast lt t j w m e a l = IsLeast-cons t j w m (first (range_from t m)) e l
step-IsLeast eq t j w m e a l = head-IsLeast t j w m (λ x. cc) a
step-IsLeast gt t j w m e a l = head-IsLeast t j w m (λ x. cc) a

range_from-IsLeast : (t : List ℕ) (m : ByteMap) → IsSorted m → IsLeast m t (first (range_from t m))
unfolding range_from
range_from-IsLeast t [] s = tt
range_from-IsLeast t ((j, w) ∷ m) s =
    step-IsLeast (bytes_cmp j t) t j w m refl s.0 (range_from-IsLeast t m s.1)

-- On a sorted store a seek returns the stored entry with the least key from the target on, and
-- nothing only if every stored key is before the target.
pub seek_ge-IsLeast :
    (kv : MemKv) (target : List ℕ)
    → IsSorted kv.grains
    → IsLeast kv.grains target (seek_ge kv target)
unfolding seek_ge
seek_ge-IsLeast kv target s = range_from-IsLeast target kv.grains s
