-- ===== src/Kv/BTree.antt =====
-- `BTreeMap<Vec<u8>, Vec<u8>>` of the standard library: its entries in ascending key order.
use grainstore.Base.{ℕ, List, [], ◌∷◌, Option, none, some, lt, eq, gt}
use grainstore.Bytes.{bytes_cmp}

abbrev pub ByteMap : Type 0
ByteMap = List (List ℕ × List ℕ)

-- map.insert(key, value): overwrites, or goes in at its place in the order
unfoldable pub insert : List ℕ → List ℕ → ByteMap → ByteMap
insert k v [] = (k, v) ∷ []
insert k v ((j, w) ∷ m) =
    let rest = insert k v m in
    elim (bytes_cmp k j) [ lt ↦ (k, v) ∷ (j, w) ∷ m | eq ↦ (k, v) ∷ m | gt ↦ (j, w) ∷ rest ]

-- map.range((Included(target), Unbounded))
unfoldable pub range_from : List ℕ → ByteMap → ByteMap
range_from target [] = []
range_from target ((j, w) ∷ m) = elim (bytes_cmp j target) [
  | lt ↦ range_from target m
  | _ ↦ (j, w) ∷ m
]

-- map.get(key)
unfoldable pub get : List ℕ → ByteMap → Option (List ℕ)
get k [] = none
get k ((j, w) ∷ m) = elim (bytes_cmp k j) [ lt ↦ none | eq ↦ some w | gt ↦ get k m ]
