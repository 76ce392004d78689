-- ===== src/Kv.antt =====
-- src/kv.rs: the ordered store that the truth is read from, backed by `BTreeMap`s. The mutexes
-- make each operation one step.
mod BTree
pub mod Laws
use grainstore.Base.{ℕ, suc, List, [], ◌∷◌, Option, none, some, length, if◌then◌else◌}
use grainstore.Bytes.{starts_with}
pub use BTree.{ByteMap}
use BTree.{insert, range_from, get}

pub record MemKv : Type 0 where
  pub grains : ByteMap
  pub meta : ByteMap

abbrev pub new : MemKv
new = record { grains = []; meta = [] }

unfoldable pub put_grain : MemKv → List ℕ → List ℕ → MemKv
put_grain kv key value = record kv { grains = insert key value kv.grains }

-- `.next()` on a range
abbrev first : ByteMap → Option (List ℕ × List ℕ)
first [] = none
first (e ∷ _) = some e

unfoldable pub seek_ge : MemKv → List ℕ → Option (List ℕ × List ℕ)
unfolding range_from
seek_ge kv target = first (range_from target kv.grains)

unfoldable pub grain_count : MemKv → ℕ
grain_count kv = length kv.grains

-- `take_while(starts_with(prefix)).count()`
count_while : List ℕ → ByteMap → ℕ
count_while prefix [] = 0
count_while prefix ((k, _) ∷ m) =
    let rest = count_while prefix m in if starts_with k prefix then suc rest else 0

unfoldable pub prefix_count : MemKv → List ℕ → ℕ
unfolding range_from count_while
prefix_count kv prefix = count_while prefix (range_from prefix kv.grains)

unfoldable pub scan_all : MemKv → ByteMap
scan_all kv = kv.grains

unfoldable pub put_meta : MemKv → List ℕ → List ℕ → MemKv
put_meta kv key value = record kv { meta = insert key value kv.meta }

unfoldable pub get_meta : MemKv → List ℕ → Option (List ℕ)
unfolding get
get_meta kv key = get key kv.meta
