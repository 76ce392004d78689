-- ===== src/Materializer.antt =====
-- src/materializer.rs: feeding the vector index from the change stream, and the watermark. A thread
-- is the sequence of the records that it handles; the workers of the pool complete in any order.
pub mod Watermark
pub mod Pool
pub mod Graph
use grainstore.Base.{
  ℕ, zero, suc, ◌+◌, ◌-◌, List, [], ◌∷◌, Option, none, some, Bool, true, false, ◌==◌, ◌||◌, length,
  leb, if◌then◌else◌, foldl,
}
use grainstore.Cdc
use grainstore.Cdc.{CdcRecord}
use grainstore.Embed.{Embedder}
use grainstore.Vector.{VectorIndex}

-- `BTreeSet<u64>`: the elements, each once
unfoldable pub mem : ℕ → List ℕ → Bool
mem n [] = false
mem n (m ∷ ms) = n == m || mem n ms

insert_seq : ℕ → List ℕ → List ℕ
unfolding mem
insert_seq n set = if mem n set then set else n ∷ set

-- `set.remove(&n)`; that it was there is `mem n set`
unfoldable pub remove_seq : ℕ → List ℕ → List ℕ
remove_seq n [] = []
remove_seq n (m ∷ ms) = let rest = remove_seq n ms in if n == m then rest else m ∷ rest

pub record Completion : Type 0 where
  pub next : ℕ
  pub pending : List ℕ

abbrev pub new : Completion
new = record { next = 1; pending = [] }

-- `while self.pending.remove(&self.next) { self.next += 1; }`: each round takes an element out, so
-- their number is enough fuel.
advance : ℕ → ℕ → List ℕ → Completion
advance zero next pending = record { next = next; pending = pending }
advance (suc fuel) next pending = elim (mem next pending) [
  | true ↦ advance fuel (next + 1) (remove_seq next pending)
  | false ↦ record { next = next; pending = pending }
]

unfoldable pub complete : Completion → ℕ → Completion
unfolding insert_seq advance mem remove_seq
complete c seq = let pending = insert_seq seq c.pending in advance (length pending) c.next pending

-- The value that `complete` stores in the watermark.
unfoldable pub watermark_of : Completion → ℕ
watermark_of c = c.next - 1

unfoldable pub complete_all : List ℕ → Completion
unfolding complete
complete_all = foldl complete new

-- `wait_for` when its time is up: does the watermark cover the commit?
unfoldable pub reached : ℕ → ℕ → Bool
reached watermark seq = leb seq watermark

module _ (v : VectorIndex) (e : Embedder) where
  -- `apply`: one change, on the index
  unfoldable pub apply : v.Index → CdcRecord → v.Index
  apply index rec = if Cdc.is_delete rec then v.remove index rec.sid else elim (e.embed rec.val) [
    | some vec ↦ v.insert index rec.sid vec
    | none ↦ v.remove index rec.sid
  ]

  -- The single thread of `spawn`: the index and the watermark after one record.
  unfoldable pub handle : v.Index × ℕ → CdcRecord → v.Index × ℕ
  unfolding apply
  handle (index, watermark) rec = (apply index rec, rec.seq)
