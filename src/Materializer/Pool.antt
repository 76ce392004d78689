-- ===== src/Materializer/Pool.antt =====
-- src/materializer.rs: the worker pool of spawn_pooled. Its threads are the steps of a relation: the
-- dispatcher hands a record to a worker, and a worker applies one and then completes it.
pub mod Order
use grainstore.Base.{
  ℕ, zero, suc, ◌+◌, ◌%◌, ◌≡◌, max, List, [], ◌∷◌, ◌++◌, Option, none, some, get_elem?, get_or, set,
  length, replicate,
}
use grainstore.Cdc.{CdcRecord}
use grainstore.Embed.{Embedder}
use grainstore.Materializer
use grainstore.Materializer.{Completion, complete, apply}
use grainstore.Vector.{VectorIndex}

-- A worker: the records in its channel, and the commit that it has applied and not completed.
pub record Worker : Type 0 where
  pub queue : List CdcRecord
  pub busy : Option ℕ

abbrev pub idle : Worker
idle = record { queue = []; busy = none }

module _ (v : VectorIndex) (e : Embedder) where
  -- `i` counts the records that the dispatcher has received.
  pub record Pool : Type 0 where
    pub workers : List Worker
    pub i : ℕ
    pub index : v.Index
    pub completion : Completion

  unfoldable pub spawn_pooled : v.Index → ℕ → Pool
  spawn_pooled index workers = record {
    workers = replicate (max workers 1) idle;
    i = 0;
    index = index;
    completion = Materializer.new;
  }

  -- `worker_txs[i % workers].send(rec)`
  unfoldable pub dispatch : Pool → CdcRecord → Pool
  dispatch p rec =
      let at = p.i % length p.workers in
      let w = get_or idle p.workers at in
      record p {
        workers = set p.workers at (record w { queue = w.queue ++ (rec ∷ []) });
        i = p.i + 1;
      }

  -- `apply` on the record that worker `w` has received.
  unfoldable pub work : Pool → ℕ → CdcRecord → List CdcRecord → Pool
  unfolding apply
  work p w rec rest = record p {
    workers = set p.workers w (record { queue = rest; busy = some rec.seq });
    index = apply v e p.index rec;
  }

  -- `complete`, under the lock of the completion.
  unfoldable pub finish : Pool → ℕ → ℕ → List CdcRecord → Pool
  unfolding complete
  finish p w seq queue = record p {
    workers = set p.workers w (record { queue = queue; busy = none });
    completion = complete p.completion seq;
  }

  -- What the threads reach from a new pool: the records that were dispatched, in order, those that were
  -- applied, in order, and the pool.
  pub data Reach (index : v.Index) (n : ℕ) : List CdcRecord → List CdcRecord → Pool → Type 0 where
    here : Reach index n [] [] (spawn_pooled index n)
    dispatches :
        {sent done : List CdcRecord} {p : Pool}
        → Reach index n sent done p
        → (rec : CdcRecord) → Reach index n (sent ++ (rec ∷ [])) done (dispatch p rec)
    works :
        {sent done : List CdcRecord} {p : Pool}
        → Reach index n sent done p
        → (w : ℕ) (rec : CdcRecord) (rest : List CdcRecord)
        → get_elem? p.workers w ≡ some (record { queue = rec ∷ rest; busy = none })
        → Reach index n sent (done ++ (rec ∷ [])) (work p w rec rest)
    finishes :
        {sent done : List CdcRecord} {p : Pool}
        → Reach index n sent done p
        → (w seq : ℕ) (queue : List CdcRecord)
        → get_elem? p.workers w ≡ some (record { queue = queue; busy = some seq })
        → Reach index n sent done (finish p w seq queue)
