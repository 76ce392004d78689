-- ===== src/Disclosure/Cache.antt =====
-- The cache of pinned results keeps what was stored last, and stays within its capacity.
use grainstore.Base.{ℕ, ◌+◌, ◌≤◌, ◌<◌, ◌≡◌, refl, List, [], ◌∷◌, ◌++◌, some, length, arith}
use grainstore.Disclosure.{
  Continuation, ContinuationCache, insert_entry, get_entry, evict, store, get_full,
}
use grainstore.Query.{Ranked}

-- The keys are all below the next one.
abbrev pub AreBelow : ℕ → List (ℕ × Continuation) → Type 0
AreBelow n [] = Unit
AreBelow n ((j, _) ∷ rest) = (j < n) × AreBelow n rest

-- The invariant of the cache.
pub record IsCache (m : ContinuationCache) : Type 0 where
  pub below : AreBelow m.next m.entries
  pub room : 1 ≤ m.cap
  pub bounded : length m.entries ≤ m.cap

insert_entry_last :
    (id : ℕ) (c : Continuation) (m : List (ℕ × Continuation))
    → AreBelow id m
    → insert_entry id c m ≡ m ++ ((id, c) ∷ [])
unfolding insert_entry
insert_entry_last id c [] h = refl
insert_entry_last id c ((j, d) ∷ rest) (h, below) =
    let ih = insert_entry_last id c rest below in ground arith

length-evict : (cap : ℕ) (m : List (ℕ × Continuation)) → length (evict cap m) ≤ cap
unfolding evict
length-evict cap [] = omega arith
length-evict cap ((j, d) ∷ rest) = let ih = length-evict cap rest in ground arith

evict-AreBelow : (cap n : ℕ) (m : List (ℕ × Continuation)) → AreBelow n m → AreBelow n (evict cap m)
unfolding evict
evict-AreBelow cap n [] h = h
evict-AreBelow cap n ((j, d) ∷ rest) (h, below) =
    let ih = evict-AreBelow cap n rest below in ground (arith, h, below, ih)

AreBelow-last :
    (n : ℕ) (c : Continuation) (m : List (ℕ × Continuation))
    → AreBelow n m
    → AreBelow (n + 1) (m ++ ((n, c) ∷ []))
AreBelow-last n c [] h = (omega arith, tt)
AreBelow-last n c ((j, d) ∷ rest) (h, below) = (omega arith, AreBelow-last n c rest below)

get_entry_last :
    (n : ℕ) (c : Continuation) (m : List (ℕ × Continuation))
    → AreBelow n m
    → get_entry n (m ++ ((n, c) ∷ [])) ≡ some c
unfolding get_entry
get_entry_last n c [] h = ground arith
get_entry_last n c ((j, d) ∷ rest) (h, below) =
    let ih = get_entry_last n c rest below in ground arith

get_entry-evict_last :
    (cap n : ℕ) (c : Continuation) (m : List (ℕ × Continuation))
    → 1 ≤ cap
    → AreBelow n m
    → get_entry n (evict cap (m ++ ((n, c) ∷ []))) ≡ some c
unfolding evict get_entry
get_entry-evict_last cap n c [] room h = ground arith
get_entry-evict_last cap n c ((j, d) ∷ rest) room (h, below) =
    let ih = get_entry-evict_last cap n c rest room below in
    let last = get_entry_last n c rest below in ground arith

-- The cache after a result was stored: it keeps its invariant, and the handle that was given out
-- finds the whole result, whatever was evicted. It satisfied the invariant before.
pub store-IsCache :
    (m : ContinuationCache) (ranked : List Ranked) (full_tokens : ℕ)
    → IsCache m
    → IsCache ((store m ranked full_tokens).0)
      × (get_full ((store m ranked full_tokens).0) ((store m ranked full_tokens).1)
          ≡ some (record { ranked = ranked; full_tokens = full_tokens }))
unfolding store get_full
store-IsCache m ranked full_tokens h =
    let c : Continuation = record { ranked = ranked; full_tokens = full_tokens } in
    let all : List (ℕ × Continuation) = m.entries ++ ((m.next, c) ∷ []) in
    rw (insert_entry_last m.next c m.entries h.below) (
      record {
        below = evict-AreBelow m.cap (m.next + 1) all (AreBelow-last m.next c m.entries h.below);
        room = h.room;
        bounded = length-evict m.cap all;
      },
      get_entry-evict_last m.cap m.next c m.entries h.room h.below,
    )
