-- ===== src/Materializer/Pool/Order.antt =====
-- src/materializer.rs: the index and the watermark of the pool, in every order of its threads.
use grainstore.Base.{
  ℕ, zero, suc, ◌≤◌, ◌≡◌, refl, sym, ap, ◌∙◌, subst, List, [], ◌∷◌, ◌++◌, All, Option, none, some,
  true, ◌==◌, ◌||◌, ==_iff, All-get_elem?, All-set, All-append, All-map, All-of_append, get_or, max,
  replicate, foldl, foldl-append, map, arith, Bool-cases, inl, inr, length, ◌%◌,
}
use mathlib.Core.List.{map-append}
use grainstore.Cdc.{CdcRecord}
use grainstore.Embed.{Embedder}
use grainstore.Materializer
use grainstore.Materializer.{Completion, complete, complete_all, mem, watermark_of, apply}
use grainstore.Materializer.Pool.{
  Worker, idle, Pool, spawn_pooled, dispatch, work, finish, Reach, here, dispatches, works,
  finishes,
}
use grainstore.Materializer.Watermark.{watermark-contiguous}
use grainstore.Vector.{VectorIndex}

abbrev pub seqs : List CdcRecord → List ℕ
seqs = map (λ r. r.seq)

mem-append : (s : ℕ) (a b : List ℕ) → mem s (a ++ b) ≡ (mem s a || mem s b)
unfolding mem
mem-append s [] b = refl
mem-append s (x ∷ a) b = ground (arith, mem-append s a b)

mem_later :
    (s : ℕ) (done : List CdcRecord) (rec : CdcRecord)
    → mem s (seqs done) ≡ true
    → mem s (seqs (done ++ (rec ∷ []))) ≡ true
mem_later s done rec h = rw (
  map-append (λ (r : CdcRecord). r.seq) done (rec ∷ []),
  mem-append s (seqs done) (rec.seq ∷ []),
  h,
)

mem_last :
    (done : List CdcRecord) (rec : CdcRecord) → mem rec.seq (seqs (done ++ (rec ∷ []))) ≡ true
mem_last done rec =
    rw
      (
        map-append (λ (r : CdcRecord). r.seq) done (rec ∷ []),
        mem-append rec.seq (seqs done) (rec.seq ∷ []),
      )
      (unfold mem in ground arith)

mem-All : (P : ℕ → Type 0) (s : ℕ) (xs : List ℕ) → All P xs → mem s xs ≡ true → P s
unfolding mem
mem-All P s [] h m = absurd (cc)
mem-All P s (x ∷ xs) h m = elim (Bool-cases (s == x)) [
  | inl same ↦ subst P (sym ((==_iff s x).0 same)) h.0
  | inr other ↦ mem-All P s xs h.1 (rw (other, mem) at m)
]

All-replicate : {A : Type 0} (P : A → Type 0) (n : ℕ) (x : A) → P x → All P (replicate n x)
All-replicate P zero x h = tt
All-replicate P (suc n) x h = (h, All-replicate P n x h)

All-get_or :
    {A : Type 0} (P : A → Type 0) (d : A) (xs : List A) (i : ℕ) → P d → All P xs → P (get_or d xs i)
All-get_or P d [] i hd h = hd
All-get_or P d (x ∷ xs) zero hd h = h.0
All-get_or P d (x ∷ xs) (suc i) hd h = All-get_or P d xs i hd h.1

-- The commit that a worker is busy with is applied.
abbrev BusyIn : List CdcRecord → Option ℕ → Type 0
BusyIn done none = Unit
BusyIn done (some s) = mem s (seqs done) ≡ true

busy_later :
    (done : List CdcRecord) (rec : CdcRecord) (o : Option ℕ)
    → BusyIn done o
    → BusyIn (done ++ (rec ∷ [])) o
busy_later done rec none h = tt
busy_later done rec (some s) h = mem_later s done rec h

module _ (v : VectorIndex) (e : Embedder) where
  record Tracks (index : v.Index) (done : List CdcRecord) (p : Pool v e) : Type 0 where
    folded : p.index ≡ foldl (apply v e) index done
    completed : List ℕ
    completion : p.completion ≡ complete_all completed
    applied : All (λ s. mem s (seqs done) ≡ true) completed
    busy : All (λ w. BusyIn done w.busy) p.workers

  Reach-Tracks :
      {index : v.Index} {n : ℕ} {sent done : List CdcRecord} {p : Pool v e}
      → Reach v e index n sent done p
      → Tracks index done p
  unfolding spawn_pooled dispatch work finish complete_all watermark_of
  Reach-Tracks {n} here = record {
    folded = refl;
    completed = [];
    completion = refl;
    applied = tt;
    busy = All-replicate (λ (w : Worker). BusyIn [] w.busy) (max n 1) idle tt;
  }
  Reach-Tracks (dispatches {done = done} {p = p} r rec) =
      let t = Reach-Tracks r in
      let at = p.i % length p.workers in
      record {
        folded = t.folded;
        completed = t.completed;
        completion = t.completion;
        applied = t.applied;
        busy =
            All-set (λ (w : Worker). BusyIn done w.busy) p.workers at _ t.busy
              (All-get_or (λ (w : Worker). BusyIn done w.busy) idle p.workers at tt t.busy);
      }
  Reach-Tracks {index} (works {done = done} {p = p} r w rec rest there) =
      let t = Reach-Tracks r in
      let after = done ++ (rec ∷ []) in
      record {
        folded =
            ap (λ (x : v.Index). apply v e x rec) t.folded
            ∙ sym (foldl-append (apply v e) index done (rec ∷ []));
        completed = t.completed;
        completion = t.completion;
        applied =
            All-map (λ (s : ℕ). mem s (seqs done) ≡ true) (λ (s : ℕ). mem s (seqs after) ≡ true)
              (λ s h. mem_later s done rec h) t.completed t.applied;
        busy =
            All-set (λ (x : Worker). BusyIn after x.busy) p.workers w _
              (All-map (λ (x : Worker). BusyIn done x.busy) (λ (x : Worker). BusyIn after x.busy)
                (λ x h. busy_later done rec x.busy h) p.workers t.busy)
              (mem_last done rec);
      }
  Reach-Tracks (finishes {done = done} {p = p} r w seq queue there) =
      let t = Reach-Tracks r in
      let seen : (mem seq (seqs done) ≡ true) =
        All-get_elem? (λ (x : Worker). BusyIn done x.busy) p.workers w
          (record { queue = queue; busy = some seq }) t.busy there in
      record {
        folded = t.folded;
        completed = t.completed ++ (seq ∷ []);
        completion =
            ap (λ (c : Completion). complete c seq) t.completion
            ∙ sym (foldl-append complete Materializer.new t.completed (seq ∷ []));
        applied =
            All-append (λ (s : ℕ). mem s (seqs done) ≡ true) t.completed (seq ∷ []) t.applied
              (seen, tt);
        busy = All-set (λ (x : Worker). BusyIn done x.busy) p.workers w _ t.busy tt;
      }

  -- What is applied or waits in a channel was dispatched.
  Reach-drawn :
      (P : CdcRecord → Type 0) {index : v.Index} {n : ℕ} {sent done : List CdcRecord} {p : Pool v e}
      → Reach v e index n sent done p
      → All P sent
      → All P done × All (λ w. All P w.queue) p.workers
  unfolding spawn_pooled dispatch work finish
  Reach-drawn P {n} here h = (tt, All-replicate (λ (w : Worker). All P w.queue) (max n 1) idle tt)
  Reach-drawn P (dispatches {sent = sent} {p = p} r rec) h =
      let (before, last) = All-of_append P sent (rec ∷ []) h in
      let (taken, waiting) = Reach-drawn P r before in
      let at = p.i % length p.workers in
      let w = get_or idle p.workers at in
      (
        taken,
        All-set (λ (x : Worker). All P x.queue) p.workers at _ waiting
            (All-append P w.queue (rec ∷ [])
              (All-get_or (λ (x : Worker). All P x.queue) idle p.workers at tt waiting) last),
      )
  Reach-drawn P (works {done = done} {p = p} r w rec rest there) h =
      let (taken, waiting) = Reach-drawn P r h in
      let queue =
        All-get_elem? (λ (x : Worker). All P x.queue) p.workers w
          (record { queue = rec ∷ rest; busy = none }) waiting there in
      (
        All-append P done (rec ∷ []) taken (queue.0, tt),
        All-set (λ (x : Worker). All P x.queue) p.workers w _ waiting queue.1,
      )
  Reach-drawn P (finishes {p = p} r w seq queue there) h =
      let (taken, waiting) = Reach-drawn P r h in
      (
        taken,
        All-set (λ (x : Worker). All P x.queue) p.workers w _ waiting
            (All-get_elem? (λ (x : Worker). All P x.queue) p.workers w
              (record { queue = queue; busy = some seq }) waiting there),
      )

  -- In whatever order the threads of the pool run: the index is what applying the records that were
  -- taken so far makes of it, in the order they were taken; each commit up to the watermark is one of
  -- these; and what holds of all records that were dispatched holds of all that were taken.
  pub Reach-covered :
      {index : v.Index} {n : ℕ} {sent done : List CdcRecord} {p : Pool v e}
      → Reach v e index n sent done p
      → (p.index ≡ foldl (apply v e) index done)
        × ((s : ℕ) → 1 ≤ s → s ≤ watermark_of p.completion → mem s (seqs done) ≡ true)
        × ((P : CdcRecord → Type 0) → All P sent → All P done)
  Reach-covered {done} {p} r =
      let t = Reach-Tracks r in
      (
        t.folded,
        λ s lo hi.
            mem-All (λ (x : ℕ). mem x (seqs done) ≡ true) s t.completed t.applied
              ((watermark-contiguous t.completed).0 s lo
                (subst (λ (c : Completion). s ≤ watermark_of c) t.completion hi)),
        λ P h. (Reach-drawn P r h).0,
      )

  -- The watermark does not tell that the index is current: of any two records with the commits 1 and 2,
  -- also for one sid, a pool of two workers can apply the second one first, and its watermark is then 2.
  pub Reach-swapped :
      (index : v.Index) (a b : CdcRecord)
      → a.seq ≡ 1
      → b.seq ≡ 2
      → (p : Pool v e) × Reach v e index 2 (a ∷ b ∷ []) (b ∷ a ∷ []) p
        × (watermark_of p.completion ≡ 2)
        × (p.index ≡ apply v e (apply v e index b) a)
  unfolding spawn_pooled dispatch work finish complete_all watermark_of
  Reach-swapped index a b first second =
      let sent = dispatches (dispatches here a) b in
      let taken = works (works sent 1 b [] refl) 0 a [] refl in
      let both = finishes (finishes taken 0 a.seq [] refl) 1 b.seq [] refl in
      (_, both, rw (first, second) refl, refl)
