-- ===== src/Server/Repeated.antt =====
-- server/src/lib.rs: a load that a client repeats.
use grainstore.Base.{
  ℕ, suc, ◌≡◌, refl, sym, ap, ◌∙◌, subst, List, [], ◌∷◌, All, true, max, map, length, inl, inr,
}
use grainstore.Engine
use grainstore.Engine.{GrainEngine}
use grainstore.Error.{Error, Result, ok, err}
use grainstore.Server.{GrainRec, Store, encode_val, load, load_loop, loaded, pred}
use grainstore.Server.Total.{Result-cases}
use grainstore.Truth
use grainstore.Truth.{TruthStore}
use grainstore.Truth.Known.{Known, Commits, commit-Commits}
use grainstore.Truth.Session.{commit_retry}
use grainstore.Vector.{VectorIndex}
use grainstore.Wal
use grainstore.Wal.{WriteReq}
use grainstore.Wal.Commit.{WriteEnd}

abbrev pub sids : List (GrainRec × WriteEnd) → List ℕ
sids = map (λ p. p.0.sid)

-- A running store that knows the keys.
abbrev pub Knows : TruthStore → List ℕ → Type 0
Knows t keys = (t.running ≡ true) × All (Known t.committer.idem) keys

abbrev Kept : TruthStore → List ℕ → TruthStore → Type 0
Kept t keys t' = Knows t' keys × ((k : ℕ) → Known t.committer.idem k → Known t'.committer.idem k)

-- A store with the same log, the same grains and the same keys.
abbrev pub SameTruth : TruthStore → TruthStore → Type 0
SameTruth a b =
    (a.committer.file ≡ b.committer.file)
    × (a.committer.kv.grains ≡ b.committer.kv.grains)
    × (a.committer.idem ≡ b.committer.idem)

abbrev req_of : GrainRec → WriteReq
req_of r = Wal.put r.sid pred (encode_val r.category r.amount r.text) 0x3f800000 0 r.sid

module _ (v : VectorIndex) where
  abbrev put_one : GrainEngine v → GrainRec → WriteEnd → GrainEngine v × Result ℕ
  put_one e r end =
      Engine.put_raw v e r.sid pred (encode_val r.category r.amount r.text)
        (record { c = 0x3f800000; t_valid = 0; idem_key = r.sid }) end

  put_one_truth :
      (e : GrainEngine v) (r : GrainRec) (end : WriteEnd)
      → ((put_one e r end).0.truth ≡ (Truth.commit e.truth (req_of r) end).0)
        × ((put_one e r end).1 ≡ (Truth.commit e.truth (req_of r) end).1)
  unfolding Engine.put_raw Engine.written Truth.put Wal.put
  put_one_truth e r end = (refl, refl)

  load_loop-ok :
      (e : GrainEngine v) (max_seq h : ℕ) (r : GrainRec) (end : WriteEnd)
      (recs : List (GrainRec × WriteEnd))
      → (put_one e r end).1 ≡ ok h
      → load_loop v e max_seq ((r, end) ∷ recs)
        ≡ load_loop v (put_one e r end).0 (max max_seq h) recs
  unfolding load_loop Wal.put
  load_loop-ok e max_seq h r end recs q = rw (q, load_loop)

  load_loop-err :
      (e : GrainEngine v) (max_seq : ℕ) (r : GrainRec) (end : WriteEnd)
      (recs : List (GrainRec × WriteEnd)) {reason : Error}
      → (put_one e r end).1 ≡ err reason
      → load_loop v e max_seq ((r, end) ∷ recs) ≡ ((put_one e r end).0, err reason)
  unfolding load_loop Wal.put
  load_loop-err e max_seq r end recs q = rw (q, load_loop)

  -- After a load that succeeds the store runs, and knows the keys it knew and those of the records.
  load_loop-Knows :
      (e : GrainEngine v) (max_seq n : ℕ) (recs : List (GrainRec × WriteEnd))
      → e.truth.running ≡ true
      → (load_loop v e max_seq recs).1 ≡ ok n
      → Kept e.truth (sids recs) (load_loop v e max_seq recs).0.truth
  unfolding load_loop Wal.put
  load_loop-Knows e max_seq n [] running q = ((running, tt), λ k h. h)
  load_loop-Knows e max_seq n ((r, end) ∷ recs) running q =
      elim (Result-cases (put_one e r end).1) [
        | inr (reason, bad) ↦
            let never : (err reason ≡ ok n) = rw (load_loop-err e max_seq r end recs bad) at q in
            absurd (cc)
        | inl (h, good) ↦
            let step = load_loop-ok e max_seq h r end recs good in
            let (truth, answer) = put_one_truth e r end in
            let c =
              subst (Commits e.truth r.sid) (sym truth)
                (commit-Commits e.truth (req_of r) end running h (sym answer ∙ good)) in
            let (rest, keeps) =
              load_loop-Knows (put_one e r end).0 (max max_seq h) n recs c.runs (rw step at q) in
            subst (λ (o : GrainEngine v × Result ℕ). Kept e.truth (r.sid ∷ sids recs) o.0.truth)
              (sym step)
              ((rest.0, (keeps r.sid c.knows, rest.1)), λ k known. keeps k (c.still_knows k known))
      ]

  -- A load of records whose keys are known.
  load_loop-SameTruth :
      (e : GrainEngine v) (max_seq : ℕ) (recs : List (GrainRec × WriteEnd))
      → Knows e.truth (sids recs)
      → SameTruth (load_loop v e max_seq recs).0.truth e.truth
        × ((n : ℕ) × ((load_loop v e max_seq recs).1 ≡ ok n))
  unfolding load_loop Wal.put
  load_loop-SameTruth e max_seq [] k = ((refl, refl, refl), (max_seq, refl))
  load_loop-SameTruth e max_seq ((r, end) ∷ recs) (running, ((orig, known), more)) =
      let retry = commit_retry e.truth (req_of r) orig end running known in
      let (truth, answer) = put_one_truth e r end in
      let after : TruthStore = (put_one e r end).0.truth in
      let idem : (after.committer.idem ≡ e.truth.committer.idem) =
        ap (λ (t : TruthStore). t.committer.idem) truth ∙ retry.5 in
      let (same, (n, done)) = load_loop-SameTruth (put_one e r end).0 (max max_seq orig) recs (
        ap (λ (t : TruthStore). t.running) truth ∙ retry.1,
        subst (λ (m : List (ℕ × ℕ)). All (Known m) (sids recs)) (sym idem) more,
      ) in
      rw (load_loop-ok e max_seq orig r end recs (answer ∙ retry.0)) (
        (
          same.0 ∙ ap (λ (t : TruthStore). t.committer.file) truth ∙ retry.2,
          same.1 ∙ ap (λ (t : TruthStore). t.committer.kv.grains) truth ∙ retry.3,
          same.2 ∙ idem,
        ),
        (n, done),
      )

  loaded_truth :
      (s : Store v) (n : ℕ) (o : GrainEngine v × Result ℕ)
      → (loaded v s n o).0.engine.truth ≡ o.0.truth
  unfolding loaded
  loaded_truth s n (e, ok x) = refl
  loaded_truth s n (e, err x) = refl

  loaded-ok :
      (s : Store v) (n m : ℕ) (o : GrainEngine v × Result ℕ)
      → (loaded v s n o).1 ≡ ok m
      → (h : ℕ) × (o.1 ≡ ok h)
  unfolding loaded
  loaded-ok s n m (e, ok x) q = (x, refl)
  loaded-ok s n m (e, err x) q = absurd (cc)

  loaded_answer :
      (s : Store v) (n h : ℕ) (o : GrainEngine v × Result ℕ)
      → o.1 ≡ ok h
      → (loaded v s n o).1 ≡ ok n
  unfolding loaded
  loaded_answer s n h (e, ok x) q = refl
  loaded_answer s n h (e, err x) q = absurd (cc)

  -- After a load that succeeds a running store runs, and knows the sids of the records.
  pub load-Knows :
      (s : Store v) (recs : List (GrainRec × WriteEnd)) (n : ℕ)
      → s.engine.truth.running ≡ true
      → (load v s recs).1 ≡ ok n
      → Knows (load v s recs).0.engine.truth (sids recs)
  unfolding load
  load-Knows s recs n running q =
      let (h, good) = loaded-ok s (length recs) n (load_loop v s.engine s.last_seq recs) q in
      let truth = loaded_truth s (length recs) (load_loop v s.engine s.last_seq recs) in
      subst (λ (t : TruthStore). Knows t (sids recs)) (sym truth)
        (load_loop-Knows s.engine s.last_seq h recs running good).0

  length-sids : (a b : List (GrainRec × WriteEnd)) → sids a ≡ sids b → length a ≡ length b
  length-sids a b e = counted a ∙ ap (λ (l : List ℕ). length l) e ∙ sym (counted b)
    where
      counted : (l : List (GrainRec × WriteEnd)) → length l ≡ length (sids l)
      counted [] = refl
      counted (x ∷ l) = ap (λ (n : ℕ). suc n) (counted l)

  -- A load may be repeated: after a load that succeeded on a running store, a second one of records with
  -- the same sids, whatever else they hold and however writes would end, succeeds with their number, and
  -- leaves the log, the grains and the idempotency keys as they were.
  pub load-SameTruth :
      (s : Store v) (recs again : List (GrainRec × WriteEnd)) (n : ℕ)
      → s.engine.truth.running ≡ true
      → (load v s recs).1 ≡ ok n
      → sids again ≡ sids recs
      → ((load v (load v s recs).0 again).1 ≡ ok (length recs))
        × SameTruth (load v (load v s recs).0 again).0.engine.truth (load v s recs).0.engine.truth
  unfolding load
  load-SameTruth s recs again n running q same =
      let s' : Store v = (load v s recs).0 in
      let known : Knows s'.engine.truth (sids again) = rw same (load-Knows s recs n running q) in
      let (kept, (m, done)) = load_loop-SameTruth s'.engine s'.last_seq again known in
      (
        loaded_answer s' (length again) m (load_loop v s'.engine s'.last_seq again) done
            ∙ ap (λ (k : ℕ). ok k) (length-sids again recs same),
        subst (λ (t : TruthStore). SameTruth t s'.engine.truth)
            (sym (loaded_truth s' (length again) (load_loop v s'.engine s'.last_seq again))) kept,
      )
