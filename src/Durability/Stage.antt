-- ===== src/Durability/Stage.antt =====
-- Going through a batch, followed record by record.
use grainstore.Base.{
  ℕ, ◌+◌, ◌<◌, ◌≤◌, ◌^◌, ◌≡◌, refl, sym, ap, ◌∙◌, List, [], ◌∷◌, ◌++◌, none, some, length, All,
  foldl, foldl-append, append_assoc, append-nil, arith, Option-cases, inl, inr,
}
use grainstore.Base.HashMap
use grainstore.Hlc.{successor}
use grainstore.Kv.{MemKv, put_grain}
use grainstore.Recovery.{Progress, replay_record}
use grainstore.Wal.{WriteReq, WalRecord, encode_frame}
use grainstore.Wal.Commit.{Pending, Staged, stage_new, stage_known, stage, record_of, apply_puts}
use grainstore.Wal.RoundTrip.{IsRecord}
use grainstore.Wal.Frames.{encode_frames}
use grainstore.Durability.{IsRequest, AreRequests}

-- The records that the batch adds to the log.
unfoldable pub accepted : Staged → List Pending → List WalRecord
accepted st [] = []
accepted st (pw ∷ rest) =
    let later = accepted (stage st pw) rest in
    elim (HashMap.get pw.req.idem_key st.idem) [
      | some _ ↦ later
      | none ↦ record_of (successor st.hlc) pw.req ∷ later
    ]

-- The staged changes, on the store `kv`, make up the progress `p`.
pub record Tracks (kv : MemKv) (p : Progress) (st : Staged) : Type 0 where
  pub grains : p.kv.grains ≡ (apply_puts kv st.puts).grains
  pub clock : p.recovered.high_watermark ≡ st.hlc
  pub idem : p.recovered.idem ≡ st.idem

put_grain_cong :
    (a b : MemKv) (k v : List ℕ)
    → a.grains ≡ b.grains
    → (put_grain a k v).grains ≡ (put_grain b k v).grains
unfolding put_grain
put_grain_cong a b k v h = cc

record_of-IsRecord :
    (seq : ℕ) (q : WriteReq) → seq < 2 ^ 64 → IsRequest q → IsRecord (record_of seq q)
record_of-IsRecord seq q hs h = record {
  seq_fits = hs;
  sid_fits = h.sid_fits;
  pred_fits = h.pred_fits;
  op_fits = h.op_fits;
  c_fits = h.c_fits;
  t_valid_fits = h.t_valid_fits;
  idem_fits = h.idem_fits;
  len_fits = h.len_fits;
}

pub successor_below : (n : ℕ) → n + 1 < 2 ^ 64 → successor n ≡ n + 1
unfolding successor
successor_below n h = omega arith

apply_puts-append :
    (kv : MemKv) (puts : List (List ℕ × List ℕ)) (k v : List ℕ)
    → apply_puts kv (puts ++ ((k, v) ∷ [])) ≡ put_grain (apply_puts kv puts) k v
unfolding apply_puts
apply_puts-append kv puts k v = rw foldl-append

stage_new-Tracks :
    (kv : MemKv) (p : Progress) (st : Staged) (pw : Pending)
    → st.hlc + 1 < 2 ^ 64
    → HashMap.get pw.req.idem_key st.idem ≡ none
    → Tracks kv p st
    → Tracks kv (replay_record p (record_of (successor st.hlc) pw.req)) (stage_new st pw)
unfolding stage_new replay_record
stage_new-Tracks kv p st pw room fresh h = record {
  grains =
      put_grain_cong p.kv (apply_puts kv st.puts) _ _ h.grains
      ∙ sym (ap (λ (k : MemKv). k.grains) (apply_puts-append kv st.puts _ _));
  clock = omega (arith, h.clock, successor_below st.hlc room);
  idem =
      ap (HashMap.or_insert pw.req.idem_key (successor st.hlc)) h.idem
      ∙ HashMap.or_insert_absent pw.req.idem_key (successor st.hlc) st.idem fresh;
}

stage_known-Tracks :
    (kv : MemKv) (p : Progress) (st : Staged) (pw : Pending) (orig : ℕ)
    → Tracks kv p st
    → Tracks kv p (stage_known st pw orig)
unfolding stage_known
stage_known-Tracks kv p st pw orig h = record { grains = h.grains; clock = h.clock; idem = h.idem }

pub stage_at_known :
    (st : Staged) (pw : Pending) (orig : ℕ)
    → HashMap.get pw.req.idem_key st.idem ≡ some orig
    → stage st pw ≡ stage_known st pw orig
unfolding stage
stage_at_known st pw orig e = rw (e, stage)

pub stage_at_new :
    (st : Staged) (pw : Pending)
    → HashMap.get pw.req.idem_key st.idem ≡ none
    → stage st pw ≡ stage_new st pw
unfolding stage
stage_at_new st pw e = rw (e, stage)

pub accepted_known :
    (st : Staged) (pw : Pending) (rest : List Pending) (orig : ℕ)
    → HashMap.get pw.req.idem_key st.idem ≡ some orig
    → accepted st (pw ∷ rest) ≡ accepted (stage st pw) rest
unfolding accepted
accepted_known st pw rest orig e = rw (e, accepted)

pub accepted_new :
    (st : Staged) (pw : Pending) (rest : List Pending)
    → HashMap.get pw.req.idem_key st.idem ≡ none
    → accepted st (pw ∷ rest) ≡ record_of (successor st.hlc) pw.req ∷ accepted (stage st pw) rest
unfolding accepted
accepted_new st pw rest e = rw (e, accepted)

-- What is known after a batch: the buffer has the frames of the accepted records behind what it
-- had, and the staged changes are the replay of those records.
pub record IsStaged (kv : MemKv) (p : Progress) (st : Staged) (recs : List WalRecord) (st' : Staged)
    : Type 0 where
  pub buf : st'.buf ≡ st.buf ++ encode_frames recs
  pub tracks : Tracks kv (foldl replay_record p recs) st'
  pub records : All IsRecord recs

module _ (kv : MemKv) (p : Progress) (st : Staged) (pw : Pending) (rest : List Pending) where
  IsStaged-known :
      (orig : ℕ)
      → HashMap.get pw.req.idem_key st.idem ≡ some orig
      → IsStaged kv p (stage st pw) (accepted (stage st pw) rest) (foldl stage (stage st pw) rest)
      → IsStaged kv p st (accepted st (pw ∷ rest)) (foldl stage st (pw ∷ rest))
  IsStaged-known orig e ih = rw (accepted_known st pw rest orig e) (record {
    buf = ih.buf ∙ ap (λ b. b ++ encode_frames (accepted (stage st pw) rest)) same;
    tracks = ih.tracks;
    records = ih.records;
  })
    where
      same : (stage st pw).buf ≡ st.buf
      same = rw (stage_at_known st pw orig e) (unfold stage_known in refl)

  IsStaged-new :
      (room : successor st.hlc < 2 ^ 64)
      → HashMap.get pw.req.idem_key st.idem ≡ none
      → IsRequest pw.req
      → IsStaged kv
          (replay_record p (record_of (successor st.hlc) pw.req))
          (stage st pw)
          (accepted (stage st pw) rest)
          (foldl stage (stage st pw) rest)
      → IsStaged kv p st (accepted st (pw ∷ rest)) (foldl stage st (pw ∷ rest))
  IsStaged-new room e req ih = rw (accepted_new st pw rest e) (record {
    buf =
        ih.buf
        ∙ ap (λ b. b ++ encode_frames (accepted (stage st pw) rest)) grown
        ∙ append_assoc st.buf (encode_frame (record_of (successor st.hlc) pw.req)) _
        ∙ unfold encode_frames in refl;
    tracks = ih.tracks;
    records = (record_of-IsRecord (successor st.hlc) pw.req room req, ih.records);
  })
    where
      grown : (stage st pw).buf ≡ st.buf ++ encode_frame (record_of (successor st.hlc) pw.req)
      grown = rw (stage_at_new st pw e) (unfold stage_new in refl)

pub stage_all-IsStaged :
    (kv : MemKv) (p : Progress) (st : Staged) (batch : List Pending)
    → AreRequests batch
    → st.hlc + length batch < 2 ^ 64
    → Tracks kv p st
    → IsStaged kv p st (accepted st batch) (foldl stage st batch)
stage_all-IsStaged kv p st [] reqs room h =
    unfold accepted encode_frames in
    record { buf = sym (append-nil st.buf); tracks = h; records = tt }
stage_all-IsStaged kv p st (pw ∷ rest) reqs room h =
    elim (Option-cases (HashMap.get pw.req.idem_key st.idem)) [
      | inr (orig, e) ↦ IsStaged-known kv p st pw rest orig e (
          stage_all-IsStaged kv p (stage st pw) rest reqs.1
            (rw (stage_at_known st pw orig e) (unfold stage_known in omega arith))
            (rw (stage_at_known st pw orig e) (stage_known-Tracks kv p st pw orig h)))
      | inl e ↦
          let p' = replay_record p (record_of (successor st.hlc) pw.req) in
          let next = successor_below st.hlc (omega arith) in
          IsStaged-new kv p st pw rest (omega (arith, next)) e reqs.0 (
            stage_all-IsStaged kv p' (stage st pw) rest reqs.1
              (rw (stage_at_new st pw e) (unfold stage_new in omega (arith, next)))
              (rw (stage_at_new st pw e) (stage_new-Tracks kv p st pw (omega arith) e h)))
    ]

pub hlc-stage :
    (st : Staged) (pw : Pending)
    → st.hlc + 1 < 2 ^ 64
    → (st.hlc ≤ (stage st pw).hlc) × ((stage st pw).hlc ≤ st.hlc + 1)
unfolding stage stage_new stage_known
hlc-stage st pw room = ground (arith, successor_below st.hlc)
