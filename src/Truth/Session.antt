-- ===== src/Truth/Session.antt =====
-- Commits and the reads after them: snapshots do not move, a client reads its own writes, and a
-- retried request is answered without writing.
use grainstore.Base.{
  ℕ, ◌+◌, ◌<◌, ◌≤◌, ◌^◌, ◌≡◌, refl, sym, ap, ◌∙◌, List, [], ◌∷◌, ◌++◌, Option, none, some, true,
  false, length, arith, if◌then◌else◌, subst, append-nil,
}
use grainstore.Base.HashMap
use grainstore.Durability.{IsRequest, AreRequests}
use grainstore.Durability.Numbering.{
  IsHistory, IsNumbered, commit_batch-IsHistory, accepted_in-IsNumbered,
}
use grainstore.Durability.Rounds.{accepted_in}
use grainstore.Durability.Stage.{stage_at_known}
use grainstore.Error.{ok, err, closed}
use grainstore.Keys.Order.{IsKey}
use grainstore.Kv.{put_meta}
use grainstore.Model.{Sid, PredId, Hlc, bytes}
use grainstore.Truth.{TruthStore, strong, get_at, get, put, delete, commit}
use grainstore.Truth.Mvcc.{answer, get_at-visible}
use grainstore.Truth.Single.{one, rec, accepted_one, commit_answer, commit_state, hlc_after}
use grainstore.Truth.Visible.{visible, covers}
use grainstore.Wal
use grainstore.Wal.{WalRecord, WriteReq}
use grainstore.Wal.Commit.{
  Committer, Pending, WriteEnd, synced, commit_batch, stage_start, stage, stage_known, Staged,
  write_buf, finish, apply_puts,
}

visible-append :
    (sid : Sid) (pred : PredId) (snapshot : Hlc) (found : Option WalRecord) (a b : List WalRecord)
    → visible sid pred snapshot found (a ++ b)
      ≡ visible sid pred snapshot (visible sid pred snapshot found a) b
unfolding visible
visible-append sid pred snapshot found [] b = refl
visible-append sid pred snapshot found (r ∷ a) b =
    visible-append sid pred snapshot (if covers sid pred snapshot r then some r else found) a b

visible_later :
    (sid : Sid) (pred : PredId) (snapshot n : ℕ) (found : Option WalRecord) (recs : List WalRecord)
    → snapshot ≤ n
    → IsNumbered n recs
    → visible sid pred snapshot found recs ≡ found
unfolding visible
visible_later sid pred snapshot n found [] h num = refl
visible_later sid pred snapshot n found (r ∷ rs) h num =
    ap (λ (o : Option WalRecord). visible sid pred snapshot o rs) {y = found} (ground arith)
    ∙ visible_later sid pred snapshot (n + 1) found rs (omega arith) num.1

abbrev pub with_committer : TruthStore → Committer → TruthStore
with_committer t s = record t { committer = s }

module _ (t : TruthStore) (log : List WalRecord) (h : IsHistory log t.committer) where
  -- A read at a snapshot that is not in the future gives the same before and after any batch. The
  -- log replays to the store, requests and the key fit their fields, and the clock stays below 2 ^
  -- 64.
  pub get_at-commit_batch :
      (batch : List Pending) (sid : Sid) (pred : PredId) (snapshot : Hlc)
      → AreRequests batch
      → t.committer.hlc + length batch < 2 ^ 64
      → IsKey sid pred snapshot
      → snapshot ≤ t.committer.hlc
      → get_at (with_committer t (commit_batch t.committer batch synced).state) sid pred snapshot
        ≡ get_at t sid pred snapshot
  get_at-commit_batch batch sid pred snapshot reqs room fits past =
      get_at-visible (with_committer t (commit_batch t.committer batch synced).state) sid pred
        snapshot fits (log ++ recs) (commit_batch-IsHistory log t.committer batch h reqs room)
      ∙ ap (λ (o : Option WalRecord). ok (answer o))
          (visible-append sid pred snapshot none log recs
            ∙ visible_later sid pred snapshot t.committer.hlc _ recs past
                (accepted_in-IsNumbered log t.committer batch room))
      ∙ sym (get_at-visible t sid pred snapshot fits log h)
    where
      recs : List WalRecord
      recs = accepted_in t.committer batch

  module _ (req : WriteReq) (valid : IsRequest req) (room : t.committer.hlc + 1 < 2 ^ 64)
      (running : t.running ≡ true) (fresh : HashMap.get req.idem_key t.committer.idem ≡ none) where
    IsHistory-after :
        IsHistory (log ++ (rec t req room running fresh ∷ [])) (commit t req synced).0.committer
    IsHistory-after = rw (commit_state t req room running fresh) (
        subst
          (λ (recs : List WalRecord).
            IsHistory (log ++ recs)
              (commit_batch t.committer (one t req room running fresh) synced).state)
          (accepted_one t req room running fresh)
          (commit_batch-IsHistory log t.committer (one t req room running fresh) h (valid, tt)
            room))

    -- A committed request is what a strong read of its pair shows next.
    commit_read :
        get (commit t req synced).0 req.sid req.pred strong
        ≡ ok (answer (some (rec t req room running fresh)))
    unfolding get
    commit_read =
        let later = hlc_after t req room running fresh in
        get_at-visible (commit t req synced).0 req.sid req.pred
          (commit t req synced).0.committer.hlc
          (record {
            sid_fits = valid.sid_fits;
            pred_fits = valid.pred_fits;
            t_fits = omega (arith, later);
          })
          (log ++ (rec t req room running fresh ∷ [])) IsHistory-after
        ∙ ap (λ (o : Option WalRecord). ok (answer o)) {y = some (rec t req room running fresh)}
            (visible-append req.sid req.pred (commit t req synced).0.committer.hlc none log
                (rec t req room running fresh ∷ [])
              ∙ unfold visible in ground (arith, later))

-- A client reads its own write: after a synced put with a new key, on a running store, the answer
-- is the next commit time, and a strong read returns the grain that was put, at that time. The log
-- replays to the store, the request fits its fields, and the clock stays below 2 ^ 64.
pub get-put :
    (t : TruthStore) (log : List WalRecord) (sid : Sid) (pred : PredId) (val : List ℕ)
    (c t_valid idem_key : ℕ)
    → IsHistory log t.committer
    → IsRequest (Wal.put sid pred val c t_valid idem_key)
    → t.committer.hlc + 1 < 2 ^ 64
    → t.running ≡ true
    → HashMap.get idem_key t.committer.idem ≡ none
    → ((put t sid pred val c t_valid idem_key synced).1 ≡ ok (t.committer.hlc + 1))
      × (get (put t sid pred val c t_valid idem_key synced).0 sid pred strong
          ≡ ok (
              some (record {
                sid = sid;
                pred = pred;
                val = bytes val;
                c = c;
                t_valid = t_valid;
                t_tx = t.committer.hlc + 1;
              })))
unfolding put Wal.put
get-put t log sid pred val c t_valid idem_key h valid room running fresh =
    let req = Wal.put sid pred val c t_valid idem_key in
    (commit_answer t req room running fresh, commit_read t log h req valid room running fresh)

-- After a synced delete with a new key a strong read of the pair returns nothing. The store is
-- running, its log replays to it, the request fits its fields, and the clock stays below 2 ^ 64.
pub get-delete :
    (t : TruthStore) (log : List WalRecord) (sid : Sid) (pred : PredId) (c t_valid idem_key : ℕ)
    → IsHistory log t.committer
    → IsRequest (Wal.delete sid pred c t_valid idem_key)
    → t.committer.hlc + 1 < 2 ^ 64
    → t.running ≡ true
    → HashMap.get idem_key t.committer.idem ≡ none
    → ((delete t sid pred c t_valid idem_key synced).1 ≡ ok (t.committer.hlc + 1))
      × (get (delete t sid pred c t_valid idem_key synced).0 sid pred strong ≡ ok none)
unfolding delete Wal.delete
get-delete t log sid pred c t_valid idem_key h valid room running fresh =
    let req = Wal.delete sid pred c t_valid idem_key in
    (commit_answer t req room running fresh, commit_read t log h req valid room running fresh)

-- A request whose key was committed before is answered with the original commit time on a running
-- store, and changes neither the file, nor the grains, nor the clock, nor the map of keys, whatever
-- the request holds and however a write would end.
pub commit_retry :
    (t : TruthStore) (req : WriteReq) (orig : ℕ) (end : WriteEnd)
    → t.running ≡ true
    → HashMap.get req.idem_key t.committer.idem ≡ some orig
    → ((commit t req end).1 ≡ ok orig)
      × ((commit t req end).0.running ≡ true)
      × ((commit t req end).0.committer.file ≡ t.committer.file)
      × ((commit t req end).0.committer.kv.grains ≡ t.committer.kv.grains)
      × ((commit t req end).0.committer.hlc ≡ t.committer.hlc)
      × ((commit t req end).0.committer.idem ≡ t.committer.idem)
unfolding commit
commit_retry t req orig end running known = rw running (
    rw round (
      unfold finish stage_known apply_puts put_meta in
      (refl, refl, append-nil t.committer.file, refl, refl, refl)))
  where
    pw : Pending
    pw = record { req = req; ack = 0 }

    known_stage : stage (stage_start t.committer) pw ≡ stage_known (stage_start t.committer) pw orig
    known_stage = stage_at_known (stage_start t.committer) pw orig known

    round :
        commit_batch t.committer (pw ∷ []) end
        ≡ finish t.committer (stage_known (stage_start t.committer) pw orig) []
    round =
        ap (λ (st : Staged). write_buf st.buf t.committer st end) known_stage
        ∙ unfold stage_known write_buf in refl

-- A store whose committer has ended refuses every commit and stays as it is.
pub commit_closed :
    (t : TruthStore) (req : WriteReq) (end : WriteEnd)
    → t.running ≡ false
    → commit t req end ≡ (t, err closed)
unfolding commit
commit_closed t req end stopped = rw stopped
