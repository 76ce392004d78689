-- ===== src/Tests/Store.antt =====
-- The committer, the truth store and its reopening, at concrete inputs.
use grainstore.Base.{◌≡◌, refl, [], ◌∷◌, ◌++◌, none, some, All, true, arith, take, append-nil}
use grainstore.Base.HashMap
use grainstore.Cdc
use grainstore.Cdc.{CdcRecord, Channel, publish_all, subscribe}
use grainstore.Cdc.Delivery.{delivered, publish_all-delivered}
use grainstore.Durability.{IsRequest, replayed}
use grainstore.Durability.Acks.{Answered, commit_batch-Answered, early_ack}
use grainstore.Durability.Numbering.{IsHistory}
use grainstore.Durability.Rounds.{
  accepted_in, all_synced, IsRecoverable, committer_loop-IsRecoverable,
  replay_bytes-commit_batch_failed,
}
use grainstore.Error.{ok, err, io}
use grainstore.Hlc.Contention.{
  Oracle, resumed, load, exchanged, failed as lost, Reach, here, update, next, IsCounted,
  Reach-IsCounted,
}
use grainstore.Hlc.{successor}
use grainstore.Kv
use grainstore.Model.{bytes}
use grainstore.Recovery.{contents, recover, replay_bytes}
use grainstore.Recovery.Replay.{intact}
use grainstore.Tests.Fixtures.{
  empty, empty-IsHistory, empty_store, first_put, first_put-IsRequest, first_request, retry, batch,
  batch-AreRequests, committed, log, committed-IsHistory, store, one_record,
}
use grainstore.Truth.{TruthStore, open_store, commit, put, get_at, get, strong}
use grainstore.Truth.Mvcc.{answer, get_at-visible}
use grainstore.Truth.Reopen.{opened, open_frames, open_store-IsHistory, commit_behind_torn}
use grainstore.Truth.Session.{with_committer, get_at-commit_batch, get-put, commit_retry}
use grainstore.Truth.Visible.{visible}
use grainstore.Wal
use grainstore.Wal.{WalRecord, encode_frame}
use grainstore.Wal.Commit.{synced, failed, record_of, commit_batch, committer_loop}
use grainstore.Wal.Frames.{encode_frames, decode_frame_torn, length-encode_frame}
use grainstore.Wal.RoundTrip.{IsRecord}

committer_loop-IsRecoverable_example :
    IsRecoverable (committer_loop empty (all_synced (batch ∷ batch ∷ []))).0
committer_loop-IsRecoverable_example =
    committer_loop-IsRecoverable [] empty (batch ∷ batch ∷ []) empty-IsHistory.of_log
      (batch-AreRequests, (batch-AreRequests, tt)) (omega arith)

replay_bytes-commit_batch_failed_example :
    replay_bytes Kv.new (commit_batch empty batch (failed 100)).state.file
    ≡ some (replayed ([] ++ intact 100 (accepted_in empty batch)))
replay_bytes-commit_batch_failed_example =
    replay_bytes-commit_batch_failed [] empty batch empty-IsHistory.of_log batch-AreRequests
      (omega arith) 100

commit_batch-Answered_example :
    All
      (Answered (commit_batch empty batch synced).state (commit_batch empty batch synced).sent)
      batch
commit_batch-Answered_example = commit_batch-Answered empty batch

early_ack_example :
    ((commit_batch empty (first_request ∷ retry ∷ []) (failed 3)).sent
      ≡ (1, ok 1) ∷ (0, err io) ∷ [])
    × ((commit_batch empty (first_request ∷ retry ∷ []) (failed 3)).state.file
        ≡ [] ++ take 3 (encode_frame (record_of 1 first_put)))
unfolding HashMap.get
early_ack_example = early_ack empty first_request retry 3 (omega arith) refl refl

get_at-visible_example : get_at store 7 1 1 ≡ ok (answer (visible 7 1 1 none log))
get_at-visible_example =
    get_at-visible store 7 1 1
      (record { sid_fits = omega arith; pred_fits = omega arith; t_fits = omega arith }) log
      committed-IsHistory

get-put_example :
    ((put empty_store 7 1 (10 ∷ 20 ∷ []) 1065353216 5 100 synced).1 ≡ ok 1)
    × (get (put empty_store 7 1 (10 ∷ 20 ∷ []) 1065353216 5 100 synced).0 7 1 strong
        ≡ ok (
            some (record {
              sid = 7;
              pred = 1;
              val = bytes (10 ∷ 20 ∷ []);
              c = 1065353216;
              t_valid = 5;
              t_tx = 1;
            })))
unfolding HashMap.get
get-put_example =
    get-put empty_store [] 7 1 (10 ∷ 20 ∷ []) 1065353216 5 100 empty-IsHistory first_put-IsRequest
      (omega arith) refl refl

delete-IsRequest : IsRequest (Wal.delete 7 1 0 0 102)
unfolding Wal.delete
delete-IsRequest = record {
  sid_fits = omega arith;
  pred_fits = omega arith;
  op_fits = omega arith;
  c_fits = omega arith;
  t_valid_fits = omega arith;
  idem_fits = omega arith;
  len_fits = omega arith;
}

get_at-commit_batch_example :
    get_at (with_committer empty_store (commit_batch empty batch synced).state) 7 1 0
    ≡ get_at empty_store 7 1 0
get_at-commit_batch_example =
    get_at-commit_batch empty_store [] empty-IsHistory batch 7 1 0 batch-AreRequests (omega arith)
      (record { sid_fits = omega arith; pred_fits = omega arith; t_fits = omega arith })
      (omega arith)

-- A store that knows the key of `first_put`.
abbrev known : TruthStore
known = record {
  committer = record {
    file = 1 ∷ [];
    kv = Kv.new;
    hlc = 4;
    idem = (100, 3) ∷ [];
    healthy = 0;
    cdc = Cdc.new;
  };
  running = true;
}

commit_retry_example :
    ((commit known first_put synced).1 ≡ ok 3)
    × ((commit known first_put synced).0.running ≡ true)
    × ((commit known first_put synced).0.committer.file ≡ 1 ∷ [])
    × ((commit known first_put synced).0.committer.kv.grains ≡ [])
    × ((commit known first_put synced).0.committer.hlc ≡ 4)
    × ((commit known first_put synced).0.committer.idem ≡ (100, 3) ∷ [])
unfolding HashMap.get Wal.put
commit_retry_example = commit_retry known first_put 3 synced refl refl

open_store-IsHistory_example :
    (t : TruthStore) × (open_store (contents committed.file) ≡ ok (some t))
    × IsHistory log t.committer
open_store-IsHistory_example = open_store-IsHistory log committed committed-IsHistory

-- Two threads, of which the second loses its exchange to the first.
abbrev raced : Oracle
raced = record {
  last = 10;
  prev = update (update (update (update (λ _. none) 0 (some 9)) 1 (some 9)) 0 none) 1 (some 10);
  issued = 10 ∷ [];
}

race : Reach (resumed 9) raced
unfolding successor
race =
    next (next (next (next here (load _ 0)) (load _ 1)) (exchanged _ 0 9 refl refl))
      (lost _ 1 9 refl)

Reach-IsCounted_example : IsCounted 9 raced
Reach-IsCounted_example = Reach-IsCounted 9 race (omega arith)

abbrev change : CdcRecord
change = record { sid = 7; pred = 1; seq = 1; op = 0; val = 10 ∷ [] }

publish_all-delivered_example :
    publish_all (record { live = true; sent = [] } ∷ []) (change ∷ change ∷ [])
    ≡ delivered (record { live = true; sent = [] } ∷ []) (change ∷ change ∷ [])
publish_all-delivered_example =
    publish_all-delivered (record { live = true; sent = [] } ∷ []) change (change ∷ [])

-- A record with a longer value, of whose frame only the length field was written.
abbrev long_record : WalRecord
long_record = record one_record { val = 0 ∷ 1 ∷ 2 ∷ 3 ∷ 4 ∷ 5 ∷ 6 ∷ 7 ∷ 8 ∷ 9 ∷ [] }

long_record-IsRecord : IsRecord long_record
long_record-IsRecord = record {
  seq_fits = omega arith;
  sid_fits = omega arith;
  pred_fits = omega arith;
  op_fits = omega arith;
  c_fits = omega arith;
  t_valid_fits = omega arith;
  idem_fits = omega arith;
  len_fits = omega arith;
}

abbrev torn_store : TruthStore
torn_store = opened (encode_frames [] ++ take 4 (encode_frame long_record)) (replayed [])

torn_store-open :
    open_store (contents (encode_frames [] ++ take 4 (encode_frame long_record)))
    ≡ ok (some torn_store)
torn_store-open = open_frames [] (take 4 (encode_frame long_record)) tt (
    rw append-nil at (
      decode_frame_torn long_record 4 [] long_record-IsRecord (omega arith)
        (omega (arith, length-encode_frame long_record))
        (omega (arith, length-encode_frame long_record))))

commit_behind_torn_example :
    ((commit torn_store first_put synced).1 ≡ ok 1)
    × (recover Kv.new (contents (commit torn_store first_put synced).0.committer.file)
        ≡ ok (some (replayed [])))
unfolding HashMap.get Wal.put
commit_behind_torn_example =
    commit_behind_torn [] long_record 4 torn_store first_put tt long_record-IsRecord (omega arith)
      (omega (arith, length-encode_frame long_record)) torn_store-open (omega arith) refl
