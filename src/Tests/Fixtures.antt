-- ===== src/Tests/Fixtures.antt =====
-- The data of the tests: a log of two commits, with a retry, and the store on it.
use grainstore.Base.{refl, List, [], ◌∷◌, ◌++◌, arith, true}
use grainstore.Cdc
use grainstore.Durability.{IsRequest, AreRequests}
use grainstore.Durability.Numbering.{IsHistory, commit_batch-IsHistory}
use grainstore.Durability.Rounds.{accepted_in}
use grainstore.Kv
use grainstore.Truth.{TruthStore}
use grainstore.Wal
use grainstore.Wal.{WriteReq, WalRecord}
use grainstore.Wal.Commit.{Committer, Pending, synced, commit_batch}
use grainstore.Wal.Frames.{encode_frames}
use grainstore.Wal.RoundTrip.{IsRecord}

-- A committer on an empty file.
abbrev pub empty : Committer
empty = record { file = []; kv = Kv.new; hlc = 0; idem = []; healthy = 0; cdc = Cdc.new }

pub empty-IsHistory : IsHistory [] empty
unfolding encode_frames
empty-IsHistory = record {
  of_log = record { file = refl; records = tt; grains = refl; clock = refl; idem = refl };
  numbered = tt;
}

abbrev pub first_put : WriteReq
first_put = Wal.put 7 1 (10 ∷ 20 ∷ []) 1065353216 5 100

abbrev pub second_put : WriteReq
second_put = Wal.put 7 1 (30 ∷ []) 1065353216 6 101

abbrev pub first_request : Pending
first_request = record { req = first_put; ack = 0 }

abbrev pub retry : Pending
retry = record { req = first_put; ack = 1 }

-- Two puts to one pair and a retry of the first.
abbrev pub batch : List Pending
batch = first_request ∷ record { req = second_put; ack = 2 } ∷ retry ∷ []

pub first_put-IsRequest : IsRequest first_put
unfolding Wal.put
first_put-IsRequest = record {
  sid_fits = omega arith;
  pred_fits = omega arith;
  op_fits = omega arith;
  c_fits = omega arith;
  t_valid_fits = omega arith;
  idem_fits = omega arith;
  len_fits = omega arith;
}

pub second_put-IsRequest : IsRequest second_put
unfolding Wal.put
second_put-IsRequest = record {
  sid_fits = omega arith;
  pred_fits = omega arith;
  op_fits = omega arith;
  c_fits = omega arith;
  t_valid_fits = omega arith;
  idem_fits = omega arith;
  len_fits = omega arith;
}

pub batch-AreRequests : AreRequests batch
batch-AreRequests = (first_put-IsRequest, (second_put-IsRequest, (first_put-IsRequest, tt)))

-- The state after the batch.
abbrev pub committed : Committer
committed = (commit_batch empty batch synced).state

abbrev pub log : List WalRecord
log = [] ++ accepted_in empty batch

pub committed-IsHistory : IsHistory log committed
committed-IsHistory =
    commit_batch-IsHistory [] empty batch empty-IsHistory batch-AreRequests (omega arith)

abbrev pub empty_store : TruthStore
empty_store = record { committer = empty; running = true }

abbrev pub store : TruthStore
store = record { committer = committed; running = true }

abbrev pub one_record : WalRecord
one_record = record {
  seq = 1;
  sid = 7;
  pred = 1;
  op = 0;
  c = 1065353216;
  t_valid = 5;
  idem_key = 100;
  val = 10 ∷ 20 ∷ [];
}

pub one_record-IsRecord : IsRecord one_record
one_record-IsRecord = record {
  seq_fits = omega arith;
  sid_fits = omega arith;
  pred_fits = omega arith;
  op_fits = omega arith;
  c_fits = omega arith;
  t_valid_fits = omega arith;
  idem_fits = omega arith;
  len_fits = omega arith;
}
