-- ===== src/Durability.antt =====
-- src/wal.rs with src/recovery.rs: what the committer writes is what a recovery reads. The log is
-- followed as the list of its records, which the program does not keep.
pub mod Stage
pub mod Rounds
pub mod Numbering
pub mod Acks
use grainstore.Base.{ℕ, ◌+◌, ◌<◌, ◌≡◌, List, length, All, foldl}
use grainstore.Kv
use grainstore.Kv.{MemKv}
use grainstore.Model.{IsU8, IsU32, IsU64, IsU128}
use grainstore.Recovery.{Progress, start, replay_record}
use grainstore.Wal.{WriteReq, WalRecord}
use grainstore.Wal.Commit.{Committer, Pending}
use grainstore.Wal.RoundTrip.{IsRecord}
use grainstore.Wal.Frames.{encode_frames}

-- The fields of a request fit their Rust types, and its value the length field of a frame.
pub record IsRequest (q : WriteReq) : Type 0 where
  pub sid_fits : IsU128 q.sid
  pub pred_fits : IsU32 q.pred
  pub op_fits : IsU8 q.op
  pub c_fits : IsU32 q.c
  pub t_valid_fits : IsU64 q.t_valid
  pub idem_fits : IsU128 q.idem_key
  pub len_fits : IsU32 (61 + length q.val)

abbrev pub AreRequests : List Pending → Type 0
AreRequests = All (λ pw. IsRequest pw.req)

-- A recovery from an empty store that has read the records of `log`.
abbrev pub replayed : List WalRecord → Progress
replayed = foldl replay_record (start Kv.new)

-- The file is the frames of `log`, and store, clock and idempotency map are what they replay to.
pub record IsLogOf (log : List WalRecord) (s : Committer) : Type 0 where
  pub file : s.file ≡ encode_frames log
  pub records : All IsRecord log
  pub grains : (replayed log).kv.grains ≡ s.kv.grains
  pub clock : (replayed log).recovered.high_watermark ≡ s.hlc
  pub idem : (replayed log).recovered.idem ≡ s.idem
