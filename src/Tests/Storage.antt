-- ===== src/Tests/Storage.antt =====
-- Keys, the store of versions, the log's records and its recovery, at concrete inputs.
use grainstore.Base.{ℕ, ◌<◌, ◌≡◌, [], ◌∷◌, ◌++◌, some, length, arith, take, foldl}
use grainstore.Keys.Order.{IsKey}
use grainstore.Kv
use grainstore.Kv.{MemKv, put_grain, seek_ge}
use grainstore.Kv.Laws.{IsSorted, IsLeast, put_grain-IsSorted, seek_ge-IsLeast}
use grainstore.Recovery.{start, replay_record, replay_bytes}
use grainstore.Recovery.Replay.{intact, replay_bytes-take}
use grainstore.Tests.Fixtures.{one_record, one_record-IsRecord}
use grainstore.Wal.{encode_frame, decode_frame}
use grainstore.Wal.Frames.{encode_frames, decode_frame-encode_frame}

small-IsKey : (s p t : ℕ) → s < 100 → p < 100 → t < 100 → IsKey s p t
small-IsKey s p t hs hp ht = record {
  sid_fits = omega arith;
  pred_fits = omega arith;
  t_fits = omega arith;
}

abbrev two_versions : MemKv
two_versions = put_grain (put_grain Kv.new (1 ∷ 2 ∷ []) (8 ∷ [])) (1 ∷ 1 ∷ []) (9 ∷ [])

one-IsSorted : IsSorted (put_grain Kv.new (1 ∷ 2 ∷ []) (8 ∷ [])).grains
one-IsSorted = put_grain-IsSorted Kv.new (1 ∷ 2 ∷ []) (8 ∷ []) tt

two-IsSorted : IsSorted two_versions.grains
two-IsSorted = put_grain-IsSorted _ (1 ∷ 1 ∷ []) (9 ∷ []) one-IsSorted

seek_ge-IsLeast_example :
    IsLeast two_versions.grains (1 ∷ 1 ∷ 0 ∷ []) (seek_ge two_versions (1 ∷ 1 ∷ 0 ∷ []))
seek_ge-IsLeast_example = seek_ge-IsLeast two_versions (1 ∷ 1 ∷ 0 ∷ []) two-IsSorted

decode_frame-encode_frame_example :
    decode_frame (encode_frame one_record ++ (1 ∷ 2 ∷ []))
    ≡ some (one_record, length (encode_frame one_record))
decode_frame-encode_frame_example =
    decode_frame-encode_frame one_record one_record-IsRecord (1 ∷ 2 ∷ [])

replay_bytes-take_example :
    replay_bytes Kv.new (take 100 (encode_frames (one_record ∷ one_record ∷ [])))
    ≡ some (foldl replay_record (start Kv.new) (intact 100 (one_record ∷ one_record ∷ [])))
replay_bytes-take_example =
    replay_bytes-take Kv.new 100 (one_record ∷ one_record ∷ [])
      (one_record-IsRecord, (one_record-IsRecord, tt))
