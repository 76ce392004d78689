-- ===== src/Recovery.antt =====
-- src/recovery.rs: rebuilding the store, the clock and the idempotency map from the log.
pub mod Replay
use grainstore.Base.{ℕ, zero, suc, ◌+◌, List, [], Option, none, some, length, drop, max}
use grainstore.Base.HashMap.{or_insert}
use grainstore.Error.{Error, Result, ok, err, io}
use grainstore.Keys.{grain_key}
use grainstore.Kv.{MemKv, put_grain}
use grainstore.Wal.{WalRecord, encode_value, decode_frame}

pub record Recovered : Type 0 where
  pub high_watermark : ℕ
  pub idem : List (ℕ × ℕ)
  pub frames : ℕ

-- What `std::fs::read` answers.
pub data FileRead : Type 0 where
  contents : List ℕ → FileRead
  not_found failed : FileRead

-- The store that is filled, beside the variables of the loop.
pub record Progress : Type 0 where
  pub kv : MemKv
  pub recovered : Recovered

abbrev pub start : MemKv → Progress
start kv = record { kv = kv; recovered = record { high_watermark = 0; idem = []; frames = 0 } }

-- The body of the loop for one intact frame.
unfoldable pub replay_record : Progress → WalRecord → Progress
replay_record p rec = record {
  kv =
      put_grain p.kv (grain_key rec.sid rec.pred rec.seq)
        (encode_value rec.op rec.val rec.c rec.t_valid);
  recovered = record {
    high_watermark = max p.recovered.high_watermark rec.seq;
    idem = or_insert rec.idem_key rec.seq p.recovered.idem;
    frames = p.recovered.frames + 1;
  };
}

-- The loop on the bytes from `off` on; `none` means that the fuel ran out.
unfoldable pub replay_loop : ℕ → List ℕ → Progress → Option Progress
replay_loop zero bytes p = none
replay_loop (suc fuel) bytes p = elim (decode_frame bytes) [
  | none ↦ some p
  | some (rec, n) ↦ replay_loop fuel (drop n bytes) (replay_record p rec)
]

-- A frame has at least eight bytes, so a round for each byte and a last one are enough.
unfoldable pub replay_bytes : MemKv → List ℕ → Option Progress
unfolding replay_loop
replay_bytes kv bytes = replay_loop (suc (length bytes)) bytes (start kv)

unfoldable pub recover : MemKv → FileRead → Result (Option Progress)
unfolding replay_bytes
recover kv (contents bytes) = ok (replay_bytes kv bytes)
recover kv not_found = ok (replay_bytes kv [])
recover kv failed = err io
