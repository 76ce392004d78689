-- ===== src/Truth.antt =====
-- src/truth.rs: the truth store, over the committer of `Wal.Commit`. A call that commits is a round
-- of the committer with that one request; larger batches are rounds of `Wal.Commit` themselves.
pub mod Visible
pub mod Mvcc
pub mod Single
pub mod Session
pub mod Known
pub mod Reopen
use grainstore.Base.{
  ℕ, ◌%◌, List, [], ◌∷◌, ◌++◌, Option, none, some, Bool, true, false, length, take, ltb, ◌==◌,
  if◌then◌else◌, compare, Ordering, eq,
}
use grainstore.Bytes.{from_be_bytes, bytes_cmp, starts_with}
use grainstore.Cdc
use grainstore.Cdc.{subscribe}
use grainstore.Error.{Result, ok, err, corrupt, closed, ◌>>=◌}
use grainstore.Hlc.{resume_from}
use grainstore.Keys.{grain_prefix, seek_target, t_tx_from_key, key_len, prefix_len}
use grainstore.Kv
use grainstore.Kv.{seek_ge, scan_all, grain_count, prefix_count}
use grainstore.Model.{Sid, PredId, Hlc, Grain, Val, bytes}
use grainstore.Recovery.{FileRead, contents, not_found, failed, Progress, recover}
use grainstore.Wal
use grainstore.Wal.{WriteReq, Value, decode_value, slice}
use grainstore.Wal.Commit.{Committer, Pending, Ack, WriteEnd, commit_batch}

pub data ReadMode : Type 0 where
  strong : ReadMode
  snapshot : Hlc → ReadMode

-- The store and its committer; `running` is false once the committer's thread has ended.
pub record TruthStore : Type 0 where
  pub committer : Committer
  pub running : Bool

bytes_of : FileRead → List ℕ
bytes_of (contents b) = b
bytes_of _ = []

start_committer : List ℕ → Option Progress → Option TruthStore
start_committer file none = none
start_committer file (some p) = some (record {
  committer = record {
    file = file;
    kv = p.kv;
    hlc = resume_from p.recovered.high_watermark;
    idem = p.recovered.idem;
    healthy = 0;
    cdc = Cdc.new;
  };
  running = true;
})

-- TruthStore::open, with what reading the log gave; the file is then opened for appending.
unfoldable pub open_store : FileRead → Result (Option TruthStore)
unfolding bytes_of start_committer
open_store read = do p ← recover Kv.new read; ok (start_committer (bytes_of read) p)

-- `self.cdc.subscribe()`
unfoldable pub subscribe_to : TruthStore → TruthStore
subscribe_to t = record t { committer = record t.committer { cdc = subscribe t.committer.cdc } }

-- `arx.recv()`: the first ack on the channel; without one the sender was dropped.
first_ack : ℕ → List Ack → Result ℕ
first_ack ch [] = err closed
first_ack ch ((c, answer) ∷ acks) = if c == ch then answer else first_ack ch acks

-- Wal::commit
unfoldable pub commit : TruthStore → WriteReq → WriteEnd → TruthStore × Result ℕ
unfolding first_ack commit_batch
commit t req end =
    let round = commit_batch t.committer (record { req = req; ack = 0 } ∷ []) end in
    if t.running
    then (record { committer = round.state; running = round.running }, first_ack 0 round.sent)
    else (t, err closed)

unfoldable pub put :
    TruthStore → Sid → PredId → List ℕ → ℕ → ℕ → ℕ → WriteEnd → TruthStore × Result Hlc
unfolding commit
put t sid pred val c t_valid idem_key end = commit t (Wal.put sid pred val c t_valid idem_key) end

unfoldable pub delete : TruthStore → Sid → PredId → ℕ → ℕ → ℕ → WriteEnd → TruthStore × Result Hlc
unfolding commit
delete t sid pred c t_valid idem_key end = commit t (Wal.delete sid pred c t_valid idem_key) end

abbrev or_zero : Option Hlc → Hlc
or_zero (some t) = t
or_zero none = 0

-- The grain that a reader gets of a decoded version.
grain_of : Sid → PredId → List ℕ → Value → Grain
grain_of sid pred key v = record {
  sid = sid;
  pred = pred;
  val = bytes v.val;
  c = v.c;
  t_valid = v.t_valid;
  t_tx = or_zero (t_tx_from_key key);
}

-- A version that was found: a tombstone shows as nothing.
unfoldable pub read_version : Sid → PredId → List ℕ → List ℕ → Result (Option Grain)
unfolding grain_of
read_version sid pred key value = elim (decode_value value) [
  | none ↦ err corrupt
  | some v ↦ if v.op == 1 then ok none else ok (some (grain_of sid pred key v))
]

unfoldable pub get_at : TruthStore → Sid → PredId → Hlc → Result (Option Grain)
unfolding read_version
get_at t sid pred snap = elim (seek_ge t.committer.kv (seek_target sid pred snap)) [
  | none ↦ ok none
  | some (key, value) ↦
      if starts_with key (grain_prefix sid pred) then read_version sid pred key value else ok none
]

unfoldable pub get : TruthStore → Sid → PredId → ReadMode → Result (Option Grain)
unfolding get_at
get t sid pred strong = get_at t sid pred t.committer.hlc
get t sid pred (snapshot ts) = get_at t sid pred ts

abbrev same_prefix : Option (List ℕ) → List ℕ → Bool
same_prefix none prefix = false
same_prefix (some last) prefix = elim (bytes_cmp last prefix) [ eq ↦ true | _ ↦ false ]

-- The loop of `scan_live`, with `last_prefix` and `out`.
scan_loop : Option (List ℕ) → List Grain → List (List ℕ × List ℕ) → Result (List Grain)
scan_loop last out [] = ok out
scan_loop last out ((k, v) ∷ rest) =
    let prefix = take prefix_len k in
    let skipped = scan_loop last out rest in
    let later = λ (o : Option Grain).
      scan_loop (some prefix) (elim o [ none ↦ out | some g ↦ out ++ (g ∷ []) ]) rest in
    if ltb (length k) key_len
    then skipped
    else if same_prefix last prefix
    then skipped
    else read_version (from_be_bytes (slice 0 16 k)) (from_be_bytes (slice 16 4 k)) k v >>= later

unfoldable pub scan_live : TruthStore → Result (List Grain)
unfolding scan_loop read_version
scan_live t = scan_loop none [] (scan_all t.committer.kv)

unfoldable pub now : TruthStore → Hlc
now t = t.committer.hlc

unfoldable pub total_versions : TruthStore → ℕ
total_versions t = grain_count t.committer.kv

unfoldable pub version_count : TruthStore → Sid → PredId → ℕ
version_count t sid pred = prefix_count t.committer.kv (grain_prefix sid pred)

unfoldable pub is_healthy : TruthStore → Bool
is_healthy t = t.committer.healthy == 0
