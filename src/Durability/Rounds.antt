-- ===== src/Durability/Rounds.antt =====
-- Rounds of the committer: after each one that was synced the log replays to the state, and a
-- write that failed or was cut by a crash leaves the records whose frames are whole.
use mathlib.Core.List.{foldl-append}
use mathlib.Core.Path.{ap₂}
use grainstore.Base.{
  ℕ, ◌+◌, ◌<◌, ◌≤◌, ◌^◌, ◌≡◌, refl, sym, ap, map, ◌∙◌, List, [], ◌∷◌, ◌++◌, some, length, All,
  foldl, append_assoc, append-nil, arith, take, All-append, true, take-nil,
}
use grainstore.Kv
use grainstore.Kv.{MemKv, put_meta}
use grainstore.Recovery.{Progress, start, replay_record, replay_bytes}
use grainstore.Recovery.Replay.{
  intact, torn, take-encode_frames, torn-refused, intact-All, replay_bytes-encode_frames,
}
use grainstore.Wal.{WalRecord}
use grainstore.Wal.Commit.{
  Committer, Pending, WriteEnd, synced, failed, Staged, stage_start, stage, apply_puts, finish,
  abandon, write_buf, commit_batch, committer_loop,
}
use grainstore.Wal.RoundTrip.{IsRecord}
use grainstore.Wal.Frames.{encode_frames, encode_frames-append, decode_frame_tiny}
use grainstore.Durability.{AreRequests, replayed, IsLogOf}
use grainstore.Durability.Stage.{accepted, IsStaged, stage_all-IsStaged, hlc-stage}

-- The records that a round adds to the log.
unfoldable pub accepted_in : Committer → List Pending → List WalRecord
accepted_in s batch = accepted (stage_start s) batch

pub write_buf_synced :
    (buf : List ℕ) (s : Committer) (st : Staged) → write_buf buf s st synced ≡ finish s st buf
unfolding write_buf
write_buf_synced [] s st = refl
write_buf_synced (b ∷ bs) s st = refl

file-write_buf_failed :
    (buf : List ℕ) (s : Committer) (st : Staged) (n : ℕ)
    → (write_buf buf s st (failed n)).state.file ≡ s.file ++ take n buf
unfolding write_buf finish abandon
file-write_buf_failed [] s st n = ap (λ xs. s.file ++ xs) (sym (take-nil n))
file-write_buf_failed (b ∷ bs) s st n = refl

module _ (log : List WalRecord) (s : Committer) (batch : List Pending) where
  abbrev staged : Staged
  staged = foldl stage (stage_start s) batch

  module _ (h : IsLogOf log s) (reqs : AreRequests batch)
      (room : s.hlc + length batch < 2 ^ 64) where
    staged-IsStaged : IsStaged s.kv (replayed log) (stage_start s) (accepted_in s batch) staged
    unfolding accepted_in
    staged-IsStaged =
        stage_all-IsStaged s.kv (replayed log) (stage_start s) batch reqs room
          (record { grains = unfold apply_puts in h.grains; clock = h.clock; idem = h.idem })

    replayed-append :
        foldl replay_record (replayed log) (accepted_in s batch)
        ≡ replayed (log ++ accepted_in s batch)
    replayed-append = sym (foldl-append replay_record (start Kv.new) log (accepted_in s batch))

    -- A synced round extends the log by the accepted records, and the state is its replay again.
    pub commit_batch-IsLogOf :
        IsLogOf (log ++ accepted_in s batch) (commit_batch s batch synced).state
    unfolding commit_batch
    commit_batch-IsLogOf = rw (write_buf_synced staged.buf s staged) (
        unfold finish put_meta in
        record {
          file =
              ap₂ ◌++◌ h.file staged-IsStaged.buf
              ∙ sym (encode_frames-append log (accepted_in s batch));
          records = All-append IsRecord log (accepted_in s batch) h.records staged-IsStaged.records;
          grains = rw replayed-append at staged-IsStaged.tracks.grains;
          clock = rw replayed-append at staged-IsStaged.tracks.clock;
          idem = rw replayed-append at staged-IsStaged.tracks.idem;
        })

    -- When the write of a round fails, or the process dies in it, with `n` bytes of the buffer in
    -- the file, a recovery reads the old log and the accepted records whose frames are whole. The
    -- log replayed to the state before, requests fit their fields, and the clock stays below 2 ^
    -- 64.
    pub replay_bytes-commit_batch_failed :
        (n : ℕ)
        → replay_bytes Kv.new (commit_batch s batch (failed n)).state.file
          ≡ some (replayed (log ++ intact n (accepted_in s batch)))
    unfolding commit_batch
    replay_bytes-commit_batch_failed n =
        ap (replay_bytes Kv.new) file
        ∙ replay_bytes-encode_frames Kv.new (log ++ intact n recs) (torn n recs)
            (All-append IsRecord log (intact n recs) h.records
              (intact-All n recs staged-IsStaged.records))
            (torn-refused n recs staged-IsStaged.records)
      where
        recs : List WalRecord
        recs = accepted_in s batch

        file :
            (write_buf staged.buf s staged (failed n)).state.file
            ≡ encode_frames (log ++ intact n recs) ++ torn n recs
        file =
            file-write_buf_failed staged.buf s staged n
            ∙ ap₂ (λ a b. a ++ take n b) h.file staged-IsStaged.buf
            ∙ ap (λ b. encode_frames log ++ b) (take-encode_frames n recs)
            ∙ sym (append_assoc (encode_frames log) (encode_frames (intact n recs)) (torn n recs))
            ∙ ap (λ b. b ++ torn n recs) (sym (encode_frames-append log (intact n recs)))

-- The clock moves by at most one for each request.
hlc-stage_all :
    (st : Staged) (batch : List Pending)
    → st.hlc + length batch < 2 ^ 64
    → (foldl stage st batch).hlc ≤ st.hlc + length batch
hlc-stage_all st [] room = omega arith
hlc-stage_all st (pw ∷ rest) room =
    omega
      (arith, hlc-stage st pw, hlc-stage_all (stage st pw) rest (omega (arith, hlc-stage st pw)))

pub hlc-commit_batch :
    (s : Committer) (batch : List Pending)
    → s.hlc + length batch < 2 ^ 64
    → (commit_batch s batch synced).state.hlc ≤ s.hlc + length batch
unfolding commit_batch
hlc-commit_batch s batch room =
    rw
      (write_buf_synced (foldl stage (stage_start s) batch).buf s
        (foldl stage (stage_start s) batch))
      (unfold finish in hlc-stage_all (stage_start s) batch room)

commit_batch_running :
    (s : Committer) (batch : List Pending) → (commit_batch s batch synced).running ≡ true
unfolding commit_batch
commit_batch_running s batch =
    rw
      (write_buf_synced (foldl stage (stage_start s) batch).buf s
        (foldl stage (stage_start s) batch))
      (unfold finish in refl)

abbrev pub total : List (List Pending) → ℕ
total [] = 0
total (b ∷ bs) = length b + total bs

-- Rounds whose writes all succeed.
abbrev pub all_synced : List (List Pending) → List (List Pending × WriteEnd)
all_synced = map (λ b. (b, synced))

-- The log records of such rounds.
unfoldable pub accepted_over : Committer → List (List Pending) → List WalRecord
accepted_over s [] = []
accepted_over s (b ∷ bs) = accepted_in s b ++ accepted_over (commit_batch s b synced).state bs

committer_loop_synced :
    (s : Committer) (b : List Pending) (rest : List (List Pending × WriteEnd))
    → (committer_loop s ((b, synced) ∷ rest)).0
      ≡ (committer_loop (commit_batch s b synced).state rest).0
unfolding committer_loop
committer_loop_synced s b rest = rw (commit_batch_running s b, committer_loop)

-- However many batches are committed, the log is the old one with the accepted records behind it,
-- and the state is what it replays to. It was so before, requests fit their fields, and the clock
-- stays below 2 ^ 64.
pub committer_loop-IsLogOf :
    (log : List WalRecord) (s : Committer) (batches : List (List Pending))
    → IsLogOf log s
    → All AreRequests batches
    → s.hlc + total batches < 2 ^ 64
    → IsLogOf (log ++ accepted_over s batches) (committer_loop s (all_synced batches)).0
unfolding accepted_over
committer_loop-IsLogOf log s [] h reqs room = rw append-nil (unfold committer_loop in h)
committer_loop-IsLogOf log s (b ∷ bs) h reqs room =
    rw (committer_loop_synced s b (all_synced bs), ← append_assoc log (accepted_in s b) _)
      (committer_loop-IsLogOf (log ++ accepted_in s b) (commit_batch s b synced).state bs
        (commit_batch-IsLogOf log s b h reqs.0 (omega arith)) reqs.1
        (omega (arith, hlc-commit_batch s b (omega arith))))

-- A state from which a crash loses nothing.
pub record IsRecoverable (s : Committer) : Type 0 where
  pub progress : Progress
  pub replay : replay_bytes Kv.new s.file ≡ some progress
  pub grains : progress.kv.grains ≡ s.kv.grains
  pub clock : progress.recovered.high_watermark ≡ s.hlc
  pub idem : progress.recovered.idem ≡ s.idem

pub IsLogOf-IsRecoverable : (log : List WalRecord) (s : Committer) → IsLogOf log s → IsRecoverable s
IsLogOf-IsRecoverable log s h = record {
  progress = replayed log;
  replay =
      ap (replay_bytes Kv.new) (h.file ∙ sym (append-nil (encode_frames log)))
      ∙ replay_bytes-encode_frames Kv.new log [] h.records (decode_frame_tiny [] (omega arith));
  grains = h.grains;
  clock = h.clock;
  idem = h.idem;
}

-- A crash loses no synced commit: after any number of synced batches, from a state whose log
-- replays to it, a recovery of the file gives back the grains, the clock and the idempotency map.
-- Requests fit their fields, and the clock stays below 2 ^ 64.
pub committer_loop-IsRecoverable :
    (log : List WalRecord) (s : Committer) (batches : List (List Pending))
    → IsLogOf log s
    → All AreRequests batches
    → s.hlc + total batches < 2 ^ 64
    → IsRecoverable (committer_loop s (all_synced batches)).0
committer_loop-IsRecoverable log s batches h reqs room =
    IsLogOf-IsRecoverable (log ++ accepted_over s batches) _
      (committer_loop-IsLogOf log s batches h reqs room)
