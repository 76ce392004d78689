-- ===== src/Truth/Reopen.antt =====
-- Opening a store again: after a clean end nothing is lost; behind a torn frame commits are.
use grainstore.Base.{
  ℕ, ◌+◌, ◌<◌, ◌≤◌, ◌^◌, ◌≡◌, refl, sym, ap, ◌∙◌, List, [], ◌++◌, Option, none, some, true, length,
  All, arith, append-nil, append_assoc, take,
}
use grainstore.Base.HashMap
use grainstore.Durability.{replayed}
use grainstore.Durability.Numbering.{IsHistory}
use grainstore.Error.{ok}
use grainstore.Hlc.{resume_from}
use grainstore.Kv
use grainstore.Recovery.{contents, recover, Progress}
use grainstore.Recovery.Replay.{replay_bytes-encode_frames}
use grainstore.Truth.{TruthStore, open_store, commit}
use grainstore.Truth.Single.{commit_answer, file_after}
use grainstore.Wal.{WalRecord, WriteReq, encode_frame, decode_frame}
use grainstore.Wal.Commit.{Committer, synced, record_of}
use grainstore.Wal.Frames.{encode_frames, decode_frame_tiny, decode_frame_torn, length-encode_frame}
use grainstore.Wal.RoundTrip.{IsRecord}

abbrev pub opened : List ℕ → Progress → TruthStore
opened file p = record {
  committer = record {
    file = file;
    kv = p.kv;
    hlc = p.recovered.high_watermark;
    idem = p.recovered.idem;
    healthy = 0;
    cdc = [];
  };
  running = true;
}

recover_frames :
    (log : List WalRecord) (tail : List ℕ)
    → All IsRecord log
    → decode_frame tail ≡ none
    → recover Kv.new (contents (encode_frames log ++ tail)) ≡ ok (some (replayed log))
unfolding recover
recover_frames log tail h e =
    ap (λ (o : Option Progress). ok o) (replay_bytes-encode_frames Kv.new log tail h e)

pub open_frames :
    (log : List WalRecord) (tail : List ℕ)
    → All IsRecord log
    → decode_frame tail ≡ none
    → open_store (contents (encode_frames log ++ tail))
      ≡ ok (some (opened (encode_frames log ++ tail) (replayed log)))
unfolding open_store resume_from
open_frames log tail h e = rw (recover_frames log tail h e)

-- Opening the file that a committer left after synced rounds gives a store with the same log, hence
-- the same reads, clock and idempotency map.
pub open_store-IsHistory :
    (log : List WalRecord) (s : Committer)
    → IsHistory log s
    → (t : TruthStore) × (open_store (contents s.file) ≡ ok (some t)) × IsHistory log t.committer
open_store-IsHistory log s h = (
  opened (encode_frames log) (replayed log),
  ap (λ (f : List ℕ). open_store (contents f))
        (h.of_log.file ∙ sym (append-nil (encode_frames log)))
      ∙ open_frames log [] h.of_log.records (decode_frame_tiny [] (omega arith))
      ∙ ap (λ (f : List ℕ). ok (some (opened f (replayed log)))) (append-nil (encode_frames log)),
  record {
    of_log = record {
      file = refl;
      records = h.of_log.records;
      grains = refl;
      clock = refl;
      idem = refl;
    };
    numbered = h.numbered;
  },
)

-- The torn tail of a log is not cut off when the store is opened, and new frames go behind it.
-- While they do not make up what the torn frame still lacks, a commit is acknowledged and yet no
-- recovery reads it: the file replays to the old log. The key is new, the records fit their fields,
-- and the clock stays below 2 ^ 64.
pub commit_behind_torn :
    (log : List WalRecord) (r : WalRecord) (n : ℕ) (t : TruthStore) (req : WriteReq)
    → All IsRecord log
    → IsRecord r
    → 4 ≤ n
    → n + (69 + length req.val) < length (encode_frame r)
    → open_store (contents (encode_frames log ++ take n (encode_frame r))) ≡ ok (some t)
    → t.committer.hlc + 1 < 2 ^ 64
    → HashMap.get req.idem_key t.committer.idem ≡ none
    → ((commit t req synced).1 ≡ ok (t.committer.hlc + 1))
      × (recover Kv.new (contents (commit t req synced).0.committer.file)
          ≡ ok (some (replayed log)))
commit_behind_torn log r n t req hl hr four short opening room fresh = (
  commit_answer t req room running fresh,
  rw file (recover_frames log (torn ++ encode_frame new) hl refused),
)
  where
    torn : List ℕ
    torn = take n (encode_frame r)

    new : WalRecord
    new = record_of (t.committer.hlc + 1) req

    t_eq : t ≡ opened (encode_frames log ++ torn) (replayed log)
    t_eq = cc (
      opening,
      open_frames log torn hl
          (rw append-nil at (decode_frame_torn r n [] hr four (omega arith) (omega arith))),
    )

    running : t.running ≡ true
    running = ap (λ (u : TruthStore). u.running) t_eq

    refused : decode_frame (torn ++ encode_frame new) ≡ none
    refused =
        decode_frame_torn r n (encode_frame new) hr four (omega (arith, length-encode_frame new))
          (omega arith)

    file : (commit t req synced).0.committer.file ≡ encode_frames log ++ (torn ++ encode_frame new)
    file =
        file_after t req room running fresh
        ∙ ap (λ (u : TruthStore). u.committer.file ++ encode_frame new) t_eq
        ∙ append_assoc (encode_frames log) torn (encode_frame new)
