-- ===== src/Wal/Commit.antt =====
-- src/wal.rs: the committer. One round of its loop takes the batch that is waiting, and the
-- environment decides how the write of the batch ends.

use grainstore.Base.{ℕ, List, [], ◌∷◌, ◌++◌, none, some, Bool, true, false, foldl, map, max, take}
use grainstore.Base.HashMap
use grainstore.Bytes.{be_bytes}
use grainstore.Cdc.{CdcPublisher, CdcRecord, publish_all}
use grainstore.Error.{Result, ok, err, io}
use grainstore.Hlc.{successor}
use grainstore.Keys.{grain_key}
use grainstore.Kv.{MemKv, put_grain, put_meta}
use grainstore.Wal.{WriteReq, WalRecord, encode_value, encode_frame}

-- b"applied_seq"
abbrev pub meta_applied_seq : List ℕ
meta_applied_seq = b'a' ∷ b'p' ∷ b'p' ∷ b'l' ∷ b'i' ∷ b'e' ∷ b'd' ∷ b'_' ∷ b's' ∷ b'e' ∷ b'q' ∷ []

-- A request with the channel that its ack goes to.
pub record Pending : Type 0 where
  pub req : WriteReq
  pub ack : ℕ

-- An ack that was sent: the channel, and the answer.
abbrev pub Ack : Type 0
Ack = ℕ × Result ℕ

-- What the committer owns or shares: the log file, the store, the clock, the idempotency map, the
-- health flag (0 is healthy) and the change stream.
pub record Committer : Type 0 where
  pub file : List ℕ
  pub kv : MemKv
  pub hlc : ℕ
  pub idem : List (ℕ × ℕ)
  pub healthy : ℕ
  pub cdc : CdcPublisher

-- How `write_all` and `sync_all` end: all is on disk, or an error came when the first `n` bytes of
-- the buffer had reached the file.
pub data WriteEnd : Type 0 where
  synced : WriteEnd
  failed : ℕ → WriteEnd

-- The variables of a round while the batch is gone through. `sent` has the acks sent so far.
pub record Staged : Type 0 where
  pub hlc : ℕ
  pub idem : List (ℕ × ℕ)
  pub buf : List ℕ
  pub puts : List (List ℕ × List ℕ)
  pub acks : List (ℕ × ℕ)
  pub cdc_recs : List CdcRecord
  pub max_seq : ℕ
  pub sent : List Ack

abbrev pub stage_start : Committer → Staged
stage_start s = record {
  hlc = s.hlc;
  idem = s.idem;
  buf = [];
  puts = [];
  acks = [];
  cdc_recs = [];
  max_seq = s.hlc;
  sent = [];
}

abbrev pub record_of : ℕ → WriteReq → WalRecord
record_of seq req = record {
  seq = seq;
  sid = req.sid;
  pred = req.pred;
  op = req.op;
  c = req.c;
  t_valid = req.t_valid;
  idem_key = req.idem_key;
  val = req.val;
}

-- A request with a new idempotency key.
unfoldable pub stage_new : Staged → Pending → Staged
stage_new st pw =
    let req = pw.req in
    let seq = successor st.hlc in
    record {
      hlc = seq;
      idem = HashMap.insert req.idem_key seq st.idem;
      buf = st.buf ++ encode_frame (record_of seq req);
      puts =
          st.puts
          ++ ((grain_key req.sid req.pred seq, encode_value req.op req.val req.c req.t_valid) ∷ []);
      acks = st.acks ++ ((pw.ack, seq) ∷ []);
      cdc_recs =
          st.cdc_recs
          ++ (record { sid = req.sid; pred = req.pred; seq = seq; op = req.op; val = req.val }
              ∷ []);
      max_seq = max st.max_seq seq;
      sent = st.sent;
    }

-- A request whose key is known: answered at once with the original commit time.
unfoldable pub stage_known : Staged → Pending → ℕ → Staged
stage_known st pw orig = record st { sent = st.sent ++ ((pw.ack, ok orig) ∷ []) }

-- The body of `for pw in batch`.
unfoldable pub stage : Staged → Pending → Staged
unfolding stage_new stage_known
stage st pw = elim (HashMap.get pw.req.idem_key st.idem) [
  | some orig ↦ stage_known st pw orig
  | none ↦ stage_new st pw
]

unfoldable pub apply_puts : MemKv → List (List ℕ × List ℕ) → MemKv
apply_puts = foldl (λ kv e. put_grain kv e.0 e.1)

-- The state, the acks sent in the round, and whether the loop goes on.
pub record Round : Type 0 where
  pub state : Committer
  pub sent : List Ack
  pub running : Bool

-- After the write: apply, publish, ack.
unfoldable pub finish : Committer → Staged → List ℕ → Round
unfolding apply_puts publish_all
finish s st written = record {
  state = record {
    file = s.file ++ written;
    kv = put_meta (apply_puts s.kv st.puts) meta_applied_seq (be_bytes 8 st.max_seq);
    hlc = st.hlc;
    idem = st.idem;
    healthy = s.healthy;
    cdc = publish_all s.cdc st.cdc_recs;
  };
  sent = st.sent ++ map (λ a. (a.0, ok a.1)) st.acks;
  running = true;
}

-- The write failed: every pending ack is an error, and the loop ends.
unfoldable pub abandon : Committer → Staged → List ℕ → Round
abandon s st written = record {
  state = record s { file = s.file ++ written; hlc = st.hlc; idem = st.idem; healthy = 1 };
  sent = st.sent ++ map (λ a. (a.0, err io)) st.acks;
  running = false;
}

-- The write of the buffer and what follows it. An empty buffer is not written.
unfoldable pub write_buf : List ℕ → Committer → Staged → WriteEnd → Round
write_buf [] s st end = finish s st []
write_buf (b ∷ bs) s st synced = finish s st (b ∷ bs)
write_buf (b ∷ bs) s st (failed n) = abandon s st (take n (b ∷ bs))

-- One round of `while let Ok(first) = rx.recv()`, on the requests that it drains from the queue.
unfoldable pub commit_batch : Committer → List Pending → WriteEnd → Round
unfolding stage write_buf finish abandon
commit_batch s batch end = let st = foldl stage (stage_start s) batch in write_buf st.buf s st end

-- The loop over the batches that come, until a write fails.
unfoldable pub committer_loop : Committer → List (List Pending × WriteEnd) → Committer × List Ack
unfolding commit_batch
committer_loop s [] = (s, [])
committer_loop s ((batch, end) ∷ rest) =
    let round = commit_batch s batch end in
    let later = committer_loop round.state rest in
    elim round.running [
      | true ↦ (later.0, round.sent ++ later.1)
      | false ↦ (round.state, round.sent)
    ]
