-- ===== src/Truth/Single.antt =====
-- A commit of one request with a new key, whose write is synced.
use grainstore.Base.{ℕ, ◌+◌, ◌<◌, ◌^◌, ◌≡◌, ap, ◌∙◌, List, [], ◌∷◌, ◌++◌, none, true}
use grainstore.Base.HashMap
use grainstore.Durability.Rounds.{accepted_in, write_buf_synced}
use grainstore.Durability.Stage.{accepted, stage_at_new, accepted_new, successor_below}
use grainstore.Error.{ok}
use grainstore.Truth.{TruthStore, commit}
use grainstore.Wal.{WalRecord, WriteReq, encode_frame}
use grainstore.Wal.Commit.{
  Pending, synced, commit_batch, stage_start, stage, stage_new, record_of, Staged, finish,
}

module _ (t : TruthStore) (req : WriteReq) (room : t.committer.hlc + 1 < 2 ^ 64)
    (running : t.running ≡ true) (fresh : HashMap.get req.idem_key t.committer.idem ≡ none) where
  abbrev pub pw : Pending
  pw = record { req = req; ack = 0 }

  abbrev pub one : List Pending
  one = pw ∷ []

  abbrev pub rec : WalRecord
  rec = record_of (t.committer.hlc + 1) req

  pub accepted_one : accepted_in t.committer one ≡ rec ∷ []
  unfolding accepted_in
  accepted_one =
      accepted_new (stage_start t.committer) pw [] fresh
      ∙ unfold accepted in
        ap (λ (n : ℕ). record_of n req ∷ []) (successor_below t.committer.hlc room)

  pub round_one :
      commit_batch t.committer one synced
      ≡ finish t.committer
          (stage_new (stage_start t.committer) pw)
          (stage_new (stage_start t.committer) pw).buf
  unfolding commit_batch
  round_one =
      write_buf_synced _ t.committer (stage (stage_start t.committer) pw)
      ∙ ap (λ (st : Staged). finish t.committer st st.buf)
          (stage_at_new (stage_start t.committer) pw fresh)

  pub commit_answer : (commit t req synced).1 ≡ ok (t.committer.hlc + 1)
  unfolding commit
  commit_answer = rw running (
      rw round_one
        (unfold finish stage_new in ap (λ (n : ℕ). ok n) (successor_below t.committer.hlc room)))

  pub commit_state : (commit t req synced).0.committer ≡ (commit_batch t.committer one synced).state
  unfolding commit
  commit_state = rw running

  pub hlc_after : (commit t req synced).0.committer.hlc ≡ t.committer.hlc + 1
  hlc_after =
      rw (commit_state, round_one) (unfold finish stage_new in successor_below t.committer.hlc room)

  pub file_after : (commit t req synced).0.committer.file ≡ t.committer.file ++ encode_frame rec
  file_after =
      rw (commit_state, round_one)
        (unfold finish stage_new in
          ap (λ (n : ℕ). t.committer.file ++ encode_frame (record_of n req))
            (successor_below t.committer.hlc room))
