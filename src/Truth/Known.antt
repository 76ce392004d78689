-- ===== src/Truth/Known.antt =====
-- src/truth.rs and src/wal.rs: the idempotency keys that the committer knows after a commit.
use grainstore.Base.{
  ℕ, ◌≡◌, ◌≢◌, refl, ap, ◌∙◌, List, [], ◌∷◌, none, some, true, Option-cases, inl, inr,
}
use grainstore.Base.HashMap
use grainstore.Base.HashMap.{get-insert_self, get-insert_other}
use grainstore.Durability.Stage.{stage_at_new}
use grainstore.Error.{ok, err, io}
use grainstore.Hlc
use grainstore.Truth.{TruthStore, commit, first_ack}
use grainstore.Truth.Session.{commit_retry}
use grainstore.Wal.{WriteReq}
use grainstore.Wal.Commit.{
  Committer, Pending, WriteEnd, synced, failed, commit_batch, stage_start, stage_new, Staged, Round,
  write_buf, finish, abandon,
}

-- The commit time that a key has, if it has one.
abbrev pub Known : List (ℕ × ℕ) → ℕ → Type 0
Known idem key = (orig : ℕ) × (HashMap.get key idem ≡ some orig)

write_buf_idem :
    (buf : List ℕ) (s : Committer) (st : Staged) (end : WriteEnd)
    → (write_buf buf s st end).state.idem ≡ st.idem
unfolding write_buf finish abandon
write_buf_idem [] s st end = refl
write_buf_idem (b ∷ bs) s st synced = refl
write_buf_idem (b ∷ bs) s st (failed n) = refl

-- After a commit that succeeds the committer runs, and knows the key and all the keys it knew.
pub record Commits (t : TruthStore) (key : ℕ) (t' : TruthStore) : Type 0 where
  pub runs : t'.running ≡ true
  pub knows : Known t'.committer.idem key
  pub still_knows : (k : ℕ) → Known t.committer.idem k → Known t'.committer.idem k

-- The answer of a round whose state stage made from one request is a success only if the round goes on.
goes_on :
    (buf : List ℕ) (s : Committer) (st : Staged) (end : WriteEnd) (seq n : ℕ)
    → st.sent ≡ []
    → st.acks ≡ (0, seq) ∷ []
    → first_ack 0 (write_buf buf s st end).sent ≡ ok n
    → (write_buf buf s st end).running ≡ true
unfolding write_buf finish abandon first_ack
goes_on [] s st end seq n none_sent one e = refl
goes_on (b ∷ bs) s st synced seq n none_sent one e = refl
goes_on (b ∷ bs) s st (failed k) seq n none_sent one e =
    let never : (err io ≡ ok n) = rw (none_sent, one) at e in absurd (cc)

module _ (t : TruthStore) (req : WriteReq) (end : WriteEnd) (running : t.running ≡ true) where
  abbrev pw : Pending
  pw = record { req = req; ack = 0 }

  abbrev round_of : Staged → Round
  round_of st = write_buf st.buf t.committer st end

  module _ (fresh : HashMap.get req.idem_key t.committer.idem ≡ none) where
    commit_new : commit t req end ≡ (
      record {
        committer = (round_of (stage_new (stage_start t.committer) pw)).state;
        running = (round_of (stage_new (stage_start t.committer) pw)).running;
      },
      first_ack 0 (round_of (stage_new (stage_start t.committer) pw)).sent,
    )
    unfolding commit commit_batch
    commit_new = rw running (
        ap
          (λ (st : Staged). (
            record { committer = (round_of st).state; running = (round_of st).running },
            first_ack 0 (round_of st).sent,
          ))
          (stage_at_new (stage_start t.committer) pw fresh))

    commit_idem :
        (commit t req end).0.committer.idem
        ≡ HashMap.insert req.idem_key (Hlc.successor t.committer.hlc) t.committer.idem
    commit_idem = rw commit_new (
        write_buf_idem _ t.committer (stage_new (stage_start t.committer) pw) end
        ∙ unfold stage_new in refl)

    commit_new-Commits :
        (n : ℕ) → (commit t req end).1 ≡ ok n → Commits t req.idem_key (commit t req end).0
    commit_new-Commits n e = record {
      runs = rw commit_new (
          goes_on _ t.committer (stage_new (stage_start t.committer) pw) end
            (Hlc.successor t.committer.hlc) n (unfold stage_new in refl) (unfold stage_new in refl)
            (rw commit_new at e));
      knows = (seq, rw commit_idem (get-insert_self req.idem_key seq t.committer.idem));
      still_knows = λ k h. (kept k h, rw commit_idem (kept_lem k h));
    }
      where
        seq : ℕ
        seq = Hlc.successor t.committer.hlc

        other_key : (k orig : ℕ) → HashMap.get k t.committer.idem ≡ some orig → req.idem_key ≢ k
        other_key k orig h same = cc

        kept : (k : ℕ) → Known t.committer.idem k → ℕ
        kept k h = h.0

        kept_lem :
            (k : ℕ) (h : Known t.committer.idem k)
            → HashMap.get k (HashMap.insert req.idem_key seq t.committer.idem) ≡ some h.0
        kept_lem k h =
            get-insert_other req.idem_key k seq t.committer.idem (other_key k h.0 h.1) ∙ h.1

  -- A commit that succeeds, on a running store, keeps it running and leaves it with the key of the
  -- request and all the keys it had.
  pub commit-Commits :
      (n : ℕ) → (commit t req end).1 ≡ ok n → Commits t req.idem_key (commit t req end).0
  commit-Commits n e = elim (Option-cases (HashMap.get req.idem_key t.committer.idem)) [
    | inl fresh ↦ commit_new-Commits fresh n e
    | inr (orig, known) ↦
        let retry = commit_retry t req orig end running known in
        let idem = retry.5 in
        record {
          runs = retry.1;
          knows = (orig, rw idem known);
          still_knows = λ k h. (h.0, rw idem (h.1));
        }
  ]
