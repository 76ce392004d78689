-- ===== src/Durability/Acks.antt =====
-- The acks of a round.
use grainstore.Base.{
  ℕ, ◌+◌, ◌<◌, ◌^◌, ◌≡◌, refl, ap, ◌∙◌, List, [], ◌∷◌, ◌++◌, none, some, foldl, arith, map, All,
  take, Option-cases, inl, inr, ◌⊎◌, ==_refl,
}
use grainstore.Base.HashMap
use grainstore.Bytes.{le_bytes}
use grainstore.Error.{ok, err, io}
use grainstore.Hlc.{successor}
use grainstore.Wal.{WalRecord, encode_frame}
use grainstore.Wal.Commit.{
  Committer, Pending, Ack, synced, failed, Staged, stage_start, stage, stage_new, stage_known,
  record_of, write_buf, finish, abandon, commit_batch,
}
use grainstore.Durability.Rounds.{write_buf_synced}
use grainstore.Durability.Stage.{stage_at_known, stage_at_new, successor_below}

-- `x` is an element.
abbrev pub Has : {A : Type 0} → A → List A → Type 0
Has x [] = ⊥
Has x (y ∷ ys) = (x ≡ y) ⊎ Has x ys

Has-append_left : {A : Type 0} (x : A) (xs ys : List A) → Has x xs → Has x (xs ++ ys)
Has-append_left x [] ys h = absurd h
Has-append_left x (z ∷ xs) ys (inl e) = inl e
Has-append_left x (z ∷ xs) ys (inr h) = inr (Has-append_left x xs ys h)

Has-append_right : {A : Type 0} (x : A) (xs ys : List A) → Has x ys → Has x (xs ++ ys)
Has-append_right x [] ys h = h
Has-append_right x (z ∷ xs) ys h = inr (Has-append_right x xs ys h)

Has-map : {A B : Type 0} (f : A → B) (x : A) (xs : List A) → Has x xs → Has (f x) (map f xs)
Has-map f x [] h = absurd h
Has-map f x (y ∷ xs) (inl e) = inl (ap f e)
Has-map f x (y ∷ xs) (inr h) = inr (Has-map f x xs h)

-- While a batch is gone through: the request has a commit time, and its ack is sent or will be.
abbrev Handled : Staged → Pending → Type 0
Handled st pw =
    (seq : ℕ) × (HashMap.get pw.req.idem_key st.idem ≡ some seq)
    × (Has (pw.ack, ok seq) st.sent ⊎ Has (pw.ack, seq) st.acks)

stage-Handled_self : (st : Staged) (pw : Pending) → Handled (stage st pw) pw
stage-Handled_self st pw = elim (Option-cases (HashMap.get pw.req.idem_key st.idem)) [
  | inr (orig, e) ↦
      rw (stage_at_known st pw orig e)
        (unfold stage_known in (orig, e, inl (Has-append_right _ st.sent _ (inl refl))))
  | inl e ↦ rw (stage_at_new st pw e) (
      unfold stage_new in
      (
        successor st.hlc,
        HashMap.get-insert pw.req.idem_key pw.req.idem_key (successor st.hlc) st.idem ∙ rw ==_refl,
        inr (Has-append_right _ st.acks _ (inl refl)),
      ))
]

kept :
    (k j v w : ℕ) (m : List (ℕ × ℕ))
    → HashMap.get j m ≡ none
    → HashMap.get k m ≡ some w
    → HashMap.get k (HashMap.insert j v m) ≡ some w
kept k j v w m fresh e = HashMap.get-insert j k v m ∙ ground arith

stage-Handled : (st : Staged) (pw qw : Pending) → Handled st qw → Handled (stage st pw) qw
stage-Handled st pw qw (seq, e, acked) = elim (Option-cases (HashMap.get pw.req.idem_key st.idem)) [
  | inr (orig, f) ↦ rw (stage_at_known st pw orig f) (
      unfold stage_known in
      (seq, e, elim acked [ inl s ↦ inl (Has-append_left _ st.sent _ s) | inr a ↦ inr a ]))
  | inl f ↦ rw (stage_at_new st pw f) (
      unfold stage_new in
      (
        seq,
        kept qw.req.idem_key pw.req.idem_key (successor st.hlc) seq st.idem f e,
        elim acked [ inl s ↦ inl s | inr a ↦ inr (Has-append_left _ st.acks _ a) ],
      ))
]

stage_all-Handled_one :
    (st : Staged) (batch : List Pending) (qw : Pending)
    → Handled st qw
    → Handled (foldl stage st batch) qw
stage_all-Handled_one st [] qw h = h
stage_all-Handled_one st (pw ∷ rest) qw h =
    stage_all-Handled_one (stage st pw) rest qw (stage-Handled st pw qw h)

stage-All-Handled :
    (st : Staged) (batch : List Pending) → All (Handled (foldl stage st batch)) batch
stage-All-Handled st [] = tt
stage-All-Handled st (pw ∷ rest) = (
  stage_all-Handled_one (stage st pw) rest pw (stage-Handled_self st pw),
  stage-All-Handled (stage st pw) rest,
)

-- A request was answered `Ok` with the commit time that the committer keeps under its key.
abbrev pub Answered : Committer → List Ack → Pending → Type 0
Answered s sent pw =
    (seq : ℕ) × (HashMap.get pw.req.idem_key s.idem ≡ some seq) × Has (pw.ack, ok seq) sent

All-Answered :
    (s : Committer) (st : Staged) (written : List ℕ) (batch : List Pending)
    → All (Handled st) batch
    → All (Answered (finish s st written).state (finish s st written).sent) batch
unfolding finish
All-Answered s st written [] h = tt
All-Answered s st written (pw ∷ rest) ((seq, e, acked), h) = (
  (
    seq,
    e,
    elim acked [
      | inl sent ↦ Has-append_left _ st.sent _ sent
      | inr ack ↦
          Has-append_right _ st.sent _ (Has-map (λ a. (a.0, ok a.1)) (pw.ack, seq) st.acks ack)
    ],
  ),
  All-Answered s st written rest h,
)

-- In a synced round every request of the batch, new or retried, also twice in the batch, is
-- answered with the commit time that belongs to its idempotency key.
pub commit_batch-Answered :
    (s : Committer) (batch : List Pending)
    → All (Answered (commit_batch s batch synced).state (commit_batch s batch synced).sent) batch
unfolding commit_batch
commit_batch-Answered s batch =
    let st = foldl stage (stage_start s) batch in
    rw (write_buf_synced st.buf s st)
      (All-Answered s st st.buf batch (stage-All-Handled (stage_start s) batch))

frame_cons : (r : WalRecord) → (b : ℕ) × (bs : List ℕ) × (encode_frame r ≡ b ∷ bs)
unfolding encode_frame le_bytes
frame_cons r = (_, _, refl)

write_buf_failed :
    (buf : List ℕ) (s : Committer) (st : Staged) (n b : ℕ) (bs : List ℕ)
    → buf ≡ b ∷ bs
    → write_buf buf s st (failed n) ≡ abandon s st (take n buf)
unfolding write_buf
write_buf_failed [] s st n b bs e = cc
write_buf_failed (c ∷ cs) s st n b bs e = refl

-- A retry that lands in the same batch as its original is acknowledged before the batch is written.
-- When the write then fails, the original is told of the error and the retry has been told `Ok`,
-- while no more than the first `n` bytes of the frame are in the file. The key is new to the store,
-- and the clock stays below 2 ^ 64.
pub early_ack :
    (s : Committer) (p q : Pending) (n : ℕ)
    → s.hlc + 1 < 2 ^ 64
    → HashMap.get p.req.idem_key s.idem ≡ none
    → q.req.idem_key ≡ p.req.idem_key
    → ((commit_batch s (p ∷ q ∷ []) (failed n)).sent
        ≡ (q.ack, ok (s.hlc + 1)) ∷ (p.ack, err io) ∷ [])
      × ((commit_batch s (p ∷ q ∷ []) (failed n)).state.file
          ≡ s.file ++ take n (encode_frame (record_of (s.hlc + 1) p.req)))
unfolding commit_batch
early_ack s p q n room fresh same =
    let (b, bs, shape) = frame_cons (record_of (successor s.hlc) p.req) in
    rw
      (
        staged,
        write_buf_failed (stage_known (stage_new (stage_start s) p) q (successor s.hlc)).buf s _ n b
            bs (unfold stage_known stage_new in shape),
      )
      (unfold abandon stage_known stage_new in rw (successor_below s.hlc room) (refl, refl))
  where
    known : HashMap.get q.req.idem_key (stage_new (stage_start s) p).idem ≡ some (successor s.hlc)
    known =
        unfold stage_new in
        rw same
          (HashMap.get-insert p.req.idem_key p.req.idem_key (successor s.hlc) s.idem ∙ rw ==_refl)

    staged :
        stage (stage (stage_start s) p) q
        ≡ stage_known (stage_new (stage_start s) p) q (successor s.hlc)
    staged =
        rw (stage_at_new (stage_start s) p fresh)
          (stage_at_known (stage_new (stage_start s) p) q (successor s.hlc) known)
