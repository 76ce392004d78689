-- ===== src/Durability/Numbering.antt =====
-- The commit times of the log: without gaps, from 1 on.
use grainstore.Base.{
  ℕ, ◌+◌, ◌<◌, ◌^◌, ◌≡◌, refl, sym, ◌∙◌, List, [], ◌∷◌, ◌++◌, none, some, length, foldl, arith,
  Option-cases, inl, inr, subst, suc,
}
use grainstore.Base.HashMap
use grainstore.Kv
use grainstore.Recovery.{Progress, start, replay_record}
use grainstore.Wal.{WalRecord}
use grainstore.Wal.Commit.{
  Committer, Pending, Staged, stage, stage_new, stage_known, stage_start, commit_batch, synced,
}
use grainstore.Durability.{AreRequests, IsLogOf}
use grainstore.Durability.Stage.{
  accepted, accepted_known, accepted_new, successor_below, stage_at_known, stage_at_new,
}
use grainstore.Durability.Rounds.{accepted_in, commit_batch-IsLogOf}

-- The commit times are `n + 1`, `n + 2`, …
abbrev pub IsNumbered : ℕ → List WalRecord → Type 0
IsNumbered n [] = Unit
IsNumbered n (r ∷ rs) = (r.seq ≡ n + 1) × IsNumbered (n + 1) rs

IsNumbered-append :
    (n : ℕ) (a b : List WalRecord)
    → IsNumbered n a
    → IsNumbered (n + length a) b
    → IsNumbered n (a ++ b)
IsNumbered-append n [] b ha hb =
    subst (λ (m : ℕ). IsNumbered m b) {x = n + 0} {y = n} (omega arith) hb
IsNumbered-append n (r ∷ rs) b ha hb = (
  ha.0,
  IsNumbered-append (n + 1) rs b ha.1 (
      subst (λ (m : ℕ). IsNumbered m b) {x = n + suc (length rs)} {y = n + 1 + length rs}
        (omega arith) hb),
)

high_watermark-replay :
    (n : ℕ) (p : Progress) (log : List WalRecord)
    → IsNumbered n log
    → p.recovered.high_watermark ≡ n
    → (foldl replay_record p log).recovered.high_watermark ≡ n + length log
high_watermark-replay n p [] num e = omega arith
high_watermark-replay n p (r ∷ rs) num e = omega (
  arith,
  high_watermark-replay (n + 1) (replay_record p r) rs num.1 (unfold replay_record in omega arith),
)

hlc-stage_known :
    (st : Staged) (pw : Pending) (orig : ℕ)
    → HashMap.get pw.req.idem_key st.idem ≡ some orig
    → (stage st pw).hlc ≡ st.hlc
hlc-stage_known st pw orig e = rw (stage_at_known st pw orig e) (unfold stage_known in refl)

hlc-stage_new :
    (st : Staged) (pw : Pending)
    → st.hlc + 1 < 2 ^ 64
    → HashMap.get pw.req.idem_key st.idem ≡ none
    → (stage st pw).hlc ≡ st.hlc + 1
hlc-stage_new st pw room e =
    rw (stage_at_new st pw e) (unfold stage_new in successor_below st.hlc room)

accepted-IsNumbered :
    (st : Staged) (batch : List Pending)
    → st.hlc + length batch < 2 ^ 64
    → IsNumbered st.hlc (accepted st batch)
accepted-IsNumbered st [] room = unfold accepted in tt
accepted-IsNumbered st (pw ∷ rest) room =
    elim (Option-cases (HashMap.get pw.req.idem_key st.idem)) [
      | inr (orig, e) ↦
          let same = hlc-stage_known st pw orig e in
          rw (accepted_known st pw rest orig e) (
            subst (λ (m : ℕ). IsNumbered m (accepted (stage st pw) rest)) same
              (accepted-IsNumbered (stage st pw) rest (omega (arith, same))))
      | inl e ↦
          let next = hlc-stage_new st pw (omega arith) e in
          rw (accepted_new st pw rest e) (
            successor_below st.hlc (omega arith),
            subst (λ (m : ℕ). IsNumbered m (accepted (stage st pw) rest)) next
                (accepted-IsNumbered (stage st pw) rest (omega (arith, next))),
          )
    ]

-- The log behind a committer's state: its records are numbered from 1, and the clock is at the last.
pub record IsHistory (log : List WalRecord) (s : Committer) : Type 0 where
  pub of_log : IsLogOf log s
  pub numbered : IsNumbered 0 log

pub hlc-IsHistory : (log : List WalRecord) (s : Committer) → IsHistory log s → s.hlc ≡ length log
hlc-IsHistory log s h =
    sym h.of_log.clock ∙ high_watermark-replay 0 (start Kv.new) log h.numbered refl ∙ omega arith

module _ (log : List WalRecord) (s : Committer) (batch : List Pending) where
  pub accepted_in-IsNumbered :
      s.hlc + length batch < 2 ^ 64 → IsNumbered s.hlc (accepted_in s batch)
  unfolding accepted_in
  accepted_in-IsNumbered room = accepted-IsNumbered (stage_start s) batch room

  -- A synced round keeps the log numbered without gaps from 1. It also still replays to the state.
  -- Requests fit their fields, and the clock stays below 2 ^ 64.
  pub commit_batch-IsHistory :
      IsHistory log s
      → AreRequests batch
      → s.hlc + length batch < 2 ^ 64
      → IsHistory (log ++ accepted_in s batch) (commit_batch s batch synced).state
  commit_batch-IsHistory h reqs room = record {
    of_log = commit_batch-IsLogOf log s batch h.of_log reqs room;
    numbered = IsNumbered-append 0 log (accepted_in s batch) h.numbered (
        subst (λ (m : ℕ). IsNumbered m (accepted_in s batch)) {x = s.hlc} {y = 0 + length log}
          (omega (arith, hlc-IsHistory log s h)) (accepted_in-IsNumbered room));
  }
