-- ===== src/Truth/Visible.antt =====
-- Snapshot reads against the log: the version that a read finds is the latest record of the log for
-- the pair that is not after the snapshot.
use native.Mathlib.Nat.{add-zero}
use grainstore.Base.{
  ℕ, suc, ◌+◌, ◌<◌, ◌≤◌, ◌≡◌, refl, ◌∙◌, subst, List, [], ◌∷◌, Option, none, some, Bool, true,
  false, length, All, foldl, arith, compare, lt, leb, ◌==◌, ◌&&◌, if◌then◌else◌, Bool-cases, inl,
  inr, ◌⊎◌,
}
use grainstore.Bytes.{bytes_cmp}
use grainstore.Durability.Numbering.{IsNumbered}
use grainstore.Keys.{grain_key, seek_target}
use grainstore.Keys.Order.{IsKey, key_num, prefix_num, bytes_cmp-grain_key_num}
use grainstore.Kv.{seek_ge}
use grainstore.Kv.Laws.{nearer, seek_ge-put_grain}
use grainstore.Model.{Sid, PredId, Hlc}
use grainstore.Recovery.{Progress, replay_record}
use grainstore.Wal.{WalRecord, encode_value}
use grainstore.Wal.RoundTrip.{IsRecord}

-- Does a read of `(sid, pred)` at `snapshot` see the record?
abbrev pub covers : Sid → PredId → Hlc → WalRecord → Bool
covers sid pred snapshot r = r.sid == sid && (r.pred == pred && leb r.seq snapshot)

-- The last record of the log that the read sees, or `found` if there is none.
unfoldable pub visible : Sid → PredId → Hlc → Option WalRecord → List WalRecord → Option WalRecord
visible sid pred snapshot found [] = found
visible sid pred snapshot found (r ∷ rs) =
    visible sid pred snapshot (if covers sid pred snapshot r then some r else found) rs

abbrev pub key_of : WalRecord → List ℕ
key_of r = grain_key r.sid r.pred r.seq

abbrev pub value_of : WalRecord → List ℕ
value_of r = encode_value r.op r.val r.c r.t_valid

IsRecord-IsKey : (r : WalRecord) → IsRecord r → IsKey r.sid r.pred r.seq
IsRecord-IsKey r h = record { sid_fits = h.sid_fits; pred_fits = h.pred_fits; t_fits = h.seq_fits }

lt_or_le : (a b : ℕ) → (a < b) ⊎ (b ≤ a)
lt_or_le a b = omega arith

module _ (sid : Sid) (pred : PredId) (snapshot : Hlc) (fits : IsKey sid pred snapshot) where
  -- What a seek found, beside the record that the read should see among those up to time `n`.
  abbrev pub Shows : ℕ → Option (List ℕ × List ℕ) → Option WalRecord → Type 0
  Shows n none none = Unit
  Shows n none (some r) = ⊥
  Shows n (some (k, v)) none =
      (r : WalRecord) × (k ≡ key_of r)
      × IsRecord r
      × (prefix_num sid pred < prefix_num r.sid r.pred)
  Shows n (some (k, v)) (some r) =
      (k ≡ key_of r)
      × (v ≡ value_of r)
      × IsRecord r
      × (r.sid ≡ sid)
      × (r.pred ≡ pred)
      × (r.seq ≤ n)
      × (r.seq ≤ snapshot)

  -- A seek after `q` was stored.
  abbrev step : WalRecord → Option (List ℕ × List ℕ) → Option (List ℕ × List ℕ)
  step q o = elim (bytes_cmp (key_of q) (seek_target sid pred snapshot)) [
    | lt ↦ o
    | _ ↦ nearer (key_of q) (value_of q) o
  ]

  cmp_target :
      (q : WalRecord)
      → IsRecord q
      → bytes_cmp (key_of q) (seek_target sid pred snapshot)
        ≡ compare (key_num q.sid q.pred q.seq) (key_num sid pred snapshot)
  unfolding seek_target
  cmp_target q h = bytes_cmp-grain_key_num _ _ _ sid pred snapshot (IsRecord-IsKey q h) fits

  cmp_keys :
      (r q : WalRecord)
      → IsRecord r
      → IsRecord q
      → bytes_cmp (key_of r) (key_of q)
        ≡ compare (key_num r.sid r.pred r.seq) (key_num q.sid q.pred q.seq)
  cmp_keys r q h h' = bytes_cmp-grain_key_num _ _ _ _ _ _ (IsRecord-IsKey r h) (IsRecord-IsKey q h')

  -- The record is seen: its key is the nearest.
  covered_facts :
      (q : WalRecord)
      → covers sid pred snapshot q ≡ true
      → (q.sid ≡ sid) × (q.pred ≡ pred) × (q.seq ≤ snapshot)
  covered_facts q c = ground arith

  step_before :
      (q : WalRecord) (o : Option (List ℕ × List ℕ))
      → IsRecord q
      → key_num q.sid q.pred q.seq < key_num sid pred snapshot
      → step q o ≡ o
  step_before q o h less = rw (cmp_target q h, step) (ground arith)

  step_after :
      (q : WalRecord) (o : Option (List ℕ × List ℕ))
      → IsRecord q
      → key_num sid pred snapshot ≤ key_num q.sid q.pred q.seq
      → step q o ≡ nearer (key_of q) (value_of q) o
  step_after q o h more = rw (cmp_target q h, step) (ground arith)

  nearer_keep :
      (r q : WalRecord) (v : List ℕ)
      → IsRecord r
      → IsRecord q
      → key_num r.sid r.pred r.seq < key_num q.sid q.pred q.seq
      → nearer (key_of q) (value_of q) (some (key_of r, v)) ≡ some (key_of r, v)
  nearer_keep r q v h h' less = rw (cmp_keys r q h h', nearer) (ground arith)

  nearer_new :
      (r q : WalRecord) (v : List ℕ)
      → IsRecord r
      → IsRecord q
      → key_num q.sid q.pred q.seq ≤ key_num r.sid r.pred r.seq
      → nearer (key_of q) (value_of q) (some (key_of r, v)) ≡ some (key_of q, value_of q)
  nearer_new r q v h h' more = rw (cmp_keys r q h h', nearer) (ground arith)

  -- A record that is seen is what the seek finds next.
  step_covered :
      (n : ℕ) (q : WalRecord) (o : Option (List ℕ × List ℕ)) (found : Option WalRecord)
      → IsRecord q
      → q.seq ≡ n + 1
      → (q.sid ≡ sid) × (q.pred ≡ pred) × (q.seq ≤ snapshot)
      → Shows n o found
      → step q o ≡ some (key_of q, value_of q)
  step_covered n q none none h e c s = step_after q none h (omega (arith, fits.t_fits, h.seq_fits))
  step_covered n q none (some r) h e c s = absurd s
  step_covered n q (some (k, v)) none h e c (r, key, hr, above) =
      step_after q (some (k, v)) h (omega (arith, fits.t_fits, h.seq_fits))
      ∙ rw key (nearer_new r q v hr h (omega (arith, h.seq_fits, hr.seq_fits)))
  step_covered n q (some (k, v)) (some r) h e c (key, val, hr, s, p, old, seen) =
      step_after q (some (k, v)) h (omega (arith, fits.t_fits, h.seq_fits))
      ∙ rw key (nearer_new r q v hr h (omega (arith, h.seq_fits, hr.seq_fits)))

  Shows-later :
      (n : ℕ) (o : Option (List ℕ × List ℕ)) (found : Option WalRecord)
      → Shows n o found
      → Shows (n + 1) o found
  Shows-later n none none s = tt
  Shows-later n none (some r) s = s
  Shows-later n (some (k, v)) none s = s
  Shows-later n (some (k, v)) (some r) (key, val, hr, s, p, old, seen) =
      (key, val, hr, s, p, omega arith, seen)

  -- A record behind the target's prefix changes nothing that a read shows.
  step_foreign :
      (n : ℕ) (q : WalRecord) (o : Option (List ℕ × List ℕ)) (found : Option WalRecord)
      → IsRecord q
      → prefix_num sid pred < prefix_num q.sid q.pred
      → Shows n o found
      → Shows (n + 1) (nearer (key_of q) (value_of q) o) found
  step_foreign n q none none h above s = (q, refl, h, above)
  step_foreign n q none (some r) h above s = absurd s
  step_foreign n q (some (k, v)) none h above (r, key, hr, beyond) =
      elim (lt_or_le (key_num r.sid r.pred r.seq) (key_num q.sid q.pred q.seq)) [
        | inl less ↦ rw (key, nearer_keep r q v hr h less) (r, refl, hr, beyond)
        | inr more ↦ rw (key, nearer_new r q v hr h more) (q, refl, h, above)
      ]
  step_foreign n q (some (k, v)) (some r) h above (key, val, hr, s, p, old, seen) =
      rw (key, nearer_keep r q v hr h (omega (arith, h.seq_fits, hr.seq_fits)))
        (refl, val, hr, s, p, omega arith, seen)

  -- A record that is not seen is before the target or has a later prefix.
  uncovered :
      (q : WalRecord)
      → IsRecord q
      → covers sid pred snapshot q ≡ false
      → (key_num q.sid q.pred q.seq < key_num sid pred snapshot)
        ⊎ (key_num sid pred snapshot ≤ key_num q.sid q.pred q.seq)
          × (prefix_num sid pred < prefix_num q.sid q.pred)
  uncovered q h c = ground (arith, h.seq_fits, h.pred_fits, fits.t_fits, fits.pred_fits)

  Shows-step :
      (n : ℕ) (q : WalRecord) (o : Option (List ℕ × List ℕ)) (found : Option WalRecord)
      → IsRecord q
      → q.seq ≡ n + 1
      → Shows n o found
      → Shows (n + 1) (step q o) (if covers sid pred snapshot q then some q else found)
  Shows-step n q o found h e s = elim (Bool-cases (covers sid pred snapshot q)) [
    | inl c ↦
        let (a, b, d) = covered_facts q c in
        rw (c, step_covered n q o found h e (a, b, d) s) (refl, refl, h, a, b, omega arith, d)
    | inr c ↦ rw c (elim (uncovered q h c) [
      | inl less ↦ rw (step_before q o h less) (Shows-later n o found s)
      | inr (more, above) ↦ rw (step_after q o h more) (step_foreign n q o found h above s)
    ])
  ]

  pub Shows-replay :
      (n : ℕ) (p : Progress) (found : Option WalRecord) (log : List WalRecord)
      → All IsRecord log
      → IsNumbered n log
      → Shows n (seek_ge p.kv (seek_target sid pred snapshot)) found
      → Shows
          (n + length log)
          (seek_ge (foldl replay_record p log).kv (seek_target sid pred snapshot))
          (visible sid pred snapshot found log)
  unfolding visible
  Shows-replay n p found [] h num s = rw add-zero s
  Shows-replay n p found (q ∷ qs) h num s =
      subst
        (λ (m : ℕ).
          Shows m
            (seek_ge (foldl replay_record (replay_record p q) qs).kv
              (seek_target sid pred snapshot))
            (visible sid pred snapshot (if covers sid pred snapshot q then some q else found) qs))
        {x = n + 1 + length qs} {y = n + suc (length qs)} (omega arith)
        (Shows-replay (n + 1) (replay_record p q) _ qs h.1 num.1 (
          rw stored
            (Shows-step n q (seek_ge p.kv (seek_target sid pred snapshot)) found h.0 num.0 s)))
    where
      stored :
          seek_ge (replay_record p q).kv (seek_target sid pred snapshot)
          ≡ step q (seek_ge p.kv (seek_target sid pred snapshot))
      stored =
          unfold replay_record in
          seek_ge-put_grain p.kv (seek_target sid pred snapshot) (key_of q) (value_of q)
