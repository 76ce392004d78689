-- ===== src/Truth/Mvcc.antt =====
-- What the reads of the truth store promise, in terms of the log of what was committed.
use grainstore.Base.{
  ℕ, ◌+◌, ◌≡◌, sym, ◌∙◌, List, Option, none, some, true, false, length, arith, ◌==◌, ◌&&◌,
  if◌then◌else◌,
}
use grainstore.Bytes.{starts_with}
use grainstore.Durability.{replayed}
use grainstore.Durability.Numbering.{IsHistory}
use grainstore.Error.{ok}
use grainstore.Keys.{grain_prefix, seek_target}
use grainstore.Keys.Order.{IsKey, starts_with-grain_key, t_tx_from_key-grain_key}
use grainstore.Kv
use grainstore.Kv.{MemKv, seek_ge}
use grainstore.Model.{Sid, PredId, Hlc, Grain, bytes}
use grainstore.Recovery.{start}
use grainstore.Truth.{TruthStore, get_at, read_version}
use grainstore.Truth.Visible.{visible, Shows, Shows-replay, key_of, value_of}
use grainstore.Wal.{WalRecord}
use grainstore.Wal.RoundTrip.{IsRecord, decode_value-encode_value}

-- What a reader is given of a record.
abbrev pub as_grain : WalRecord → Grain
as_grain r = record {
  sid = r.sid;
  pred = r.pred;
  val = bytes r.val;
  c = r.c;
  t_valid = r.t_valid;
  t_tx = r.seq;
}

-- The answer of a read that sees the record: a delete shows as nothing.
abbrev pub answer : Option WalRecord → Option Grain
answer none = none
answer (some r) = if r.op == 1 then none else some (as_grain r)

seek_ge_cong : (a b : MemKv) (t : List ℕ) → a.grains ≡ b.grains → seek_ge a t ≡ seek_ge b t
unfolding seek_ge
seek_ge_cong a b t h = cc

read_version-value_of :
    (r : WalRecord)
    → IsRecord r
    → read_version r.sid r.pred (key_of r) (value_of r) ≡ ok (answer (some r))
unfolding read_version
read_version-value_of r h =
    rw (decode_value-encode_value r.op r.val r.c r.t_valid h.c_fits h.t_valid_fits, read_version)
      (rw (t_tx_from_key-grain_key r.sid r.pred r.seq h.seq_fits) (ground arith))

module _ (t : TruthStore) (sid : Sid) (pred : PredId) (snapshot : Hlc) where
  abbrev sought : Option (List ℕ × List ℕ)
  sought = seek_ge t.committer.kv (seek_target sid pred snapshot)

  get_at_nothing : sought ≡ none → get_at t sid pred snapshot ≡ ok none
  unfolding get_at
  get_at_nothing e = rw (e, get_at)

  get_at_foreign :
      (k v : List ℕ)
      → sought ≡ some (k, v)
      → starts_with k (grain_prefix sid pred) ≡ false
      → get_at t sid pred snapshot ≡ ok none
  unfolding get_at
  get_at_foreign k v e f = rw (e, get_at) (rw f)

  get_at_found :
      (k v : List ℕ)
      → sought ≡ some (k, v)
      → starts_with k (grain_prefix sid pred) ≡ true
      → get_at t sid pred snapshot ≡ read_version sid pred k v
  unfolding get_at
  get_at_found k v e f = rw (e, get_at) (rw f)

  module _ (fits : IsKey sid pred snapshot) where
    own_prefix :
        (r : WalRecord)
        → IsRecord r
        → starts_with (key_of r) (grain_prefix sid pred) ≡ (r.sid == sid && r.pred == pred)
    own_prefix r h =
        starts_with-grain_key r.sid r.pred r.seq sid pred
          (record { sid_fits = h.sid_fits; pred_fits = h.pred_fits; t_fits = h.seq_fits })
          fits.sid_fits fits.pred_fits

    get_at-Shows :
        (n : ℕ) (o : Option (List ℕ × List ℕ)) (found : Option WalRecord)
        → sought ≡ o
        → Shows sid pred snapshot fits n o found
        → get_at t sid pred snapshot ≡ ok (answer found)
    get_at-Shows n none none e s = get_at_nothing e
    get_at-Shows n none (some r) e s = absurd s
    get_at-Shows n (some (k, v)) none e (r, key, hr, beyond) =
        get_at_foreign k v e (rw (key, own_prefix r hr) (ground (arith, hr.pred_fits)))
    get_at-Shows n (some (k, v)) (some r) e (key, val, hr, s, p, old, seen) =
        get_at_found k v e (rw (key, own_prefix r hr) (ground arith))
        ∙ rw (← s, ← p, key, val) (read_version-value_of r hr)

    -- A snapshot read returns what the latest record of the log for the pair that is not after the
    -- snapshot says: its value, nothing if it is a delete, and nothing if there is none. The log
    -- replays to the store and is numbered from 1, and the key fits its fields.
    pub get_at-visible :
        (log : List WalRecord)
        → IsHistory log t.committer
        → get_at t sid pred snapshot ≡ ok (answer (visible sid pred snapshot none log))
    get_at-visible log h =
        get_at-Shows (0 + length log) _ (visible sid pred snapshot none log)
          (sym (
            seek_ge_cong (replayed log).kv t.committer.kv (seek_target sid pred snapshot)
              h.of_log.grains))
          (Shows-replay sid pred snapshot fits 0 (start Kv.new) none log h.of_log.records h.numbered
            (unfold seek_ge in tt))
