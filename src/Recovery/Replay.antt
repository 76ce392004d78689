-- ===== src/Recovery/Replay.antt =====
-- What a recovery reads: all the intact frames at the front of the file, and nothing behind them.
use grainstore.Base.{
  ℕ, zero, suc, ◌+◌, ◌-◌, ◌<◌, ◌≤◌, ◌≡◌, refl, sym, ap, ◌∙◌, List, [], ◌∷◌, ◌++◌, none, some,
  length, take, drop, foldl, arith, All, leb, if◌then◌else◌, length-append, length-drop,
  drop-append_length, Option-cases, inl, inr, take-append_ge, take-append_le, Bool-cases,
  append_assoc, append-nil, take-nil,
}
use grainstore.Kv.{MemKv}
use grainstore.Wal.{WalRecord, encode_frame, decode_frame}
use grainstore.Wal.RoundTrip.{IsRecord}
use grainstore.Wal.Frames.{
  encode_frames, decode_frame_tiny, decode_frame-encode_frame, decode_frame-take,
  length-encode_frame, decode_frame_torn,
}
use grainstore.Recovery.{Progress, start, replay_record, replay_loop, replay_bytes}

-- A decoded frame lies within the input and has at least eight bytes.
decode_frame_consumes :
    (bytes : List ℕ) (r : WalRecord) (n : ℕ)
    → decode_frame bytes ≡ some (r, n)
    → (8 ≤ n) × (n ≤ length bytes)
unfolding decode_frame
decode_frame_consumes bytes r n h = ground arith

replay_loop_end :
    (fuel : ℕ) (bytes : List ℕ) (p : Progress)
    → decode_frame bytes ≡ none
    → replay_loop (suc fuel) bytes p ≡ some p
unfolding replay_loop
replay_loop_end fuel bytes p e = rw (e, replay_loop)

replay_loop_next :
    (fuel : ℕ) (bytes : List ℕ) (p : Progress) (rec : WalRecord) (n : ℕ)
    → decode_frame bytes ≡ some (rec, n)
    → replay_loop (suc fuel) bytes p ≡ replay_loop fuel (drop n bytes) (replay_record p rec)
unfolding replay_loop
replay_loop_next fuel bytes p rec n e = rw (e, replay_loop)

replay_loop_total :
    (fuel : ℕ) (bytes : List ℕ) (p : Progress)
    → length bytes < fuel
    → (q : Progress) × (replay_loop fuel bytes p ≡ some q)
replay_loop_total zero bytes p h = absurd (omega arith)
replay_loop_total (suc fuel) bytes p h = elim (Option-cases (decode_frame bytes)) [
  | inl done ↦ (p, replay_loop_end fuel bytes p done)
  | inr ((rec, n), e) ↦
      let (q, r) =
        replay_loop_total fuel (drop n bytes) (replay_record p rec)
          (omega (arith, length-drop n bytes, decode_frame_consumes bytes rec n e)) in
      (q, replay_loop_next fuel bytes p rec n e ∙ r)
]

-- Recovery ends on every file: more rounds than bytes are never needed.
pub replay_bytes_total :
    (kv : MemKv) (bytes : List ℕ) → (q : Progress) × (replay_bytes kv bytes ≡ some q)
unfolding replay_bytes
replay_bytes_total kv bytes = replay_loop_total (suc (length bytes)) bytes (start kv) (omega arith)

replay_loop-encode_frames :
    (rs : List WalRecord) (tail : List ℕ) (fuel : ℕ) (p : Progress)
    → All IsRecord rs
    → decode_frame tail ≡ none
    → length (encode_frames rs ++ tail) < fuel
    → replay_loop fuel (encode_frames rs ++ tail) p ≡ some (foldl replay_record p rs)
unfolding encode_frames
replay_loop-encode_frames rs tail zero p h e short = absurd (omega arith)
replay_loop-encode_frames [] tail (suc fuel) p h e short = replay_loop_end fuel tail p e
replay_loop-encode_frames (r ∷ rs) tail (suc fuel) p h e short =
    ap (λ bytes. replay_loop (suc fuel) bytes p)
      (append_assoc (encode_frame r) (encode_frames rs) tail)
    ∙ replay_loop_next fuel (encode_frame r ++ rest) p r _ (decode_frame-encode_frame r h.0 rest)
    ∙ ap (λ bytes. replay_loop fuel bytes (replay_record p r))
        (drop-append_length (length (encode_frame r)) (encode_frame r) rest refl)
    ∙ replay_loop-encode_frames rs tail fuel (replay_record p r) h.1 e less
  where
    rest : List ℕ
    rest = encode_frames rs ++ tail

    less : length rest < fuel
    less = omega (
      arith,
      ap length (append_assoc (encode_frame r) (encode_frames rs) tail),
      length-append (encode_frame r) rest,
      length-encode_frame r,
    )

-- A file of whole frames with an undecodable tail replays to the records of the frames, in order.
pub replay_bytes-encode_frames :
    (kv : MemKv) (rs : List WalRecord) (tail : List ℕ)
    → All IsRecord rs
    → decode_frame tail ≡ none
    → replay_bytes kv (encode_frames rs ++ tail) ≡ some (foldl replay_record (start kv) rs)
unfolding replay_bytes
replay_bytes-encode_frames kv rs tail h e =
    replay_loop-encode_frames rs tail (suc (length (encode_frames rs ++ tail))) (start kv) h e
      (omega arith)

-- The records whose frames lie whole within the first `n` bytes.
unfoldable pub intact : ℕ → List WalRecord → List WalRecord
intact n [] = []
intact n (r ∷ rs) =
    let rest = intact (n - length (encode_frame r)) rs in
    if leb (length (encode_frame r)) n then r ∷ rest else []

-- The bytes behind those frames.
pub torn : ℕ → List WalRecord → List ℕ
torn n [] = []
torn n (r ∷ rs) =
    let rest = torn (n - length (encode_frame r)) rs in
    if leb (length (encode_frame r)) n then rest else take n (encode_frame r)

pub take-encode_frames :
    (n : ℕ) (rs : List WalRecord)
    → take n (encode_frames rs) ≡ encode_frames (intact n rs) ++ torn n rs
unfolding intact torn encode_frames
take-encode_frames n [] = take-nil n
take-encode_frames n (r ∷ rs) = elim (Bool-cases (leb (length (encode_frame r)) n)) [
  | inl whole ↦ rw whole (
      ap (λ (k : ℕ). take k (encode_frame r ++ encode_frames rs))
        {y = length (encode_frame r) + (n - length (encode_frame r))} (ground arith)
      ∙ take-append_ge (n - length (encode_frame r)) (encode_frame r) (encode_frames rs)
      ∙ ap (λ xs. encode_frame r ++ xs) (take-encode_frames (n - length (encode_frame r)) rs)
      ∙ sym (append_assoc (encode_frame r) _ _))
  | inr cut ↦ rw cut (take-append_le n (encode_frame r) (encode_frames rs) (ground arith))
]

pub torn-refused : (n : ℕ) (rs : List WalRecord) → All IsRecord rs → decode_frame (torn n rs) ≡ none
unfolding torn
torn-refused n [] h = decode_frame_tiny [] (omega arith)
torn-refused n (r ∷ rs) h = elim (Bool-cases (leb (length (encode_frame r)) n)) [
  | inl whole ↦ rw whole (torn-refused (n - length (encode_frame r)) rs h.1)
  | inr cut ↦ rw cut (decode_frame-take r n h.0 (ground arith))
]

pub intact-All : (n : ℕ) (rs : List WalRecord) → All IsRecord rs → All IsRecord (intact n rs)
unfolding intact
intact-All n [] h = tt
intact-All n (r ∷ rs) h = elim (Bool-cases (leb (length (encode_frame r)) n)) [
  | inl whole ↦ rw whole (h.0, intact-All (n - length (encode_frame r)) rs h.1)
  | inr cut ↦ rw cut tt
]

-- A crash at any byte of the log loses exactly the records whose frames are not whole. The fields
-- of the records fit.
pub replay_bytes-take :
    (kv : MemKv) (n : ℕ) (rs : List WalRecord)
    → All IsRecord rs
    → replay_bytes kv (take n (encode_frames rs))
      ≡ some (foldl replay_record (start kv) (intact n rs))
replay_bytes-take kv n rs h = rw (take-encode_frames n rs) (
    replay_bytes-encode_frames kv (intact n rs) (torn n rs) (intact-All n rs h)
      (torn-refused n rs h))

-- Records that are appended behind a torn frame are not recovered while the bytes after the intact
-- frames are fewer than the torn frame promised.
pub replay_bytes_behind_torn :
    (kv : MemKv) (log later : List WalRecord) (r : WalRecord) (n : ℕ)
    → All IsRecord log
    → IsRecord r
    → 4 ≤ n
    → n + length (encode_frames later) < length (encode_frame r)
    → replay_bytes kv (encode_frames log ++ (take n (encode_frame r) ++ encode_frames later))
      ≡ replay_bytes kv (encode_frames log)
replay_bytes_behind_torn kv log later r n hl hr four short =
    replay_bytes-encode_frames kv log (take n (encode_frame r) ++ encode_frames later) hl
      (decode_frame_torn r n (encode_frames later) hr four short (omega arith))
    ∙ sym (
        rw append-nil at
          (replay_bytes-encode_frames kv log [] hl (decode_frame_tiny [] (omega arith))))
