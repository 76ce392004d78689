-- ===== src/Wal/Frames.antt =====
-- Frames: a whole frame is decoded and consumed exactly, and a torn one is never decoded.
use grainstore.Base.{
  ℕ, ◌+◌, ◌-◌, ◌<◌, ◌≤◌, ◌≡◌, refl, sym, ap, ◌∙◌, List, [], ◌∷◌, ◌++◌, none, some, length, take,
  drop, arith, take-append_length, drop-append_length, append-nil, append_assoc, length-append,
  true, false, tests, ltb, lt→ltb, ==_refl, take-append_ge, length-take, Bool-cases, inl, inr,
}
use grainstore.Bytes.{le_bytes, from_le_bytes}
use grainstore.Bytes.RoundTrip.{length-le_bytes, from_le_bytes-le_bytes}
use grainstore.Model.{IsU32}
use grainstore.Wal.{slice, WalRecord, encode_payload, encode_frame, decode_frame}
use grainstore.Wal.Crc.{crc32, crc32-lt}
use grainstore.Wal.Fields.{drop-drop}
use grainstore.Wal.RoundTrip.{IsRecord, length-encode_payload, decode_payload-encode_payload}

-- `encode_frame` for each record in turn, into one buffer
unfoldable pub encode_frames : List WalRecord → List ℕ
encode_frames [] = []
encode_frames (r ∷ rs) = encode_frame r ++ encode_frames rs

pub encode_frames-append :
    (rs ss : List WalRecord) → encode_frames (rs ++ ss) ≡ encode_frames rs ++ encode_frames ss
unfolding encode_frames
encode_frames-append [] ss = refl
encode_frames-append (r ∷ rs) ss =
    ap (λ bytes. encode_frame r ++ bytes) (encode_frames-append rs ss)
    ∙ sym (append_assoc (encode_frame r) (encode_frames rs) (encode_frames ss))

pub length-encode_frame : (r : WalRecord) → length (encode_frame r) ≡ 69 + length r.val
unfolding encode_frame
length-encode_frame r = omega (
  arith,
  length-append (le_bytes 4 (length (encode_payload r)))
      (le_bytes 4 (crc32 (encode_payload r)) ++ encode_payload r),
  length-append (le_bytes 4 (crc32 (encode_payload r))) (encode_payload r),
  length-le_bytes,
  length-encode_payload r,
)

module _ (r : WalRecord) (h : IsRecord r) (rest : List ℕ) where
  abbrev payload : List ℕ
  payload = encode_payload r

  abbrev input : List ℕ
  input = encode_frame r ++ rest

  abbrev after_len : List ℕ
  after_len = le_bytes 4 (crc32 payload) ++ (payload ++ rest)

  input_shape : input ≡ le_bytes 4 (length payload) ++ after_len
  unfolding encode_frame
  input_shape = simp append_assoc

  len_read : from_le_bytes (slice 0 4 input) ≡ length payload
  len_read =
      ap (λ xs. from_le_bytes (take 4 xs)) input_shape
      ∙ ap from_le_bytes
          (take-append_length 4 (le_bytes 4 (length payload)) after_len (length-le_bytes 4 _))
      ∙ from_le_bytes-le_bytes 4 (length payload)
          (omega (arith, h.len_fits, length-encode_payload r))

  drop_four : drop 4 input ≡ after_len
  drop_four =
      ap (drop 4) input_shape
      ∙ drop-append_length 4 (le_bytes 4 (length payload)) after_len (length-le_bytes 4 _)

  crc_read : from_le_bytes (slice 4 4 input) ≡ crc32 payload
  crc_read =
      ap (λ xs. from_le_bytes (take 4 xs)) drop_four
      ∙ ap from_le_bytes (
          take-append_length 4 (le_bytes 4 (crc32 payload)) (payload ++ rest) (length-le_bytes 4 _))
      ∙ from_le_bytes-le_bytes 4 (crc32 payload) (crc32-lt payload)

  drop_eight : drop 8 input ≡ payload ++ rest
  drop_eight =
      sym (drop-drop 4 4 input)
      ∙ ap (drop 4) drop_four
      ∙ drop-append_length 4 (le_bytes 4 (crc32 payload)) (payload ++ rest) (length-le_bytes 4 _)

  payload_read : slice 8 (length payload) input ≡ payload
  payload_read =
      ap (take (length payload)) drop_eight ∙ take-append_length (length payload) payload rest refl

  -- A frame is read back, whatever follows it, and exactly its bytes are consumed. The fields of
  -- the record fit.
  pub decode_frame-encode_frame :
      decode_frame (encode_frame r ++ rest) ≡ some (r, length (encode_frame r))
  unfolding decode_frame
  decode_frame-encode_frame =
      rw (long, len_read, crc_read, payload_read, whole, ==_refl, decode_payload-encode_payload r h)
        (ap (λ (n : ℕ). some (r, n))
          (omega (arith, len_read, length-encode_frame r, length-encode_payload r)))
    where
      long : ltb (length input) 8 ≡ false
      long = omega (tests, length-append (encode_frame r) rest, length-encode_frame r)

      whole : ltb (length input) (8 + length payload) ≡ false
      whole = omega (
        tests,
        length-append (encode_frame r) rest,
        length-encode_frame r,
        length-encode_payload r,
      )

-- An input is refused when its header promises more bytes than there are.
pub decode_frame_short :
    (len : ℕ) (input tail : List ℕ)
    → IsU32 len
    → input ≡ le_bytes 4 len ++ tail
    → length input < 8 + len
    → decode_frame input ≡ none
unfolding decode_frame
decode_frame_short len input tail fits e short = elim (Bool-cases (ltb (length input) 8)) [
  | inl tiny ↦ rw tiny
  | inr _ ↦ rw (promised, le→ltb_true) (ground arith)
]
  where
    promised : from_le_bytes (slice 0 4 input) ≡ len
    promised =
        ap (λ xs. from_le_bytes (take 4 xs)) e
        ∙ ap from_le_bytes (take-append_length 4 (le_bytes 4 len) tail (length-le_bytes 4 len))
        ∙ from_le_bytes-le_bytes 4 len fits

    le→ltb_true : ltb (length input) (8 + len) ≡ true
    le→ltb_true = omega tests

-- An input of fewer than eight bytes is refused.
pub decode_frame_tiny : (input : List ℕ) → length input < 8 → decode_frame input ≡ none
unfolding decode_frame
decode_frame_tiny input short = rw (lt→ltb (length input) 8 short)

-- A torn frame is refused, also with more bytes behind it that do not make up what is missing:
-- `n` bytes of the frame reached the file, and `more` was appended later.
pub decode_frame_torn :
    (r : WalRecord) (n : ℕ) (more : List ℕ)
    → IsRecord r
    → 4 ≤ n
    → n + length more < length (encode_frame r)
    → n ≤ length (encode_frame r)
    → decode_frame (take n (encode_frame r) ++ more) ≡ none
decode_frame_torn r n more h four short fits =
    decode_frame_short (length payload) (take n (encode_frame r) ++ more)
      (take (n - 4) after ++ more) (omega (arith, h.len_fits, length-encode_payload r)) shape
      (omega (
        arith,
        length-append (take n (encode_frame r)) more,
        length-take n (encode_frame r),
        length-encode_frame r,
        length-encode_payload r,
      ))
  where
    payload : List ℕ
    payload = encode_payload r

    after : List ℕ
    after = le_bytes 4 (crc32 payload) ++ payload

    header : take n (encode_frame r) ≡ le_bytes 4 (length payload) ++ take (n - 4) after
    header =
        ap (λ (k : ℕ). take k (encode_frame r)) {y = length (le_bytes 4 (length payload)) + (n - 4)}
          (omega (arith, length-le_bytes 4 (length payload)))
        ∙ unfold encode_frame in take-append_ge (n - 4) (le_bytes 4 (length payload)) after

    shape :
        take n (encode_frame r) ++ more
        ≡ le_bytes 4 (length payload) ++ (take (n - 4) after ++ more)
    shape = rw header (append_assoc (le_bytes 4 (length payload)) (take (n - 4) after) more)

-- A proper prefix of a frame is refused. The fields of the record fit.
pub decode_frame-take :
    (r : WalRecord) (n : ℕ)
    → IsRecord r
    → n < length (encode_frame r)
    → decode_frame (take n (encode_frame r)) ≡ none
decode_frame-take r n h short = elim (Bool-cases (ltb n 4)) [
  | inl tiny ↦
      decode_frame_tiny (take n (encode_frame r)) (omega (tests, length-take n (encode_frame r)))
  | inr long ↦
      rw append-nil at (decode_frame_torn r n [] h (omega tests) (omega arith) (omega arith))
]
