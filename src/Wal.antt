-- ===== src/Wal.antt =====
-- src/wal.rs: write requests, log records and their byte encodings. `Wal.Commit` is the committer.
pub mod Crc
pub mod Fields
pub mod RoundTrip
pub mod Commit
pub mod Frames
use grainstore.Base.{
  ℕ, ◌+◌, List, [], ◌∷◌, ◌++◌, Option, none, some, Bool, length, take, drop, get_elem?, ltb, ◌==◌,
  if◌then◌else◌,
}
use grainstore.Bytes.{be_bytes, from_be_bytes, le_bytes, from_le_bytes}
use grainstore.Model.{Sid, PredId}
use Crc.{crc32}

abbrev pub op_put : ℕ
op_put = 0

abbrev pub op_delete : ℕ
op_delete = 1

abbrev pub rec_fixed : ℕ
rec_fixed = 61

pub record WriteReq : Type 0 where
  pub sid : ℕ
  pub pred : ℕ
  pub op : ℕ
  pub val : List ℕ
  pub c : ℕ
  pub t_valid : ℕ
  pub idem_key : ℕ

-- WriteReq::put
unfoldable pub put : Sid → PredId → List ℕ → ℕ → ℕ → ℕ → WriteReq
put sid pred val c t_valid idem = record {
  sid = sid;
  pred = pred;
  op = op_put;
  val = val;
  c = c;
  t_valid = t_valid;
  idem_key = idem;
}

-- WriteReq::delete
unfoldable pub delete : Sid → PredId → ℕ → ℕ → ℕ → WriteReq
delete sid pred c t_valid idem = record {
  sid = sid;
  pred = pred;
  op = op_delete;
  val = [];
  c = c;
  t_valid = t_valid;
  idem_key = idem;
}

pub record WalRecord : Type 0 where
  pub seq : ℕ
  pub sid : ℕ
  pub pred : ℕ
  pub op : ℕ
  pub c : ℕ
  pub t_valid : ℕ
  pub idem_key : ℕ
  pub val : List ℕ

-- WalRecord::is_delete
unfoldable pub is_delete : WalRecord → Bool
is_delete r = r.op == op_delete

-- The value kept in the store: `[op: 1][c: 4 BE][t_valid: 8 BE][val]`.
unfoldable pub encode_value : ℕ → List ℕ → ℕ → ℕ → List ℕ
encode_value op val c t_valid = op ∷ (be_bytes 4 c ++ (be_bytes 8 t_valid ++ val))

pub record Value : Type 0 where
  pub op : ℕ
  pub c : ℕ
  pub t_valid : ℕ
  pub val : List ℕ

-- `v[i]` where the length is known to suffice
abbrev pub byte_at : ℕ → List ℕ → ℕ
byte_at i v = elim (get_elem? v i) [ some b ↦ b | none ↦ 0 ]

-- `&v[from..from + len]`
abbrev pub slice : ℕ → ℕ → List ℕ → List ℕ
slice from len v = take len (drop from v)

-- `none` is `Error::Corrupt`.
unfoldable pub decode_value : List ℕ → Option Value
decode_value v =
    if ltb (length v) 13
    then none
    else some (record {
      op = byte_at 0 v;
      c = from_be_bytes (slice 1 4 v);
      t_valid = from_be_bytes (slice 5 8 v);
      val = drop 13 v;
    })

unfoldable pub encode_payload : WalRecord → List ℕ
encode_payload r =
    be_bytes 8 r.seq
    ++ (be_bytes 16 r.sid
        ++ (be_bytes 4 r.pred
            ++ (r.op
                ∷ (be_bytes 4 r.c
                    ++ (be_bytes 8 r.t_valid
                        ++ (be_bytes 16 r.idem_key ++ (be_bytes 4 (length r.val) ++ r.val)))))))

unfoldable pub decode_payload : List ℕ → Option WalRecord
decode_payload b =
    let vlen = from_be_bytes (slice 57 4 b) in
    if ltb (length b) rec_fixed
    then none
    else if ltb (length b) (rec_fixed + vlen)
    then none
    else some (record {
      seq = from_be_bytes (slice 0 8 b);
      sid = from_be_bytes (slice 8 16 b);
      pred = from_be_bytes (slice 24 4 b);
      op = byte_at 28 b;
      c = from_be_bytes (slice 29 4 b);
      t_valid = from_be_bytes (slice 33 8 b);
      idem_key = from_be_bytes (slice 41 16 b);
      val = slice rec_fixed vlen b;
    })

-- The frame that `encode_frame` appends to its buffer. `as u32` and `to_le_bytes` keep the low 32 bits.
unfoldable pub encode_frame : WalRecord → List ℕ
encode_frame r =
    let payload = encode_payload r in
    le_bytes 4 (length payload) ++ (le_bytes 4 (crc32 payload) ++ payload)

-- The record of the first frame, and the bytes consumed.
unfoldable pub decode_frame : List ℕ → Option (WalRecord × ℕ)
decode_frame input =
    let len = from_le_bytes (slice 0 4 input) in
    let crc = from_le_bytes (slice 4 4 input) in
    let end = 8 + len in
    let payload = slice 8 len input in
    if ltb (length input) 8
    then none
    else if ltb (length input) end
    then none
    else if crc32 payload == crc
    then elim (decode_payload payload) [ some rec ↦ some (rec, end) | none ↦ none ]
    else none
