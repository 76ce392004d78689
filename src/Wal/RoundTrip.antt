-- ===== src/Wal/RoundTrip.antt =====
-- What is decoded is what was encoded.
use grainstore.Base.{
  ℕ, zero, suc, ◌+◌, ◌≡◌, refl, sym, ap, ◌∙◌, List, [], ◌∷◌, ◌++◌, some, length, take, drop, arith,
  length-append, false, tests, ltb,
}
use grainstore.Bytes.{be_bytes, from_be_bytes}
use grainstore.Bytes.RoundTrip.{length-be_bytes}
use grainstore.Model.{IsU8, IsU32, IsU64, IsU128}
use grainstore.Wal.{
  slice, byte_at, rec_fixed, WalRecord, Value, encode_value, decode_value, encode_payload,
  decode_payload,
}
use grainstore.Wal.Fields.{drop-drop, drop_field, read_field}

-- The fields fit their Rust types, and the payload's length fits the 32 bits of the header.
pub record IsRecord (r : WalRecord) : Type 0 where
  pub seq_fits : IsU64 r.seq
  pub sid_fits : IsU128 r.sid
  pub pred_fits : IsU32 r.pred
  pub op_fits : IsU8 r.op
  pub c_fits : IsU32 r.c
  pub t_valid_fits : IsU64 r.t_valid
  pub idem_fits : IsU128 r.idem_key
  pub len_fits : IsU32 (61 + length r.val)

length-encode_value :
    (op : ℕ) (val : List ℕ) (c t_valid : ℕ)
    → length (encode_value op val c t_valid) ≡ 13 + length val
unfolding encode_value
length-encode_value op val c t_valid = omega (
  arith,
  length-append (be_bytes 4 c) (be_bytes 8 t_valid ++ val),
  length-append (be_bytes 8 t_valid) val,
  length-be_bytes 4 c,
  length-be_bytes 8 t_valid,
)

-- A stored value is read back, whatever the value bytes are. Confidence and valid time fit their
-- widths.
pub decode_value-encode_value :
    (op : ℕ) (val : List ℕ) (c t_valid : ℕ)
    → IsU32 c
    → IsU64 t_valid
    → decode_value (encode_value op val c t_valid)
      ≡ some (record { op = op; c = c; t_valid = t_valid; val = val })
unfolding decode_value
decode_value-encode_value op val c t_valid hc ht = rw long (ap some same)
  where
    v : List ℕ
    v = encode_value op val c t_valid

    after_c : List ℕ
    after_c = be_bytes 8 t_valid ++ val

    long : ltb (length v) 13 ≡ false
    long = omega (tests, length-encode_value op val c t_valid)

    d0 : v ≡ op ∷ (be_bytes 4 c ++ after_c)
    d0 = unfold encode_value in refl

    d1 : drop 1 v ≡ be_bytes 4 c ++ after_c
    d1 = ap (drop 1) d0

    d5 : drop 5 v ≡ be_bytes 8 t_valid ++ val
    d5 = drop_field 1 4 c v after_c d1

    d13 : drop 13 v ≡ val
    d13 = drop_field 5 8 t_valid v val d5

    same :
        ◌≡◌ {A = Value}
          (record {
            op = byte_at 0 v;
            c = from_be_bytes (slice 1 4 v);
            t_valid = from_be_bytes (slice 5 8 v);
            val = drop 13 v;
          })
          (record { op = op; c = c; t_valid = t_valid; val = val })
    same = λ i. record {
      op = ap (byte_at 0) d0 i;
      c = read_field 1 4 c v after_c d1 hc i;
      t_valid = read_field 5 8 t_valid v val d5 ht i;
      val = d13 i;
    }

-- The payload after each of its fields, from the front.
module _ (r : WalRecord) where
  abbrev after_vlen : List ℕ
  after_vlen = r.val

  abbrev after_idem : List ℕ
  after_idem = be_bytes 4 (length r.val) ++ after_vlen

  abbrev after_t_valid : List ℕ
  after_t_valid = be_bytes 16 r.idem_key ++ after_idem

  abbrev after_c : List ℕ
  after_c = be_bytes 8 r.t_valid ++ after_t_valid

  abbrev after_op : List ℕ
  after_op = be_bytes 4 r.c ++ after_c

  abbrev after_pred : List ℕ
  after_pred = r.op ∷ after_op

  abbrev after_sid : List ℕ
  after_sid = be_bytes 4 r.pred ++ after_pred

  abbrev after_seq : List ℕ
  after_seq = be_bytes 16 r.sid ++ after_sid

  abbrev p : List ℕ
  p = encode_payload r

  d0 : p ≡ be_bytes 8 r.seq ++ after_seq
  d0 = unfold encode_payload in refl

  d8 : drop 8 p ≡ after_seq
  d8 = drop_field 0 8 r.seq p after_seq d0

  d24 : drop 24 p ≡ after_sid
  d24 = drop_field 8 16 r.sid p after_sid d8

  d28 : drop 28 p ≡ after_pred
  d28 = drop_field 24 4 r.pred p after_pred d24

  d29 : drop 29 p ≡ after_op
  d29 = sym (drop-drop 28 1 p) ∙ ap (drop 1) d28

  d33 : drop 33 p ≡ after_c
  d33 = drop_field 29 4 r.c p after_c d29

  d41 : drop 41 p ≡ after_t_valid
  d41 = drop_field 33 8 r.t_valid p after_t_valid d33

  d57 : drop 57 p ≡ after_idem
  d57 = drop_field 41 16 r.idem_key p after_idem d41

  d61 : drop 61 p ≡ r.val
  d61 = drop_field 57 4 (length r.val) p after_vlen d57

byte_at-drop :
    (i : ℕ) (xs : List ℕ) (b : ℕ) (rest : List ℕ) → drop i xs ≡ b ∷ rest → byte_at i xs ≡ b
byte_at-drop zero [] b rest h = cc
byte_at-drop zero (x ∷ xs) b rest h = ground arith
byte_at-drop (suc i) [] b rest h = cc
byte_at-drop (suc i) (x ∷ xs) b rest h = byte_at-drop i xs b rest h

take_all {ℓ} : {A : Type ℓ} (xs : List A) → take (length xs) xs ≡ xs
take_all [] = refl
take_all (x ∷ xs) = ap (◌∷◌ x) (take_all xs)

pub length-encode_payload : (r : WalRecord) → length (encode_payload r) ≡ 61 + length r.val
length-encode_payload r = omega (
  arith,
  ap length (d0 r),
  length-append (be_bytes 8 r.seq) (after_seq r),
  length-append (be_bytes 16 r.sid) (after_sid r),
  length-append (be_bytes 4 r.pred) (after_pred r),
  length-append (be_bytes 4 r.c) (after_c r),
  length-append (be_bytes 8 r.t_valid) (after_t_valid r),
  length-append (be_bytes 16 r.idem_key) (after_idem r),
  length-append (be_bytes 4 (length r.val)) r.val,
  length-be_bytes,
)

-- A record is read back from its payload. The fields of the record fit.
pub decode_payload-encode_payload :
    (r : WalRecord) → IsRecord r → decode_payload (encode_payload r) ≡ some r
unfolding decode_payload
decode_payload-encode_payload r h = rw (fixed, vlen, all_there) (ap some same)
  where
    vlen : from_be_bytes (slice 57 4 (p r)) ≡ length r.val
    vlen = read_field 57 4 (length r.val) (p r) r.val (d57 r) (omega (arith, h.len_fits))

    fixed : ltb (length (p r)) rec_fixed ≡ false
    fixed = omega (tests, length-encode_payload r)

    all_there : ltb (length (p r)) (rec_fixed + length r.val) ≡ false
    all_there = omega (tests, length-encode_payload r)

    same :
        ◌≡◌ {A = WalRecord}
          (record {
            seq = from_be_bytes (slice 0 8 (p r));
            sid = from_be_bytes (slice 8 16 (p r));
            pred = from_be_bytes (slice 24 4 (p r));
            op = byte_at 28 (p r);
            c = from_be_bytes (slice 29 4 (p r));
            t_valid = from_be_bytes (slice 33 8 (p r));
            idem_key = from_be_bytes (slice 41 16 (p r));
            val = slice 61 (length r.val) (p r);
          })
          r
    same = λ i. record {
      seq = read_field 0 8 r.seq (p r) (after_seq r) (d0 r) h.seq_fits i;
      sid = read_field 8 16 r.sid (p r) (after_sid r) (d8 r) h.sid_fits i;
      pred = read_field 24 4 r.pred (p r) (after_pred r) (d24 r) h.pred_fits i;
      op = byte_at-drop 28 (p r) r.op (after_op r) (d28 r) i;
      c = read_field 29 4 r.c (p r) (after_c r) (d29 r) h.c_fits i;
      t_valid = read_field 33 8 r.t_valid (p r) (after_t_valid r) (d33 r) h.t_valid_fits i;
      idem_key = read_field 41 16 r.idem_key (p r) (after_idem r) (d41 r) h.idem_fits i;
      val = (ap (take (length r.val)) (d61 r) ∙ take_all r.val) i;
    }
