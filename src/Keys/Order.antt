-- ===== src/Keys/Order.antt =====
-- What the key encoding keeps: the parts are read back, and the byte order is an order of the parts.
use native.Mathlib.Nat.{pow-suc}
use grainstore.Base.{
  ℕ, zero, suc, ◌+◌, ◌-◌, ◌*◌, ◌/◌, ◌%◌, ◌^◌, ◌<◌, ◌≡◌, refl, ap, sym, ◌∙◌, Bool, true, false, List,
  [], ◌∷◌, ◌++◌, some, length, length-append, All, All-append, arith, compare, Ordering, eq, ltb,
  ◌==◌, then_cmp, ◌&&◌, append_assoc, append-nil, tests, take, drop, take-append_length,
  drop-append_length,
}
use grainstore.Bytes.{IsByte, be_bytes, from_be_bytes, bytes_cmp, starts_with}
use grainstore.Bytes.RoundTrip.{
  length-be_bytes, be_bytes-All-IsByte, from_be_bytes-be_bytes, from_be_bytes-append_byte,
}
use grainstore.Bytes.Order.{bytes_cmp-from_be_bytes}
use grainstore.Model.{Sid, PredId, Hlc, IsU128, IsU32, IsU64}
use grainstore.Keys.{key_len, not_u64, grain_key, grain_prefix, t_tx_from_key}

-- The parts of a key fit their fields.
pub record IsKey (sid pred t : ℕ) : Type 0 where
  pub sid_fits : IsU128 sid
  pub pred_fits : IsU32 pred
  pub t_fits : IsU64 t

-- A prefix and a key, read as big-endian numbers.
abbrev pub prefix_num : Sid → PredId → ℕ
prefix_num sid pred = sid * 2 ^ 32 + pred

abbrev pub key_num : Sid → PredId → Hlc → ℕ
key_num sid pred t = (sid * 2 ^ 32 + pred) * 2 ^ 64 + (2 ^ 64 - 1 - t)

from_be_bytes-append :
    (w : ℕ) (xs : List ℕ) (v : ℕ)
    → v < 256 ^ w
    → from_be_bytes (xs ++ be_bytes w v) ≡ from_be_bytes xs * 256 ^ w + v
unfolding be_bytes
from_be_bytes-append zero xs v h = rw append-nil (omega arith)
from_be_bytes-append (suc w) xs v h = rw (← append_assoc xs (be_bytes w (v / 256)) (v % 256 ∷ [])) (
    omega (
      arith,
      from_be_bytes-append_byte (xs ++ be_bytes w (v / 256)) (v % 256),
      from_be_bytes-append w xs (v / 256) (omega (arith, pow-suc 256 w)),
      ap (λ (t : ℕ). from_be_bytes xs * t) (pow-suc 256 w),
    ))

prefix_shape : (s p : ℕ) → (length (grain_prefix s p) ≡ 20) × All IsByte (grain_prefix s p)
unfolding grain_prefix
prefix_shape s p = (
  omega (
    arith,
    length-append (be_bytes 16 s) (be_bytes 4 p),
    length-be_bytes 16 s,
    length-be_bytes 4 p,
  ),
  All-append IsByte _ _ (be_bytes-All-IsByte 16 s) (be_bytes-All-IsByte 4 p),
)

pub key_shape : (s p t : ℕ) → (length (grain_key s p t) ≡ 28) × All IsByte (grain_key s p t)
unfolding grain_key grain_prefix
key_shape s p t = (
  omega (
    arith,
    length-append (grain_prefix s p) (be_bytes 8 (not_u64 t)),
    (prefix_shape s p).0,
    length-be_bytes 8 (not_u64 t),
  ),
  All-append IsByte _ _ (prefix_shape s p).1 (be_bytes-All-IsByte 8 (not_u64 t)),
)

prefix_value : (s p : ℕ) → IsU128 s → IsU32 p → from_be_bytes (grain_prefix s p) ≡ prefix_num s p
unfolding grain_prefix
prefix_value s p hs hp =
    omega (arith, from_be_bytes-append 4 (be_bytes 16 s) p hp, from_be_bytes-be_bytes 16 s hs)

key_value : (s p t : ℕ) → IsKey s p t → from_be_bytes (grain_key s p t) ≡ key_num s p t
unfolding grain_key grain_prefix not_u64
key_value s p t h = omega (
  arith,
  from_be_bytes-append 8 (grain_prefix s p) (not_u64 t) (omega arith),
  prefix_value s p h.sid_fits h.pred_fits,
)

pub bytes_cmp-grain_key_num :
    (s p t s' p' t' : ℕ)
    → IsKey s p t
    → IsKey s' p' t'
    → bytes_cmp (grain_key s p t) (grain_key s' p' t') ≡ compare (key_num s p t) (key_num s' p' t')
bytes_cmp-grain_key_num s p t s' p' t' h h' =
    let (n, b) = key_shape s p t in
    let (n', b') = key_shape s' p' t' in
    bytes_cmp-from_be_bytes (grain_key s p t) (grain_key s' p' t') (omega arith) b b'
    ∙ ap (λ k. compare k (from_be_bytes (grain_key s' p' t'))) (key_value s p t h)
    ∙ ap (compare (key_num s p t)) (key_value s' p' t' h')

-- The byte order of valid keys is: by sid, then by predicate, then the newest version first.
pub bytes_cmp-grain_key :
    (s p t s' p' t' : ℕ)
    → IsKey s p t
    → IsKey s' p' t'
    → bytes_cmp (grain_key s p t) (grain_key s' p' t')
      ≡ then_cmp (compare s s') (then_cmp (compare p p') (compare t' t))
bytes_cmp-grain_key s p t s' p' t' h h' = bytes_cmp-grain_key_num s p t s' p' t' h h' ∙ ground arith

abbrev is_eq : Ordering → Bool
is_eq eq = true
is_eq _ = false

starts_with-length :
    (xs ys ps : List ℕ)
    → length xs ≡ length ps
    → starts_with (xs ++ ys) ps ≡ is_eq (bytes_cmp xs ps)
unfolding starts_with bytes_cmp
starts_with-length [] ys [] h = refl
starts_with-length [] ys (p ∷ ps) h = absurd (omega arith)
starts_with-length (x ∷ xs) ys [] h = absurd (omega arith)
starts_with-length (x ∷ xs) ys (p ∷ ps) h = ground (arith, starts_with-length xs ys ps)

grain_key_split : (s p t : ℕ) → grain_key s p t ≡ grain_prefix s p ++ be_bytes 8 (not_u64 t)
unfolding grain_key grain_prefix
grain_key_split s p t = refl

starts_with_split :
    (s p t s' p' : ℕ)
    → starts_with (grain_key s p t) (grain_prefix s' p')
      ≡ is_eq (bytes_cmp (grain_prefix s p) (grain_prefix s' p'))
starts_with_split s p t s' p' = rw (grain_key_split s p t) (
    starts_with-length (grain_prefix s p) (be_bytes 8 (not_u64 t)) (grain_prefix s' p')
      (omega (arith, (prefix_shape s p).0, (prefix_shape s' p').0)))

bytes_cmp-grain_prefix :
    (s p s' p' : ℕ)
    → IsU128 s
    → IsU32 p
    → IsU128 s'
    → IsU32 p'
    → bytes_cmp (grain_prefix s p) (grain_prefix s' p')
      ≡ compare (prefix_num s p) (prefix_num s' p')
bytes_cmp-grain_prefix s p s' p' hs hp hs' hp' =
    let (n, b) = prefix_shape s p in
    let (n', b') = prefix_shape s' p' in
    bytes_cmp-from_be_bytes (grain_prefix s p) (grain_prefix s' p') (omega arith) b b'
    ∙ ap (λ k. compare k (from_be_bytes (grain_prefix s' p'))) (prefix_value s p hs hp)
    ∙ ap (compare (prefix_num s p)) (prefix_value s' p' hs' hp')

-- A valid key carries the prefix of `(s', p')` exactly when it is a key of `(s', p')`.
pub starts_with-grain_key :
    (s p t s' p' : ℕ)
    → IsKey s p t
    → IsU128 s'
    → IsU32 p'
    → starts_with (grain_key s p t) (grain_prefix s' p') ≡ (s == s' && p == p')
starts_with-grain_key s p t s' p' h hs hp =
    starts_with_split s p t s' p'
    ∙ ap is_eq (bytes_cmp-grain_prefix s p s' p' h.sid_fits h.pred_fits hs hp)
    ∙ ground arith

-- The commit time is read back from a key.
pub t_tx_from_key-grain_key : (s p t : ℕ) → IsU64 t → t_tx_from_key (grain_key s p t) ≡ some t
unfolding t_tx_from_key
t_tx_from_key-grain_key s p t h = rw long (ap some (rw suffix value))
  where
    long : ltb (length (grain_key s p t)) key_len ≡ false
    long = omega (tests, (key_shape s p t).0)

    suffix : take 8 (drop 20 (grain_key s p t)) ≡ be_bytes 8 (not_u64 t)
    suffix = rw (grain_key_split s p t) (
        rw (drop-append_length 20 (grain_prefix s p) (be_bytes 8 (not_u64 t)) (prefix_shape s p).0)
          (ap (take 8) (sym (append-nil _))
            ∙ take-append_length 8 (be_bytes 8 (not_u64 t)) [] (length-be_bytes 8 (not_u64 t))))

    value : not_u64 (from_be_bytes (be_bytes 8 (not_u64 t))) ≡ t
    value =
        rw (from_be_bytes-be_bytes 8 (not_u64 t) (unfold not_u64 in omega arith))
          (unfold not_u64 in omega arith)
