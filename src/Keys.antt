-- ===== src/Keys.antt =====
-- src/keys.rs: the versioned key of a grain, `[sid: 16 BE][pred: 4 BE][!t_tx: 8 BE]`.
pub mod Order
use grainstore.Base.{
  ℕ, ◌-◌, ◌^◌, List, ◌++◌, Option, none, some, length, take, drop, ltb, if◌then◌else◌,
}
use grainstore.Bytes.{be_bytes, from_be_bytes}
use grainstore.Model.{Sid, PredId, Hlc}

abbrev pub key_len : ℕ
key_len = 28

abbrev pub prefix_len : ℕ
prefix_len = 20

-- `!x` on a `u64`
unfoldable pub not_u64 : ℕ → ℕ
not_u64 x = 2 ^ 64 - 1 - x

unfoldable pub grain_key : Sid → PredId → Hlc → List ℕ
grain_key sid pred t_tx = (be_bytes 16 sid ++ be_bytes 4 pred) ++ be_bytes 8 (not_u64 t_tx)

unfoldable pub grain_prefix : Sid → PredId → List ℕ
grain_prefix sid pred = be_bytes 16 sid ++ be_bytes 4 pred

unfoldable pub seek_target : Sid → PredId → Hlc → List ℕ
seek_target sid pred snapshot = grain_key sid pred snapshot

-- `key[PREFIX_LEN..KEY_LEN]` has 8 bytes once the length is checked, so `try_into` succeeds.
unfoldable pub t_tx_from_key : List ℕ → Option Hlc
t_tx_from_key key =
    if ltb (length key) key_len
    then none
    else some (not_u64 (from_be_bytes (take 8 (drop prefix_len key))))
