-- ===== src/Wal/Crc.antt =====
-- src/wal.rs: CRC-32 (IEEE 802.3), bit by bit.
use Prim.Native.Nat.{bit_and, bit_xor}
use grainstore.Base.{ℕ, zero, suc, ◌-◌, ◌/◌, ◌%◌, ◌^◌, ◌<◌, ◌≡◌, refl, List, [], ◌∷◌, foldl, arith}

-- `x.wrapping_neg()` on a `u32`
abbrev wrapping_neg : ℕ → ℕ
wrapping_neg x = (2 ^ 32 - x) % 2 ^ 32

-- One round of the inner loop.
crc_bit : ℕ → ℕ
crc_bit crc = bit_xor (crc / 2) (bit_and 0xedb88320 (wrapping_neg (bit_and crc 1)))

crc_bits : ℕ → ℕ → ℕ
unfolding crc_bit
crc_bits zero crc = crc
crc_bits (suc n) crc = crc_bits n (crc_bit crc)

crc_byte : ℕ → ℕ → ℕ
unfolding crc_bits
crc_byte crc b = crc_bits 8 (bit_xor crc b)

-- `!crc` on a `u32`
abbrev not_u32 : ℕ → ℕ
not_u32 x = 2 ^ 32 - 1 - x

unfoldable pub crc32 : List ℕ → ℕ
unfolding crc_byte
crc32 bytes = not_u32 (foldl crc_byte 0xffff_ffff bytes)

-- The check value of the IEEE polynomial: the checksum of the text "123456789".
crc32_check : crc32 (0x31 ∷ 0x32 ∷ 0x33 ∷ 0x34 ∷ 0x35 ∷ 0x36 ∷ 0x37 ∷ 0x38 ∷ 0x39 ∷ []) ≡ 0xcbf43926
unfolding crc32
crc32_check = refl

-- A checksum fits four bytes.
pub crc32-lt : (bytes : List ℕ) → crc32 bytes < 2 ^ 32
unfolding crc32
crc32-lt bytes = omega arith
