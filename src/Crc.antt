-- ===== src/Crc.antt =====
-- `crc32` of crates/engine/src/wal.rs, the checksum of every record and snapshot.
use Prim.Native.Nat.{bit_xor}
use hench_db.Prelude.{ℕ, zero, suc, ◌<◌, ◌^◌, ◌/◌, ◌%◌, [], ◌∷◌, arith, ◌==◌, if◌then◌else◌}
use hench_db.Bytes.{Bytes}
use hench_db.Bits.{bit_xor_lt}

-- `if c & 1 != 0 { 0xEDB8_8320 ^ (c >> 1) } else { c >> 1 }`
crc_round : ℕ → ℕ
crc_round c = if c % 2 == 1 then bit_xor 0xEDB8_8320 (c / 2) else c / 2

crc_rounds : ℕ → ℕ → ℕ
crc_rounds zero c = c
crc_rounds (suc n) c = crc_rounds n (crc_round c)

-- `table[i]`
poly_table : ℕ → ℕ
poly_table i = crc_rounds 8 i

-- `% 256` is `& 0xFF`, and `/ 256` is `>> 8`.
crc_bytes : ℕ → Bytes → ℕ
crc_bytes crc [] = crc
crc_bytes crc (b ∷ bs) = crc_bytes (bit_xor (poly_table (bit_xor crc b % 256)) (crc / 256)) bs

unfoldable pub crc32 : Bytes → ℕ
unfolding crc_bytes poly_table crc_rounds crc_round
crc32 buf = bit_xor (crc_bytes 0xFFFF_FFFF buf) 0xFFFF_FFFF

crc_rounds_lt : (n c : ℕ) → c < 2 ^ 32 → crc_rounds n c < 2 ^ 32
unfolding crc_rounds crc_round
crc_rounds_lt zero c h = h
crc_rounds_lt (suc n) c h =
    crc_rounds_lt n (crc_round c) (ground (arith, bit_xor_lt 32 0xEDB8_8320 (c / 2)))

crc_bytes_lt : (bs : Bytes) (crc : ℕ) → crc < 2 ^ 32 → crc_bytes crc bs < 2 ^ 32
unfolding crc_bytes poly_table
crc_bytes_lt [] crc h = h
crc_bytes_lt (b ∷ bs) crc h = crc_bytes_lt bs _ (
    bit_xor_lt 32 _ (crc / 256) (crc_rounds_lt 8 (bit_xor crc b % 256) (omega arith)) (omega arith))

-- A checksum is a u32.
pub crc32_lt : (buf : Bytes) → crc32 buf < 2 ^ 32
unfolding crc32
crc32_lt buf = bit_xor_lt 32 _ _ (crc_bytes_lt buf _ (omega arith)) (omega arith)
