-- ===== src/Word/Laws.antt =====
-- The bits of an `i64` and back, and the flip of the sign bit.
use Prim.Native.Nat.{bit_xor}
use hench_db.Prelude.{ℕ, ◌+◌, ◌-◌, ◌^◌, ◌≡◌, arith, ltb, if◌then◌else◌}
use hench_db.Prelude.Int.{ℤ, pos, negsuc, ltb_ℤ}
use hench_db.Bits.{bit_xor_top}
use hench_db.Word.{InI64, IsU64, to_bits, of_bits, sign_bit}

pub to_bits-IsU64 : (v : ℤ) → InI64 v → IsU64 (to_bits v)
unfolding to_bits
to_bits-IsU64 (pos n) h = omega arith
to_bits-IsU64 (negsuc n) h = omega arith

pub of_bits-to_bits : (v : ℤ) → InI64 v → of_bits (to_bits v) ≡ v
unfolding of_bits to_bits
of_bits-to_bits (pos n) h = ground arith
of_bits-to_bits (negsuc n) h = ground arith

pub flip_sign :
    (b : ℕ) → IsU64 b → bit_xor b sign_bit ≡ (if ltb b sign_bit then b + sign_bit else b - sign_bit)
flip_sign b h = bit_xor_top 63 b h

pub flip_sign_IsU64 : (b : ℕ) → IsU64 b → IsU64 (bit_xor b sign_bit)
flip_sign_IsU64 b h = ground (arith, flip_sign b h)

pub flip_sign_twice : (b : ℕ) → IsU64 b → bit_xor (bit_xor b sign_bit) sign_bit ≡ b
flip_sign_twice b h =
    ground (arith, flip_sign b h, flip_sign (bit_xor b sign_bit) (flip_sign_IsU64 b h))

-- An integer moved up by 2^63: what the flipped bits of an `i64` stand for.
abbrev offset : ℤ → ℕ
offset (pos n) = n + 2 ^ 63
offset (negsuc n) = 2 ^ 63 - 1 - n

flip_sign-to_bits : (v : ℤ) → InI64 v → bit_xor (to_bits v) sign_bit ≡ offset v
unfolding to_bits
flip_sign-to_bits (pos n) h = ground (arith, flip_sign n (omega arith))
flip_sign-to_bits (negsuc n) h = ground (arith, flip_sign (2 ^ 64 - 1 - n) (omega arith))

offset_order : (v w : ℤ) → InI64 v → InI64 w → ltb (offset v) (offset w) ≡ ltb_ℤ v w
offset_order (pos n) (pos m) h k = ground arith
offset_order (pos n) (negsuc m) h k = ground arith
offset_order (negsuc n) (pos m) h k = ground arith
offset_order (negsuc n) (negsuc m) h k = ground arith

-- With the sign bit flipped the unsigned order of the bits is the order of the integers.
pub flip_sign_order :
    (v w : ℤ)
    → InI64 v
    → InI64 w
    → ltb (bit_xor (to_bits v) sign_bit) (bit_xor (to_bits w) sign_bit) ≡ ltb_ℤ v w
flip_sign_order v w h k = rw (flip_sign-to_bits v h, flip_sign-to_bits w k) (offset_order v w h k)
