-- ===== src/Word.antt =====
-- Rust's fixed-width values by their bit patterns: `i64` is an integer in range, with two's
-- complement as its bits; `f64` is known by its bits alone (IEEE 754 binary64).
pub mod Laws
use hench_db.Prelude.{ℕ, ◌-◌, ◌%◌, ◌^◌, ◌<◌, Bool, false, ◌||◌, ltb, ◌==◌, if◌then◌else◌}
use hench_db.Prelude.Int.{ℤ, pos, negsuc}

abbrev pub InI64 : ℤ → Type 0
InI64 (pos n) = n < 2 ^ 63
InI64 (negsuc n) = n < 2 ^ 63

abbrev pub IsU64 : ℕ → Type 0
IsU64 v = v < 2 ^ 64

-- `v as u64`
unfoldable pub to_bits : ℤ → ℕ
to_bits (pos n) = n
to_bits (negsuc n) = 2 ^ 64 - 1 - n

-- `bits as i64`
unfoldable pub of_bits : ℕ → ℤ
of_bits b = if ltb b (2 ^ 63) then pos b else negsuc (2 ^ 64 - 1 - b)

abbrev pub sign_bit : ℕ
sign_bit = 2 ^ 63

-- The exponent is all ones and the fraction is not 0.
unfoldable pub is_nan : ℕ → Bool
is_nan b = ltb 0x7FF0_0000_0000_0000 (b % 2 ^ 63)

-- `v >= 0.0`: a clear sign, or minus zero; never for a NaN.
unfoldable pub float_nonneg : ℕ → Bool
unfolding is_nan
float_nonneg b = if is_nan b then false else ltb b sign_bit || b == sign_bit
