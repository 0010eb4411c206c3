-- ===== src/Key/RoundTrip.antt =====
-- What `decode_key` makes of an encoded key.
use hench_db.Prelude.{ℕ, ◌≡◌, refl, true, false, some, [], ◌∷◌, arith, length, take}
use Prim.Native.Nat.{bit_xor}
use hench_db.Bytes.{Bytes, be_bytes, bytes_lt}
use hench_db.Bytes.Laws.{bytes_lt-be_bytes, length-be_bytes, from_be-be_bytes}
use hench_db.Word.{IsU64, to_bits, of_bits, sign_bit, float_nonneg}
use hench_db.Word.Laws.{to_bits-IsU64, of_bits-to_bits, flip_sign, flip_sign_IsU64, flip_sign_twice}
use hench_db.Bits.{bit_and_top}
use hench_db.Datum.{Datum, null, int, float, text, bool, date_time, IsDatum}
use hench_db.Datum.Order.{compare_float, is_lt}
use hench_db.Error.{ok}
use hench_db.Key.{encode_key, decode_key, order_float, unorder_float, word_then, flag_then}
use hench_db.Key.Order.{IsOrdered, order_float-IsU64}

take_all : (xs : Bytes) → take (length xs) xs ≡ xs
take_all [] = refl
take_all (x ∷ xs) = rw (take_all xs)

word_then-be_bytes :
    (v : ℕ) (make : ℕ → Datum) → IsU64 v → word_then (be_bytes 8 v) make ≡ some (ok (make v))
unfolding word_then
word_then-be_bytes v make h =
    let all : take 8 (be_bytes 8 v) ≡ be_bytes 8 v =
      rw (length-be_bytes 8 v) at (take_all (be_bytes 8 v)) in
    rw (length-be_bytes 8 v, all, from_be-be_bytes 8 v h)

pub unorder_float-order_float : (b : ℕ) → IsU64 b → IsOrdered b → unorder_float (order_float b) ≡ b
unfolding order_float unorder_float float_nonneg
unorder_float-order_float b h (n, z) = ground (
  arith,
  flip_sign b h,
  flip_sign_twice b h,
  bit_and_top 63 (order_float b) (order_float-IsU64 b h),
)

-- A value as a key holds it: not NULL, and a float neither NaN nor minus zero.
abbrev pub IsKey : Datum → Type 0
IsKey null = ⊥
IsKey (float v) = IsOrdered v
IsKey _ = Unit

abbrev int_of_key : ℕ → Datum
int_of_key bits = int (of_bits (bit_xor bits sign_bit))

abbrev date_of_key : ℕ → Datum
date_of_key bits = date_time (of_bits (bit_xor bits sign_bit))

-- Decoding an encoded key gives the value back and does not panic, for a value in range that is
-- neither NULL, NaN nor minus zero.
pub decode_key-encode_key :
    (d : Datum) {k : Bytes} → IsDatum d → IsKey d → encode_key d ≡ ok k → decode_key k ≡ some (ok d)
unfolding encode_key decode_key flag_then
decode_key-encode_key null h i e = absurd i
decode_key-encode_key (int v) h i e = ground (
  arith,
  word_then-be_bytes (bit_xor (to_bits v) sign_bit) int_of_key,
  flip_sign_IsU64 (to_bits v) (to_bits-IsU64 v h),
  flip_sign_twice (to_bits v) (to_bits-IsU64 v h),
  of_bits-to_bits v h,
)
decode_key-encode_key (float v) h i e = ground (
  arith,
  word_then-be_bytes (order_float v) (λ bits. float (unorder_float bits)),
  order_float-IsU64 v h,
  unorder_float-order_float v h i,
)
decode_key-encode_key (text s) h i e = ground arith
decode_key-encode_key (bool true) h i e = ground arith
decode_key-encode_key (bool false) h i e = ground arith
decode_key-encode_key (date_time v) h i e = ground (
  arith,
  word_then-be_bytes (bit_xor (to_bits v) sign_bit) date_of_key,
  flip_sign_IsU64 (to_bits v) (to_bits-IsU64 v h),
  flip_sign_twice (to_bits v) (to_bits-IsU64 v h),
  of_bits-to_bits v h,
)

-- The key of minus zero lies below the key of every negative number, though minus zero is
-- greater.
pub minus_zero_misplaced :
    (b : ℕ) {k m : Bytes}
    → IsU64 b
    → is_lt (compare_float b sign_bit) ≡ true
    → encode_key (float b) ≡ ok k
    → encode_key (float sign_bit) ≡ ok m
    → bytes_lt m k ≡ true
unfolding encode_key bytes_lt compare_float order_float float_nonneg
minus_zero_misplaced b h neg p q = ground (
  arith,
  bytes_lt-be_bytes 8 (order_float sign_bit) (order_float b),
  flip_sign b h,
  flip_sign sign_bit,
)
