-- ===== src/Key/Order.antt =====
-- The byte order of encoded keys is the order of the values.
use Prim.Native.Nat.{bit_xor}
use hench_db.Prelude.{ℕ, ◌≡◌, ◌≢◌, refl, ◌∙◌, false, [], ◌∷◌, arith, ltb}
use hench_db.Prelude.Int.{ℤ, ltb_ℤ}
use hench_db.Bytes.{Bytes, be_bytes, bytes_lt}
use hench_db.Bytes.Laws.{bytes_lt-be_bytes}
use hench_db.Word.{InI64, IsU64, to_bits, sign_bit, is_nan, float_nonneg}
use hench_db.Word.Laws.{to_bits-IsU64, flip_sign, flip_sign_IsU64, flip_sign_order}
use hench_db.Datum.{Datum, int, float, text, bool, date_time, IsDatum}
use hench_db.Datum.Order.{cmp, is_lt, compare_bytes, compare_float}
use hench_db.Error.{ok}
use hench_db.Key.{encode_key, order_float}

-- A float whose key is in order: no NaN, and not minus zero.
abbrev pub IsOrdered : ℕ → Type 0
IsOrdered b = (is_nan b ≡ false) × (b ≢ sign_bit)

-- Two values of one kind that a key can hold, floats being neither NaN nor minus zero.
abbrev pub SameKind : Datum → Datum → Type 0
SameKind (int a) (int b) = Unit
SameKind (float a) (float b) = IsOrdered a × IsOrdered b
SameKind (text a) (text b) = Unit
SameKind (bool a) (bool b) = Unit
SameKind (date_time a) (date_time b) = Unit
SameKind _ _ = ⊥

pub int_key_order :
    (v w : ℤ)
    → InI64 v
    → InI64 w
    → bytes_lt
        (be_bytes 8 (bit_xor (to_bits v) sign_bit))
        (be_bytes 8 (bit_xor (to_bits w) sign_bit))
      ≡ ltb_ℤ v w
int_key_order v w h k =
    bytes_lt-be_bytes 8 _ _ (flip_sign_IsU64 _ (to_bits-IsU64 v h))
      (flip_sign_IsU64 _ (to_bits-IsU64 w k))
    ∙ flip_sign_order v w h k

pub order_float-IsU64 : (b : ℕ) → IsU64 b → IsU64 (order_float b)
unfolding order_float
order_float-IsU64 b h = ground (arith, flip_sign_IsU64 b h)

-- The ordered bits of two ordinary floats compare as the floats do.
pub order_float_order :
    (a b : ℕ)
    → IsU64 a
    → IsU64 b
    → IsOrdered a
    → IsOrdered b
    → ltb (order_float a) (order_float b) ≡ is_lt (compare_float a b)
unfolding order_float compare_float float_nonneg
order_float_order a b h k (na, za) (nb, zb) = ground (arith, flip_sign a h, flip_sign b k)

pub bytes_lt-compare : (s t : Bytes) → bytes_lt s t ≡ is_lt (compare_bytes s t)
unfolding bytes_lt compare_bytes
bytes_lt-compare [] [] = refl
bytes_lt-compare [] (c ∷ t) = refl
bytes_lt-compare (b ∷ s) [] = refl
bytes_lt-compare (b ∷ s) (c ∷ t) = ground (arith, bytes_lt-compare s t)

-- For two values of one kind and in range, floats being neither NaN nor minus zero, that both
-- have a key, the keys compare byte by byte as the order of the values does.
pub encode_key-order :
    (int_as_float : ℤ → ℕ) (a b : Datum) {ka kb : Bytes}
    → IsDatum a
    → IsDatum b
    → SameKind a b
    → encode_key a ≡ ok ka
    → encode_key b ≡ ok kb
    → bytes_lt ka kb ≡ is_lt (cmp int_as_float a b)
unfolding cmp encode_key bytes_lt
encode_key-order f (int a) (int b) h k s p q = ground (arith, int_key_order a b)
encode_key-order f (float a) (float b) h k (oa, ob) p q = ground (
  arith,
  order_float_order a b,
  bytes_lt-be_bytes 8 (order_float a) (order_float b),
  order_float-IsU64 a,
  order_float-IsU64 b,
)
encode_key-order f (text a) (text b) h k s p q = ground (arith, bytes_lt-compare a b)
encode_key-order f (bool a) (bool b) h k s p q = ground arith
encode_key-order f (date_time a) (date_time b) h k s p q = ground (arith, int_key_order a b)
encode_key-order f _ _ h k s p q = absurd s
