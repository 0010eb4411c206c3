-- ===== src/Key.antt =====
-- crates/engine/src/types.rs: the keys of the B+ trees. The tree compares keys byte by byte, so an
-- encoded key must have the order of the value that it stands for.
pub mod Order
pub mod RoundTrip
pub mod Secondary
use Prim.Native.Nat.{bit_xor, bit_and}
use hench_db.Prelude.{
  ℕ, ◌-◌, ◌^◌, not, ◌≡◌, Bool, Option, none, some, [], ◌∷◌, length, take, drop, ltb, ◌==◌,
  if◌then◌else◌,
}
use hench_db.Bytes.{Bytes, be_bytes, from_be}
use hench_db.Word.{to_bits, of_bits, sign_bit, float_nonneg}
use hench_db.Utf8.{valid_utf8}
use hench_db.Error.{Result, ok, err, corrupted, not_null_violation}
use hench_db.Datum.{Datum, null, int, float, text, bool, date_time, bool_byte}

-- `if *v >= 0.0 { bits ^ 0x8000_0000_0000_0000 } else { !bits }`
unfoldable pub order_float : ℕ → ℕ
order_float bits = if float_nonneg bits then bit_xor bits sign_bit else 2 ^ 64 - 1 - bits

unfoldable pub encode_key : Datum → Result Bytes
encode_key (int v) = ok (1 ∷ be_bytes 8 (bit_xor (to_bits v) sign_bit))
encode_key (float v) = ok (2 ∷ be_bytes 8 (order_float v))
encode_key (text s) = ok (3 ∷ s)
encode_key (bool b) = ok (4 ∷ bool_byte b ∷ [])
encode_key (date_time v) = ok (5 ∷ be_bytes 8 (bit_xor (to_bits v) sign_bit))
encode_key null = err (not_null_violation [])

-- `if bits & 0x8000_0000_0000_0000 != 0 { bits ^ 0x8000_0000_0000_0000 } else { !bits }`
unfoldable pub unorder_float : ℕ → ℕ
unorder_float bits =
    if not (bit_and bits sign_bit == 0) then bit_xor bits sign_bit else 2 ^ 64 - 1 - bits

-- `key[1..9]` as a big-endian word; the slice panics (`none`) if the key is shorter.
unfoldable pub word_then : Bytes → (ℕ → Datum) → Option (Result Datum)
word_then rest make =
    if ltb (length rest) 8 then none else some (ok (make (from_be 0 (take 8 rest))))

-- `key[1] != 0`, which panics if the key has one byte
unfoldable pub flag_then : Bytes → Option (Result Datum)
flag_then [] = none
flag_then (b ∷ rest) = some (ok (bool (not (b == 0))))

unfoldable pub decode_key : Bytes → Option (Result Datum)
decode_key [] = some (err corrupted)
decode_key (tag ∷ rest) =
    if tag == 1
    then word_then rest (λ bits. int (of_bits (bit_xor bits sign_bit)))
    else if tag == 2
    then word_then rest (λ bits. float (unorder_float bits))
    else if tag == 3
    then some (if valid_utf8 rest then ok (text rest) else err corrupted)
    else if tag == 4
    then flag_then rest
    else if tag == 5
    then word_then rest (λ bits. date_time (of_bits (bit_xor bits sign_bit)))
    else some (err corrupted)
