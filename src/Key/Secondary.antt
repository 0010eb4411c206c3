-- ===== src/Key/Secondary.antt =====
-- crates/engine/src/types.rs: entries of a secondary index, the encoded column value followed by the
-- primary key. A text is escaped (0 becomes 0 0xFF) and ends in 0 0, so that a prefix sorts first.
pub mod Laws
pub mod Order
use hench_db.Prelude.{
  ℕ, not, Option, none, some, [], ◌∷◌, ◌++◌, length, take, drop, ltb, ◌==◌, if◌then◌else◌,
}
use Prim.Native.Nat.{bit_xor}
use hench_db.Bytes.{Bytes, be_bytes, from_be}
use hench_db.Word.{to_bits, of_bits, sign_bit}
use hench_db.Utf8.{valid_utf8}
use hench_db.Error.{Result, ok, err, corrupted, ◌>>=◌}
use hench_db.Datum.{Datum, null, int, float, text, bool, date_time, bool_byte}
use hench_db.Key.{encode_key, decode_key, order_float, unorder_float}

unfoldable pub escape : Bytes → Bytes
escape [] = 0 ∷ 0 ∷ []
escape (b ∷ bs) = if b == 0 then 0 ∷ 0xFF ∷ escape bs else b ∷ escape bs

-- It has no error: NULL too has a prefix.
unfoldable pub encode_sec_key_prefix : Datum → Bytes
encode_sec_key_prefix null = 0 ∷ []
encode_sec_key_prefix (int v) = 1 ∷ be_bytes 8 (bit_xor (to_bits v) sign_bit)
encode_sec_key_prefix (float v) = 2 ∷ be_bytes 8 (order_float v)
encode_sec_key_prefix (text s) = 3 ∷ escape s
encode_sec_key_prefix (bool b) = 4 ∷ bool_byte b ∷ []
encode_sec_key_prefix (date_time v) = 5 ∷ be_bytes 8 (bit_xor (to_bits v) sign_bit)

unfoldable pub encode_sec_index_key : Datum → Datum → Result Bytes
encode_sec_index_key sec pk = do
  pk_bytes ← encode_key pk
  ok (encode_sec_key_prefix sec ++ pk_bytes)

-- The loop over an escaped text, from `key[off]` on, with the bytes found so far.
unfoldable pub unescape : Bytes → Bytes → Result (Bytes × Bytes)
unescape found [] = err corrupted
unescape found (b ∷ []) = err corrupted
unescape found (b ∷ c ∷ rest) =
    let plain = unescape (found ++ (b ∷ [])) (c ∷ rest) in
    let nul = unescape (found ++ (0 ∷ [])) rest in
    if b == 0
    then (if c == 0 then ok (found, rest) else if c == 0xFF then nul else err corrupted)
    else plain

-- `key.len() < 9` counts the tag.
unfoldable pub sec_word : Bytes → (ℕ → Datum) → Result (Datum × Bytes)
sec_word rest make =
    if ltb (length rest) 8 then err corrupted else ok (make (from_be 0 (take 8 rest)), drop 8 rest)

unfoldable pub sec_text : Bytes → Result (Datum × Bytes)
sec_text rest = do
  (s, after) ← unescape [] rest
  if valid_utf8 s then ok (text s, after) else err corrupted

sec_flag : Bytes → Result (Datum × Bytes)
sec_flag [] = err corrupted
sec_flag (b ∷ rest) = ok (bool (not (b == 0)), rest)

-- The column's value, and the bytes from which the primary key is read.
unfoldable pub decode_sec : ℕ → Bytes → Result (Datum × Bytes)
unfolding sec_flag
decode_sec tag rest =
    if tag == 0
    then ok (null, rest)
    else if tag == 1
    then sec_word rest (λ bits. int (of_bits (bit_xor bits sign_bit)))
    else if tag == 2
    then sec_word rest (λ bits. float (unorder_float bits))
    else if tag == 3
    then sec_text rest
    else if tag == 4
    then sec_flag rest
    else if tag == 5
    then sec_word rest (λ bits. date_time (of_bits (bit_xor bits sign_bit)))
    else err corrupted

pair_with : Datum → Option (Result Datum) → Option (Result (Datum × Datum))
pair_with sec none = none
pair_with sec (some (err e)) = some (err e)
pair_with sec (some (ok pk)) = some (ok (sec, pk))

finish : Result (Datum × Bytes) → Option (Result (Datum × Datum))
unfolding pair_with
finish (err e) = some (err e)
finish (ok (sec, rest)) = pair_with sec (decode_key rest)

decode_column : Bytes → Result (Datum × Bytes)
decode_column [] = err corrupted
decode_column (tag ∷ rest) = decode_sec tag rest

-- `none` is the panic of `decode_key`.
unfoldable pub decode_sec_index_key : Bytes → Option (Result (Datum × Datum))
unfolding finish decode_column
decode_sec_index_key key = finish (decode_column key)
