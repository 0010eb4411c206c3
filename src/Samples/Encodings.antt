-- ===== src/Samples/Encodings.antt =====
-- Keys, index entries and values of rows.
use hench_db.Prelude.{ℕ, ◌≡◌, refl, ◌||◌, ◌&&◌, not, true, some, [], ◌∷◌, ◌++◌, arith}
use hench_db.Prelude.Int.{ℤ, pos}
use hench_db.Bytes.{Bytes, be_bytes, bytes_lt}
use hench_db.Word.{is_nan, to_bits, float_nonneg}
use hench_db.Utf8.{valid_utf8}
use hench_db.Error.{ok}
use hench_db.Datum.{int, float, text, encode, decode}
use hench_db.Datum.Order.{cmp, is_lt, compare_float}
use hench_db.Key.{encode_key, decode_key, order_float}
use hench_db.Key.Secondary.{
  encode_sec_key_prefix, encode_sec_index_key, decode_sec_index_key, escape,
}
use hench_db.Key.Order.{encode_key-order}
use hench_db.Key.RoundTrip.{decode_key-encode_key, minus_zero_misplaced}
use hench_db.Key.Secondary.Order.{sec_entry_order}
use hench_db.Key.Secondary.Laws.{decode_sec_index_key-encode, escape_order}
use hench_db.Datum.RoundTrip.{decode-encode}

-- The floats 1.0 and -1.0.
abbrev one : ℕ
one = 0x3FF0_0000_0000_0000

abbrev minus_one : ℕ
minus_one = 0xBFF0_0000_0000_0000

-- Exact for 0 alone, which is all that the samples convert.
abbrev to_float : ℤ → ℕ
to_float v = 0

abbrev float_key : Bytes
float_key = 2 ∷ 0xBF ∷ 0xF0 ∷ 0 ∷ 0 ∷ 0 ∷ 0 ∷ 0 ∷ 0 ∷ []

abbrev minus_float_key : Bytes
minus_float_key = 2 ∷ 0x40 ∷ 0x0F ∷ 0xFF ∷ 0xFF ∷ 0xFF ∷ 0xFF ∷ 0xFF ∷ 0xFF ∷ []

abbrev int_key : Bytes
int_key = 1 ∷ 0x80 ∷ 0 ∷ 0 ∷ 0 ∷ 0 ∷ 0 ∷ 0 ∷ 7 ∷ []

abbrev nul_text : Bytes
nul_text = 97 ∷ 0 ∷ []

encode_key-order_example :
    bytes_lt minus_float_key float_key ≡ is_lt (cmp to_float (float minus_one) (float one))
unfolding encode_key order_float be_bytes is_nan float_nonneg
encode_key-order_example =
    encode_key-order to_float (float minus_one) (float one) (omega arith) (omega arith)
      ((refl, ground arith), (refl, ground arith)) refl refl

decode_key-encode_key_example : decode_key float_key ≡ some (ok (float one))
unfolding encode_key order_float be_bytes is_nan float_nonneg
decode_key-encode_key_example =
    decode_key-encode_key (float one) (omega arith) (refl, ground arith) refl

minus_zero_misplaced_example :
    bytes_lt (2 ∷ 0 ∷ 0 ∷ 0 ∷ 0 ∷ 0 ∷ 0 ∷ 0 ∷ 0 ∷ []) minus_float_key ≡ true
unfolding encode_key order_float be_bytes is_nan float_nonneg compare_float
minus_zero_misplaced_example = minus_zero_misplaced minus_one (omega arith) refl refl refl

sec_entry_order_example :
    bytes_lt
      (encode_sec_key_prefix (text (97 ∷ [])) ++ int_key)
      (encode_sec_key_prefix (text nul_text) ++ int_key)
    ≡ (is_lt (cmp to_float (text (97 ∷ [])) (text nul_text))
        || (not (is_lt (cmp to_float (text nul_text) (text (97 ∷ []))))
            && bytes_lt int_key int_key))
unfolding valid_utf8
sec_entry_order_example =
    sec_entry_order to_float (text (97 ∷ [])) (text nul_text) int_key int_key (refl, omega arith)
      (refl, omega arith) tt

decode_sec_index_key-encode_example :
    decode_sec_index_key (3 ∷ 97 ∷ 0 ∷ 0xFF ∷ 0 ∷ 0 ∷ int_key)
    ≡ some (ok (text nul_text, int (pos 7)))
unfolding valid_utf8 encode_sec_index_key encode_key be_bytes to_bits encode_sec_key_prefix escape
decode_sec_index_key-encode_example =
    decode_sec_index_key-encode (text nul_text) (int (pos 7)) (refl, omega arith) (omega arith) tt
      tt refl

decode-encode_example : decode (encode (text nul_text) ++ int_key) ≡ ok (text nul_text, int_key)
unfolding valid_utf8
decode-encode_example = decode-encode (text nul_text) int_key (refl, omega arith)

escape_order_example :
    bytes_lt (escape (97 ∷ []) ++ int_key) (escape nul_text ++ [])
    ≡ (bytes_lt (97 ∷ []) nul_text || (not (bytes_lt nul_text (97 ∷ [])) && bytes_lt int_key []))
escape_order_example = escape_order (97 ∷ []) nul_text int_key []
