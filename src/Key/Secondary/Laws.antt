-- ===== src/Key/Secondary/Laws.antt =====
-- Entries of a secondary index are ordered by the column and then by the primary key, and decode to
-- the pair that they were made from.
use Prim.Native.Nat.{bit_xor}
use mathlib.Core.List.{append-nil, append_assoc}
use hench_db.Prelude.{
  ℕ, ◌≡◌, refl, ◌∙◌, ap, true, false, not, ◌&&◌, ◌||◌, some, [], ◌∷◌, ◌++◌, arith, ◌==◌, length,
  if◌then◌else◌, Bool-cases, inl, inr,
}
use hench_db.Bytes.{Bytes, be_bytes, bytes_lt}
use hench_db.Bytes.Laws.{length-be_bytes, from_be-be_bytes}
use hench_db.Word.{InI64, IsU64, to_bits, of_bits, sign_bit}
use hench_db.Word.Laws.{to_bits-IsU64, of_bits-to_bits, flip_sign_IsU64, flip_sign_twice}
use hench_db.Utf8.{IsText}
use hench_db.Error.{ok, ◌>>=◌, >>=-eq-ok}
use hench_db.Error.Reader.{take_append, drop_append, no_shorter}
use hench_db.Datum.{Datum, null, int, float, text, bool, date_time, IsDatum}
use hench_db.Prelude.Int.{ℤ}
use hench_db.Key.{encode_key, order_float, unorder_float}
use hench_db.Key.Order.{IsOrdered, order_float-IsU64}
use hench_db.Key.RoundTrip.{IsKey, decode_key-encode_key, unorder_float-order_float}
use hench_db.Key.Secondary.{
  escape, unescape, encode_sec_key_prefix, encode_sec_index_key, decode_sec_index_key, decode_sec,
  decode_column, sec_word, sec_text,
}

-- Escaped texts with anything behind them compare as the texts, and by what is behind them where
-- the texts are equal: no text's escape is the start of another's.
pub escape_order :
    (s t p q : Bytes)
    → bytes_lt (escape s ++ p) (escape t ++ q)
      ≡ (bytes_lt s t || (not (bytes_lt t s) && bytes_lt p q))
unfolding escape bytes_lt
escape_order [] [] p q = ground arith
escape_order [] (c ∷ t) p q = ground arith
escape_order (b ∷ s) [] p q = ground arith
escape_order (b ∷ s) (c ∷ t) p q = ground (arith, escape_order s t p q)

-- So do byte strings of one length.
pub append_order :
    (s t p q : Bytes)
    → length s ≡ length t
    → bytes_lt (s ++ p) (t ++ q) ≡ (bytes_lt s t || (not (bytes_lt t s) && bytes_lt p q))
unfolding bytes_lt
append_order [] [] p q e = ground arith
append_order [] (c ∷ t) p q e = absurd (omega arith)
append_order (b ∷ s) [] p q e = absurd (omega arith)
append_order (b ∷ s) (c ∷ t) p q e = ground (arith, append_order s t p q)

-- One round of the loop on a byte that is not 0.
plain_byte :
    (b : ℕ) (found s rest : Bytes)
    → (b == 0) ≡ false
    → unescape found (b ∷ (escape s ++ rest)) ≡ unescape (found ++ (b ∷ [])) (escape s ++ rest)
unfolding escape unescape
plain_byte b found [] rest h = ground arith
plain_byte b found (c ∷ s) rest h = elim (Bool-cases (c == 0)) [
  | inl e ↦ rw (e, h)
  | inr e ↦ rw (e, h)
]

unescape-escape : (s found rest : Bytes) → unescape found (escape s ++ rest) ≡ ok (found ++ s, rest)
unfolding escape
unescape-escape [] found rest = unfold unescape in rw (append-nil found)
unescape-escape (b ∷ s) found rest = elim (Bool-cases (b == 0)) [
  | inl nul ↦ nul_byte b nul s found rest (unescape-escape s (found ++ (0 ∷ [])) rest)
  | inr plain ↦
      rw (plain, if◌then◌else◌)
        (plain_byte b found s rest plain
          ∙ unescape-escape s (found ++ (b ∷ [])) rest
          ∙ ap (λ (t : Bytes). ok (t, rest)) (append_assoc found (b ∷ []) s))
]
  where
    nul_byte :
        (b : ℕ)
        → (b == 0) ≡ true
        → (s found rest : Bytes)
        → unescape (found ++ (0 ∷ [])) (escape s ++ rest) ≡ ok ((found ++ (0 ∷ [])) ++ s, rest)
        → unescape found (escape (b ∷ s) ++ rest) ≡ ok (found ++ b ∷ s, rest)
    nul_byte b e s found rest ih =
        unfold unescape in ground (arith, append_assoc found (0 ∷ []) s, ih)

-- A column's value that comes back: a float neither NaN nor minus zero.
abbrev IsColumn : Datum → Type 0
IsColumn (float v) = IsOrdered v
IsColumn _ = Unit

sec_word-be_bytes :
    (v : ℕ) (make : ℕ → Datum) (rest : Bytes)
    → IsU64 v
    → sec_word (be_bytes 8 v ++ rest) make ≡ ok (make v, rest)
unfolding sec_word
sec_word-be_bytes v make rest h = ground (
  arith,
  length-be_bytes 8 v,
  from_be-be_bytes 8 v h,
  take_append (be_bytes 8 v) rest,
  drop_append (be_bytes 8 v) rest,
  no_shorter (be_bytes 8 v) rest,
)

sec_text-escape : (s rest : Bytes) → IsText s → sec_text (escape s ++ rest) ≡ ok (text s, rest)
unfolding sec_text
sec_text-escape s rest h = rw (unescape-escape s [] rest, ◌>>=◌) (rw (h, if◌then◌else◌))

sec_int :
    (v : ℤ) (make : ℤ → Datum) (rest : Bytes)
    → InI64 v
    → sec_word
        (be_bytes 8 (bit_xor (to_bits v) sign_bit) ++ rest)
        (λ bits. make (of_bits (bit_xor bits sign_bit)))
      ≡ ok (make v, rest)
sec_int v make rest h =
    sec_word-be_bytes _ (λ bits. make (of_bits (bit_xor bits sign_bit))) rest
      (flip_sign_IsU64 _ (to_bits-IsU64 v h))
    ∙ rw (flip_sign_twice (to_bits v) (to_bits-IsU64 v h), of_bits-to_bits v h)

decode_column-prefix :
    (sec : Datum) (rest : Bytes)
    → IsDatum sec
    → IsColumn sec
    → decode_column (encode_sec_key_prefix sec ++ rest) ≡ ok (sec, rest)
unfolding decode_column decode_sec encode_sec_key_prefix
decode_column-prefix null rest h c = refl
decode_column-prefix (int v) rest h c = sec_int v int rest h
decode_column-prefix (float v) rest h c =
    sec_word-be_bytes (order_float v) (λ bits. float (unorder_float bits)) rest
      (order_float-IsU64 v h)
    ∙ rw (unorder_float-order_float v h c)
decode_column-prefix (text s) rest (h, _) c = sec_text-escape s rest h
decode_column-prefix (bool true) rest h c = refl
decode_column-prefix (bool false) rest h c = refl
decode_column-prefix (date_time v) rest h c = sec_int v date_time rest h

-- Decoding an index entry gives the column value and the primary key that it was made from, and
-- does not panic. The values are in range, floats neither NaN nor minus zero, and the key is not
-- NULL.
pub decode_sec_index_key-encode :
    (sec pk : Datum) {entry : Bytes}
    → IsDatum sec
    → IsDatum pk
    → IsColumn sec
    → IsKey pk
    → encode_sec_index_key sec pk ≡ ok entry
    → decode_sec_index_key entry ≡ some (ok (sec, pk))
unfolding encode_sec_index_key decode_sec_index_key
decode_sec_index_key-encode sec pk h k c i e =
    let (key, made, joined) = >>=-eq-ok (encode_key pk) _ e in
    ground
      (arith, joined, decode_column-prefix sec key h c, decode_key-encode_key pk {k = key} k i made)
