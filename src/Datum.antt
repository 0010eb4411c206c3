-- ===== src/Datum.antt =====
-- crates/engine/src/types.rs: values, their row encoding, and the column types. `encode` gives the
-- bytes that the source appends to `out`; a text is its UTF-8 bytes and a float its bits.
pub mod RoundTrip
pub mod Order
use hench_db.Prelude.{
  ℕ, ◌<◌, ◌^◌, Bool, true, false, not, [], ◌∷◌, ◌++◌, length, ◌==◌, if◌then◌else◌,
}
use hench_db.Prelude.Int.{ℤ}
use hench_db.Bytes.{Bytes, le_bytes}
use hench_db.Word.{InI64, IsU64, to_bits, of_bits}
use hench_db.Utf8.{valid_utf8, IsText}
use hench_db.Error.Reader.{Reader, pure, fail, take_byte, take_n, take_le, ◌>>=◌}

pub data Datum : Type 0 where
  null : Datum
  int : ℤ → Datum
  float : ℕ → Datum
  text : Bytes → Datum
  bool : Bool → Datum
  date_time : ℤ → Datum

-- The range of each payload.
abbrev pub IsDatum : Datum → Type 0
IsDatum null = Unit
IsDatum (int v) = InI64 v
IsDatum (float v) = IsU64 v
IsDatum (text s) = IsText s × (length s < 2 ^ 32)
IsDatum (bool b) = Unit
IsDatum (date_time v) = InI64 v

-- `b as u8`
abbrev pub bool_byte : Bool → ℕ
bool_byte true = 1
bool_byte false = 0

unfoldable pub encode : Datum → Bytes
encode null = 0 ∷ []
encode (int v) = 1 ∷ le_bytes 8 (to_bits v)
encode (float v) = 2 ∷ le_bytes 8 v
encode (text s) = 3 ∷ (le_bytes 4 (length s) ++ s)
encode (bool b) = 4 ∷ bool_byte b ∷ []
encode (date_time v) = 5 ∷ le_bytes 8 (to_bits v)

-- `String::from_utf8(b).map_err(..)`
unfoldable pub from_utf8 : Bytes → Reader Bytes
from_utf8 b = if valid_utf8 b then pure b else fail

decode_text : Reader Datum
decode_text = do len ← take_le 4; b ← take_n len; s ← from_utf8 b; pure (text s)

decode_payload : ℕ → Reader Datum
decode_payload tag =
    if tag == 0
    then pure null
    else if tag == 1
    then (do b ← take_le 8; pure (int (of_bits b)))
    else if tag == 2
    then (do b ← take_le 8; pure (float b))
    else if tag == 3
    then decode_text
    else if tag == 4
    then (do b ← take_byte; pure (bool (not (b == 0))))
    else if tag == 5
    then (do b ← take_le 8; pure (date_time (of_bits b)))
    else fail

unfoldable pub decode : Reader Datum
unfolding decode_payload decode_text from_utf8
decode = do tag ← take_byte; decode_payload tag
