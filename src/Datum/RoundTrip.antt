-- ===== src/Datum/RoundTrip.antt =====
-- What `encode` writes, `decode` reads back, and leaves the bytes that follow.
use mathlib.Core.List.{append_assoc}
use hench_db.Prelude.{◌≡◌, refl, true, false, ◌++◌, length, if◌then◌else◌}
use hench_db.Bytes.{Bytes, le_bytes}
use hench_db.Word.{to_bits}
use hench_db.Word.Laws.{to_bits-IsU64, of_bits-to_bits}
use hench_db.Error.{ok}
use hench_db.Error.Reader.{continue, take_n-append, take_le-le_bytes}
use hench_db.Datum.{Datum, null, int, float, text, bool, date_time, IsDatum, encode, decode}

-- Decoding what encode wrote of a value in range returns the value and leaves exactly the bytes
-- that follow it.
pub decode-encode :
    (d : Datum) (rest : Bytes) → IsDatum d → decode (encode d ++ rest) ≡ ok (d, rest)
unfolding decode encode
decode-encode null rest h = refl
decode-encode (int v) rest h =
    rw (take_le-le_bytes 8 (to_bits v) rest (to_bits-IsU64 v h), continue)
      (rw (of_bits-to_bits v h))
decode-encode (float v) rest h = rw (take_le-le_bytes 8 v rest h, continue)
decode-encode (text s) rest (utf8, short) = rw (append_assoc (le_bytes 4 (length s)) s rest) (
    rw (take_le-le_bytes 4 (length s) (s ++ rest) short, continue)
      (rw (take_n-append s rest, continue) (rw (utf8, if◌then◌else◌))))
decode-encode (bool true) rest h = refl
decode-encode (bool false) rest h = refl
decode-encode (date_time v) rest h =
    rw (take_le-le_bytes 8 (to_bits v) rest (to_bits-IsU64 v h), continue)
      (rw (of_bits-to_bits v h))
