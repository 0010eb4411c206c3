-- ===== src/Key/Secondary/Order.antt =====
-- The entries of an index in the byte order of the tree.
use Prim.Native.Nat.{bit_xor}
use hench_db.Prelude.{
  ℕ, ◌≡◌, refl, sym, ◌∙◌, true, false, not, length, ◌&&◌, ◌||◌, ◌++◌, arith, ltb,
}
use hench_db.Prelude.Int.{ℤ, ltb_ℤ}
use hench_db.Bytes.{Bytes, be_bytes, bytes_lt}
use hench_db.Bytes.Laws.{length-be_bytes, bytes_lt-be_bytes}
use hench_db.Word.{InI64, IsU64, to_bits, sign_bit}
use hench_db.Datum.{Datum, null, int, float, text, bool, date_time, IsDatum}
use hench_db.Datum.Order.{cmp, is_lt, compare_float}
use hench_db.Key.{order_float}
use hench_db.Key.Order.{
  SameKind, IsOrdered, int_key_order, order_float-IsU64, order_float_order, bytes_lt-compare,
}
use hench_db.Key.Secondary.{encode_sec_key_prefix}
use hench_db.Key.Secondary.Laws.{escape_order, append_order}

-- Two values that one column can hold: of one kind, or NULL.
abbrev SameColumn : Datum → Datum → Type 0
SameColumn null b = Unit
SameColumn (int a) null = Unit
SameColumn (float a) null = Unit
SameColumn (text a) null = Unit
SameColumn (bool a) null = Unit
SameColumn (date_time a) null = Unit
SameColumn a b = SameKind a b

same_length : (v w : ℕ) → length (be_bytes 8 v) ≡ length (be_bytes 8 w)
same_length v w = length-be_bytes 8 v ∙ sym (length-be_bytes 8 w)

word_entry_order :
    (v w : ℕ) (p q : Bytes)
    → IsU64 v
    → IsU64 w
    → bytes_lt (be_bytes 8 v ++ p) (be_bytes 8 w ++ q)
      ≡ (ltb v w || (not (ltb w v) && bytes_lt p q))
word_entry_order v w p q h k =
    append_order (be_bytes 8 v) (be_bytes 8 w) p q (same_length _ _)
    ∙ rw (bytes_lt-be_bytes 8 v w h k, bytes_lt-be_bytes 8 w v k h)

int_entry_order :
    (a b : ℤ) (p q : Bytes)
    → InI64 a
    → InI64 b
    → bytes_lt
        (be_bytes 8 (bit_xor (to_bits a) sign_bit) ++ p)
        (be_bytes 8 (bit_xor (to_bits b) sign_bit) ++ q)
      ≡ (ltb_ℤ a b || (not (ltb_ℤ b a) && bytes_lt p q))
int_entry_order a b p q h k =
    append_order (be_bytes 8 _) (be_bytes 8 _) p q (same_length _ _)
    ∙ rw (int_key_order a b h k, int_key_order b a k h)

float_entry_order :
    (a b : ℕ) (p q : Bytes)
    → IsU64 a
    → IsU64 b
    → IsOrdered a
    → IsOrdered b
    → bytes_lt (be_bytes 8 (order_float a) ++ p) (be_bytes 8 (order_float b) ++ q)
      ≡ (is_lt (compare_float a b) || (not (is_lt (compare_float b a)) && bytes_lt p q))
float_entry_order a b p q h k oa ob =
    word_entry_order _ _ p q (order_float-IsU64 a h) (order_float-IsU64 b k)
    ∙ rw (order_float_order a b h k oa ob, order_float_order b a k h ob oa)

-- Index entries are ordered by the column value, NULL first, and where the values are equal by
-- what follows. The values are in range and of one kind or NULL, floats neither NaN nor minus
-- zero.
pub sec_entry_order :
    (int_as_float : ℤ → ℕ) (a b : Datum) (p q : Bytes)
    → IsDatum a
    → IsDatum b
    → SameColumn a b
    → bytes_lt (encode_sec_key_prefix a ++ p) (encode_sec_key_prefix b ++ q)
      ≡ (is_lt (cmp int_as_float a b) || (not (is_lt (cmp int_as_float b a)) && bytes_lt p q))
unfolding cmp encode_sec_key_prefix bytes_lt
sec_entry_order f null null p q h k s = refl
sec_entry_order f null (int b) p q h k s = refl
sec_entry_order f null (float b) p q h k s = refl
sec_entry_order f null (text b) p q h k s = refl
sec_entry_order f null (bool b) p q h k s = refl
sec_entry_order f null (date_time b) p q h k s = refl
sec_entry_order f (int a) null p q h k s = refl
sec_entry_order f (float a) null p q h k s = refl
sec_entry_order f (text a) null p q h k s = refl
sec_entry_order f (bool a) null p q h k s = refl
sec_entry_order f (date_time a) null p q h k s = refl
sec_entry_order f (int a) (int b) p q h k s = int_entry_order a b p q h k
sec_entry_order f (float a) (float b) p q h k (oa, ob) = float_entry_order a b p q h k oa ob
sec_entry_order f (text a) (text b) p q h k s =
    ground (arith, escape_order a b p q, bytes_lt-compare a b, bytes_lt-compare b a)
sec_entry_order f (bool true) (bool true) p q h k s = refl
sec_entry_order f (bool true) (bool false) p q h k s = refl
sec_entry_order f (bool false) (bool true) p q h k s = refl
sec_entry_order f (bool false) (bool false) p q h k s = refl
sec_entry_order f (date_time a) (date_time b) p q h k s = int_entry_order a b p q h k
sec_entry_order f _ _ p q h k s = absurd s
