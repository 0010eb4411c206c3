-- ===== src/Datum/Order.antt =====
-- `impl Ord for Datum` of crates/engine/src/types.rs. `int_as_float` is the hardware's `as f64`,
-- from an i64 to the bits of a float.
use Prim.Native.Nat.{compare, Ordering}
use hench_db.Prelude.{
  ℕ, ◌+◌, ◌-◌, Bool, true, false, ◌||◌, Option, none, some, [], ◌∷◌, ltb, ◌==◌, if◌then◌else◌,
}
use hench_db.Prelude.Int.{ℤ, pos_part, neg_part, sub_ℕ, pos}
use hench_db.Bytes.{Bytes}
use hench_db.Word.{sign_bit, is_nan}
use hench_db.Datum.{Datum, null, int, float, text, bool, date_time, bool_byte}

type_rank : Datum → ℕ
type_rank null = 0
type_rank (bool b) = 1
type_rank (int v) = 2
type_rank (float v) = 2
type_rank (date_time v) = 3
type_rank (text s) = 4

-- `i64::cmp`
abbrev compare_ℤ : ℤ → ℤ → Ordering
compare_ℤ a b = compare (pos_part a + neg_part b) (pos_part b + neg_part a)

-- `str::cmp`, byte by byte.
unfoldable pub compare_bytes : Bytes → Bytes → Ordering
compare_bytes [] [] = Ordering.eq
compare_bytes [] (c ∷ cs) = Ordering.lt
compare_bytes (b ∷ bs) [] = Ordering.gt
compare_bytes (b ∷ bs) (c ∷ cs) =
    let rest = compare_bytes bs cs in
    elim (compare b c) [
      | Ordering.lt ↦ Ordering.lt
      | Ordering.eq ↦ rest
      | Ordering.gt ↦ Ordering.gt
    ]

-- The place of a float that is no NaN in the order of numbers: its magnitude with its sign.
abbrev float_rank : ℕ → ℤ
float_rank b = if ltb b sign_bit then pos b else sub_ℕ 0 (b - sign_bit)

-- `a.partial_cmp(b).unwrap_or(Ordering::Equal)`
unfoldable pub compare_float : ℕ → ℕ → Ordering
compare_float a b =
    if is_nan a || is_nan b then Ordering.eq else compare_ℤ (float_rank a) (float_rank b)

module _ (int_as_float : ℤ → ℕ) where
  as_f64 : Datum → Option ℕ
  as_f64 (int v) = some (int_as_float v)
  as_f64 (float v) = some v
  as_f64 _ = none

  compare_numeric : Option ℕ → Option ℕ → Ordering
  compare_numeric (some a) (some b) = compare_float a b
  compare_numeric _ _ = Ordering.eq

  same_rank : Datum → Datum → Ordering
  same_rank (bool a) (bool b) = compare (bool_byte a) (bool_byte b)
  same_rank (int a) (int b) = compare_ℤ a b
  same_rank (float a) (float b) = compare_float a b
  same_rank (date_time a) (date_time b) = compare_ℤ a b
  same_rank (text a) (text b) = compare_bytes a b
  same_rank a b = compare_numeric (as_f64 a) (as_f64 b)

  unfoldable pub cmp : Datum → Datum → Ordering
  unfolding same_rank compare_numeric as_f64 type_rank
  cmp a b =
      if type_rank a == type_rank b then same_rank a b else compare (type_rank a) (type_rank b)

-- `a < b`, from the order
abbrev pub is_lt : Ordering → Bool
is_lt o = elim o [ Ordering.lt ↦ true | _ ↦ false ]
