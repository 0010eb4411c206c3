-- ===== src/Table.antt =====
-- crates/engine/src/table.rs: the codec of rows, the validation of a candidate row, and the
-- AUTO_INCREMENT sequence. What `parse_datetime_str` makes of a text is a parameter.
pub mod RowCodec
pub mod Validation
pub mod Sequence
use hench_db.Prelude.{
  ℕ, zero, suc, ◌+◌, ◌-◌, ◌*◌, ◌%◌, ◌^◌, Bool, true, false, not, ◌&&◌, ◌||◌, Option, none, some,
  List, [], ◌∷◌, ◌++◌, length, get_elem?, set, leb, ltb, ◌==◌, if◌then◌else◌,
}
use hench_db.Prelude.Int.{ℤ, pos, negsuc}
use hench_db.Bytes.{Bytes}
use hench_db.Word.{to_bits, of_bits}
use hench_db.Datum.{Datum, null, int, float, text, bool, date_time, encode, decode}
use hench_db.Catalog.{
  ColumnType, int_type, big_int, float_type, double, text_type, var_char, bool_type, date_time_type,
  timestamp, ColumnDef, Schema,
}
use hench_db.Key.{decode_key}
use hench_db.Error.{
  Result, ok, err, corrupted, column_count_mismatch, not_null_violation, type_mismatch,
  not_supported, ◌>>=◌,
}

unfoldable pub encode_row : List Datum → Bytes
encode_row [] = []
encode_row (d ∷ row) = encode d ++ encode_row row

-- The loop of `decode_row` over the columns, with the bytes that it leaves.
unfoldable pub decode_columns : List ColumnDef → Bytes → Result (List Datum × Bytes)
decode_columns [] buf = ok ([], buf)
decode_columns (c ∷ columns) buf = do
  (d, after) ← decode buf
  (row, rest) ← decode_columns columns after
  ok (d ∷ row, rest)

unfoldable pub all_read : List Datum × Bytes → Result (List Datum)
all_read (row, []) = ok row
all_read (row, b ∷ rest) = err corrupted

unfoldable pub decode_row : List ColumnDef → Bytes → Result (List Datum)
decode_row columns buf = decode_columns columns buf >>= all_read

-- `DEFAULT`, or NULL.
unfoldable pub or_null : Option Datum → Datum
or_null none = null
or_null (some d) = d

unfoldable pub fill_defaults : List ColumnDef → List Datum → List Datum
fill_defaults [] row = row
fill_defaults (c ∷ columns) [] = or_null c.default_value ∷ fill_defaults columns []
fill_defaults (c ∷ columns) (d ∷ row) = d ∷ fill_defaults columns row

unfoldable pub is_null : Datum → Bool
is_null null = true
is_null (int v) = false
is_null (float v) = false
is_null (text s) = false
is_null (bool b) = false
is_null (date_time v) = false

-- The kinds of column that `accepts` and the coercions tell apart.
pub data Family : Type 0 where
  integers floats texts bools times : Family

unfoldable pub family : ColumnType → Family
family int_type = integers
family big_int = integers
family float_type = floats
family double = floats
family text_type = texts
family var_char = texts
family bool_type = bools
family date_time_type = times
family timestamp = times

unfoldable pub accepts : Family → Datum → Bool
accepts f null = true
accepts integers (int v) = true
accepts integers (bool b) = true
accepts integers (float v) = false
accepts integers (text s) = false
accepts integers (date_time v) = false
accepts floats (int v) = true
accepts floats (float v) = true
accepts floats (bool b) = true
accepts floats (text s) = false
accepts floats (date_time v) = false
accepts texts (text s) = true
accepts texts (int v) = false
accepts texts (float v) = false
accepts texts (bool b) = false
accepts texts (date_time v) = false
accepts bools (bool b) = true
accepts bools (int v) = true
accepts bools (float v) = false
accepts bools (text s) = false
accepts bools (date_time v) = false
accepts times (date_time v) = true
accepts times (text s) = true
accepts times (int v) = true
accepts times (float v) = false
accepts times (bool b) = false

-- `*sec * 1_000_000` of i64 values, which wraps.
unfoldable pub micros_of : ℤ → ℤ
micros_of sec = of_bits ((to_bits sec * 1000000) % 2 ^ 64)

unfoldable pub time_or_text : Bytes → Option ℤ → Datum
time_or_text s none = text s
time_or_text s (some micros) = date_time micros

-- `*v != 0`.
unfoldable pub nonzero : ℤ → Bool
nonzero (pos n) = not (n == 0)
nonzero (negsuc n) = true

unfoldable pub one_if : Bool → ℤ
one_if true = pos 1
one_if false = pos 0

-- `ColumnType::name`.
unfoldable pub name_of : ColumnType → Bytes
name_of int_type = 73 ∷ 78 ∷ 84 ∷ []
name_of big_int = 66 ∷ 73 ∷ 71 ∷ 73 ∷ 78 ∷ 84 ∷ []
name_of float_type = 70 ∷ 76 ∷ 79 ∷ 65 ∷ 84 ∷ []
name_of double = 68 ∷ 79 ∷ 85 ∷ 66 ∷ 76 ∷ 69 ∷ []
name_of text_type = 84 ∷ 69 ∷ 88 ∷ 84 ∷ []
name_of var_char = 86 ∷ 65 ∷ 82 ∷ 67 ∷ 72 ∷ 65 ∷ 82 ∷ []
name_of bool_type = 66 ∷ 79 ∷ 79 ∷ 76 ∷ []
name_of date_time_type = 68 ∷ 65 ∷ 84 ∷ 69 ∷ 84 ∷ 73 ∷ 77 ∷ 69 ∷ []
name_of timestamp = 84 ∷ 73 ∷ 77 ∷ 69 ∷ 83 ∷ 84 ∷ 65 ∷ 77 ∷ 80 ∷ []

unfoldable pub type_name : Datum → Bytes
type_name null = 78 ∷ 85 ∷ 76 ∷ 76 ∷ []
type_name (int v) = 73 ∷ 78 ∷ 84 ∷ []
type_name (float v) = 70 ∷ 76 ∷ 79 ∷ 65 ∷ 84 ∷ []
type_name (text s) = 84 ∷ 69 ∷ 88 ∷ 84 ∷ []
type_name (bool b) = 66 ∷ 79 ∷ 79 ∷ 76 ∷ []
type_name (date_time v) = 68 ∷ 65 ∷ 84 ∷ 69 ∷ 84 ∷ 73 ∷ 77 ∷ 69 ∷ []

module _ (parse_datetime_str : Bytes → Option ℤ) where
  unfoldable pub coerce : Family → Datum → Datum
  coerce times (text s) = time_or_text s (parse_datetime_str s)
  coerce times (int sec) = date_time (micros_of sec)
  coerce bools (int v) = bool (nonzero v)
  coerce integers (bool b) = int (one_if b)
  coerce _ d = d

  -- The coercion and the check of one value.
  unfoldable pub admit : ColumnDef → Datum → Result Datum
  admit col d =
      let e = coerce (family col.ctype) d in
      if accepts (family col.ctype) e
      then ok e
      else err (type_mismatch (name_of col.ctype) (type_name e))

  -- What NULL stands for.
  unfoldable pub admit_null : ColumnDef → Option Datum → Result Datum
  admit_null col none = if not col.nullable then err (not_null_violation col.name) else ok null
  admit_null col (some d) = admit col d

  unfoldable pub normalize : ColumnDef → Datum → Result Datum
  normalize col d = if is_null d then admit_null col col.default_value else admit col d

  unfoldable pub normalize_all : List ColumnDef → List Datum → Result (List Datum)
  normalize_all [] row = ok []
  normalize_all (c ∷ columns) [] = ok []
  normalize_all (c ∷ columns) (d ∷ row) = do
    e ← normalize c d
    rest ← normalize_all columns row
    ok (e ∷ rest)

  unfoldable pub validate_row : List ColumnDef → List Datum → Result (List Datum)
  validate_row columns row =
      let filled = fill_defaults columns row in
      if length filled == length columns
      then normalize_all columns filled
      else err (column_count_mismatch (length columns) (length filled))

pub record AutoIncState : Type 0 where
  pub col_idx : ℕ
  pub next : ℕ

-- `assign_auto_inc` for the value in the sequence's column.
unfoldable pub take_number : AutoIncState → Datum → Result (AutoIncState × Datum)
take_number st null =
    if ltb (2 ^ 63 - 1) st.next
    then err not_supported
    else ok (record { col_idx = st.col_idx; next = st.next + 1 }, int (pos st.next))
take_number st (int (pos v)) =
    if leb st.next v
    then ok (record { col_idx = st.col_idx; next = v + 1 }, int (pos v))
    else ok (st, int (pos v))
take_number st d = ok (st, d)

unfoldable pub assign_at :
    AutoIncState → List Datum → Option Datum → Result (AutoIncState × List Datum)
assign_at st row none = err corrupted
assign_at st row (some d) = do
  (after, given) ← take_number st d
  ok (after, set row st.col_idx given)

unfoldable pub assign_auto_inc : AutoIncState → List Datum → Result (AutoIncState × List Datum)
assign_auto_inc st row = assign_at st row (get_elem? row st.col_idx)
