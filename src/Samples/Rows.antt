-- ===== src/Samples/Rows.antt =====
-- Rows: their codec, their validation and the AUTO_INCREMENT sequence.
use hench_db.Prelude.{
  ◌≡◌, refl, map, true, false, Option, none, some, [], ◌∷◌, ◌++◌, arith, get_elem?, set,
}
use hench_db.Prelude.Int.{ℤ, pos}
use hench_db.Bytes.{Bytes}
use hench_db.Datum.{Datum, null, int, bool}
use hench_db.Catalog.{ColumnDef, int_type, date_time_type}
use hench_db.Error.{ok, err, corrupted}
use hench_db.Table.{
  encode_row, decode_row, validate_row, assign_auto_inc, take_number, AutoIncState, fill_defaults,
  normalize_all, normalize, admit, coerce, accepts, family, is_null, one_if, or_null, admit_null,
  assign_at,
}
use hench_db.Table.RowCodec.{decode_row-encode_row, decode_row-trailing}
use hench_db.Table.Validation.{
  AllAdmitted, validate_row-AllAdmitted, flagged, default_overrides_not_null,
}
use hench_db.Page.Locators.{decode_locator-encode_locator}
use hench_db.Page.{Locator, encode_locator, is_locator, decode_locator}
use hench_db.Table.Sequence.{Given, assign_auto_inc-Given}

abbrev number_column : ColumnDef
number_column = record {
  name = 110 ∷ [];
  ctype = int_type;
  nullable = false;
  auto_increment = true;
  default_value = none;
}

abbrev time_column : ColumnDef
time_column = record {
  name = 116 ∷ [];
  ctype = date_time_type;
  nullable = true;
  auto_increment = false;
  default_value = none;
}

abbrev odd_column : ColumnDef
odd_column = record {
  name = 111 ∷ [];
  ctype = int_type;
  nullable = false;
  auto_increment = false;
  default_value = some null;
}

-- No text is a time.
abbrev no_times : Bytes → Option ℤ
no_times s = none

decode_row-encode_row_example :
    decode_row (number_column ∷ time_column ∷ []) (encode_row (int (pos 7) ∷ null ∷ []))
    ≡ ok (int (pos 7) ∷ null ∷ [])
decode_row-encode_row_example =
    decode_row-encode_row (number_column ∷ time_column ∷ []) (int (pos 7) ∷ null ∷ [])
      (omega arith, (tt, tt)) refl

decode_row-trailing_example :
    decode_row (number_column ∷ []) (encode_row (int (pos 7) ∷ []) ++ (0 ∷ [])) ≡ err corrupted
decode_row-trailing_example =
    decode_row-trailing (number_column ∷ []) (int (pos 7) ∷ []) 0 [] (omega arith, tt) refl

validates :
    validate_row no_times (number_column ∷ time_column ∷ []) (bool true ∷ [])
    ≡ ok (int (pos 1) ∷ null ∷ [])
unfolding validate_row fill_defaults normalize_all normalize admit coerce accepts family is_null
    one_if or_null admit_null
validates = refl

validate_row-AllAdmitted_example :
    AllAdmitted no_times (number_column ∷ time_column ∷ []) (int (pos 1) ∷ null ∷ [])
    × (validate_row no_times (number_column ∷ time_column ∷ []) (int (pos 1) ∷ null ∷ [])
        ≡ ok (int (pos 1) ∷ null ∷ []))
validate_row-AllAdmitted_example =
    validate_row-AllAdmitted no_times (number_column ∷ time_column ∷ []) (bool true ∷ [])
      (int (pos 1) ∷ null ∷ []) validates

default_overrides_not_null_example :
    validate_row no_times (map flagged (odd_column ∷ number_column ∷ [])) (null ∷ int (pos 7) ∷ [])
    ≡ validate_row no_times (odd_column ∷ number_column ∷ []) (null ∷ int (pos 7) ∷ [])
default_overrides_not_null_example =
    default_overrides_not_null no_times (odd_column ∷ number_column ∷ []) (null ∷ int (pos 7) ∷ [])

takes_null :
    validate_row no_times (odd_column ∷ number_column ∷ []) (null ∷ int (pos 7) ∷ [])
    ≡ ok (null ∷ int (pos 7) ∷ [])
unfolding validate_row fill_defaults normalize_all normalize admit coerce accepts family is_null
    admit_null
takes_null = refl

abbrev at_five : AutoIncState
at_five = record { col_idx = 0; next = 5 }

abbrev at_six : AutoIncState
at_six = record { col_idx = 0; next = 6 }

assigns : assign_auto_inc at_five (null ∷ []) ≡ ok (at_six, int (pos 5) ∷ [])
unfolding assign_auto_inc take_number assign_at
assigns = refl

assign_auto_inc-Given_example :
    (d : Datum) × (e : Datum) × (get_elem? (null ∷ []) 0 ≡ some d)
    × (int (pos 5) ∷ [] ≡ set (null ∷ []) 0 e)
    × Given (2 ∷ 4 ∷ []) at_five at_six d e
assign_auto_inc-Given_example =
    assign_auto_inc-Given (2 ∷ 4 ∷ []) at_five at_six (null ∷ []) (int (pos 5) ∷ [])
      (omega arith, (omega arith, tt)) assigns

abbrev third_page : Locator
third_page = record { page = 3; slot = 4 }

decode_locator-encode_locator_example :
    (decode_locator (encode_locator third_page) ≡ ok third_page)
    × (is_locator (encode_locator third_page) ≡ true)
    × (is_locator (encode_row (int (pos 7) ∷ [])) ≡ false)
decode_locator-encode_locator_example =
    decode_locator-encode_locator third_page (int (pos 7) ∷ []) (omega arith) (omega arith)
