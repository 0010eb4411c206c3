-- ===== src/Catalog/DefCodec/Letters.antt =====
-- What the first letter of a column type's name does not tell.
use hench_db.Prelude.{◌≡◌, refl, List, [], ◌∷◌, length}
use hench_db.Codec.{put_many}
use hench_db.Catalog.{
  ColumnType, int_type, big_int, float_type, double, text_type, var_char, bool_type, date_time_type,
  timestamp, type_byte, ColumnDef, TableDef,
}
use hench_db.Catalog.DefCodec.{put_column, encode_table_def}
use hench_db.Catalog.DefCodec.Laws.{reread_type}

-- The definition that the bytes of `def` stand for.
abbrev reread_column : ColumnDef → ColumnDef
reread_column col = record col { ctype = reread_type col.ctype }

abbrev reread_columns : List ColumnDef → List ColumnDef
reread_columns [] = []
reread_columns (col ∷ cols) = reread_column col ∷ reread_columns cols

abbrev pub reread : TableDef → TableDef
reread def = record def {
  schema = record def.schema { columns = reread_columns def.schema.columns };
}

reread_type_byte : (t : ColumnType) → type_byte (reread_type t) ≡ type_byte t
unfolding type_byte reread_type
reread_type_byte int_type = refl
reread_type_byte big_int = refl
reread_type_byte float_type = refl
reread_type_byte double = refl
reread_type_byte text_type = refl
reread_type_byte var_char = refl
reread_type_byte bool_type = refl
reread_type_byte date_time_type = refl
reread_type_byte timestamp = refl

length-reread_columns : (cols : List ColumnDef) → length (reread_columns cols) ≡ length cols
length-reread_columns [] = refl
length-reread_columns (col ∷ cols) = rw (length-reread_columns cols)

put_many-reread :
    (cols : List ColumnDef) → put_many put_column (reread_columns cols) ≡ put_many put_column cols
unfolding put_many put_column
put_many-reread [] = refl
put_many-reread (col ∷ cols) = rw (reread_type_byte col.ctype, put_many-reread cols)

-- A definition and the one whose BOOL columns are BIGINT, whose DATETIME columns are DOUBLE and
-- whose TIMESTAMP columns are TEXT have the same bytes: decoding cannot tell them apart.
pub encode_table_def-reread :
    (def : TableDef) → encode_table_def (reread def) ≡ encode_table_def def
unfolding encode_table_def
encode_table_def-reread def =
    rw (length-reread_columns def.schema.columns, put_many-reread def.schema.columns)
