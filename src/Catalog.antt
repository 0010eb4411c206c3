-- ===== src/Catalog.antt =====
-- crates/engine/src/table.rs, the definition of a table; the column types of crates/engine/src/types.rs;
-- and the statistics of crates/engine/src/stats.rs. A map of columns is its list in the order of the
-- names, which is how `encode_stats` visits it. A name is its UTF-8 bytes.
pub mod Stats
pub mod DefCodec
use hench_db.Prelude.{
  ℕ, Bool, true, false, ◌||◌, Option, none, some, List, [], ◌∷◌, ◌==◌, if◌then◌else◌,
}
use hench_db.Bytes.{Bytes, bytes_lt}
use hench_db.Datum.{Datum, null, int, float, text, bool, date_time}

pub data ColumnType : Type 0 where
  int_type big_int float_type double text_type var_char bool_type date_time_type timestamp :
      ColumnType

-- `ColumnType::name().as_bytes()[0]`: the names are INT, BIGINT, FLOAT, DOUBLE, TEXT, VARCHAR, BOOL,
-- DATETIME and TIMESTAMP.
unfoldable pub type_byte : ColumnType → ℕ
type_byte int_type = 73
type_byte big_int = 66
type_byte float_type = 70
type_byte double = 68
type_byte text_type = 84
type_byte var_char = 86
type_byte bool_type = 66
type_byte date_time_type = 68
type_byte timestamp = 84

-- The match on `tbyte` in `decode_table_def_pub`; `none` is its error.
unfoldable pub type_of_byte : ℕ → Option ColumnType
type_of_byte b =
    if b == 73
    then some int_type
    else if b == 66
    then some big_int
    else if b == 70
    then some float_type
    else if b == 68
    then some double
    else if b == 84
    then some text_type
    else if b == 86
    then some var_char
    else if b == 76
    then some bool_type
    else if b == 69 || b == 77
    then some date_time_type
    else if b == 80 || b == 83
    then some timestamp
    else none

pub record ColumnDef : Type 0 where
  pub name : Bytes
  pub ctype : ColumnType
  pub nullable : Bool
  pub auto_increment : Bool
  pub default_value : Option Datum

pub record Schema : Type 0 where
  pub columns : List ColumnDef
  pub pk_idx : ℕ

pub record IndexDef : Type 0 where
  pub name : Bytes
  pub column : Bytes

pub data FkAction : Type 0 where
  restrict cascade set_null : FkAction

pub record ForeignKeyDef : Type 0 where
  pub name : Bytes
  pub column : Bytes
  pub ref_table : Bytes
  pub ref_column : Bytes
  pub on_delete : FkAction

pub record ColumnStats : Type 0 where
  pub null_count : ℕ
  pub distinct_count : ℕ
  pub min : Option Datum
  pub max : Option Datum
  pub mcv : List (Datum × ℕ)
  pub total : ℕ

pub record TableStats : Type 0 where
  pub row_count : ℕ
  pub columns : List (Bytes × ColumnStats)
  pub analyzed_at : ℕ

pub record TableDef : Type 0 where
  pub name : Bytes
  pub schema : Schema
  pub indexes : List IndexDef
  pub foreign_keys : List ForeignKeyDef
  pub stats : Option TableStats

-- `columns.insert(name, ..)`: an entry of the same name is replaced.
unfoldable pub insert :
    Bytes → ColumnStats → List (Bytes × ColumnStats) → List (Bytes × ColumnStats)
insert name c [] = (name, c) ∷ []
insert name c ((m, d) ∷ rest) =
    if bytes_lt m name
    then (m, d) ∷ insert name c rest
    else if bytes_lt name m
    then (name, c) ∷ (m, d) ∷ rest
    else (name, c) ∷ rest
