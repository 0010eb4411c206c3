-- ===== src/Catalog/DefCodec.antt =====
-- `encode_table_def_pub`, `decode_table_def_pub` and `take_fk_action` of crates/engine/src/wal.rs. The
-- sections after the columns may be missing; `legacy_cols` is set for images of older versions.
pub mod Laws
pub mod Letters
use hench_db.Prelude.{
  ℕ, Bool, true, false, Option, none, some, List, [], ◌∷◌, ◌++◌, length, ◌==◌, if◌then◌else◌,
}
use hench_db.Bytes.{Bytes, le_bytes}
use hench_db.Error.{ok, err, corrupted}
use hench_db.Error.Reader.{Reader, ◌>>=◌, pure, fail, take_byte, take_le}
use hench_db.Datum.{Datum, bool_byte, encode, decode}
use hench_db.Codec.{
  put_str, take_str, take_flag, put_many, take_many, at_most, put_list, take_list, put_option,
  take_option, or_absent,
}
use hench_db.Catalog.{
  ColumnType, type_byte, type_of_byte, ColumnDef, Schema, IndexDef, FkAction, restrict, cascade,
  set_null, ForeignKeyDef, TableDef, TableStats,
}
use hench_db.Catalog.Stats.{encode_stats, decode_stats}

put_column : ColumnDef → Bytes
put_column col =
    put_str col.name
    ++ (type_byte col.ctype
        ∷ bool_byte col.nullable
        ∷ bool_byte col.auto_increment
        ∷ put_option encode col.default_value)

put_index : IndexDef → Bytes
put_index idx = put_str idx.name ++ put_str idx.column

fk_byte : FkAction → ℕ
fk_byte restrict = 0
fk_byte cascade = 1
fk_byte set_null = 2

put_foreign_key : ForeignKeyDef → Bytes
unfolding fk_byte
put_foreign_key fk =
    put_str fk.name
    ++ (put_str fk.column
        ++ (put_str fk.ref_table ++ (put_str fk.ref_column ++ (fk_byte fk.on_delete ∷ []))))

-- The counts and the key's index come before the columns.
pub encode_table_def : TableDef → Bytes
unfolding put_column put_index put_foreign_key
encode_table_def def =
    put_str def.name
    ++ (le_bytes 4 (length def.schema.columns)
        ++ (le_bytes 4 def.schema.pk_idx
            ++ (put_many put_column def.schema.columns
                ++ (put_list put_index def.indexes
                    ++ (put_list put_foreign_key def.foreign_keys
                        ++ put_option encode_stats def.stats)))))

column_type : Option ColumnType → Reader ColumnType
column_type none = fail
column_type (some t) = pure t

take_auto_increment : Bool → Reader Bool
take_auto_increment true = pure false
take_auto_increment false = take_flag

-- Absent for an old image, and where the buffer ends.
take_default : Bool → Reader (Option Datum)
take_default true = pure none
take_default false = or_absent none (take_option decode)

take_column : Bool → Reader ColumnDef
unfolding column_type take_auto_increment take_default
take_column legacy_cols = do
  name ← take_str
  tbyte ← take_byte
  nullable ← take_flag
  auto_increment ← take_auto_increment legacy_cols
  ctype ← column_type (type_of_byte tbyte)
  default_value ← take_default legacy_cols
  pure (record {
    name = name;
    ctype = ctype;
    nullable = nullable;
    auto_increment = auto_increment;
    default_value = default_value;
  })

take_index : Reader IndexDef
take_index = do name ← take_str; column ← take_str; pure (record { name = name; column = column })

fk_action : ℕ → Reader FkAction
fk_action b =
    if b == 0
    then pure restrict
    else if b == 1
    then pure cascade
    else if b == 2
    then pure set_null
    else fail

take_foreign_key : Reader ForeignKeyDef
unfolding fk_action
take_foreign_key = do
  name ← take_str
  column ← take_str
  ref_table ← take_str
  ref_column ← take_str
  b ← take_byte
  on_delete ← fk_action b
  pure (record {
    name = name;
    column = column;
    ref_table = ref_table;
    ref_column = ref_column;
    on_delete = on_delete;
  })

pub decode_table_def : Bool → Reader TableDef
unfolding take_column take_index take_foreign_key
decode_table_def legacy_cols = do
  name ← take_str
  n ← take_le 4
  ncols ← at_most 10_000 n
  pk_idx ← take_le 4
  columns ← take_many ncols (take_column legacy_cols)
  indexes ← or_absent [] (take_list 10_000 take_index)
  foreign_keys ← or_absent [] (take_list 10_000 take_foreign_key)
  stats ← or_absent none (take_option decode_stats)
  pure (record {
    name = name;
    schema = record { columns = columns; pk_idx = pk_idx };
    indexes = indexes;
    foreign_keys = foreign_keys;
    stats = stats;
  })
