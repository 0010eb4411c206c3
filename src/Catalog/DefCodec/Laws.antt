-- ===== src/Catalog/DefCodec/Laws.antt =====
-- A table definition is read back as it was written, where the type bytes allow it.
use mathlib.Core.List.{append_assoc}
use hench_db.Prelude.{
  ℕ, ◌<◌, ◌≤◌, ◌≡◌, refl, ◌^◌, Bool, true, false, Option, none, some, List, ◌++◌, length, arith,
  ltb, ◌==◌, not,
}
use hench_db.Bytes.{Bytes, le_bytes}
use hench_db.Error.{ok}
use hench_db.Error.Reader.{Reader, take_le, take_le-le_bytes}
use hench_db.Datum.{IsDatum, encode, decode, bool_byte}
use hench_db.Codec.{take_flag, at_most, put_list, put_option, take_option, or_absent}
use hench_db.Codec.Laws.{
  Reads, IsStr, AllOf, OnSome, take_str-put_str, take_many-put_many, take_list-put_list,
  take_option-put_option,
}
use hench_db.Catalog.{
  ColumnType, int_type, big_int, float_type, double, text_type, var_char, bool_type, date_time_type,
  timestamp, type_byte, type_of_byte, ColumnDef, IndexDef, FkAction, restrict, cascade, set_null,
  ForeignKeyDef, TableDef, TableStats,
}
use hench_db.Catalog.Stats.{encode_stats, decode_stats}
use hench_db.Catalog.Stats.Laws.{IsTableStats, decode_stats-encode_stats, Reads-datum}
use hench_db.Catalog.DefCodec.{
  put_column, put_index, fk_byte, put_foreign_key, encode_table_def, column_type,
  take_auto_increment, take_default, take_column, take_index, fk_action, take_foreign_key,
  decode_table_def,
}

-- The type that a column comes back with.
unfoldable pub reread_type : ColumnType → ColumnType
reread_type bool_type = big_int
reread_type date_time_type = double
reread_type timestamp = text_type
reread_type t = t

type_of_byte-type_byte : (t : ColumnType) → type_of_byte (type_byte t) ≡ some (reread_type t)
unfolding type_of_byte type_byte reread_type
type_of_byte-type_byte int_type = refl
type_of_byte-type_byte big_int = refl
type_of_byte-type_byte float_type = refl
type_of_byte-type_byte double = refl
type_of_byte-type_byte text_type = refl
type_of_byte-type_byte var_char = refl
type_of_byte-type_byte bool_type = refl
type_of_byte-type_byte date_time_type = refl
type_of_byte-type_byte timestamp = refl

abbrev IsColumnDef : ColumnDef → Type 0
IsColumnDef col =
    IsStr col.name × OnSome IsDatum col.default_value × (reread_type col.ctype ≡ col.ctype)

flag_back : (b : Bool) → not (bool_byte b == 0) ≡ b
flag_back true = refl
flag_back false = refl

or_absent-put_option :
    {A B : Type 0} (absent : B) (r : Reader B) (put : A → Bytes) (o : Option A) (rest : Bytes)
    → or_absent absent r (put_option put o ++ rest) ≡ r (put_option put o ++ rest)
unfolding or_absent put_option
or_absent-put_option absent r put none rest = refl
or_absent-put_option absent r put (some a) rest = refl

or_absent-put_list :
    {A B : Type 0} (absent : B) (r : Reader B) (put : A → Bytes) (xs : List A) (rest : Bytes)
    → or_absent absent r (put_list put xs ++ rest) ≡ r (put_list put xs ++ rest)
unfolding or_absent put_list le_bytes
or_absent-put_list absent r put xs rest = refl

take_column-put_column :
    (col : ColumnDef) → IsColumnDef col → Reads (take_column false) (put_column col) col
unfolding take_column put_column take_flag take_auto_increment take_default column_type
take_column-put_column col (hn, hd, ht) rest =
    simp
      (
        append_assoc,
        take_str-put_str col.name hn,
        flag_back,
        type_of_byte-type_byte col.ctype,
        ht,
        or_absent-put_option none (take_option decode) encode col.default_value rest,
        take_option-put_option decode encode IsDatum Reads-datum col.default_value hd,
      )
      refl

abbrev IsIndexDef : IndexDef → Type 0
IsIndexDef idx = IsStr idx.name × IsStr idx.column

take_index-put_index : (idx : IndexDef) → IsIndexDef idx → Reads take_index (put_index idx) idx
unfolding take_index put_index
take_index-put_index idx (hn, hc) rest =
    simp (append_assoc, take_str-put_str idx.name hn, take_str-put_str idx.column hc) refl

abbrev IsForeignKeyDef : ForeignKeyDef → Type 0
IsForeignKeyDef fk = IsStr fk.name × IsStr fk.column × IsStr fk.ref_table × IsStr fk.ref_column

fk_action-fk_byte : (a : FkAction) (rest : Bytes) → fk_action (fk_byte a) rest ≡ ok (a, rest)
unfolding fk_action fk_byte
fk_action-fk_byte restrict rest = refl
fk_action-fk_byte cascade rest = refl
fk_action-fk_byte set_null rest = refl

take_foreign_key-put :
    (fk : ForeignKeyDef) → IsForeignKeyDef fk → Reads take_foreign_key (put_foreign_key fk) fk
unfolding take_foreign_key put_foreign_key
take_foreign_key-put fk (hn, hc, ht, hr) rest =
    simp
      (
        append_assoc,
        take_str-put_str fk.name hn,
        take_str-put_str fk.column hc,
        take_str-put_str fk.ref_table ht,
        take_str-put_str fk.ref_column hr,
        fk_action-fk_byte,
      )
      refl

-- The counts and lengths are within the format's limits, the statistics are a map in the order of
-- the names, and every column's type comes back (see `reread_type`).
abbrev pub IsTableDef : TableDef → Type 0
IsTableDef def =
    IsStr def.name
    × (length def.schema.columns ≤ 10_000)
    × (def.schema.pk_idx < 2 ^ 32)
    × AllOf IsColumnDef def.schema.columns
    × (length def.indexes ≤ 10_000)
    × AllOf IsIndexDef def.indexes
    × (length def.foreign_keys ≤ 10_000)
    × AllOf IsForeignKeyDef def.foreign_keys
    × OnSome IsTableStats def.stats

-- A table definition within the limits of the format and whose column types survive their byte is
-- decoded as it was encoded, statistics and foreign keys included, with what follows left.
pub decode_table_def-encode :
    (def : TableDef) (rest : Bytes)
    → IsTableDef def
    → decode_table_def false (encode_table_def def ++ rest) ≡ ok (def, rest)
unfolding decode_table_def encode_table_def at_most
decode_table_def-encode def rest (hn, ncols, pk, hcols, nidx, hidx, nfk, hfk, hst) =
    let within : ltb 10_000 (length def.schema.columns) ≡ false = ground arith in
    simp
      (
        append_assoc,
        take_str-put_str def.name hn,
        reads_count (length def.schema.columns) (omega arith),
        within,
        reads_count def.schema.pk_idx pk,
        take_many-put_many (take_column false) put_column IsColumnDef take_column-put_column
            def.schema.columns hcols,
        or_absent-put_list {A = IndexDef} {B = List IndexDef},
        or_absent-put_list {A = ForeignKeyDef} {B = List ForeignKeyDef},
        take_list-put_list take_index put_index IsIndexDef take_index-put_index 10_000 def.indexes
            nidx (omega arith) hidx,
        take_list-put_list take_foreign_key put_foreign_key IsForeignKeyDef take_foreign_key-put
            10_000 def.foreign_keys nfk (omega arith) hfk,
        or_absent-put_option {A = TableStats} {B = Option TableStats},
        take_option-put_option decode_stats encode_stats IsTableStats decode_stats-encode_stats
            def.stats hst,
      )
      refl
  where
    reads_count : (v : ℕ) → v < 2 ^ 32 → Reads (take_le 4) (le_bytes 4 v) v
    reads_count v h rest = take_le-le_bytes 4 v rest h
