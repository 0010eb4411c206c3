-- ===== src/Catalog/Stats.antt =====
-- `encode_stats` and `decode_stats` of crates/engine/src/stats.rs. A usize is a u64.
pub mod Laws
use mathlib.Core.List.{append_assoc}
use hench_db.Prelude.{
  ℕ, zero, suc, ◌<◌, ◌≤◌, ◌≡◌, refl, ◌^◌, ◌*◌, Bool, true, false, Option, none, some, List, [], ◌∷◌,
  ◌++◌, length, arith, ltb, if◌then◌else◌,
}
use hench_db.Bytes.{Bytes, le_bytes, bytes_lt}
use hench_db.Word.{IsU64}
use hench_db.Utf8.{IsText}
use hench_db.Error.{ok}
use hench_db.Error.Reader.{
  Reader, ◌>>=◌, pure, fail, take_le, take_n, continue, take_n-append, take_le-le_bytes,
}
use hench_db.Datum.{Datum, IsDatum, encode, decode, from_utf8}
use hench_db.Datum.RoundTrip.{decode-encode}
use hench_db.Codec.{
  put_str, take_str, put_many, take_many, at_most, put_list, take_list, put_option, take_option,
}
use hench_db.Codec.Laws.{
  Reads, IsStr, AllOf, OnSome, take_str-put_str, take_list-put_list, take_option-put_option,
}
use hench_db.Catalog.{ColumnStats, TableStats, insert}

-- `MCV_CAP * 128`
abbrev mcv_limit : ℕ
mcv_limit = 8 * 128

-- Its own `take_str`, which refuses a name of more than 1024 bytes.
take_name : Reader Bytes
take_name = do n ← take_le 4; len ← at_most 1024 n; b ← take_n len; from_utf8 b

put_mcv : Datum × ℕ → Bytes
put_mcv (d, n) = encode d ++ le_bytes 8 n

take_mcv : Reader (Datum × ℕ)
take_mcv = do d ← decode; n ← take_le 8; pure (d, n)

put_column_stats : Bytes × ColumnStats → Bytes
put_column_stats (name, c) =
    put_str name
    ++ (le_bytes 8 c.null_count
        ++ (le_bytes 8 c.distinct_count
            ++ (le_bytes 8 c.total
                ++ (put_option encode c.min
                    ++ (put_option encode c.max ++ put_list put_mcv c.mcv)))))

take_column_stats : Reader (Bytes × ColumnStats)
take_column_stats = do
  name ← take_name
  null_count ← take_le 8
  distinct_count ← take_le 8
  total ← take_le 8
  min ← take_option decode
  max ← take_option decode
  mcv ← take_list mcv_limit take_mcv
  pure (
    name,
    record {
      null_count = null_count;
      distinct_count = distinct_count;
      min = min;
      max = max;
      mcv = mcv;
      total = total;
    },
  )

-- The loop that fills the map.
take_columns : ℕ → List (Bytes × ColumnStats) → Reader (List (Bytes × ColumnStats))
take_columns zero columns = pure columns
take_columns (suc n) columns = do c ← take_column_stats; take_columns n (insert c.0 c.1 columns)

pub encode_stats : TableStats → Bytes
unfolding put_column_stats put_mcv
encode_stats s =
    le_bytes 8 s.row_count ++ (le_bytes 8 s.analyzed_at ++ put_list put_column_stats s.columns)

pub decode_stats : Reader TableStats
unfolding take_columns take_column_stats take_mcv take_name
decode_stats = do
  rows ← take_le 8
  row_count ← at_most 1_000_000_000 rows
  analyzed_at ← take_le 8
  n ← take_le 4
  ncols ← at_most 10_000 n
  columns ← take_columns ncols []
  pure (record { row_count = row_count; columns = columns; analyzed_at = analyzed_at })
