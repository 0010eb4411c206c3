-- ===== src/Samples/Logs.antt =====
-- Table definitions, log records and the scan of a log.
use hench_db.Prelude.{◌+◌, ◌≡◌, refl, true, false, none, some, [], ◌∷◌, ◌++◌, arith, length, take}
use hench_db.Prelude.Int.{pos}
use hench_db.Bytes.{le_bytes, bytes_lt}
use hench_db.Utf8.{valid_utf8}
use hench_db.Error.{ok}
use hench_db.Datum.{int, text}
use hench_db.Codec.{put_many, put_str, put_bytes}
use hench_db.Catalog.{int_type, var_char, bool_type, TableDef, cascade}
use hench_db.Catalog.DefCodec.{encode_table_def, decode_table_def}
use hench_db.Catalog.DefCodec.Laws.{decode_table_def-encode, reread_type}
use hench_db.Catalog.DefCodec.Letters.{reread, encode_table_def-reread}
use hench_db.Crc.{crc32}
use hench_db.Wal.{
  Record, put, commit, read_all, new_file, encode_payload, encode_record, decode_record,
  decode_wal_range, scan,
}
use hench_db.Wal.RecordCodec.{decode_record-encode_payload}
use hench_db.Wal.Recovery.{read_all_crash, torn_tail_swallows}
use hench_db.Wal.Scan.{decode_wal_range-torn, scan_enough}

-- The check value of CRC-32: the checksum of "123456789".
check_value : crc32 (49 ∷ 50 ∷ 51 ∷ 52 ∷ 53 ∷ 54 ∷ 55 ∷ 56 ∷ 57 ∷ []) ≡ 0xCBF4_3926
unfolding crc32
check_value = refl

-- A table with an integer key and a text column, an index, a foreign key and statistics.
abbrev users : TableDef
users = record {
  name = 117 ∷ [];
  schema = record {
    columns =
        record {
          name = 105 ∷ [];
          ctype = int_type;
          nullable = false;
          auto_increment = true;
          default_value = none;
        }
        ∷ record {
          name = 116 ∷ [];
          ctype = var_char;
          nullable = true;
          auto_increment = false;
          default_value = some (text (97 ∷ []));
        }
        ∷ [];
    pk_idx = 0;
  };
  indexes = record { name = 120 ∷ []; column = 116 ∷ [] } ∷ [];
  foreign_keys =
      record {
        name = 102 ∷ [];
        column = 116 ∷ [];
        ref_table = 114 ∷ [];
        ref_column = 99 ∷ [];
        on_delete = cascade;
      }
      ∷ [];
  stats = some (record {
    row_count = 2;
    columns =
        (
          105 ∷ [],
          record {
            null_count = 0;
            distinct_count = 2;
            min = some (int (pos 1));
            max = some (int (pos 2));
            mcv = (int (pos 1), 1) ∷ [];
            total = 2;
          },
        )
        ∷ (
          116 ∷ [],
          record {
            null_count = 2;
            distinct_count = 0;
            min = none;
            max = none;
            mcv = [];
            total = 2;
          },
        )
        ∷ [];
    analyzed_at = 1_700_000_000;
  });
}

decode_table_def-encode_example :
    decode_table_def false (encode_table_def users ++ (7 ∷ [])) ≡ ok (users, 7 ∷ [])
unfolding valid_utf8 reread_type bytes_lt
decode_table_def-encode_example = decode_table_def-encode users (7 ∷ []) (
  (refl, omega arith),
  omega arith,
  omega arith,
  (((refl, omega arith), tt, refl), (((refl, omega arith), (refl, omega arith), refl), tt)),
  omega arith,
  (((refl, omega arith), (refl, omega arith)), tt),
  omega arith,
  (((refl, omega arith), (refl, omega arith), (refl, omega arith), (refl, omega arith)), tt),
  (
    omega arith,
    omega arith,
    omega arith,
    (
      (
        refl,
        omega arith,
        omega arith,
        omega arith,
        omega arith,
        omega arith,
        omega arith,
        omega arith,
        ((omega arith, omega arith), tt),
      ),
      ((refl, omega arith, omega arith, omega arith, omega arith, tt, tt, omega arith, tt), tt),
    ),
    ((refl, tt), (tt, tt)),
  ),
)

-- A table with a BOOL column.
abbrev flags : TableDef
flags = record {
  name = 102 ∷ [];
  schema = record {
    columns =
        record {
          name = 98 ∷ [];
          ctype = bool_type;
          nullable = false;
          auto_increment = false;
          default_value = none;
        }
        ∷ [];
    pk_idx = 0;
  };
  indexes = [];
  foreign_keys = [];
  stats = none;
}

encode_table_def-reread_example : encode_table_def (reread flags) ≡ encode_table_def flags
encode_table_def-reread_example = encode_table_def-reread flags

abbrev row_put : Record
row_put = put 5 (117 ∷ []) (1 ∷ 2 ∷ []) (9 ∷ [])

abbrev committed : Record
committed = commit 5 none

decode_record-encode_payload_example :
    decode_record false (encode_payload committed ++ (1 ∷ [])) ≡ ok (committed, 1 ∷ [])
decode_record-encode_payload_example =
    decode_record-encode_payload committed (1 ∷ []) (omega arith, tt) (omega arith)

decode_wal_range-torn_example :
    decode_wal_range false
      (put_many encode_record (row_put ∷ committed ∷ []) ++ take 10 (encode_record row_put))
    ≡ ok (row_put ∷ committed ∷ [], length (put_many encode_record (row_put ∷ committed ∷ [])))
unfolding valid_utf8 encode_payload encode_record le_bytes put_str put_bytes
decode_wal_range-torn_example =
    decode_wal_range-torn (row_put ∷ committed ∷ []) row_put 10
      (
        ((omega arith, (refl, omega arith), omega arith, omega arith), omega arith),
        (((omega arith, tt), omega arith), tt),
      )
      ((omega arith, (refl, omega arith), omega arith, omega arith), omega arith) (omega arith)

scan_enough_example : scan 3 false (1 ∷ 2 ∷ 3 ∷ []) ≡ scan 9 false (1 ∷ 2 ∷ 3 ∷ [])
scan_enough_example = scan_enough 3 9 false (1 ∷ 2 ∷ 3 ∷ []) (omega arith) (omega arith)

read_all_crash_example :
    read_all (
      new_file
      ++ (put_many encode_record (row_put ∷ committed ∷ []) ++ take 10 (encode_record row_put)))
    ≡ ok (row_put ∷ committed ∷ [])
unfolding valid_utf8 encode_payload encode_record le_bytes put_str put_bytes
read_all_crash_example =
    read_all_crash (row_put ∷ committed ∷ []) row_put 10
      (
        ((omega arith, (refl, omega arith), omega arith, omega arith), omega arith),
        (((omega arith, tt), omega arith), tt),
      )
      ((omega arith, (refl, omega arith), omega arith, omega arith), omega arith) (omega arith)

-- The commit of transaction 6 behind the header of a torn record.
torn_tail_swallows_example :
    read_all (
      new_file
      ++ (put_many encode_record (committed ∷ [])
          ++ (take (8 + 0) (encode_record row_put) ++ put_many encode_record (commit 6 none ∷ []))))
    ≡ ok (committed ∷ [])
unfolding valid_utf8 encode_payload encode_record le_bytes put_str put_bytes put_many
torn_tail_swallows_example =
    torn_tail_swallows (committed ∷ []) (commit 6 none ∷ []) row_put 0
      (((omega arith, tt), omega arith), tt)
      ((omega arith, (refl, omega arith), omega arith, omega arith), omega arith) (omega arith)
