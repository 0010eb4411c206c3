-- ===== src/Wal/Recovery.antt =====
-- The log as it is read when the database opens.
use hench_db.Prelude.{ℕ, ◌+◌, ◌<◌, ◌≡◌, refl, false, List, ◌++◌, length, take, ltb, arith}
use hench_db.Bytes.{Bytes, le_bytes, from_le, bytes_eq}
use hench_db.Error.{ok}
use hench_db.Codec.{put_many}
use hench_db.Codec.Laws.{AllOf}
use hench_db.Wal.{Record, encode_payload, encode_record, decode_wal_range, new_file, read_all}
use hench_db.Wal.Scan.{Fits, YieldsNone, torn_scan, swallowed_scan, decode_wal_range_log}

read_all_log :
    (recs : List Record) (tail : Bytes)
    → AllOf Fits recs
    → YieldsNone tail
    → read_all (new_file ++ (put_many encode_record recs ++ tail)) ≡ ok recs
unfolding read_all new_file le_bytes from_le bytes_eq decode_wal_range
read_all_log recs tail h none_left =
    let log = put_many encode_record recs ++ tail in
    let long : ltb (length (new_file ++ log)) 8 ≡ false = ground arith in
    let longer : ltb (length (new_file ++ log)) 4 ≡ false = ground arith in
    simp (long, longer, decode_wal_range_log recs tail h none_left) refl

-- After a crash in the middle of a write, reading the log file gives the records that were written
-- whole before the one of which only the first bytes were written. All the records are within the
-- limits of the format, none of more than 2^30 bytes, and the column types of the tables that they
-- create survive their byte: no BOOL, DATETIME or TIMESTAMP.
pub read_all_crash :
    (recs : List Record) (rec : Record) (k : ℕ)
    → AllOf Fits recs
    → Fits rec
    → k < length (encode_record rec)
    → read_all (new_file ++ (put_many encode_record recs ++ take k (encode_record rec))) ≡ ok recs
read_all_crash recs rec k h f lt =
    read_all_log recs (take k (encode_record rec)) h (λ fuel. torn_scan fuel rec k f lt)

-- A log whose last record was cut off behind its header, and to which whole records were appended that
-- together with what is left of the torn one are shorter than its payload: reading it gives the
-- records before the torn one alone. These and the torn one are within the limits of the format, of
-- not more than 2^30 bytes, and the column types of the tables that they create survive their byte:
-- no BOOL, DATETIME or TIMESTAMP.
pub torn_tail_swallows :
    (recs later : List Record) (rec : Record) (j : ℕ)
    → AllOf Fits recs
    → Fits rec
    → length (take j (encode_payload rec) ++ put_many encode_record later)
      < length (encode_payload rec)
    → read_all (
        new_file
        ++ (put_many encode_record recs
            ++ (take (8 + j) (encode_record rec) ++ put_many encode_record later)))
      ≡ ok recs
torn_tail_swallows recs later rec j h f short =
    read_all_log recs (take (8 + j) (encode_record rec) ++ put_many encode_record later) h
      (λ fuel. swallowed_scan fuel rec j (put_many encode_record later) f short)
