-- ===== src/Wal.antt =====
-- crates/engine/src/wal.rs: the records of the write-ahead log, their encoding, and the scan of a log
-- that may end in a torn record.
pub mod RecordCodec
pub mod Scan
pub mod Recovery
use hench_db.Prelude.{
  ℕ, zero, suc, ◌+◌, ◌^◌, Bool, true, false, Option, none, some, List, [], ◌∷◌, ◌++◌, length, take,
  drop, ltb, leb, ◌==◌, ◌||◌, if◌then◌else◌, not,
}
use hench_db.Bytes.{Bytes, bytes_eq, le_bytes, from_le}
use hench_db.Error.{Result, ok, err, corrupted, io}
use hench_db.Error.Reader.{Reader, ◌>>=◌, pure, fail, take_byte, take_le}
use hench_db.Codec.{put_str, put_bytes, take_str, take_bytes}
use hench_db.Catalog.{TableDef}
use hench_db.Catalog.DefCodec.{encode_table_def, decode_table_def}
use hench_db.Crc.{crc32}

pub data Record : Type 0 where
  put : ℕ → Bytes → Bytes → Bytes → Record
  delete : ℕ → Bytes → Bytes → Record
  commit : ℕ → Option ℕ → Record
  create_table : ℕ → TableDef → Record
  drop_table : ℕ → Bytes → Record
  create_index : ℕ → Bytes → Bytes → Bytes → Record
  drop_index : ℕ → Bytes → Bytes → Record
  create_database : ℕ → Bytes → Record
  drop_database : ℕ → Bytes → Record

-- `if let Some(ts) = ts { .. }`
abbrev put_ts : Option ℕ → Bytes
put_ts none = []
put_ts (some ts) = le_bytes 8 ts

-- The payload of a record, which `encode_record` frames.
unfoldable pub encode_payload : Record → Bytes
encode_payload (put txn table key row) =
    1 ∷ (le_bytes 8 txn ++ (put_str table ++ (put_bytes key ++ put_bytes row)))
encode_payload (delete txn table key) = 2 ∷ (le_bytes 8 txn ++ (put_str table ++ put_bytes key))
encode_payload (commit txn ts) = 3 ∷ (le_bytes 8 txn ++ put_ts ts)
encode_payload (create_table txn def) = 4 ∷ (le_bytes 8 txn ++ encode_table_def def)
encode_payload (drop_table txn name) = 5 ∷ (le_bytes 8 txn ++ put_str name)
encode_payload (create_index txn table name column) =
    6 ∷ (le_bytes 8 txn ++ (put_str table ++ (put_str name ++ put_str column)))
encode_payload (drop_index txn table name) = 7 ∷ (le_bytes 8 txn ++ (put_str table ++ put_str name))
encode_payload (create_database txn name) = 8 ∷ (le_bytes 8 txn ++ put_str name)
encode_payload (drop_database txn name) = 9 ∷ (le_bytes 8 txn ++ put_str name)

-- The length and the checksum of the payload, and the payload.
frame : Bytes → Bytes
frame payload = le_bytes 4 (length payload) ++ (le_bytes 4 (crc32 payload) ++ payload)

unfoldable pub encode_record : Record → Bytes
unfolding frame
encode_record rec = frame (encode_payload rec)

-- `if buf.len() - *off >= 8 { .. }`
take_ts : Reader (Option ℕ)
take_ts bs = if leb 8 (length bs) then (do t ← take_le 8; pure (some t)) bs else ok (none, bs)

decode_kind : Bool → ℕ → ℕ → Reader Record
decode_kind legacy_cols txn kind =
    if kind == 1
    then (do table ← take_str; key ← take_bytes; row ← take_bytes; pure (put txn table key row))
    else if kind == 2
    then (do table ← take_str; key ← take_bytes; pure (delete txn table key))
    else if kind == 3
    then (do ts ← take_ts; pure (commit txn ts))
    else if kind == 4
    then (do def ← decode_table_def legacy_cols; pure (create_table txn def))
    else if kind == 5
    then (do name ← take_str; pure (drop_table txn name))
    else if kind == 6
    then (do
      table ← take_str
      name ← take_str
      column ← take_str
      pure (create_index txn table name column))
    else if kind == 7
    then (do table ← take_str; name ← take_str; pure (drop_index txn table name))
    else if kind == 8
    then (do name ← take_str; pure (create_database txn name))
    else if kind == 9
    then (do name ← take_str; pure (drop_database txn name))
    else fail

unfoldable pub decode_record : Bool → Reader Record
unfolding decode_kind take_ts
decode_record legacy_cols = do kind ← take_byte; txn ← take_le 8; decode_kind legacy_cols txn kind

-- The records and the bytes consumed, with one more record in front.
abbrev add_record : Record → ℕ → Result (List Record × ℕ) → Result (List Record × ℕ)
add_record rec n (ok (recs, consumed)) = ok (rec ∷ recs, n + consumed)
add_record rec n (err e) = err e

abbrev add_decoded :
    Result (Record × Bytes) → ℕ → Result (List Record × ℕ) → Result (List Record × ℕ)
add_decoded (ok (rec, _)) n rest = add_record rec n rest
add_decoded (err e) n rest = err e

-- The loop of `decode_wal_range` and of `read_all` from an offset on; each round takes at least the
-- eight bytes of a header, so as many rounds as there are bytes suffice.
unfoldable pub scan : ℕ → Bool → Bytes → Result (List Record × ℕ)
scan zero legacy_cols buf = ok ([], 0)
scan (suc fuel) legacy_cols buf =
    let len = from_le (take 4 buf) in
    let crc = from_le (take 4 (drop 4 buf)) in
    let body = drop 8 buf in
    let rest = scan fuel legacy_cols (drop len body) in
    if ltb (length buf) 8
    then ok ([], 0)
    else if ltb (2 ^ 30) len
    then err corrupted
    else if ltb (length body) len
    then ok ([], 0)
    else if crc32 (take len body) == crc
    then add_decoded (decode_record legacy_cols (take len body)) (8 + len) rest
    else err corrupted

unfoldable pub decode_wal_range : Bool → Bytes → Result (List Record × ℕ)
decode_wal_range legacy_cols buf = scan (length buf) legacy_cols buf

-- `b"HDBW"`
abbrev wal_magic : Bytes
wal_magic = 72 ∷ 68 ∷ 66 ∷ 87 ∷ []

-- What `Wal::open` and `Wal::reset` put at the start of an empty file.
unfoldable pub new_file : Bytes
new_file = wal_magic ++ le_bytes 4 4

abbrev records_of : Result (List Record × ℕ) → Result (List Record)
records_of (ok (recs, consumed)) = ok recs
records_of (err e) = err e

-- Its loop over the file is that of `decode_wal_range`; `read_exact` fails at the end of the file.
unfoldable pub read_all : Bytes → Result (List Record)
read_all file =
    let version = from_le (take 4 (drop 4 file)) in
    let body = drop 8 file in
    if ltb (length file) 4
    then err io
    else if not (bytes_eq (take 4 file) wal_magic)
    then err corrupted
    else if ltb (length file) 8
    then err io
    else if ltb version 1 || ltb 4 version
    then err corrupted
    else records_of (scan (length body) (ltb version 3) body)
