-- ===== src/Wal/RecordCodec.antt =====
-- A record is read back as it was written.
use mathlib.Core.List.{append_assoc}
use hench_db.Prelude.{
  ℕ, ◌<◌, ◌≡◌, refl, ◌^◌, true, false, none, some, ◌++◌, length, arith, leb, if◌then◌else◌,
}
use hench_db.Bytes.{Bytes, le_bytes}
use hench_db.Word.{IsU64}
use hench_db.Error.{ok}
use hench_db.Error.Reader.{continue, take_le, take_le-le_bytes}
use hench_db.Codec.Laws.{Reads, IsStr, OnSome, take_str-put_str, take_bytes-put_bytes}
use hench_db.Catalog.DefCodec.Laws.{IsTableDef, decode_table_def-encode}
use hench_db.Wal.{
  Record, put, delete, commit, create_table, drop_table, create_index, drop_index, create_database,
  drop_database, encode_payload, take_ts, decode_kind, decode_record,
}

abbrev IsBlob : Bytes → Type 0
IsBlob b = length b < 2 ^ 32

-- The fields are within the format's limits, and the column types of a new table survive their byte.
abbrev pub IsRecord : Record → Type 0
IsRecord (put txn table key row) = IsU64 txn × IsStr table × IsBlob key × IsBlob row
IsRecord (delete txn table key) = IsU64 txn × IsStr table × IsBlob key
IsRecord (commit txn ts) = IsU64 txn × OnSome IsU64 ts
IsRecord (create_table txn def) = IsU64 txn × IsTableDef def
IsRecord (drop_table txn name) = IsU64 txn × IsStr name
IsRecord (create_index txn table name column) = IsU64 txn × IsStr table × IsStr name × IsStr column
IsRecord (drop_index txn table name) = IsU64 txn × IsStr table × IsStr name
IsRecord (create_database txn name) = IsU64 txn × IsStr name
IsRecord (drop_database txn name) = IsU64 txn × IsStr name

-- What follows cannot be taken for the timestamp of a commit that has none.
abbrev pub Ends : Record → Bytes → Type 0
Ends (commit txn none) rest = length rest < 8
Ends _ rest = Unit

Reads-word : (v : ℕ) → IsU64 v → Reads (take_le 8) (le_bytes 8 v) v
Reads-word v h rest = take_le-le_bytes 8 v rest h

take_ts-none : (rest : Bytes) → length rest < 8 → take_ts rest ≡ ok (none, rest)
unfolding take_ts
take_ts-none rest h = ground arith

take_ts-some :
    (ts : ℕ) (rest : Bytes) → IsU64 ts → take_ts (le_bytes 8 ts ++ rest) ≡ ok (some ts, rest)
unfolding take_ts le_bytes
take_ts-some ts rest h =
    let long : leb 8 (length (le_bytes 8 ts ++ rest)) ≡ true = ground arith in
    rw (long, if◌then◌else◌) (rw (Reads-word ts h rest, continue))

-- Decoding the payload of a record within the limits of the format returns the record and what follows
-- it; after a commit without a timestamp fewer than 8 bytes may follow. The column types of a table
-- that the record creates survive their byte: none is BOOL, DATETIME or TIMESTAMP.
pub decode_record-encode_payload :
    (rec : Record) (rest : Bytes)
    → IsRecord rec
    → Ends rec rest
    → decode_record false (encode_payload rec ++ rest) ≡ ok (rec, rest)
unfolding decode_record encode_payload decode_kind
decode_record-encode_payload (put txn table key row) rest (ht, hs, hk, hr) e =
    simp
      (
        append_assoc,
        Reads-word txn ht,
        take_str-put_str table hs,
        take_bytes-put_bytes key hk,
        take_bytes-put_bytes row hr,
      )
      refl
decode_record-encode_payload (delete txn table key) rest (ht, hs, hk) e =
    simp (append_assoc, Reads-word txn ht, take_str-put_str table hs, take_bytes-put_bytes key hk)
      refl
decode_record-encode_payload (commit txn none) rest (ht, hs) e =
    simp (append_assoc, Reads-word txn ht, take_ts-none rest e) refl
decode_record-encode_payload (commit txn (some ts)) rest (ht, hs) e =
    simp (append_assoc, Reads-word txn ht, take_ts-some ts rest hs) refl
decode_record-encode_payload (create_table txn def) rest (ht, hd) e =
    simp (append_assoc, Reads-word txn ht, decode_table_def-encode def rest hd) refl
decode_record-encode_payload (drop_table txn name) rest (ht, hn) e =
    simp (append_assoc, Reads-word txn ht, take_str-put_str name hn) refl
decode_record-encode_payload (create_index txn table name column) rest (ht, hs, hn, hc) e =
    simp
      (
        append_assoc,
        Reads-word txn ht,
        take_str-put_str table hs,
        take_str-put_str name hn,
        take_str-put_str column hc,
      )
      refl
decode_record-encode_payload (drop_index txn table name) rest (ht, hs, hn) e =
    simp (append_assoc, Reads-word txn ht, take_str-put_str table hs, take_str-put_str name hn) refl
decode_record-encode_payload (create_database txn name) rest (ht, hn) e =
    simp (append_assoc, Reads-word txn ht, take_str-put_str name hn) refl
decode_record-encode_payload (drop_database txn name) rest (ht, hn) e =
    simp (append_assoc, Reads-word txn ht, take_str-put_str name hn) refl
