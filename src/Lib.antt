-- ===== src/Lib.antt =====
-- henchDB: a verification library for the parts of the engine that decide what is stored, in which
-- order, and who may see it.
--
-- The program is a SQL database. Tables are B+ trees of encoded rows under encoded keys; commits are
-- written to a log and then installed into the trees in the order of the log; readers that hold a
-- snapshot resolve each key against a buffer of superseded rows; memory that readers may still look at
-- is reclaimed by epochs.
--
--   Datum, Key       crates/engine/src/types.rs. `Datum` is the enum; `encode` and `decode` are the
--                    row encoding, `cmp` (Datum/Order) the order, `encode_key` and `decode_key` the
--                    key encoding, and Key/Secondary the entries of an index.
--   Word, Utf8, Bytes, Bits
--                    what the program uses of Rust's words, strings and byte arrays.
--   Error            crates/engine/src/error.rs; Error/Reader is the shape of the decoders that take
--                    a buffer and an offset.
--   Codec, Catalog   the definition of a table (crates/engine/src/table.rs), the column types, the
--                    statistics (crates/engine/src/stats.rs) and their encoding, which is in
--                    crates/engine/src/wal.rs.
--   Crc, Wal         crates/engine/src/wal.rs: the checksum, the records of the log, their framing, and
--                    the loops of `decode_wal_range` and `read_all`.
--   Replay           the redo loop of `Database::open` in crates/engine/src/db/mod.rs, which holds the
--                    records of a transaction until its Commit is met.
--   Mvcc             crates/engine/src/db/mvcc.rs and phase C of `commit_txn` in
--                    crates/engine/src/db/mod.rs. Mvcc/Install is the interleaving of an install with
--                    snapshots that begin and end: `record_commit_batch`, then one `apply` for each
--                    row, then `publish`, which stores `visible_epoch` and collects garbage.
--   Ebr              crates/engine/src/epoch.rs: the whole calls; in Ebr/Steps the calls of several threads
--                    in atomic steps, where `try_reclaim` scans while others pin and retire.
--   Latch, LockRank  crates/engine/src/latch.rs and crates/engine/src/lock_rank.rs.
--   Memory           crates/engine/src/db/mem_tracker.rs.
--   BTree            crates/engine/src/btree.rs, run by one thread at a time. BTree/Descent has `get` and
--                    the descents of `insert` and `upsert` with the split of full children, BTree/Loops
--                    their loops, BTree/Siblings and BTree/Removal `remove` with borrow, merge and the
--                    collapse of the root, BTree/Range `range` and `update_in_place`. BTree/Entries is
--                    the map that the tree stands for, a list of entries in key order, and BTree/Fits
--                    the well-formedness of a tree. A leaf has whether its `next` is set, which `range`
--                    follows; the leaf it points to is the one to the right.
--   Page             crates/engine/src/page.rs: the locator that stands in a tree for a wide row.
--   Table            crates/engine/src/table.rs: the row codec, the validation of a row with its defaults
--                    and coercions, and the AUTO_INCREMENT sequence. What a text means as a time is a
--                    parameter.
--   Samples          the theorems at concrete inputs.
--
-- Numbers. A word is a natural number, and an i64 an integer, with its range as a hypothesis; where
-- the code wraps or saturates the model says so. A float is its 64 bits, and the conversion of an i64
-- to a float is a parameter, since the hardware does it. A text is a byte string with `valid_utf8`.
--
-- State. Hash maps whose order does not matter are functions of the key; the statistics' map is a list
-- in the order of the names, as the encoder visits it. Concurrency is a relation of atomic steps: a
-- critical section or a successful exchange is one step, but for the lock that `try_reclaim` holds
-- throughout, whose steps Ebr/Steps takes one by one.
--
-- Loops. Loops are structural. The scan of a log counts rounds, as many as there are bytes, and each
-- round takes at least the eight bytes of a header; Wal/Scan says why that is enough. The loops of the
-- tree's `insert` and `upsert` have no bound in the source and take fuel here: BTree/Insert says when two
-- trips are enough, and BTree/Livelock when no number is. The loop of `remove` takes as many passes as
-- there are nodes at most.
--
-- Not modelled: the interleaving of several writers in one tree, the writes of a table to its trees, the
-- pages of the buffer pool, the staging and the group commit of the log,
-- the SQL front end and the executor, backup and point-in-time recovery, the server with its protocols
-- and replication; metrics, files and sockets are I/O. The texts of messages are left out everywhere.
-- The installs of different commits are ordered by the log's offsets in the program; here the relation
-- lets one commit install at a time. Purging the versions of a dropped table is left out.
pub mod Prelude
pub mod Bits
pub mod Bytes
pub mod Word
pub mod Utf8
pub mod Datum
pub mod Codec
pub mod Key
pub mod Catalog
pub mod Crc
pub mod Wal
pub mod Mvcc
pub mod Ebr
pub mod Memory
pub mod Latch
pub mod LockRank
pub mod Error
pub mod Replay
pub mod BTree
pub mod Page
pub mod Table
pub mod Samples
