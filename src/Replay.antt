-- ===== src/Replay.antt =====
-- The redo loop of `Database::open` in crates/engine/src/db/mod.rs: records wait under the number of
-- their transaction until its Commit is met. `applied` is what `apply_records` gets, in order.
pub mod Committed
use hench_db.Prelude.{ℕ, Option, none, some, List, [], ◌∷◌, ◌++◌, ◌==◌, if◌then◌else◌}
use hench_db.Wal.{
  Record, put, delete, commit, create_table, drop_table, create_index, drop_index, create_database,
  drop_database,
}

unfoldable pub txn_of : Record → ℕ
txn_of (put txn table key row) = txn
txn_of (delete txn table key) = txn
txn_of (commit txn ts) = txn
txn_of (create_table txn def) = txn
txn_of (drop_table txn name) = txn
txn_of (create_index txn table name column) = txn
txn_of (drop_index txn table name) = txn
txn_of (create_database txn name) = txn
txn_of (drop_database txn name) = txn

-- `Record::Commit { txn, .. }`
unfoldable pub committed_txn : Record → Option ℕ
committed_txn (commit txn ts) = some txn
committed_txn _ = none

-- The map `pending`, a transaction that is not in it having no records.
abbrev pub Pending : Type 0
Pending = ℕ → List Record

abbrev pub none_pending : Pending
none_pending txn = []

-- `pending.entry(txn).or_default().push(rec)`
abbrev pub push : ℕ → Record → Pending → Pending
push txn rec pending u = if u == txn then pending u ++ (rec ∷ []) else pending u

-- `pending.remove(&txn)`
abbrev pub remove : ℕ → Pending → Pending
remove txn pending u = if u == txn then [] else pending u

unfoldable pub applied : Pending → List Record → List Record
applied pending [] = []
applied pending (rec ∷ recs) = elim (committed_txn rec) [
  | none ↦ applied (push (txn_of rec) rec pending) recs
  | some txn ↦ pending txn ++ applied (remove txn pending) recs
]
