-- ===== src/Mvcc.antt =====
-- crates/engine/src/db/mvcc.rs and the install phase of `commit_txn` in crates/engine/src/db/mod.rs:
-- the version buffer behind snapshot isolation.
--
-- The hash maps `committed`, `chains` and the table's tree are functions of the key; a key without a
-- chain has the empty one. A row stands for its stored bytes, and `same_raw` is the comparison of the
-- old and the new bytes of a row (a wide row is stored by a locator, so equal rows may compare
-- unequal). The age limit of a snapshot is the argument `expired`.
pub mod Install
pub mod Chain
pub mod Pins
pub mod Record
pub mod Invariant
pub mod Steps
pub mod Isolation
use Prim.Native.Nat.{min}
use mathlib.Core.Logic.{ite}
use hench_db.Prelude.{
  ℕ, ◌+◌, ◌≡◌, Bool, true, false, not, ◌&&◌, ◌||◌, Option, none, some, List, [], ◌∷◌, ltb, leb,
  ◌==◌, if◌then◌else◌, ℕ_discrete,
}
use hench_db.Bytes.{Bytes, bytes_eq}
use hench_db.Datum.{Datum}
use hench_db.Error.{Result, ok, err, execution_error}

-- The table's name and the encoded primary key.
abbrev pub Key : Type 0
Key = Bytes × Bytes

abbrev pub Row : Type 0
Row = List Datum

pub key_discrete : Discrete Key
key_discrete = hlevel ℕ_discrete

abbrev pub update {ℓ} : {A : Type ℓ} → Key → A → (Key → A) → Key → A
update k a f j = ite (key_discrete k j) a (f j)

-- Superseded states of one key, newest first: `(until_epoch, row)`.
abbrev pub Chain : Type 0
Chain = List (ℕ × Option Row)

pub record Snapshot : Type 0 where
  pub id : ℕ
  pub read_epoch : ℕ

pub record VersionState : Type 0 where
  pub committed : Key → Option ℕ
  pub chains : Key → Chain
  pub snapshots : List Snapshot
  pub next_snapshot_id : ℕ

abbrev pub VersionState_new : VersionState
VersionState_new = record {
  committed = λ k. none;
  chains = λ k. [];
  snapshots = [];
  next_snapshot_id = 1;
}

-- `self.snapshots.values().map(|(e, _)| *e).min()`
unfoldable pub oldest : List Snapshot → Option ℕ
oldest [] = none
oldest (s ∷ ss) = elim (oldest ss) [ none ↦ some s.read_epoch | some e ↦ some (min s.read_epoch e) ]

-- `chain.retain(|(until, _)| *until > oldest)`
unfoldable pub retain : ℕ → Chain → Chain
retain old [] = []
retain old ((until, row) ∷ chain) =
    if ltb old until then (until, row) ∷ retain old chain else retain old chain

-- `committed.retain(|_, e| *e > oldest)`
unfoldable pub retain_epoch : ℕ → Option ℕ → Option ℕ
retain_epoch old none = none
retain_epoch old (some e) = if ltb old e then some e else none

unfoldable pub prune : Option ℕ → VersionState → VersionState
prune none vs = record vs { committed = λ k. none; chains = λ k. [] }
prune (some old) vs = record vs {
  committed = λ k. retain_epoch old (vs.committed k);
  chains = λ k. retain old (vs.chains k);
}

unfoldable pub gc_locked : VersionState → VersionState
unfolding prune
gc_locked vs = prune (oldest vs.snapshots) vs

-- `read_epoch` comes from `visible_epoch`, read under the same lock.
unfoldable pub register : ℕ → VersionState → VersionState
register visible_epoch vs = record vs {
  snapshots = record { id = vs.next_snapshot_id; read_epoch = visible_epoch } ∷ vs.snapshots;
  next_snapshot_id = vs.next_snapshot_id + 1;
}

unfoldable pub without : ℕ → List Snapshot → List Snapshot
without id [] = []
without id (s ∷ ss) = if s.id == id then without id ss else s ∷ without id ss

pub release : ℕ → VersionState → VersionState
release id vs = gc_locked (record vs { snapshots = without id vs.snapshots })

-- The walk down a chain: the last entry of the run whose `until` is above the read epoch.
unfoldable pub walk : ℕ → Chain → Option (Option Row)
walk epoch [] = none
walk epoch ((until, row) ∷ chain) =
    let older : Option (Option Row) = elim (walk epoch chain) [
      | none ↦ some row
      | some r ↦ some r
    ] in
    if ltb epoch until then older else none

unfoldable pub epoch_or_0 : Option ℕ → ℕ
epoch_or_0 none = 0
epoch_or_0 (some e) = e

abbrev answer : Option (Option Row) → Result (Option Row)
answer none = err execution_error
answer (some row) = ok row

-- `snapshot_lookup`; `read_epoch` is none for a session that holds no snapshot.
pub snapshot_lookup : Bool → Option ℕ → VersionState → Key → Option Row → Result (Option Row)
snapshot_lookup expired none vs key current = ok current
snapshot_lookup expired (some epoch) vs key current =
    if expired
    then err execution_error
    else if leb (epoch_or_0 (vs.committed key)) epoch
    then ok current
    else answer (walk epoch (vs.chains key))

-- The loop of `snapshot_scan_extra` over the keys that have a chain: the rows of a table that the
-- scan did not meet and that the snapshot sees.
extra_rows : ℕ → VersionState → Bytes → (Bytes → Bool) → List Key → List (Bytes × Row)
extra_rows epoch vs table present [] = []
extra_rows epoch vs table present ((t, k) ∷ keys) =
    let rest = extra_rows epoch vs table present keys in
    if not (bytes_eq t table) || present k then rest else elim (walk epoch (vs.chains (t, k))) [
      | none ↦ rest
      | some none ↦ rest
      | some (some row) ↦ (k, row) ∷ rest
    ]

snapshot_scan_extra :
    Bool → Option ℕ → VersionState → Bytes → (Bytes → Bool) → List Key → Result (List (Bytes × Row))
unfolding extra_rows
snapshot_scan_extra expired none vs table present keys = ok []
snapshot_scan_extra expired (some epoch) vs table present keys =
    if expired then err execution_error else ok (extra_rows epoch vs table present keys)
