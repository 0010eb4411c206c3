-- ===== src/Mvcc/Invariant.antt =====
-- What holds in every reachable state of the version buffer, and that every step keeps it.
use hench_db.Prelude.{
  ℕ, ◌≤◌, ◌<◌, ◌≡◌, refl, ◌≢◌, inl, inr, Option, none, some, arith, Option-cases,
}
use hench_db.Mvcc.{
  Key, Row, Snapshot, VersionState, epoch_or_0, retain_epoch, oldest, gc_locked, prune, walk,
}
use hench_db.Mvcc.Chain.{Resolves, Resolves-retain, Descends, Descends-retain}
use hench_db.Mvcc.Pins.{AllPins, AllPins-map, AllPins-zip, AllPins-of_none, oldest-le}
use hench_db.Mvcc.Record.{AllPending}
use hench_db.Mvcc.Install.{Db, Phase, idle, installing, System}

-- No entry is above the visible epoch, or above that of the commit under way.
abbrev frontier : Phase → ℕ → ℕ
frontier idle visible = visible
frontier (installing epoch staged) visible = epoch

abbrev pub Under : Phase → ℕ → (Key → Option Row) → (Key → Option ℕ) → Type 0
Under idle visible tree committed = Unit
Under (installing epoch staged) visible tree committed =
    (visible < epoch) × AllPending epoch tree committed staged

-- A read at this epoch gives, for every key, what was published then.
abbrev pub SeesAt : ℕ → Db → (Key → Option Row) → Type 0
SeesAt epoch db view =
    (k : Key) → Resolves epoch (db.versions.committed k) (db.versions.chains k) (db.tree k) (view k)

abbrev pub PinSees : Db → (ℕ → Key → Option Row) → Snapshot → Type 0
PinSees db history p =
    (p.read_epoch ≤ db.visible_epoch) × SeesAt p.read_epoch db (history p.read_epoch)

pub record IsConsistent (s : System) : Type 0 where
  pub current : SeesAt s.db.visible_epoch s.db (s.history s.db.visible_epoch)
  pub pins : AllPins (PinSees s.db s.history) s.db.versions.snapshots
  pub chains : (k : Key) → Descends (frontier s.phase s.db.visible_epoch) (s.db.versions.chains k)
  pub epochs :
      (k : Key) → epoch_or_0 (s.db.versions.committed k) ≤ frontier s.phase s.db.visible_epoch
  pub under : Under s.phase s.db.visible_epoch s.db.tree s.db.versions.committed

-- Pruning keeps the answer to a reader at or above the oldest epoch, and to any reader of a key
-- whose row in the tree is the one that it would get.
pub prune-Resolves :
    (o : Option ℕ) (read bound : ℕ) (k : Key) (current row : Option Row) (vs : VersionState)
    → Descends bound (vs.chains k)
    → ((old : ℕ) → o ≡ some old → old ≤ read)
    → (o ≡ none → current ≡ row)
    → Resolves read (vs.committed k) (vs.chains k) current row
    → Resolves read ((prune o vs).committed k) ((prune o vs).chains k) current row
unfolding prune epoch_or_0 walk
prune-Resolves none read bound k current row vs d above empty r =
    inl (omega arith, refl, empty refl)
prune-Resolves (some old) read bound k current row vs d above empty r =
    Resolves-retain read old bound (vs.committed k) (vs.chains k) current row (above old refl) d r

pub prune-Descends :
    (o : Option ℕ) (bound : ℕ) (k : Key) (vs : VersionState)
    → Descends bound (vs.chains k)
    → Descends bound ((prune o vs).chains k)
unfolding prune
prune-Descends none bound k vs d = tt
prune-Descends (some old) bound k vs d = Descends-retain bound old (vs.chains k) d

retain_epoch-le :
    (old bound : ℕ) (c : Option ℕ) → epoch_or_0 c ≤ bound → epoch_or_0 (retain_epoch old c) ≤ bound
unfolding retain_epoch epoch_or_0
retain_epoch-le old bound none h = h
retain_epoch-le old bound (some e) h = ground arith

pub prune-epochs :
    (o : Option ℕ) (bound : ℕ) (k : Key) (vs : VersionState)
    → epoch_or_0 (vs.committed k) ≤ bound
    → epoch_or_0 ((prune o vs).committed k) ≤ bound
unfolding prune
prune-epochs none bound k vs h = unfold epoch_or_0 in omega arith
prune-epochs (some old) bound k vs h = retain_epoch-le old bound (vs.committed k) h

pub prune-committed :
    (o : Option ℕ) (epoch : ℕ) (k : Key) (vs : VersionState)
    → ((old : ℕ) → o ≡ some old → old < epoch)
    → o ≢ none
    → vs.committed k ≡ some epoch
    → (prune o vs).committed k ≡ some epoch
unfolding prune retain_epoch
prune-committed none epoch k vs above some_left e = absurd (some_left refl)
prune-committed (some old) epoch k vs above some_left e = ground (arith, above old refl)

prune-snapshots : (o : Option ℕ) (vs : VersionState) → (prune o vs).snapshots ≡ vs.snapshots
unfolding prune
prune-snapshots none vs = refl
prune-snapshots (some old) vs = refl

-- A step that prunes `vs` to the pins that it holds keeps every one of them.
pub prune-pins :
    (db : Db) (history : ℕ → Key → Option Row) (vs : VersionState) (bound : ℕ)
    → ((k : Key) → Descends bound (vs.chains k))
    → AllPins (PinSees (record db { versions = vs }) history) vs.snapshots
    → AllPins (PinSees (record db { versions = gc_locked vs }) history) (gc_locked vs).snapshots
unfolding gc_locked
prune-pins db history vs bound d h =
    rw (prune-snapshots (oldest vs.snapshots) vs) (elim (Option-cases (oldest vs.snapshots)) [
      | inl n ↦ AllPins-of_none _ vs.snapshots n
      | inr (old, e) ↦
          AllPins-map
            (λ p
                (((le, sees), above) : PinSees (record db { versions = vs }) history p
                  × (old ≤ p.read_epoch)).
              (
                le,
                λ k.
                    prune-Resolves (oldest vs.snapshots) p.read_epoch bound k (db.tree k)
                      (history p.read_epoch k) vs (d k) (λ o q. ground arith) (λ n. cc) (sees k),
              ))
            vs.snapshots (AllPins-zip _ _ vs.snapshots h (oldest-le vs.snapshots old e))
    ])
