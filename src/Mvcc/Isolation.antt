-- ===== src/Mvcc/Isolation.antt =====
-- Snapshot isolation of the version buffer, and the interleaving that breaks it.
use mathlib.Core.Logic.{if_pos}
use hench_db.Prelude.{
  ℕ, ◌≤◌, ◌<◌, ◌≡◌, refl, ◌∙◌, sym, ap, Bool, true, false, Option, none, some, [], ◌∷◌, arith,
}
use hench_db.Error.{Result, ok}
use hench_db.Mvcc.{
  Key, Row, Snapshot, VersionState, VersionState_new, key_discrete, epoch_or_0, oldest, without,
  register, release, gc_locked, prune, snapshot_lookup,
}
use hench_db.Mvcc.Chain.{Resolves-lookup, Resolves-fresh}
use hench_db.Mvcc.Pins.{Pinned, AllPins-at}
use hench_db.Mvcc.Install.{
  AllLeaveOne, idle, System, Step, Reach, here, next, record_batch, apply, publish, begin, end,
  publish_at, unchanged, begin_state, release_state, apply_state, publish_state, record_state,
  record_commit_batch, record_one, supersede,
}
use hench_db.Mvcc.Invariant.{IsConsistent, PinSees}
use hench_db.Mvcc.Steps.{Reach-IsConsistent}

-- An open database: no history, no snapshot, and everything in the tree published.
abbrev pub opened : (Key → Option Row) → System
opened tree = record {
  db = record { versions = VersionState_new; tree = tree; visible_epoch = 0 };
  phase = idle;
  history = λ e. tree;
}

opened-IsConsistent : (tree : Key → Option Row) → IsConsistent (opened tree)
unfolding epoch_or_0
opened-IsConsistent tree = record {
  current = λ k. Resolves-fresh 0 none [] (tree k) (omega arith) tt;
  pins = tt;
  chains = λ k. tt;
  epochs = λ k. omega arith;
  under = tt;
}

-- What the lookup of a registered snapshot returns for a key.
abbrev pub read_pin : System → Snapshot → Key → Result (Option Row)
read_pin s p key = snapshot_lookup false (some p.read_epoch) s.db.versions key (s.db.tree key)

module _ (same_raw : Row → Row → Bool) (sound : (a b : Row) → same_raw a b ≡ true → a ≡ b) where
  -- In every state reached from an open database, with snapshots beginning and ending while
  -- commits install, a registered snapshot reads each key as it was published at its read epoch.
  -- In the run no snapshot that is the last ends while a commit installs, and rows whose stored
  -- bytes are equal are equal.
  pub snapshot_isolation :
      (tree : Key → Option Row) {s : System} (p : Snapshot) (key : Key)
      (r : Reach same_raw (opened tree) s)
      → AllLeaveOne same_raw r
      → Pinned p s.db.versions.snapshots
      → read_pin s p key ≡ ok (s.history p.read_epoch key)
  snapshot_isolation tree {s} p key r l i =
      let sees =
        AllPins-at (PinSees s.db s.history) p s.db.versions.snapshots
          (Reach-IsConsistent same_raw sound (opened-IsConsistent tree) r l).pins i in
      Resolves-lookup p.read_epoch s.db.versions key (s.db.tree key) (s.history p.read_epoch key)
        (sees.1 key)

  -- The visible epoch only grows, and what was published at an epoch stays.
  abbrev Extends : System → System → Type 0
  Extends s t =
      (s.db.visible_epoch ≤ t.db.visible_epoch)
      × ((e : ℕ) (k : Key) → e ≤ s.db.visible_epoch → t.history e k ≡ s.history e k)

  Step-Extends : {s t : System} → Step same_raw s t → IsConsistent s → Extends s t
  unfolding record_state apply_state publish_state begin_state release_state publish_at
  Step-Extends (record_batch s epoch staged e lt) h = (omega arith, λ e k le. refl)
  Step-Extends (apply s key new epoch rest e) h = (omega arith, λ e k le. refl)
  Step-Extends (publish s epoch e) h =
      let lt : s.db.visible_epoch < epoch = (rw e at h.under).0 in
      (omega (arith, lt), λ e k le. ground (arith, lt))
  Step-Extends (begin s) h = (omega arith, λ e k le. refl)
  Step-Extends (end s id) h = (omega arith, λ e k le. refl)

  Reach-Extends :
      {s t : System}
      → IsConsistent s
      → (r : Reach same_raw s t) → AllLeaveOne same_raw r
      → Extends s t
  Reach-Extends h here l = (omega arith, λ e k le. refl)
  Reach-Extends h (next r st) (l, m) =
      let (grows, keeps) = Reach-Extends h r l in
      let (grows', keeps') = Step-Extends st (Reach-IsConsistent same_raw sound h r l) in
      (omega arith, λ e k le. keeps' e k (omega arith) ∙ keeps e k le)

  -- However far the system runs between two lookups, a snapshot registered at the first and one
  -- of the same read epoch at the second get the same answer for each key. In the runs no
  -- snapshot that is the last ends while a commit installs, and rows whose stored bytes are equal
  -- are equal.
  pub repeatable_read :
      (tree : Key → Option Row) {s t : System} (p q : Snapshot) (key : Key)
      (r : Reach same_raw (opened tree) s) (r' : Reach same_raw s t)
      → AllLeaveOne same_raw r
      → AllLeaveOne same_raw r'
      → Pinned p s.db.versions.snapshots
      → Pinned q t.db.versions.snapshots
      → p.read_epoch ≡ q.read_epoch
      → read_pin t q key ≡ read_pin s p key
  repeatable_read tree {s} {t} p q key r r' l l' i i' e =
      let holds = Reach-IsConsistent same_raw sound (opened-IsConsistent tree) r l in
      let now = AllPins-at (PinSees s.db s.history) p s.db.versions.snapshots holds.pins i in
      let later =
        AllPins-at (PinSees t.db t.history) q t.db.versions.snapshots
          (Reach-IsConsistent same_raw sound holds r' l').pins i' in
      Resolves-lookup q.read_epoch t.db.versions key (t.db.tree key) (t.history q.read_epoch key)
        (later.1 key)
      ∙ ap ok (
          ap (λ (n : ℕ). t.history n key) (sym e)
          ∙ (Reach-Extends holds r' l').1 p.read_epoch key now.0)
      ∙ sym (
          Resolves-lookup p.read_epoch s.db.versions key (s.db.tree key)
            (s.history p.read_epoch key) (now.1 key))

epoch_or_0-none : epoch_or_0 none ≡ 0
unfolding epoch_or_0
epoch_or_0-none = refl

supersede-snapshots :
    (b : Bool) (epoch : ℕ) (prev : Option Row) (key : Key) (vs : VersionState)
    → (supersede b epoch prev key vs).snapshots ≡ vs.snapshots
unfolding supersede
supersede-snapshots true epoch prev key vs = refl
supersede-snapshots false epoch prev key vs = refl

last_release :
    (id : ℕ) (vs : VersionState) (key : Key)
    → without id vs.snapshots ≡ []
    → (release id vs).committed key ≡ none
unfolding release gc_locked prune oldest
last_release id vs key alone = rw (alone, oldest, prune)

-- The interleaving that `LeavesOne` rules out. A commit has recorded the old row of a key;
-- the last snapshot ends, which drops the whole version buffer; a snapshot begins; the row reaches
-- the tree. The new snapshot then reads the row of a commit that is not published.
pub reads_unpublished :
    (same_raw : Row → Row → Bool) (s : System) (epoch id : ℕ) (key : Key) (new : Option Row)
    → without id s.db.versions.snapshots ≡ []
    → snapshot_lookup false
        (some s.db.visible_epoch)
        (apply_state key new epoch [] (
          begin_state
            (release_state id (record_state same_raw epoch ((key, new) ∷ []) s)))).db.versions
        key
        ((apply_state key new epoch [] (
            begin_state
              (release_state id (record_state same_raw epoch ((key, new) ∷ []) s)))).db.tree
          key)
      ≡ ok new
unfolding record_state release_state begin_state apply_state register snapshot_lookup
    record_commit_batch record_one
reads_unpublished same_raw s epoch id key new alone =
    rw
      (
        last_release id
            (supersede (unchanged same_raw (s.db.tree key) new) epoch (s.db.tree key) key
              s.db.versions)
            key (rw supersede-snapshots alone),
        if_pos (key_discrete key key) refl,
      )
      (ground (arith, epoch_or_0-none))
