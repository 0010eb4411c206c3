-- ===== src/Mvcc/Install.antt =====
-- The install of a commit, as the interleaving of its parts with other sessions. Commits install one
-- at a time and in epoch order (the install frontier), but snapshots begin and end meanwhile.
use hench_db.Prelude.{
  ℕ, ◌<◌, ◌≡◌, ◌≢◌, ◌⊎◌, Bool, true, false, Option, none, some, List, [], ◌∷◌, ◌==◌, if◌then◌else◌,
}
use hench_db.Mvcc.{Key, Row, VersionState, update, gc_locked, register, release, without, oldest}

-- One staged write: the new row, or none for a delete.
abbrev pub Write : Type 0
Write = Key × Option Row

pub record Db : Type 0 where
  pub versions : VersionState
  pub tree : Key → Option Row
  pub visible_epoch : ℕ

unfoldable pub supersede : Bool → ℕ → Option Row → Key → VersionState → VersionState
supersede true epoch prev key vs = vs
supersede false epoch prev key vs = record vs {
  committed = update key (some epoch) vs.committed;
  chains = update key ((epoch, prev) ∷ vs.chains key) vs.chains;
}

module _ (same_raw : Row → Row → Bool) where
  -- An install that leaves the stored bytes as they are has no state to keep.
  unfoldable pub unchanged : Option Row → Option Row → Bool
  unchanged none none = true
  unchanged (some a) (some b) = same_raw a b
  unchanged _ _ = false

  -- `record_install`, the body of the loop of `record_commit_batch` too.
  unfoldable pub record_one : ℕ → Option Row → Write → VersionState → VersionState
  unfolding supersede
  record_one epoch prev (key, new) vs = supersede (unchanged prev new) epoch prev key vs

  -- The whole batch is recorded before any row of it reaches the tree.
  unfoldable pub record_commit_batch :
      ℕ → (Key → Option Row) → List Write → VersionState → VersionState
  record_commit_batch epoch tree [] vs = vs
  record_commit_batch epoch tree ((key, new) ∷ staged) vs =
      record_commit_batch epoch tree staged (record_one epoch (tree key) (key, new) vs)

-- What the installing thread still has to do: the epoch, and the writes not yet in the tree.
pub data Phase : Type 0 where
  idle : Phase
  installing : ℕ → List Write → Phase

pub record System : Type 0 where
  pub db : Db
  pub phase : Phase
  -- What was published at each epoch; no part of the program.
  pub history : ℕ → Key → Option Row

unfoldable pub publish_at : ℕ → (Key → Option Row) → (ℕ → Key → Option Row) → ℕ → Key → Option Row
publish_at epoch tree history e = if e == epoch then tree else history e

unfoldable pub begin_state : System → System
begin_state s = record s {
  db = record s.db { versions = register s.db.visible_epoch s.db.versions };
}

unfoldable pub release_state : ℕ → System → System
release_state id s = record s { db = record s.db { versions = release id s.db.versions } }

unfoldable pub apply_state : Key → Option Row → ℕ → List Write → System → System
apply_state key new epoch rest s = record s {
  db = record s.db { tree = update key new s.db.tree };
  phase = installing epoch rest;
}

unfoldable pub publish_state : ℕ → System → System
publish_state epoch s = record {
  db = record s.db { visible_epoch = epoch; versions = gc_locked s.db.versions };
  phase = idle;
  history = publish_at epoch s.db.tree s.history;
}

module _ (same_raw : Row → Row → Bool) where
  unfoldable pub record_state : ℕ → List Write → System → System
  record_state epoch staged s = record s {
    db = record s.db {
      versions = record_commit_batch same_raw epoch s.db.tree staged s.db.versions;
    };
    phase = installing epoch staged;
  }

  pub data Step : System → System → Type 0 where
    record_batch :
        (s : System) (epoch : ℕ) (staged : List Write)
        → s.phase ≡ idle
        → s.db.visible_epoch < epoch
        → Step s (record_state epoch staged s)
    apply :
        (s : System) (key : Key) (new : Option Row) (epoch : ℕ) (rest : List Write)
        → s.phase ≡ installing epoch ((key, new) ∷ rest)
        → Step s (apply_state key new epoch rest s)
    publish :
        (s : System) (epoch : ℕ) → s.phase ≡ installing epoch [] → Step s (publish_state epoch s)
    begin : (s : System) → Step s (begin_state s)
    end : (s : System) (id : ℕ) → Step s (release_state id s)

  pub data Reach (s : System) : System → Type 0 where
    here : Reach s s
    next : {t u : System} → Reach s t → Step t u → Reach s u

  -- The step does not end the last snapshot while a commit installs: see `reads_unpublished`.
  abbrev pub LeavesOne : {s t : System} → Step s t → Type 0
  LeavesOne (record_batch s epoch staged e lt) = Unit
  LeavesOne (apply s key new epoch rest e) = Unit
  LeavesOne (publish s epoch e) = Unit
  LeavesOne (begin s) = Unit
  LeavesOne (end s id) = (s.phase ≡ idle) ⊎ (oldest (without id s.db.versions.snapshots) ≢ none)

  -- No step of the run does.
  abbrev pub AllLeaveOne : {s t : System} → Reach s t → Type 0
  AllLeaveOne here = Unit
  AllLeaveOne (next r st) = AllLeaveOne r × LeavesOne st
