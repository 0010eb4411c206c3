-- ===== src/Ebr/Alone.antt =====
-- The whole calls are what runs of the steps come to.
use hench_db.Prelude.{ℕ, ◌+◌, ◌-◌, ◌≡◌, Bool, true, Option, List, [], ◌∷◌, if◌then◌else◌, length}
use hench_db.Ebr.{Participant, EpochManager, epoch_of, retain_from, horizon_of}
use hench_db.Ebr.Steps.{Doing, idle, listing, scanning, System, put}

-- Each participant is the one that is found for its thread.
abbrev pub OwnEpochs : List Participant → List Participant → Type 0
OwnEpochs all [] = Unit
OwnEpochs all (p ∷ ps) = (epoch_of p.thread all ≡ p.active_epoch) × OwnEpochs all ps

module _ (m : EpochManager) (v current : ℕ) (doing : ℕ → Doing) where
  abbrev at_scan : List ℕ → Option ℕ → Bool → System
  at_scan todo oldest caught_up = record {
    manager = m;
    doing = put v (scanning current todo oldest caught_up) doing;
    locked = true;
  }

module _ (m : EpochManager) (v : ℕ) where
  -- The manager after the last steps, where the participants were `ps`.
  abbrev reclaimed : List Participant → Option ℕ → Bool → EpochManager
  reclaimed ps oldest caught_up =
      let safe_epoch = if caught_up then m.global_epoch + 1 else m.global_epoch in
      let kept = retain_from (horizon_of oldest safe_epoch) m.retired in
      record m {
        global_epoch = safe_epoch;
        participants = ps;
        retired = kept;
        reclaimed_total = m.reclaimed_total + (length m.retired - length kept);
      }

  abbrev listed : List Participant → EpochManager
  listed ps = record m { participants = ps }

  abbrev asked : ℕ → Doing
  asked = put v listing (λ w. idle)
