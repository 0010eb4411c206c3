-- ===== src/Samples/Epochs.antt =====
-- The reclamation of memory.
use hench_db.Prelude.{◌≡◌, refl, true, none, some, [], ◌∷◌, arith, inl}
use hench_db.Ebr.{
  EpochManager, EpochManager_new, pin, retire, try_reclaim, min_with, epoch_of, retain_shared,
  horizon_of,
}
use hench_db.Ebr.Steps.{
  System, put, retire_load, retire_count, retire_push, lock_participants, load_current, scan_next,
  advance, sweep, is_current, quiet, retires, retire_loads, retire_counts, retire_pushes, locks,
  loads_current, scans, advances, sweeps, Run, stays, steps,
}
use hench_db.Ebr.Guard.{Guarded}
use hench_db.Ebr.Protect.{pinned_protects}
use hench_db.Ebr.Nested.{nested_pin_frees}
use hench_db.Ebr.LatePin.{resting}

-- Thread 1 is pinned in the first epoch.
abbrev one_pinned : EpochManager
one_pinned = record EpochManager_new {
  participants = record { thread = 1; active_epoch = some 1; shared = true } ∷ [];
}

nested_pin_frees_example :
    let first = try_reclaim (retire 70 one_pinned) in
    let second = try_reclaim (pin 1 first).0 in
    (first.retired ≡ record { object = 70; epoch = 1 } ∷ []) × (second.retired ≡ [])
nested_pin_frees_example = nested_pin_frees 1 0 0 1 70 [] tt

-- Thread 2 is in its loop while thread 3 retires the object 70.
abbrev scanned_one : System
scanned_one =
    scan_next 2 1 1 [] none true (load_current 2 (lock_participants 2 (resting one_pinned)))

abbrev pushed_one : System
pushed_one = retire_push 3 70 1 (retire_count 3 70 1 (retire_load 3 70 scanned_one))

abbrev swept_one : System
swept_one = sweep 2 1 (advance 2 1 (some 1) true pushed_one)

swept_one-Run :
    Run
      (resting one_pinned)
      (quiet ∷ quiet ∷ quiet ∷ quiet ∷ retires 70 ∷ quiet ∷ quiet ∷ quiet ∷ [])
      swept_one
unfolding put lock_participants load_current scan_next is_current epoch_of retain_shared min_with
    retire_load retire_count retire_push advance sweep horizon_of
swept_one-Run =
    steps
      (steps
        (steps
          (steps
            (steps
              (steps (steps (steps stays (locks 2 refl refl)) (loads_current 2 refl))
                (scans 2 1 1 [] none true refl))
              (retire_loads 3 70 refl))
            (retire_counts 3 70 1 refl))
          (retire_pushes 3 70 1 refl))
        (advances 2 1 (some 1) true refl))
      (sweeps 2 1 refl)

pinned_protects_example : Guarded 1 1 swept_one (70 ∷ [])
pinned_protects_example =
    pinned_protects 1 (inl (refl, refl, refl)) (omega arith) (λ u. tt) swept_one-Run tt

-- Thread 1 is registered and not pinned.
abbrev one_idle : EpochManager
one_idle = record EpochManager_new {
  participants = record { thread = 1; active_epoch = none; shared = true } ∷ [];
}
