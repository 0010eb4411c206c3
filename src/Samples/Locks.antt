-- ===== src/Samples/Locks.antt =====
-- The latch, the lock ranks and the memory tracker.
use hench_db.Prelude.{ℕ, ◌≤◌, ◌≡◌, refl, true, [], ◌∷◌, arith}
use hench_db.Latch.{Latch, lock, unlock, Runs, optimistic, validate, try_lock, unlock_exclusive}
use hench_db.Latch.Versions.{free, one_writer, validated_unwritten}
use hench_db.LockRank.{commit_lock, b_tree, rank_of, acquire, push_above, max_held, Reach}
use hench_db.LockRank.Sorted.{UpTo, IsSorted, acquire_above}
use hench_db.Memory.{
  QueryMemoryTracker, QueryMemoryTracker_new, try_reserve, saturating_add, System, raise_peak,
  release, first,
}
use hench_db.Memory.Accounts.{fresh, sum, top, accounted}

abbrev locked_once : Latch
locked_once = record { state = 1; writers = 1 }

abbrev written_once : Latch
written_once = record { state = 2; writers = 0 }

takes_latch : Runs free 1 locked_once
unfolding try_lock
takes_latch = Runs.next Runs.start (lock free 1 refl)

one_writer_example : locked_once.writers ≤ 1
one_writer_example = one_writer takes_latch

writes_once : Runs free 2 written_once
unfolding unlock_exclusive
writes_once = Runs.next takes_latch (unlock locked_once 0 refl)

abbrev no_steps : ℕ
no_steps = 0

validated_unwritten_example : (no_steps ≡ 0) × (written_once.writers ≡ 0)
unfolding optimistic validate
validated_unwritten_example =
    validated_unwritten {n = 0} {m = written_once} 2 writes_once refl Runs.start (omega arith) refl

holds_commit_lock : Reach (commit_lock ∷ [])
unfolding acquire push_above max_held rank_of
holds_commit_lock = Reach.acquired commit_lock Reach.none_held refl

acquire_above_example :
    UpTo (commit_lock ∷ []) (rank_of b_tree) × IsSorted (commit_lock ∷ b_tree ∷ [])
unfolding acquire push_above max_held rank_of
acquire_above_example = acquire_above b_tree holds_commit_lock refl

-- One reservation of 400 bytes under a limit of 1000, with its peak still to raise.
abbrev one_reserved : System
one_reserved = record {
  tracker = record { limit = 1000; has_limit = true; current_bytes = 400; peak_bytes = 0 };
  live = 400 ∷ [];
  raising = 400 ∷ [];
}

reserves : hench_db.Memory.Reach (fresh 1000) one_reserved
unfolding QueryMemoryTracker_new try_reserve saturating_add
reserves = hench_db.Memory.Reach.next hench_db.Memory.Reach.here (
    hench_db.Memory.Step.reserve (fresh 1000) 400
      (record { limit = 1000; has_limit = true; current_bytes = 400; peak_bytes = 0 }) (omega arith)
      refl)

accounted_example :
    (one_reserved.tracker.current_bytes ≡ sum one_reserved.live)
    × (sum one_reserved.live ≤ 1000)
    × (one_reserved.tracker.current_bytes
        ≤ top one_reserved.tracker.peak_bytes one_reserved.raising)
accounted_example = accounted 1000 (omega arith) reserves
