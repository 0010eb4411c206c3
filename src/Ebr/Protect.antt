-- ===== src/Ebr/Protect.antt =====
-- A thread that stays pinned keeps alive every object that is retired meanwhile, if no reclamation was
-- under way when it was pinned.
use hench_db.Prelude.{ℕ, ◌≤◌, List}
use hench_db.Ebr.Pinned.{PinnedAt}
use hench_db.Ebr.Guard.{Guarded, Spares, retired_in, NotReclaiming, Harmless-start}
use hench_db.Ebr.Keeps.{
  step_register, step_pin_load, step_pin_swap, step_drop_guard, step_retire_load, step_retire_count,
  step_lock, step_load_current, step_scan, step_advance, step_sweep, step_retire_push,
}
use hench_db.Ebr.Steps.{
  Run, stays, steps, registers, pin_loads, pin_swaps, drops_guard, retire_loads, retire_counts,
  retire_pushes, locks, loads_current, scans, advances, sweeps, System, Event,
}

-- While a thread stays pinned at an epoch that is not above the global one, and if no `try_reclaim` was
-- under way when it was pinned, then whatever the threads do, step by step, it stays pinned, the epoch
-- stays not above the global one, and every object whose `retire` begins meanwhile is in the queue or
-- on its way there. No step of the run changes the thread's own epoch.
pub pinned_protects :
    {t : ℕ} {s m : System} {es : List Event} (epoch : ℕ)
    → PinnedAt t epoch s.manager.participants
    → epoch ≤ s.manager.global_epoch
    → ((u : ℕ) → NotReclaiming (s.doing u))
    → Run s es m
    → Spares t es
    → Guarded t epoch m (retired_in es)
pinned_protects epoch p le quiet_now stays n = record {
  stays_pinned = p;
  not_above = le;
  harmless = λ u. Harmless-start _ epoch _ (quiet_now u);
  safe = tt;
}
pinned_protects epoch p le q (steps r (registers u i l)) n =
    step_register (pinned_protects epoch p le q r n) u
pinned_protects epoch p le q (steps r (pin_loads u i k)) n =
    step_pin_load (pinned_protects epoch p le q r n) u i
pinned_protects epoch p le q (steps r (pin_swaps u e i)) (ne, n) =
    step_pin_swap (pinned_protects epoch p le q r n) u e ne i
pinned_protects epoch p le q (steps r (drops_guard u prev i)) (ne, n) =
    step_drop_guard (pinned_protects epoch p le q r n) u prev ne
pinned_protects epoch p le q (steps r (retire_loads u object i)) n =
    step_retire_load (pinned_protects epoch p le q r n) u object i
pinned_protects epoch p le q (steps r (retire_counts u object e i)) n =
    step_retire_count (pinned_protects epoch p le q r n) u object e i
pinned_protects epoch p le q (steps r (retire_pushes u object e i)) n =
    step_retire_push (pinned_protects epoch p le q r n) u object e i
pinned_protects epoch p le q (steps r (locks u i l)) n =
    step_lock (pinned_protects epoch p le q r n) u i
pinned_protects epoch p le q (steps r (loads_current u i)) n =
    step_load_current (pinned_protects epoch p le q r n) u i
pinned_protects epoch p le q (steps r (scans u c v todo o b i)) n =
    step_scan (pinned_protects epoch p le q r n) u c v todo o b i
pinned_protects epoch p le q (steps r (advances u c o b i)) n =
    step_advance (pinned_protects epoch p le q r n) u c o b i
pinned_protects epoch p le q (steps r (sweeps u h i)) n =
    step_sweep (pinned_protects epoch p le q r n) u h i
