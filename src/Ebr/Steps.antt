-- ===== src/Ebr/Steps.antt =====
-- crates/engine/src/epoch.rs: `pin`, `retire` and `try_reclaim` of several threads at once. Each load,
-- exchange or addition of an atomic is a step of its own, and so is a section under a mutex but for
-- the lock of the participants, which `try_reclaim` holds from its first step to its last. Only a
-- thread that registers waits for it.
use hench_db.Prelude.{
  ℕ, ◌+◌, ◌-◌, ◌≡◌, Bool, true, false, not, ◌&&◌, Option, none, some, List, [], ◌∷◌, ◌++◌, map,
  length, ltb, ◌==◌, if◌then◌else◌,
}
use hench_db.Ebr.{
  Participant, EpochManager, is_registered, local_participant, set_epoch, epoch_of, retain_shared,
  min_with, retain_from, horizon_of,
}

-- What a thread is in the middle of: a `pin` that has loaded the epoch; a `retire` that has loaded
-- it, or has counted the object too; a `try_reclaim` that has the lock, or is in its loop with some
-- participants to come, or has its horizon.
pub data Doing : Type 0 where
  idle : Doing
  pinning : ℕ → Doing
  retiring counted : ℕ → ℕ → Doing
  listing : Doing
  scanning : ℕ → List ℕ → Option ℕ → Bool → Doing
  sweeping : ℕ → Doing

pub record System : Type 0 where
  pub manager : EpochManager
  pub doing : ℕ → Doing
  pub locked : Bool

unfoldable pub put : ℕ → Doing → (ℕ → Doing) → ℕ → Doing
put u d doing v = if v == u then d else doing v

-- The thread goes on to `d`.
abbrev pub goes : ℕ → Doing → System → System
goes u d s = record s { doing = put u d s.doing }

abbrev pub with_participants : List Participant → System → System
with_participants ps s = record s { manager = record s.manager { participants = ps } }

unfoldable pub register_participant : ℕ → System → System
register_participant u s = record s { manager = local_participant u s.manager }

unfoldable pub pin_load : ℕ → System → System
pin_load u s = goes u (pinning s.manager.global_epoch) s

unfoldable pub pin_swap : ℕ → ℕ → System → System
pin_swap u e s = goes u idle (with_participants (set_epoch u (some e) s.manager.participants) s)

unfoldable pub guard_drop : ℕ → Option ℕ → System → System
guard_drop u prev s = with_participants (set_epoch u prev s.manager.participants) s

unfoldable pub retire_load : ℕ → ℕ → System → System
retire_load u object s = goes u (retiring object s.manager.global_epoch) s

unfoldable pub retire_count : ℕ → ℕ → ℕ → System → System
retire_count u object e s =
    goes u (counted object e)
      (record s { manager = record s.manager { retired_total = s.manager.retired_total + 1 } })

unfoldable pub retire_push : ℕ → ℕ → ℕ → System → System
retire_push u object e s = goes u idle (record s {
  manager = record s.manager {
    retired = s.manager.retired ++ (record { object = object; epoch = e } ∷ []);
  };
})

unfoldable pub lock_participants : ℕ → System → System
lock_participants u s =
    record (goes u listing (with_participants (retain_shared s.manager.participants) s)) {
      locked = true;
    }

unfoldable pub load_current : ℕ → System → System
load_current u s =
    goes u (scanning s.manager.global_epoch (map (λ p. p.thread) s.manager.participants) none true)
      s

-- `e == INACTIVE_EPOCH || e >= current_global`.
unfoldable pub is_current : ℕ → Option ℕ → Bool
is_current current none = true
is_current current (some e) = not (ltb e current)

-- One round of the loop over the participants.
unfoldable pub scan_next : ℕ → ℕ → ℕ → List ℕ → Option ℕ → Bool → System → System
scan_next u current v todo oldest caught_up s =
    let e = epoch_of v s.manager.participants in
    goes u (scanning current todo (min_with e oldest) (caught_up && is_current current e)) s

unfoldable pub advance : ℕ → ℕ → Option ℕ → Bool → System → System
advance u current oldest caught_up s =
    if caught_up
    then goes u (sweeping (horizon_of oldest (s.manager.global_epoch + 1)))
        (record s { manager = record s.manager { global_epoch = s.manager.global_epoch + 1 } })
    else goes u (sweeping (horizon_of oldest current)) s

unfoldable pub sweep : ℕ → ℕ → System → System
sweep u horizon s =
    let kept = retain_from horizon s.manager.retired in
    goes u idle (record s {
      manager = record s.manager {
        retired = kept;
        reclaimed_total = s.manager.reclaimed_total + (length s.manager.retired - length kept);
      };
      locked = false;
    })

-- What a step does to the epoch of a thread, or the object that a `retire` begins with.
pub data Event : Type 0 where
  quiet : Event
  pins retires : ℕ → Event

pub data Step (s : System) : Event → System → Type 0 where
  registers :
      (u : ℕ) → s.doing u ≡ idle → s.locked ≡ false → Step s quiet (register_participant u s)
  pin_loads :
      (u : ℕ)
      → s.doing u ≡ idle
      → is_registered u s.manager.participants ≡ true
      → Step s quiet (pin_load u s)
  pin_swaps : (u e : ℕ) → s.doing u ≡ pinning e → Step s (pins u) (pin_swap u e s)
  drops_guard : (u : ℕ) (prev : Option ℕ) → s.doing u ≡ idle → Step s (pins u) (guard_drop u prev s)
  retire_loads :
      (u object : ℕ) → s.doing u ≡ idle → Step s (retires object) (retire_load u object s)
  retire_counts :
      (u object e : ℕ) → s.doing u ≡ retiring object e → Step s quiet (retire_count u object e s)
  retire_pushes :
      (u object e : ℕ) → s.doing u ≡ counted object e → Step s quiet (retire_push u object e s)
  locks : (u : ℕ) → s.doing u ≡ idle → s.locked ≡ false → Step s quiet (lock_participants u s)
  loads_current : (u : ℕ) → s.doing u ≡ listing → Step s quiet (load_current u s)
  scans :
      (u current v : ℕ) (todo : List ℕ) (oldest : Option ℕ) (caught_up : Bool)
      → s.doing u ≡ scanning current (v ∷ todo) oldest caught_up
      → Step s quiet (scan_next u current v todo oldest caught_up s)
  advances :
      (u current : ℕ) (oldest : Option ℕ) (caught_up : Bool)
      → s.doing u ≡ scanning current [] oldest caught_up
      → Step s quiet (advance u current oldest caught_up s)
  sweeps : (u horizon : ℕ) → s.doing u ≡ sweeping horizon → Step s quiet (sweep u horizon s)

-- The events of a run, the last one first.
pub data Run (s : System) : List Event → System → Type 0 where
  stays : Run s [] s
  steps : {es : List Event} {e : Event} {m n : System} → Run s es m → Step m e n → Run s (e ∷ es) n
