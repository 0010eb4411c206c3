-- ===== src/Ebr.antt =====
-- crates/engine/src/epoch.rs: epoch-based reclamation. A thread's participant holds the epoch that it
-- has pinned, or none (`INACTIVE_EPOCH`). The functions here are the whole calls, with no step of
-- another thread in between; Ebr/Steps has the calls of several threads step by step. An object is
-- known by a number, and leaves the queue when its memory is freed.
pub mod Steps
pub mod Pinned
pub mod Guard
pub mod Keeps
pub mod Protect
pub mod Nested
pub mod LatePin
pub mod Alone
use Prim.Native.Nat.{min}
use hench_db.Prelude.{
  ℕ, ◌+◌, ◌-◌, Bool, true, false, not, ◌&&◌, Option, none, some, List, [], ◌∷◌, ◌++◌, length, ltb,
  leb, ◌==◌, if◌then◌else◌,
}

pub record Participant : Type 0 where
  pub thread : ℕ
  pub active_epoch : Option ℕ
  -- Some thread still holds it: `Arc::strong_count(p) > 1`.
  pub shared : Bool

pub record Retired : Type 0 where
  pub object : ℕ
  pub epoch : ℕ

pub record EpochManager : Type 0 where
  pub global_epoch : ℕ
  pub retired_total : ℕ
  pub reclaimed_total : ℕ
  pub participants : List Participant
  pub retired : List Retired

abbrev pub EpochManager_new : EpochManager
EpochManager_new = record {
  global_epoch = 1;
  retired_total = 0;
  reclaimed_total = 0;
  participants = [];
  retired = [];
}

unfoldable pub is_registered : ℕ → List Participant → Bool
is_registered t [] = false
is_registered t (p ∷ ps) = if p.thread == t then true else is_registered t ps

register_thread : ℕ → EpochManager → EpochManager
register_thread t m = record m {
  participants = m.participants ++ (record { thread = t; active_epoch = none; shared = true } ∷ []);
}

-- `active_epoch.swap(e)` on the participant of a thread.
unfoldable pub set_epoch : ℕ → Option ℕ → List Participant → List Participant
set_epoch t e [] = []
set_epoch t e (p ∷ ps) =
    if p.thread == t then record p { active_epoch = e } ∷ ps else p ∷ set_epoch t e ps

unfoldable pub epoch_of : ℕ → List Participant → Option ℕ
epoch_of t [] = none
epoch_of t (p ∷ ps) = if p.thread == t then p.active_epoch else epoch_of t ps

unfoldable pub local_participant : ℕ → EpochManager → EpochManager
unfolding register_thread
local_participant t m = if is_registered t m.participants then m else register_thread t m

-- The guard keeps the epoch that the pin replaced.
unfoldable pub pin : ℕ → EpochManager → EpochManager × Option ℕ
unfolding local_participant
pin t m =
    let m' = local_participant t m in
    (
      record m' { participants = set_epoch t (some m'.global_epoch) m'.participants },
      epoch_of t m'.participants,
    )

-- `Guard::drop`
unfoldable pub unpin : ℕ → Option ℕ → EpochManager → EpochManager
unpin t prev m = record m { participants = set_epoch t prev m.participants }

unfoldable pub retire : ℕ → EpochManager → EpochManager
retire object m = record m {
  retired_total = m.retired_total + 1;
  retired = m.retired ++ (record { object = object; epoch = m.global_epoch } ∷ []);
}

-- `participants.retain(|p| Arc::strong_count(p) > 1)`
unfoldable pub retain_shared : List Participant → List Participant
retain_shared [] = []
retain_shared (p ∷ ps) = if p.shared then p ∷ retain_shared ps else retain_shared ps

unfoldable pub min_with : Option ℕ → Option ℕ → Option ℕ
min_with none m = m
min_with (some e) none = some e
min_with (some e) (some m) = some (min e m)

-- The oldest active epoch, by the loop over the participants.
unfoldable pub min_active : List Participant → Option ℕ
unfolding min_with
min_active [] = none
min_active (p ∷ ps) = min_with p.active_epoch (min_active ps)

unfoldable pub all_caught_up : ℕ → List Participant → Bool
all_caught_up current [] = true
all_caught_up current (p ∷ ps) =
    elim p.active_epoch [ none ↦ true | some e ↦ not (ltb e current) ] && all_caught_up current ps

-- `queue.retain(|item| item.epoch >= horizon)`
unfoldable pub retain_from : ℕ → List Retired → List Retired
retain_from horizon [] = []
retain_from horizon (r ∷ rs) =
    if leb horizon r.epoch then r ∷ retain_from horizon rs else retain_from horizon rs

unfoldable pub horizon_of : Option ℕ → ℕ → ℕ
horizon_of none safe_epoch = safe_epoch
horizon_of (some e) safe_epoch = e

-- The whole call, when no other thread runs meanwhile.
unfoldable pub try_reclaim : EpochManager → EpochManager
try_reclaim m =
    let ps = retain_shared m.participants in
    let safe_epoch =
      if all_caught_up m.global_epoch ps then m.global_epoch + 1 else m.global_epoch in
    let kept = retain_from (horizon_of (min_active ps) safe_epoch) m.retired in
    record m {
      global_epoch = safe_epoch;
      participants = ps;
      retired = kept;
      reclaimed_total = m.reclaimed_total + (length m.retired - length kept);
    }
