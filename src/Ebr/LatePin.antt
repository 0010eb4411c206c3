-- ===== src/Ebr/LatePin.antt =====
-- A thread that pins while a reclamation is in its loop, after the round for that thread: an object that
-- is retired then is freed under the pin.
use mathlib.Core.Path.{fun_ext}
use hench_db.Prelude.{
  ℕ, ◌≡◌, refl, true, false, none, List, [], ◌∷◌, arith, inl, inr, Bool-cases, ◌==◌, if◌then◌else◌,
}
use hench_db.Ebr.{Participant, EpochManager}
use hench_db.Ebr.Nested.{AllInactive}
use hench_db.Ebr.Pinned.{PinnedAt}
use hench_db.Ebr.Guard.{Spares, retired_in}
use hench_db.Ebr.Steps.{Doing, idle, scanning, System, put, Event, Run}

-- No thread is in the middle of anything.
abbrev pub resting : EpochManager → System
resting m = record { manager = m; doing = λ w. idle; locked = false }

-- After some steps the thread is pinned; after some more, in which the object is retired and the
-- thread's epoch does not change, the queue is empty.
pub record Freed (start : System) (t epoch object : ℕ) : Type 0 where
  before : List Event
  pinned : System
  meanwhile : List Event
  after : System
  pins_late : Run start before pinned
  is_pinned : PinnedAt t epoch pinned.manager.participants
  goes_on : Run pinned meanwhile after
  spared : Spares t meanwhile
  retired_one : retired_in meanwhile ≡ object ∷ []
  freed : after.manager.retired ≡ []

pub put_at : (u : ℕ) (d : Doing) (doing : ℕ → Doing) → put u d doing u ≡ d
unfolding put
put_at u d doing = let itself : (u == u) ≡ true = ground arith in rw (itself, if◌then◌else◌) refl

pub put_again : (u : ℕ) (c d : Doing) (doing : ℕ → Doing) → put u d (put u c doing) ≡ put u d doing
unfolding put
put_again u c d doing = fun_ext (λ v. elim (Bool-cases (v == u)) [
  | inl e ↦ rw (e, if◌then◌else◌) refl
  | inr e ↦ rw (e, if◌then◌else◌) refl
])

abbrev AllShared : List Participant → Type 0
AllShared [] = Unit
AllShared (p ∷ ps) = (p.shared ≡ true) × AllShared ps

-- The rounds for inactive participants change nothing but what is to come.
module _ (m : EpochManager) (v current : ℕ) (doing : ℕ → Doing)
    (h : AllInactive m.participants) where
  abbrev scanned : List ℕ → System
  scanned todo = record {
    manager = m;
    doing = put v (scanning current todo none true) doing;
    locked = true;
  }
