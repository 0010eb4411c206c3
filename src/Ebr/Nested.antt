-- ===== src/Ebr/Nested.antt =====
-- A second pin of a thread that is pinned already: it raises the thread's epoch, and the first guard
-- no longer keeps what was retired under it.
use native.Mathlib.Numerals.{unary_clauses}
use hench_db.Prelude.{
  ℕ, ◌+◌, ◌≡◌, refl, true, false, none, some, List, [], ◌∷◌, arith, Bool-cases, inl, inr, ◌==◌, ltb,
  leb,
}
use hench_db.Ebr.{
  Participant, Retired, EpochManager, is_registered, local_participant, set_epoch, pin, retire,
  retain_shared, min_with, min_active, all_caught_up, retain_from, horizon_of, try_reclaim,
}

abbrev pub AllInactive : List Participant → Type 0
AllInactive [] = Unit
AllInactive (p ∷ ps) = (p.active_epoch ≡ none) × AllInactive ps

pub AllInactive-retain_shared :
    (ps : List Participant) → AllInactive ps → AllInactive (retain_shared ps)
unfolding retain_shared
AllInactive-retain_shared [] h = tt
AllInactive-retain_shared (p ∷ ps) (e, h) = elim (Bool-cases p.shared) [
  | inl b ↦ rw b (e, AllInactive-retain_shared ps h)
  | inr b ↦ rw b (AllInactive-retain_shared ps h)
]

min_active-none : (ps : List Participant) → AllInactive ps → min_active ps ≡ none
unfolding min_active min_with
min_active-none [] h = refl
min_active-none (p ∷ ps) (e, h) = ground (arith, min_active-none ps h)

all_caught_up-true : (g : ℕ) (ps : List Participant) → AllInactive ps → all_caught_up g ps ≡ true
unfolding all_caught_up
all_caught_up-true g [] h = refl
all_caught_up-true g (p ∷ ps) (e, h) = ground (arith, all_caught_up-true g ps h)

-- A reclaim where one thread is pinned at the epoch `e` and all others are inactive.
reclaim_one :
    (g e retired_total reclaimed_total t : ℕ) (others : List Participant) (queue : List Retired)
    → AllInactive others
    → ((try_reclaim (record {
      global_epoch = g;
      retired_total = retired_total;
      reclaimed_total = reclaimed_total;
      participants = record { thread = t; active_epoch = some e; shared = true } ∷ others;
      retired = queue;
    })).retired
        ≡ retain_from e queue)
unfolding try_reclaim retain_shared min_active min_with horizon_of
reclaim_one g e a b t others queue h =
    rw (min_active-none (retain_shared others) (AllInactive-retain_shared others h))

-- The state in which only the thread `t` is pinned, at the epoch `e`.
abbrev alone : ℕ → ℕ → ℕ → ℕ → ℕ → List Participant → List Retired → EpochManager
alone g e a b t others queue = record {
  global_epoch = g;
  retired_total = a;
  reclaimed_total = b;
  participants = record { thread = t; active_epoch = some e; shared = true } ∷ others;
  retired = queue;
}

ltb_self : (g : ℕ) → ltb g g ≡ false
ltb_self g = ground arith

leb_self : (g : ℕ) → leb g g ≡ true
leb_self g = ground arith

leb-next : (g : ℕ) → leb (g + 1) g ≡ false
leb-next g = ground arith

eq_self : (g : ℕ) → (g == g) ≡ true
eq_self g = ground arith

reclaim_alone :
    (g a b t object : ℕ) (others : List Participant)
    → AllInactive others
    → (try_reclaim (alone g g a b t others (record { object = object; epoch = g } ∷ []))
        ≡ alone (g + 1) g a b t (retain_shared others) (record { object = object; epoch = g } ∷ []))
unfolding try_reclaim retain_shared min_active min_with horizon_of all_caught_up retain_from
reclaim_alone g a b t object others h =
    rw
      (
        min_active-none (retain_shared others) (AllInactive-retain_shared others h),
        all_caught_up-true g (retain_shared others) (AllInactive-retain_shared others h),
        ltb_self g,
        leb_self g,
      )
      (simp unary_clauses refl)

pin-alone :
    (g e a b t : ℕ) (others : List Participant) (queue : List Retired)
    → ((pin t (alone g e a b t others queue)).0 ≡ alone g g a b t others queue)
unfolding pin local_participant is_registered set_epoch
pin-alone g e a b t others queue = simp (eq_self t) refl

-- A thread that is pinned alone in the current epoch retires an object; a reclaim keeps it; the
-- thread pins a second time and a reclaim runs again, each call with no step of another thread in
-- between: the object is freed although the first guard has not been dropped.
pub nested_pin_frees :
    (g a b t object : ℕ) (others : List Participant)
    → AllInactive others
    → let start = alone g g a b t others [] in
      let first = try_reclaim (retire object start) in
      let second = try_reclaim (pin t first).0 in
      (first.retired ≡ record { object = object; epoch = g } ∷ []) × (second.retired ≡ [])
unfolding retire retain_from
nested_pin_frees g a b t object others h =
    let inactive = AllInactive-retain_shared others h in
    rw
      (
        reclaim_alone g (a + 1) b t object others h,
        pin-alone (g + 1) g (a + 1) b t (retain_shared others)
            (record { object = object; epoch = g } ∷ []),
      )
      (
        refl,
        rw
            (
              reclaim_one (g + 1) (g + 1) (a + 1) b t (retain_shared others)
                  (record { object = object; epoch = g } ∷ []) inactive,
              leb-next g,
            )
            refl,
      )
