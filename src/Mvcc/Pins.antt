-- ===== src/Mvcc/Pins.antt =====
-- The registered snapshots and the oldest of them.
use mathlib.Core.Path.{subst}
use hench_db.Prelude.{
  ℕ, ◌≤◌, ◌≡◌, ◌⊎◌, none, some, List, [], ◌∷◌, arith, ◌==◌, inl, inr, Bool-cases, Option-cases,
}
use hench_db.Mvcc.{Snapshot, oldest, without}

abbrev pub AllPins : (Snapshot → Type 0) → List Snapshot → Type 0
AllPins P [] = Unit
AllPins P (s ∷ ss) = P s × AllPins P ss

-- The snapshot is registered.
abbrev pub Pinned : Snapshot → List Snapshot → Type 0
Pinned p [] = ⊥
Pinned p (s ∷ ss) = (s ≡ p) ⊎ Pinned p ss

pub AllPins-at :
    (P : Snapshot → Type 0) (p : Snapshot) (ss : List Snapshot) → AllPins P ss → Pinned p ss → P p
AllPins-at P p [] h i = absurd i
AllPins-at P p (s ∷ ss) (q, h) (inl e) = subst P e q
AllPins-at P p (s ∷ ss) (q, h) (inr i) = AllPins-at P p ss h i

pub AllPins-map :
    {P Q : Snapshot → Type 0} (f : (s : Snapshot) → P s → Q s) (ss : List Snapshot)
    → AllPins P ss
    → AllPins Q ss
AllPins-map f [] h = tt
AllPins-map f (s ∷ ss) (p, h) = (f s p, AllPins-map f ss h)

pub AllPins-zip :
    (P Q : Snapshot → Type 0) (ss : List Snapshot)
    → AllPins P ss
    → AllPins Q ss
    → AllPins (λ s. P s × Q s) ss
AllPins-zip P Q [] h k = tt
AllPins-zip P Q (s ∷ ss) (p, h) (q, k) = ((p, q), AllPins-zip P Q ss h k)

pub AllPins-without :
    (P : Snapshot → Type 0) (id : ℕ) (ss : List Snapshot) → AllPins P ss → AllPins P (without id ss)
unfolding without
AllPins-without P id [] h = tt
AllPins-without P id (s ∷ ss) (p, h) = elim (Bool-cases (s.id == id)) [
  | inl e ↦ rw e (AllPins-without P id ss h)
  | inr e ↦ rw e (p, AllPins-without P id ss h)
]

pub AllPins-of_none : (P : Snapshot → Type 0) (ss : List Snapshot) → oldest ss ≡ none → AllPins P ss
unfolding oldest
AllPins-of_none P [] e = tt
AllPins-of_none P (s ∷ ss) e = absurd (ground arith)

-- The oldest is not above any of them.
pub oldest-le :
    (ss : List Snapshot) (old : ℕ) → oldest ss ≡ some old → AllPins (λ s. old ≤ s.read_epoch) ss
unfolding oldest
oldest-le [] old e = tt
oldest-le (s ∷ ss) old e = elim (Option-cases (oldest ss)) [
  | inl n ↦ (ground arith, AllPins-of_none _ ss n)
  | inr (o, n) ↦
      (ground arith, AllPins-map (λ t (le : o ≤ t.read_epoch). ground arith) ss (oldest-le ss o n))
]

pub oldest-le_bound :
    (ss : List Snapshot) (old bound : ℕ)
    → oldest ss ≡ some old
    → AllPins (λ s. s.read_epoch ≤ bound) ss
    → old ≤ bound
unfolding oldest
oldest-le_bound [] old bound e h = absurd (ground arith)
oldest-le_bound (s ∷ ss) old bound e (le, h) = ground arith
