-- ===== src/Ebr/Guard.antt =====
-- What keeps the objects alive that are retired while a thread is pinned.
use mathlib.Core.Path.{subst}
use hench_db.Prelude.{
  ℕ, ◌≤◌, ◌≡◌, ◌≢◌, ◌⊎◌, inl, inr, List, [], ◌∷◌, arith, Bool-cases, ◌==◌, if◌then◌else◌,
}
use hench_db.Ebr.{Retired}
use hench_db.Ebr.Pinned.{Least, PinnedAt, ToCome, Waits}
use hench_db.Ebr.Steps.{
  Doing, idle, pinning, retiring, counted, listing, scanning, sweeping, System, put, Event, quiet,
  pins, retires,
}

-- A reclamation has the epoch of the thread before it, or has seen it.
abbrev pub Harmless : ℕ → ℕ → Doing → Type 0
Harmless t epoch (scanning current todo oldest caught_up) = ToCome t todo ⊎ Least epoch oldest
Harmless t epoch (sweeping horizon) = horizon ≤ epoch
Harmless t epoch _ = Unit

-- A `retire` of the object has loaded the epoch or a later one.
abbrev pub Carries : ℕ → ℕ → Doing → Type 0
Carries epoch object (retiring o e) = (o ≡ object) × (epoch ≤ e)
Carries epoch object (counted o e) = (o ≡ object) × (epoch ≤ e)
Carries epoch object _ = ⊥

-- The object is in the queue, or on its way there.
abbrev pub Safe : ℕ → List Retired → (ℕ → Doing) → ℕ → Type 0
Safe epoch queue doing object =
    Waits epoch object queue ⊎ ((u : ℕ) × Carries epoch object (doing u))

abbrev pub AllSafe : ℕ → List Retired → (ℕ → Doing) → List ℕ → Type 0
AllSafe epoch queue doing [] = Unit
AllSafe epoch queue doing (o ∷ os) = Safe epoch queue doing o × AllSafe epoch queue doing os

pub AllSafe-imp :
    (epoch : ℕ) (queue after : List Retired) (doing next : ℕ → Doing)
    → ((object : ℕ) → Safe epoch queue doing object → Safe epoch after next object)
    → (os : List ℕ) → AllSafe epoch queue doing os
    → AllSafe epoch after next os
AllSafe-imp epoch queue after doing next f [] h = tt
AllSafe-imp epoch queue after doing next f (o ∷ os) (w, h) =
    (f o w, AllSafe-imp epoch queue after doing next f os h)

-- Thread `t` is pinned at an epoch that is not above the global one, no reclamation passes it over,
-- and the objects wait.
pub record Guarded (t epoch : ℕ) (s : System) (os : List ℕ) : Type 0 where
  pub stays_pinned : PinnedAt t epoch s.manager.participants
  pub not_above : epoch ≤ s.manager.global_epoch
  pub harmless : (u : ℕ) → Harmless t epoch (s.doing u)
  pub safe : AllSafe epoch s.manager.retired s.doing os

-- No step is one of thread `t` that changes its epoch.
abbrev pub Spares : ℕ → List Event → Type 0
Spares t [] = Unit
Spares t (quiet ∷ es) = Spares t es
Spares t (pins u ∷ es) = (t ≢ u) × Spares t es
Spares t (retires object ∷ es) = Spares t es

abbrev pub retired_in : List Event → List ℕ
retired_in [] = []
retired_in (quiet ∷ es) = retired_in es
retired_in (pins u ∷ es) = retired_in es
retired_in (retires object ∷ es) = object ∷ retired_in es

-- The thread has not begun a `try_reclaim` that is not over.
abbrev pub NotReclaiming : Doing → Type 0
NotReclaiming listing = ⊥
NotReclaiming (scanning current todo oldest caught_up) = ⊥
NotReclaiming (sweeping horizon) = ⊥
NotReclaiming _ = Unit

pub Harmless-start : (t epoch : ℕ) (d : Doing) → NotReclaiming d → Harmless t epoch d
Harmless-start t epoch idle h = tt
Harmless-start t epoch (pinning e) h = tt
Harmless-start t epoch (retiring o e) h = tt
Harmless-start t epoch (counted o e) h = tt
Harmless-start t epoch listing h = tt
Harmless-start t epoch (scanning c todo m b) h = absurd h
Harmless-start t epoch (sweeping horizon) h = absurd h

pub put-each :
    (P : Doing → Type 0) (u : ℕ) (d : Doing) (doing : ℕ → Doing)
    → P d
    → ((v : ℕ) → P (doing v))
    → (v : ℕ) → P (put u d doing v)
unfolding put
put-each P u d doing h f v = elim (Bool-cases (v == u)) [
  | inl e ↦ rw (e, if◌then◌else◌) h
  | inr e ↦ rw (e, if◌then◌else◌) (f v)
]

-- An object that a thread carries it still carries if that one's next state does.
pub Carries-put :
    (epoch object u : ℕ) (d : Doing) (doing : ℕ → Doing)
    → (Carries epoch object (doing u) → Carries epoch object d)
    → ((v : ℕ) × Carries epoch object (doing v))
    → (v : ℕ) × Carries epoch object (put u d doing v)
unfolding put
Carries-put epoch object u d doing f (v, c) = elim (Bool-cases (v == u)) [
  | inl e ↦
      let same : v ≡ u = ground arith in
      (v, rw (e, if◌then◌else◌) (f (subst (λ w. Carries epoch object (doing w)) same c)))
  | inr e ↦ (v, rw (e, if◌then◌else◌) c)
]
