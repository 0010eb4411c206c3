-- ===== src/Ebr/Pinned.antt =====
-- The participant of a pinned thread, the least epoch of the participants, and what waits in the queue.
use hench_db.Prelude.{
  ℕ, ◌≤◌, ◌≡◌, refl, ◌≢◌, ◌⊎◌, inl, inr, true, false, Option, none, some, List, [], ◌∷◌, ◌++◌,
  arith, Bool-cases, leb, ◌==◌, map, if◌then◌else◌,
}
use hench_db.Ebr.{
  Participant, Retired, set_epoch, epoch_of, retain_shared, min_with, retain_from, horizon_of,
}

-- The object waits in the queue, retired at the epoch or later.
abbrev pub Waits : ℕ → ℕ → List Retired → Type 0
Waits epoch object [] = ⊥
Waits epoch object (r ∷ rs) = ((r.object ≡ object) × (epoch ≤ r.epoch)) ⊎ Waits epoch object rs

-- The participant of a thread is there, held, and pinned at the epoch.
abbrev pub PinnedAt : ℕ → ℕ → List Participant → Type 0
PinnedAt t epoch [] = ⊥
PinnedAt t epoch (p ∷ ps) =
    ((p.thread ≡ t) × (p.active_epoch ≡ some epoch) × (p.shared ≡ true))
    ⊎ ((p.thread ≢ t) × PinnedAt t epoch ps)

pub Waits-retain_from :
    (horizon epoch object : ℕ) (rs : List Retired)
    → horizon ≤ epoch
    → Waits epoch object rs
    → Waits epoch object (retain_from horizon rs)
unfolding retain_from
Waits-retain_from horizon epoch object [] h w = w
Waits-retain_from horizon epoch object (r ∷ rs) h (inl (same, le)) =
    let keeps : leb horizon r.epoch ≡ true = ground arith in rw keeps (inl (same, le))
Waits-retain_from horizon epoch object (r ∷ rs) h (inr w) =
    elim (Bool-cases (leb horizon r.epoch)) [
      | inl e ↦ rw e (inr (Waits-retain_from horizon epoch object rs h w))
      | inr e ↦ rw e (Waits-retain_from horizon epoch object rs h w)
    ]

pub Waits-append :
    (epoch object : ℕ) (rs ss : List Retired)
    → Waits epoch object rs
    → Waits epoch object (rs ++ ss)
Waits-append epoch object [] ss w = absurd w
Waits-append epoch object (r ∷ rs) ss (inl h) = inl h
Waits-append epoch object (r ∷ rs) ss (inr w) = inr (Waits-append epoch object rs ss w)

pub Waits-last :
    (epoch object later : ℕ) (rs : List Retired)
    → epoch ≤ later
    → Waits epoch object (rs ++ (record { object = object; epoch = later } ∷ []))
Waits-last epoch object later [] h = inl (refl, h)
Waits-last epoch object later (r ∷ rs) h = inr (Waits-last epoch object later rs h)

pub PinnedAt-retain_shared :
    (t epoch : ℕ) (ps : List Participant)
    → PinnedAt t epoch ps
    → PinnedAt t epoch (retain_shared ps)
unfolding retain_shared
PinnedAt-retain_shared t epoch [] h = h
PinnedAt-retain_shared t epoch (p ∷ ps) (inl (same, active, held)) =
    simp held (inl (same, active, refl))
PinnedAt-retain_shared t epoch (p ∷ ps) (inr (other, h)) = elim (Bool-cases p.shared) [
  | inl e ↦ rw e (inr (other, PinnedAt-retain_shared t epoch ps h))
  | inr e ↦ rw e (PinnedAt-retain_shared t epoch ps h)
]

abbrev pub Least : ℕ → Option ℕ → Type 0
Least epoch none = ⊥
Least epoch (some m) = m ≤ epoch

pub Least-min_with_left : (epoch : ℕ) (o : Option ℕ) → Least epoch (min_with (some epoch) o)
unfolding min_with
Least-min_with_left epoch none = omega arith
Least-min_with_left epoch (some m) = omega arith

pub Least-min_with : (epoch : ℕ) (a o : Option ℕ) → Least epoch o → Least epoch (min_with a o)
unfolding min_with
Least-min_with epoch none o h = h
Least-min_with epoch (some a) none h = absurd h
Least-min_with epoch (some a) (some m) h = omega arith

-- The horizon is not above the epoch of a pinned thread.
pub horizon-le :
    (epoch safe_epoch : ℕ) (o : Option ℕ) → Least epoch o → horizon_of o safe_epoch ≤ epoch
unfolding horizon_of
horizon-le epoch safe_epoch none h = absurd h
horizon-le epoch safe_epoch (some m) h = h

pub PinnedAt-set_epoch :
    (t u epoch : ℕ) (e : Option ℕ) (ps : List Participant)
    → t ≢ u
    → PinnedAt t epoch ps
    → PinnedAt t epoch (set_epoch u e ps)
unfolding set_epoch
PinnedAt-set_epoch t u epoch e [] ne h = h
PinnedAt-set_epoch t u epoch e (p ∷ ps) ne (inl (same, active, held)) =
    let test : (p.thread == u) ≡ false = ground arith in simp test (inl (same, active, held))
PinnedAt-set_epoch t u epoch e (p ∷ ps) ne (inr (other, h)) = elim (Bool-cases (p.thread == u)) [
  | inl same ↦ simp same (inr (other, h))
  | inr differs ↦ simp differs (inr (other, PinnedAt-set_epoch t u epoch e ps ne h))
]

pub PinnedAt-append :
    (t epoch : ℕ) (ps qs : List Participant) → PinnedAt t epoch ps → PinnedAt t epoch (ps ++ qs)
PinnedAt-append t epoch [] qs h = absurd h
PinnedAt-append t epoch (p ∷ ps) qs (inl h) = inl h
PinnedAt-append t epoch (p ∷ ps) qs (inr (other, h)) = inr (other, PinnedAt-append t epoch ps qs h)

-- The thread is among those to come.
abbrev pub ToCome : ℕ → List ℕ → Type 0
ToCome t [] = ⊥
ToCome t (v ∷ todo) = (v ≡ t) ⊎ ToCome t todo

pub ToCome-threads :
    (t epoch : ℕ) (ps : List Participant) → PinnedAt t epoch ps → ToCome t (map (λ p. p.thread) ps)
ToCome-threads t epoch [] h = absurd h
ToCome-threads t epoch (p ∷ ps) (inl (same, active, held)) = inl same
ToCome-threads t epoch (p ∷ ps) (inr (other, h)) = inr (ToCome-threads t epoch ps h)

pub epoch_of-PinnedAt :
    (t epoch : ℕ) (ps : List Participant) → PinnedAt t epoch ps → epoch_of t ps ≡ some epoch
unfolding epoch_of
epoch_of-PinnedAt t epoch [] h = absurd h
epoch_of-PinnedAt t epoch (p ∷ ps) (inl (same, active, held)) =
    let test : (p.thread == t) ≡ true = ground arith in rw (test, if◌then◌else◌) active
epoch_of-PinnedAt t epoch (p ∷ ps) (inr (other, h)) =
    let test : (p.thread == t) ≡ false = ground arith in
    rw (test, if◌then◌else◌) (epoch_of-PinnedAt t epoch ps h)
