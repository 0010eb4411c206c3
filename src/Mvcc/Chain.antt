-- ===== src/Mvcc/Chain.antt =====
-- One key: how a chain and a committed epoch answer a read at an epoch.
use hench_db.Prelude.{
  ℕ, ◌≤◌, ◌<◌, ◌≡◌, refl, ◌⊎◌, inl, inr, false, Option, none, some, [], ◌∷◌, arith, ltb, Bool-cases,
}
use hench_db.Error.{ok}
use hench_db.Mvcc.{
  Key, Row, Chain, VersionState, retain, retain_epoch, walk, epoch_or_0, snapshot_lookup,
}

-- The entries go down from `bound`.
abbrev pub Descends : ℕ → Chain → Type 0
Descends bound [] = Unit
Descends bound ((until, row) ∷ chain) = (until ≤ bound) × Descends until chain

pub Descends-weaken : (a b : ℕ) (chain : Chain) → a ≤ b → Descends a chain → Descends b chain
Descends-weaken a b [] h d = tt
Descends-weaken a b ((until, row) ∷ chain) h (le, d) = (omega arith, d)

walk-none :
    (bound epoch : ℕ) (chain : Chain)
    → Descends bound chain
    → bound ≤ epoch
    → walk epoch chain ≡ none
unfolding walk
walk-none bound epoch [] d h = refl
walk-none bound epoch ((until, row) ∷ chain) (le, d) h = ground arith

walk-retain :
    (bound old epoch : ℕ) (chain : Chain)
    → Descends bound chain
    → old ≤ epoch
    → walk epoch (retain old chain) ≡ walk epoch chain
unfolding walk retain
walk-retain bound old epoch [] d h = refl
walk-retain bound old epoch ((until, row) ∷ chain) (le, d) h =
    ground (arith, walk-retain until old epoch chain d h, walk-none until epoch chain d)

pub Descends-retain :
    (bound old : ℕ) (chain : Chain) → Descends bound chain → Descends bound (retain old chain)
unfolding retain
Descends-retain bound old [] d = tt
Descends-retain bound old ((until, row) ∷ chain) (le, d) = elim (Bool-cases (ltb old until)) [
  | inl e ↦ rw e (le, Descends-retain until old chain d)
  | inr e ↦
      rw e (Descends-weaken until bound (retain old chain) le (Descends-retain until old chain d))
]

-- A read at `epoch` of a key with this committed epoch, chain and current row gives `row`.
abbrev pub Resolves : ℕ → Option ℕ → Chain → Option Row → Option Row → Type 0
Resolves epoch committed chain current row =
    ((epoch_or_0 committed ≤ epoch) × (walk epoch chain ≡ none) × (current ≡ row))
    ⊎ ((epoch < epoch_or_0 committed) × (walk epoch chain ≡ some row))

pub Resolves-lookup :
    (epoch : ℕ) (vs : VersionState) (key : Key) (current row : Option Row)
    → Resolves epoch (vs.committed key) (vs.chains key) current row
    → snapshot_lookup false (some epoch) vs key current ≡ ok row
unfolding snapshot_lookup
Resolves-lookup epoch vs key current row r = ground arith

pub Resolves-fresh :
    (epoch : ℕ) (c : Option ℕ) (chain : Chain) (current : Option Row)
    → epoch_or_0 c ≤ epoch
    → Descends epoch chain
    → Resolves epoch c chain current current
Resolves-fresh epoch c chain current h d =
    inl (h, walk-none epoch epoch chain d (omega arith), refl)

-- Recording the current row at a later epoch changes no answer.
pub Resolves-record :
    (epoch later : ℕ) (c : Option ℕ) (chain : Chain) (current row : Option Row)
    → epoch < later
    → Resolves epoch c chain current row
    → Resolves epoch (some later) ((later, current) ∷ chain) current row
unfolding walk epoch_or_0
Resolves-record epoch later c chain current row h (inl (le, w, e)) = inr (h, ground arith)
Resolves-record epoch later c chain current row h (inr (lt, w)) = inr (h, ground arith)

-- Nor does pruning below an epoch that is not above the reader's.
pub Resolves-retain :
    (epoch old bound : ℕ) (c : Option ℕ) (chain : Chain) (current row : Option Row)
    → old ≤ epoch
    → Descends bound chain
    → Resolves epoch c chain current row
    → Resolves epoch (retain_epoch old c) (retain old chain) current row
unfolding retain_epoch epoch_or_0
Resolves-retain epoch old bound c chain current row h d r =
    rw (walk-retain bound old epoch chain d h) (ground arith)
