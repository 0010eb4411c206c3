-- ===== src/LockRank/Sorted.antt =====
-- The ranks held never decrease, so the last is the highest.
use hench_db.Prelude.{
  ℕ, ◌≤◌, ◌≡◌, refl, Option, none, some, List, [], ◌∷◌, ◌++◌, leb, arith, Bool-cases, inl, inr,
  if◌then◌else◌,
}
use hench_db.LockRank.{
  LockRank, rank_of, same, max_held, is_held, push_above, acquire, drop_guard, Reach, none_held,
  acquired, dropped,
}

-- No rank of the list is below the bound.
abbrev From : ℕ → List LockRank → Type 0
From low [] = Unit
From low (r ∷ held) = (low ≤ rank_of r) × From low held

-- No rank of the list is above the bound.
abbrev pub UpTo : List LockRank → ℕ → Type 0
UpTo [] high = Unit
UpTo (r ∷ held) high = (rank_of r ≤ high) × UpTo held high

abbrev pub IsSorted : List LockRank → Type 0
IsSorted [] = Unit
IsSorted (r ∷ held) = From (rank_of r) held × IsSorted held

From-drop_guard :
    (low : ℕ) (rank : LockRank) (held : List LockRank)
    → From low held
    → From low (drop_guard rank held)
unfolding drop_guard
From-drop_guard low rank [] h = tt
From-drop_guard low rank (r ∷ held) (le, h) = elim (Bool-cases (is_held rank held)) [
  | inl e ↦ rw e (le, From-drop_guard low rank held h)
  | inr e ↦ elim (Bool-cases (same r rank)) [ inl e' ↦ rw (e, e') h | inr e' ↦ rw (e, e') (le, h) ]
]

IsSorted-drop_guard :
    (rank : LockRank) (held : List LockRank) → IsSorted held → IsSorted (drop_guard rank held)
unfolding drop_guard
IsSorted-drop_guard rank [] h = tt
IsSorted-drop_guard rank (r ∷ held) (f, h) = elim (Bool-cases (is_held rank held)) [
  | inl e ↦ rw e (From-drop_guard (rank_of r) rank held f, IsSorted-drop_guard rank held h)
  | inr e ↦ elim (Bool-cases (same r rank)) [ inl e' ↦ rw (e, e') h | inr e' ↦ rw (e, e') (f, h) ]
]

From-last :
    (low : ℕ) (rank : LockRank) (held : List LockRank)
    → low ≤ rank_of rank
    → From low held
    → From low (held ++ (rank ∷ []))
From-last low rank [] le h = (le, tt)
From-last low rank (r ∷ held) le (k, h) = (k, From-last low rank held le h)

IsSorted-last :
    (rank : LockRank) (held : List LockRank)
    → UpTo held (rank_of rank)
    → IsSorted held
    → IsSorted (held ++ (rank ∷ []))
IsSorted-last rank [] u h = (tt, tt)
IsSorted-last rank (r ∷ held) (le, u) (f, h) =
    (From-last (rank_of r) rank held le f, IsSorted-last rank held u h)

max_held-none : (r : LockRank) (held : List LockRank) → max_held (r ∷ held) ≡ none → ⊥
unfolding max_held
max_held-none r [] e = cc
max_held-none r (q ∷ held) e = max_held-none q held e

-- In a sorted list the last rank is above all.
last-UpTo :
    (held : List LockRank) (last : LockRank)
    → IsSorted held
    → max_held held ≡ some last
    → UpTo held (rank_of last)
unfolding max_held
last-UpTo [] last s e = tt
last-UpTo (r ∷ []) last s e = let same_rank : r ≡ last = cc in (rw same_rank (omega arith), tt)
last-UpTo (r ∷ q ∷ held) last ((le, f), s) e =
    let u = last-UpTo (q ∷ held) last s e in (omega (arith, u.0), u)

UpTo-weaken : (held : List LockRank) (a b : ℕ) → a ≤ b → UpTo held a → UpTo held b
UpTo-weaken [] a b le u = tt
UpTo-weaken (r ∷ held) a b le (k, u) = (omega arith, UpTo-weaken held a b le u)

push_above-UpTo :
    (rank : LockRank) (held after : List LockRank) (top : Option LockRank)
    → IsSorted held
    → max_held held ≡ top
    → push_above top rank held ≡ some after
    → UpTo held (rank_of rank) × (after ≡ held ++ (rank ∷ []))
unfolding push_above
push_above-UpTo rank [] after none s t e = (tt, cc)
push_above-UpTo rank (r ∷ held) after none s t e = absurd (max_held-none r held t)
push_above-UpTo rank held after (some last) s t e =
    elim (Bool-cases (leb (rank_of last) (rank_of rank))) [
      | inl le ↦
          let granted : some (held ++ (rank ∷ [])) ≡ some after = rw (le, if◌then◌else◌) at e in
          (UpTo-weaken held _ _ (ground arith) (last-UpTo held last s t), cc)
      | inr over ↦ let refused : none ≡ some after = rw (over, if◌then◌else◌) at e in absurd cc
    ]

-- A granted rank is at or above all that are held.
acquire-UpTo :
    (rank : LockRank) (held after : List LockRank)
    → IsSorted held
    → acquire rank held ≡ some after
    → UpTo held (rank_of rank) × (after ≡ held ++ (rank ∷ []))
unfolding acquire
acquire-UpTo rank held after s e = push_above-UpTo rank held after (max_held held) s refl e

-- Guards may be dropped in any order, and still the ranks that a thread holds never decrease.
held-IsSorted : {held : List LockRank} → Reach held → IsSorted held
held-IsSorted none_held = tt
held-IsSorted (acquired rank {held} {after} r e) =
    let (u, grown) = acquire-UpTo rank held after (held-IsSorted r) e in
    rw grown (IsSorted-last rank held u (held-IsSorted r))
held-IsSorted (dropped rank {held} r) = IsSorted-drop_guard rank held (held-IsSorted r)

-- However a thread has acquired ranks and dropped guards, in any order, a rank that `acquire` grants
-- is at or above every rank that the thread holds, and what it holds afterwards is sorted.
pub acquire_above :
    (rank : LockRank) {held after : List LockRank}
    → Reach held
    → acquire rank held ≡ some after
    → UpTo held (rank_of rank) × IsSorted after
acquire_above rank {held} {after} r e =
    ((acquire-UpTo rank held after (held-IsSorted r) e).0, held-IsSorted (acquired rank r e))
