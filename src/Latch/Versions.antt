-- ===== src/Latch/Versions.antt =====
-- At most one writer holds the latch, and a validated version means that none has held it since.
use hench_db.Prelude.{
  ℕ, ◌+◌, ◌%◌, ◌^◌, ◌<◌, ◌≤◌, ◌≡◌, refl, true, some, arith, Bool-cases, inl, inr,
}
use hench_db.Latch.{
  locked, optimistic, validate, try_lock, unlock_exclusive, Latch, Step, lock, unlock, Runs, start,
  next,
}

-- The word is odd exactly while one writer holds the latch.
abbrev IsLatch : Latch → Type 0
IsLatch l = (l.state < 2 ^ 64) × (l.state % 2 ≡ l.writers)

-- `HybridLatch::new()`
abbrev pub free : Latch
free = record { state = 0; writers = 0 }

some-injective : {a b : ℕ} → some a ≡ some b → a ≡ b
some-injective e = cc

try_lock-some : (s t : ℕ) → try_lock s ≡ some t → (s % 2 ≡ 0) × (t ≡ s + 1)
unfolding try_lock
try_lock-some s t e = elim (Bool-cases (locked s)) [
  | inl held ↦ absurd (ground arith)
  | inr unheld ↦ (ground arith, ground arith)
]

optimistic-some : (s v : ℕ) → optimistic s ≡ some v → (s % 2 ≡ 0) × (v ≡ s)
unfolding optimistic
optimistic-some s v e = elim (Bool-cases (locked s)) [
  | inl held ↦ absurd (ground arith)
  | inr unheld ↦ (ground arith, ground arith)
]

-- Each step makes the word one greater, modulo 2 ^ 64, and keeps its parity in line.
Step-word : {l m : Latch} → Step l m → IsLatch l → IsLatch m × (m.state ≡ (l.state + 1) % 2 ^ 64)
unfolding unlock_exclusive
Step-word (lock l s e) (small, odd) =
    let (even, grown) = try_lock-some l.state s e in ((omega arith, omega arith), omega arith)
Step-word (unlock l n e) (small, odd) = ((omega arith, omega arith), refl)

Runs-word :
    {l : Latch} {n : ℕ} {m : Latch}
    → Runs l n m
    → IsLatch l
    → IsLatch m × (m.state ≡ (l.state + n) % 2 ^ 64)
Runs-word start (small, odd) = ((small, odd), omega arith)
Runs-word (next r st) h =
    let (h', e) = Runs-word r h in let (h'', e') = Step-word st h' in (h'', omega arith)

-- However the threads take and release a new latch, at most one of them holds it at a time.
pub one_writer : {n : ℕ} {l : Latch} → Runs free n l → l.writers ≤ 1
one_writer r = let ((small, odd), e) = Runs-word r (omega arith, refl) in omega arith

-- A reader that got a version and validates it later, with fewer than 2 ^ 64 locks and unlocks in
-- between, was not overlapped by any writer: there was no step at all.
pub validated_unwritten :
    {n k : ℕ} {l m : Latch} (version : ℕ)
    → Runs free k l
    → optimistic l.state ≡ some version
    → Runs l n m
    → n < 2 ^ 64
    → validate version m.state ≡ true
    → (n ≡ 0) × (l.writers ≡ 0)
unfolding validate
validated_unwritten {n} {k} {l} {m} version r o r' small v =
    let (h, e) = Runs-word r (omega arith, refl) in
    let (h', e') = Runs-word r' h in
    let (free_word, same) = optimistic-some l.state version o in
    (ground (arith, h.0, same), ground (arith, h.1))
