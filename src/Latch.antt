-- ===== src/Latch.antt =====
-- crates/engine/src/latch.rs: the hybrid latch of a tree node. Its word is even when the latch is
-- free; a writer makes it odd and then even again, so every write leaves a new version. A loop that
-- spins takes effect in the round that succeeds.
pub mod Versions
use hench_db.Prelude.{
  ℕ, zero, suc, ◌+◌, ◌%◌, ◌^◌, ◌<◌, ◌≡◌, Bool, true, false, Option, none, some, ◌==◌, if◌then◌else◌,
}

-- `s & LOCK_BIT != 0`
abbrev pub locked : ℕ → Bool
locked s = s % 2 == 1

unfoldable pub optimistic : ℕ → Option ℕ
optimistic s = if locked s then none else some s

unfoldable pub validate : ℕ → ℕ → Bool
validate version s = s == version

-- One round of the loop of `lock_exclusive`, with `s | LOCK_BIT` of an even word written as a sum;
-- `none` is another round.
unfoldable pub try_lock : ℕ → Option ℕ
try_lock s = if locked s then none else some (s + 1)

-- `fetch_add(1)`
unfoldable pub unlock_exclusive : ℕ → ℕ
unlock_exclusive s = (s + 1) % 2 ^ 64

-- The word, and how many threads are between `lock_exclusive` and `unlock_exclusive`.
pub record Latch : Type 0 where
  pub state : ℕ
  pub writers : ℕ

-- A thread that takes the latch, and a thread that holds it and lets it go.
pub data Step : Latch → Latch → Type 0 where
  lock :
      (l : Latch) (s : ℕ)
      → try_lock l.state ≡ some s
      → Step l (record { state = s; writers = l.writers + 1 })
  unlock :
      (l : Latch) (n : ℕ)
      → l.writers ≡ n + 1
      → Step l (record { state = unlock_exclusive l.state; writers = n })

-- `n` steps of any threads.
pub data Runs (l : Latch) : ℕ → Latch → Type 0 where
  start : Runs l 0 l
  next : {n : ℕ} {m k : Latch} → Runs l n m → Step m k → Runs l (n + 1) k
