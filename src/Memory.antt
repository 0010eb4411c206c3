-- ===== src/Memory.antt =====
-- crates/engine/src/db/mem_tracker.rs: the accounting of a query's memory. An atomic operation is one
-- step; a loop around `compare_exchange_weak` takes effect in the exchange that succeeds.
pub mod Accounts
use Prim.Native.Nat.{min}
use hench_db.Prelude.{
  ℕ, ◌+◌, ◌-◌, ◌^◌, ◌<◌, ◌≡◌, Bool, true, false, ◌&&◌, Option, none, some, List, [], ◌∷◌, ltb, ◌==◌,
  if◌then◌else◌,
}
use hench_db.Error.{Result, ok, err, execution_error, ◌>>=◌}

abbrev pub usize_max : ℕ
usize_max = 2 ^ 64 - 1

pub record QueryMemoryTracker : Type 0 where
  pub limit : ℕ
  pub has_limit : Bool
  pub current_bytes : ℕ
  pub peak_bytes : ℕ

unfoldable pub QueryMemoryTracker_new : Option ℕ → QueryMemoryTracker
QueryMemoryTracker_new (some l) = record {
  limit = l;
  has_limit = true;
  current_bytes = 0;
  peak_bytes = 0;
}
QueryMemoryTracker_new none = record {
  limit = 0;
  has_limit = false;
  current_bytes = 0;
  peak_bytes = 0;
}

set_limit : Option ℕ → QueryMemoryTracker → QueryMemoryTracker
set_limit (some l) t = record t { limit = l; has_limit = true }
set_limit none t = record t { limit = 0; has_limit = false }

unfoldable pub saturating_add : ℕ → ℕ → ℕ
saturating_add a b = min (a + b) usize_max

-- The first half of `reserve_context`: the exchange on `current_bytes`, or the error.
unfoldable pub try_reserve : ℕ → QueryMemoryTracker → Result QueryMemoryTracker
unfolding saturating_add
try_reserve bytes t =
    let next = saturating_add t.current_bytes bytes in
    if t.has_limit && ltb t.limit next
    then err execution_error
    else ok (record t { current_bytes = next })

-- Its second half: `while next > peak { .. }`.
pub raise_peak : ℕ → QueryMemoryTracker → QueryMemoryTracker
raise_peak next t = if ltb t.peak_bytes next then record t { peak_bytes = next } else t

-- Both halves with no other thread between them.
reserve_context : ℕ → QueryMemoryTracker → Result QueryMemoryTracker
unfolding try_reserve raise_peak
reserve_context bytes t =
    if bytes == 0 then ok t else (do u ← try_reserve bytes t; ok (raise_peak u.current_bytes u))

unfoldable pub release : ℕ → QueryMemoryTracker → QueryMemoryTracker
release bytes t = if bytes == 0 then t else record t { current_bytes = t.current_bytes - bytes }

reset : QueryMemoryTracker → QueryMemoryTracker
reset t = record t { current_bytes = 0 }

-- `MemoryReservation::new` and `increase`: the reserved bytes with the tracker.
reservation_new : ℕ → QueryMemoryTracker → Result (ℕ × QueryMemoryTracker)
reservation_new bytes t = do u ← reserve_context bytes t; ok (bytes, u)

increase : ℕ → ℕ × QueryMemoryTracker → Result (ℕ × QueryMemoryTracker)
unfolding saturating_add
increase additional (reserved, t) = do
  u ← reserve_context additional t
  ok (saturating_add reserved additional, u)

-- `ys` is `xs` without one occurrence of `x`.
pub data Remove (x : ℕ) : List ℕ → List ℕ → Type 0 where
  first : {xs : List ℕ} → Remove x (x ∷ xs) xs
  later : {y : ℕ} {xs ys : List ℕ} → Remove x xs ys → Remove x (y ∷ xs) (y ∷ ys)

-- The tracker, the sizes of the live reservations, and the values that threads have still to raise
-- the peak to.
pub record System : Type 0 where
  pub tracker : QueryMemoryTracker
  pub live : List ℕ
  pub raising : List ℕ

pub data Step : System → System → Type 0 where
  reserve :
      (s : System) (bytes : ℕ) (t : QueryMemoryTracker)
      → 0 < bytes
      → try_reserve bytes s.tracker ≡ ok t
      → Step s
          (record { tracker = t; live = bytes ∷ s.live; raising = t.current_bytes ∷ s.raising })
  -- `increase` on a live reservation.
  grow :
      (s : System) (bytes additional : ℕ) (rest : List ℕ) (t : QueryMemoryTracker)
      → Remove bytes s.live rest
      → 0 < additional
      → try_reserve additional s.tracker ≡ ok t
      → Step s (record {
        tracker = t;
        live = saturating_add bytes additional ∷ rest;
        raising = t.current_bytes ∷ s.raising;
      })
  raise :
      (s : System) (next : ℕ) (rest : List ℕ)
      → Remove next s.raising rest
      → Step s (record s { tracker = raise_peak next s.tracker; raising = rest })
  drop_one :
      (s : System) (bytes : ℕ) (rest : List ℕ)
      → Remove bytes s.live rest
      → Step s (record s { tracker = release bytes s.tracker; live = rest })

pub data Reach (s : System) : System → Type 0 where
  here : Reach s s
  next : {t u : System} → Reach s t → Step t u → Reach s u
