-- ===== src/Memory/Accounts.antt =====
-- The tracker's total is the sum of the live reservations, and is within the limit.
use Prim.Native.Nat.{min, max}
use hench_db.Prelude.{
  ℕ, ◌+◌, ◌-◌, ◌<◌, ◌≤◌, ◌≡◌, refl, sym, true, false, some, List, [], ◌∷◌, arith, Bool-cases, inl,
  inr, ltb, ◌&&◌, ◌==◌,
}
use hench_db.Error.{ok}
use hench_db.Memory.{
  usize_max, QueryMemoryTracker, QueryMemoryTracker_new, saturating_add, try_reserve, raise_peak,
  release, Remove, first, later, System, Step, reserve, grow, raise, drop_one, Reach, here, next,
}

pub sum : List ℕ → ℕ
sum [] = 0
sum (x ∷ xs) = x + sum xs

-- The greatest value that the peak will have when all threads have raised it.
pub top : ℕ → List ℕ → ℕ
top peak [] = peak
top peak (x ∷ xs) = max x (top peak xs)

sum-Remove : {x : ℕ} {xs ys : List ℕ} → Remove x xs ys → sum xs ≡ x + sum ys
unfolding sum
sum-Remove first = refl
sum-Remove (later r) = omega (arith, sum-Remove r)

top-Remove :
    (peak : ℕ) {x : ℕ} {xs ys : List ℕ} → Remove x xs ys → top peak xs ≡ max x (top peak ys)
unfolding top
top-Remove peak first = refl
top-Remove peak (later r) = omega (arith, top-Remove peak r)

top-max : (peak x : ℕ) (xs : List ℕ) → top (max peak x) xs ≡ max x (top peak xs)
unfolding top
top-max peak x [] = omega arith
top-max peak x (y ∷ xs) = omega (arith, top-max peak x xs)

raise_peak-max :
    (x : ℕ) (t : QueryMemoryTracker) → raise_peak x t ≡ record t { peak_bytes = max t.peak_bytes x }
unfolding raise_peak
raise_peak-max x t = ground arith

release-subtracts :
    (bytes : ℕ) (t : QueryMemoryTracker)
    → release bytes t ≡ record t { current_bytes = t.current_bytes - bytes }
unfolding release
release-subtracts bytes t = elim (Bool-cases (bytes == 0)) [
  | inl none_left ↦
      let same : t.current_bytes - bytes ≡ t.current_bytes = ground arith in
      simp (none_left, same) refl
  | inr some_left ↦ simp some_left refl
]

-- With a limit below the greatest usize, so that the saturating sum cannot hide a size.
pub record IsAccounted (limit : ℕ) (s : System) : Type 0 where
  pub limited : s.tracker.has_limit ≡ true
  pub same_limit : s.tracker.limit ≡ limit
  pub total : s.tracker.current_bytes ≡ sum s.live
  pub within : s.tracker.current_bytes ≤ limit
  pub covered : s.tracker.current_bytes ≤ top s.tracker.peak_bytes s.raising

ok-injective : {t u : QueryMemoryTracker} → ok t ≡ ok u → t ≡ u
ok-injective e = cc

-- What a reservation that is granted does to the tracker.
try_reserve-ok :
    (limit bytes : ℕ) (t u : QueryMemoryTracker)
    → limit < usize_max
    → t.has_limit ≡ true
    → t.limit ≡ limit
    → try_reserve bytes t ≡ ok u
    → (u ≡ record t { current_bytes = t.current_bytes + bytes }) × (t.current_bytes + bytes ≤ limit)
unfolding try_reserve saturating_add
try_reserve-ok limit bytes t u small has same e =
    elim (Bool-cases (ltb t.limit (min (t.current_bytes + bytes) usize_max))) [
      | inl over ↦ absurd (ground arith)
      | inr fits ↦
          let exact : min (t.current_bytes + bytes) usize_max ≡ t.current_bytes + bytes =
            ground arith in
          let off : (t.has_limit && ltb t.limit (min (t.current_bytes + bytes) usize_max)) ≡ false =
            ground arith in
          let made : ok (record t { current_bytes = min (t.current_bytes + bytes) usize_max })
              ≡ ok u =
            simp off at e in
          (sym (rw exact at (ok-injective made)), ground arith)
    ]

Step-IsAccounted :
    (limit : ℕ) {s t : System}
    → limit < usize_max
    → Step s t
    → IsAccounted limit s
    → IsAccounted limit t
unfolding sum top saturating_add
Step-IsAccounted limit small (reserve s bytes t pos e) h =
    let (made, fits) = try_reserve-ok limit bytes s.tracker t small h.limited h.same_limit e in
    rw made (record {
      limited = h.limited;
      same_limit = h.same_limit;
      total = omega (arith, h.total);
      within = fits;
      covered = omega arith;
    })
Step-IsAccounted limit small (grow s bytes additional rest t r pos e) h =
    let (made, fits) = try_reserve-ok limit additional s.tracker t small h.limited h.same_limit e in
    rw made (record {
      limited = h.limited;
      same_limit = h.same_limit;
      total = omega (arith, h.total, sum-Remove r);
      within = fits;
      covered = omega arith;
    })
Step-IsAccounted limit small (raise s n rest r) h = rw (raise_peak-max n s.tracker) (record {
  limited = h.limited;
  same_limit = h.same_limit;
  total = h.total;
  within = h.within;
  covered =
      omega
        (arith, h.covered, top-Remove s.tracker.peak_bytes r, top-max s.tracker.peak_bytes n rest);
})
Step-IsAccounted limit small (drop_one s bytes rest r) h =
    rw (release-subtracts bytes s.tracker) (record {
      limited = h.limited;
      same_limit = h.same_limit;
      total = omega (arith, h.total, sum-Remove r);
      within = omega (arith, h.within);
      covered = omega (arith, h.covered);
    })

Reach-IsAccounted :
    (limit : ℕ) {s t : System}
    → limit < usize_max
    → Reach s t
    → IsAccounted limit s
    → IsAccounted limit t
Reach-IsAccounted limit small here h = h
Reach-IsAccounted limit small (next r st) h =
    Step-IsAccounted limit small st (Reach-IsAccounted limit small r h)

-- A tracker made with a limit, and no reservation.
abbrev pub fresh : ℕ → System
fresh limit = record { tracker = QueryMemoryTracker_new (some limit); live = []; raising = [] }

-- Whatever reservations the threads make, grow and drop, the tracker's total is the sum of the live
-- ones, it is within the limit, and it is at most the greatest of the peak and of the values that
-- threads are about to raise the peak to. The limit is below the greatest usize and does not change.
pub accounted :
    (limit : ℕ) {s : System}
    → limit < usize_max
    → Reach (fresh limit) s
    → (s.tracker.current_bytes ≡ sum s.live)
      × (sum s.live ≤ limit)
      × (s.tracker.current_bytes ≤ top s.tracker.peak_bytes s.raising)
unfolding top sum QueryMemoryTracker_new
accounted limit {s} small r =
    let h = Reach-IsAccounted limit small r (record {
      limited = refl;
      same_limit = refl;
      total = refl;
      within = omega arith;
      covered = omega arith;
    }) in
    (h.total, omega (arith, h.total, h.within), h.covered)
