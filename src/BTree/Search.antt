-- ===== src/BTree/Search.antt =====
-- `lower_bound`: the binary search over the prefix cache finds the first key that is not below.
use hench_db.Prelude.{
  ℕ, zero, suc, ◌+◌, ◌/◌, ◌*◌, ◌≤◌, ◌<◌, ◌≡◌, refl, Bool, true, List, [], ◌∷◌, length, get_or, ltb,
  ◌==◌, arith, if◌then◌else◌, length-map, ◌||◌, ◌&&◌,
}
use hench_db.Bytes.{Bytes, All, IsByte, bytes_lt, from_be}
use hench_db.Bytes.Order.{bytes_lt_asym, bytes_lt_trans}
use hench_db.BTree.{zero_padded, key_head, heads_for, below, lower_loop, shorter, lower_bound}

-- The number of keys in front of the first that is not below `key`.
unfoldable pub first_ge : List Bytes → Bytes → ℕ
first_ge [] key = 0
first_ge (k ∷ keys) key = let rest = first_ge keys key in if bytes_lt k key then suc rest else 0

abbrev pub IsKey : Bytes → Type 0
IsKey key = All IsByte key

-- All keys of the list are strings of bytes above the given one, in strictly increasing order.
abbrev pub Increasing : Bytes → List Bytes → Type 0
Increasing low [] = Unit
Increasing low (k ∷ keys) = IsKey k × (bytes_lt low k ≡ true) × Increasing k keys

abbrev pub IsSorted : List Bytes → Type 0
IsSorted [] = Unit
IsSorted (k ∷ keys) = IsKey k × Increasing k keys

head_above :
    (n p q : ℕ) (a b : Bytes)
    → IsKey a
    → p < q
    → from_be p (zero_padded n a) < from_be q (zero_padded n b)
unfolding zero_padded from_be
head_above zero p q a b h l = l
head_above (suc n) p q [] [] h l = head_above n _ _ [] [] tt (omega arith)
head_above (suc n) p q [] (c ∷ b) h l = head_above n _ _ [] b tt (omega arith)
head_above (suc n) p q (d ∷ a) [] h l = head_above n _ _ a [] h.1 (omega (arith, h.0))
head_above (suc n) p q (d ∷ a) (c ∷ b) h l = head_above n _ _ a b h.1 (omega (arith, h.0))

head_empty : (n p : ℕ) (a : Bytes) → from_be p (zero_padded n []) ≤ from_be p (zero_padded n a)
unfolding zero_padded from_be
head_empty zero p a = omega arith
head_empty (suc n) p [] = omega arith
head_empty (suc n) p (zero ∷ a) = head_empty n _ a
head_empty (suc n) p (suc d ∷ a) =
    omega (arith, head_above n (p * 256 + 0) (p * 256 + suc d) [] a tt (omega arith))

head_order :
    (n p : ℕ) (a b : Bytes)
    → IsKey a
    → IsKey b
    → from_be p (zero_padded n a) < from_be p (zero_padded n b)
    → bytes_lt a b ≡ true
unfolding zero_padded from_be bytes_lt
head_order zero p a b h k l = absurd (omega arith)
head_order (suc n) p [] [] h k l = absurd (omega arith)
head_order (suc n) p [] (c ∷ b) h k l = refl
head_order (suc n) p (d ∷ a) [] h k l = absurd (omega (arith, head_empty (suc n) p (d ∷ a)))
head_order (suc n) p (d ∷ a) (c ∷ b) h k l = ground (
  arith,
  head_order n (p * 256 + c) a b h.1 k.1,
  head_above n (p * 256 + c) (p * 256 + d) b a k.1,
)

-- Where the heads differ they decide, and where they agree the keys do.
prefilter :
    (a b : Bytes)
    → IsKey a
    → IsKey b
    → (ltb (key_head a) (key_head b) || ((key_head a == key_head b) && bytes_lt a b)) ≡ bytes_lt a b
unfolding key_head
prefilter a b h k =
    ground (arith, head_order 4 0 a b h k, head_order 4 0 b a k h, bytes_lt_asym b a)

pub get_or-heads_for :
    (keys : List Bytes) (i : ℕ)
    → i < length keys
    → get_or (heads_for keys) i 0 ≡ key_head (get_or keys i [])
unfolding heads_for
get_or-heads_for [] i h = elim h [ ]
get_or-heads_for (k ∷ keys) zero h = refl
get_or-heads_for (k ∷ keys) (suc i) h = get_or-heads_for keys i (omega arith)

Increasing-IsKey :
    (low : Bytes) (keys : List Bytes) (i : ℕ)
    → Increasing low keys
    → i < length keys
    → IsKey (get_or keys i []) × (bytes_lt low (get_or keys i []) ≡ true)
Increasing-IsKey low [] i s h = elim h [ ]
Increasing-IsKey low (k ∷ keys) zero (b, l, s) h = (b, l)
Increasing-IsKey low (k ∷ keys) (suc i) (b, l, s) h =
    let (c, m) = Increasing-IsKey k keys i s (omega arith) in (c, bytes_lt_trans low k _ l m)

IsSorted-IsKey :
    (keys : List Bytes) (i : ℕ) → IsSorted keys → i < length keys → IsKey (get_or keys i [])
IsSorted-IsKey [] i s h = elim h [ ]
IsSorted-IsKey (k ∷ keys) zero s h = s.0
IsSorted-IsKey (k ∷ keys) (suc i) (b, s) h = (Increasing-IsKey k keys i s (omega arith)).0

Increasing-IsSorted : (low : Bytes) (keys : List Bytes) → Increasing low keys → IsSorted keys
Increasing-IsSorted low [] s = tt
Increasing-IsSorted low (k ∷ keys) (b, l, s) = (b, s)

below_first :
    (keys : List Bytes) (key : Bytes) (i : ℕ)
    → IsSorted keys
    → i < length keys
    → bytes_lt (get_or keys i []) key ≡ ltb i (first_ge keys key)
unfolding first_ge
below_first [] key i s h = elim h [ ]
below_first (k ∷ keys) key zero s h = ground arith
below_first (k ∷ keys) key (suc i) s h = ground (
  arith,
  below_first keys key i (Increasing-IsSorted k keys s.1),
  bytes_lt_trans k (get_or keys i []) key (Increasing-IsKey k keys i s.1 (omega arith)).1,
)

below-first_ge :
    (keys : List Bytes) (key : Bytes) (i : ℕ)
    → IsSorted keys
    → IsKey key
    → i < length keys
    → below keys (heads_for keys) key (key_head key) i ≡ ltb i (first_ge keys key)
unfolding below
below-first_ge keys key i s k h =
    rw (get_or-heads_for keys i h, prefilter (get_or keys i []) key (IsSorted-IsKey keys i s h) k)
      (below_first keys key i s h)

first_ge_bound : (keys : List Bytes) (key : Bytes) → first_ge keys key ≤ length keys
unfolding first_ge
first_ge_bound [] key = omega arith
first_ge_bound (k ∷ keys) key = ground (arith, first_ge_bound keys key)

-- The loop finds the border of a test that is true below it and false from it on.
lower_loop-border :
    (fuel : ℕ) (test : ℕ → Bool) (lo hi n r : ℕ)
    → ((i : ℕ) → i < n → test i ≡ ltb i r)
    → lo ≤ r
    → r ≤ hi
    → hi ≤ n
    → hi ≤ lo + fuel
    → lower_loop fuel test lo hi ≡ r
unfolding lower_loop
lower_loop-border zero test lo hi n r h a b c d = omega arith
lower_loop-border (suc fuel) test lo hi n r h a b c d =
    let m = (lo + hi) / 2 in
    ground (
      arith,
      h m,
      lower_loop-border fuel test (suc m) hi n r h,
      lower_loop-border fuel test lo m n r h,
    )

-- Over keys that are strings of bytes in strictly increasing order, with their prefix cache, the
-- search for a string of bytes gives the number of keys that come before the first key not below
-- it.
pub lower_bound-first_ge :
    (keys : List Bytes) (key : Bytes)
    → IsSorted keys
    → IsKey key
    → lower_bound keys (heads_for keys) key ≡ first_ge keys key
unfolding lower_bound heads_for shorter
lower_bound-first_ge keys key s k = rw (length-map keys key_head) (
    ground (
      arith,
      lower_loop-border (length keys) (below keys (heads_for keys) key (key_head key)) 0
          (length keys) (length keys) (first_ge keys key) (λ i. below-first_ge keys key i s k)
          (omega arith) (first_ge_bound keys key),
    ))
