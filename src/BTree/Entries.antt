-- ===== src/BTree/Entries.antt =====
-- What a B+ tree promises: a map, as the list of its entries in key order.
use hench_db.Prelude.{
  ◌≡◌, refl, true, false, Option, none, some, List, [], ◌∷◌, ◌++◌, arith, ap, if◌then◌else◌,
}
use hench_db.Bytes.{Bytes, bytes_lt, bytes_eq}
use hench_db.Bytes.Order.{
  bytes_lt_asym, bytes_eq_self, bytes_eq-bytes_lt, bytes_eq-bytes_gt, bytes_eq→≡,
}

abbrev pub Entries : Type 0
Entries = List (Bytes × Bytes)

unfoldable pub lookup : Bytes → Entries → Option Bytes
lookup key [] = none
lookup key ((k, v) ∷ es) = let rest = lookup key es in if bytes_eq k key then some v else rest

-- The entries with `key` bound to `val`.
unfoldable pub put : Bytes → Bytes → Entries → Entries
put key val [] = (key, val) ∷ []
put key val ((k, v) ∷ es) =
    let rest = put key val es in
    if bytes_lt k key
    then (k, v) ∷ rest
    else if bytes_eq k key
    then (key, val) ∷ es
    else (key, val) ∷ (k, v) ∷ es

-- The entries without that of `key`.
unfoldable pub erase : Bytes → Entries → Entries
erase key [] = []
erase key ((k, v) ∷ es) = let rest = erase key es in if bytes_eq k key then es else (k, v) ∷ rest

abbrev pub Each : (Bytes → Type 0) → Entries → Type 0
Each P [] = Unit
Each P ((k, v) ∷ es) = P k × Each P es

pub Each-imp :
    {P Q : Bytes → Type 0} (es : Entries) → ((k : Bytes) → P k → Q k) → Each P es → Each Q es
Each-imp [] f h = tt
Each-imp ((k, v) ∷ es) f (p, h) = (f k p, Each-imp es f h)

pub Each-append : (P : Bytes → Type 0) (es fs : Entries) → Each P es → Each P fs → Each P (es ++ fs)
Each-append P [] fs h k = k
Each-append P ((x, v) ∷ es) fs (p, h) k = (p, Each-append P es fs h k)

abbrev pub Under : Bytes → Entries → Type 0
Under key es = Each (λ k. bytes_lt k key ≡ true) es

abbrev pub Over : Bytes → Entries → Type 0
Over key es = Each (λ k. bytes_lt key k ≡ true) es

module _ (key : Bytes) where
  lookup-Under : (es fs : Entries) → Under key es → lookup key (es ++ fs) ≡ lookup key fs
  unfolding lookup
  lookup-Under [] fs h = refl
  lookup-Under ((k, v) ∷ es) fs (l, h) =
      rw (bytes_eq-bytes_lt k key l, if◌then◌else◌) (lookup-Under es fs h)

  pub lookup-Over : (es : Entries) → Over key es → lookup key es ≡ none
  unfolding lookup
  lookup-Over [] h = refl
  lookup-Over ((k, v) ∷ es) (l, h) =
      rw (bytes_eq-bytes_gt k key l, if◌then◌else◌) (lookup-Over es h)

  lookup_front : (es fs : Entries) → Over key fs → lookup key (es ++ fs) ≡ lookup key es
  unfolding lookup
  lookup_front [] fs h = lookup-Over fs h
  lookup_front ((k, v) ∷ es) fs h = rw (lookup_front es fs h) refl

  -- Only the entries between those under and those over the key matter to it.
  pub lookup_between :
      (pre es post : Entries)
      → Under key pre
      → Over key post
      → lookup key (pre ++ (es ++ post)) ≡ lookup key es
  lookup_between pre es post h k = rw (lookup-Under pre (es ++ post) h) (lookup_front es post k)

module _ (key val : Bytes) where
  put-Under : (es fs : Entries) → Under key es → put key val (es ++ fs) ≡ es ++ put key val fs
  unfolding put
  put-Under [] fs h = refl
  put-Under ((k, v) ∷ es) fs (l, h) =
      rw (l, if◌then◌else◌) (ap (λ t. (k, v) ∷ t) (put-Under es fs h))

  pub put-Over : (es : Entries) → Over key es → put key val es ≡ (key, val) ∷ es
  unfolding put
  put-Over [] h = refl
  put-Over ((k, v) ∷ es) (l, h) =
      rw (bytes_lt_asym key k l, bytes_eq-bytes_gt k key l, if◌then◌else◌) refl

  put_front : (es fs : Entries) → Over key fs → put key val (es ++ fs) ≡ put key val es ++ fs
  unfolding put
  put_front [] fs h = put-Over fs h
  put_front ((k, v) ∷ es) fs h = ground (arith, put_front es fs h)

  pub put_between :
      (pre es post : Entries)
      → Under key pre
      → Over key post
      → put key val (pre ++ (es ++ post)) ≡ pre ++ (put key val es ++ post)
  put_between pre es post h k =
      rw (put-Under pre (es ++ post) h) (ap (λ t. pre ++ t) (put_front es post k))

module _ (key : Bytes) where
  erase-Under : (es fs : Entries) → Under key es → erase key (es ++ fs) ≡ es ++ erase key fs
  unfolding erase
  erase-Under [] fs h = refl
  erase-Under ((k, v) ∷ es) fs (l, h) =
      rw (bytes_eq-bytes_lt k key l, if◌then◌else◌) (ap (λ t. (k, v) ∷ t) (erase-Under es fs h))

  erase-Over : (es : Entries) → Over key es → erase key es ≡ es
  unfolding erase
  erase-Over [] h = refl
  erase-Over ((k, v) ∷ es) (l, h) =
      rw (bytes_eq-bytes_gt k key l, if◌then◌else◌) (ap (λ t. (k, v) ∷ t) (erase-Over es h))

  erase_front : (es fs : Entries) → Over key fs → erase key (es ++ fs) ≡ erase key es ++ fs
  unfolding erase
  erase_front [] fs h = erase-Over fs h
  erase_front ((k, v) ∷ es) fs h = ground (arith, erase_front es fs h)

  pub erase_between :
      (pre es post : Entries)
      → Under key pre
      → Over key post
      → erase key (pre ++ (es ++ post)) ≡ pre ++ (erase key es ++ post)
  erase_between pre es post h k =
      rw (erase-Under pre (es ++ post) h) (ap (λ t. pre ++ t) (erase_front es post k))

-- The laws of a map.
pub lookup-put_self : (key val : Bytes) (es : Entries) → lookup key (put key val es) ≡ some val
unfolding lookup put
lookup-put_self key val [] = rw (bytes_eq_self key, if◌then◌else◌) refl
lookup-put_self key val ((k, v) ∷ es) =
    ground (arith, lookup-put_self key val es, bytes_eq_self key, bytes_eq-bytes_lt k key)

pub lookup-put_ne :
    (key val q : Bytes) (es : Entries)
    → bytes_eq key q ≡ false
    → lookup q (put key val es) ≡ lookup q es
unfolding lookup put
lookup-put_ne key val q [] h = rw (h, if◌then◌else◌) refl
lookup-put_ne key val q ((k, v) ∷ es) h =
    ground (arith, lookup-put_ne key val q es, bytes_eq→≡ k key)
