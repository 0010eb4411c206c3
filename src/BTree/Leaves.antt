-- ===== src/BTree/Leaves.antt =====
-- A leaf's parallel lists read and change as its list of entries does.
use hench_db.Prelude.{
  ℕ, zero, suc, ◌≡◌, refl, ◌∙◌, ap, true, false, Option, none, some, List, [], ◌∷◌, length, get_or,
  set, arith, if◌then◌else◌, inl, inr, Bool-cases,
}
use hench_db.Bytes.{Bytes, bytes_lt, bytes_eq}
use hench_db.Bytes.Order.{bytes_eq-bytes_lt, bytes_lt_total, bytes_eq→≡, bytes_eq_self, le_lt_trans}
use hench_db.BTree.{key_head, heads_for, insert_at, remove_at, holds}
use hench_db.BTree.Search.{first_ge, IsKey}
use hench_db.BTree.Entries.{Each-imp, Over, lookup, put, erase, lookup-Over}
use hench_db.BTree.Chain.{Bound, Exceeds, AtMost}
use hench_db.BTree.Fits.{Ordered, zip, Ordered-zip}

-- What `find_leaf` answers once the position is known.
abbrev pub answer_at : List Bytes → List Bytes → ℕ → Bytes → Option Bytes
answer_at ks vs i key = if holds ks i key then some (get_or vs i []) else none

not_above :
    (k key : Bytes) → bytes_lt k key ≡ false → bytes_eq k key ≡ false → bytes_lt key k ≡ true
not_above k key h e = elim (bytes_lt_total k key) [
  | inl l ↦ cc
  | inr (inl q) ↦ let t : bytes_eq k key ≡ true = rw q (bytes_eq_self key) in cc
  | inr (inr l) ↦ l
]

module _ (key : Bytes) where
  rest-Over :
      (k : Bytes) (high : Bound) (ks vs : List Bytes)
      → bytes_lt k key ≡ false
      → Ordered (some k) high ks
      → Over key (zip ks vs)
  rest-Over k high ks vs a h =
      Each-imp (zip ks vs) (λ x (s, t). le_lt_trans key k x a s) (Ordered-zip (some k) high ks vs h)

  pub lookup-zip :
      (low high : Bound) (ks vs : List Bytes)
      → Ordered low high ks
      → length vs ≡ length ks
      → lookup key (zip ks vs) ≡ answer_at ks vs (first_ge ks key) key
  unfolding lookup holds first_ge
  lookup-zip low high [] vs o e = refl
  lookup-zip low high (k ∷ ks) [] o e = absurd (omega arith)
  lookup-zip low high (k ∷ ks) (v ∷ vs) (b, l, a, o) e = elim (Bool-cases (bytes_lt k key)) [
    | inl t ↦
        rw (t, bytes_eq-bytes_lt k key t, if◌then◌else◌)
          (lookup-zip (some k) high ks vs o (omega arith) ∙ ground arith)
    | inr f ↦
        rw (f, if◌then◌else◌)
          (ground (arith, lookup-Over key (zip ks vs) (rest-Over k high ks vs f o)))
  ]

  module _ (val : Bytes) where
    pub put-insert_at :
        (low high : Bound) (ks vs : List Bytes)
        → Ordered low high ks
        → length vs ≡ length ks
        → holds ks (first_ge ks key) key ≡ false
        → zip (insert_at (first_ge ks key) key ks) (insert_at (first_ge ks key) val vs)
          ≡ put key val (zip ks vs)
    unfolding put holds first_ge insert_at
    put-insert_at low high [] [] o e h = refl
    put-insert_at low high [] (v ∷ vs) o e h = absurd (omega arith)
    put-insert_at low high (k ∷ ks) [] o e h = absurd (omega arith)
    put-insert_at low high (k ∷ ks) (v ∷ vs) (b, l, a, o) e h = elim (Bool-cases (bytes_lt k key)) [
      | inl t ↦ ground (arith, put-insert_at (some k) high ks vs o (omega arith))
      | inr f ↦ ground arith
    ]

    pub put-set :
        (low high : Bound) (ks vs : List Bytes)
        → Ordered low high ks
        → length vs ≡ length ks
        → holds ks (first_ge ks key) key ≡ true
        → zip ks (set vs (first_ge ks key) val) ≡ put key val (zip ks vs)
    unfolding put holds first_ge
    put-set low high [] vs o e h = absurd (ground arith)
    put-set low high (k ∷ ks) [] o e h = absurd (omega arith)
    put-set low high (k ∷ ks) (v ∷ vs) (b, l, a, o) e h = elim (Bool-cases (bytes_lt k key)) [
      | inl t ↦ ground (arith, put-set (some k) high ks vs o (omega arith))
      | inr f ↦ ground (arith, bytes_eq→≡ k key)
    ]

  pub erase-remove_at :
      (low high : Bound) (ks vs : List Bytes)
      → Ordered low high ks
      → length vs ≡ length ks
      → holds ks (first_ge ks key) key ≡ true
      → zip (remove_at (first_ge ks key) ks) (remove_at (first_ge ks key) vs)
        ≡ erase key (zip ks vs)
  unfolding erase holds first_ge remove_at
  erase-remove_at low high [] vs o e h = absurd (ground arith)
  erase-remove_at low high (k ∷ ks) [] o e h = absurd (omega arith)
  erase-remove_at low high (k ∷ ks) (v ∷ vs) (b, l, a, o) e h = elim (Bool-cases (bytes_lt k key)) [
    | inl t ↦
        ground (arith, erase-remove_at (some k) high ks vs o (omega arith), bytes_eq-bytes_lt k key)
    | inr f ↦ ground arith
  ]

  pub Ordered-insert_at :
      (low high : Bound) (ks : List Bytes)
      → IsKey key
      → Exceeds low key
      → AtMost key high
      → Ordered low high ks
      → holds ks (first_ge ks key) key ≡ false
      → Ordered low high (insert_at (first_ge ks key) key ks)
  unfolding holds first_ge insert_at
  Ordered-insert_at low high [] w e a o h = (w, e, a, tt)
  Ordered-insert_at low high (k ∷ ks) w e a (b, l, u, o) h = elim (Bool-cases (bytes_lt k key)) [
    | inl t ↦
        rw (t, if◌then◌else◌) (b, l, u, Ordered-insert_at (some k) high ks w t a o (ground arith))
    | inr f ↦ rw (f, if◌then◌else◌) (w, e, a, (b, not_above k key f (ground arith), u, o))
  ]

pub heads_for-insert_at :
    (i : ℕ) (key : Bytes) (ks : List Bytes)
    → insert_at i (key_head key) (heads_for ks) ≡ heads_for (insert_at i key ks)
unfolding heads_for insert_at
heads_for-insert_at zero key ks = refl
heads_for-insert_at (suc i) key [] = refl
heads_for-insert_at (suc i) key (k ∷ ks) = ap (λ t. key_head k ∷ t) (heads_for-insert_at i key ks)

pub length-insert_at {ℓ} :
    {A : Type ℓ} (i : ℕ) (x : A) (xs : List A) → length (insert_at i x xs) ≡ suc (length xs)
unfolding insert_at
length-insert_at zero x xs = refl
length-insert_at (suc i) x [] = refl
length-insert_at (suc i) x (y ∷ xs) = ap suc (length-insert_at i x xs)
