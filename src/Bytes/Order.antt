-- ===== src/Bytes/Order.antt =====
-- The order of byte strings is a strict total order, and `==` is equality.
use hench_db.Prelude.{◌≡◌, refl, sym, true, false, [], ◌∷◌, arith, ◌⊎◌, inl, inr}
use hench_db.Bytes.{Bytes, bytes_lt, bytes_eq}

pub bytes_lt_self : (s : Bytes) → bytes_lt s s ≡ false
unfolding bytes_lt
bytes_lt_self [] = refl
bytes_lt_self (b ∷ s) = ground (arith, bytes_lt_self s)

pub bytes_lt_trans :
    (s t u : Bytes) → bytes_lt s t ≡ true → bytes_lt t u ≡ true → bytes_lt s u ≡ true
unfolding bytes_lt
bytes_lt_trans [] [] u h k = cc
bytes_lt_trans [] (c ∷ t) [] h k = cc
bytes_lt_trans [] (c ∷ t) (d ∷ u) h k = refl
bytes_lt_trans (b ∷ s) [] u h k = cc
bytes_lt_trans (b ∷ s) (c ∷ t) [] h k = cc
bytes_lt_trans (b ∷ s) (c ∷ t) (d ∷ u) h k = ground (arith, bytes_lt_trans s t u)

pub bytes_lt_total : (s t : Bytes) → (bytes_lt s t ≡ true) ⊎ ((s ≡ t) ⊎ (bytes_lt t s ≡ true))
unfolding bytes_lt
bytes_lt_total [] [] = inr (inl refl)
bytes_lt_total [] (c ∷ t) = inl refl
bytes_lt_total (b ∷ s) [] = inr (inr refl)
bytes_lt_total (b ∷ s) (c ∷ t) = elim (bytes_lt_total s t) [
  | inl h ↦ ground arith
  | inr (inl e) ↦ ground (arith, bytes_lt_self s, bytes_lt_self t)
  | inr (inr h) ↦ ground arith
]

pub bytes_lt_asym : (s t : Bytes) → bytes_lt s t ≡ true → bytes_lt t s ≡ false
unfolding bytes_lt
bytes_lt_asym [] [] h = refl
bytes_lt_asym [] (c ∷ t) h = refl
bytes_lt_asym (b ∷ s) [] h = cc
bytes_lt_asym (b ∷ s) (c ∷ t) h = ground (arith, bytes_lt_asym s t)

pub le_lt_trans : (s t u : Bytes) → bytes_lt t s ≡ false → bytes_lt t u ≡ true → bytes_lt s u ≡ true
le_lt_trans s t u h k = elim (bytes_lt_total s t) [
  | inl l ↦ bytes_lt_trans s t u l k
  | inr (inl e) ↦ rw e k
  | inr (inr l) ↦ cc
]

pub lt_le_trans : (s t u : Bytes) → bytes_lt s t ≡ true → bytes_lt u t ≡ false → bytes_lt s u ≡ true
lt_le_trans s t u h k = elim (bytes_lt_total t u) [
  | inl l ↦ bytes_lt_trans s t u h l
  | inr (inl e) ↦ rw (sym e) h
  | inr (inr l) ↦ cc
]

pub le_trans : (s t u : Bytes) → bytes_lt t s ≡ false → bytes_lt u t ≡ false → bytes_lt u s ≡ false
le_trans s t u h k = elim (bytes_lt_total t u) [
  | inl l ↦ bytes_lt_asym s u (le_lt_trans s t u h l)
  | inr (inl e) ↦ rw (sym e) h
  | inr (inr l) ↦ cc
]

pub bytes_eq_self : (s : Bytes) → bytes_eq s s ≡ true
unfolding bytes_eq
bytes_eq_self [] = refl
bytes_eq_self (b ∷ s) = ground (arith, bytes_eq_self s)

pub bytes_eq-bytes_lt : (s t : Bytes) → bytes_lt s t ≡ true → bytes_eq s t ≡ false
unfolding bytes_lt bytes_eq
bytes_eq-bytes_lt [] [] h = cc
bytes_eq-bytes_lt [] (c ∷ t) h = refl
bytes_eq-bytes_lt (b ∷ s) [] h = cc
bytes_eq-bytes_lt (b ∷ s) (c ∷ t) h = ground (arith, bytes_eq-bytes_lt s t)

pub bytes_eq-bytes_gt : (s t : Bytes) → bytes_lt t s ≡ true → bytes_eq s t ≡ false
unfolding bytes_lt bytes_eq
bytes_eq-bytes_gt [] [] h = cc
bytes_eq-bytes_gt [] (c ∷ t) h = cc
bytes_eq-bytes_gt (b ∷ s) [] h = refl
bytes_eq-bytes_gt (b ∷ s) (c ∷ t) h = ground (arith, bytes_eq-bytes_gt s t)

pub bytes_eq→≡ : (s t : Bytes) → bytes_eq s t ≡ true → s ≡ t
unfolding bytes_eq
bytes_eq→≡ [] [] h = refl
bytes_eq→≡ [] (c ∷ t) h = cc
bytes_eq→≡ (b ∷ s) [] h = cc
bytes_eq→≡ (b ∷ s) (c ∷ t) h = ground (arith, bytes_eq→≡ s t)
