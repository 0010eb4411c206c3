-- ===== src/BTree/Chain.antt =====
-- The children of an internal node lie between its separators, and a key has one way among them.
use hench_db.Prelude.{◌≡◌, true, false, Option, none, some, List, [], ◌∷◌, ◌++◌}
use hench_db.Bytes.{Bytes, bytes_lt}
use hench_db.Bytes.Order.{bytes_lt_trans, bytes_lt_asym, lt_le_trans, le_trans}
use hench_db.BTree.Search.{IsKey, Increasing, IsSorted}
use hench_db.BTree.Entries.{Entries, Each, Each-imp, Each-append}

-- A bound that is `none` bounds nothing.
abbrev pub Bound : Type 0
Bound = Option Bytes

abbrev pub Exceeds : Bound → Bytes → Type 0
Exceeds none key = Unit
Exceeds (some low) key = bytes_lt low key ≡ true

abbrev pub AtMost : Bytes → Bound → Type 0
AtMost key none = Unit
AtMost key (some high) = bytes_lt high key ≡ false

abbrev pub Before : Bytes → Bound → Type 0
Before key none = Unit
Before key (some high) = bytes_lt key high ≡ true

-- All keys of the entries are above `low` and at most `high`.
abbrev pub Within : Bound → Bound → Entries → Type 0
Within low high es = Each (λ k. Exceeds low k × AtMost k high) es

pub Exceeds-trans :
    (low : Bound) (k x : Bytes) → Exceeds low k → bytes_lt k x ≡ true → Exceeds low x
Exceeds-trans none k x h l = tt
Exceeds-trans (some low) k x h l = bytes_lt_trans low k x h l

pub AtMost-Before : (high : Bound) (k : Bytes) → Before k high → AtMost k high
AtMost-Before none k h = tt
AtMost-Before (some high) k h = bytes_lt_asym k high h

pub AtMost-trans :
    (high : Bound) (x k : Bytes) → bytes_lt k x ≡ false → AtMost k high → AtMost x high
AtMost-trans none x k l h = tt
AtMost-trans (some high) x k l h = le_trans x k high l h

pub Before-trans :
    (high : Bound) (x k : Bytes) → bytes_lt x k ≡ true → Before k high → Before x high
Before-trans none x k l h = tt
Before-trans (some high) x k l h = bytes_lt_trans x k high l h

pub Before-le : (high : Bound) (x k : Bytes) → bytes_lt x k ≡ true → AtMost k high → Before x high
Before-le none x k l h = tt
Before-le (some high) x k l h = lt_le_trans x k high l h

-- Children between separators, each holding `P` of the bounds beside it.
abbrev pub Chain :
    {C : Type 0} → (Bound → Bound → C → Type 0) → Bound → Bound → List Bytes → List C → Type 0
Chain P low high [] [] = ⊥
Chain P low high [] (c ∷ []) = P low high c
Chain P low high [] (c ∷ d ∷ cs) = ⊥
Chain P low high (k ∷ ks) [] = ⊥
Chain P low high (k ∷ ks) (c ∷ cs) =
    IsKey k × Exceeds low k × Before k high × P low (some k) c × Chain P (some k) high ks cs

abbrev pub flat : {C : Type 0} → (C → Entries) → List C → Entries
flat entries [] = []
flat entries (c ∷ cs) = entries c ++ flat entries cs

module _ {C : Type 0} (P : Bound → Bound → C → Type 0) where
  Chain-Increasing :
      (low : Bytes) (high : Bound) (ks : List Bytes) (cs : List C)
      → Chain P (some low) high ks cs
      → Increasing low ks
  Chain-Increasing low high [] cs h = tt
  Chain-Increasing low high (k ∷ ks) [] h = absurd h
  Chain-Increasing low high (k ∷ ks) (c ∷ cs) (b, l, u, p, h) =
      (b, l, Chain-Increasing k high ks cs h)

  pub Chain-IsSorted :
      (low high : Bound) (ks : List Bytes) (cs : List C) → Chain P low high ks cs → IsSorted ks
  Chain-IsSorted low high [] cs h = tt
  Chain-IsSorted low high (k ∷ ks) [] h = absurd h
  Chain-IsSorted low high (k ∷ ks) (c ∷ cs) (b, l, u, p, h) = (b, Chain-Increasing k high ks cs h)

module _ {C : Type 0} (P : Bound → Bound → C → Type 0) (entries : C → Entries)
    (bounded : (low high : Bound) (c : C) → P low high c → Within low high (entries c)) where
  pub Chain-Within :
      (low high : Bound) (ks : List Bytes) (cs : List C)
      → Chain P low high ks cs
      → Within low high (flat entries cs)
  Chain-Within low high [] [] h = absurd h
  Chain-Within low high [] (c ∷ []) h = Each-append _ (entries c) [] (bounded low high c h) tt
  Chain-Within low high [] (c ∷ d ∷ cs) h = absurd h
  Chain-Within low high (k ∷ ks) [] h = absurd h
  Chain-Within low high (k ∷ ks) (c ∷ cs) (b, l, u, p, h) =
      Each-append _ (entries c) (flat entries cs)
        (Each-imp (entries c) (λ x (e, a). (e, AtMost-trans high x k a (AtMost-Before high k u)))
          (bounded low (some k) c p))
        (Each-imp (flat entries cs) (λ x (e, a). (Exceeds-trans low k x l e, a))
          (Chain-Within (some k) high ks cs h))
