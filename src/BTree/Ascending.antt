-- ===== src/BTree/Ascending.antt =====
-- The entries of a tree are in strictly increasing order of their keys.
use mathlib.Core.List.{append-nil}
use hench_db.Prelude.{ℕ, zero, suc, ◌≡◌, Bool, true, some, List, [], ◌∷◌, ◌++◌}
use hench_db.Bytes.{Bytes, bytes_lt}
use hench_db.Bytes.Order.{le_lt_trans}
use hench_db.BTree.{Node}
use hench_db.BTree.Entries.{Entries, Each}
use hench_db.BTree.Chain.{Bound, Exceeds, AtMost, Within, Chain, flat, Exceeds-trans}
use hench_db.BTree.Fits.{Fits, entries_of, Fits-Within, Ordered, zip}

-- Keys that increase from the bound on.
abbrev pub Ascending : Bound → Entries → Type 0
Ascending low [] = Unit
Ascending low ((k, v) ∷ es) = Exceeds low k × Ascending (some k) es

pub Ascending-lower :
    (low : Bound) (s : Bytes) (es : Entries)
    → ((x : Bytes) → bytes_lt s x ≡ true → Exceeds low x)
    → Ascending (some s) es
    → Ascending low es
Ascending-lower low s [] f h = tt
Ascending-lower low s ((k, v) ∷ es) f (l, h) = (f k l, h)

Ascending-append :
    (low : Bound) (s : Bytes) (es fs : Entries)
    → ((x : Bytes) → bytes_lt s x ≡ true → Exceeds low x)
    → Each (λ k. AtMost k (some s)) es
    → Ascending low es
    → Ascending (some s) fs
    → Ascending low (es ++ fs)
Ascending-append low s [] fs f a h g = Ascending-lower low s fs f g
Ascending-append low s ((k, v) ∷ es) fs f (a, all) (l, h) g =
    (l, Ascending-append (some k) s es fs (λ x m. le_lt_trans k s x a m) all h g)

Ascending-zip :
    (low high : Bound) (ks vs : List Bytes) → Ordered low high ks → Ascending low (zip ks vs)
Ascending-zip low high [] vs o = tt
Ascending-zip low high (k ∷ ks) [] o = tt
Ascending-zip low high (k ∷ ks) (v ∷ vs) (b, l, a, o) = (l, Ascending-zip (some k) high ks vs o)

Within-AtMost :
    (low high : Bound) (es : Entries) → Within low high es → Each (λ k. AtMost k high) es
Within-AtMost low high [] h = tt
Within-AtMost low high ((k, v) ∷ es) ((e, a), h) = (a, Within-AtMost low high es h)

module _ {C : Type 0} (P : Bound → Bound → C → Type 0) (entries : C → Entries)
    (bounded : (low high : Bound) (c : C) → P low high c → Within low high (entries c))
    (ascends : (low high : Bound) (c : C) → P low high c → Ascending low (entries c)) where
  Chain-Ascending :
      (low high : Bound) (ks : List Bytes) (cs : List C)
      → Chain P low high ks cs
      → Ascending low (flat entries cs)
  Chain-Ascending low high [] [] h = absurd h
  Chain-Ascending low high [] (c ∷ []) h = rw (append-nil (entries c)) (ascends low high c h)
  Chain-Ascending low high [] (c ∷ d ∷ cs) h = absurd h
  Chain-Ascending low high (k ∷ ks) [] h = absurd h
  Chain-Ascending low high (k ∷ ks) (c ∷ cs) (b, l, u, p, h) =
      Ascending-append low k (entries c) (flat entries cs) (λ x m. Exceeds-trans low k x l m)
        (Within-AtMost low (some k) (entries c) (bounded low (some k) c p))
        (ascends low (some k) c p) (Chain-Ascending (some k) high ks cs h)

pub Fits-Ascending :
    (tight : Bool) (n : ℕ) (low high : Bound) (node : Node n)
    → Fits tight n low high node
    → Ascending low (entries_of n node)
unfolding Fits entries_of
Fits-Ascending tight zero low high leaf h = Ascending-zip low high leaf.keys leaf.vals h.ordered
Fits-Ascending tight (suc n) low high node h =
    Chain-Ascending (Fits tight n) (entries_of n) (Fits-Within tight n) (Fits-Ascending tight n) low
      high node.keys node.children h.2
