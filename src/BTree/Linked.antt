-- ===== src/BTree/Linked.antt =====
-- The `next` pointers of a well-formed tree: each leaf but the last has one.
use mathlib.Core.List.{append_assoc, append-nil}
use hench_db.Prelude.{
  ℕ, zero, suc, ◌≡◌, refl, sym, ◌∙◌, ap, Bool, true, false, some, List, [], ◌∷◌, ◌++◌, get_elem?,
  drop,
}
use hench_db.Bytes.{Bytes}
use hench_db.BTree.{Leaf, Node}
use hench_db.BTree.Chain.{Bound, Chain}
use hench_db.BTree.Fits.{Fits, bounded}
use hench_db.BTree.Range.{concat_map, all_leaves}
use hench_db.BTree.Walk.{next_of, Linked}

-- The leaves from a child on are the last ones of all leaves.
pub suffix_at :
    {C B : Type 0} (f : C → List B) (i : ℕ) (cs : List C) (c : C) (pre xs : List B)
    → get_elem? cs i ≡ some c
    → f c ≡ pre ++ xs
    → (p : List B) × (concat_map f cs ≡ p ++ (xs ++ concat_map f (drop (suc i) cs)))
unfolding concat_map
suffix_at f i [] c pre xs e s = cc
suffix_at f zero (d ∷ cs) c pre xs e s =
    let same : d ≡ c = cc in (pre, rw (same, s) (append_assoc pre xs _))
suffix_at f (suc i) (d ∷ cs) c pre xs e s =
    let (p, t) = suffix_at f i cs c pre xs e s in
    (f d ++ p, ap (λ r. f d ++ r) t ∙ sym (append_assoc (f d) p _))

pub Linked-suffix : (b : Bool) (pre xs : List Leaf) → Linked b (pre ++ xs) → Linked b xs
Linked-suffix b [] xs h = h
Linked-suffix b (l ∷ pre) xs (e, h) = Linked-suffix b pre xs h

next_of-append :
    (b : Bool) (xs ys : List Leaf) → next_of false xs ≡ true → next_of b (xs ++ ys) ≡ true
next_of-append b [] ys h = cc
next_of-append b (l ∷ xs) ys h = refl

Linked-append :
    (b : Bool) (xs ys : List Leaf)
    → next_of false ys ≡ true
    → Linked true xs
    → Linked b ys
    → Linked b (xs ++ ys)
Linked-append b [] ys n h k = k
Linked-append b (l ∷ []) ys n (e, h) k =
    (e ∙ sym (next_of-append b ys [] n) ∙ ap (next_of b) (append-nil ys), k)
Linked-append b (l ∷ (m ∷ xs)) ys n (e, h) k = (e, Linked-append b (m ∷ xs) ys n h k)

-- A node's leaves are linked, and there is one.
abbrev IsLinked : Bool → List Leaf → Type 0
IsLinked b xs = (next_of false xs ≡ true) × Linked b xs

module _ {C : Type 0} (P : Bound → Bound → C → Type 0) (leaves : C → List Leaf)
    (each : (low high : Bound) (c : C) → P low high c → IsLinked (bounded high) (leaves c)) where
  Chain-Linked :
      (low high : Bound) (ks : List Bytes) (cs : List C)
      → Chain P low high ks cs
      → IsLinked (bounded high) (concat_map leaves cs)
  unfolding concat_map
  Chain-Linked low high [] [] h = absurd h
  Chain-Linked low high [] (c ∷ []) h = rw (append-nil (leaves c)) (each low high c h)
  Chain-Linked low high [] (c ∷ d ∷ cs) h = absurd h
  Chain-Linked low high (k ∷ ks) [] h = absurd h
  Chain-Linked low high (k ∷ ks) (c ∷ cs) (b, l, u, p, h) =
      let (m, x) = each low (some k) c p in
      let (n, y) = Chain-Linked (some k) high ks cs h in
      (
        next_of-append false (leaves c) (concat_map leaves cs) m,
        Linked-append (bounded high) (leaves c) (concat_map leaves cs) n x y,
      )

pub Fits-Linked :
    (tight : Bool) (n : ℕ) (low high : Bound) (node : Node n)
    → Fits tight n low high node
    → IsLinked (bounded high) (all_leaves n node)
unfolding Fits all_leaves
Fits-Linked tight zero low high leaf h = (refl, (h.linked, tt))
Fits-Linked tight (suc n) low high node (synced, sized, chain) =
    Chain-Linked (Fits tight n) (all_leaves n) (Fits-Linked tight n) low high node.keys
      node.children chain
