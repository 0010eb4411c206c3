-- ===== src/BTree/Split.antt =====
-- The two halves of a full child fit on the two sides of the separator, and hold its entries.
use hench_db.Prelude.{
  ℕ, zero, suc, ◌≡◌, ◌<◌, ◌≤◌, ◌/◌, ◌-◌, refl, ◌∙◌, ap, Bool, true, false, none, some, List, [],
  ◌∷◌, ◌++◌, length, take, drop, arith, length-take, length-drop,
}
use hench_db.Bytes.{Bytes}
use hench_db.BTree.{Leaf, Node, key_count, last_or, new_leaf_with, new_internal, max_keys}
use hench_db.BTree.Search.{IsKey}
use hench_db.BTree.Entries.{Entries}
use hench_db.BTree.Chain.{Bound, Exceeds, Before}
use hench_db.BTree.Fits.{LeafFits, Fits, entries_of, Ending, zip}
use hench_db.BTree.Cut.{cut, back-Before, take-heads_for, zip_cut, flat_cut, chain_cut}
use hench_db.BTree.Descent.{split_leaf, split_internal, split_node}

pub record Halves {C : Type 0} (P : Bound → Bound → C → Type 0) (entries : C → Entries)
    (low high : Bound) (whole : C) (parts : C × Bytes × C) : Type 0 where
  pub sep_key : IsKey parts.1
  pub sep_low : Exceeds low parts.1
  pub sep_high : Before parts.1 high
  pub lower : P low (some parts.1) parts.0
  pub upper : P (some parts.1) high parts.2
  pub together : entries parts.0 ++ entries parts.2 ≡ entries whole

last_or-drop :
    (d : Bytes) (m : ℕ) (ks : List Bytes) → m < length ks → last_or d (drop m ks) ≡ last_or d ks
unfolding last_or
last_or-drop d m [] h = elim h [ ]
last_or-drop d zero (k ∷ ks) h = refl
last_or-drop d (suc m) (k ∷ []) h = absurd (omega arith)
last_or-drop d (suc m) (k ∷ q ∷ ks) h = last_or-drop d m (q ∷ ks) (omega arith)

pub Ending-last :
    (tight next : Bool) (ks js : List Bytes) (high : Bound)
    → last_or [] js ≡ last_or [] ks
    → Ending tight next ks high
    → Ending tight next js high
Ending-last false next ks js high e h = tt
Ending-last true false ks js high e h = tt
Ending-last true true ks js none e h = absurd h
Ending-last true true ks js (some k) e h = e ∙ h

left_Ending : (tight : Bool) (ks : List Bytes) → Ending tight true ks (some (last_or [] ks))
left_Ending false ks = tt
left_Ending true ks = refl

split_leaf-Halves_at :
    (tight : Bool) (low high : Bound) (leaf : Leaf) (m : ℕ)
    → length leaf.keys / 2 ≡ suc m
    → LeafFits tight low high leaf
    → Halves (LeafFits tight) (λ l. zip l.keys l.vals) low high leaf (split_leaf leaf)
unfolding split_leaf new_leaf_with
split_leaf-Halves_at tight low high leaf m e h =
    let ks = leaf.keys in
    let c = cut low high m ks (omega (arith, e)) h.ordered in
    rw e (record {
      sep_key = c.key;
      sep_low = c.above;
      sep_high =
          back-Before high _ (drop (suc m) ks) (omega (arith, e, length-drop (suc m) ks)) c.back;
      lower = record {
        ordered = c.front;
        synced = ap (take (suc m)) h.synced ∙ take-heads_for (suc m) ks;
        sized = omega (arith, length-take (suc m) ks, h.sized);
        parallel = omega (arith, length-take (suc m) ks, length-take (suc m) leaf.vals, h.parallel);
        ending = left_Ending tight (take (suc m) ks);
        linked = refl;
      };
      upper = record {
        ordered = c.back;
        synced = refl;
        sized = omega (arith, length-drop (suc m) ks, h.sized);
        parallel = omega (arith, length-drop (suc m) ks, length-drop (suc m) leaf.vals, h.parallel);
        ending =
            Ending-last tight leaf.next ks (drop (suc m) ks) high
              (last_or-drop [] (suc m) ks (omega (arith, e))) h.ending;
        linked = h.linked;
      };
      together = zip_cut (suc m) ks leaf.vals h.parallel;
    })

-- A full node splits well.
pub split_node-Halves :
    (tight : Bool) (n : ℕ) (low high : Bound) (node : Node n)
    → max_keys ≤ key_count n node
    → Fits tight n low high node
    → Halves (Fits tight n) (entries_of n) low high node (split_node n node)
unfolding Fits entries_of split_node split_internal new_internal key_count
split_node-Halves tight zero low high leaf f h =
    split_leaf-Halves_at tight low high leaf (length leaf.keys / 2 - 1) (omega arith) h
split_node-Halves tight (suc n) low high node f (e, z, h) =
    let m = length node.keys / 2 in
    let c = chain_cut (Fits tight n) low high m node.keys node.children (omega (arith, f)) h in
    record {
      sep_key = c.key;
      sep_low = c.above;
      sep_high = c.before;
      lower = (
        ap (take m) e ∙ take-heads_for m node.keys,
        omega (arith, z, length-take m node.keys),
        c.front,
      );
      upper = (refl, omega (arith, z, length-drop (suc m) node.keys), c.back);
      together = flat_cut (entries_of n) (suc m) node.children;
    }

-- Neither half of a node of at most `max_keys` keys is full.
pub split_node_sized :
    (n : ℕ) (node : Node n)
    → key_count n node ≤ max_keys
    → (key_count n (split_node n node).0 < max_keys)
      × (key_count n (split_node n node).2 < max_keys)
unfolding key_count split_node split_leaf split_internal new_leaf_with new_internal
split_node_sized zero leaf h = (
  omega (arith, h, length-take (length leaf.keys / 2) leaf.keys),
  omega (arith, h, length-drop (length leaf.keys / 2) leaf.keys),
)
split_node_sized (suc n) node h = (
  omega (arith, h, length-take (length node.keys / 2) node.keys),
  omega (arith, h, length-drop (suc (length node.keys / 2)) node.keys),
)
