-- ===== src/BTree/Delete.antt =====
-- The removal of an entry from its leaf, before the tree is rebalanced.
use hench_db.Prelude.{
  ℕ, zero, suc, ◌≡◌, ◌≤◌, refl, sym, ◌∙◌, ap, arith, false, Option, none, some, List, [], ◌∷◌, ◌++◌,
  length, if◌then◌else◌, inl, inr, Bool-cases,
}
use hench_db.Bytes.{Bytes}
use hench_db.BTree.{Leaf, Node, heads_for, key_head, remove_at, holds}
use hench_db.BTree.Search.{first_ge, IsKey}
use hench_db.BTree.Entries.{Entries, lookup, erase, lookup_between, erase_between}
use hench_db.BTree.Chain.{Bound, Exceeds, AtMost, flat, Exceeds-trans}
use hench_db.BTree.Route.{route}
use hench_db.BTree.Fits.{LeafFits, Fits, entries_of, Fits-Within, Ordered, zip}
use hench_db.BTree.Append.{Ordered-lower}
use hench_db.BTree.Leaves.{lookup-zip, erase-remove_at}
use hench_db.BTree.Read.{leaf_position, node_position}
use hench_db.BTree.Descent.{◌>>=◌, put_child}
use hench_db.BTree.Removal.{remove_entry, delete_leaf, delete_rec, node_count}
use hench_db.BTree.Pair.{sum_of-set}

Ordered-remove_at :
    (lo hi : Bound) (i : ℕ) (ks : List Bytes) → Ordered lo hi ks → Ordered lo hi (remove_at i ks)
unfolding remove_at
Ordered-remove_at lo hi i [] o = o
Ordered-remove_at lo hi zero (k ∷ ks) (b, l, a, o) =
    Ordered-lower lo hi k ks (λ x h. Exceeds-trans lo k x l h) o
Ordered-remove_at lo hi (suc i) (k ∷ ks) (b, l, a, o) =
    (b, l, a, Ordered-remove_at (some k) hi i ks o)

pub heads_for-remove_at :
    (i : ℕ) (ks : List Bytes) → remove_at i (heads_for ks) ≡ heads_for (remove_at i ks)
unfolding heads_for remove_at
heads_for-remove_at i [] = refl
heads_for-remove_at zero (k ∷ ks) = refl
heads_for-remove_at (suc i) (k ∷ ks) = ap (λ t. key_head k ∷ t) (heads_for-remove_at i ks)

parallel-remove_at :
    (i : ℕ) (ks vs : List Bytes)
    → length vs ≡ length ks
    → length (remove_at i vs) ≡ length (remove_at i ks)
unfolding remove_at
parallel-remove_at i [] [] e = refl
parallel-remove_at i [] (v ∷ vs) e = absurd (omega (arith, e))
parallel-remove_at i (k ∷ ks) [] e = absurd (omega (arith, e))
parallel-remove_at zero (k ∷ ks) (v ∷ vs) e = omega (arith, e)
parallel-remove_at (suc i) (k ∷ ks) (v ∷ vs) e =
    ap suc (parallel-remove_at i ks vs (omega (arith, e)))

pub length-remove_at : {A : Type 0} (i : ℕ) (xs : List A) → length (remove_at i xs) ≤ length xs
unfolding remove_at
length-remove_at i [] = omega arith
length-remove_at zero (x ∷ xs) = omega arith
length-remove_at (suc i) (x ∷ xs) = omega (arith, length-remove_at i xs)

pub erase_absent : (key : Bytes) (es : Entries) → lookup key es ≡ none → erase key es ≡ es
unfolding lookup erase
erase_absent key [] h = refl
erase_absent key ((k, v) ∷ es) h = ground (arith, erase_absent key es)

-- What the removal came to: it did not panic, answers the key's value, and leaves a well-formed
-- node without the key.
pub record Deleted (n : ℕ) (lo hi : Bound) (key : Bytes) (node : Node n)
    (result : Option (Option Bytes × Node n)) : Type 0 where
  pub after : Node n
  pub returned : result ≡ some (lookup key (entries_of n node), after)
  pub fits : Fits false n lo hi after
  pub erased : entries_of n after ≡ erase key (entries_of n node)
  pub same_count : node_count n after ≡ node_count n node

module _ (key : Bytes) (is_key : IsKey key) where
  delete_leaf-Deleted :
      (lo hi : Bound) (leaf : Leaf)
      → LeafFits false lo hi leaf
      → LeafFits false lo hi (delete_leaf leaf key).1
        × ((delete_leaf leaf key).0 ≡ lookup key (zip leaf.keys leaf.vals))
        × (zip (delete_leaf leaf key).1.keys (delete_leaf leaf key).1.vals
            ≡ erase key (zip leaf.keys leaf.vals))
  unfolding delete_leaf remove_entry
  delete_leaf-Deleted lo hi leaf h =
      let i = first_ge leaf.keys key in
      let at = leaf_position false lo hi leaf key is_key h in
      let look = lookup-zip key lo hi leaf.keys leaf.vals h.ordered h.parallel in
      elim (Bool-cases (holds leaf.keys i key)) [
        | inl t ↦
            rw (at, t, if◌then◌else◌)
              (
                record {
                  ordered = Ordered-remove_at lo hi i leaf.keys h.ordered;
                  synced = rw h.synced (heads_for-remove_at i leaf.keys);
                  sized = omega (arith, h.sized, length-remove_at i leaf.keys);
                  parallel = parallel-remove_at i leaf.keys leaf.vals h.parallel;
                  ending = tt;
                  linked = h.linked;
                },
                sym (look ∙ rw (t, if◌then◌else◌) refl),
                erase-remove_at key lo hi leaf.keys leaf.vals h.ordered h.parallel t,
              )
        | inr f ↦
            let absent = look ∙ rw (f, if◌then◌else◌) refl in
            rw (at, f, if◌then◌else◌) (h, sym absent, sym (erase_absent key _ absent))
      ]

  pub delete_rec-Deleted :
      (n : ℕ) (lo hi : Bound) (node : Node n)
      → Exceeds lo key
      → AtMost key hi
      → Fits false n lo hi node
      → Deleted n lo hi key node (delete_rec n node key)
  unfolding delete_rec Fits entries_of put_child node_count
  delete_rec-Deleted zero lo hi leaf e a h =
      let (fits, found, erased) = delete_leaf-Deleted lo hi leaf h in
      record {
        after = (delete_leaf leaf key).1;
        returned = ap (λ v. some (v, (delete_leaf leaf key).1)) found;
        fits = fits;
        erased = erased;
        same_count = refl;
      }
  delete_rec-Deleted (suc n) lo hi node e a (synced, sized, chain) =
      let r =
        route (Fits false n) (entries_of n) (Fits-Within false n) key lo hi node.keys node.children
          e a chain in
      let at =
        node_position (Fits false n) lo hi node key is_key synced chain
        ∙ r.same_index key r.key_left r.key_right in
      let d = delete_rec-Deleted n r.left r.right r.child r.key_left r.key_right r.holds in
      let same : lookup key (flat (entries_of n) node.children)
          ≡ lookup key (entries_of n r.child) =
        ap (lookup key) r.entries_of ∙ lookup_between key r.pre _ r.post r.under r.over in
      record {
        after = put_child node r.index d.after;
        returned = rw (at, r.found, ◌>>=◌, d.returned, same) refl;
        fits = (synced, sized, r.changed d.after d.fits);
        erased =
            r.changed_entries d.after
            ∙ ap (λ t. r.pre ++ (t ++ r.post)) d.erased
            ∙ sym (erase_between key r.pre _ r.post r.under r.over)
            ∙ ap (erase key) (sym r.entries_of);
        same_count = omega (
          arith,
          d.same_count,
          sum_of-set (node_count n) node.children r.index r.child d.after r.found,
        );
      }
