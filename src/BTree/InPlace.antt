-- ===== src/BTree/InPlace.antt =====
-- `update_in_place` replaces the value of a key that is there, and else changes nothing.
use hench_db.Prelude.{
  ℕ, zero, suc, ◌≡◌, refl, sym, ◌∙◌, ap, arith, Bool, false, ◌==◌, Option, none, some, ◌++◌, length,
  if◌then◌else◌, inl, inr, Bool-cases,
}
use hench_db.Bytes.{Bytes}
use hench_db.BTree.{Leaf, Node, BTree, holds}
use hench_db.BTree.Search.{first_ge, IsKey}
use hench_db.BTree.Entries.{Entries, Under, Over, lookup, put, lookup_between, put_between}
use hench_db.BTree.Chain.{Bound, Exceeds, AtMost, flat}
use hench_db.BTree.Route.{route}
use hench_db.BTree.Fits.{LeafFits, Fits, entries_of, Fits-Within, IsTree, tree_entries, zip}
use hench_db.BTree.Leaves.{lookup-zip, put-set}
use hench_db.BTree.LeafWrites.{replace_value-LeafFits}
use hench_db.BTree.Read.{leaf_position, node_position, get_elem?_bound}
use hench_db.BTree.Descent.{◌>>=◌, put_child, replace_value}
use hench_db.BTree.Range.{update_leaf, update_in_place_rec, update_in_place}

-- The entries with the key's value replaced, if it had one.
unfoldable pub refreshed : Bytes → Bytes → Option Bytes → Entries → Entries
refreshed key val none es = es
refreshed key val (some v) es = put key val es

record Updated (tight : Bool) (n : ℕ) (low high : Bound) (key val : Bytes) (node : Node n)
    (result : Option (Option Bytes × Node n)) : Type 0 where
  after : Node n
  returned : result ≡ some (lookup key (entries_of n node), after)
  fits : Fits tight n low high after
  changed :
      entries_of n after ≡ refreshed key val (lookup key (entries_of n node)) (entries_of n node)

refreshed_between :
    (key val : Bytes) (prev : Option Bytes) (pre es post : Entries)
    → Under key pre
    → Over key post
    → pre ++ (refreshed key val prev es ++ post) ≡ refreshed key val prev (pre ++ (es ++ post))
unfolding refreshed
refreshed_between key val none pre es post u o = refl
refreshed_between key val (some v) pre es post u o = sym (put_between key val pre es post u o)

module _ (tight : Bool) (key val : Bytes) (is_key : IsKey key) where
  update_leaf-Updated :
      (low high : Bound) (leaf : Leaf)
      → Exceeds low key
      → AtMost key high
      → LeafFits tight low high leaf
      → LeafFits tight low high (update_leaf leaf key val).1
        × ((update_leaf leaf key val).0 ≡ lookup key (zip leaf.keys leaf.vals))
        × (zip (update_leaf leaf key val).1.keys (update_leaf leaf key val).1.vals
            ≡ refreshed key val (lookup key (zip leaf.keys leaf.vals)) (zip leaf.keys leaf.vals))
  unfolding update_leaf refreshed replace_value
  update_leaf-Updated low high leaf e a h =
      let i = first_ge leaf.keys key in
      let at = leaf_position tight low high leaf key is_key h in
      let look = lookup-zip key low high leaf.keys leaf.vals h.ordered h.parallel in
      elim (Bool-cases (holds leaf.keys i key)) [
        | inl t ↦
            let present = look ∙ rw (t, if◌then◌else◌) refl in
            rw (at, t, if◌then◌else◌, present)
              (
                replace_value-LeafFits tight low high leaf key val is_key e a h,
                refl,
                put-set key val low high leaf.keys leaf.vals h.ordered h.parallel t,
              )
        | inr f ↦
            let absent = look ∙ rw (f, if◌then◌else◌) refl in
            rw (at, f, if◌then◌else◌, absent) (h, refl, refl)
      ]

  update_in_place_rec-Updated :
      (n : ℕ) (low high : Bound) (node : Node n)
      → Exceeds low key
      → AtMost key high
      → Fits tight n low high node
      → Updated tight n low high key val node (update_in_place_rec n node key val)
  unfolding update_in_place_rec Fits entries_of put_child
  update_in_place_rec-Updated zero low high leaf e a h =
      let (fits, found, changed) = update_leaf-Updated low high leaf e a h in
      record {
        after = (update_leaf leaf key val).1;
        returned = ap (λ v. some (v, (update_leaf leaf key val).1)) found;
        fits = fits;
        changed = changed;
      }
  update_in_place_rec-Updated (suc n) low high node e a (synced, sized, chain) =
      let r =
        route (Fits tight n) (entries_of n) (Fits-Within tight n) key low high node.keys
          node.children e a chain in
      let at =
        node_position (Fits tight n) low high node key is_key synced chain
        ∙ r.same_index key r.key_left r.key_right in
      let u = update_in_place_rec-Updated n r.left r.right r.child r.key_left r.key_right r.holds in
      let some_child : (length node.children == 0) ≡ false =
        ground (arith, get_elem?_bound node.children r.index r.found) in
      let same : lookup key (flat (entries_of n) node.children)
          ≡ lookup key (entries_of n r.child) =
        ap (lookup key) r.entries_of ∙ lookup_between key r.pre _ r.post r.under r.over in
      record {
        after = put_child node r.index u.after;
        returned = rw (some_child, if◌then◌else◌, at, r.found, ◌>>=◌, u.returned, same) refl;
        fits = (synced, sized, r.changed u.after u.fits);
        changed =
            r.changed_entries u.after
            ∙ ap (λ t. r.pre ++ (t ++ r.post)) u.changed
            ∙ refreshed_between key val _ r.pre _ r.post r.under r.over
            ∙ rw (same, r.entries_of) refl;
      }

-- On a well-formed tree `update_in_place` of a string of bytes does not panic and answers the key's
-- value. If there was one, the tree's entries are then those of the map with the key put, and else
-- the same; the tree is again well formed, its leaves tight if they were, and counts as many
-- entries as before.
pub update_in_place-refreshed :
    (tight : Bool) (tree : BTree) (key val : Bytes)
    → IsTree tight tree
    → IsKey key
    → (after : BTree) × (update_in_place tree key val
        ≡ some (lookup key (tree_entries tree), after))
      × IsTree tight after
      × (tree_entries after
          ≡ refreshed key val (lookup key (tree_entries tree)) (tree_entries tree))
      × (after.entries ≡ tree.entries)
unfolding update_in_place IsTree tree_entries
update_in_place-refreshed tight tree key val h w =
    let u = update_in_place_rec-Updated tight key val w tree.height none none tree.root tt tt h in
    (_, rw (u.returned, ◌>>=◌) refl, u.fits, u.changed, refl)
