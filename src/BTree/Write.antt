-- ===== src/BTree/Write.antt =====
-- A write descends to the one leaf that may hold its key, and what it does there it does to the
-- whole tree's entries.
use hench_db.Prelude.{
  ℕ, zero, suc, ◌≡◌, ◌≤◌, ◌<◌, ◌⊎◌, arith, refl, sym, ◌∙◌, ap, Bool, Option, some, List, [], ◌∷◌,
  ◌++◌, length, get_elem?, set, leb, leb→le, if◌then◌else◌, inl, inr, Bool-cases,
}
use hench_db.Bytes.{Bytes}
use hench_db.BTree.{Leaf, Internal, Node, heads_for, key_count, lower_bound, insert_at, max_keys}
use hench_db.BTree.Search.{first_ge, IsKey}
use hench_db.BTree.Entries.{Entries, Under, Over}
use hench_db.BTree.Chain.{Bound, Exceeds, AtMost, AtMost-Before, Chain, flat}
use hench_db.BTree.Route.{Route, route}
use hench_db.BTree.Fits.{LeafFits, Fits, entries_of, Fits-Within, Fits-sized, zip}
use hench_db.BTree.Leaves.{heads_for-insert_at, length-insert_at}
use hench_db.BTree.Split.{split_node-Halves, split_node_sized}
use hench_db.BTree.Read.{node_position}
use hench_db.BTree.Descent.{
  ◌>>=◌, Descend, split_node, splice, split_child_in_place, make_room, put_child, write_rec,
}

-- The way of a key through a node of height n + 1.
way :
    (tight : Bool) (n : ℕ) (low high : Bound) (ks : List Bytes) (cs : List (Node n)) (key : Bytes)
    → Exceeds low key
    → AtMost key high
    → Chain (Fits tight n) low high ks cs
    → Route (Fits tight n) (entries_of n) low high ks cs key
way tight n low high ks cs key e a h =
    route (Fits tight n) (entries_of n) (Fits-Within tight n) key low high ks cs e a h

first_ge-insert_at :
    (sep key : Bytes) (ks : List Bytes) (i : ℕ)
    → first_ge ks key ≡ i
    → (first_ge (insert_at i sep ks) key ≡ i) ⊎ (first_ge (insert_at i sep ks) key ≡ suc i)
unfolding first_ge insert_at
first_ge-insert_at sep key [] zero e = ground arith
first_ge-insert_at sep key [] (suc i) e = absurd (omega (arith, e))
first_ge-insert_at sep key (k ∷ ks) zero e = ground arith
first_ge-insert_at sep key (k ∷ ks) (suc i) e = ground (arith, first_ge-insert_at sep key ks i)

get_elem?-divided :
    {C : Type 0} (cs : List C) (i : ℕ) (l r : C) {c : C}
    → get_elem? cs i ≡ some c
    → (get_elem? (insert_at (suc i) r (set cs i l)) i ≡ some l)
      × (get_elem? (insert_at (suc i) r (set cs i l)) (suc i) ≡ some r)
unfolding insert_at
get_elem?-divided [] i l r h = cc
get_elem?-divided (d ∷ cs) zero l r h = (refl, refl)
get_elem?-divided (d ∷ cs) (suc i) l r h = get_elem?-divided cs i l r h

-- What `make_room` leaves of a node: its entries, and a child with room on the way of the key.
record Roomy (tight : Bool) (n : ℕ) (low high : Bound) (key : Bytes)
    (node after : Internal (Node n)) : Type 0 where
  synced : after.heads ≡ heads_for after.keys
  sized : length after.keys ≤ max_keys
  chain : Chain (Fits tight n) low high after.keys after.children
  same_entries : flat (entries_of n) after.children ≡ flat (entries_of n) node.children
  room :
      (c : Node n)
      → get_elem? after.children (first_ge after.keys key) ≡ some c
      → key_count n c < max_keys

module _ (tight : Bool) (n : ℕ) (low high : Bound) (node : Internal (Node n)) (key : Bytes)
    (r : Route (Fits tight n) (entries_of n) low high node.keys node.children key)
    (synced : node.heads ≡ heads_for node.keys) (sized : length node.keys < max_keys)
    (chain : Chain (Fits tight n) low high node.keys node.children) where
  at_index : first_ge node.keys key ≡ r.index
  at_index = r.same_index key r.key_left r.key_right

  divided_room :
      (l : Node n) (sep : Bytes) (u c : Node n)
      → key_count n l < max_keys
      → key_count n u < max_keys
      → get_elem?
          (insert_at (suc r.index) u (set node.children r.index l))
          (first_ge (insert_at r.index sep node.keys) key)
        ≡ some c
      → key_count n c < max_keys
  divided_room l sep u c h k e =
      let (at_l, at_u) = get_elem?-divided node.children r.index l u r.found in
      elim (first_ge-insert_at sep key node.keys r.index at_index) [
        | inl f ↦ let same : l ≡ c = cc in rw (sym same) h
        | inr f ↦ let same : u ≡ c = cc in rw (sym same) k
      ]

  split_child-Roomy :
      max_keys ≤ key_count n r.child
      → Roomy tight n low high key node (split_child_in_place n node r.index r.child)
  unfolding split_child_in_place splice
  split_child-Roomy full =
      let h = split_node-Halves tight n r.left r.right r.child full r.holds in
      let z = split_node_sized n r.child (Fits-sized tight n r.left r.right r.child r.holds) in
      let parts = split_node n r.child in
      let at : lower_bound node.keys node.heads parts.1 ≡ r.index =
        node_position (Fits tight n) low high node parts.1 h.sep_key synced chain
        ∙ r.same_index parts.1 h.sep_low (AtMost-Before r.right parts.1 h.sep_high) in
      rw at (record {
        synced = rw synced (heads_for-insert_at r.index parts.1 node.keys);
        sized = omega (arith, sized, length-insert_at r.index parts.1 node.keys);
        chain = r.divided parts.0 parts.1 parts.2 h.sep_key h.sep_low h.sep_high h.lower h.upper;
        same_entries =
            r.divided_entries parts.0 parts.2
            ∙ ap (λ t. r.pre ++ (t ++ r.post)) h.together
            ∙ sym r.entries_of;
        room = λ c. divided_room parts.0 parts.1 parts.2 c z.0 z.1;
      })

  unsplit-Roomy : key_count n r.child < max_keys → Roomy tight n low high key node node
  unsplit-Roomy h = record {
    synced = synced;
    sized = omega (arith, sized);
    chain = chain;
    same_entries = refl;
    room = λ c e.
        let f = r.found in let i = at_index in let same : r.child ≡ c = cc in rw (sym same) h;
  }

  make_room-Roomy : Roomy tight n low high key node (make_room n node r.index r.child)
  unfolding make_room
  make_room-Roomy = elim (Bool-cases (leb max_keys (key_count n r.child))) [
    | inl t ↦ rw (t, if◌then◌else◌) (split_child-Roomy (leb→le max_keys (key_count n r.child) t))
    | inr f ↦ rw (f, if◌then◌else◌) (unsplit-Roomy (ground arith))
  ]

-- What a write came to: it did not panic, and left a well-formed node.
pub record Wrote {A : Type 0} (tight : Bool) (n : ℕ) (low high : Bound)
    (effect : Descend A → Entries → Entries → Type 0) (before : Entries)
    (result : Option (Descend A × Node n)) : Type 0 where
  pub answer : Descend A
  pub after : Node n
  pub returned : result ≡ some (answer, after)
  pub fits : Fits tight n low high after
  pub effected : effect answer before (entries_of n after)

module _ {A : Type 0} (at_leaf : Leaf → Descend A × Leaf)
    (effect : Descend A → Entries → Entries → Type 0) (tight : Bool) (key : Bytes)
    (is_key : IsKey key)
    (works : (low high : Bound) (leaf : Leaf)
      → Exceeds low key
      → AtMost key high
      → LeafFits tight low high leaf
      → length leaf.keys < max_keys
      → LeafFits tight low high (at_leaf leaf).1
        × effect
            (at_leaf leaf).0
            (zip leaf.keys leaf.vals)
            (zip (at_leaf leaf).1.keys (at_leaf leaf).1.vals))
    (widens : (d : Descend A) (pre es fs post : Entries)
      → Under key pre
      → Over key post
      → effect d es fs
      → effect d (pre ++ (es ++ post)) (pre ++ (fs ++ post))) where
  pub write_rec-Wrote :
      (n : ℕ) (low high : Bound) (node : Node n)
      → Exceeds low key
      → AtMost key high
      → Fits tight n low high node
      → key_count n node < max_keys
      → Wrote tight n low high effect (entries_of n node) (write_rec at_leaf n node key)
  unfolding write_rec Fits entries_of put_child key_count
  write_rec-Wrote zero low high leaf e a h z =
      let (fits, eff) = works low high leaf e a h z in
      record {
        answer = (at_leaf leaf).0;
        after = (at_leaf leaf).1;
        returned = refl;
        fits = fits;
        effected = eff;
      }
  write_rec-Wrote (suc n) low high node e a (synced, z, chain) sized =
      let r = way tight n low high node.keys node.children key e a chain in
      let at =
        node_position (Fits tight n) low high node key is_key synced chain
        ∙ r.same_index key r.key_left r.key_right in
      let roomy = make_room n node r.index r.child in
      let g = make_room-Roomy tight n low high node key r synced sized chain in
      let q = way tight n low high roomy.keys roomy.children key e a g.chain in
      let first = q.same_index key q.key_left q.key_right in
      let at' = node_position (Fits tight n) low high roomy key is_key g.synced g.chain ∙ first in
      let w =
        write_rec-Wrote n q.left q.right q.child q.key_left q.key_right q.holds
          (g.room q.child (rw first q.found)) in
      record {
        answer = w.answer;
        after = put_child roomy q.index w.after;
        returned = rw (at, r.found, ◌>>=◌, at', q.found, ◌>>=◌, w.returned) refl;
        fits = (g.synced, g.sized, q.changed w.after w.fits);
        effected =
            rw (sym g.same_entries, q.entries_of, q.changed_entries w.after)
              (widens w.answer q.pre _ _ q.post q.under q.over w.effected);
      }
