-- ===== src/BTree/Read.antt =====
-- `get` finds what the tree's entries hold.
use hench_db.Prelude.{
  ℕ, zero, suc, ◌≡◌, ◌<◌, ◌-◌, sym, ◌∙◌, ap, Bool, none, some, List, [], ◌∷◌, length, get_elem?,
  arith,
}
use hench_db.Bytes.{Bytes}
use hench_db.BTree.{Leaf, Internal, Node, BTree, heads_for, lower_bound, shorter, holds}
use hench_db.BTree.Search.{first_ge, IsKey, lower_bound-first_ge}
use hench_db.BTree.Entries.{lookup, lookup_between}
use hench_db.BTree.Chain.{Bound, Exceeds, AtMost, Chain, Chain-IsSorted}
use hench_db.BTree.Route.{route}
use hench_db.BTree.Fits.{
  LeafFits, Fits, entries_of, IsTree, tree_entries, Ordered-IsSorted, Fits-Within, zip,
}
use hench_db.BTree.Leaves.{lookup-zip, answer_at}
use hench_db.BTree.Descent.{◌>>=◌, find_leaf, get_node, get}

pub get_elem?_bound {ℓ} :
    {A : Type ℓ} (xs : List A) (i : ℕ) {x : A} → get_elem? xs i ≡ some x → i < length xs
get_elem?_bound [] i h = cc
get_elem?_bound (y ∷ xs) zero h = omega arith
get_elem?_bound (y ∷ xs) (suc i) h = omega (arith, get_elem?_bound xs i h)

pub leaf_position :
    (tight : Bool) (low high : Bound) (leaf : Leaf) (key : Bytes)
    → IsKey key
    → LeafFits tight low high leaf
    → lower_bound leaf.keys leaf.heads key ≡ first_ge leaf.keys key
leaf_position tight low high leaf key w h =
    rw h.synced
      (lower_bound-first_ge leaf.keys key (Ordered-IsSorted low high leaf.keys h.ordered) w)

pub node_position :
    {C : Type 0} (P : Bound → Bound → C → Type 0) (low high : Bound) (node : Internal C)
    (key : Bytes)
    → IsKey key
    → node.heads ≡ heads_for node.keys
    → Chain P low high node.keys node.children
    → lower_bound node.keys node.heads key ≡ first_ge node.keys key
node_position P low high node key w e h =
    rw e
      (lower_bound-first_ge node.keys key (Chain-IsSorted P low high node.keys node.children h) w)

find_leaf-answer_at :
    (leaf : Leaf) (key : Bytes) (i : ℕ)
    → lower_bound leaf.keys leaf.heads key ≡ i
    → length leaf.vals ≡ length leaf.keys
    → find_leaf leaf key ≡ answer_at leaf.keys leaf.vals i key
unfolding find_leaf holds shorter
find_leaf-answer_at leaf key i e p = rw (e, p) (ground arith)

find_leaf-lookup :
    (tight : Bool) (low high : Bound) (leaf : Leaf) (key : Bytes)
    → IsKey key
    → LeafFits tight low high leaf
    → find_leaf leaf key ≡ lookup key (zip leaf.keys leaf.vals)
find_leaf-lookup tight low high leaf key w h =
    find_leaf-answer_at leaf key _ (leaf_position tight low high leaf key w h) h.parallel
    ∙ sym (lookup-zip key low high leaf.keys leaf.vals h.ordered h.parallel)

pub shorter_small : (i n : ℕ) → i < n → shorter i (n - 1) ≡ i
unfolding shorter
shorter_small i n h = ground arith

pub get_node-lookup :
    (tight : Bool) (n : ℕ) (low high : Bound) (node : Node n) (key : Bytes)
    → IsKey key
    → Exceeds low key
    → AtMost key high
    → Fits tight n low high node
    → get_node n node key ≡ some (lookup key (entries_of n node))
unfolding get_node Fits entries_of
get_node-lookup tight zero low high leaf key w e a h =
    ap some (find_leaf-lookup tight low high leaf key w h)
get_node-lookup tight (suc n) low high node key w e a h =
    let r =
      route (Fits tight n) (entries_of n) (Fits-Within tight n) key low high node.keys node.children
        e a h.2 in
    let i =
      node_position (Fits tight n) low high node key w h.0 h.2
      ∙ r.same_index key r.key_left r.key_right in
    rw
      (
        i,
        shorter_small r.index (length node.children)
            (get_elem?_bound node.children r.index r.found),
        r.found,
        ◌>>=◌,
      )
      (get_node-lookup tight n r.left r.right r.child key w r.key_left r.key_right r.holds
        ∙ ap some
            (sym (ap (lookup key) r.entries_of ∙ lookup_between key r.pre _ r.post r.under r.over)))

-- On a well-formed tree, whether or not its leaves are tight, `get` of a string of bytes does not
-- panic, and answers what the list of the tree's entries holds for it.
pub get-lookup :
    (tight : Bool) (tree : BTree) (key : Bytes)
    → IsTree tight tree
    → IsKey key
    → get tree key ≡ some (lookup key (tree_entries tree))
unfolding get IsTree tree_entries
get-lookup tight tree key h w = get_node-lookup tight tree.height none none tree.root key w tt tt h
