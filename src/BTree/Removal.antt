-- ===== src/BTree/Removal.antt =====
-- crates/engine/src/btree.rs: `remove`, with the fix-up passes that borrow from or merge with a
-- sibling, and the collapse of a root with one child.
use hench_db.Prelude.{
  ℕ, zero, suc, ◌+◌, ◌-◌, ◌%◌, ◌^◌, Bool, true, false, Option, none, some, List, [], ◌∷◌, length,
  get_elem?, get_or, ltb, leb, if◌then◌else◌,
}
use hench_db.Bytes.{Bytes}
use hench_db.BTree.{lower_bound, shorter, Leaf, Internal, Node, BTree, remove_at, holds}
use hench_db.BTree.Descent.{◌>>=◌, put_child}
use hench_db.BTree.Siblings.{
  Siblings, fullness, borrow_from_right, borrow_from_left, fuse, reseat, unlink,
}
use hench_db.BTree.Loops.{Outcome, returned, panicked, running}

abbrev pub min_keys : ℕ
min_keys = 64

unfoldable pub remove_entry : Leaf → ℕ → Leaf
remove_entry leaf idx = record {
  keys = remove_at idx leaf.keys;
  heads = remove_at idx leaf.heads;
  vals = remove_at idx leaf.vals;
  next = leaf.next;
}

unfoldable pub delete_leaf : Leaf → Bytes → Option Bytes × Leaf
delete_leaf leaf key =
    let idx = lower_bound leaf.keys leaf.heads key in
    if holds leaf.keys idx key
    then (some (get_or leaf.vals idx []), remove_entry leaf idx)
    else (none, leaf)

unfoldable pub delete_rec : (n : ℕ) → Node n → Bytes → Option (Option Bytes × Node n)
unfolding Node
delete_rec zero leaf key = some (delete_leaf leaf key)
delete_rec (suc n) node key = do
  child ← get_elem? node.children (lower_bound node.keys node.heads key)
  (removed, after) ← delete_rec n child key
  some (removed, put_child node (lower_bound node.keys node.heads key) after)

-- The siblings around the separator `sep`, if both are there.
unfoldable pub siblings_at : (n : ℕ) → Internal (Node n) → ℕ → Option (Siblings n)
siblings_at n node sep = do
  left ← get_elem? node.children sep
  right ← get_elem? node.children (suc sep)
  some (left, (get_or node.keys sep [], get_or node.heads sep 0), right)

-- A rich sibling lends an entry and a sparse one is merged with: whether a child went.
unfoldable pub mend_with_right :
    (n : ℕ) → Internal (Node n) → ℕ → Siblings n → Bool × Internal (Node n)
mend_with_right n node sep three =
    if ltb min_keys (fullness n three.2)
    then (false, reseat node sep (borrow_from_right n three))
    else (true, unlink node sep (fuse n three))

unfoldable pub mend_with_left :
    (n : ℕ) → Internal (Node n) → ℕ → Siblings n → Bool × Internal (Node n)
mend_with_left n node sep three =
    if ltb min_keys (fullness n three.0)
    then (false, reseat node sep (borrow_from_left n three))
    else (true, unlink node sep (fuse n three))

unfoldable pub sum_of : {C : Type 0} → (C → ℕ) → List C → ℕ
sum_of f [] = 0
sum_of f (c ∷ cs) = f c + sum_of f cs

-- `fix_child` of `children[idx]`, with the right sibling if there is one.
unfoldable pub fix_child : (n : ℕ) → Internal (Node n) → ℕ → Option (Bool × Internal (Node n))
fix_child n node idx =
    if ltb (suc idx) (length node.children)
    then (siblings_at n node idx >>= λ three. some (mend_with_right n node idx three))
    else (siblings_at n node (idx - 1) >>= λ three. some (mend_with_left n node (idx - 1) three))

-- What a pass does at `children[idx]`: the child is fixed if it is sparse, and else the pass goes
-- on below it.
unfoldable pub fix_below :
    (n : ℕ)
    → (Node n → Option (Bool × Node n))
    → Internal (Node n)
    → ℕ
    → Option (Bool × Internal (Node n))
fix_below n deeper node idx = do
  child ← get_elem? node.children idx
  if ltb (fullness n child) min_keys
      then fix_child n node idx
      else (deeper child >>= λ (merged, after). some (merged, put_child node idx after))

-- One pass down the path of the key, which stops at a node with one child or none.
unfoldable pub fix_pass : (n : ℕ) → Node n → Bytes → Option (Bool × Node n)
unfolding Node
fix_pass zero leaf key = some (false, leaf)
fix_pass (suc n) node key =
    if leb (length node.children) 1
    then some (false, node)
    else fix_below n (λ child. fix_pass n child key) node
        (shorter (lower_bound node.keys node.heads key) (length node.children - 1))

-- `while self.fix_pass(key) {}`.
unfoldable pub fix_passes : (n : ℕ) → ℕ → Node n → Bytes → Outcome (Node n)
fix_passes n zero node key = running
fix_passes n (suc fuel) node key = elim (fix_pass n node key) [
  | none ↦ panicked
  | some (true, after) ↦ fix_passes n fuel after key
  | some (false, after) ↦ returned after
]

-- What to do with an only child, or else with no or several.
unfoldable pub only {ℓ} : {C : Type 0} {R : Type ℓ} → List C → (C → R) → R → R
only [] single other = other
only (c ∷ []) single other = single c
only (c ∷ d ∷ cs) single other = other

-- `collapse_root`.
unfoldable pub collapse_root : (n : ℕ) → Node n → ℕ → BTree
unfolding Node
collapse_root zero leaf entries = record { height = 0; root = leaf; entries = entries }
collapse_root (suc n) node entries =
    only node.children (λ child. collapse_root n child entries)
      (record { height = suc n; root = node; entries = entries })

-- `fetch_sub(1)` on the 64-bit counter.
unfoldable pub uncount_one : ℕ → ℕ
uncount_one entries = (entries + (2 ^ 64 - 1)) % 2 ^ 64

-- What follows the removal of `value`: the fix-up passes, and the collapse.
unfoldable pub shrink : (n : ℕ) → ℕ → Node n → Bytes → ℕ → Bytes → Outcome (Option Bytes × BTree)
shrink n fuel root key entries value = elim (fix_passes n fuel root key) [
  | returned fixed ↦ returned (some value, collapse_root n fixed (uncount_one entries))
  | panicked ↦ panicked
  | running ↦ running
]

-- `remove`, with fuel for its loop of passes.
unfoldable pub remove : ℕ → BTree → Bytes → Outcome (Option Bytes × BTree)
remove fuel tree key = elim (delete_rec tree.height tree.root key) [
  | none ↦ panicked
  | some (none, root) ↦
      returned (none, record { height = tree.height; root = root; entries = tree.entries })
  | some (some value, root) ↦ shrink tree.height fuel root key tree.entries value
]

-- `node_count`, from the root.
unfoldable pub node_count : (n : ℕ) → Node n → ℕ
unfolding Node
node_count zero leaf = 1
node_count (suc n) node = suc (sum_of (node_count n) node.children)
