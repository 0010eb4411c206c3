-- ===== src/BTree/Range.antt =====
-- crates/engine/src/btree.rs: `range` and `update_in_place`. A leaf has whether its `next` is set;
-- which leaf a `next` points to is not recorded, and is here the leaf to the right.
use hench_db.Prelude.{
  ℕ, zero, suc, ◌-◌, Bool, true, false, ◌&&◌, ◌||◌, not, Option, none, some, List, [], ◌∷◌, ◌++◌,
  ◌==◌, length, get_elem?, drop, get_or, if◌then◌else◌,
}
use hench_db.Bytes.{Bytes, bytes_lt, bytes_eq}
use hench_db.BTree.{lower_bound, shorter, holds, Leaf, Node, BTree}
use hench_db.BTree.Entries.{Entries}
use hench_db.BTree.Fits.{zip}
use hench_db.BTree.Descent.{◌>>=◌, put_child, replace_value}

-- The two bounds with their inclusivity.
pub record Limits : Type 0 where
  pub start : Option Bytes
  pub start_incl : Bool
  pub end : Option Bytes
  pub end_incl : Bool

-- `k <= last`.
unfoldable pub already : Option Bytes → Bytes → Bool
already none k = false
already (some last) k = not (bytes_lt last k)

-- `k < lo || (k == lo && !start_incl)`.
unfoldable pub before_start : Option Bytes → Bool → Bytes → Bool
before_start none incl k = false
before_start (some lo) incl k = bytes_lt k lo || (bytes_eq k lo && not incl)

-- `k > hi || (k == hi && !end_incl)`.
unfoldable pub after_end : Option Bytes → Bool → Bytes → Bool
after_end none incl k = false
after_end (some hi) incl k = bytes_lt hi k || (bytes_eq k hi && not incl)

-- What the walk has come to: the entries put out, the last key, and whether the end was passed.
pub record Walk : Type 0 where
  pub out : Entries
  pub last_key : Option Bytes
  pub ended : Bool

unfoldable pub emit : Bytes → Bytes → Walk → Walk
emit k v w = record { out = (k, v) ∷ w.out; last_key = w.last_key; ended = w.ended }

-- The loop over the entries of one leaf.
unfoldable pub walk_leaf : Limits → Option Bytes → Entries → Walk
walk_leaf lim last [] = record { out = []; last_key = last; ended = false }
walk_leaf lim last ((k, v) ∷ es) =
    let skipped = walk_leaf lim last es in
    let kept = emit k v (walk_leaf lim (some k) es) in
    if already last k
    then skipped
    else if before_start lim.start lim.start_incl k
    then skipped
    else if after_end lim.end lim.end_incl k
    then record { out = []; last_key = last; ended = true }
    else kept

-- The loop over the leaves, which goes on while a leaf has a next one.
unfoldable pub walk_leaves : Limits → Option Bytes → List Leaf → Entries
walk_leaves lim last [] = []
walk_leaves lim last (leaf ∷ more) =
    let w = walk_leaf lim last (zip leaf.keys leaf.vals) in
    let rest = walk_leaves lim w.last_key more in
    if w.ended then w.out else if leaf.next then w.out ++ rest else w.out

unfoldable pub concat_map : {A B : Type 0} → (A → List B) → List A → List B
concat_map f [] = []
concat_map f (a ∷ xs) = f a ++ concat_map f xs

unfoldable pub all_leaves : (n : ℕ) → Node n → List Leaf
unfolding Node
all_leaves zero leaf = leaf ∷ []
all_leaves (suc n) node = concat_map (all_leaves n) node.children

unfoldable pub start_index : Option Bytes → List Bytes → List ℕ → ℕ
start_index none keys heads = 0
start_index (some k) keys heads = lower_bound keys heads k

-- The leaf that the descent for `start` finds, with those to the right of it, which the `next`
-- pointers lead to where they are set.
unfoldable pub leaves_from : (n : ℕ) → Node n → Option Bytes → Option (List Leaf)
unfolding Node
leaves_from zero leaf start = some (leaf ∷ [])
leaves_from (suc n) node start = do
  let idx = shorter (start_index start node.keys node.heads) (length node.children - 1)
  child ← get_elem? node.children idx
  leaves ← leaves_from n child start
  some (leaves ++ concat_map (all_leaves n) (drop (suc idx) node.children))

unfoldable pub range : BTree → Limits → Option Entries
range tree lim = do
  leaves ← leaves_from tree.height tree.root lim.start
  some (walk_leaves lim none leaves)

unfoldable pub no_limits : Limits
no_limits = record { start = none; start_incl = true; end = none; end_incl = true }

unfoldable pub scan_all : BTree → Option Entries
scan_all tree = range tree no_limits

unfoldable pub update_leaf : Leaf → Bytes → Bytes → Option Bytes × Leaf
update_leaf leaf key val =
    let idx = lower_bound leaf.keys leaf.heads key in
    if holds leaf.keys idx key
    then (some (get_or leaf.vals idx []), replace_value leaf idx val)
    else (none, leaf)

unfoldable pub update_in_place_rec :
    (n : ℕ) → Node n → Bytes → Bytes → Option (Option Bytes × Node n)
unfolding Node
update_in_place_rec zero leaf key val = some (update_leaf leaf key val)
update_in_place_rec (suc n) node key val =
    if length node.children == 0 then some (none, node) else (do
      child ← get_elem? node.children (lower_bound node.keys node.heads key)
      (prev, after) ← update_in_place_rec n child key val
      some (prev, put_child node (lower_bound node.keys node.heads key) after))

unfoldable pub update_in_place : BTree → Bytes → Bytes → Option (Option Bytes × BTree)
update_in_place tree key val = do
  (prev, root) ← update_in_place_rec tree.height tree.root key val
  some (prev, record { height = tree.height; root = root; entries = tree.entries })
