-- ===== src/BTree/Descent.antt =====
-- crates/engine/src/btree.rs: `get`, `insert`, `upsert`, `update_in_place` and the removal of an
-- entry, each a descent from the root.
use hench_db.Prelude.{
  ℕ, zero, suc, ◌-◌, ◌/◌, Bool, true, false, ◌&&◌, Option, none, some, [], length, get_elem?,
  get_or, set, take, drop, ltb, leb, if◌then◌else◌,
}
use hench_db.Bytes.{Bytes, bytes_eq}
use hench_db.BTree.{
  max_keys, key_head, lower_bound, shorter, Leaf, Internal, Node, BTree, new_leaf_with,
  new_internal, key_count, insert_at, holds, last_or, past_end,
}

-- A read of `children[i]` panics out of range, which is `none`.
infixl 5 ◌>>=◌
abbrev pub ◌>>=◌ {ℓ κ} : {S : Type ℓ} {T : Type κ} → Option S → (S → Option T) → Option T
none >>= next = none
some x >>= next = next x

unfoldable pub find_leaf : Leaf → Bytes → Option Bytes
find_leaf leaf key =
    let idx = lower_bound leaf.keys leaf.heads key in
    if ltb idx (shorter (length leaf.keys) (length leaf.vals))
      && bytes_eq (get_or leaf.keys idx []) key
    then some (get_or leaf.vals idx [])
    else none

-- The part of `get` below a node.
unfoldable pub get_node : (n : ℕ) → Node n → Bytes → Option (Option Bytes)
unfolding Node
get_node zero leaf key = some (find_leaf leaf key)
get_node (suc n) node key = do
  child ←
      get_elem? node.children
        (shorter (lower_bound node.keys node.heads key) (length node.children - 1))
  get_node n child key

unfoldable pub get : BTree → Bytes → Option (Option Bytes)
get tree key = get_node tree.height tree.root key

-- The separator and the two halves of a full child.
unfoldable pub split_leaf : Leaf → Leaf × Bytes × Leaf
split_leaf leaf =
    let mid = length leaf.keys / 2 in
    let kept = take mid leaf.keys in
    (
      record { keys = kept; heads = take mid leaf.heads; vals = take mid leaf.vals; next = true },
      last_or [] kept,
      new_leaf_with (drop mid leaf.keys) (drop mid leaf.vals) leaf.next,
    )

unfoldable pub split_internal : {C : Type 0} → Internal C → Internal C × Bytes × Internal C
split_internal node =
    let mid = length node.keys / 2 in
    (
      record {
        keys = take mid node.keys;
        heads = take mid node.heads;
        children = take (suc mid) node.children;
      },
      get_or node.keys mid [],
      new_internal (drop (suc mid) node.keys) (drop (suc mid) node.children),
    )

unfoldable pub split_node : (n : ℕ) → Node n → Node n × Bytes × Node n
unfolding Node
split_node zero leaf = split_leaf leaf
split_node (suc n) node = split_internal node

-- The new separator and the right half go into the parent; the left half is `children[idx]` still.
unfoldable pub splice : {C : Type 0} → Internal C → ℕ → C × Bytes × C → Internal C
splice node idx (left, sep, right) =
    let at = lower_bound node.keys node.heads sep in
    record {
      keys = insert_at at sep node.keys;
      heads = insert_at at (key_head sep) node.heads;
      children = insert_at (suc at) right (set node.children idx left);
    }

unfoldable pub split_child_in_place : (n : ℕ) → Internal (Node n) → ℕ → Node n → Internal (Node n)
split_child_in_place n node idx child = splice node idx (split_node n child)

-- The test for a full child, and its split.
unfoldable pub make_room : (n : ℕ) → Internal (Node n) → ℕ → Node n → Internal (Node n)
make_room n node idx child =
    if leb max_keys (key_count n child) then split_child_in_place n node idx child else node

unfoldable pub put_child : {C : Type 0} → Internal C → ℕ → C → Internal C
put_child node idx child = record {
  keys = node.keys;
  heads = node.heads;
  children = set node.children idx child;
}

pub data Descend (A : Type 0) : Type 0 where
  done : A → Descend A
  restart : Descend A

unfoldable pub insert_entry : Leaf → ℕ → Bytes → Bytes → Leaf
insert_entry leaf idx key val = record {
  keys = insert_at idx key leaf.keys;
  heads = insert_at idx (key_head key) leaf.heads;
  vals = insert_at idx val leaf.vals;
  next = leaf.next;
}

unfoldable pub replace_value : Leaf → ℕ → Bytes → Leaf
replace_value leaf idx val = record {
  keys = leaf.keys;
  heads = leaf.heads;
  vals = set leaf.vals idx val;
  next = leaf.next;
}

unfoldable pub insert_leaf : Leaf → Bytes → Bytes → Descend Bool × Leaf
insert_leaf leaf key val =
    let idx = lower_bound leaf.keys leaf.heads key in
    if leb max_keys (length leaf.keys)
    then (restart, leaf)
    else if past_end leaf key
    then (restart, leaf)
    else if holds leaf.keys idx key
    then (done false, leaf)
    else (done true, insert_entry leaf idx key val)

unfoldable pub upsert_leaf : Leaf → Bytes → Bytes → Descend (Option Bytes) × Leaf
upsert_leaf leaf key val =
    let idx = lower_bound leaf.keys leaf.heads key in
    if holds leaf.keys idx key
    then (done (some (get_or leaf.vals idx [])), replace_value leaf idx val)
    else if leb max_keys (length leaf.keys)
    then (restart, leaf)
    else if past_end leaf key
    then (restart, leaf)
    else (done none, insert_entry leaf idx key val)

-- The descent of `insert_rec` and of `upsert_rec`, which differ at the leaf. A full child is split
-- before the descent, and the way is then searched again.
unfoldable pub write_rec :
    {A : Type 0}
    → (Leaf → Descend A × Leaf)
    → (n : ℕ) → Node n
    → Bytes
    → Option (Descend A × Node n)
unfolding Node
write_rec at_leaf zero leaf key = some (at_leaf leaf)
write_rec at_leaf (suc n) node key = do
  full ← get_elem? node.children (lower_bound node.keys node.heads key)
  let roomy = make_room n node (lower_bound node.keys node.heads key) full
  child ← get_elem? roomy.children (lower_bound roomy.keys roomy.heads key)
  (answer, after) ← write_rec at_leaf n child key
  some (answer, put_child roomy (lower_bound roomy.keys roomy.heads key) after)

unfoldable pub insert_rec : (n : ℕ) → Node n → Bytes → Bytes → Option (Descend Bool × Node n)
insert_rec n node key val = write_rec (λ leaf. insert_leaf leaf key val) n node key

unfoldable pub upsert_rec :
    (n : ℕ) → Node n → Bytes → Bytes → Option (Descend (Option Bytes) × Node n)
upsert_rec n node key val = write_rec (λ leaf. upsert_leaf leaf key val) n node key
