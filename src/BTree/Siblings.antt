-- ===== src/BTree/Siblings.antt =====
-- crates/engine/src/btree.rs: `borrow` and `merge`. Two siblings and the separator between them are
-- a triple, whichever of the two is the sparse one.
use hench_db.Prelude.{ℕ, zero, suc, ◌-◌, List, [], ◌∷◌, ◌++◌, length, get_or, set, take, drop}
use hench_db.Bytes.{Bytes}
use hench_db.BTree.{Internal, Node, remove_at, last_or}

-- What the fix-up compares: a leaf's keys, an internal node's children.
unfoldable pub fullness : (n : ℕ) → Node n → ℕ
unfolding Node
fullness zero leaf = length leaf.keys
fullness (suc n) node = length node.children

-- `pop()`, without its answer.
unfoldable pub all_but_last {ℓ} : {A : Type ℓ} → List A → List A
all_but_last xs = take (length xs - 1) xs

-- The last of the list, as a list.
unfoldable pub last_part {ℓ} : {A : Type ℓ} → List A → List A
last_part xs = drop (length xs - 1) xs

-- Two neighbours and, between them, the separator with its prefix.
abbrev pub Siblings : ℕ → Type 0
Siblings n = Node n × (Bytes × ℕ) × Node n

-- The left one borrows the first entry of the right one, which is not empty.
unfoldable pub borrow_from_right : (n : ℕ) → Siblings n → Siblings n
unfolding Node
borrow_from_right zero (left, (sep, head), right) = (
  record {
    keys = left.keys ++ take 1 right.keys;
    heads = left.heads ++ take 1 right.heads;
    vals = left.vals ++ take 1 right.vals;
    next = left.next;
  },
  (get_or right.keys 0 [], get_or right.heads 0 0),
  record {
    keys = drop 1 right.keys;
    heads = drop 1 right.heads;
    vals = drop 1 right.vals;
    next = right.next;
  },
)
borrow_from_right (suc n) (left, (sep, head), right) = (
  record {
    keys = left.keys ++ (sep ∷ []);
    heads = left.heads ++ (head ∷ []);
    children = left.children ++ take 1 right.children;
  },
  (get_or right.keys 0 [], get_or right.heads 0 0),
  record { keys = drop 1 right.keys; heads = drop 1 right.heads; children = drop 1 right.children },
)

-- The right one borrows the last entry of the left one, which is not empty.
unfoldable pub borrow_from_left : (n : ℕ) → Siblings n → Siblings n
unfolding Node
borrow_from_left zero (left, (sep, head), right) = (
  record {
    keys = all_but_last left.keys;
    heads = all_but_last left.heads;
    vals = all_but_last left.vals;
    next = left.next;
  },
  (last_or [] (all_but_last left.keys), last_or 0 (all_but_last left.heads)),
  record {
    keys = last_part left.keys ++ right.keys;
    heads = last_part left.heads ++ right.heads;
    vals = last_part left.vals ++ right.vals;
    next = right.next;
  },
)
borrow_from_left (suc n) (left, (sep, head), right) = (
  record {
    keys = all_but_last left.keys;
    heads = all_but_last left.heads;
    children = all_but_last left.children;
  },
  (last_or [] left.keys, last_or 0 left.heads),
  record {
    keys = sep ∷ right.keys;
    heads = head ∷ right.heads;
    children = last_part left.children ++ right.children;
  },
)

-- The right one folds into the left one.
unfoldable pub fuse : (n : ℕ) → Siblings n → Node n
unfolding Node
fuse zero (left, (sep, head), right) = record {
  keys = left.keys ++ right.keys;
  heads = left.heads ++ right.heads;
  vals = left.vals ++ right.vals;
  next = right.next;
}
fuse (suc n) (left, (sep, head), right) = record {
  keys = left.keys ++ (sep ∷ right.keys);
  heads = left.heads ++ (head ∷ right.heads);
  children = left.children ++ right.children;
}

-- The parent after a borrow around its separator `sep`, and after a merge.
unfoldable pub reseat : {C : Type 0} → Internal C → ℕ → C × (Bytes × ℕ) × C → Internal C
reseat node sep (left, (key, head), right) = record {
  keys = set node.keys sep key;
  heads = set node.heads sep head;
  children = set (set node.children sep left) (suc sep) right;
}

unfoldable pub unlink : {C : Type 0} → Internal C → ℕ → C → Internal C
unlink node sep fused = record {
  keys = remove_at sep node.keys;
  heads = remove_at sep node.heads;
  children = remove_at (suc sep) (set node.children sep fused);
}
