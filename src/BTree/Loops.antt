-- ===== src/BTree/Loops.antt =====
-- crates/engine/src/btree.rs: the loops of `insert` and `upsert` around their descents, which wrap
-- a full root and start again on `Restart`. The loop has no bound in the source; here it has fuel.
use hench_db.Prelude.{
  ℕ, zero, suc, ◌+◌, ◌%◌, ◌^◌, Bool, true, false, Option, none, some, [], ◌∷◌, leb, if◌then◌else◌,
}
use hench_db.Bytes.{Bytes}
use hench_db.BTree.{max_keys, Node, BTree, new_internal, key_count}
use hench_db.BTree.Descent.{Descend, done, restart, insert_rec, upsert_rec}

-- How a run ends: with an answer, in a panic, or not yet.
pub data Outcome (A : Type 0) : Type 0 where
  returned : A → Outcome A
  panicked : Outcome A
  running : Outcome A

-- A fresh root over the full one.
unfoldable pub wrap : BTree → BTree
unfolding Node
wrap tree = record {
  height = suc tree.height;
  root = new_internal [] (tree.root ∷ []);
  entries = tree.entries;
}

-- `fetch_add(1)` on the 64-bit counter.
unfoldable pub count_one : ℕ → ℕ
count_one entries = (entries + 1) % 2 ^ 64

-- What follows a descent: an answer counts a new entry, and `Restart` starts again.
unfoldable pub settle :
    {A : Type 0}
    → (A → Bool)
    → (tree : BTree) → (BTree → Outcome (A × BTree))
    → Option (Descend A × Node tree.height)
    → Outcome (A × BTree)
settle is_new tree again none = panicked
settle is_new tree again (some (done a, root)) =
    let entries = if is_new a then count_one tree.entries else tree.entries in
    returned (a, record { height = tree.height; root = root; entries = entries })
settle is_new tree again (some (restart, root)) =
    again (record { height = tree.height; root = root; entries = tree.entries })

unfoldable pub insert : ℕ → BTree → Bytes → Bytes → Outcome (Bool × BTree)
insert zero tree key val = running
insert (suc fuel) tree key val = elim (leb max_keys (key_count tree.height tree.root)) [
  | true ↦ insert fuel (wrap tree) key val
  | false ↦
      settle (λ b. b) tree (λ after. insert fuel after key val)
        (insert_rec tree.height tree.root key val)
]

unfoldable pub is_none : Option Bytes → Bool
is_none none = true
is_none (some v) = false

unfoldable pub upsert : ℕ → BTree → Bytes → Bytes → Outcome (Option Bytes × BTree)
upsert zero tree key val = running
upsert (suc fuel) tree key val = elim (leb max_keys (key_count tree.height tree.root)) [
  | true ↦ upsert fuel (wrap tree) key val
  | false ↦
      settle is_none tree (λ after. upsert fuel after key val)
        (upsert_rec tree.height tree.root key val)
]
