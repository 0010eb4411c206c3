-- ===== src/Samples/Trees.antt =====
-- The B+ tree.
use hench_db.Prelude.{
  ℕ, zero, suc, ◌≡◌, ◌+◌, ◌≤◌, refl, arith, Bool, true, false, none, some, List, [], ◌∷◌, ◌++◌,
}
use hench_db.Bytes.{Bytes, bytes_lt, bytes_eq}
use hench_db.BTree.{BTree, Leaf, new_leaf_with, lower_bound, heads_for, new_internal, last_or}
use hench_db.BTree.Search.{Increasing, lower_bound-first_ge, first_ge}
use hench_db.BTree.Entries.{lookup}
use hench_db.BTree.Fits.{IsTree, Fits, tree_entries, entries_of, LeafFits}
use hench_db.BTree.Descent.{get}
use hench_db.BTree.Read.{get-lookup}
use hench_db.BTree.Loops.{insert, upsert, running, returned}
use hench_db.BTree.LeafWrites.{InsertEffect, UpsertEffect}
use hench_db.BTree.Insert.{IsCounted, Ended, insert-Ended, upsert-Ended}
use hench_db.BTree.Removal.{remove, node_count, sum_of, uncount_one}
use hench_db.BTree.Remove.{Removed, remove-Removed}
use hench_db.BTree.Range.{Limits, before_start, after_end, update_in_place}
use hench_db.BTree.Walk.{selected, in_range}
use hench_db.BTree.InPlace.{refreshed, update_in_place-refreshed}
use hench_db.BTree.Livelock.{two_leaves, root_over, reinsert_never_returns}

abbrev one : Bytes
one = 1 ∷ []

abbrev three : Bytes
three = 3 ∷ []

abbrev five : Bytes
five = 5 ∷ []

abbrev right_leaf : Leaf
right_leaf = new_leaf_with (five ∷ []) ((50 ∷ []) ∷ []) false

abbrev left_leaf : Leaf
left_leaf = new_leaf_with (one ∷ three ∷ []) ((10 ∷ []) ∷ (30 ∷ []) ∷ []) true

-- Two leaves with the keys 1, 3 and 5.
abbrev small_tree : BTree
small_tree = two_leaves (one ∷ three ∷ []) ((10 ∷ []) ∷ (30 ∷ []) ∷ []) three right_leaf 3

left_fits : (tight : Bool) → LeafFits tight none (some three) left_leaf
unfolding new_leaf_with heads_for last_or bytes_lt
left_fits true = record {
  ordered = ((omega arith, tt), tt, refl, ((omega arith, tt), refl, refl, tt));
  synced = refl;
  sized = omega arith;
  parallel = refl;
  ending = refl;
  linked = refl;
}
left_fits false = record {
  ordered = ((omega arith, tt), tt, refl, ((omega arith, tt), refl, refl, tt));
  synced = refl;
  sized = omega arith;
  parallel = refl;
  ending = tt;
  linked = refl;
}

right_fits : (tight : Bool) → LeafFits tight (some three) none right_leaf
unfolding new_leaf_with heads_for last_or bytes_lt
right_fits true = record {
  ordered = ((omega arith, tt), refl, tt, tt);
  synced = refl;
  sized = omega arith;
  parallel = refl;
  ending = tt;
  linked = refl;
}
right_fits false = record {
  ordered = ((omega arith, tt), refl, tt, tt);
  synced = refl;
  sized = omega arith;
  parallel = refl;
  ending = tt;
  linked = refl;
}

small_tree-IsTree : (tight : Bool) → IsTree tight small_tree
unfolding IsTree Fits root_over new_internal
small_tree-IsTree tight =
    (refl, omega arith, ((omega arith, tt), tt, tt, left_fits tight, right_fits tight))

small_tree-IsCounted : IsCounted small_tree
unfolding IsCounted tree_entries entries_of root_over new_internal new_leaf_with
small_tree-IsCounted = refl

lower_bound-first_ge_example :
    lower_bound (one ∷ three ∷ five ∷ []) (heads_for (one ∷ three ∷ five ∷ [])) (4 ∷ [])
    ≡ first_ge (one ∷ three ∷ five ∷ []) (4 ∷ [])
unfolding bytes_lt
lower_bound-first_ge_example =
    lower_bound-first_ge (one ∷ three ∷ five ∷ []) (4 ∷ [])
      ((omega arith, tt), ((omega arith, tt), refl, ((omega arith, tt), refl, tt)))
      (omega arith, tt)

get-lookup_example : get small_tree three ≡ some (lookup three (tree_entries small_tree))
get-lookup_example = get-lookup false small_tree three (small_tree-IsTree false) (omega arith, tt)

-- The lookup in the list comes to the stored value.
three_is_there : lookup three (tree_entries small_tree) ≡ some (30 ∷ [])
unfolding lookup tree_entries entries_of root_over new_internal new_leaf_with bytes_eq
three_is_there = refl

insert-Ended_example :
    Ended (InsertEffect true (2 ∷ []) (20 ∷ [])) small_tree (insert 2 small_tree (2 ∷ []) (20 ∷ []))
insert-Ended_example =
    insert-Ended 0 small_tree (2 ∷ []) (20 ∷ []) (small_tree-IsTree true) small_tree-IsCounted
      (omega arith, tt)

upsert-Ended_example :
    Ended (UpsertEffect true three (31 ∷ [])) small_tree (upsert 2 small_tree three (31 ∷ []))
upsert-Ended_example =
    upsert-Ended 0 small_tree three (31 ∷ []) (small_tree-IsTree true) small_tree-IsCounted
      (omega arith, tt)

remove-Removed_example : Removed five small_tree (remove 3 small_tree five)
unfolding node_count sum_of root_over new_internal
remove-Removed_example =
    remove-Removed 3 small_tree five (small_tree-IsTree false) small_tree-IsCounted
      (omega arith, tt) (omega arith)

-- `n` keys of one byte from `low` on.
abbrev numbered : ℕ → ℕ → List Bytes
numbered low zero = []
numbered low (suc n) = (low ∷ []) ∷ numbered (suc low) n

numbered-Increasing : (low n : ℕ) → suc low + n ≤ 256 → Increasing (low ∷ []) (numbered (suc low) n)
unfolding bytes_lt
numbered-Increasing low zero h = tt
numbered-Increasing low (suc n) h =
    ((omega arith, tt), ground arith, numbered-Increasing (suc low) n (omega arith))

-- 64 keys from 0 on, and the key 64 after them.
reinsert_never_returns_example :
    (remove 1
        (two_leaves
          (numbered 0 64 ++ ((64 ∷ []) ∷ []))
          (numbered 0 64 ++ (one ∷ []))
          (64 ∷ [])
          right_leaf
          66)
        (64 ∷ [])
      ≡ returned (
        some one,
        two_leaves (numbered 0 64) (numbered 0 64) (64 ∷ []) right_leaf (uncount_one 66),
      ))
    × (insert 100
          (two_leaves (numbered 0 64) (numbered 0 64) (64 ∷ []) right_leaf (uncount_one 66))
          (64 ∷ [])
          one
        ≡ running)
    × (upsert 100
          (two_leaves (numbered 0 64) (numbered 0 64) (64 ∷ []) right_leaf (uncount_one 66))
          (64 ∷ [])
          one
        ≡ running)
reinsert_never_returns_example =
    reinsert_never_returns (0 ∷ []) (numbered 1 63) (numbered 0 64) (64 ∷ []) one one right_leaf 66
      100 ((omega arith, tt), numbered-Increasing 0 64 (omega arith)) refl (omega arith)
      (omega arith)

-- From 1, which is left out, to 5.
abbrev from_one : Limits
from_one = record { start = some one; start_incl = false; end = some five; end_incl = true }

two_selected : selected from_one (tree_entries small_tree) ≡ (three, 30 ∷ []) ∷ (five, 50 ∷ []) ∷ []
unfolding selected in_range before_start after_end tree_entries entries_of root_over new_internal
    new_leaf_with bytes_lt bytes_eq
two_selected = refl

update_in_place-refreshed_example :
    (after : BTree) × (update_in_place small_tree three (31 ∷ [])
      ≡ some (lookup three (tree_entries small_tree), after))
    × IsTree true after
    × (tree_entries after
        ≡ refreshed three
            (31 ∷ [])
            (lookup three (tree_entries small_tree))
            (tree_entries small_tree))
    × (after.entries ≡ small_tree.entries)
update_in_place-refreshed_example =
    update_in_place-refreshed true small_tree three (31 ∷ []) (small_tree-IsTree true)
      (omega arith, tt)
