-- ===== src/BTree/Livelock.antt =====
-- After the removal of a leaf's last key, the loops of `insert` and `upsert` never answer for a key
-- between the leaf's new last key and the separator: the leaf takes it for one that a concurrent
-- split has moved, and every descent comes to the same leaf.
use hench_db.Prelude.{
  ℕ, zero, suc, ◌≡◌, ◌≤◌, ◌<◌, refl, sym, ◌∙◌, ap, arith, Bool, true, false, Option, none, some,
  List, [], ◌∷◌, ◌++◌, length, length-append, if◌then◌else◌, ltb, leb,
}
use hench_db.Bytes.{Bytes, bytes_lt}
use hench_db.Bytes.Order.{bytes_lt_self, bytes_lt_trans, bytes_eq_self}
use hench_db.BTree.{
  Leaf, Internal, Node, BTree, new_leaf_with, new_internal, heads_for, lower_bound, holds, last_or,
  past_end, remove_at, key_count, max_keys, shorter,
}
use hench_db.BTree.Search.{first_ge, IsKey, Increasing, IsSorted, lower_bound-first_ge}
use hench_db.BTree.Descent.{
  Descend, restart, ◌>>=◌, put_child, make_room, insert_leaf, upsert_leaf, write_rec, insert_rec,
  upsert_rec,
}
use hench_db.BTree.Delete.{heads_for-remove_at}
use hench_db.BTree.Loops.{returned, running, settle, insert, upsert}
use hench_db.BTree.Siblings.{fullness}
use hench_db.BTree.Removal.{
  remove_entry, delete_leaf, delete_rec, fix_below, fix_pass, fix_passes, only, collapse_root,
  uncount_one, shrink, remove,
}

-- A root over two leaves.
unfoldable pub root_over : List Bytes → List Bytes → Bytes → Leaf → Node 1
unfolding Node
root_over keys vals sep right = new_internal (sep ∷ []) (new_leaf_with keys vals true ∷ right ∷ [])

abbrev pub two_leaves : List Bytes → List Bytes → Bytes → Leaf → ℕ → BTree
two_leaves keys vals sep right entries = record {
  height = 1;
  root = root_over keys vals sep right;
  entries = entries;
}

-- Strings of bytes in order, all below `sep`.
abbrev pub IsBelow : List Bytes → Bytes → Type 0
IsBelow [] sep = Unit
IsBelow (k ∷ ks) sep = (bytes_lt k sep ≡ true) × IsBelow ks sep

module _ (sep : Bytes) where
  first_ge_last : (ks : List Bytes) → IsBelow ks sep → first_ge (ks ++ (sep ∷ [])) sep ≡ length ks
  unfolding first_ge
  first_ge_last [] h = rw (bytes_lt_self sep, if◌then◌else◌) refl
  first_ge_last (k ∷ ks) (l, h) = rw (l, if◌then◌else◌) (ap suc (first_ge_last ks h))

  first_ge_all : (ks : List Bytes) → IsBelow ks sep → first_ge ks sep ≡ length ks
  unfolding first_ge
  first_ge_all [] h = refl
  first_ge_all (k ∷ ks) (l, h) = rw (l, if◌then◌else◌) (ap suc (first_ge_all ks h))

  holds_last : (ks : List Bytes) → holds (ks ++ (sep ∷ [])) (length ks) sep ≡ true
  unfolding holds
  holds_last [] = rw (bytes_eq_self sep) refl
  holds_last (k ∷ ks) = ground (arith, holds_last ks)

  last_below :
      (k : Bytes) (ks : List Bytes)
      → IsBelow (k ∷ ks) sep
      → bytes_lt (last_or [] (k ∷ ks)) sep ≡ true
  unfolding last_or
  last_below k [] h = h.0
  last_below k (q ∷ ks) h = last_below q ks h.1

holds_past : (ks : List Bytes) (key : Bytes) → holds ks (length ks) key ≡ false
unfolding holds
holds_past [] key = refl
holds_past (k ∷ ks) key = ground (arith, holds_past ks key)

remove_last :
    {A : Type 0} {B : Type 0} (ks : List A) (vs : List B) (x : B)
    → length vs ≡ length ks
    → remove_at (length ks) (vs ++ (x ∷ [])) ≡ vs
unfolding remove_at
remove_last [] [] x e = refl
remove_last [] (v ∷ vs) x e = absurd (omega (arith, e))
remove_last (k ∷ ks) [] x e = absurd (omega (arith, e))
remove_last (k ∷ ks) (v ∷ vs) x e = ap (λ t. v ∷ t) (remove_last ks vs x (omega (arith, e)))

get_or_last :
    (ks vs : List Bytes) (x : Bytes)
    → length vs ≡ length ks
    → hench_db.Prelude.get_or (vs ++ (x ∷ [])) (length ks) [] ≡ x
get_or_last [] [] x e = refl
get_or_last [] (v ∷ vs) x e = absurd (omega (arith, e))
get_or_last (k ∷ ks) [] x e = absurd (omega (arith, e))
get_or_last (k ∷ ks) (v ∷ vs) x e = get_or_last ks vs x (omega (arith, e))

-- A descent that comes back with `Restart` and the root it began with comes back for ever.
restarts_for_ever :
    (tree : BTree) (key val : Bytes) (fuel : ℕ)
    → leb max_keys (key_count tree.height tree.root) ≡ false
    → insert_rec tree.height tree.root key val ≡ some (restart, tree.root)
    → insert fuel tree key val ≡ running
unfolding insert settle
restarts_for_ever tree key val zero room e = refl
restarts_for_ever tree key val (suc fuel) room e =
    rw (room, insert, e, settle) (restarts_for_ever tree key val fuel room e)

upserts_for_ever :
    (tree : BTree) (key val : Bytes) (fuel : ℕ)
    → leb max_keys (key_count tree.height tree.root) ≡ false
    → upsert_rec tree.height tree.root key val ≡ some (restart, tree.root)
    → upsert fuel tree key val ≡ running
unfolding upsert settle
upserts_for_ever tree key val zero room e = refl
upserts_for_ever tree key val (suc fuel) room e =
    rw (room, upsert, e, settle) (upserts_for_ever tree key val fuel room e)

Increasing-last :
    (low sep : Bytes) (ks : List Bytes)
    → Increasing low (ks ++ (sep ∷ []))
    → IsKey sep × (bytes_lt low sep ≡ true)
Increasing-last low sep [] (b, l, _) = (b, l)
Increasing-last low sep (k ∷ ks) (b, l, h) =
    let (c, m) = Increasing-last k sep ks h in (c, bytes_lt_trans low k sep l m)

IsSorted-last : (sep : Bytes) (ks : List Bytes) → IsSorted (ks ++ (sep ∷ [])) → IsKey sep
IsSorted-last sep [] h = h.0
IsSorted-last sep (k ∷ ks) h = (Increasing-last k sep ks h.1).0

Increasing-IsBelow :
    (low sep : Bytes) (ks : List Bytes) → Increasing low (ks ++ (sep ∷ [])) → IsBelow ks sep
Increasing-IsBelow low sep [] h = tt
Increasing-IsBelow low sep (k ∷ ks) (b, l, h) =
    ((Increasing-last k sep ks h).1, Increasing-IsBelow k sep ks h)

IsSorted-IsBelow : (sep : Bytes) (ks : List Bytes) → IsSorted (ks ++ (sep ∷ [])) → IsBelow ks sep
IsSorted-IsBelow sep [] h = tt
IsSorted-IsBelow sep (k ∷ ks) (b, h) =
    ((Increasing-last k sep ks h).1, Increasing-IsBelow k sep ks h)

first_child_at : (sep : Bytes) → IsKey sep → lower_bound (sep ∷ []) (heads_for (sep ∷ [])) sep ≡ 0
first_child_at sep b = lower_bound-first_ge (sep ∷ []) sep (b, tt) b ∙ first_ge_last sep [] tt

module _ (ks vs : List Bytes) (sep value : Bytes) (right : Leaf) (count : ℕ)
    (sorted : IsSorted (ks ++ (sep ∷ []))) (parallel : length vs ≡ length ks) where
  delete_last_leaf :
      delete_leaf (new_leaf_with (ks ++ (sep ∷ [])) (vs ++ (value ∷ [])) true) sep
      ≡ (some value, new_leaf_with ks vs true)
  unfolding delete_leaf new_leaf_with remove_entry
  delete_last_leaf =
      let below = IsSorted-IsBelow sep ks sorted in
      let at =
        lower_bound-first_ge (ks ++ (sep ∷ [])) sep sorted (IsSorted-last sep ks sorted)
        ∙ first_ge_last sep ks below in
      rw
        (
          at,
          holds_last sep ks,
          if◌then◌else◌,
          get_or_last ks vs value parallel,
          remove_last ks ks sep refl,
          remove_last ks vs value parallel,
          heads_for-remove_at (length ks) (ks ++ (sep ∷ [])),
        )
        (rw (remove_last ks ks sep refl) refl)

  delete_last :
      delete_rec 1 (root_over (ks ++ (sep ∷ [])) (vs ++ (value ∷ [])) sep right) sep
      ≡ some (some value, (root_over ks vs sep right))
  unfolding delete_rec root_over new_internal put_child
  delete_last = rw (first_child_at sep (IsSorted-last sep ks sorted), ◌>>=◌, delete_last_leaf) refl

  full_enough :
      64 ≤ length ks
      → fix_pass 1 (root_over ks vs sep right) sep ≡ some (false, (root_over ks vs sep right))
  unfolding fix_pass fix_below root_over new_internal put_child shorter fullness new_leaf_with
  full_enough h = rw (first_child_at sep (IsSorted-last sep ks sorted)) (ground arith)

  removes_last :
      64 ≤ length ks
      → remove 1 (two_leaves (ks ++ (sep ∷ [])) (vs ++ (value ∷ [])) sep right count) sep
        ≡ returned (some value, two_leaves ks vs sep right (uncount_one count))
  unfolding remove shrink fix_passes collapse_root only root_over new_internal
  removes_last h = rw (delete_last, remove, shrink, full_enough h, fix_passes) refl

no_split :
    (n i : ℕ) (node : Internal (Node n)) (child : Node n)
    → key_count n child < max_keys
    → make_room n node i child ≡ node
unfolding make_room
no_split n i node child h = ground arith

-- What a full descent for `sep` meets once `sep` itself is gone.
module _ (k : Bytes) (ks vs : List Bytes) (sep val : Bytes) (right : Leaf)
    (below : IsBelow (k ∷ ks) sep) (is_key : IsKey sep) (sorted : IsSorted (k ∷ ks))
    (small : length (k ∷ ks) < max_keys) where
  room : leb max_keys (length (k ∷ ks)) ≡ false
  room = ground arith

  past : past_end (new_leaf_with (k ∷ ks) vs true) sep ≡ true
  unfolding past_end new_leaf_with
  past = rw (last_below sep k ks below) (ground arith)

  insert_gives_up :
      insert_leaf (new_leaf_with (k ∷ ks) vs true) sep val
      ≡ (restart, new_leaf_with (k ∷ ks) vs true)
  unfolding insert_leaf
  insert_gives_up = rw (past, if◌then◌else◌) (ground arith)

  absent : holds (k ∷ ks) (lower_bound (k ∷ ks) (heads_for (k ∷ ks)) sep) sep ≡ false
  absent =
      rw (lower_bound-first_ge (k ∷ ks) sep sorted is_key, first_ge_all sep (k ∷ ks) below)
        (holds_past (k ∷ ks) sep)

  upsert_gives_up :
      upsert_leaf (new_leaf_with (k ∷ ks) vs true) sep val
      ≡ (restart, new_leaf_with (k ∷ ks) vs true)
  unfolding upsert_leaf new_leaf_with
  upsert_gives_up = rw (past, if◌then◌else◌, absent) (ground arith)

  restarts :
      {A : Type 0} (at_leaf : Leaf → Descend A × Leaf)
      → at_leaf (new_leaf_with (k ∷ ks) vs true) ≡ (restart, new_leaf_with (k ∷ ks) vs true)
      → write_rec at_leaf 1 (root_over (k ∷ ks) vs sep right) sep
        ≡ some (restart, root_over (k ∷ ks) vs sep right)
  unfolding write_rec root_over new_internal put_child key_count new_leaf_with
  restarts at_leaf e =
      rw
        (
          first_child_at sep is_key,
          ◌>>=◌,
          no_split 0 0 (root_over (k ∷ ks) vs sep right) (new_leaf_with (k ∷ ks) vs true) small,
          first_child_at sep is_key,
          ◌>>=◌,
          e,
        )
        refl

Increasing-front :
    (low sep : Bytes) (ks : List Bytes) → Increasing low (ks ++ (sep ∷ [])) → Increasing low ks
Increasing-front low sep [] h = tt
Increasing-front low sep (k ∷ ks) (b, l, h) = (b, l, Increasing-front k sep ks h)

-- Let a root stand over two leaves, the left one with 64 to 127 keys and after them the separator as
-- its last key, all strings of bytes in increasing order. Then `remove` of the separator's key
-- answers its value and leaves the left leaf without it; and on the tree that is left, neither
-- `insert` nor `upsert` of that key comes to an answer, however many trips their loops make.
pub reinsert_never_returns :
    (k : Bytes) (ks vs : List Bytes) (sep value val : Bytes) (right : Leaf) (count fuel : ℕ)
    → IsSorted ((k ∷ ks) ++ (sep ∷ []))
    → length vs ≡ length (k ∷ ks)
    → 64 ≤ length (k ∷ ks)
    → length (k ∷ ks) < max_keys
    → (remove 1 (two_leaves ((k ∷ ks) ++ (sep ∷ [])) (vs ++ (value ∷ [])) sep right count) sep
        ≡ returned (some value, two_leaves (k ∷ ks) vs sep right (uncount_one count)))
      × (insert fuel (two_leaves (k ∷ ks) vs sep right (uncount_one count)) sep val ≡ running)
      × (upsert fuel (two_leaves (k ∷ ks) vs sep right (uncount_one count)) sep val ≡ running)
unfolding insert_rec upsert_rec key_count root_over new_internal
reinsert_never_returns k ks vs sep value val right count fuel sorted parallel half small =
    let below = IsSorted-IsBelow sep (k ∷ ks) sorted in
    let is_key = IsSorted-last sep (k ∷ ks) sorted in
    let front : IsSorted (k ∷ ks) = (sorted.0, Increasing-front k sep ks sorted.1) in
    let left = two_leaves (k ∷ ks) vs sep right (uncount_one count) in
    (
      removes_last (k ∷ ks) vs sep value right count sorted parallel half,
      restarts_for_ever left sep val fuel refl (
          restarts k ks vs sep val right below is_key front small (λ leaf. insert_leaf leaf sep val)
            (insert_gives_up k ks vs sep val right below is_key front small)),
      upserts_for_ever left sep val fuel refl (
          restarts k ks vs sep val right below is_key front small (λ leaf. upsert_leaf leaf sep val)
            (upsert_gives_up k ks vs sep val right below is_key front small)),
    )
