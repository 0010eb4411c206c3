-- ===== src/BTree/Fixup.antt =====
-- A fix-up pass keeps the entries and the well-formedness of the tree, and takes a node away
-- exactly when it says so.
use hench_db.Prelude.{
  ℕ, zero, suc, ◌≡◌, ◌≤◌, ◌<◌, ◌+◌, ◌-◌, refl, sym, ◌∙◌, ap, arith, Bool, true, false, some, List,
  [], ◌∷◌, ◌++◌, length, length-set, get_or, get_elem?, set, take, drop, take-append-drop, ltb,
  if◌then◌else◌, inl, inr, Bool-cases,
}
use hench_db.Bytes.{Bytes}
use hench_db.BTree.{Internal, Node, heads_for, key_head, max_keys}
use hench_db.BTree.Search.{get_or-heads_for}
use hench_db.BTree.Chain.{Bound, Chain, flat}
use hench_db.BTree.Pair.{Pair, sum_of-unlinked, sum_of-set}
use hench_db.BTree.Fits.{Fits, entries_of}
use hench_db.BTree.Mend.{Around, both, fuse-Fits, borrow_from_right-Around}
use hench_db.BTree.BorrowLeft.{borrow_from_left-Around}
use hench_db.BTree.Delete.{heads_for-remove_at, length-remove_at}
use hench_db.BTree.Descent.{◌>>=◌}
use hench_db.BTree.Siblings.{
  Siblings, fullness, borrow_from_right, borrow_from_left, fuse, reseat, unlink, all_but_last,
  last_part,
}
use hench_db.BTree.Removal.{
  min_keys, siblings_at, mend_with_right, mend_with_left, sum_of, node_count,
}

sum_of-append :
    {C : Type 0} (f : C → ℕ) (cs ds : List C) → sum_of f (cs ++ ds) ≡ sum_of f cs + sum_of f ds
unfolding sum_of
sum_of-append f [] ds = omega arith
sum_of-append f (c ∷ cs) ds = omega (arith, sum_of-append f cs ds)

sum_of_cut :
    {C : Type 0} (f : C → ℕ) (n : ℕ) (cs : List C)
    → sum_of f (take n cs) + sum_of f (drop n cs) ≡ sum_of f cs
sum_of_cut f n cs =
    sym (sum_of-append f (take n cs) (drop n cs)) ∙ ap (sum_of f) (take-append-drop n cs)

fuse_count :
    (n : ℕ) (three : Siblings n)
    → suc (node_count n (fuse n three)) ≡ node_count n three.0 + node_count n three.2
unfolding node_count fuse
fuse_count zero three = refl
fuse_count (suc n) (left, sep, right) =
    omega (arith, sum_of-append (node_count n) left.children right.children)

abbrev two_counts : (n : ℕ) → Siblings n → ℕ
two_counts n three = node_count n three.0 + node_count n three.2

borrow_from_right_count :
    (n : ℕ) (three : Siblings n) → two_counts n (borrow_from_right n three) ≡ two_counts n three
unfolding node_count borrow_from_right
borrow_from_right_count zero three = refl
borrow_from_right_count (suc n) (left, sep, right) = omega (
  arith,
  sum_of-append (node_count n) left.children (take 1 right.children),
  sum_of_cut (node_count n) 1 right.children,
)

borrow_from_left_count :
    (n : ℕ) (three : Siblings n) → two_counts n (borrow_from_left n three) ≡ two_counts n three
unfolding node_count borrow_from_left all_but_last last_part
borrow_from_left_count zero three = refl
borrow_from_left_count (suc n) (left, sep, right) = omega (
  arith,
  sum_of-append (node_count n) (drop (length left.children - 1) left.children) right.children,
  sum_of_cut (node_count n) (length left.children - 1) left.children,
)

-- An internal node at which two siblings have been mended.
pub record Mended (n : ℕ) (lo hi : Bound) (node : Internal (Node n))
    (result : Bool × Internal (Node n)) : Type 0 where
  pub synced : result.1.heads ≡ heads_for result.1.keys
  pub sized : length result.1.keys ≤ max_keys
  pub chain : Chain (Fits false n) lo hi result.1.keys result.1.children
  pub same_entries : flat (entries_of n) result.1.children ≡ flat (entries_of n) node.children
  pub counted :
      (if result.0 then 1 else 0) + sum_of (node_count n) result.1.children
      ≡ sum_of (node_count n) node.children

heads_for-set :
    (j : ℕ) (s : Bytes) (ks : List Bytes)
    → set (heads_for ks) j (key_head s) ≡ heads_for (set ks j s)
unfolding heads_for
heads_for-set j s [] = refl
heads_for-set zero s (k ∷ ks) = refl
heads_for-set (suc j) s (k ∷ ks) = ap (λ t. key_head k ∷ t) (heads_for-set j s ks)

get_elem?-set_next :
    {A : Type 0} (xs : List A) (j : ℕ) (x : A)
    → get_elem? (set xs j x) (suc j) ≡ get_elem? xs (suc j)
get_elem?-set_next [] j x = refl
get_elem?-set_next (y ∷ xs) zero x = refl
get_elem?-set_next (y ∷ xs) (suc j) x = get_elem?-set_next xs j x

module _ (n : ℕ) (lo hi : Bound) (node : Internal (Node n))
    (synced : node.heads ≡ heads_for node.keys) (sized : length node.keys ≤ max_keys)
    (chain : Chain (Fits false n) lo hi node.keys node.children) (j : ℕ)
    (p : Pair (Fits false n) (entries_of n) lo hi node.keys node.children j) where
  abbrev pub three : Siblings n
  three = (p.left, (get_or node.keys j [], get_or node.heads j 0), p.right)

  pub siblings_found : siblings_at n node j ≡ some three
  unfolding siblings_at
  siblings_found = rw (p.found_left, ◌>>=◌, p.found_right, ◌>>=◌) refl

  three-Around : Around n p.lo p.hi three
  three-Around =
      let head = ap (λ hs. get_or hs j 0) synced ∙ get_or-heads_for node.keys j p.in_range in
      let s = p.at_sep in
      record {
        sep_key = rw s p.sep_key;
        sep_head = head;
        sep_low = rw s p.sep_low;
        sep_high = rw s p.sep_high;
        lower = rw s p.holds_left;
        upper = rw s p.holds_right;
      }

  reseat-Mended :
      (parts : Siblings n)
      → Around n p.lo p.hi parts
      → both n parts ≡ both n three
      → two_counts n parts ≡ two_counts n three
      → Mended n lo hi node (false, reseat node j parts)
  unfolding reseat
  reseat-Mended (left, (s, head), right) a same count = record {
    synced = rw (a.sep_head, synced) (heads_for-set j s node.keys);
    sized = omega (arith, sized, length-set node.keys j s);
    chain = p.reseated left s right a.sep_key a.sep_low a.sep_high a.lower a.upper;
    same_entries =
        p.reseated_entries left right ∙ ap (λ t. p.pre ++ (t ++ p.post)) same ∙ sym p.entries_of;
    counted = omega (
      arith,
      count,
      sum_of-set (node_count n) node.children j p.left left p.found_left,
      sum_of-set (node_count n) (set node.children j left) (suc j) p.right right
          (get_elem?-set_next node.children j left ∙ p.found_right),
    );
  }

  unlink-Mended :
      (fused : Node n)
      → Fits false n p.lo p.hi fused
      → entries_of n fused ≡ both n three
      → suc (node_count n fused) ≡ two_counts n three
      → Mended n lo hi node (true, unlink node j fused)
  unfolding unlink
  unlink-Mended fused f same count = record {
    synced = rw synced (heads_for-remove_at j node.keys);
    sized = omega (arith, sized, length-remove_at j node.keys);
    chain = p.unlinked fused f;
    same_entries =
        p.unlinked_entries fused ∙ ap (λ t. p.pre ++ (t ++ p.post)) same ∙ sym p.entries_of;
    counted = omega (
      arith,
      count,
      sum_of-unlinked (node_count n) node.children j fused p.left p.right p.found_left
          p.found_right,
    );
  }

  fuse-Mended :
      fullness n p.left + fullness n p.right ≤ max_keys
      → Mended n lo hi node (true, unlink node j (fuse n three))
  fuse-Mended small =
      let (f, e) = fuse-Fits n p.lo p.hi three three-Around small in
      unlink-Mended (fuse n three) f e (fuse_count n three)

  pub mend_with_right-Mended :
      fullness n p.left < min_keys → Mended n lo hi node (mend_with_right n node j three)
  unfolding mend_with_right
  mend_with_right-Mended sparse = elim (Bool-cases (ltb min_keys (fullness n p.right))) [
    | inl t ↦
        let (a, e) =
          borrow_from_right-Around n p.lo p.hi three three-Around (omega (arith, sparse))
            (ground arith) in
        rw (t, if◌then◌else◌) (reseat-Mended _ a e (borrow_from_right_count n three))
    | inr f ↦ rw (f, if◌then◌else◌) (fuse-Mended (ground arith))
  ]

  pub mend_with_left-Mended :
      fullness n p.right < min_keys → Mended n lo hi node (mend_with_left n node j three)
  unfolding mend_with_left
  mend_with_left-Mended sparse = elim (Bool-cases (ltb min_keys (fullness n p.left))) [
    | inl t ↦
        let (a, e) =
          borrow_from_left-Around n p.lo p.hi three three-Around (ground arith)
            (omega (arith, sparse)) in
        rw (t, if◌then◌else◌) (reseat-Mended _ a e (borrow_from_left_count n three))
    | inr f ↦ rw (f, if◌then◌else◌) (fuse-Mended (ground arith))
  ]
