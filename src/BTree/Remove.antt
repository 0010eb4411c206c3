-- ===== src/BTree/Remove.antt =====
-- `remove` on a well-formed tree: the passes end, and the map loses the key and nothing else.
use mathlib.Core.List.{append-nil}
use mathlib.Core.Path.{subst}
use hench_db.Prelude.{
  ℕ, zero, suc, ◌≡◌, ◌≤◌, ◌<◌, ◌+◌, ◌-◌, ◌%◌, ◌^◌, refl, sym, ◌∙◌, ap, arith, Bool, false, Option,
  none, some, List, [], ◌∷◌, ◌++◌, length, get_elem?, ltb, leb, if◌then◌else◌, inl, inr, Bool-cases,
  Option-cases,
}
use hench_db.Bytes.{Bytes}
use hench_db.BTree.{Internal, Node, BTree, heads_for, max_keys}
use hench_db.BTree.Search.{IsKey}
use hench_db.BTree.Entries.{Entries, lookup, erase}
use hench_db.BTree.Chain.{Bound, Exceeds, AtMost, Chain}
use hench_db.BTree.Route.{route}
use hench_db.BTree.Pair.{pair, sum_of-set}
use hench_db.BTree.Fits.{Fits, entries_of, Fits-Within, IsTree, tree_entries}
use hench_db.BTree.Read.{node_position, get_elem?_bound, shorter_small}
use hench_db.BTree.Delete.{Deleted, erase_absent, delete_rec-Deleted}
use hench_db.BTree.Insert.{IsCounted}
use hench_db.BTree.Descent.{◌>>=◌, put_child}
use hench_db.BTree.Siblings.{fullness}
use hench_db.BTree.Loops.{Outcome, returned}
use hench_db.BTree.Fixup.{
  Mended, three, siblings_found, mend_with_right-Mended, mend_with_left-Mended,
}
use hench_db.BTree.Removal.{
  min_keys, mend_with_right, mend_with_left, fix_child, fix_below, fix_pass, fix_passes, node_count,
  only, collapse_root, uncount_one, shrink, remove, delete_rec,
}

-- A pass that did not panic, over a well-formed node.
pub record Fixed (n : ℕ) (lo hi : Bound) (node : Node n) (result : Option (Bool × Node n))
    : Type 0 where
  pub merged : Bool
  pub after : Node n
  pub returned : result ≡ some (merged, after)
  pub fits : Fits false n lo hi after
  pub same_entries : entries_of n after ≡ entries_of n node
  pub counted : (if merged then 1 else 0) + node_count n after ≡ node_count n node

-- The answer of a pass that stops at an internal node.
record Stopped (n : ℕ) (lo hi : Bound) (node : Internal (Node n))
    (result : Option (Bool × Internal (Node n))) : Type 0 where
  mended : Bool × Internal (Node n)
  found : result ≡ some mended
  holds : Mended n lo hi node mended

module _ (n : ℕ) (lo hi : Bound) (node : Internal (Node n))
    (synced : node.heads ≡ heads_for node.keys) (sized : length node.keys ≤ max_keys)
    (chain : Chain (Fits false n) lo hi node.keys node.children) where
  child_at_pair :
      (i : ℕ) {c d : Node n}
      → get_elem? node.children i ≡ some c
      → get_elem? node.children i ≡ some d
      → fullness n c < min_keys
      → fullness n d < min_keys
  child_at_pair i {c} {d} e f h = let same : c ≡ d = cc in rw (sym same) h

  fix_child-Stopped :
      (i : ℕ) {child : Node n}
      → get_elem? node.children i ≡ some child
      → fullness n child < min_keys
      → 1 < length node.children
      → Stopped n lo hi node (fix_child n node i)
  unfolding fix_child
  fix_child-Stopped i e h more = elim (Bool-cases (ltb (suc i) (length node.children))) [
    | inl t ↦
        let p =
          pair (Fits false n) (entries_of n) lo hi node.keys node.children i chain (ground arith) in
        record {
          mended = mend_with_right n node i (three n lo hi node synced sized chain i p);
          found =
              rw (t, if◌then◌else◌, siblings_found n lo hi node synced sized chain i p, ◌>>=◌) refl;
          holds =
              mend_with_right-Mended n lo hi node synced sized chain i p
                (child_at_pair i e p.found_left h);
        }
    | inr f ↦
        let inside = get_elem?_bound node.children i e in
        let before : suc (i - 1) ≡ i = ground arith in
        let p =
          pair (Fits false n) (entries_of n) lo hi node.keys node.children (i - 1) chain
            (omega (arith, before, inside)) in
        record {
          mended = mend_with_left n node (i - 1) (three n lo hi node synced sized chain (i - 1) p);
          found =
              rw (f, if◌then◌else◌, siblings_found n lo hi node synced sized chain (i - 1) p, ◌>>=◌)
                refl;
          holds =
              mend_with_left-Mended n lo hi node synced sized chain (i - 1) p
                (child_at_pair i e (ap (get_elem? node.children) (sym before) ∙ p.found_right) h);
        }
  ]

Stopped→Fixed :
    (n : ℕ) (lo hi : Bound) (node : Node (suc n)) (r : Option (Bool × Node (suc n)))
    → unfold Node in Stopped n lo hi node r → Fixed (suc n) lo hi node r
unfolding Fits entries_of node_count
Stopped→Fixed n lo hi node r s = record {
  merged = s.mended.0;
  after = s.mended.1;
  returned = s.found;
  fits = (s.holds.synced, s.holds.sized, s.holds.chain);
  same_entries = s.holds.same_entries;
  counted = omega (arith, s.holds.counted);
}

pass_unchanged :
    (n : ℕ) (lo hi : Bound) (node : Node n)
    → Fits false n lo hi node
    → Fixed n lo hi node (some (false, node))
pass_unchanged n lo hi node h = record {
  merged = false;
  after = node;
  returned = refl;
  fits = h;
  same_entries = refl;
  counted = omega arith;
}

pub fix_pass-Fixed :
    (key : Bytes) (is_key : IsKey key) (n : ℕ) (lo hi : Bound) (node : Node n)
    → Exceeds lo key
    → AtMost key hi
    → Fits false n lo hi node
    → Fixed n lo hi node (fix_pass n node key)
unfolding fix_pass fix_below Fits entries_of node_count put_child
fix_pass-Fixed key w zero lo hi leaf e a h = pass_unchanged zero lo hi leaf h
fix_pass-Fixed key w (suc n) lo hi node e a (synced, sized, chain) =
    let r =
      route (Fits false n) (entries_of n) (Fits-Within false n) key lo hi node.keys node.children e
        a chain in
    let at =
      node_position (Fits false n) lo hi node key w synced chain
      ∙ r.same_index key r.key_left r.key_right in
    let small =
      shorter_small r.index (length node.children)
        (get_elem?_bound node.children r.index r.found) in
    elim (Bool-cases (leb (length node.children) 1)) [
      | inl t ↦ rw (t, if◌then◌else◌) (pass_unchanged (suc n) lo hi node (synced, sized, chain))
      | inr f ↦ elim (Bool-cases (ltb (fullness n r.child) min_keys)) [
        | inl s ↦
            rw (f, if◌then◌else◌, at, small, r.found, ◌>>=◌, s)
              (Stopped→Fixed n lo hi node _ (
                fix_child-Stopped n lo hi node synced sized chain r.index r.found (ground arith)
                  (ground arith)))
        | inr g ↦
            let x = fix_pass-Fixed key w n r.left r.right r.child r.key_left r.key_right r.holds in
            rw (f, if◌then◌else◌, at, small, r.found, ◌>>=◌, g, x.returned)
              (record {
                merged = x.merged;
                after = put_child node r.index x.after;
                returned = refl;
                fits = (synced, sized, r.changed x.after x.fits);
                same_entries =
                    r.changed_entries x.after
                    ∙ ap (λ t. r.pre ++ (t ++ r.post)) x.same_entries
                    ∙ sym r.entries_of;
                counted = omega (
                  arith,
                  x.counted,
                  sum_of-set (node_count n) node.children r.index r.child x.after r.found,
                );
              })
      ]
    ]

-- The passes over a well-formed node have ended.
record Settled (n : ℕ) (node : Node n) (result : Outcome (Node n)) : Type 0 where
  after : Node n
  ended : result ≡ returned after
  fits : Fits false n none none after
  same_entries : entries_of n after ≡ entries_of n node

counts_some : (n : ℕ) (node : Node n) → 0 < node_count n node
unfolding node_count
counts_some zero leaf = omega arith
counts_some (suc n) node = omega arith

module _ (key : Bytes) (is_key : IsKey key) (n : ℕ) where
  fix_passes-Settled :
      (fuel : ℕ) (node : Node n)
      → Fits false n none none node
      → node_count n node ≤ fuel
      → Settled n node (fix_passes n fuel node key)
  unfolding fix_passes
  fix_passes-Settled zero node h enough = absurd (omega (arith, counts_some n node))
  fix_passes-Settled (suc fuel) node h enough =
      let x = fix_pass-Fixed key is_key n none none node tt tt h in
      elim (Bool-cases x.merged) [
        | inl t ↦
            let count : suc (node_count n x.after) ≡ node_count n node =
              ground (arith, x.counted) in
            let rest = fix_passes-Settled fuel x.after x.fits (omega (arith, count)) in
            rw (x.returned, fix_passes, t)
              (record {
                after = rest.after;
                ended = rest.ended;
                fits = rest.fits;
                same_entries = rest.same_entries ∙ x.same_entries;
              })
        | inr f ↦
            rw (x.returned, fix_passes, f)
              (record {
                after = x.after;
                ended = refl;
                fits = x.fits;
                same_entries = x.same_entries;
              })
      ]

only_cases :
    {C R : Type 0} (Q : R → Type 0) (cs : List C) (single : C → R) (other : R)
    → ((c : C) → cs ≡ c ∷ [] → Q (single c))
    → Q other
    → Q (only cs single other)
unfolding only
only_cases Q [] single other f g = g
only_cases Q (c ∷ []) single other f g = f c refl
only_cases Q (c ∷ d ∷ cs) single other f g = g

alone :
    {C : Type 0} (P : Bound → Bound → C → Type 0) (ks : List Bytes) (c : C)
    → Chain P none none ks (c ∷ [])
    → P none none c
alone P [] c h = h
alone P (k ∷ []) c h = absurd h.4
alone P (k ∷ q ∷ ks) c h = absurd h.4

only_child :
    (n : ℕ) (node : Node (suc n)) (c : Node n)
    → unfold Node in
      node.children ≡ c ∷ []
      → Fits false (suc n) none none node
      → Fits false n none none c × (entries_of n c ≡ entries_of (suc n) node)
unfolding Fits entries_of
only_child n node c e (synced, sized, chain) = (
  alone (Fits false n) node.keys c
      (subst (λ cs. Chain (Fits false n) none none node.keys cs) e chain),
  rw e (sym (append-nil (entries_of n c))),
)

-- What the collapse of a root keeps.
record Collapsed (es : Entries) (count : ℕ) (tree : BTree) : Type 0 where
  fits : IsTree false tree
  same_entries : tree_entries tree ≡ es
  same_count : tree.entries ≡ count

collapse_root-Collapsed :
    (n : ℕ) (node : Node n) (count : ℕ)
    → Fits false n none none node
    → Collapsed (entries_of n node) count (collapse_root n node count)
unfolding collapse_root IsTree tree_entries
collapse_root-Collapsed zero leaf count h = record {
  fits = h;
  same_entries = refl;
  same_count = refl;
}
collapse_root-Collapsed (suc n) node count h =
    only_cases (Collapsed (entries_of (suc n) node) count) node.children
      (λ child. collapse_root n child count)
      (record { height = suc n; root = node; entries = count })
      (λ c e.
        let (f, same) = only_child n node c e h in
        let x = collapse_root-Collapsed n c count f in
        record { fits = x.fits; same_entries = x.same_entries ∙ same; same_count = x.same_count })
      (record { fits = h; same_entries = refl; same_count = refl })

length-erase :
    (key v : Bytes) (es : Entries)
    → lookup key es ≡ some v
    → suc (length (erase key es)) ≡ length es
unfolding lookup erase
length-erase key v [] h = cc
length-erase key v ((k, w) ∷ es) h = ground (arith, length-erase key v es)

-- What `remove` comes to: it ends without a panic and answers the key's value, and the tree left is
-- well formed, counts its entries, and has those of the map without the key.
abbrev pub Removed : Bytes → BTree → Outcome (Option Bytes × BTree) → Type 0
Removed key tree result =
    (after : BTree) × (result ≡ returned (lookup key (tree_entries tree), after))
    × IsTree false after
    × IsCounted after
    × (tree_entries after ≡ erase key (tree_entries tree))

uncounts : (e n m : ℕ) → e ≡ n % 2 ^ 64 → suc m ≡ n → uncount_one e ≡ m % 2 ^ 64
unfolding uncount_one
uncounts e n m h k = omega (arith, h, k)

removes_nothing :
    (fuel : ℕ) (tree : BTree) (key : Bytes)
    → IsCounted tree
    → lookup key (tree_entries tree) ≡ none
    → Deleted tree.height none none key tree.root (delete_rec tree.height tree.root key)
    → Removed key tree (remove fuel tree key)
unfolding remove IsTree IsCounted tree_entries
removes_nothing fuel tree key c e d =
    let same = d.erased ∙ erase_absent key _ e in
    rw (d.returned, remove, e) (_, refl, d.fits, rw same c, d.erased)

removes_one :
    (fuel : ℕ) (tree : BTree) (key value : Bytes)
    → IsKey key
    → IsCounted tree
    → lookup key (tree_entries tree) ≡ some value
    → node_count tree.height tree.root ≤ fuel
    → Deleted tree.height none none key tree.root (delete_rec tree.height tree.root key)
    → Removed key tree (remove fuel tree key)
unfolding remove shrink IsCounted tree_entries
removes_one fuel tree key value w c e enough d =
    let p =
      fix_passes-Settled key w tree.height fuel d.after d.fits
        (omega (arith, d.same_count, enough)) in
    let x = collapse_root-Collapsed tree.height p.after (uncount_one tree.entries) p.fits in
    let same = x.same_entries ∙ p.same_entries ∙ d.erased in
    rw (d.returned, remove, e, shrink, p.ended)
      (
        _,
        refl,
        x.fits,
        x.same_count
            ∙ rw same (
                uncounts tree.entries (length (entries_of tree.height tree.root)) _ c
                  (length-erase key value _ e)),
        same,
      )

-- On a well-formed tree with a right counter, tight leaves or not, `remove` of a string of bytes
-- with fuel for as many passes as there are nodes ends without a panic and answers the key's value;
-- the tree left is well formed, its counter is right, and its entries are the former ones without
-- the key.
pub remove-Removed :
    (fuel : ℕ) (tree : BTree) (key : Bytes)
    → IsTree false tree
    → IsCounted tree
    → IsKey key
    → node_count tree.height tree.root ≤ fuel
    → Removed key tree (remove fuel tree key)
unfolding IsTree tree_entries
remove-Removed fuel tree key h c w enough =
    let d = delete_rec-Deleted key w tree.height none none tree.root tt tt h in
    elim (Option-cases (lookup key (entries_of tree.height tree.root))) [
      | inl e ↦ removes_nothing fuel tree key c e d
      | inr (value, e) ↦ removes_one fuel tree key value w c e enough d
    ]
