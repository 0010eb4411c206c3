-- ===== src/BTree/Walk.antt =====
-- The walk of `range` along the leaves puts out the entries within the limits.
use mathlib.Core.List.{append-nil}
use hench_db.Prelude.{
  ◌≡◌, refl, sym, ◌∙◌, ap, arith, Bool, true, false, ◌&&◌, not, Option, none, some, List, [], ◌∷◌,
  ◌++◌, if◌then◌else◌, inl, inr, Bool-cases,
}
use hench_db.Bytes.{Bytes, bytes_lt}
use hench_db.Bytes.Order.{bytes_lt_trans, bytes_eq→≡}
use hench_db.BTree.{Leaf}
use hench_db.BTree.Entries.{Entries, Each}
use hench_db.BTree.Chain.{Bound, Exceeds, flat, Exceeds-trans}
use hench_db.BTree.Fits.{zip}
use hench_db.BTree.Range.{
  Limits, already, before_start, after_end, Walk, emit, walk_leaf, walk_leaves,
}
use hench_db.BTree.Ascending.{Ascending, Ascending-lower}

-- The key is within the limits.
unfoldable pub in_range : Limits → Bytes → Bool
in_range lim k =
    not (before_start lim.start lim.start_incl k) && not (after_end lim.end lim.end_incl k)

-- The entries whose keys are within the limits.
unfoldable pub selected : Limits → Entries → Entries
selected lim [] = []
selected lim ((k, v) ∷ es) =
    let rest = selected lim es in if in_range lim k then (k, v) ∷ rest else rest

already_not : (last : Bound) (k : Bytes) → Exceeds last k → already last k ≡ false
unfolding already
already_not none k h = refl
already_not (some s) k h = rw h refl

after_end_stays :
    (end : Option Bytes) (incl : Bool) (k x : Bytes)
    → bytes_lt k x ≡ true
    → after_end end incl k ≡ true
    → after_end end incl x ≡ true
unfolding after_end
after_end_stays none incl k x l h = cc
after_end_stays (some hi) incl k x l h = ground (arith, bytes_lt_trans hi k x, bytes_eq→≡ k hi)

nothing_after :
    (lim : Limits) (k : Bytes) (es : Entries)
    → after_end lim.end lim.end_incl k ≡ true
    → Ascending (some k) es
    → selected lim es ≡ []
unfolding selected in_range
nothing_after lim k [] a h = refl
nothing_after lim k ((x, v) ∷ es) a (l, h) =
    let b = after_end_stays lim.end lim.end_incl k x l a in
    rw b (ground (arith, nothing_after lim x es b h))

-- The entries that the leaves hold.
abbrev pub leaf_entries : List Leaf → Entries
leaf_entries leaves = flat (λ l. zip l.keys l.vals) leaves

-- The `next` of each leaf is set, but for the last one, whose is `last_next`.
abbrev pub next_of : Bool → List Leaf → Bool
next_of last_next [] = last_next
next_of last_next (l ∷ more) = true

abbrev pub Linked : Bool → List Leaf → Type 0
Linked last_next [] = Unit
Linked last_next (l ∷ more) = (l.next ≡ next_of last_next more) × Linked last_next more

-- What the walk over the entries of one leaf, `fs` still to come, has come to.
data Walked (lim : Limits) (es fs : Entries) (w : Walk) : Type 0 where
  over : w.ended ≡ true → w.out ≡ selected lim (es ++ fs) → Walked lim es fs w
  goes_on :
      w.ended ≡ false
      → w.out ++ selected lim fs ≡ selected lim (es ++ fs)
      → Ascending w.last_key fs
      → Walked lim es fs w

module _ (lim : Limits) where
  selected_skip :
      (k v : Bytes) (es : Entries)
      → in_range lim k ≡ false
      → selected lim ((k, v) ∷ es) ≡ selected lim es
  unfolding selected
  selected_skip k v es n = rw (n, if◌then◌else◌) refl

  Walked-skip :
      (k v : Bytes) (es fs : Entries) {w : Walk}
      → in_range lim k ≡ false
      → Walked lim es fs w
      → Walked lim ((k, v) ∷ es) fs w
  unfolding selected
  Walked-skip k v es fs n (over e o) = over e (o ∙ rw (n, if◌then◌else◌) refl)
  Walked-skip k v es fs n (goes_on e o a) = goes_on e (o ∙ rw (n, if◌then◌else◌) refl) a

  Walked-emit :
      (k v : Bytes) (es fs : Entries) {w : Walk}
      → in_range lim k ≡ true
      → Walked lim es fs w
      → Walked lim ((k, v) ∷ es) fs (emit k v w)
  unfolding selected emit
  Walked-emit k v es fs n (over e o) = over e (rw (n, if◌then◌else◌) (ap (λ t. (k, v) ∷ t) o))
  Walked-emit k v es fs n (goes_on e o a) =
      goes_on e (rw (n, if◌then◌else◌) (ap (λ t. (k, v) ∷ t) o)) a

  walk_leaf-Walked :
      (last : Bound) (es fs : Entries)
      → Ascending last (es ++ fs)
      → Walked lim es fs (walk_leaf lim last es)
  unfolding walk_leaf in_range
  walk_leaf-Walked last [] fs h = goes_on refl refl h
  walk_leaf-Walked last ((k, v) ∷ es) fs (l, h) =
      let new = already_not last k l in
      let lower = Ascending-lower last k (es ++ fs) (λ x m. Exceeds-trans last k x l m) h in
      elim (Bool-cases (before_start lim.start lim.start_incl k)) [
        | inl t ↦
            rw (new, t, if◌then◌else◌)
              (Walked-skip k v es fs (rw t refl) (walk_leaf-Walked last es fs lower))
        | inr f ↦ elim (Bool-cases (after_end lim.end lim.end_incl k)) [
          | inl t ↦
              rw (new, f, t, if◌then◌else◌)
                (over refl (
                  sym (
                    selected_skip k v (es ++ fs) (ground arith)
                    ∙ nothing_after lim k (es ++ fs) t h)))
          | inr g ↦
              rw (new, f, g, if◌then◌else◌)
                (Walked-emit k v es fs (rw (f, g) refl) (walk_leaf-Walked (some k) es fs h))
        ]
      ]

  walks_on :
      (leaf : Leaf) (more : List Leaf) (w : Walk)
      → ((last : Bound)
          → Ascending last (leaf_entries more)
          → walk_leaves lim last more ≡ selected lim (leaf_entries more))
      → Walked lim (zip leaf.keys leaf.vals) (leaf_entries more) w
      → (if w.ended then w.out else w.out ++ walk_leaves lim w.last_key more)
        ≡ selected lim (zip leaf.keys leaf.vals ++ leaf_entries more)
  walks_on leaf more w again (over e o) = rw (e, if◌then◌else◌) o
  walks_on leaf more w again (goes_on e o a) =
      rw (e, if◌then◌else◌) (ap (λ t. w.out ++ t) (again w.last_key a) ∙ o)

  follows :
      (leaf : Leaf) (last : Bound) (out : Entries) (more : List Leaf)
      → leaf.next ≡ next_of false more
      → (if leaf.next then out ++ walk_leaves lim last more else out)
        ≡ out ++ walk_leaves lim last more
  unfolding walk_leaves
  follows leaf last out [] e = rw (e, if◌then◌else◌) (sym (append-nil out))
  follows leaf last out (m ∷ more) e = rw (e, if◌then◌else◌) refl

  pub walk_leaves-selected :
      (last : Bound) (leaves : List Leaf)
      → Linked false leaves
      → Ascending last (leaf_entries leaves)
      → walk_leaves lim last leaves ≡ selected lim (leaf_entries leaves)
  unfolding walk_leaves selected
  walk_leaves-selected last [] n h = refl
  walk_leaves-selected last (leaf ∷ more) (e, n) h =
      let w = walk_leaf lim last (zip leaf.keys leaf.vals) in
      ap (λ t. if w.ended then w.out else t) (follows leaf w.last_key w.out more e)
      ∙ walks_on leaf more w (λ l a. walk_leaves-selected l more n a)
          (walk_leaf-Walked last (zip leaf.keys leaf.vals) (leaf_entries more) h)

  -- Entries before the start are not selected.
  pub selected_front :
      (es fs : Entries)
      → Each (λ k. before_start lim.start lim.start_incl k ≡ true) es
      → selected lim (es ++ fs) ≡ selected lim fs
  unfolding selected in_range
  selected_front [] fs h = refl
  selected_front ((k, v) ∷ es) fs (b, h) = rw b (selected_front es fs h)
