-- ===== src/BTree/Fits.antt =====
-- The well-formedness of a node: its keys in order and within bounds, its prefix cache and its
-- values parallel to them, not more than `MAX_KEYS` of them, its children between its separators, the
-- `next` of every leaf but the last set.
use hench_db.Prelude.{ℕ, zero, suc, ◌≡◌, ◌≤◌, Bool, true, false, none, some, List, [], ◌∷◌, length}
use hench_db.Bytes.{Bytes}
use hench_db.BTree.{Leaf, Node, BTree, heads_for, last_or, max_keys, key_count}
use hench_db.BTree.Search.{IsKey, IsSorted, Increasing}
use hench_db.BTree.Entries.{Entries, Each-imp}
use hench_db.BTree.Chain.{Bound, Exceeds, AtMost, Within, Chain, flat, Chain-Within, Exceeds-trans}

abbrev pub Ordered : Bound → Bound → List Bytes → Type 0
Ordered low high [] = Unit
Ordered low high (k ∷ ks) = IsKey k × Exceeds low k × AtMost k high × Ordered (some k) high ks

abbrev pub zip : List Bytes → List Bytes → Entries
zip [] vs = []
zip (k ∷ ks) [] = []
zip (k ∷ ks) (v ∷ vs) = (k, v) ∷ zip ks vs

-- A leaf that has a next one ends in the separator after it. (A removal may end this.)
abbrev pub IsTight : Bool → List Bytes → Bound → Type 0
IsTight false ks high = Unit
IsTight true ks none = ⊥
IsTight true ks (some k) = last_or [] ks ≡ k

-- Whether the leaves are to be tight.
abbrev pub Ending : Bool → Bool → List Bytes → Bound → Type 0
Ending false next ks high = Unit
Ending true next ks high = IsTight next ks high

-- Whether there is a bound.
abbrev pub bounded : Bound → Bool
bounded none = false
bounded (some high) = true

-- The `next` of a leaf is set unless no separator comes after it.
pub record LeafFits (tight : Bool) (low high : Bound) (leaf : Leaf) : Type 0 where
  pub ordered : Ordered low high leaf.keys
  pub synced : leaf.heads ≡ heads_for leaf.keys
  pub sized : length leaf.keys ≤ max_keys
  pub parallel : length leaf.vals ≡ length leaf.keys
  pub ending : Ending tight leaf.next leaf.keys high
  pub linked : leaf.next ≡ bounded high

-- All keys below the node are above `low` and at most `high`.
unfoldable pub Fits : Bool → (n : ℕ) → Bound → Bound → Node n → Type 0
unfolding Node
Fits tight zero low high leaf = LeafFits tight low high leaf
Fits tight (suc n) low high node =
    (node.heads ≡ heads_for node.keys)
    × (length node.keys ≤ max_keys)
    × Chain (Fits tight n) low high node.keys node.children

-- The entries below a node, from the left.
unfoldable pub entries_of : (n : ℕ) → Node n → Entries
unfolding Node
entries_of zero leaf = zip leaf.keys leaf.vals
entries_of (suc n) node = flat (entries_of n) node.children

unfoldable pub IsTree : Bool → BTree → Type 0
IsTree tight tree = Fits tight tree.height none none tree.root

unfoldable pub tree_entries : BTree → Entries
tree_entries tree = entries_of tree.height tree.root

Ordered-Increasing :
    (low : Bytes) (high : Bound) (ks : List Bytes) → Ordered (some low) high ks → Increasing low ks
Ordered-Increasing low high [] h = tt
Ordered-Increasing low high (k ∷ ks) (b, e, a, h) = (b, e, Ordered-Increasing k high ks h)

pub Ordered-IsSorted : (low high : Bound) (ks : List Bytes) → Ordered low high ks → IsSorted ks
Ordered-IsSorted low high [] h = tt
Ordered-IsSorted low high (k ∷ ks) (b, e, a, h) = (b, Ordered-Increasing k high ks h)

pub Ordered-zip :
    (low high : Bound) (ks vs : List Bytes) → Ordered low high ks → Within low high (zip ks vs)
Ordered-zip low high [] vs h = tt
Ordered-zip low high (k ∷ ks) [] h = tt
Ordered-zip low high (k ∷ ks) (v ∷ vs) (b, e, a, h) = (
  (e, a),
  Each-imp (zip ks vs) (λ x (s, t). (Exceeds-trans low k x e s, t))
      (Ordered-zip (some k) high ks vs h),
)

pub Fits-Within :
    (tight : Bool) (n : ℕ) (low high : Bound) (node : Node n)
    → Fits tight n low high node
    → Within low high (entries_of n node)
unfolding Fits entries_of
Fits-Within tight zero low high leaf h = Ordered-zip low high leaf.keys leaf.vals h.ordered
Fits-Within tight (suc n) low high node h =
    Chain-Within (Fits tight n) (entries_of n) (Fits-Within tight n) low high node.keys
      node.children h.2

pub Fits-sized :
    (tight : Bool) (n : ℕ) (low high : Bound) (node : Node n)
    → Fits tight n low high node
    → key_count n node ≤ max_keys
unfolding Fits key_count
Fits-sized tight zero low high leaf h = h.sized
Fits-sized tight (suc n) low high node h = h.1
