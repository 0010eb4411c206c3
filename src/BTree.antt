-- ===== src/BTree.antt =====
-- crates/engine/src/btree.rs: the B+ tree, run by one thread at a time. Latches, versions and
-- retirement are the matter of Latch and Ebr; a node is here its body, and a tree of nodes stands
-- for what the `Arc`s reach.
--
-- All leaves of a tree have one depth, so a node's type is its height, and the source's
-- `unreachable!` arms, where a leaf meets an internal node, cannot be written. A panic on an index
-- is `none`.
pub mod Search
pub mod Range
pub mod Scan
pub mod InPlace
pub mod Ascending
pub mod Walk
pub mod Linked
pub mod Append
pub mod Mend
pub mod Livelock
pub mod Remove
pub mod Fixup
pub mod Delete
pub mod BorrowLeft
pub mod Cut
pub mod Pair
pub mod Siblings
pub mod Removal
pub mod Insert
pub mod Loops
pub mod LeafWrites
pub mod Write
pub mod Split
pub mod Read
pub mod Fits
pub mod Leaves
pub mod Route
pub mod Chain
pub mod Entries
pub mod Descent
use hench_db.Prelude.{
  ℕ, zero, suc, ◌+◌, ◌/◌, Bool, true, false, ◌&&◌, ◌||◌, not, Option, none, some, List, [], ◌∷◌,
  ◌++◌, map, length, get_elem?, get_or, set, take, drop, ltb, leb, ◌==◌, if◌then◌else◌,
}
use hench_db.Bytes.{Bytes, bytes_lt, bytes_eq, from_be}

abbrev pub max_keys : ℕ
max_keys = 128

-- `[0u8; n]` with the first `n` bytes of the key copied over its front.
unfoldable pub zero_padded : ℕ → Bytes → Bytes
zero_padded zero key = []
zero_padded (suc n) [] = 0 ∷ zero_padded n []
zero_padded (suc n) (b ∷ key) = b ∷ zero_padded n key

unfoldable pub key_head : Bytes → ℕ
key_head key = from_be 0 (zero_padded 4 key)

unfoldable pub heads_for : List Bytes → List ℕ
heads_for keys = map key_head keys

-- The test of one step of `lower_bound`.
unfoldable pub below : List Bytes → List ℕ → Bytes → ℕ → ℕ → Bool
below keys heads key h mid =
    ltb (get_or heads mid 0) h || ((get_or heads mid 0 == h) && bytes_lt (get_or keys mid []) key)

-- The loop from `lo` to `hi`, whose fuel is the room between them.
unfoldable pub lower_loop : ℕ → (ℕ → Bool) → ℕ → ℕ → ℕ
lower_loop zero test lo hi = lo
lower_loop (suc fuel) test lo hi =
    let mid = (lo + hi) / 2 in
    let right = lower_loop fuel test (suc mid) hi in
    let left = lower_loop fuel test lo mid in
    if ltb lo hi then (if test mid then right else left) else lo

unfoldable pub shorter : ℕ → ℕ → ℕ
shorter a b = if leb a b then a else b

unfoldable pub lower_bound : List Bytes → List ℕ → Bytes → ℕ
lower_bound keys heads key =
    let n = shorter (length keys) (length heads) in
    lower_loop n (below keys heads key (key_head key)) 0 n

pub record Leaf : Type 0 where
  pub keys : List Bytes
  pub heads : List ℕ
  pub vals : List Bytes
  -- `next.is_some()`
  pub next : Bool

pub record Internal (Child : Type 0) : Type 0 where
  pub keys : List Bytes
  pub heads : List ℕ
  pub children : List Child

-- The nodes of a height: a leaf, or an internal node over the height below.
unfoldable pub Node : ℕ → Type 0
Node zero = Leaf
Node (suc n) = Internal (Node n)

pub record BTree : Type 0 where
  pub height : ℕ
  pub root : Node height
  pub entries : ℕ

unfoldable pub new_leaf_with : List Bytes → List Bytes → Bool → Leaf
new_leaf_with keys vals next = record {
  keys = keys;
  heads = heads_for keys;
  vals = vals;
  next = next;
}

unfoldable pub new_internal : {C : Type 0} → List Bytes → List C → Internal C
new_internal keys children = record { keys = keys; heads = heads_for keys; children = children }

unfoldable pub BTree_new : BTree
unfolding Node
BTree_new = record { height = 0; root = new_leaf_with [] [] false; entries = 0 }

unfoldable pub key_count : (n : ℕ) → Node n → ℕ
unfolding Node
key_count zero leaf = length leaf.keys
key_count (suc n) node = length node.keys

-- `Vec::insert`, whose index no caller puts past the end.
unfoldable pub insert_at {ℓ} : {A : Type ℓ} → ℕ → A → List A → List A
insert_at zero x xs = x ∷ xs
insert_at (suc i) x [] = x ∷ []
insert_at (suc i) x (y ∷ xs) = y ∷ insert_at i x xs

-- `Vec::remove`, whose index is in range.
unfoldable pub remove_at {ℓ} : {A : Type ℓ} → ℕ → List A → List A
remove_at i [] = []
remove_at zero (y ∷ xs) = xs
remove_at (suc i) (y ∷ xs) = y ∷ remove_at i xs

-- `idx < keys.len() && keys[idx] == key`.
unfoldable pub holds : List Bytes → ℕ → Bytes → Bool
holds keys idx key = ltb idx (length keys) && bytes_eq (get_or keys idx []) key

-- `keys.last()`, or the default where there is none.
unfoldable pub last_or {ℓ} : {A : Type ℓ} → A → List A → A
last_or d [] = d
last_or d (k ∷ keys) = last_or k keys

-- `next.is_some() && !keys.is_empty() && key > keys.last()`.
unfoldable pub past_end : Leaf → Bytes → Bool
past_end leaf key = leaf.next && (ltb 0 (length leaf.keys) && bytes_lt (last_or [] leaf.keys) key)
