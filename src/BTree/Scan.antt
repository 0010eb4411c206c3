-- ===== src/BTree/Scan.antt =====
-- `range` gives the entries of the tree that lie within the limits, in key order.
use hench_db.Prelude.{◌≡◌, Bool, true, Option, none, some, List, ◌++◌}
use hench_db.Bytes.{Bytes}
use hench_db.BTree.{Leaf, BTree}
use hench_db.BTree.Search.{IsKey}
use hench_db.BTree.Entries.{Entries, Each}
use hench_db.BTree.Chain.{Bound, Exceeds, AtMost, Chain}
use hench_db.BTree.Fits.{Fits}
use hench_db.BTree.Range.{before_start}
use hench_db.BTree.Ascending.{Ascending}
use hench_db.BTree.Walk.{Linked, leaf_entries}

-- The descent for the start passes only entries before it.
record Begun (start : Option Bytes) (incl : Bool) (all : List Leaf) (es : Entries)
    (result : Option (List Leaf)) : Type 0 where
  leaves : List Leaf
  found : result ≡ some leaves
  passed : Entries
  suffix : (pre : List Leaf) × (all ≡ pre ++ leaves)
  split : es ≡ passed ++ leaf_entries leaves
  earlier : Each (λ k. before_start start incl k ≡ true) passed

-- A start that is a string of bytes.
abbrev pub IsStart : Option Bytes → Type 0
IsStart none = Unit
IsStart (some k) = IsKey k

abbrev InWay : Bound → Bound → Option Bytes → Type 0
InWay low high none = Unit
InWay low high (some k) = Exceeds low k × AtMost k high
