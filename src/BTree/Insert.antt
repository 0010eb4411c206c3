-- ===== src/BTree/Insert.antt =====
-- The loops of `insert` and `upsert`: each trip either answers as the map of the entries does or
-- leaves the entries as they are, and where the leaves are tight it answers at the second trip.
use mathlib.Core.List.{append-nil}
use mathlib.Core.Path.{subst}
use hench_db.Prelude.{
  ℕ, suc, ◌≡◌, ◌<◌, ◌%◌, ◌^◌, refl, sym, ◌∙◌, ap, arith, Bool, true, false, Option, none, some,
  length, leb, if◌then◌else◌, inl, inr, Bool-cases,
}
use hench_db.Bytes.{Bytes}
use hench_db.BTree.{Node, BTree, max_keys, key_count, new_internal, heads_for}
use hench_db.BTree.Search.{IsKey}
use hench_db.BTree.Entries.{Entries}
use hench_db.BTree.Fits.{Fits, entries_of, IsTree, tree_entries}
use hench_db.BTree.Descent.{Descend, done, restart, insert_rec, upsert_rec}
use hench_db.BTree.Loops.{Outcome, returned, wrap, count_one, settle, insert, upsert, is_none}
use hench_db.BTree.LeafWrites.{
  InsertEffect, UpsertEffect, InsertEffect-widens, UpsertEffect-widens, insert_leaf-works,
  upsert_leaf-works, length-put_new,
}
use hench_db.BTree.Write.{Wrote, write_rec-Wrote}

-- The counter of the entries, which wraps at 64 bits.
unfoldable pub IsCounted : BTree → Type 0
IsCounted tree = tree.entries ≡ length (tree_entries tree) % 2 ^ 64

pub wrap-IsTree : (tight : Bool) (tree : BTree) → IsTree tight tree → IsTree tight (wrap tree)
unfolding wrap IsTree Fits new_internal heads_for
wrap-IsTree tight tree h = (refl, omega arith, h)

pub wrap_entries : (tree : BTree) → tree_entries (wrap tree) ≡ tree_entries tree
unfolding wrap tree_entries entries_of new_internal
wrap_entries tree = append-nil (entries_of tree.height tree.root)

wrap-IsCounted : (tree : BTree) → IsCounted tree → IsCounted (wrap tree)
unfolding IsCounted
wrap-IsCounted tree c = rw (wrap_entries tree) (unfold wrap in c)

wrap_room : (tree : BTree) → key_count (wrap tree).height (wrap tree).root < max_keys
unfolding wrap key_count new_internal
wrap_room tree = omega arith

counts_one : (e n : ℕ) → e ≡ n % 2 ^ 64 → count_one e ≡ suc n % 2 ^ 64
unfolding count_one
counts_one e n h = omega (arith, h)

-- What one trip round a write's loop comes to: an answer, or the same entries and another trip.
-- Where the leaves are tight, another trip follows only on the wrapping of a full root.
pub data Trip {A : Type 0} (effect : Descend A → Entries → Entries → Type 0) (tight : Bool)
    (tree : BTree) (again : BTree → Outcome (A × BTree)) (result : Outcome (A × BTree))
    : Type 0 where
  answers :
      (a : A) (after : BTree)
      → result ≡ returned (a, after)
      → IsTree tight after
      → IsCounted after
      → effect (done a) (tree_entries tree) (tree_entries after)
      → Trip effect tight tree again result
  repeats :
      (after : BTree)
      → result ≡ again after
      → IsTree tight after
      → IsCounted after
      → tree_entries after ≡ tree_entries tree
      → effect restart (tree_entries tree) (tree_entries after)
      → Trip effect tight tree again result

module _ {A : Type 0} (effect : Descend A → Entries → Entries → Type 0) (is_new : A → Bool)
    (grows : (a : A) (es fs : Entries)
      → effect (done a) es fs
      → length fs ≡ (if is_new a then suc (length es) else length es))
    (tight : Bool) (tree : BTree) (counted : IsCounted tree)
    (again : BTree → Outcome (A × BTree)) where
  count_after :
      (new : Bool) (es fs : Entries)
      → tree.entries ≡ length es % 2 ^ 64
      → length fs ≡ (if new then suc (length es) else length es)
      → (if new then count_one tree.entries else tree.entries) ≡ length fs % 2 ^ 64
  count_after true es fs c g = counts_one tree.entries (length es) c ∙ ap (λ n. n % 2 ^ 64) (sym g)
  count_after false es fs c g = c ∙ ap (λ n. n % 2 ^ 64) (sym g)

  settles :
      (d : Descend A) (root : Node tree.height)
      → Fits tight tree.height none none root
      → effect d (entries_of tree.height tree.root) (entries_of tree.height root)
      → (effect restart (entries_of tree.height tree.root) (entries_of tree.height root)
          → entries_of tree.height root ≡ entries_of tree.height tree.root)
      → Trip effect tight tree again (settle is_new tree again (some (d, root)))
  unfolding settle IsTree IsCounted tree_entries
  settles (done a) root f e same =
      answers a _ refl f
        (count_after (is_new a) (entries_of tree.height tree.root) (entries_of tree.height root)
          counted (grows a _ _ e))
        e
  settles restart root f e same = repeats _ refl f (rw (same e) counted) (same e) e

  settle-Trip :
      (keeps : (es fs : Entries) → effect restart es fs → fs ≡ es)
      {r : Option (Descend A × Node tree.height)}
      → Wrote tight tree.height none none effect (entries_of tree.height tree.root) r
      → Trip effect tight tree again (settle is_new tree again r)
  settle-Trip keeps w = rw w.returned (settles w.answer w.after w.fits w.effected (keeps _ _))

insert_grows :
    (tight : Bool) (key val : Bytes) (b : Bool) (es fs : Entries)
    → InsertEffect tight key val (done b) es fs
    → length fs ≡ (if b then suc (length es) else length es)
insert_grows tight key val true es fs (l, e) = ap length e ∙ length-put_new key val es l
insert_grows tight key val false es fs (v, l, e) = ap length e

upsert_grows :
    (tight : Bool) (key val : Bytes) (prev : Option Bytes) (es fs : Entries)
    → UpsertEffect tight key val (done prev) es fs
    → length fs ≡ (if is_none prev then suc (length es) else length es)
unfolding is_none
upsert_grows tight key val none es fs (l, e, g) = g
upsert_grows tight key val (some v) es fs (l, e, g) = g

insert_descends :
    (tight : Bool) (fuel : ℕ) (tree : BTree) (key val : Bytes)
    → IsKey key
    → IsTree tight tree
    → IsCounted tree
    → key_count tree.height tree.root < max_keys
    → Trip
        (InsertEffect tight key val)
        tight
        tree
        (λ t. insert fuel t key val)
        (insert (suc fuel) tree key val)
unfolding insert insert_rec IsTree
insert_descends tight fuel tree key val w h c room =
    let full : leb max_keys (key_count tree.height tree.root) ≡ false = ground arith in
    rw (full, insert)
      (settle-Trip (InsertEffect tight key val) (λ b. b) (insert_grows tight key val) tight tree c _
        (λ es fs e. e.1)
        (write_rec-Wrote _ (InsertEffect tight key val) tight key w
          (λ low high leaf e a f. insert_leaf-works tight low high leaf key val w e a f)
          (InsertEffect-widens tight key val) tree.height none none tree.root tt tt h room))

upsert_descends :
    (tight : Bool) (fuel : ℕ) (tree : BTree) (key val : Bytes)
    → IsKey key
    → IsTree tight tree
    → IsCounted tree
    → key_count tree.height tree.root < max_keys
    → Trip
        (UpsertEffect tight key val)
        tight
        tree
        (λ t. upsert fuel t key val)
        (upsert (suc fuel) tree key val)
unfolding upsert upsert_rec IsTree
upsert_descends tight fuel tree key val w h c room =
    let full : leb max_keys (key_count tree.height tree.root) ≡ false = ground arith in
    rw (full, upsert)
      (settle-Trip (UpsertEffect tight key val) is_none (upsert_grows tight key val) tight tree c _
        (λ es fs e. e.1)
        (write_rec-Wrote _ (UpsertEffect tight key val) tight key w
          (λ low high leaf e a f. upsert_leaf-works tight low high leaf key val w e a f)
          (UpsertEffect-widens tight key val) tree.height none none tree.root tt tt h room))

-- What a write that ended did: it answered, and left a tree whose leaves are tight.
abbrev pub Ended :
    {A : Type 0} → (Descend A → Entries → Entries → Type 0) → BTree → Outcome (A × BTree) → Type 0
Ended {A} effect tree result =
    (a : A) × (after : BTree) × (result ≡ returned (a, after))
    × IsTree true after
    × IsCounted after
    × effect (done a) (tree_entries tree) (tree_entries after)

Ended-wrap :
    {A : Type 0} (effect : Descend A → Entries → Entries → Type 0) (tree : BTree)
    {result : Outcome (A × BTree)}
    → Ended effect (wrap tree) result
    → Ended effect tree result
Ended-wrap effect tree (a, after, e, t, c, eff) = (
  a,
  after,
  e,
  t,
  c,
  subst (λ es. effect (done a) es (tree_entries after)) (wrap_entries tree) eff,
)

Trip→Ended :
    {A : Type 0} (effect : Descend A → Entries → Entries → Type 0) (tree : BTree)
    {again : BTree → Outcome (A × BTree)} {result : Outcome (A × BTree)}
    → ((es fs : Entries) → effect restart es fs → ⊥)
    → Trip effect true tree again result
    → Ended effect tree result
Trip→Ended effect tree never (answers a after e t c eff) = (a, after, e, t, c, eff)
Trip→Ended effect tree never (repeats after e t c s eff) = absurd (never _ _ eff)

insert_ends :
    (fuel : ℕ) (tree : BTree) (key val : Bytes)
    → IsKey key
    → IsTree true tree
    → IsCounted tree
    → key_count tree.height tree.root < max_keys
    → Ended (InsertEffect true key val) tree (insert (suc fuel) tree key val)
insert_ends fuel tree key val w h c room =
    Trip→Ended (InsertEffect true key val) tree (λ es fs e. let t = e.0 in cc)
      (insert_descends true fuel tree key val w h c room)

upsert_ends :
    (fuel : ℕ) (tree : BTree) (key val : Bytes)
    → IsKey key
    → IsTree true tree
    → IsCounted tree
    → key_count tree.height tree.root < max_keys
    → Ended (UpsertEffect true key val) tree (upsert (suc fuel) tree key val)
upsert_ends fuel tree key val w h c room =
    Trip→Ended (UpsertEffect true key val) tree (λ es fs e. let t = e.0 in cc)
      (upsert_descends true fuel tree key val w h c room)

-- On a well-formed tree whose leaves are tight, with its counter right, two trips round the loop
-- are enough for `insert` of a string of bytes: it does not panic and answers whether the key is
-- new, the tree's entries are then those of the map with a new key put, and the tree is again
-- well formed with tight leaves and a right counter.
pub insert-Ended :
    (fuel : ℕ) (tree : BTree) (key val : Bytes)
    → IsTree true tree
    → IsCounted tree
    → IsKey key
    → Ended (InsertEffect true key val) tree (insert (suc (suc fuel)) tree key val)
unfolding insert
insert-Ended fuel tree key val h c w =
    elim (Bool-cases (leb max_keys (key_count tree.height tree.root))) [
      | inl t ↦
          rw (t, insert)
            (Ended-wrap (InsertEffect true key val) tree (
              insert_ends fuel (wrap tree) key val w (wrap-IsTree true tree h)
                (wrap-IsCounted tree c) (wrap_room tree)))
      | inr f ↦ insert_ends (suc fuel) tree key val w h c (ground arith)
    ]

-- On a well-formed tree whose leaves are tight, with its counter right, two trips round the loop
-- are enough for `upsert` of a string of bytes: it does not panic and answers the key's former
-- value, the tree's entries are then those of the map with the key put, and the tree is again well
-- formed with tight leaves and a right counter.
pub upsert-Ended :
    (fuel : ℕ) (tree : BTree) (key val : Bytes)
    → IsTree true tree
    → IsCounted tree
    → IsKey key
    → Ended (UpsertEffect true key val) tree (upsert (suc (suc fuel)) tree key val)
unfolding upsert
upsert-Ended fuel tree key val h c w =
    elim (Bool-cases (leb max_keys (key_count tree.height tree.root))) [
      | inl t ↦
          rw (t, upsert)
            (Ended-wrap (UpsertEffect true key val) tree (
              upsert_ends fuel (wrap tree) key val w (wrap-IsTree true tree h)
                (wrap-IsCounted tree c) (wrap_room tree)))
      | inr f ↦ upsert_ends (suc fuel) tree key val w h c (ground arith)
    ]
