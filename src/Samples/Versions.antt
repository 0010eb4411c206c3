-- ===== src/Samples/Versions.antt =====
-- The version buffer.
use hench_db.Prelude.{◌<◌, ◌≡◌, refl, Bool, true, false, Option, some, List, [], ◌∷◌, arith, inl}
use hench_db.Prelude.Int.{pos}
use hench_db.Error.{ok}
use hench_db.Datum.{int}
use hench_db.Mvcc.{Key, Row, Snapshot, without, register, gc_locked, prune, oldest, snapshot_lookup}
use hench_db.Mvcc.Pins.{Pinned}
use hench_db.Mvcc.Install.{
  idle, installing, Write, System, Reach, here, next, record_batch, apply, publish, begin,
  begin_state, release_state, apply_state, publish_state, record_state, record_commit_batch,
  record_one, supersede, unchanged,
}
use hench_db.Mvcc.Isolation.{
  opened, read_pin, snapshot_isolation, repeatable_read, reads_unpublished,
}

-- Rows are compared as the bytes of one store would be: here only empty rows are known to be equal.
abbrev same_empty : Row → Row → Bool
same_empty [] [] = true
same_empty _ _ = false

same_empty_sound : (a b : Row) → same_empty a b ≡ true → a ≡ b
same_empty_sound [] [] h = refl
same_empty_sound [] (d ∷ b) h = cc
same_empty_sound (d ∷ a) b h = cc

abbrev old_row : Row
old_row = int (pos 1) ∷ []

abbrev new_row : Row
new_row = int (pos 2) ∷ []

abbrev the_key : Key
the_key = (116 ∷ [], 1 ∷ [])

abbrev tree : Key → Option Row
tree k = some old_row

abbrev staged : List Write
staged = (the_key, some new_row) ∷ []

-- A snapshot begins, and then a commit installs its one row and publishes it.
abbrev begun : System
begun = begin_state (opened tree)

abbrev recorded : System
recorded = record_state same_empty 1 staged begun

abbrev applied : System
applied = apply_state the_key (some new_row) 1 [] recorded

abbrev published : System
published = publish_state 1 applied

abbrev opened-begun : Reach same_empty (opened tree) begun
opened-begun = next here (begin (opened tree))

-- The states meet only when their definitions are unfolded.
recorded-is : recorded.phase ≡ installing 1 staged
unfolding record_state
recorded-is = refl

applied-is : applied.phase ≡ installing 1 []
unfolding apply_state
applied-is = refl

begun-idle : begun.phase ≡ idle
unfolding begin_state
begun-idle = refl

begun-below : begun.db.visible_epoch < 1
unfolding begin_state
begun-below = omega arith

abbrev begun-published : Reach same_empty begun published
begun-published =
    next
      (next (next here (record_batch begun 1 staged begun-idle begun-below))
        (apply recorded the_key (some new_row) 1 [] recorded-is))
      (publish applied 1 applied-is)

abbrev opened-published : Reach same_empty (opened tree) published
opened-published =
    next
      (next (next opened-begun (record_batch begun 1 staged begun-idle begun-below))
        (apply recorded the_key (some new_row) 1 [] recorded-is))
      (publish applied 1 applied-is)

abbrev reader : Snapshot
reader = record { id = 1; read_epoch = 0 }

begun-Pinned : Pinned reader begun.db.versions.snapshots
unfolding begin_state register
begun-Pinned = inl refl

published-Pinned : Pinned reader published.db.versions.snapshots
unfolding begin_state register record_state record_commit_batch record_one supersede apply_state
    publish_state gc_locked prune oldest unchanged
published-Pinned = inl refl

snapshot_isolation_example : read_pin published reader the_key ≡ ok (published.history 0 the_key)
snapshot_isolation_example =
    snapshot_isolation same_empty same_empty_sound tree reader the_key opened-published
      ((((tt, tt), tt), tt), tt) published-Pinned

repeatable_read_example : read_pin published reader the_key ≡ read_pin begun reader the_key
repeatable_read_example =
    repeatable_read same_empty same_empty_sound tree reader reader the_key opened-begun
      begun-published (tt, tt) (((tt, tt), tt), tt) begun-Pinned published-Pinned refl

-- One snapshot, number 1, when the commit records its row.
reads_unpublished_example :
    snapshot_lookup false
      (some begun.db.visible_epoch)
      (apply_state the_key (some new_row) 1 [] (begin_state (release_state 1 recorded))).db.versions
      the_key
      ((apply_state the_key (some new_row) 1 [] (begin_state (release_state 1 recorded))).db.tree
        the_key)
    ≡ ok (some new_row)
unfolding without begin_state register
reads_unpublished_example = reads_unpublished same_empty begun 1 1 the_key (some new_row) refl
