-- ===== src/Samples/Replays.antt =====
-- The replay of a log.
use hench_db.Prelude.{◌≡◌, refl, some, List, [], ◌∷◌, ◌++◌}
use hench_db.Wal.{Record, put, delete}
use hench_db.Replay.{txn_of, committed_txn, none_pending, applied}
use hench_db.Replay.Committed.{Txn, log_of, works, applied-log_of}

abbrev first : Txn
first = record {
  number = 1;
  work = put 1 (117 ∷ []) (1 ∷ []) (9 ∷ []) ∷ delete 1 (117 ∷ []) (2 ∷ []) ∷ [];
  ts = some 7;
}

abbrev unfinished : List Record
unfinished = put 2 (117 ∷ []) (3 ∷ []) (8 ∷ []) ∷ []

applied-log_of_example :
    applied none_pending (log_of (first ∷ []) ++ unfinished) ≡ works (first ∷ [])
unfolding txn_of committed_txn
applied-log_of_example =
    applied-log_of (first ∷ []) 2 unfinished (((refl, refl), ((refl, refl), tt)), tt)
      ((refl, refl), tt)
