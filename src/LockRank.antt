-- ===== src/LockRank.antt =====
-- crates/engine/src/lock_rank.rs: the ranks of the locks that a thread holds, the last acquired last.
pub mod Sorted
use hench_db.Prelude.{
  ℕ, Bool, true, false, ◌≡◌, Option, none, some, List, [], ◌∷◌, ◌++◌, leb, ◌==◌, ◌||◌,
  if◌then◌else◌,
}

pub data LockRank : Type 0 where
  commit_lock install_frontier wal_stage wal_flush b_tree buffer_pool version_state catalog_auth
        ebr :
      LockRank

-- `#[repr(u8)]`, by which the ranks compare.
unfoldable pub rank_of : LockRank → ℕ
rank_of commit_lock = 1
rank_of install_frontier = 2
rank_of wal_stage = 3
rank_of wal_flush = 4
rank_of b_tree = 5
rank_of buffer_pool = 6
rank_of version_state = 7
rank_of catalog_auth = 8
rank_of ebr = 9

abbrev pub same : LockRank → LockRank → Bool
same a b = rank_of a == rank_of b

-- `max_held`, which is the last of the ranks held.
unfoldable pub max_held : List LockRank → Option LockRank
max_held [] = none
max_held (r ∷ []) = some r
max_held (r ∷ s ∷ held) = max_held (s ∷ held)

unfoldable pub is_held : LockRank → List LockRank → Bool
is_held rank [] = false
is_held rank (r ∷ held) = same r rank || is_held rank held

-- The assertion on the rank held last, whose panic is `none`, and then the push.
unfoldable pub push_above : Option LockRank → LockRank → List LockRank → Option (List LockRank)
push_above none rank held = some (held ++ (rank ∷ []))
push_above (some last) rank held =
    if leb (rank_of last) (rank_of rank) then some (held ++ (rank ∷ [])) else none

unfoldable pub acquire : LockRank → List LockRank → Option (List LockRank)
acquire rank held = push_above (max_held held) rank held

-- Removes the last occurrence: `rposition`, then `remove`.
unfoldable pub drop_guard : LockRank → List LockRank → List LockRank
drop_guard rank [] = []
drop_guard rank (r ∷ held) =
    let rest = drop_guard rank held in
    if is_held rank held then r ∷ rest else if same r rank then held else r ∷ held

-- What a thread does.
pub data Reach : List LockRank → Type 0 where
  none_held : Reach []
  acquired :
      (rank : LockRank) {held after : List LockRank}
      → Reach held
      → acquire rank held ≡ some after
      → Reach after
  dropped : (rank : LockRank) {held : List LockRank} → Reach held → Reach (drop_guard rank held)
