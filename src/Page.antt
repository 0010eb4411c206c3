-- ===== src/Page.antt =====
-- crates/engine/src/page.rs: the locator that stands in a tree for a row in the page pool.
pub mod Locators
use hench_db.Prelude.{ℕ, ◌&&◌, Bool, ◌∷◌, ◌++◌, length, get_or, drop, take, ◌==◌, if◌then◌else◌}
use hench_db.Bytes.{Bytes, le_bytes, from_le}
use hench_db.Error.{Result, ok, err, corrupted}

pub record Locator : Type 0 where
  pub page : ℕ
  pub slot : ℕ

-- LOCATOR_TAG, LOCATOR_MAGIC and LOCATOR_LEN.
abbrev pub locator_tag : ℕ
locator_tag = 255

abbrev pub locator_magic : ℕ
locator_magic = 80

abbrev pub locator_len : ℕ
locator_len = 14

unfoldable pub encode_locator : Locator → Bytes
encode_locator loc = locator_tag ∷ locator_magic ∷ (le_bytes 8 loc.page ++ le_bytes 4 loc.slot)

unfoldable pub is_locator : Bytes → Bool
is_locator buf =
    (length buf == locator_len)
    && ((get_or buf 0 0 == locator_tag) && (get_or buf 1 0 == locator_magic))

unfoldable pub decode_locator : Bytes → Result Locator
decode_locator buf =
    if is_locator buf
    then ok (record { page = from_le (take 8 (drop 2 buf)); slot = from_le (take 4 (drop 10 buf)) })
    else err corrupted
