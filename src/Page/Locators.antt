-- ===== src/Page/Locators.antt =====
-- crates/engine/src/page.rs: the locator of a wide row stands in a tree where the rows themselves do.
use mathlib.Core.List.{append-nil}
use hench_db.Prelude.{
  ℕ, ◌≡◌, ◌<◌, ◌^◌, refl, sym, ◌∙◌, ap, true, false, List, [], ◌∷◌, ◌++◌, length, take, drop,
  if◌then◌else◌, arith,
}
use hench_db.Bytes.{Bytes, le_bytes}
use hench_db.Bytes.Laws.{length-le_bytes, from_le-le_bytes}
use hench_db.Datum.{Datum, null, int, float, text, bool, date_time, encode}
use hench_db.Error.{ok}
use hench_db.Error.Reader.{take_append, drop_append}
use hench_db.Page.{Locator, encode_locator, is_locator, decode_locator}
use hench_db.Table.{encode_row}

tag_small : (d : Datum) (rest : Bytes) → is_locator (encode d ++ rest) ≡ false
unfolding is_locator encode
tag_small null rest = ground arith
tag_small (int v) rest = ground arith
tag_small (float v) rest = ground arith
tag_small (text s) rest = ground arith
tag_small (bool b) rest = ground arith
tag_small (date_time v) rest = ground arith

is_locator-encode_row : (row : List Datum) → is_locator (encode_row row) ≡ false
unfolding encode_row is_locator
is_locator-encode_row [] = refl
is_locator-encode_row (d ∷ row) = tag_small d (encode_row row)

is_locator-encode_locator : (loc : Locator) → is_locator (encode_locator loc) ≡ true
unfolding is_locator encode_locator le_bytes
is_locator-encode_locator loc = refl

take_from : (n : ℕ) (xs ys : Bytes) → length xs ≡ n → take n (xs ++ ys) ≡ xs
take_from n xs ys e = rw (sym e) (take_append xs ys)

drop_from : (n : ℕ) (xs ys : Bytes) → length xs ≡ n → drop n (xs ++ ys) ≡ ys
drop_from n xs ys e = rw (sym e) (drop_append xs ys)

page_bytes : (loc : Locator) → take 8 (drop 2 (encode_locator loc)) ≡ le_bytes 8 loc.page
unfolding encode_locator
page_bytes loc =
    take_from 8 (le_bytes 8 loc.page) (le_bytes 4 loc.slot) (length-le_bytes 8 loc.page)

take_all : (n : ℕ) (xs : Bytes) → length xs ≡ n → take n xs ≡ xs
take_all n xs e = ap (take n) (sym (append-nil xs)) ∙ take_from n xs [] e

slot_bytes : (loc : Locator) → take 4 (drop 10 (encode_locator loc)) ≡ le_bytes 4 loc.slot
unfolding encode_locator
slot_bytes loc =
    ap (take 4)
      (drop_from 8 (le_bytes 8 loc.page) (le_bytes 4 loc.slot) (length-le_bytes 8 loc.page))
    ∙ take_all 4 (le_bytes 4 loc.slot) (length-le_bytes 4 loc.slot)

-- A locator of a 64-bit page and a 32-bit slot is decoded as it was encoded. What is in the tree is
-- told apart by `is_locator`, which holds of every encoded locator and of no encoded row.
pub decode_locator-encode_locator :
    (loc : Locator) (row : List Datum)
    → loc.page < 2 ^ 64
    → loc.slot < 2 ^ 32
    → (decode_locator (encode_locator loc) ≡ ok loc)
      × (is_locator (encode_locator loc) ≡ true)
      × (is_locator (encode_row row) ≡ false)
unfolding decode_locator
decode_locator-encode_locator loc row p s = (
  rw (
    is_locator-encode_locator loc,
    if◌then◌else◌,
    page_bytes loc,
    slot_bytes loc,
    from_le-le_bytes 8 loc.page p,
    from_le-le_bytes 4 loc.slot s,
  ),
  is_locator-encode_locator loc,
  is_locator-encode_row row,
)
