-- ===== src/Wal/Scan.antt =====
-- The scan of a log that ends in a torn record.
use mathlib.Core.List.{append_assoc, append-nil}
use hench_db.Prelude.{
  ℕ, zero, suc, ◌+◌, ◌-◌, ◌<◌, ◌≤◌, ◌≡◌, refl, ◌∙◌, sym, ap, ◌^◌, Bool, true, false, none, some,
  List, [], ◌∷◌, ◌++◌, length, take, drop, arith, ltb, Bool-cases, length-append, length-drop, ◌==◌,
  if◌then◌else◌, inl, inr,
}
use hench_db.Bytes.{Bytes, le_bytes, from_le}
use hench_db.Bytes.Laws.{from_le-le_bytes}
use hench_db.Error.{ok, err, corrupted}
use hench_db.Error.Reader.{no_shorter, take_append, drop_append}
use hench_db.Codec.{put_many}
use hench_db.Codec.Laws.{AllOf}
use hench_db.Crc.{crc32, crc32_lt}
use hench_db.Wal.{
  Record, put, delete, commit, create_table, drop_table, create_index, drop_index, create_database,
  drop_database, encode_payload, frame, encode_record, decode_record, add_record, add_decoded, scan,
  decode_wal_range,
}
use hench_db.Wal.RecordCodec.{IsRecord, Ends, decode_record-encode_payload}

-- One round of the loop at a header that is whole.
scan_header :
    (fuel n crc : ℕ) (tail : Bytes)
    → n < 2 ^ 32
    → crc < 2 ^ 32
    → scan (suc fuel) false (le_bytes 4 n ++ (le_bytes 4 crc ++ tail)) ≡ (
        if ltb (2 ^ 30) n
        then err corrupted
        else if ltb (length tail) n
        then ok ([], 0)
        else if crc32 (take n tail) == crc
        then add_decoded (decode_record false (take n tail)) (8 + n) (scan fuel false (drop n tail))
        else err corrupted)
unfolding scan le_bytes
scan_header fuel n crc tail h k =
    let len : from_le (take 4 (le_bytes 4 n ++ (le_bytes 4 crc ++ tail))) ≡ n =
      from_le-le_bytes 4 n h in
    let sum : from_le (take 4 (drop 4 (le_bytes 4 n ++ (le_bytes 4 crc ++ tail)))) ≡ crc =
      from_le-le_bytes 4 crc k in
    let long : ltb (length (le_bytes 4 n ++ (le_bytes 4 crc ++ tail))) 8 ≡ false = ground arith in
    simp (len, sum, long) refl

-- The record is one that decodes to itself, and its payload within the limit that a scan accepts.
abbrev pub Fits : Record → Type 0
Fits rec = IsRecord rec × (length (encode_payload rec) ≤ 2 ^ 30)

Ends-nil : (rec : Record) → Ends rec []
Ends-nil (put txn table key row) = tt
Ends-nil (delete txn table key) = tt
Ends-nil (commit txn none) = omega arith
Ends-nil (commit txn (some ts)) = tt
Ends-nil (create_table txn def) = tt
Ends-nil (drop_table txn name) = tt
Ends-nil (create_index txn table name column) = tt
Ends-nil (drop_index txn table name) = tt
Ends-nil (create_database txn name) = tt
Ends-nil (drop_database txn name) = tt

scan-encode_record :
    (fuel : ℕ) (rec : Record) (tail : Bytes)
    → Fits rec
    → scan (suc fuel) false (encode_record rec ++ tail)
      ≡ add_record rec (8 + length (encode_payload rec)) (scan fuel false tail)
unfolding encode_record frame
scan-encode_record fuel rec tail (h, small) =
    let payload = encode_payload rec in
    let whole : decode_record false payload ≡ ok (rec, []) =
      rw append-nil at (decode_record-encode_payload rec [] h (Ends-nil rec)) in
    let within : ltb (2 ^ 30) (length payload) ≡ false = ground arith in
    let same : (crc32 payload == crc32 payload) ≡ true = ground arith in
    rw (append_assoc, append_assoc)
      (scan_header fuel (length payload) (crc32 payload) (payload ++ tail) (omega arith)
          (crc32_lt payload)
        ∙ simp
            (
              within,
              no_shorter payload tail,
              take_append payload tail,
              drop_append payload tail,
              same,
              whole,
            )
            refl)

length-take-le : (k : ℕ) (xs : Bytes) → length (take k xs) ≤ k
length-take-le zero xs = omega arith
length-take-le (suc k) [] = omega arith
length-take-le (suc k) (x ∷ xs) = omega (arith, length-take-le k xs)

take_past : (xs ys : Bytes) (j : ℕ) → take (length xs + j) (xs ++ ys) ≡ xs ++ take j ys
take_past [] ys j = ap (λ n. take n ys) (omega arith)
take_past (x ∷ xs) ys j =
    let next : length (x ∷ xs) + j ≡ suc (length xs + j) = omega arith in
    rw next (ap (◌∷◌ x) (take_past xs ys j))

length-encode_record : (rec : Record) → length (encode_record rec) ≡ 8 + length (encode_payload rec)
unfolding encode_record frame le_bytes
length-encode_record rec = omega arith

-- The part of a record up to the byte `8 + j`.
take-encode_record :
    (rec : Record) (j : ℕ)
    → take (8 + j) (encode_record rec)
      ≡ le_bytes 4 (length (encode_payload rec))
        ++ (le_bytes 4 (crc32 (encode_payload rec)) ++ take j (encode_payload rec))
unfolding encode_record frame le_bytes
take-encode_record rec j =
    let payload = encode_payload rec in
    take_past (le_bytes 4 (length payload) ++ le_bytes 4 (crc32 payload)) payload j

short_scan :
    (legacy : Bool) (fuel : ℕ) (buf : Bytes) → length buf < 8 → scan fuel legacy buf ≡ ok ([], 0)
unfolding scan
short_scan legacy zero buf h = refl
short_scan legacy (suc fuel) buf h =
    let short : ltb (length buf) 8 ≡ true = ground arith in simp short refl

-- A record that is cut off yields nothing.
pub torn_scan :
    (fuel : ℕ) (rec : Record) (k : ℕ)
    → Fits rec
    → k < length (encode_record rec)
    → scan fuel false (take k (encode_record rec)) ≡ ok ([], 0)
unfolding scan
torn_scan zero rec k h lt = refl
torn_scan (suc fuel) rec k (h, small) lt = elim (Bool-cases (ltb k 8)) [
  | inl few ↦ short_scan false (suc fuel) _ (ground (arith, length-take-le k (encode_record rec)))
  | inr many ↦
      let payload = encode_payload rec in
      let j = k - 8 in
      let split : k ≡ 8 + j = ground arith in
      let within : ltb (2 ^ 30) (length payload) ≡ false = ground arith in
      let torn : ltb (length (take j payload)) (length payload) ≡ true =
        ground (arith, length-take-le j payload, length-encode_record rec) in
      rw (split, take-encode_record rec j)
        (scan_header fuel (length payload) (crc32 payload) (take j payload) (omega arith)
            (crc32_lt payload)
          ∙ simp (within, torn) refl)
]

-- As many rounds as there are bytes are enough: more change nothing.
pub scan_enough :
    (n m : ℕ) (legacy : Bool) (buf : Bytes)
    → length buf ≤ n
    → length buf ≤ m
    → scan n legacy buf ≡ scan m legacy buf
unfolding scan
scan_enough zero m legacy buf h k = sym (short_scan legacy m buf (omega arith))
scan_enough (suc n) zero legacy buf h k = short_scan legacy (suc n) buf (omega arith)
scan_enough (suc n) (suc m) legacy buf h k = elim (Bool-cases (ltb (length buf) 8)) [
  | inl few ↦
      short_scan legacy (suc n) buf (ground arith)
      ∙ sym (short_scan legacy (suc m) buf (ground arith))
  | inr many ↦
      let rest = drop (from_le (take 4 buf)) (drop 8 buf) in
      let shorter : length rest < length buf =
        ground (arith, length-drop (from_le (take 4 buf)) (drop 8 buf), length-drop 8 buf) in
      rw (scan_enough n m legacy rest (omega arith) (omega arith)) refl
]

-- Nothing is read from it, in any number of rounds.
abbrev pub YieldsNone : Bytes → Type 0
YieldsNone tail = (fuel : ℕ) → scan fuel false tail ≡ ok ([], 0)

-- Any number of rounds that is not below the number of whole records suffices.
scan_log :
    (fuel : ℕ) (recs : List Record) (tail : Bytes)
    → AllOf Fits recs
    → YieldsNone tail
    → length recs ≤ fuel
    → scan fuel false (put_many encode_record recs ++ tail)
      ≡ ok (recs, length (put_many encode_record recs))
unfolding put_many
scan_log fuel [] tail h none_left enough = none_left fuel
scan_log zero (r ∷ recs) tail h none_left enough = absurd (omega arith)
scan_log (suc fuel) (r ∷ recs) tail (hr, h) none_left enough =
    rw (append_assoc (encode_record r) (put_many encode_record recs) tail) (
      scan-encode_record fuel r _ hr
      ∙ rw
          (
            scan_log fuel recs tail h none_left (omega arith),
            length-append (encode_record r) (put_many encode_record recs),
            length-encode_record r,
          )
          refl)

count_le :
    (recs : List Record) (tail : Bytes) → length recs ≤ length (put_many encode_record recs ++ tail)
unfolding put_many
count_le [] tail = omega arith
count_le (r ∷ recs) tail = rw (append_assoc (encode_record r) (put_many encode_record recs) tail) (
    ground (
      arith,
      count_le recs tail,
      length-append (encode_record r) (put_many encode_record recs ++ tail),
      length-encode_record r,
    ))

pub decode_wal_range_log :
    (recs : List Record) (tail : Bytes)
    → AllOf Fits recs
    → YieldsNone tail
    → decode_wal_range false (put_many encode_record recs ++ tail)
      ≡ ok (recs, length (put_many encode_record recs))
unfolding decode_wal_range
decode_wal_range_log recs tail h none_left = scan_log _ recs tail h none_left (count_le recs tail)

-- A log of whole records and a last one of which only the first bytes were written decodes to the
-- whole records, and the offset returned is where the torn one starts. All the records are within the
-- limits of the format, none of more than 2^30 bytes, and the column types of the tables that they
-- create survive their byte: no BOOL, DATETIME or TIMESTAMP.
pub decode_wal_range-torn :
    (recs : List Record) (rec : Record) (k : ℕ)
    → AllOf Fits recs
    → Fits rec
    → k < length (encode_record rec)
    → decode_wal_range false (put_many encode_record recs ++ take k (encode_record rec))
      ≡ ok (recs, length (put_many encode_record recs))
decode_wal_range-torn recs rec k h f lt =
    decode_wal_range_log recs (take k (encode_record rec)) h (λ fuel. torn_scan fuel rec k f lt)

-- Fewer bytes behind a torn record than it lacks are taken for a part of it.
pub swallowed_scan :
    (fuel : ℕ) (rec : Record) (j : ℕ) (later : Bytes)
    → Fits rec
    → length (take j (encode_payload rec) ++ later) < length (encode_payload rec)
    → scan fuel false (take (8 + j) (encode_record rec) ++ later) ≡ ok ([], 0)
unfolding scan
swallowed_scan zero rec j later h lt = refl
swallowed_scan (suc fuel) rec j later (h, small) lt =
    let payload = encode_payload rec in
    let within : ltb (2 ^ 30) (length payload) ≡ false = ground arith in
    let torn : ltb (length (take j payload ++ later)) (length payload) ≡ true = ground arith in
    rw (take-encode_record rec j, append_assoc, append_assoc)
      (scan_header fuel (length payload) (crc32 payload) (take j payload ++ later) (omega arith)
          (crc32_lt payload)
        ∙ simp (within, torn) refl)
