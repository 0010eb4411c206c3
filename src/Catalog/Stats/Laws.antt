-- ===== src/Catalog/Stats/Laws.antt =====
-- Statistics are read back as they were written.
use mathlib.Core.List.{append_assoc, append-nil}
use hench_db.Prelude.{
  ℕ, ◌≤◌, ◌≡◌, refl, ◌∙◌, ap, true, false, Option, List, [], ◌∷◌, ◌++◌, length, arith, ltb,
  if◌then◌else◌,
}
use hench_db.Bytes.{Bytes, le_bytes, bytes_lt}
use hench_db.Word.{IsU64}
use hench_db.Utf8.{IsText}
use hench_db.Error.Reader.{take_le, continue, take_n-append, take_le-le_bytes}
use hench_db.Datum.{Datum, IsDatum, encode, decode, from_utf8}
use hench_db.Datum.RoundTrip.{decode-encode}
use hench_db.Codec.{put_str, put_many, at_most, put_list, take_list, put_option, take_option}
use hench_db.Codec.Laws.{Reads, AllOf, OnSome, take_list-put_list, take_option-put_option}
use hench_db.Catalog.{ColumnStats, TableStats, insert}
use hench_db.Catalog.Stats.{
  mcv_limit, take_name, put_mcv, take_mcv, put_column_stats, take_column_stats, take_columns,
  encode_stats, decode_stats,
}

abbrev IsMcv : Datum × ℕ → Type 0
IsMcv (d, n) = IsDatum d × IsU64 n

abbrev IsColumnStats : Bytes × ColumnStats → Type 0
IsColumnStats (name, c) =
    IsText name
    × (length name ≤ 1024)
    × IsU64 c.null_count
    × IsU64 c.distinct_count
    × IsU64 c.total
    × OnSome IsDatum c.min
    × OnSome IsDatum c.max
    × (length c.mcv ≤ mcv_limit)
    × AllOf IsMcv c.mcv

-- The name is below those of the columns.
abbrev Below : Bytes × ColumnStats → List (Bytes × ColumnStats) → Type 0
Below a = AllOf (λ (b : Bytes × ColumnStats). bytes_lt a.0 b.0 ≡ true)

abbrev InOrder : List (Bytes × ColumnStats) → Type 0
InOrder [] = Unit
InOrder (c ∷ cs) = Below c cs × InOrder cs

abbrev pub IsTableStats : TableStats → Type 0
IsTableStats s =
    (s.row_count ≤ 1_000_000_000)
    × IsU64 s.analyzed_at
    × (length s.columns ≤ 10_000)
    × AllOf IsColumnStats s.columns
    × InOrder s.columns

take_mcv-put_mcv : (e : Datum × ℕ) → IsMcv e → Reads take_mcv (put_mcv e) e
unfolding take_mcv put_mcv
take_mcv-put_mcv (d, n) (h, k) rest = rw (append_assoc (encode d) (le_bytes 8 n) rest) (
    rw (decode-encode d (le_bytes 8 n ++ rest) h, continue)
      (rw (take_le-le_bytes 8 n rest k, continue)))

pub Reads-datum : (d : Datum) → IsDatum d → Reads decode (encode d) d
Reads-datum d h rest = decode-encode d rest h

take_name-put_str : (s : Bytes) → IsText s → length s ≤ 1024 → Reads take_name (put_str s) s
unfolding take_name put_str from_utf8 at_most
take_name-put_str s utf8 short rest =
    let within : ltb 1024 (length s) ≡ false = ground arith in
    rw (append_assoc (le_bytes 4 (length s)) s rest) (
      rw (take_le-le_bytes 4 (length s) (s ++ rest) (omega arith), continue)
        (rw (within, if◌then◌else◌)
          (rw (take_n-append s rest, continue) (rw (utf8, if◌then◌else◌)))))

Reads-option :
    (o : Option Datum) → OnSome IsDatum o → Reads (take_option decode) (put_option encode o) o
Reads-option o h = take_option-put_option decode encode IsDatum Reads-datum o h

Reads-mcv :
    (xs : List (Datum × ℕ))
    → length xs ≤ mcv_limit
    → AllOf IsMcv xs
    → Reads (take_list mcv_limit take_mcv) (put_list put_mcv xs) xs
Reads-mcv xs few h =
    take_list-put_list take_mcv put_mcv IsMcv take_mcv-put_mcv mcv_limit xs few (omega arith) h

Reads-word : (v : ℕ) → IsU64 v → Reads (take_le 8) (le_bytes 8 v) v
Reads-word v h rest = take_le-le_bytes 8 v rest h

take_column_stats-put :
    (c : Bytes × ColumnStats) → IsColumnStats c → Reads take_column_stats (put_column_stats c) c
unfolding take_column_stats put_column_stats
take_column_stats-put (name, c) (utf8, short, hn, hd, ht, hmin, hmax, few, hm) rest =
    simp
      (
        append_assoc,
        take_name-put_str name utf8 short,
        Reads-word c.null_count hn,
        Reads-word c.distinct_count hd,
        Reads-word c.total ht,
        Reads-option c.min hmin,
        Reads-option c.max hmax,
        Reads-mcv c.mcv few hm,
      )
      refl

-- A name above all others is inserted at the end.
insert_last :
    (c : Bytes × ColumnStats) (acc rest : List (Bytes × ColumnStats))
    → AllOf (λ (a : Bytes × ColumnStats). Below a (c ∷ rest)) acc
    → insert c.0 c.1 acc ≡ acc ++ (c ∷ [])
unfolding insert
insert_last c [] rest h = refl
insert_last c (a ∷ acc) rest ((lt, _), h) =
    rw (lt, if◌then◌else◌) (ap (◌∷◌ a) (insert_last c acc rest h))

AllOf-last {ℓ} :
    {A : Type 0} (P : A → Type ℓ) (acc : List A) {a : A}
    → AllOf P acc
    → P a
    → AllOf P (acc ++ (a ∷ []))
AllOf-last P [] h p = (p, tt)
AllOf-last P (b ∷ acc) (q, h) p = (q, AllOf-last P acc h p)

AllOf-weaken {ℓ κ} :
    {A : Type 0} (P : A → Type ℓ) (Q : A → Type κ) (acc : List A)
    → ((a : A) → P a → Q a)
    → AllOf P acc
    → AllOf Q acc
AllOf-weaken P Q [] f h = tt
AllOf-weaken P Q (b ∷ acc) f (q, h) = (f b q, AllOf-weaken P Q acc f h)

take_columns-put_many :
    (cs acc : List (Bytes × ColumnStats))
    → AllOf IsColumnStats cs
    → InOrder cs
    → AllOf (λ (a : Bytes × ColumnStats). Below a cs) acc
    → Reads (take_columns (length cs) acc) (put_many put_column_stats cs) (acc ++ cs)
unfolding take_columns put_many
take_columns-put_many [] acc h o b rest = rw (append-nil acc)
take_columns-put_many (c ∷ cs) acc (hc, h) (bc, o) b rest =
    rw (append_assoc (put_column_stats c) (put_many put_column_stats cs) rest) (
      rw (take_column_stats-put c hc (put_many put_column_stats cs ++ rest), continue)
        (rw (insert_last c acc cs b) (
          take_columns-put_many cs (acc ++ (c ∷ [])) h o
            (AllOf-last (λ (a : Bytes × ColumnStats). Below a cs) acc
              (AllOf-weaken (λ (a : Bytes × ColumnStats). Below a (c ∷ cs))
                (λ (a : Bytes × ColumnStats). Below a cs) acc (λ a p. p.1) b)
              bc)
            rest
          ∙ rw (append_assoc acc (c ∷ []) cs))))

pub decode_stats-encode_stats :
    (s : TableStats) → IsTableStats s → Reads decode_stats (encode_stats s) s
unfolding decode_stats encode_stats at_most put_list
decode_stats-encode_stats s (rows, at, few, h, o) rest =
    let rows_within : ltb 1_000_000_000 s.row_count ≡ false = ground arith in
    let within : ltb 10_000 (length s.columns) ≡ false = ground arith in
    simp
      (
        append_assoc,
        Reads-word s.row_count (omega arith),
        rows_within,
        within,
        Reads-word s.analyzed_at at,
        take_le-le_bytes 4 (length s.columns) (put_many put_column_stats s.columns ++ rest)
            (omega arith),
        take_columns-put_many s.columns [] h o tt rest,
      )
      refl
