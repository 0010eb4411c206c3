-- ===== src/Table/RowCodec.antt =====
-- The codec of rows.
use mathlib.Core.List.{append_assoc, append-nil}
use hench_db.Prelude.{ℕ, ◌≡◌, refl, sym, List, [], ◌∷◌, ◌++◌, length, arith}
use hench_db.Bytes.{Bytes}
use hench_db.Datum.{Datum, IsDatum, encode}
use hench_db.Datum.RoundTrip.{decode-encode}
use hench_db.Catalog.{ColumnDef}
use hench_db.Error.{ok, err, corrupted, ◌>>=◌}
use hench_db.Table.{encode_row, decode_columns, all_read, decode_row}

abbrev pub AllDatums : List Datum → Type 0
AllDatums [] = Unit
AllDatums (d ∷ row) = IsDatum d × AllDatums row

decode_columns-encode_row :
    (columns : List ColumnDef) (row : List Datum) (rest : Bytes)
    → AllDatums row
    → length row ≡ length columns
    → decode_columns columns (encode_row row ++ rest) ≡ ok (row, rest)
unfolding decode_columns encode_row
decode_columns-encode_row [] [] rest h e = refl
decode_columns-encode_row [] (d ∷ row) rest h e = absurd (omega (arith, e))
decode_columns-encode_row (c ∷ columns) [] rest h e = absurd (omega (arith, e))
decode_columns-encode_row (c ∷ columns) (d ∷ row) rest (h, hs) e =
    rw (append_assoc (encode d) (encode_row row) rest) (
      rw
        (
          decode-encode d (encode_row row ++ rest) h,
          ◌>>=◌,
          decode_columns-encode_row columns row rest hs (omega (arith, e)),
          ◌>>=◌,
        )
        refl)

-- A row of values in range, one for each column, is decoded as it was encoded.
pub decode_row-encode_row :
    (columns : List ColumnDef) (row : List Datum)
    → AllDatums row
    → length row ≡ length columns
    → decode_row columns (encode_row row) ≡ ok row
unfolding decode_row all_read
decode_row-encode_row columns row h e =
    rw (sym (append-nil (encode_row row)))
      (rw (decode_columns-encode_row columns row [] h e, ◌>>=◌) refl)

-- A row of values in range, one for each column, with bytes after it is refused as corrupted.
pub decode_row-trailing :
    (columns : List ColumnDef) (row : List Datum) (b : ℕ) (rest : Bytes)
    → AllDatums row
    → length row ≡ length columns
    → decode_row columns (encode_row row ++ (b ∷ rest)) ≡ err corrupted
unfolding decode_row all_read
decode_row-trailing columns row b rest h e =
    rw (decode_columns-encode_row columns row (b ∷ rest) h e, ◌>>=◌) refl
