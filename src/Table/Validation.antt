-- ===== src/Table/Validation.antt =====
-- A validated row fits its schema, and validating it again changes nothing.
use hench_db.Prelude.{
  ℕ, suc, ◌≡◌, refl, sym, ◌∙◌, Bool, true, false, not, ◌||◌, ◌==◌, Option, none, some, List, [],
  ◌∷◌, length, map, length-map, arith, ap, if◌then◌else◌, inl, inr, Bool-cases,
}
use hench_db.Prelude.Int.{ℤ}
use hench_db.Bytes.{Bytes}
use hench_db.Datum.{Datum, null, int, float, text, bool, date_time}
use hench_db.Catalog.{ColumnDef}
use hench_db.Error.{Error, ok, err, ◌>>=◌, >>=-eq-ok}
use hench_db.Table.{
  or_null, fill_defaults, is_null, Family, integers, floats, texts, bools, times, family, accepts,
  time_or_text, coerce, admit, admit_null, normalize, normalize_all, validate_row,
}

-- Whether NULL may stand in a column: where there is no default, if it is nullable, and else if the
-- default is NULL itself.
unfoldable pub null_fits : Bool → Option Datum → Bool
null_fits nullable none = nullable
null_fits nullable (some d) = is_null d

null_is : (d : Datum) → is_null d ≡ true → d ≡ null
unfolding is_null
null_is null h = refl
null_is (int v) h = cc
null_is (float v) h = cc
null_is (text s) h = cc
null_is (bool b) h = cc
null_is (date_time v) h = cc

accepts-null : (f : Family) → accepts f null ≡ true
unfolding accepts
accepts-null integers = refl
accepts-null floats = refl
accepts-null texts = refl
accepts-null bools = refl
accepts-null times = refl

ok_of :
    (b : Bool) {A : Type 0} (a c : A) (failure : Error)
    → (if b then ok a else err failure) ≡ ok c
    → (b ≡ true) × (a ≡ c)
ok_of true a c failure h = (refl, cc)
ok_of false a c failure h = cc

null_of :
    (b : Bool) {A : Type 0} (a c : A) (failure : Error)
    → (if not b then err failure else ok a) ≡ ok c
    → (b ≡ true) × (a ≡ c)
null_of true a c failure h = (refl, cc)
null_of false a c failure h = cc

not_or_self : (b : Bool) → (not b || b) ≡ true
not_or_self true = refl
not_or_self false = refl

pub chosen : {A : Type 0} (x y : A) (b : Bool) → b ≡ true → (if b then x else y) ≡ x
chosen x y b e = rw (e, if◌then◌else◌) refl

pub passed : {A : Type 0} (x y : A) (b : Bool) → b ≡ false → (if b then x else y) ≡ y
passed x y b e = rw (e, if◌then◌else◌) refl

unfoldable pub has_default : Option Datum → Bool
has_default none = false
has_default (some d) = true

-- The column with the flag `nullable` raised where it has a default.
unfoldable pub flagged : ColumnDef → ColumnDef
flagged col = record col { nullable = col.nullable || has_default col.default_value }

or_false : (b : Bool) → (b || false) ≡ b
or_false true = refl
or_false false = refl

module _ (parse_datetime_str : Bytes → Option ℤ) where
  -- A value that stands in a column as it is.
  abbrev pub Admitted : ColumnDef → Datum → Type 0
  Admitted col d =
      (accepts (family col.ctype) d ≡ true)
      × (coerce parse_datetime_str (family col.ctype) d ≡ d)
      × ((not (is_null d) || null_fits col.nullable col.default_value) ≡ true)

  abbrev pub AllAdmitted : List ColumnDef → List Datum → Type 0
  AllAdmitted [] [] = Unit
  AllAdmitted [] (d ∷ row) = ⊥
  AllAdmitted (c ∷ columns) [] = ⊥
  AllAdmitted (c ∷ columns) (d ∷ row) = Admitted c d × AllAdmitted columns row

  coerce_text :
      (s : Bytes) (parsed : Option ℤ)
      → parse_datetime_str s ≡ parsed
      → coerce parse_datetime_str times (time_or_text s parsed) ≡ time_or_text s parsed
  unfolding coerce time_or_text
  coerce_text s none e = rw e refl
  coerce_text s (some m) e = refl

  coerce_twice :
      (f : Family) (d : Datum)
      → coerce parse_datetime_str f (coerce parse_datetime_str f d) ≡ coerce parse_datetime_str f d
  unfolding coerce
  coerce_twice times (text s) = coerce_text s (parse_datetime_str s) refl
  coerce_twice times (int v) = refl
  coerce_twice times null = refl
  coerce_twice times (float v) = refl
  coerce_twice times (bool b) = refl
  coerce_twice times (date_time v) = refl
  coerce_twice bools null = refl
  coerce_twice bools (int v) = refl
  coerce_twice bools (float v) = refl
  coerce_twice bools (text s) = refl
  coerce_twice bools (bool b) = refl
  coerce_twice bools (date_time v) = refl
  coerce_twice integers null = refl
  coerce_twice integers (int v) = refl
  coerce_twice integers (float v) = refl
  coerce_twice integers (text s) = refl
  coerce_twice integers (bool b) = refl
  coerce_twice integers (date_time v) = refl
  coerce_twice floats d = refl
  coerce_twice texts d = refl

  not_null_time : (s : Bytes) (parsed : Option ℤ) → is_null (time_or_text s parsed) ≡ false
  unfolding is_null time_or_text
  not_null_time s none = refl
  not_null_time s (some m) = refl

  is_null-coerce : (f : Family) (d : Datum) → is_null (coerce parse_datetime_str f d) ≡ is_null d
  unfolding coerce is_null
  is_null-coerce times (text s) = not_null_time s (parse_datetime_str s)
  is_null-coerce times (int v) = refl
  is_null-coerce times null = refl
  is_null-coerce times (float v) = refl
  is_null-coerce times (bool b) = refl
  is_null-coerce times (date_time v) = refl
  is_null-coerce bools (int v) = refl
  is_null-coerce bools null = refl
  is_null-coerce bools (float v) = refl
  is_null-coerce bools (text s) = refl
  is_null-coerce bools (bool b) = refl
  is_null-coerce bools (date_time v) = refl
  is_null-coerce integers (bool b) = refl
  is_null-coerce integers null = refl
  is_null-coerce integers (int v) = refl
  is_null-coerce integers (float v) = refl
  is_null-coerce integers (text s) = refl
  is_null-coerce integers (date_time v) = refl
  is_null-coerce floats d = refl
  is_null-coerce texts d = refl

  coerce-null : (f : Family) → coerce parse_datetime_str f null ≡ null
  unfolding coerce
  coerce-null integers = refl
  coerce-null floats = refl
  coerce-null texts = refl
  coerce-null bools = refl
  coerce-null times = refl

  admit-Admitted :
      (col : ColumnDef) (d e : Datum)
      → admit parse_datetime_str col d ≡ ok e
      → (not (is_null d) || null_fits col.nullable col.default_value) ≡ true
      → Admitted col e
  unfolding admit
  admit-Admitted col d e h fits =
      let f = family col.ctype in
      let (a, same) = ok_of (accepts f (coerce parse_datetime_str f d)) _ e _ h in
      rw (sym same) (a, coerce_twice f d, rw (is_null-coerce f d) fits)

  null-Admitted :
      (col : ColumnDef) (default : Option Datum) (e : Datum)
      → col.default_value ≡ default
      → admit_null parse_datetime_str col default ≡ ok e
      → Admitted col e
  unfolding admit_null null_fits is_null
  null-Admitted col none e q h =
      let (t, same) = null_of col.nullable null e _ h in
      rw (sym same)
        (accepts-null (family col.ctype), coerce-null (family col.ctype), rw (q, t) refl)
  null-Admitted col (some d) e q h = admit-Admitted col d e h (rw q (not_or_self (is_null d)))

  normalize-Admitted :
      (col : ColumnDef) (d e : Datum) → normalize parse_datetime_str col d ≡ ok e → Admitted col e
  unfolding normalize
  normalize-Admitted col d e h = elim (Bool-cases (is_null d)) [
    | inl t ↦ null-Admitted col col.default_value e refl (sym (chosen _ _ (is_null d) t) ∙ h)
    | inr f ↦ admit-Admitted col d e (sym (passed _ _ (is_null d) f) ∙ h) (rw f refl)
  ]

  -- An admitted value is normalized to itself.
  admits_again :
      (col : ColumnDef) (d : Datum) → Admitted col d → admit parse_datetime_str col d ≡ ok d
  unfolding admit
  admits_again col d (a, c, n) = rw (c, a, if◌then◌else◌) refl

  null_again :
      (col : ColumnDef) (default : Option Datum)
      → null_fits col.nullable default ≡ true
      → admit_null parse_datetime_str col default ≡ ok null
  unfolding admit_null null_fits admit
  null_again col none h = rw (h, if◌then◌else◌) refl
  null_again col (some d) h =
      rw
        (
          null_is d h,
          coerce-null (family col.ctype),
          accepts-null (family col.ctype),
          if◌then◌else◌,
        )
        refl

  normalize_again :
      (col : ColumnDef) (d : Datum) → Admitted col d → normalize parse_datetime_str col d ≡ ok d
  unfolding normalize
  normalize_again col d (a, c, n) = elim (Bool-cases (is_null d)) [
    | inl t ↦
        let fits : null_fits col.nullable col.default_value ≡ true = ground (arith, n, t) in
        rw (t, if◌then◌else◌) (null_again col col.default_value fits ∙ ap ok (sym (null_is d t)))
    | inr f ↦ rw (f, if◌then◌else◌) (admits_again col d (a, c, n))
  ]

  normalize_all-AllAdmitted :
      (columns : List ColumnDef) (row norm : List Datum)
      → length row ≡ length columns
      → normalize_all parse_datetime_str columns row ≡ ok norm
      → AllAdmitted columns norm
  unfolding normalize_all
  normalize_all-AllAdmitted [] row norm l h = let e : [] ≡ norm = cc in rw (sym e) tt
  normalize_all-AllAdmitted (c ∷ columns) [] norm l h = absurd (omega (arith, l))
  normalize_all-AllAdmitted (c ∷ columns) (d ∷ row) norm l h =
      let (e, p, k) = >>=-eq-ok (normalize parse_datetime_str c d) _ h in
      let (rest, q, m) = >>=-eq-ok (normalize_all parse_datetime_str columns row) _ k in
      let same : e ∷ rest ≡ norm = cc in
      rw (sym same) (
        normalize-Admitted c d e p,
        normalize_all-AllAdmitted columns row rest (omega (arith, l)) q,
      )

  normalize_all_again :
      (columns : List ColumnDef) (row : List Datum)
      → AllAdmitted columns row
      → normalize_all parse_datetime_str columns row ≡ ok row
  unfolding normalize_all
  normalize_all_again [] [] h = refl
  normalize_all_again [] (d ∷ row) h = absurd h
  normalize_all_again (c ∷ columns) [] h = absurd h
  normalize_all_again (c ∷ columns) (d ∷ row) (a, h) =
      rw (normalize_again c d a, ◌>>=◌, normalize_all_again columns row h, ◌>>=◌) refl

  fills_nothing :
      (columns : List ColumnDef) (row : List Datum)
      → AllAdmitted columns row
      → (fill_defaults columns row ≡ row) × (length row ≡ length columns)
  unfolding fill_defaults
  fills_nothing [] [] h = (refl, refl)
  fills_nothing [] (d ∷ row) h = absurd h
  fills_nothing (c ∷ columns) [] h = absurd h
  fills_nothing (c ∷ columns) (d ∷ row) (a, h) =
      let (e, l) = fills_nothing columns row h in (ap (λ t. d ∷ t) e, ap suc l)

  same_length : (a b : ℕ) → a ≡ b → (a == b) ≡ true
  same_length a b h = ground arith

  -- Whatever a text means as a time, a row that validation returns has a value for each column, which
  -- the column's type accepts, which is coerced to itself, and which is NULL only if the column is
  -- nullable and has no default, or has NULL as default; and validating the row again returns it.
  pub validate_row-AllAdmitted :
      (columns : List ColumnDef) (row norm : List Datum)
      → validate_row parse_datetime_str columns row ≡ ok norm
      → AllAdmitted columns norm × (validate_row parse_datetime_str columns norm ≡ ok norm)
  unfolding validate_row
  validate_row-AllAdmitted columns row norm h =
      let filled = fill_defaults columns row in
      elim (Bool-cases (length filled == length columns)) [
        | inl t ↦
            let all =
              normalize_all-AllAdmitted columns filled norm (ground arith)
                (sym (chosen _ _ (length filled == length columns) t) ∙ h) in
            let (e, l) = fills_nothing columns norm all in
            (
              all,
              rw (e, same_length (length norm) (length columns) l, if◌then◌else◌)
                  (normalize_all_again columns norm all),
            )
        | inr f ↦ let g = sym (passed _ _ (length filled == length columns) f) ∙ h in cc
      ]

  admit_flagged :
      (col : ColumnDef) (default : Option Datum)
      → col.default_value ≡ default
      → admit_null parse_datetime_str (flagged col) default
        ≡ admit_null parse_datetime_str col default
  unfolding admit_null admit flagged has_default
  admit_flagged col none e = rw (e, or_false) refl
  admit_flagged col (some d) e = refl

  normalize-flagged :
      (col : ColumnDef) (d : Datum)
      → normalize parse_datetime_str (flagged col) d ≡ normalize parse_datetime_str col d
  unfolding normalize admit flagged
  normalize-flagged col d =
      ap (λ r. if is_null d then r else admit parse_datetime_str col d)
        (admit_flagged col col.default_value refl)

  fills_alike :
      (columns : List ColumnDef) (row : List Datum)
      → fill_defaults (map flagged columns) row ≡ fill_defaults columns row
  unfolding fill_defaults flagged
  fills_alike [] row = refl
  fills_alike (c ∷ columns) [] = ap (λ t. or_null c.default_value ∷ t) (fills_alike columns [])
  fills_alike (c ∷ columns) (d ∷ row) = ap (λ t. d ∷ t) (fills_alike columns row)

  normalizes_alike :
      (columns : List ColumnDef) (row : List Datum)
      → normalize_all parse_datetime_str (map flagged columns) row
        ≡ normalize_all parse_datetime_str columns row
  unfolding normalize_all
  normalizes_alike [] row = refl
  normalizes_alike (c ∷ columns) [] = refl
  normalizes_alike (c ∷ columns) (d ∷ row) =
      rw (normalize-flagged c d, normalizes_alike columns row) refl

  -- In every table, whatever a text means as a time, validation answers for each row, with the same
  -- errors, as it does where every column that has a default is nullable: NOT NULL has no effect on
  -- a column with a default, be the default NULL itself.
  pub default_overrides_not_null :
      (columns : List ColumnDef) (row : List Datum)
      → validate_row parse_datetime_str (map flagged columns) row
        ≡ validate_row parse_datetime_str columns row
  unfolding validate_row
  default_overrides_not_null columns row =
      rw
        (
          fills_alike columns row,
          length-map columns flagged,
          normalizes_alike columns (fill_defaults columns row),
        )
        refl
