-- ===== src/Table/Sequence.antt =====
-- The AUTO_INCREMENT sequence never gives out a number that it has given out or seen.
use hench_db.Prelude.{
  ℕ, ◌+◌, ◌-◌, ◌≡◌, ◌≤◌, ◌<◌, ◌^◌, sym, ◌∙◌, ap, arith, some, List, [], ◌∷◌, get_elem?, set, ltb,
  leb, inl, inr, Bool-cases, Option-cases,
}
use hench_db.Prelude.Int.{pos, negsuc}
use hench_db.Datum.{Datum, null, int, float, text, bool, date_time}
use hench_db.Error.{Result, ok, >>=-eq-ok}
use hench_db.Table.Validation.{chosen, passed}
use hench_db.Table.{AutoIncState, take_number, assign_at, assign_auto_inc}

-- The numbers of the column so far, all below the next one.
abbrev pub AllBelow : List ℕ → ℕ → Type 0
AllBelow [] next = Unit
AllBelow (n ∷ seen) next = (n < next) × AllBelow seen next

AllBelow-later : (seen : List ℕ) (a b : ℕ) → a ≤ b → AllBelow seen a → AllBelow seen b
AllBelow-later [] a b le h = tt
AllBelow-later (n ∷ seen) a b le (l, h) = (omega (arith, l, le), AllBelow-later seen a b le h)

-- `n` is none of the numbers.
abbrev pub IsFresh : ℕ → List ℕ → Type 0
IsFresh n [] = Unit
IsFresh n (m ∷ seen) = (m < n) × IsFresh n seen

AllBelow-IsFresh : (seen : List ℕ) (n : ℕ) → AllBelow seen n → IsFresh n seen
AllBelow-IsFresh [] n h = tt
AllBelow-IsFresh (m ∷ seen) n (l, h) = (l, AllBelow-IsFresh seen n h)

-- What the column's value `d` comes to. NULL comes to a number that is none of those so far and
-- fits an i64; a number that is not negative stays, and counts as seen; another value stays.
abbrev pub Given : List ℕ → AutoIncState → AutoIncState → Datum → Datum → Type 0
Given seen st after null e =
    (e ≡ int (pos st.next))
    × IsFresh st.next seen
    × (st.next < 2 ^ 63)
    × AllBelow (st.next ∷ seen) after.next
Given seen st after (int (pos v)) e = (e ≡ int (pos v)) × AllBelow (v ∷ seen) after.next
Given seen st after d e = (e ≡ d) × AllBelow seen after.next

unmoved :
    (seen : List ℕ) (st after : AutoIncState) (d e : Datum)
    → AllBelow seen st.next
    → ◌≡◌ {A = Result (AutoIncState × Datum)} (ok (st, d)) (ok (after, e))
    → (e ≡ d) × AllBelow seen after.next
unmoved seen st after d e h q =
    let same : e ≡ d = cc in let state : st ≡ after = cc in (same, rw (sym state) h)

pair_of :
    {A B : Type 0} {a c : A} {b d : B}
    → ◌≡◌ {A = Result (A × B)} (ok (a, b)) (ok (c, d))
    → (a ≡ c) × (b ≡ d)
pair_of h = (cc, cc)

take_number-Given :
    (seen : List ℕ) (st after : AutoIncState) (d e : Datum)
    → AllBelow seen st.next
    → take_number st d ≡ ok (after, e)
    → Given seen st after d e
unfolding take_number
take_number-Given seen st after null e h q = elim (Bool-cases (ltb (2 ^ 63 - 1) st.next)) [
  | inl t ↦ let bad = sym (chosen _ _ _ t) ∙ q in cc
  | inr f ↦
      let (state, same) = pair_of (sym (passed _ _ _ f) ∙ q) in
      rw (sym state) (
        sym same,
        AllBelow-IsFresh seen st.next h,
        ground arith,
        (omega arith, AllBelow-later seen st.next (st.next + 1) (omega arith) h),
      )
]
take_number-Given seen st after (int (pos v)) e h q = elim (Bool-cases (leb st.next v)) [
  | inl t ↦
      let (state, same) = pair_of (sym (chosen _ _ _ t) ∙ q) in
      rw (sym state) (sym same, (omega arith, AllBelow-later seen st.next (v + 1) (ground arith) h))
  | inr f ↦
      let (same, kept) = unmoved seen st after (int (pos v)) e h (sym (passed _ _ _ f) ∙ q) in
      let (state, _) = pair_of (sym (passed _ _ _ f) ∙ q) in
      (same, (rw (sym state) (ground arith), kept))
]
take_number-Given seen st after (int (negsuc v)) e h q = unmoved seen st after _ e h q
take_number-Given seen st after (float v) e h q = unmoved seen st after _ e h q
take_number-Given seen st after (text v) e h q = unmoved seen st after _ e h q
take_number-Given seen st after (bool v) e h q = unmoved seen st after _ e h q
take_number-Given seen st after (date_time v) e h q = unmoved seen st after _ e h q

-- If the numbers of the column so far are below the sequence's next one, a row for which the
-- sequence's column is assigned has a value in that column, which alone changes: NULL becomes a
-- number that is none of those so far and fits an i64, and any other value stays. The numbers so far,
-- with that of this row if it is not negative, are below the next one afterwards.
pub assign_auto_inc-Given :
    (seen : List ℕ) (st after : AutoIncState) (row given : List Datum)
    → AllBelow seen st.next
    → assign_auto_inc st row ≡ ok (after, given)
    → (d : Datum) × (e : Datum) × (get_elem? row st.col_idx ≡ some d)
      × (given ≡ set row st.col_idx e)
      × Given seen st after d e
unfolding assign_auto_inc assign_at
assign_auto_inc-Given seen st after row given h q = elim (Option-cases (get_elem? row st.col_idx)) [
  | inl e ↦ let bad = sym (ap (assign_at st row) e) ∙ q in cc
  | inr (d, found) ↦
      let run = sym (ap (assign_at st row) found) ∙ q in
      let ((later, e), taken, rest) = >>=-eq-ok (take_number st d) _ run in
      let (state, same) = pair_of rest in
      (
        d,
        e,
        found,
        sym same,
        take_number-Given seen st after d e h (taken ∙ ap (λ t. ok (t, e)) state),
      )
]
