-- ===== src/BTree/LeafWrites.antt =====
-- `insert` and `upsert` at the leaf: what they do to its entries, and that they keep it well formed.
use hench_db.Prelude.{
  ℕ, zero, suc, ◌≡◌, ◌<◌, refl, sym, ◌∙◌, ap, arith, Bool, true, false, ◌&&◌, Option, none, some,
  List, [], ◌∷◌, ◌++◌, length, length-append, length-set, get_or, set, ltb, leb, if◌then◌else◌, inl,
  inr, Bool-cases,
}
use hench_db.Bytes.{Bytes, bytes_lt}
use hench_db.BTree.{Leaf, lower_bound, insert_at, max_keys, last_or, past_end, holds}
use hench_db.BTree.Search.{first_ge, IsKey}
use hench_db.BTree.Entries.{Entries, Under, Over, lookup, put, lookup_between, put_between}
use hench_db.BTree.Chain.{Bound, Exceeds, AtMost}
use hench_db.BTree.Fits.{LeafFits, Ending, IsTight, zip}
use hench_db.BTree.Leaves.{
  lookup-zip, put-insert_at, put-set, Ordered-insert_at, heads_for-insert_at, length-insert_at,
}
use hench_db.BTree.Read.{leaf_position}
use hench_db.BTree.Descent.{
  Descend, done, restart, insert_entry, replace_value, insert_leaf, upsert_leaf,
}

-- `insert` answers whether the key was new, and only a new key's value goes in. `Restart` leaves
-- the entries as they are, and tight leaves never give it.
abbrev pub InsertEffect :
    (tight : Bool) (key val : Bytes) → Descend Bool → Entries → Entries → Type 0
InsertEffect tight key val (done true) es fs = (lookup key es ≡ none) × (fs ≡ put key val es)
InsertEffect tight key val (done false) es fs = (v : Bytes) × (lookup key es ≡ some v) × (fs ≡ es)
InsertEffect tight key val restart es fs = (tight ≡ false) × (fs ≡ es)

-- How many entries there are after a key whose value was `prev` has been put.
abbrev pub grown : Option Bytes → ℕ → ℕ
grown none n = suc n
grown (some v) n = n

-- `upsert` answers the value that it replaces, and without one there is an entry more.
abbrev pub UpsertEffect :
    (tight : Bool) (key val : Bytes) → Descend (Option Bytes) → Entries → Entries → Type 0
UpsertEffect tight key val (done prev) es fs =
    (lookup key es ≡ prev) × (fs ≡ put key val es) × (length fs ≡ grown prev (length es))
UpsertEffect tight key val restart es fs = (tight ≡ false) × (fs ≡ es)

pub InsertEffect-widens :
    (tight : Bool) (key val : Bytes) (d : Descend Bool) (pre es fs post : Entries)
    → Under key pre
    → Over key post
    → InsertEffect tight key val d es fs
    → InsertEffect tight key val d (pre ++ (es ++ post)) (pre ++ (fs ++ post))
InsertEffect-widens tight key val (done true) pre es fs post u o (l, e) =
    (lookup_between key pre es post u o ∙ l, rw e (sym (put_between key val pre es post u o)))
InsertEffect-widens tight key val (done false) pre es fs post u o (v, l, e) =
    (v, lookup_between key pre es post u o ∙ l, rw e refl)
InsertEffect-widens tight key val restart pre es fs post u o (t, e) = (t, rw e refl)

grown_widens :
    (prev : Option Bytes) (pre es fs post : Entries)
    → length fs ≡ grown prev (length es)
    → length (pre ++ (fs ++ post)) ≡ grown prev (length (pre ++ (es ++ post)))
grown_widens none pre es fs post n =
    rw
      (
        length-append pre (fs ++ post),
        length-append fs post,
        length-append pre (es ++ post),
        length-append es post,
      )
      (omega (arith, n))
grown_widens (some v) pre es fs post n =
    rw
      (
        length-append pre (fs ++ post),
        length-append fs post,
        length-append pre (es ++ post),
        length-append es post,
      )
      (omega (arith, n))

pub length-put_new :
    (key val : Bytes) (es : Entries)
    → lookup key es ≡ none
    → length (put key val es) ≡ suc (length es)
unfolding lookup put
length-put_new key val [] h = refl
length-put_new key val ((k, v) ∷ es) h = ground (arith, length-put_new key val es)

length-zip-set :
    (ks vs : List Bytes) (i : ℕ) (val : Bytes) → length (zip ks (set vs i val)) ≡ length (zip ks vs)
length-zip-set [] vs i val = refl
length-zip-set (k ∷ ks) [] i val = refl
length-zip-set (k ∷ ks) (v ∷ vs) zero val = refl
length-zip-set (k ∷ ks) (v ∷ vs) (suc i) val = ap suc (length-zip-set ks vs i val)

pub UpsertEffect-widens :
    (tight : Bool) (key val : Bytes) (d : Descend (Option Bytes)) (pre es fs post : Entries)
    → Under key pre
    → Over key post
    → UpsertEffect tight key val d es fs
    → UpsertEffect tight key val d (pre ++ (es ++ post)) (pre ++ (fs ++ post))
UpsertEffect-widens tight key val (done prev) pre es fs post u o (l, e, n) = (
  lookup_between key pre es post u o ∙ l,
  rw e (sym (put_between key val pre es post u o)),
  grown_widens prev pre es fs post n,
)
UpsertEffect-widens tight key val restart pre es fs post u o (t, e) = (t, rw e refl)

nothing_past_empty : (key : Bytes) → bytes_lt [] key ≡ false → [] ≡ key
unfolding bytes_lt
nothing_past_empty [] h = refl
nothing_past_empty (b ∷ key) h = cc

last_or-insert_at :
    (d k key : Bytes) (ks : List Bytes)
    → bytes_lt (last_or d (k ∷ ks)) key ≡ false
    → last_or d (insert_at (first_ge (k ∷ ks) key) key (k ∷ ks)) ≡ last_or d (k ∷ ks)
unfolding last_or first_ge insert_at
last_or-insert_at d k key [] h = rw (h, if◌then◌else◌) refl
last_or-insert_at d k key (q ∷ ks) h = elim (Bool-cases (bytes_lt k key)) [
  | inl t ↦ rw (t, if◌then◌else◌) (last_or-insert_at k q key ks h)
  | inr f ↦ rw (f, if◌then◌else◌) refl
]

Ending-insert_at :
    (tight next : Bool) (key : Bytes) (ks : List Bytes) (high : Bound)
    → AtMost key high
    → Ending tight next ks high
    → Ending tight next (insert_at (first_ge ks key) key ks) high
unfolding last_or insert_at first_ge
Ending-insert_at false next key ks high a h = tt
Ending-insert_at true false key ks high a h = tt
Ending-insert_at true true key ks none a h = absurd h
Ending-insert_at true true key [] (some k) a h = sym (nothing_past_empty key (rw h a)) ∙ h
Ending-insert_at true true key (q ∷ ks) (some k) a h = last_or-insert_at [] q key ks (rw h a) ∙ h

tight_reaches :
    (next : Bool) (key : Bytes) (ks : List Bytes) (high : Bound)
    → AtMost key high
    → IsTight next ks high
    → (next && (ltb 0 (length ks) && bytes_lt (last_or [] ks) key)) ≡ false
tight_reaches false key ks high a h = refl
tight_reaches true key ks none a h = absurd h
tight_reaches true key ks (some k) a h = rw (h, a) (ground arith)

past_end-tight :
    (tight : Bool) (key : Bytes) (low high : Bound) (leaf : Leaf)
    → AtMost key high
    → LeafFits tight low high leaf
    → past_end leaf key ≡ true
    → tight ≡ false
unfolding past_end
past_end-tight false key low high leaf a h t = refl
past_end-tight true key low high leaf a h t =
    let f = tight_reaches leaf.next key leaf.keys high a h.ending in cc

module _ (tight : Bool) (low high : Bound) (leaf : Leaf) (key val : Bytes) (is_key : IsKey key)
    (above : Exceeds low key) (at_most : AtMost key high)
    (fits : LeafFits tight low high leaf) where
  position : lower_bound leaf.keys leaf.heads key ≡ first_ge leaf.keys key
  position = leaf_position tight low high leaf key is_key fits

  insert_entry-LeafFits :
      length leaf.keys < max_keys
      → holds leaf.keys (first_ge leaf.keys key) key ≡ false
      → LeafFits tight low high (insert_entry leaf (first_ge leaf.keys key) key val)
  unfolding insert_entry
  insert_entry-LeafFits z h = record {
    ordered = Ordered-insert_at key low high leaf.keys is_key above at_most fits.ordered h;
    synced = rw fits.synced (heads_for-insert_at (first_ge leaf.keys key) key leaf.keys);
    sized = omega (arith, z, length-insert_at (first_ge leaf.keys key) key leaf.keys);
    parallel =
        length-insert_at (first_ge leaf.keys key) val leaf.vals
        ∙ ap suc fits.parallel
        ∙ sym (length-insert_at (first_ge leaf.keys key) key leaf.keys);
    ending = Ending-insert_at tight leaf.next key leaf.keys high at_most fits.ending;
    linked = fits.linked;
  }

  pub replace_value-LeafFits :
      LeafFits tight low high (replace_value leaf (first_ge leaf.keys key) val)
  unfolding replace_value
  replace_value-LeafFits = record {
    ordered = fits.ordered;
    synced = fits.synced;
    sized = fits.sized;
    parallel = length-set leaf.vals (first_ge leaf.keys key) val ∙ fits.parallel;
    ending = fits.ending;
    linked = fits.linked;
  }

  absent :
      holds leaf.keys (first_ge leaf.keys key) key ≡ false
      → lookup key (zip leaf.keys leaf.vals) ≡ none
  absent h =
      lookup-zip key low high leaf.keys leaf.vals fits.ordered fits.parallel
      ∙ rw (h, if◌then◌else◌) refl

  present :
      holds leaf.keys (first_ge leaf.keys key) key ≡ true
      → lookup key (zip leaf.keys leaf.vals) ≡ some (get_or leaf.vals (first_ge leaf.keys key) [])
  present h =
      lookup-zip key low high leaf.keys leaf.vals fits.ordered fits.parallel
      ∙ rw (h, if◌then◌else◌) refl

  inserts :
      holds leaf.keys (first_ge leaf.keys key) key ≡ false
      → zip
          (insert_at (first_ge leaf.keys key) key leaf.keys)
          (insert_at (first_ge leaf.keys key) val leaf.vals)
        ≡ put key val (zip leaf.keys leaf.vals)
  inserts h = put-insert_at key val low high leaf.keys leaf.vals fits.ordered fits.parallel h

  pub insert_leaf-works :
      length leaf.keys < max_keys
      → LeafFits tight low high (insert_leaf leaf key val).1
        × InsertEffect tight key val
            (insert_leaf leaf key val).0
            (zip leaf.keys leaf.vals)
            (zip (insert_leaf leaf key val).1.keys (insert_leaf leaf key val).1.vals)
  unfolding insert_leaf insert_entry
  insert_leaf-works z =
      let room : leb max_keys (length leaf.keys) ≡ false = ground arith in
      elim (Bool-cases (past_end leaf key)) [
        | inl t ↦
            rw (position, room, t, if◌then◌else◌)
              (fits, (past_end-tight tight key low high leaf at_most fits t, refl))
        | inr f ↦ elim (Bool-cases (holds leaf.keys (first_ge leaf.keys key) key)) [
          | inl t ↦ rw (position, room, f, t, if◌then◌else◌) (fits, (_, present t, refl))
          | inr g ↦
              rw (position, room, f, g, if◌then◌else◌)
                (insert_entry-LeafFits z g, (absent g, inserts g))
        ]
      ]

  pub upsert_leaf-works :
      length leaf.keys < max_keys
      → LeafFits tight low high (upsert_leaf leaf key val).1
        × UpsertEffect tight key val
            (upsert_leaf leaf key val).0
            (zip leaf.keys leaf.vals)
            (zip (upsert_leaf leaf key val).1.keys (upsert_leaf leaf key val).1.vals)
  unfolding upsert_leaf insert_entry replace_value
  upsert_leaf-works z =
      let room : leb max_keys (length leaf.keys) ≡ false = ground arith in
      elim (Bool-cases (holds leaf.keys (first_ge leaf.keys key) key)) [
        | inl t ↦
            rw (position, t, if◌then◌else◌)
              (
                replace_value-LeafFits,
                (
                  present t,
                  put-set key val low high leaf.keys leaf.vals fits.ordered fits.parallel t,
                  length-zip-set leaf.keys leaf.vals (first_ge leaf.keys key) val,
                ),
              )
        | inr g ↦ elim (Bool-cases (past_end leaf key)) [
          | inl t ↦
              rw (position, g, room, t, if◌then◌else◌)
                (fits, (past_end-tight tight key low high leaf at_most fits t, refl))
          | inr f ↦
              rw (position, g, room, f, if◌then◌else◌)
                (
                  insert_entry-LeafFits z g,
                  (
                    absent g,
                    inserts g,
                    ap length (inserts g) ∙ length-put_new key val _ (absent g),
                  ),
                )
        ]
      ]
