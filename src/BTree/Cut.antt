-- ===== src/BTree/Cut.antt =====
-- Lists of keys, of entries and of children cut in two.
use mathlib.Core.List.{append_assoc}
use hench_db.Prelude.{
  ℕ, zero, suc, ◌≡◌, ◌<◌, refl, ◌∙◌, ap, some, List, [], ◌∷◌, ◌++◌, length, get_or, take, drop,
  arith,
}
use hench_db.Bytes.{Bytes}
use hench_db.Bytes.Order.{bytes_lt_self, bytes_lt_asym}
use hench_db.BTree.{heads_for, key_head, last_or}
use hench_db.BTree.Search.{IsKey}
use hench_db.BTree.Entries.{Entries}
use hench_db.BTree.Chain.{Bound, Exceeds, AtMost, Before, Chain, flat, Exceeds-trans, Before-le}
use hench_db.BTree.Fits.{Ordered, zip}

-- A list of keys in order cut after its `m + 1`st key.
pub record Cut (low high : Bound) (m : ℕ) (ks : List Bytes) (s : Bytes) : Type 0 where
  pub key : IsKey s
  pub above : Exceeds low s
  pub at_most : AtMost s high
  pub front : Ordered low (some s) (take (suc m) ks)
  pub back : Ordered (some s) high (drop (suc m) ks)

pub cut :
    (low high : Bound) (m : ℕ) (ks : List Bytes)
    → m < length ks
    → Ordered low high ks
    → Cut low high m ks (last_or [] (take (suc m) ks))
unfolding last_or
cut low high m [] h o = elim h [ ]
cut low high zero (k ∷ ks) h (b, l, a, o) = record {
  key = b;
  above = l;
  at_most = a;
  front = (b, l, bytes_lt_self k, tt);
  back = o;
}
cut low high (suc m) (k ∷ []) h o = absurd (omega arith)
cut low high (suc m) (k ∷ q ∷ ks) h (b, l, a, o) =
    let c = cut (some k) high m (q ∷ ks) (omega arith) o in
    let s = last_or [] (take (suc m) (q ∷ ks)) in
    record {
      key = c.key;
      above = Exceeds-trans low k s l c.above;
      at_most = c.at_most;
      front = (b, l, bytes_lt_asym k s c.above, c.front);
      back = c.back;
    }

pub back-Before :
    (high : Bound) (s : Bytes) (ks : List Bytes)
    → 0 < length ks
    → Ordered (some s) high ks
    → Before s high
back-Before high s [] h o = elim h [ ]
back-Before high s (k ∷ ks) h (b, l, a, o) = Before-le high s k l a

pub take-heads_for : (m : ℕ) (ks : List Bytes) → take m (heads_for ks) ≡ heads_for (take m ks)
unfolding heads_for
take-heads_for zero ks = refl
take-heads_for (suc m) [] = refl
take-heads_for (suc m) (k ∷ ks) = ap (λ t. key_head k ∷ t) (take-heads_for m ks)

pub zip_cut :
    (m : ℕ) (ks vs : List Bytes)
    → length vs ≡ length ks
    → zip (take m ks) (take m vs) ++ zip (drop m ks) (drop m vs) ≡ zip ks vs
zip_cut zero ks vs e = refl
zip_cut (suc m) [] vs e = refl
zip_cut (suc m) (k ∷ ks) [] e = absurd (omega arith)
zip_cut (suc m) (k ∷ ks) (v ∷ vs) e = ap (λ t. (k, v) ∷ t) (zip_cut m ks vs (omega arith))

module _ {C : Type 0} (P : Bound → Bound → C → Type 0) where
  pub record ChainCut (low high : Bound) (m : ℕ) (ks : List Bytes) (cs : List C) (s : Bytes)
      : Type 0 where
    pub key : IsKey s
    pub above : Exceeds low s
    pub before : Before s high
    pub front : Chain P low (some s) (take m ks) (take (suc m) cs)
    pub back : Chain P (some s) high (drop (suc m) ks) (drop (suc m) cs)

  pub chain_cut :
      (low high : Bound) (m : ℕ) (ks : List Bytes) (cs : List C)
      → m < length ks
      → Chain P low high ks cs
      → ChainCut low high m ks cs (get_or ks m [])
  chain_cut low high m [] cs h o = elim h [ ]
  chain_cut low high m (k ∷ ks) [] h o = absurd o
  chain_cut low high zero (k ∷ ks) (c ∷ cs) h (b, l, u, p, o) = record {
    key = b;
    above = l;
    before = u;
    front = p;
    back = o;
  }
  chain_cut low high (suc m) (k ∷ ks) (c ∷ cs) h (b, l, u, p, o) =
      let r = chain_cut (some k) high m ks cs (omega arith) o in
      record {
        key = r.key;
        above = Exceeds-trans low k (get_or ks m []) l r.above;
        before = r.before;
        front = (b, l, r.above, p, r.front);
        back = r.back;
      }

pub flat_cut :
    {C : Type 0} (entries : C → Entries) (n : ℕ) (cs : List C)
    → flat entries (take n cs) ++ flat entries (drop n cs) ≡ flat entries cs
flat_cut entries zero cs = refl
flat_cut entries (suc n) [] = refl
flat_cut entries (suc n) (c ∷ cs) =
    append_assoc (entries c) (flat entries (take n cs)) (flat entries (drop n cs))
    ∙ ap (λ t. entries c ++ t) (flat_cut entries n cs)
