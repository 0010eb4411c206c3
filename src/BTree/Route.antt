-- ===== src/BTree/Route.antt =====
-- The way of a key through an internal node: the child it leads to, the entries beside that
-- child's, and what becomes of the node when the child changes or splits.
use mathlib.Core.List.{append_assoc}
use hench_db.Prelude.{
  ℕ, suc, ◌≡◌, refl, sym, ◌∙◌, ap, true, false, some, List, [], ◌∷◌, ◌++◌, get_elem?, set, drop,
  if◌then◌else◌, inl, inr, Bool-cases,
}
use hench_db.Bytes.{Bytes, bytes_lt}
use hench_db.Bytes.Order.{le_lt_trans}
use hench_db.BTree.{insert_at}
use hench_db.BTree.Search.{first_ge, IsKey}
use hench_db.BTree.Entries.{Entries, Each-imp, Each-append, Under, Over}
use hench_db.BTree.Chain.{
  Bound, Exceeds, AtMost, Before, Within, Chain, flat, Exceeds-trans, Before-trans, Chain-Within,
}

pub record Route {C : Type 0} (P : Bound → Bound → C → Type 0) (entries : C → Entries)
    (low high : Bound) (ks : List Bytes) (cs : List C) (key : Bytes) : Type 0 where
  pub index : ℕ
  pub left : Bound
  pub right : Bound
  pub child : C
  pub pre : Entries
  pub post : Entries
  pub same_index : (x : Bytes) → Exceeds left x → AtMost x right → first_ge ks x ≡ index
  pub found : get_elem? cs index ≡ some child
  pub holds : P left right child
  pub narrower : (x : Bytes) → Exceeds left x → Exceeds low x
  pub key_left : Exceeds left key
  pub key_right : AtMost key right
  pub under : Under key pre
  pub over : Over key post
  pub entries_of : flat entries cs ≡ pre ++ (entries child ++ post)
  pub rest : flat entries (drop (suc index) cs) ≡ post
  pub changed : (c : C) → P left right c → Chain P low high ks (set cs index c)
  pub changed_entries : (c : C) → flat entries (set cs index c) ≡ pre ++ (entries c ++ post)
  pub divided :
      (l : C) (sep : Bytes) (r : C)
      → IsKey sep
      → Exceeds left sep
      → Before sep right
      → P left (some sep) l
      → P (some sep) right r
      → Chain P low high (insert_at index sep ks) (insert_at (suc index) r (set cs index l))
  pub divided_entries :
      (l r : C)
      → flat entries (insert_at (suc index) r (set cs index l))
        ≡ pre ++ ((entries l ++ entries r) ++ post)

module _ {C : Type 0} (P : Bound → Bound → C → Type 0) (entries : C → Entries)
    (bounded : (low high : Bound) (c : C) → P low high c → Within low high (entries c))
    (key : Bytes) where
  first_ge_skip :
      (k : Bytes) (ks : List Bytes) (x : Bytes) (i : ℕ)
      → bytes_lt k x ≡ true
      → first_ge ks x ≡ i
      → first_ge (k ∷ ks) x ≡ suc i
  unfolding first_ge
  first_ge_skip k ks x i h e = rw (h, if◌then◌else◌) (ap suc e)

  first_ge_stop :
      (k : Bytes) (ks : List Bytes) (x : Bytes) → bytes_lt k x ≡ false → first_ge (k ∷ ks) x ≡ 0
  unfolding first_ge
  first_ge_stop k ks x h = rw (h, if◌then◌else◌) refl

  only_child :
      (low high : Bound) (c : C)
      → Exceeds low key
      → AtMost key high
      → P low high c
      → Route P entries low high [] (c ∷ []) key
  unfolding insert_at first_ge
  only_child low high c e a p = record {
    index = 0;
    left = low;
    right = high;
    child = c;
    pre = [];
    post = [];
    same_index = λ x l r. refl;
    found = refl;
    holds = p;
    narrower = λ x h. h;
    key_left = e;
    key_right = a;
    under = tt;
    over = tt;
    entries_of = refl;
    rest = refl;
    changed = λ d q. q;
    changed_entries = λ d. refl;
    divided = λ l sep r b h k p q. (b, h, k, p, q);
    divided_entries = λ l r. sym (append_assoc (entries l) (entries r) []);
  }

  first_child :
      (low high : Bound) (k : Bytes) (ks : List Bytes) (c : C) (cs : List C)
      → Exceeds low key
      → bytes_lt k key ≡ false
      → Chain P low high (k ∷ ks) (c ∷ cs)
      → Route P entries low high (k ∷ ks) (c ∷ cs) key
  unfolding insert_at
  first_child low high k ks c cs e a (b, l, u, p, h) = record {
    index = 0;
    left = low;
    right = some k;
    child = c;
    pre = [];
    post = flat entries cs;
    same_index = λ x s t. first_ge_stop k ks x t;
    found = refl;
    holds = p;
    narrower = λ x s. s;
    key_left = e;
    key_right = a;
    under = tt;
    over =
        Each-imp (flat entries cs) (λ x (s, t). le_lt_trans key k x a s)
          (Chain-Within P entries bounded (some k) high ks cs h);
    entries_of = refl;
    rest = refl;
    changed = λ d q. (b, l, u, q, h);
    changed_entries = λ d. refl;
    divided = λ d sep r bs s t q w. (bs, s, Before-trans high sep k t u, q, (b, t, u, w, h));
    divided_entries = λ d r. sym (append_assoc (entries d) (entries r) (flat entries cs));
  }

  later_child :
      (low high : Bound) (k : Bytes) (ks : List Bytes) (c : C) (cs : List C)
      → bytes_lt k key ≡ true
      → Chain P low high (k ∷ ks) (c ∷ cs)
      → Route P entries (some k) high ks cs key
      → Route P entries low high (k ∷ ks) (c ∷ cs) key
  unfolding insert_at
  later_child low high k ks c cs a (b, l, u, p, h) r = record {
    index = suc r.index;
    left = r.left;
    right = r.right;
    child = r.child;
    pre = entries c ++ r.pre;
    post = r.post;
    same_index = λ x s t. first_ge_skip k ks x r.index (r.narrower x s) (r.same_index x s t);
    found = r.found;
    holds = r.holds;
    narrower = λ x s. Exceeds-trans low k x l (r.narrower x s);
    key_left = r.key_left;
    key_right = r.key_right;
    under =
        Each-append _ (entries c) r.pre
          (Each-imp (entries c) (λ x (s, t). le_lt_trans x k key t a) (bounded low (some k) c p))
          r.under;
    over = r.over;
    entries_of = ap (λ t. entries c ++ t) r.entries_of ∙ sym (append_assoc (entries c) r.pre _);
    rest = r.rest;
    changed = λ d q. (b, l, u, p, r.changed d q);
    changed_entries = λ d.
        ap (λ t. entries c ++ t) (r.changed_entries d) ∙ sym (append_assoc (entries c) r.pre _);
    divided = λ d sep v bs s t q w. (b, l, u, p, r.divided d sep v bs s t q w);
    divided_entries = λ d v.
        ap (λ t. entries c ++ t) (r.divided_entries d v) ∙ sym (append_assoc (entries c) r.pre _);
  }

  pub route :
      (low high : Bound) (ks : List Bytes) (cs : List C)
      → Exceeds low key
      → AtMost key high
      → Chain P low high ks cs
      → Route P entries low high ks cs key
  route low high [] [] e a h = absurd h
  route low high [] (c ∷ []) e a h = only_child low high c e a h
  route low high [] (c ∷ d ∷ cs) e a h = absurd h
  route low high (k ∷ ks) [] e a h = absurd h
  route low high (k ∷ ks) (c ∷ cs) e a h = elim (Bool-cases (bytes_lt k key)) [
    | inl t ↦ later_child low high k ks c cs t h (route (some k) high ks cs t a h.4)
    | inr f ↦ first_child low high k ks c cs e f h
  ]
