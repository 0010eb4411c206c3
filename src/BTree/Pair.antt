-- ===== src/BTree/Pair.antt =====
-- Two neighbouring children and the separator between them: what becomes of the node when entries
-- move across it, and when the two are made one.
use mathlib.Core.List.{append_assoc}
use hench_db.Prelude.{
  ℕ, zero, suc, ◌≡◌, ◌<◌, ◌+◌, refl, sym, ◌∙◌, ap, some, List, [], ◌∷◌, ◌++◌, get_elem?, get_or,
  set, arith, length,
}
use hench_db.Bytes.{Bytes}
use hench_db.BTree.{remove_at}
use hench_db.BTree.Search.{IsKey}
use hench_db.BTree.Entries.{Entries}
use hench_db.BTree.Chain.{Bound, Exceeds, Before, Chain, flat, Exceeds-trans, Before-trans}
use hench_db.BTree.Removal.{sum_of}

pub record Pair {C : Type 0} (P : Bound → Bound → C → Type 0) (entries : C → Entries)
    (low high : Bound) (ks : List Bytes) (cs : List C) (j : ℕ) : Type 0 where
  pub lo : Bound
  pub hi : Bound
  pub left : C
  pub right : C
  pub sep : Bytes
  pub at_sep : get_or ks j [] ≡ sep
  pub in_range : j < length ks
  pub found_left : get_elem? cs j ≡ some left
  pub found_right : get_elem? cs (suc j) ≡ some right
  pub sep_key : IsKey sep
  pub sep_low : Exceeds lo sep
  pub sep_high : Before sep hi
  pub holds_left : P lo (some sep) left
  pub holds_right : P (some sep) hi right
  pub pre : Entries
  pub post : Entries
  pub entries_of : flat entries cs ≡ pre ++ ((entries left ++ entries right) ++ post)
  pub reseated :
      (l : C) (s : Bytes) (r : C)
      → IsKey s
      → Exceeds lo s
      → Before s hi
      → P lo (some s) l
      → P (some s) hi r
      → Chain P low high (set ks j s) (set (set cs j l) (suc j) r)
  pub reseated_entries :
      (l r : C)
      → flat entries (set (set cs j l) (suc j) r) ≡ pre ++ ((entries l ++ entries r) ++ post)
  pub unlinked :
      (m : C) → P lo hi m → Chain P low high (remove_at j ks) (remove_at (suc j) (set cs j m))
  pub unlinked_entries :
      (m : C) → flat entries (remove_at (suc j) (set cs j m)) ≡ pre ++ (entries m ++ post)

module _ {C : Type 0} (P : Bound → Bound → C → Type 0) (entries : C → Entries) where
  two_left :
      (low high : Bound) (k : Bytes) (c d : C)
      → Chain P low high (k ∷ []) (c ∷ d ∷ [])
      → Pair P entries low high (k ∷ []) (c ∷ d ∷ []) 0
  unfolding remove_at
  two_left low high k c d (b, l, u, p, q) = record {
    lo = low;
    hi = high;
    left = c;
    right = d;
    sep = k;
    at_sep = refl;
    in_range = omega arith;
    found_left = refl;
    found_right = refl;
    sep_key = b;
    sep_low = l;
    sep_high = u;
    holds_left = p;
    holds_right = q;
    pre = [];
    post = [];
    entries_of = sym (append_assoc (entries c) (entries d) []);
    reseated = λ x s r bs e t pl pr. (bs, e, t, pl, pr);
    reseated_entries = λ x r. sym (append_assoc (entries x) (entries r) []);
    unlinked = λ m pm. pm;
    unlinked_entries = λ m. refl;
  }

  more_left :
      (low high : Bound) (k q : Bytes) (ks : List Bytes) (c d : C) (cs : List C)
      → Chain P low high (k ∷ q ∷ ks) (c ∷ d ∷ cs)
      → Pair P entries low high (k ∷ q ∷ ks) (c ∷ d ∷ cs) 0
  unfolding remove_at
  more_left low high k q ks c d cs (b, l, u, p, (b', l', u', p', h)) = record {
    lo = low;
    hi = some q;
    left = c;
    right = d;
    sep = k;
    at_sep = refl;
    in_range = omega arith;
    found_left = refl;
    found_right = refl;
    sep_key = b;
    sep_low = l;
    sep_high = l';
    holds_left = p;
    holds_right = p';
    pre = [];
    post = flat entries cs;
    entries_of = sym (append_assoc (entries c) (entries d) (flat entries cs));
    reseated = λ x s r bs e t pl pr. (bs, e, Before-trans high s q t u', pl, (b', t, u', pr, h));
    reseated_entries = λ x r. sym (append_assoc (entries x) (entries r) (flat entries cs));
    unlinked = λ m pm. (b', Exceeds-trans low k q l l', u', pm, h);
    unlinked_entries = λ m. refl;
  }

  Pair-later :
      (low high : Bound) (k : Bytes) (ks : List Bytes) (c : C) (cs : List C) (j : ℕ)
      → Chain P low high (k ∷ ks) (c ∷ cs)
      → Pair P entries (some k) high ks cs j
      → Pair P entries low high (k ∷ ks) (c ∷ cs) (suc j)
  unfolding remove_at
  Pair-later low high k ks c cs j (b, l, u, p, h) r = record {
    lo = r.lo;
    hi = r.hi;
    left = r.left;
    right = r.right;
    sep = r.sep;
    at_sep = r.at_sep;
    in_range = omega (arith, r.in_range);
    found_left = r.found_left;
    found_right = r.found_right;
    sep_key = r.sep_key;
    sep_low = r.sep_low;
    sep_high = r.sep_high;
    holds_left = r.holds_left;
    holds_right = r.holds_right;
    pre = entries c ++ r.pre;
    post = r.post;
    entries_of = ap (λ t. entries c ++ t) r.entries_of ∙ sym (append_assoc (entries c) r.pre _);
    reseated = λ x s v bs e t pl pr. (b, l, u, p, r.reseated x s v bs e t pl pr);
    reseated_entries = λ x v.
        ap (λ t. entries c ++ t) (r.reseated_entries x v) ∙ sym (append_assoc (entries c) r.pre _);
    unlinked = λ m pm. (b, l, u, p, r.unlinked m pm);
    unlinked_entries = λ m.
        ap (λ t. entries c ++ t) (r.unlinked_entries m) ∙ sym (append_assoc (entries c) r.pre _);
  }

  pub pair :
      (low high : Bound) (ks : List Bytes) (cs : List C) (j : ℕ)
      → Chain P low high ks cs
      → suc j < length cs
      → Pair P entries low high ks cs j
  pair low high [] [] j h i = absurd h
  pair low high [] (c ∷ []) j h i = absurd (omega arith)
  pair low high [] (c ∷ d ∷ cs) j h i = absurd h
  pair low high (k ∷ ks) [] j h i = absurd h
  pair low high (k ∷ ks) (c ∷ []) zero h i = absurd (omega arith)
  pair low high (k ∷ []) (c ∷ d ∷ []) zero h i = two_left low high k c d h
  pair low high (k ∷ []) (c ∷ d ∷ e ∷ cs) zero h i = absurd h.4
  pair low high (k ∷ q ∷ ks) (c ∷ d ∷ cs) zero h i = more_left low high k q ks c d cs h
  pair low high (k ∷ ks) (c ∷ cs) (suc j) h i =
      Pair-later low high k ks c cs j h (pair (some k) high ks cs j h.4 (omega arith))

  pub Chain-length :
      (low high : Bound) (ks : List Bytes) (cs : List C)
      → Chain P low high ks cs
      → length cs ≡ suc (length ks)
  Chain-length low high [] [] h = absurd h
  Chain-length low high [] (c ∷ []) h = refl
  Chain-length low high [] (c ∷ d ∷ cs) h = absurd h
  Chain-length low high (k ∷ ks) [] h = absurd h
  Chain-length low high (k ∷ ks) (c ∷ cs) h = ap suc (Chain-length (some k) high ks cs h.4)

-- Two children made one.
pub sum_of-unlinked :
    {C : Type 0} (f : C → ℕ) (cs : List C) (j : ℕ) (m l r : C)
    → get_elem? cs j ≡ some l
    → get_elem? cs (suc j) ≡ some r
    → sum_of f (remove_at (suc j) (set cs j m)) + (f l + f r) ≡ f m + sum_of f cs
unfolding sum_of remove_at
sum_of-unlinked f [] j m l r a b = cc
sum_of-unlinked f (c ∷ []) j m l r a b = cc
sum_of-unlinked f (c ∷ d ∷ cs) zero m l r a b =
    let p : c ≡ l = cc in let q : d ≡ r = cc in rw (p, q) (omega arith)
sum_of-unlinked f (c ∷ d ∷ cs) (suc j) m l r a b =
    omega (arith, sum_of-unlinked f (d ∷ cs) j m l r a b)

pub sum_of-set :
    {C : Type 0} (f : C → ℕ) (cs : List C) (i : ℕ) (c d : C)
    → get_elem? cs i ≡ some c
    → sum_of f (set cs i d) + f c ≡ f d + sum_of f cs
unfolding sum_of
sum_of-set f [] i c d e = cc
sum_of-set f (x ∷ cs) zero c d e = let p : x ≡ c = cc in rw p (omega arith)
sum_of-set f (x ∷ cs) (suc i) c d e = omega (arith, sum_of-set f cs i c d e)
