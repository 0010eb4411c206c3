-- ===== src/BTree/BorrowLeft.antt =====
-- Borrowing from the left sibling keeps the two well formed, and their entries.
use mathlib.Core.List.{append_assoc}
use mathlib.Core.Path.{subst}
use hench_db.Prelude.{
  ℕ, zero, suc, ◌≡◌, ◌<◌, ◌-◌, refl, sym, ◌∙◌, ap, false, some, List, [], ◌∷◌, ◌++◌, length, get_or,
  take, drop, arith, length-take, length-drop,
}
use hench_db.Bytes.{Bytes, bytes_lt}
use hench_db.Bytes.Order.{bytes_lt_asym}
use hench_db.BTree.{Node, Leaf, heads_for, key_head, last_or, max_keys}
use hench_db.BTree.Chain.{Bound, Chain, flat}
use hench_db.BTree.Fits.{Fits, entries_of, zip}
use hench_db.BTree.Cut.{cut, back-Before, take-heads_for, zip_cut, flat_cut, chain_cut}
use hench_db.BTree.Append.{
  zip-append, drop-heads_for, length-heads_for, last_or-heads_for, flat-append, joined-LeafFits,
  joined-Fits, Before-at,
}
use hench_db.BTree.Pair.{Chain-length}
use hench_db.BTree.Siblings.{Siblings, fullness, borrow_from_left, all_but_last, last_part}
use hench_db.BTree.Mend.{Around, both}

head_of_last : (ks : List Bytes) → last_or 0 (heads_for ks) ≡ key_head (last_or [] ks)
unfolding key_head hench_db.Bytes.from_be hench_db.BTree.zero_padded
head_of_last ks = last_or-heads_for [] ks

leaf_borrows :
    (lo hi : Bound) (three : Siblings 0) (m : ℕ)
    → fullness 0 three.0 - 1 ≡ suc m
    → Around 0 lo hi three
    → fullness 0 three.2 < max_keys
    → Around 0 lo hi (borrow_from_left 0 three) × (both 0 (borrow_from_left 0 three) ≡ both 0 three)
unfolding Fits entries_of borrow_from_left fullness all_but_last last_part
leaf_borrows lo hi (left, (s, head), right) m e a small =
    let p = a.lower in
    let q = a.upper in
    let ks = left.keys in
    let n = suc m in
    let t = last_or [] (take n ks) in
    let c = cut lo (some s) m ks (omega (arith, e)) p.ordered in
    let e' : length left.heads - 1 ≡ suc m = rw p.synced (rw (length-heads_for ks) e) in
    let e'' : length left.vals - 1 ≡ suc m = rw p.parallel e in
    rw (e, e', e'')
      (
        record {
          sep_key = c.key;
          sep_head =
              ap (λ hs. last_or 0 (take n hs)) p.synced
              ∙ ap (last_or 0) (take-heads_for n ks)
              ∙ head_of_last (take n ks);
          sep_low = c.above;
          sep_high = Before-at hi t s c.at_most a.sep_high;
          lower = record {
            ordered = c.front;
            synced = ap (take n) p.synced ∙ take-heads_for n ks;
            sized = omega (arith, length-take n ks, p.sized);
            parallel = omega (arith, length-take n ks, length-take n left.vals, p.parallel);
            ending = tt;
            linked = p.linked;
          };
          upper =
              joined-LeafFits (some t) hi s (drop n ks) right.keys (drop n left.vals) right.vals
                (drop n left.heads) right.heads right.next
                (back-Before (some s) t (drop n ks) (omega (arith, e, length-drop n ks)) c.back)
                a.sep_high c.back q.ordered (ap (drop n) p.synced ∙ drop-heads_for n ks) q.synced
                (omega (arith, length-drop n ks, length-drop n left.vals, p.parallel)) q.parallel
                (omega (arith, e, length-drop n ks, small)) q.linked;
        },
        ap (λ r. zip (take n ks) (take n left.vals) ++ r)
              (zip-append (drop n ks) right.keys (drop n left.vals) right.vals
                (omega (arith, length-drop n ks, length-drop n left.vals, p.parallel)))
            ∙ sym (append_assoc (zip (take n ks) (take n left.vals)) _ _)
            ∙ ap (λ r. r ++ zip right.keys right.vals) (zip_cut n ks left.vals p.parallel),
      )

last_or-get_or :
    (d k : Bytes) (ks : List Bytes) → last_or d (k ∷ ks) ≡ get_or (k ∷ ks) (length ks) []
unfolding last_or
last_or-get_or d k [] = refl
last_or-get_or d k (q ∷ ks) = last_or-get_or k q ks

last_at : (ks : List Bytes) (m : ℕ) → length ks ≡ suc m → last_or [] ks ≡ get_or ks m []
last_at [] m e = absurd (omega (arith, e))
last_at (k ∷ ks) m e =
    let f : length ks ≡ m = omega (arith, e) in
    last_or-get_or [] k ks ∙ ap (λ i. get_or (k ∷ ks) i []) f

drop_whole : (n : ℕ) (ks : List Bytes) → length ks ≡ n → drop n ks ≡ []
drop_whole zero [] e = refl
drop_whole zero (k ∷ ks) e = absurd (omega (arith, e))
drop_whole (suc n) [] e = refl
drop_whole (suc n) (k ∷ ks) e = drop_whole n ks (omega (arith, e))

internal_borrows :
    (n : ℕ) (lo hi : Bound) (three : Siblings (suc n)) (m : ℕ)
    → fullness (suc n) three.0 ≡ suc (suc m)
    → Around (suc n) lo hi three
    → fullness (suc n) three.2 < max_keys
    → Around (suc n) lo hi (borrow_from_left (suc n) three)
      × (both (suc n) (borrow_from_left (suc n) three) ≡ both (suc n) three)
unfolding Fits entries_of borrow_from_left fullness all_but_last last_part heads_for
internal_borrows n lo hi (left, (s, head), right) m count a small =
    let (f, z, p) = a.lower in
    let (g, _, q) = a.upper in
    let ks = left.keys in
    let cs = left.children in
    let x = Chain-length (Fits false n) (entries_of n) lo (some s) ks cs p in
    let y = Chain-length (Fits false n) (entries_of n) (some s) hi right.keys right.children q in
    let size : length ks ≡ suc m = omega (arith, x, count) in
    let c = chain_cut (Fits false n) lo (some s) m ks cs (omega (arith, size)) p in
    let t = get_or ks m [] in
    let e : length ks - 1 ≡ m = omega (arith, size) in
    let e' : length left.heads - 1 ≡ m = rw f (rw (length-heads_for ks) e) in
    let e'' : length cs - 1 ≡ suc m = omega (arith, count) in
    let l = last_at ks m size in
    let nothing = drop_whole (suc m) ks size in
    let back : Chain (Fits false n) (some t) (some s) [] (drop (suc m) cs) =
      subst (λ rest. Chain (Fits false n) (some t) (some s) rest (drop (suc m) cs)) nothing
        c.back in
    rw (e, e', e'', l)
      (
        record {
          sep_key = c.key;
          sep_head = ap (last_or 0) f ∙ head_of_last ks ∙ ap key_head l;
          sep_low = c.above;
          sep_high = Before-at hi t s (bytes_lt_asym t s c.before) a.sep_high;
          lower =
              (ap (take m) f ∙ take-heads_for m ks, omega (arith, z, length-take m ks), c.front);
          upper =
              joined-Fits n (some t) hi s [] right.keys (drop (suc m) cs) right.children []
                right.heads head a.sep_key c.before a.sep_high back q refl g a.sep_head
                (omega (arith, y, small));
        },
        ap (λ r. flat (entries_of n) (take (suc m) cs) ++ r)
              (flat-append (entries_of n) (drop (suc m) cs) right.children)
            ∙ sym (append_assoc (flat (entries_of n) (take (suc m) cs)) _ _)
            ∙ ap (λ r. r ++ flat (entries_of n) right.children)
                (flat_cut (entries_of n) (suc m) cs),
      )

pub borrow_from_left-Around :
    (n : ℕ) (lo hi : Bound) (three : Siblings n)
    → Around n lo hi three
    → 2 < fullness n three.0
    → fullness n three.2 < max_keys
    → Around n lo hi (borrow_from_left n three) × (both n (borrow_from_left n three) ≡ both n three)
borrow_from_left-Around zero lo hi three a rich small =
    leaf_borrows lo hi three (fullness 0 three.0 - 2) (omega (arith, rich)) a small
borrow_from_left-Around (suc n) lo hi three a rich small =
    internal_borrows n lo hi three (fullness (suc n) three.0 - 2) (omega (arith, rich)) a small
