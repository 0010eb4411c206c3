-- ===== src/BTree/Mend.antt =====
-- Borrowing and merging keep two siblings well formed, and their entries.
use mathlib.Core.List.{append_assoc}
use mathlib.Core.Path.{subst}
use hench_db.Prelude.{
  ℕ, zero, suc, ◌≡◌, ◌<◌, ◌≤◌, ◌+◌, refl, ◌∙◌, ap, false, some, List, [], ◌∷◌, ◌++◌, get_or, take,
  drop, arith, length-take, length-drop,
}
use hench_db.Bytes.{Bytes, bytes_lt}
use hench_db.BTree.{Node, Leaf, heads_for, key_head, last_or, max_keys}
use hench_db.BTree.Search.{IsKey}
use hench_db.BTree.Entries.{Entries}
use hench_db.BTree.Chain.{Bound, Exceeds, Before, flat, Exceeds-trans}
use hench_db.BTree.Fits.{Fits, entries_of, zip}
use hench_db.BTree.Cut.{Cut, cut, back-Before, take-heads_for, zip_cut, flat_cut, chain_cut}
use hench_db.BTree.Append.{zip-append, drop-heads_for, flat-append, joined-LeafFits, joined-Fits}
use hench_db.BTree.Pair.{Chain-length}
use hench_db.BTree.Siblings.{Siblings, fullness, borrow_from_right, fuse}

-- Two siblings that fit around their separator.
pub record Around (n : ℕ) (lo hi : Bound) (three : Siblings n) : Type 0 where
  pub sep_key : IsKey three.1.0
  pub sep_head : three.1.1 ≡ key_head three.1.0
  pub sep_low : Exceeds lo three.1.0
  pub sep_high : Before three.1.0 hi
  pub lower : Fits false n lo (some three.1.0) three.0
  pub upper : Fits false n (some three.1.0) hi three.2

abbrev pub both : (n : ℕ) → Siblings n → Entries
both n three = entries_of n three.0 ++ entries_of n three.2

pub fuse-Fits :
    (n : ℕ) (lo hi : Bound) (three : Siblings n)
    → Around n lo hi three
    → fullness n three.0 + fullness n three.2 ≤ max_keys
    → Fits false n lo hi (fuse n three) × (entries_of n (fuse n three) ≡ both n three)
unfolding Fits entries_of fuse fullness
fuse-Fits zero lo hi (left, (s, head), right) a z =
    let p = a.lower in
    let q = a.upper in
    (
      joined-LeafFits lo hi s left.keys right.keys left.vals right.vals left.heads right.heads
          right.next a.sep_low a.sep_high p.ordered q.ordered p.synced q.synced p.parallel
          q.parallel z q.linked,
      zip-append left.keys right.keys left.vals right.vals p.parallel,
    )
fuse-Fits (suc n) lo hi (left, (s, head), right) a z =
    let (e, _, p) = a.lower in
    let (f, _, q) = a.upper in
    let c = Chain-length (Fits false n) (entries_of n) lo (some s) left.keys left.children p in
    let d = Chain-length (Fits false n) (entries_of n) (some s) hi right.keys right.children q in
    (
      joined-Fits n lo hi s left.keys right.keys left.children right.children left.heads right.heads
          head a.sep_key a.sep_low a.sep_high p q e f a.sep_head (omega (arith, c, d, z)),
      flat-append (entries_of n) left.children right.children,
    )

first_head : (ks : List Bytes) → get_or (heads_for ks) 0 0 ≡ key_head (get_or ks 0 [])
unfolding heads_for key_head hench_db.Bytes.from_be hench_db.BTree.zero_padded
first_head [] = refl
first_head (k ∷ ks) = refl

first_last : (ks : List Bytes) → last_or [] (take 1 ks) ≡ get_or ks 0 []
unfolding last_or
first_last [] = refl
first_last (k ∷ ks) = refl

pub borrow_from_right-Around :
    (n : ℕ) (lo hi : Bound) (three : Siblings n)
    → Around n lo hi three
    → fullness n three.0 < max_keys
    → 2 < fullness n three.2
    → Around n lo hi (borrow_from_right n three)
      × (both n (borrow_from_right n three) ≡ both n three)
unfolding Fits entries_of borrow_from_right fullness heads_for
borrow_from_right-Around zero lo hi (left, (s, head), right) a small rich =
    let p = a.lower in
    let q = a.upper in
    let js = right.keys in
    let c : Cut (some s) hi 0 js (get_or js 0 []) =
      subst (Cut (some s) hi 0 js) (first_last js) (cut (some s) hi 0 js (omega arith) q.ordered) in
    (
      record {
        sep_key = c.key;
        sep_head = rw q.synced (first_head js);
        sep_low = Exceeds-trans lo s (get_or js 0 []) a.sep_low c.above;
        sep_high =
            back-Before hi (get_or js 0 []) (drop 1 js) (omega (arith, length-drop 1 js)) c.back;
        lower =
            joined-LeafFits lo (some (get_or js 0 [])) s left.keys (take 1 js) left.vals
              (take 1 right.vals) left.heads (take 1 right.heads) left.next a.sep_low c.above
              p.ordered c.front p.synced (ap (take 1) q.synced ∙ take-heads_for 1 js) p.parallel
              (omega (arith, length-take 1 js, length-take 1 right.vals, q.parallel))
              (omega (arith, length-take 1 js, small)) p.linked;
        upper = record {
          ordered = c.back;
          synced = ap (drop 1) q.synced ∙ drop-heads_for 1 js;
          sized = omega (arith, length-drop 1 js, q.sized);
          parallel = omega (arith, length-drop 1 js, length-drop 1 right.vals, q.parallel);
          ending = tt;
          linked = q.linked;
        };
      },
      ap (λ t. t ++ zip (drop 1 js) (drop 1 right.vals))
            (zip-append left.keys (take 1 js) left.vals (take 1 right.vals) p.parallel)
          ∙ append_assoc (zip left.keys left.vals) _ _
          ∙ ap (λ t. zip left.keys left.vals ++ t) (zip_cut 1 js right.vals q.parallel),
    )
borrow_from_right-Around (suc n) lo hi (left, (s, head), right) a small rich =
    let (e, _, p) = a.lower in
    let (f, z, q) = a.upper in
    let js = right.keys in
    let ds = right.children in
    let x = Chain-length (Fits false n) (entries_of n) lo (some s) left.keys left.children p in
    let y = Chain-length (Fits false n) (entries_of n) (some s) hi js ds q in
    let c = chain_cut (Fits false n) (some s) hi 0 js ds (omega (arith, y, rich)) q in
    (
      record {
        sep_key = c.key;
        sep_head = rw f (first_head js);
        sep_low = Exceeds-trans lo s (get_or js 0 []) a.sep_low c.above;
        sep_high = c.before;
        lower =
            joined-Fits n lo (some (get_or js 0 [])) s left.keys [] left.children (take 1 ds)
              left.heads [] head a.sep_key a.sep_low c.above p c.front e refl a.sep_head
              (omega (arith, x, small));
        upper = (ap (drop 1) f ∙ drop-heads_for 1 js, omega (arith, length-drop 1 js, z), c.back);
      },
      ap (λ t. t ++ flat (entries_of n) (drop 1 ds))
            (flat-append (entries_of n) left.children (take 1 ds))
          ∙ append_assoc (flat (entries_of n) left.children) _ _
          ∙ ap (λ t. flat (entries_of n) left.children ++ t) (flat_cut (entries_of n) 1 ds),
    )
