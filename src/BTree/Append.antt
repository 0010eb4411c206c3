-- ===== src/BTree/Append.antt =====
-- Well-formed parts put together across a separator.
use mathlib.Core.List.{append_assoc}
use hench_db.Prelude.{
  ℕ, zero, suc, ◌≡◌, ◌≤◌, ◌+◌, refl, sym, ◌∙◌, ap, Bool, true, false, none, some, List, [], ◌∷◌,
  ◌++◌, length, drop, arith, length-append,
}
use hench_db.Bytes.{Bytes, bytes_lt}
use hench_db.Bytes.Order.{bytes_lt_asym, le_lt_trans}
use hench_db.BTree.{Node, heads_for, key_head, last_or, max_keys}
use hench_db.BTree.Search.{IsKey}
use hench_db.BTree.Entries.{Entries}
use hench_db.BTree.Chain.{Bound, Exceeds, AtMost, Before, Chain, flat, Exceeds-trans, Before-trans}
use hench_db.BTree.Fits.{LeafFits, Fits, Ordered, bounded, zip}

AtMost-at : (hi : Bound) (k s : Bytes) → AtMost k (some s) → Before s hi → AtMost k hi
AtMost-at none k s a b = tt
AtMost-at (some h) k s a b = bytes_lt_asym k h (le_lt_trans k s h a b)

pub Before-at : (hi : Bound) (k s : Bytes) → AtMost k (some s) → Before s hi → Before k hi
Before-at none k s a b = tt
Before-at (some h) k s a b = le_lt_trans k s h a b

-- Keys in order stay so under a lower bound below.
pub Ordered-lower :
    (lo hi : Bound) (s : Bytes) (ks : List Bytes)
    → ((x : Bytes) → bytes_lt s x ≡ true → Exceeds lo x)
    → Ordered (some s) hi ks
    → Ordered lo hi ks
Ordered-lower lo hi s [] f o = tt
Ordered-lower lo hi s (k ∷ ks) f (b, l, a, o) = (b, f k l, a, o)

Ordered-append :
    (lo hi : Bound) (s : Bytes) (ks js : List Bytes)
    → Before s hi
    → ((x : Bytes) → bytes_lt s x ≡ true → Exceeds lo x)
    → Ordered lo (some s) ks
    → Ordered (some s) hi js
    → Ordered lo hi (ks ++ js)
Ordered-append lo hi s [] js u f o p = Ordered-lower lo hi s js f p
Ordered-append lo hi s (k ∷ ks) js u f (b, l, a, o) p = (
  b,
  l,
  AtMost-at hi k s a u,
  Ordered-append (some k) hi s ks js u (λ x h. le_lt_trans k s x a h) o p,
)

pub zip-append :
    (ks js vs ws : List Bytes)
    → length vs ≡ length ks
    → zip (ks ++ js) (vs ++ ws) ≡ zip ks vs ++ zip js ws
zip-append [] js [] ws e = refl
zip-append [] js (v ∷ vs) ws e = absurd (omega arith)
zip-append (k ∷ ks) js [] ws e = absurd (omega arith)
zip-append (k ∷ ks) js (v ∷ vs) ws e = ap (λ t. (k, v) ∷ t) (zip-append ks js vs ws (omega arith))

heads_for-append : (ks js : List Bytes) → heads_for (ks ++ js) ≡ heads_for ks ++ heads_for js
unfolding heads_for
heads_for-append [] js = refl
heads_for-append (k ∷ ks) js = ap (λ t. key_head k ∷ t) (heads_for-append ks js)

pub drop-heads_for : (m : ℕ) (ks : List Bytes) → drop m (heads_for ks) ≡ heads_for (drop m ks)
unfolding heads_for
drop-heads_for zero ks = refl
drop-heads_for (suc m) [] = refl
drop-heads_for (suc m) (k ∷ ks) = drop-heads_for m ks

pub length-heads_for : (ks : List Bytes) → length (heads_for ks) ≡ length ks
unfolding heads_for
length-heads_for [] = refl
length-heads_for (k ∷ ks) = ap suc (length-heads_for ks)

pub last_or-heads_for :
    (d : Bytes) (ks : List Bytes) → last_or (key_head d) (heads_for ks) ≡ key_head (last_or d ks)
unfolding last_or heads_for
last_or-heads_for d [] = refl
last_or-heads_for d (k ∷ ks) = last_or-heads_for k ks

module _ {C : Type 0} (P : Bound → Bound → C → Type 0) where
  Chain-append :
      (lo hi : Bound) (s : Bytes) (ks js : List Bytes) (cs ds : List C)
      → IsKey s
      → Exceeds lo s
      → Before s hi
      → Chain P lo (some s) ks cs
      → Chain P (some s) hi js ds
      → Chain P lo hi (ks ++ (s ∷ js)) (cs ++ ds)
  Chain-append lo hi s [] js [] ds b l u h k = absurd h
  Chain-append lo hi s [] js (c ∷ []) ds b l u h k = (b, l, u, h, k)
  Chain-append lo hi s [] js (c ∷ d ∷ cs) ds b l u h k = absurd h
  Chain-append lo hi s (q ∷ ks) js [] ds b l u h k = absurd h
  Chain-append lo hi s (q ∷ ks) js (c ∷ cs) ds b l u (b', l', u', p, h) k =
      (b', l', Before-trans hi q s u' u, p, Chain-append (some q) hi s ks js cs ds b u' u h k)

pub flat-append :
    {C : Type 0} (entries : C → Entries) (cs ds : List C)
    → flat entries (cs ++ ds) ≡ flat entries cs ++ flat entries ds
flat-append entries [] ds = refl
flat-append entries (c ∷ cs) ds =
    ap (λ t. entries c ++ t) (flat-append entries cs ds) ∙ sym (append_assoc (entries c) _ _)

above_low :
    (lo : Bound) (s : Bytes) → Exceeds lo s → (x : Bytes) → bytes_lt s x ≡ true → Exceeds lo x
above_low lo s l x h = Exceeds-trans lo s x l h

-- The lists of two leaves, one after the other.
pub joined-LeafFits :
    (lo hi : Bound) (s : Bytes) (ks js vs ws : List Bytes) (hs gs : List ℕ) (next : Bool)
    → Exceeds lo s
    → Before s hi
    → Ordered lo (some s) ks
    → Ordered (some s) hi js
    → hs ≡ heads_for ks
    → gs ≡ heads_for js
    → length vs ≡ length ks
    → length ws ≡ length js
    → length ks + length js ≤ max_keys
    → next ≡ bounded hi
    → LeafFits false lo hi
        (record { keys = ks ++ js; heads = hs ++ gs; vals = vs ++ ws; next = next })
joined-LeafFits lo hi s ks js vs ws hs gs next l u o p h g e f z linked = record {
  ordered = Ordered-append lo hi s ks js u (above_low lo s l) o p;
  synced = rw (h, g) (sym (heads_for-append ks js));
  sized = omega (arith, length-append ks js, z);
  parallel = omega (arith, length-append ks js, length-append vs ws, e, f);
  ending = tt;
  linked = linked;
}

-- The lists of two internal nodes, with the separator between them.
pub joined-Fits :
    (n : ℕ) (lo hi : Bound) (s : Bytes) (ks js : List Bytes) (cs ds : List (Node n))
    (hs gs : List ℕ) (head : ℕ)
    → IsKey s
    → Exceeds lo s
    → Before s hi
    → Chain (Fits false n) lo (some s) ks cs
    → Chain (Fits false n) (some s) hi js ds
    → hs ≡ heads_for ks
    → gs ≡ heads_for js
    → head ≡ key_head s
    → length ks + suc (length js) ≤ max_keys
    → (hs ++ (head ∷ gs) ≡ heads_for (ks ++ (s ∷ js)))
      × (length (ks ++ (s ∷ js)) ≤ max_keys)
      × Chain (Fits false n) lo hi (ks ++ (s ∷ js)) (cs ++ ds)
unfolding heads_for
joined-Fits n lo hi s ks js cs ds hs gs head b l u h k e f g z = (
  rw (e, f, g) (sym (heads_for-append ks (s ∷ js))),
  omega (arith, length-append ks (s ∷ js), z),
  Chain-append (Fits false n) lo hi s ks js cs ds b l u h k,
)
